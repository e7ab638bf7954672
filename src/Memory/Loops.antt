-- ===== src/Memory/Loops.antt =====
-- The commands on several keys, in the store of the source and in the one that a reader expects.
use yorr.Prelude.{
  ℕ, ◌+◌, String, pos, ◌≡◌, refl, sym, ap, ◌∙◌, inl, inr, Bool, true, false, ◌&&◌, List, [], ◌∷◌,
  Dict, keys, keep, lookup-some_iff, includes, Distinct, eq_iff, eq_refl, if◌then◌else◌, arith,
  Bool-cases, ok,
}
use yorr.Memory.Keyspace.{Entry, Keyspace, is_expired, alive, live, remove, sweep}
use yorr.Memory.Commands.{Numbers, number, strings, is_some, plan}
use yorr.Memory.Execute.{
  lazy, Command, on_key, exists_keys, del_keys, keys_like, flushall, count_live, del_live, matching,
  absent_keys, exec,
}
use yorr.Memory.Eager.{eager}
use yorr.Memory.Laws.{not_in-alive, alive-delete, Distinct-delete}
use yorr.Memory.Steps.{Matches, reached, both, perform-Matches}

module _ (N : Numbers) where
  open N use {Score}

  count_live-Matches :
      (s : Keyspace Score) (now : ℕ) (names : List String)
      → Distinct (keys s.entries)
      → Matches now (count_live N lazy s now names) (count_live N eager (sweep s now) now names)
  unfolding count_live
  count_live-Matches s now [] d = (refl, d)
  count_live-Matches s now (key ∷ rest) d =
      let r = reached s now key d in
      let (e, t) = live s now key in
      let (same, distinct) = count_live-Matches t now rest r.distinct in
      (
        ap
              (λ p. (
                (count_live N eager p.1 now rest).0,
                if is_some p.0
                    then (count_live N eager p.1 now rest).1 + 1
                    else (count_live N eager p.1 now rest).1,
              ))
              (both r)
            ∙ ap (λ q. (q.0, if is_some e then q.1 + 1 else q.1)) same,
        distinct,
      )

  pub absent_keys-Matches :
      (s : Keyspace Score) (now : ℕ) (names : List String)
      → Distinct (keys s.entries)
      → Matches now (absent_keys N lazy s now names) (absent_keys N eager (sweep s now) now names)
  unfolding absent_keys
  absent_keys-Matches s now [] d = (refl, d)
  absent_keys-Matches s now (key ∷ rest) d =
      let r = reached s now key d in
      let (e, t) = live s now key in
      let (same, distinct) = absent_keys-Matches t now rest r.distinct in
      (
        ap
              (λ p. (
                (absent_keys N eager p.1 now rest).0,
                if is_some p.0
                    then (absent_keys N eager p.1 now rest).1
                    else key ∷ (absent_keys N eager p.1 now rest).1,
              ))
              (both r)
            ∙ ap (λ q. (q.0, if is_some e then q.1 else key ∷ q.1)) same,
        distinct,
      )

  matching-Matches :
      (s : Keyspace Score) (now : ℕ) (like : String → Bool) (names : List String)
      → Distinct (keys s.entries)
      → Matches now
          (matching N lazy s now like names)
          (matching N eager (sweep s now) now like names)
  unfolding matching
  matching-Matches s now like [] d = (refl, d)
  matching-Matches s now like (key ∷ rest) d =
      let r = reached s now key d in
      let (e, t) = live s now key in
      let (same, distinct) = matching-Matches t now like rest r.distinct in
      (
        ap
              (λ p. (
                (matching N eager p.1 now like rest).0,
                if is_some p.0 && like key
                    then key ∷ (matching N eager p.1 now like rest).1
                    else (matching N eager p.1 now like rest).1,
              ))
              (both r)
            ∙ ap (λ q. (q.0, if is_some e && like key then key ∷ q.1 else q.1)) same,
        distinct,
      )

  -- A key that is there is taken out.
  abbrev taken : Keyspace Score → String → Bool → Keyspace Score
  taken s key there = if there then remove s key else s

  sweep-taken :
      (s : Keyspace Score) (now : ℕ) (key : String) (there : Bool)
      → taken (sweep s now) key there ≡ sweep (taken s key there) now
  sweep-taken s now key true =
      ap (λ m. record s { entries = m }) (sym (alive-delete now key s.entries))
  sweep-taken s now key false = refl

  Distinct-taken :
      (s : Keyspace Score) (key : String) (there : Bool)
      → Distinct (keys s.entries)
      → Distinct (keys (taken s key there).entries)
  Distinct-taken s key true d = Distinct-delete key s.entries d
  Distinct-taken s key false d = d

  del_live-Matches :
      (s : Keyspace Score) (now : ℕ) (names : List String)
      → Distinct (keys s.entries)
      → Matches now (del_live N lazy s now names) (del_live N eager (sweep s now) now names)
  unfolding del_live
  del_live-Matches s now [] d = (refl, d)
  del_live-Matches s now (key ∷ rest) d =
      let r = reached s now key d in
      let (e, t) = live s now key in
      let (same, distinct) =
        del_live-Matches (taken t key (is_some e)) now rest
          (Distinct-taken t key (is_some e) r.distinct) in
      let after : Bool → Keyspace Score → Keyspace Score × ℕ = λ there u. (
        (del_live N eager u now rest).0,
        if there then (del_live N eager u now rest).1 + 1 else (del_live N eager u now rest).1,
      ) in
      (
        ap (λ p. after (is_some p.0) (taken p.1 key (is_some p.0))) (both r)
            ∙ ap (after (is_some e)) (sweep-taken t now key (is_some e))
            ∙ ap (λ q. (q.0, if is_some e then q.1 + 1 else q.1)) same,
        distinct,
      )

  -- `KEYS` asks the store of the source for more names, which are not there.
  matching-eager :
      (s : Keyspace Score) (now : ℕ) (like : String → Bool) (names : List String)
      → matching N eager s now like names
        ≡ (s, keep (λ key. includes (keys s.entries) key && like key) names)
  unfolding matching
  matching-eager s now like [] = refl
  matching-eager s now like (key ∷ rest) =
      rw (matching-eager s now like rest, lookup-some_iff key s.entries) refl

other :
    {Score : Type 0} (now : ℕ) (j k : String) (m : Dict (Entry Score))
    → includes (keys m) j ≡ false
    → includes (keys m) k ≡ true
    → includes (keys (alive now m)) k ≡ false
    → includes (j ∷ keys (alive now m)) k ≡ false
other now j k m fresh h g = ground (arith, eq_iff j k)

keep-alive :
    {Score : Type 0} (now : ℕ) (like : String → Bool) (m : Dict (Entry Score))
    → Distinct (keys m)
    → ((k : String)
        → includes (keys m) k ≡ true
        → includes (keys (alive now m)) k ≡ false
        → like k ≡ false)
    → keep like (keys m) ≡ keep like (keys (alive now m))
unfolding alive
keep-alive now like [] d out = refl
keep-alive now like ((j, e) ∷ m) (fresh, d) out = elim (Bool-cases (is_expired now e)) [
  | inl up ↦
      let unlike : like j ≡ false =
        out j (ground (arith, eq_refl j)) (rw up (not_in-alive now j m fresh)) in
      rw (up, unlike) (keep-alive now like m d (λ k h g. out k (ground arith) (rw up g)))
  | inr more ↦ rw more (
      ap (λ names. if like j then j ∷ names else names)
        (keep-alive now like m d
          (λ k h g. out k (ground arith) (rw more (other now j k m fresh h g)))))
]

module _ (N : Numbers) where
  open N use {Score}

  keys_like-Matches :
      (s : Keyspace Score) (now : ℕ) (like : String → Bool)
      → Distinct (keys s.entries)
      → Matches now
          (matching N lazy s now like (keys s.entries))
          (matching N eager (sweep s now) now like (keys (alive now s.entries)))
  keys_like-Matches s now like d =
      let (same, distinct) = matching-Matches N s now like (keys s.entries) d in
      let seen : String → Bool = λ key. includes (keys (alive now s.entries)) key && like key in
      let fewer = keep-alive now seen s.entries d (λ k h g. ground arith) in
      (
        matching-eager N (sweep s now) now like (keys (alive now s.entries))
            ∙ ap (λ found. (sweep s now, found)) (sym fewer)
            ∙ sym (matching-eager N (sweep s now) now like (keys s.entries))
            ∙ same,
        distinct,
      )

  pub exec-Matches :
      (s : Keyspace Score) (now : ℕ) (c : Command N)
      → Distinct (keys s.entries)
      → Matches now (exec N lazy s now c) (exec N eager (sweep s now) now c)
  unfolding exec alive
  exec-Matches s now (on_key key op) d = perform-Matches N s now key (plan N op now) d
  exec-Matches s now (exists_keys names) d =
      let (same, distinct) = count_live-Matches N s now names d in
      (ap (λ q. (q.0, ok (number (pos q.1)))) same, distinct)
  exec-Matches s now (del_keys names) d =
      let (same, distinct) = del_live-Matches N s now names d in
      (ap (λ q. (q.0, ok (number (pos q.1)))) same, distinct)
  exec-Matches s now (keys_like like) d =
      let (same, distinct) = keys_like-Matches s now like d in
      (ap (λ q. (q.0, ok (strings q.1))) same, distinct)
  exec-Matches s now flushall d = (refl, tt)
