-- ===== src/Memory/Steps.antt =====
-- The store of the source does what the store does that a reader expects, whose keys are gone when they
-- expire: the simulation of one by the other.
use yorr.Prelude.{
  ℕ, ◌+◌, String, ◌≡◌, refl, sym, ap, ◌∙◌, inl, inr, Bool, true, false, ◌||◌, Option, none, some,
  Dict, lookup, delete, keys, lookup-some_iff, lookup-delete, eq_refl, length, includes, Distinct,
  leb, ltb, arith, Bool-cases, Option-cases, Result, ok, err,
}
use yorr.Memory.Keyspace.{Entry, Keyspace, is_expired, alive, live, create, put, sweep, oom_message}
use yorr.Memory.Commands.{Numbers, Plan, untouched, dropped, write, Reply, is_some}
use yorr.Memory.Execute.{lazy, has_room, carry_out, settle, perform}
use yorr.Memory.Eager.{eager, eager_make}
use yorr.Memory.Laws.{
  lives, not_in-alive, Distinct-alive, lookup-alive-some, lookup-alive-none, lookup-alive_expired,
  delete-absent, alive-delete, alive-alive, alive-insert, length-alive, Distinct-insert,
  Distinct-delete,
}

module _ {Score : Type 0} where
  absent_of_none :
      (k : String) (m : Dict (Entry Score)) → lookup k m ≡ none → includes (keys m) k ≡ false
  absent_of_none k m e = rw (lookup-some_iff k m) (rw e refl)

  deleted : (k : String) (m : Dict (Entry Score)) → lookup k (delete k m) ≡ none
  deleted k m = rw (lookup-delete k k m) (rw (eq_refl k) refl)

  -- The eager store is what of the lazy one has not expired, and it replies the same.
  abbrev pub Matches {ℓ} : {R : Type ℓ} → ℕ → Keyspace Score × R → Keyspace Score × R → Type ℓ
  Matches now x y = (y ≡ (sweep x.0 now, x.1)) × Distinct (keys x.0.entries)

  -- The entry that a key is reached by, in both stores.
  pub record Reached (s : Keyspace Score) (now : ℕ) (key : String)
      (reach : Option (Entry Score) × Keyspace Score) : Type 0 where
    pub found : lookup key (alive now s.entries) ≡ reach.0
    pub unseen : sweep s now ≡ sweep reach.1 now
    pub kept : lookup key reach.1.entries ≡ reach.0
    pub fresh : lives now reach.0 ≡ true
    pub distinct : Distinct (keys reach.1.entries)

  pub reached :
      (s : Keyspace Score) (now : ℕ) (key : String)
      → Distinct (keys s.entries)
      → Reached s now key (live s now key)
  unfolding live
  reached s now key d = elim (Option-cases (lookup key s.entries)) [
    | inl absent ↦
        rw (absent, live)
          (record {
            found = lookup-alive-none now key s.entries absent;
            unseen = refl;
            kept = absent;
            fresh = refl;
            distinct = d;
          })
    | inr (e, there) ↦ elim (Bool-cases (is_expired now e)) [
      | inl up ↦
          let found = lookup-alive_expired now key s.entries e d there up in
          rw (there, live)
            (rw up (record {
              found = found;
              unseen =
                  ap (λ m. record s { entries = m })
                    (sym (
                      alive-delete now key s.entries
                      ∙ delete-absent key (alive now s.entries)
                          (absent_of_none key (alive now s.entries) found)));
              kept = deleted key s.entries;
              fresh = refl;
              distinct = Distinct-delete key s.entries d;
            }))
      | inr more ↦
          rw (there, live)
            (rw more (record {
              found = lookup-alive-some now key s.entries e there more;
              unseen = refl;
              kept = there;
              fresh = rw more refl;
              distinct = d;
            }))
    ]
  ]

  -- The eager store reaches the same entry.
  pub both :
      {s : Keyspace Score} {now : ℕ} {key : String} {reach : Option (Entry Score) × Keyspace Score}
      → Reached s now key reach
      → eager.reach (sweep s now) now key ≡ (reach.0, sweep reach.1 now)
  both r = rw (r.found, r.unseen) refl

  -- A write is seen the same in both stores.
  sweep-put :
      (s : Keyspace Score) (now : ℕ) (key : String) (e : Entry Score)
      → lives now (lookup key s.entries) ≡ true
      → sweep (put (sweep s now) key e) now ≡ sweep (put s key e) now
  sweep-put s now key e there =
      ap (λ m. record s { entries = m }) (sym (alive-insert now key e s.entries there))

  pub sweep-sweep : (s : Keyspace Score) (now : ℕ) → sweep (sweep s now) now ≡ sweep s now
  sweep-sweep s now =
      ap (λ m. record s { entries = m }) (alive-alive now now s.entries (omega arith))

  abbrev Made : Keyspace Score → ℕ → String → Entry Score → Type 0
  Made s now key e =
      (eager_make (sweep s now) now key e
        ≡ ((create s now key e).0, sweep (create s now key e).1 now))
      × Distinct (keys (create s now key e).1.entries)

  made :
      (s : Keyspace Score) (now : ℕ) (key : String) (e : Entry Score)
      → Distinct (keys s.entries)
      → lookup key s.entries ≡ none
      → Made s now key e
  unfolding create eager_make
  made s now key e d none_yet =
      let absent = absent_of_none key s.entries none_yet in
      let gone = not_in-alive now key s.entries absent in
      let written = sweep-put s now key e (rw none_yet refl) in
      let inserted = Distinct-insert key e s.entries d in
      elim (Option-cases s.script_creates) [
        | inr (declared, in_script) ↦ elim (Bool-cases (includes declared key)) [
          | inl may ↦ rw (absent, gone, in_script) (rw may (ap (λ t. (none, t)) written, inserted))
          | inr must_not ↦ rw (absent, gone, in_script) (rw must_not (refl, d))
        ]
        | inl alone ↦ elim (Bool-cases (ltb (length s.entries) s.max_keys)) [
          | inl free ↦
              let free_too : ltb (length (alive now s.entries)) s.max_keys ≡ true =
                ground (arith, length-alive now s.entries) in
              rw (absent, gone, alone) (rw (free, free_too) (ap (λ t. (none, t)) written, inserted))
          | inr full ↦ elim (Bool-cases (ltb (length (alive now s.entries)) s.max_keys)) [
            | inl room ↦
                rw (absent, gone, alone)
                  (rw (full, room)
                    (
                      refl,
                      Distinct-insert key e (alive now s.entries) (Distinct-alive now s.entries d),
                    ))
            | inr still_full ↦
                rw (absent, gone, alone)
                  (rw (full, still_full)
                    (
                      ap (λ t. (some oom_message, t)) (sym (sweep-sweep s now)),
                      Distinct-alive now s.entries d,
                    ))
          ]
        ]
      ]

  pub roomy :
      (s : Keyspace Score) (now n : ℕ)
      → Distinct (keys s.entries)
      → ((eager {Score = Score}).room_for (sweep s now) now n
          ≡ ((has_room s now n).0, sweep (has_room s now n).1 now))
        × Distinct (keys (has_room s now n).1.entries)
  unfolding has_room
  roomy s now n d = elim (Bool-cases (leb n 0 || leb (length s.entries + n) s.max_keys)) [
    | inl free ↦
        let free_too : (leb n 0 || leb (length (alive now s.entries) + n) s.max_keys) ≡ true =
          ground (arith, length-alive now s.entries) in
        rw free (rw free_too refl, d)
    | inr full ↦
        let needed : leb n 0 ≡ false = ground arith in
        rw full (
          rw needed (
              ap (λ t. (leb (length (alive now s.entries) + n) s.max_keys, t))
                (sym (sweep-sweep s now))),
          Distinct-alive now s.entries d,
        )
  ]

  nothing_there : (e : Option (Entry Score)) → is_some e ≡ false → e ≡ none
  unfolding is_some
  nothing_there none h = refl
  nothing_there (some e) h = cc

-- The answer to a command that has made a key, or been refused it.
abbrev answered : Reply → Option String → Result Reply
answered reply refusal = elim refusal [ none ↦ ok reply | some code ↦ err code ]

module _ (N : Numbers) where
  open N use {Score}

  carry_out-Matches :
      (s : Keyspace Score) (now : ℕ) (key : String) (there : Bool) (next : Plan Score)
      (reply : Reply)
      → Distinct (keys s.entries)
      → there ≡ is_some (lookup key s.entries)
      → lives now (lookup key s.entries) ≡ true
      → Matches now
          (carry_out N lazy s now key there next reply)
          (carry_out N eager (sweep s now) now key there next reply)
  unfolding carry_out
  carry_out-Matches s now key there untouched reply d h v = (refl, d)
  carry_out-Matches s now key there dropped reply d h v = (
    ap (λ m. (record s { entries = m }, ok reply)) (sym (alive-delete now key s.entries)),
    Distinct-delete key s.entries d,
  )
  carry_out-Matches s now key true (write e) reply d h v =
      (ap (λ t. (t, ok reply)) (sweep-put s now key e v), Distinct-insert key e s.entries d)
  carry_out-Matches s now key false (write e) reply d h v =
      let none_yet : lookup key s.entries ≡ none = nothing_there (lookup key s.entries) (sym h) in
      let (same, distinct) = made s now key e d none_yet in
      (ap (λ p. (p.1, answered reply p.0)) same, distinct)

  settle-Matches :
      (s : Keyspace Score) (now : ℕ) (key : String) (there : Bool)
      (decision : Result (Plan Score × Reply))
      → Distinct (keys s.entries)
      → there ≡ is_some (lookup key s.entries)
      → lives now (lookup key s.entries) ≡ true
      → Matches now
          (settle N lazy s now key there decision)
          (settle N eager (sweep s now) now key there decision)
  unfolding settle
  settle-Matches s now key there (err code) d h v = (refl, d)
  settle-Matches s now key there (ok (next, reply)) d h v =
      carry_out-Matches s now key there next reply d h v

  pub perform-Matches :
      (s : Keyspace Score) (now : ℕ) (key : String)
      (decide : Option (Entry Score) → Result (Plan Score × Reply))
      → Distinct (keys s.entries)
      → Matches now (perform N lazy s now key decide) (perform N eager (sweep s now) now key decide)
  unfolding perform
  perform-Matches s now key decide d =
      let r = reached s now key d in
      let (e, t) = live s now key in
      let (same, distinct) =
        settle-Matches t now key (is_some e) (decide e) r.distinct (ap is_some (sym r.kept))
          (rw r.kept r.fresh) in
      (ap (λ p. settle N eager p.1 now key (is_some p.0) (decide p.0)) (both r) ∙ same, distinct)
