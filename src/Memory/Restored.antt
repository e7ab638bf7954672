-- ===== src/Memory/Restored.antt =====
-- What is restored of a snapshot (redisSnapshot.ts).
use mathlib.Core.Path.{subst}
use mathlib.Core.List.{append_assoc, append-nil}
use yorr.Prelude.{
  ℕ, ◌+◌, ◌≤◌, ◌<◌, String, ◌≡◌, refl, sym, ap, ◌∙◌, inl, inr, Bool, true, false, Option, none,
  some, List, [], ◌∷◌, ◌++◌, Dict, insert, keys, map, length, length-append, includes, Distinct,
  ◌&&◌, ◌>>=◌, str_eq, eq_iff, ltb, if◌then◌else◌, arith, Bool-cases, Result, ok, err,
}
use yorr.Memory.Keyspace.{Value, text, hash, zset, Entry, Keyspace, is_expired, alive, create}
use yorr.Memory.Laws.{expired_later, Distinct-alive}
use yorr.Memory.Snapshot.{
  Line, line_of_value, line_of, snapshot, entry_of, parse_entry, parse_all, is_hollow, restorable,
  create_all, restore_parsed, restore, solid, has_finite, all_finite, read_as, read_first,
}

module _ {Score : Type 0} where
  parse-line_of_value :
      (is_finite : Score → Bool) (k : String) (v : Value Score) (at : Option ℕ)
      → parse_entry is_finite (line_of_value k v at)
        ≡ read_first (has_finite is_finite v) (line_of_value k v at)
  unfolding parse_entry line_of_value
  parse-line_of_value is_finite k (text v) at = refl
  parse-line_of_value is_finite k (hash m) at = refl
  parse-line_of_value is_finite k (zset m) at = refl

  read_both :
      (a b : Bool) (line : Line Score) (rest : List (Line Score))
      → (read_first a line >>= λ parsed. (read_as b rest >>= λ later. ok (parsed ∷ later)))
        ≡ read_as (a && b) (line ∷ rest)
  read_both true true line rest = refl
  read_both true false line rest = refl
  read_both false b line rest = refl

  parse_all-snapshot :
      (is_finite : Score → Bool) (now : ℕ) (m : Dict (Entry Score))
      → parse_all is_finite (snapshot now m)
        ≡ read_as (all_finite is_finite (alive now m)) (snapshot now m)
  unfolding parse_all snapshot alive line_of
  parse_all-snapshot is_finite now [] = refl
  parse_all-snapshot is_finite now ((k, e) ∷ m) = elim (Bool-cases (is_expired now e)) [
    | inl up ↦ rw up (parse_all-snapshot is_finite now m)
    | inr more ↦ rw more (
        rw
          (parse-line_of_value is_finite k e.value e.expires_at, parse_all-snapshot is_finite now m)
          (read_both (has_finite is_finite e.value) (all_finite is_finite (alive now m))
            (line_of_value k e.value e.expires_at) (snapshot now m)))
  ]

  entry_of_value :
      (k : String) (v : Value Score) (at : Option ℕ)
      → entry_of (line_of_value k v at) ≡ (k, record { value = v; expires_at = at })
  unfolding entry_of line_of_value
  entry_of_value k (text v) at = refl
  entry_of_value k (hash m) at = refl
  entry_of_value k (zset m) at = refl

  entry_of-line_of : (x : String × Entry Score) → entry_of (line_of x) ≡ x
  unfolding line_of
  entry_of-line_of (k, e) = entry_of_value k e.value e.expires_at

  restorable-snapshot :
      (now later : ℕ) (m : Dict (Entry Score))
      → now ≤ later
      → restorable later (snapshot now m) ≡ map line_of (solid (alive later m))
  unfolding restorable snapshot solid alive
  restorable-snapshot now later [] p = refl
  restorable-snapshot now later ((k, e) ∷ m) p =
      let same = restorable-snapshot now later m p in
      elim (Bool-cases (is_expired now e)) [
        | inl up ↦ rw (up, expired_later now later e p up) same
        | inr more ↦ rw more (
            rw (entry_of-line_of (k, e)) (elim (Bool-cases (is_expired later e)) [
              | inl up ↦ rw up same
              | inr still ↦ elim (Bool-cases (is_hollow e.value)) [
                | inl hollow ↦ rw (still, hollow) same
                | inr full ↦ rw (still, full) (ap (λ lines. line_of (k, e) ∷ lines) same)
              ]
            ]))
      ]

  not_in-solid :
      (k : String) (m : Dict (Entry Score))
      → includes (keys m) k ≡ false
      → includes (keys (solid m)) k ≡ false
  unfolding solid
  not_in-solid k [] absent = refl
  not_in-solid k ((j, e) ∷ m) absent = ground (arith, not_in-solid k m)

  Distinct-solid : (m : Dict (Entry Score)) → Distinct (keys m) → Distinct (keys (solid m))
  unfolding solid
  Distinct-solid [] d = tt
  Distinct-solid ((j, e) ∷ m) (fresh, d) = elim (Bool-cases (is_hollow e.value)) [
    | inl hollow ↦ rw hollow (Distinct-solid m d)
    | inr full ↦ rw full (not_in-solid j m fresh, Distinct-solid m d)
  ]

  insert-absent :
      (k : String) (e : Entry Score) (m : Dict (Entry Score))
      → includes (keys m) k ≡ false
      → insert k e m ≡ m ++ (k, e) ∷ []
  unfolding insert
  insert-absent k e [] absent = refl
  insert-absent k e ((j, w) ∷ m) absent = ground (arith, insert-absent k e m)

  abbrev holding : ℕ → Dict (Entry Score) → Keyspace Score
  holding max m = record { entries = m; max_keys = max; script_creates = none }

  create-fresh :
      (max now : ℕ) (k : String) (e : Entry Score) (m : Dict (Entry Score))
      → includes (keys m) k ≡ false
      → length m < max
      → create (holding max m) now k e ≡ (none, holding max (m ++ (k, e) ∷ []))
  unfolding create
  create-fresh max now k e m absent free =
      let under : ltb (length m) max ≡ true = ground arith in
      rw absent (rw (under, insert-absent k e m absent) refl)

  -- The keys of the rest are not among the first ones.
  abbrev Apart : Dict (Entry Score) → Dict (Entry Score) → Type 0
  Apart m [] = Unit {0}
  Apart m ((k, e) ∷ rest) = (includes (keys m) k ≡ false) × Apart (m ++ (k, e) ∷ []) rest

  abbrev one_more : Keyspace Score × Result ℕ → Keyspace Score × Result ℕ
  one_more (t, restored) = (t, elim restored [ err code ↦ err code | ok n ↦ ok (n + 1) ])

  -- The lines that follow one whose key has been made, or refused.
  abbrev carried :
      ℕ → List (Line Score) → Option String × Keyspace Score → Keyspace Score × Result ℕ
  carried now rest (refusal, t) = elim refusal [
    | some code ↦ (t, err code)
    | none ↦ one_more (create_all t now rest)
  ]

  create_all_lem :
      (max now : ℕ) (m rest : Dict (Entry Score))
      → Apart m rest
      → length m + length rest ≤ max
      → create_all (holding max m) now (map line_of rest)
        ≡ (holding max (m ++ rest), ok (length rest))
  unfolding create_all
  create_all_lem max now m [] apart fits = ap (λ xs. (holding max xs, ok 0)) (sym (append-nil m))
  create_all_lem max now m ((k, e) ∷ rest) (fresh, apart) fits =
      let first = create-fresh max now k e m fresh (omega arith) in
      let later =
        create_all_lem max now (m ++ (k, e) ∷ []) rest apart
          (omega (arith, length-append m ((k, e) ∷ []))) in
      let lines = map line_of rest in
      ap (λ x. carried now lines (create (holding max m) now x.0 x.1)) (entry_of-line_of (k, e))
      ∙ ap (carried now lines) first
      ∙ ap one_more later
      ∙ ap (λ xs. (holding max xs, ok (length rest + 1))) (append_assoc m ((k, e) ∷ []) rest)
      ∙ ap (λ n. (holding max (m ++ (k, e) ∷ rest), ok n)) (omega arith)

  among :
      (m : Dict (Entry Score)) (k : String) (e : Entry Score) (rest : Dict (Entry Score))
      (j : String)
      → includes (keys (m ++ (k, e) ∷ rest)) j ≡ false
      → str_eq k j ≡ false
  among [] k e rest j absent = ground arith
  among ((i, w) ∷ m) k e rest j absent = among m k e rest j (ground arith)

  fresh_key :
      (m : Dict (Entry Score)) (k : String) (e : Entry Score) (rest : Dict (Entry Score))
      → Distinct (keys (m ++ (k, e) ∷ rest))
      → includes (keys m) k ≡ false
  fresh_key [] k e rest d = refl
  fresh_key ((j, w) ∷ m) k e rest (fresh, d) =
      ground (arith, fresh_key m k e rest d, among m k e rest j fresh, eq_iff k j, eq_iff j k)

  Apart-of_Distinct : (m rest : Dict (Entry Score)) → Distinct (keys (m ++ rest)) → Apart m rest
  Apart-of_Distinct m [] d = tt
  Apart-of_Distinct m ((k, e) ∷ rest) d = (
    fresh_key m k e rest d,
    Apart-of_Distinct (m ++ (k, e) ∷ []) rest
        (subst (λ xs. Distinct (keys xs)) (sym (append_assoc m ((k, e) ∷ []) rest)) d),
  )

  length-lines : (m : Dict (Entry Score)) → length (map line_of m) ≡ length m
  length-lines [] = refl
  length-lines (x ∷ m) = omega (arith, length-lines m)

  restore_parsed-snapshot :
      (store : Keyspace Score) (now later max : ℕ)
      → Distinct (keys store.entries)
      → now ≤ later
      → length (solid (alive later store.entries)) ≤ max
      → let kept = solid (alive later store.entries) in
        restore_parsed (holding max []) later (snapshot now store.entries)
        ≡ (holding max kept, ok (length kept))
  unfolding restore_parsed
  restore_parsed-snapshot store now later max d p fits =
      let kept = solid (alive later store.entries) in
      let apart =
        Apart-of_Distinct [] kept
          (Distinct-solid (alive later store.entries) (Distinct-alive later store.entries d)) in
      let room : ltb max (length kept) ≡ false = ground arith in
      rw (restorable-snapshot now later store.entries p, length-lines kept)
        (rw room (create_all_lem max later [] kept apart (omega arith)))

  -- The snapshot of a store is restored at a later time, into an empty store that has room for what comes.
  -- If all scores that it holds are finite, this gives the keys that are still alive then, with their
  -- values and expiry and in their order, but for hashes and sorted sets that hold nothing, and their
  -- number. If one is infinite, nothing is restored and an error comes back.
  pub restore-snapshot :
      (is_finite : Score → Bool) (store : Keyspace Score) (now later max : ℕ)
      → Distinct (keys store.entries)
      → now ≤ later
      → length (solid (alive later store.entries)) ≤ max
      → let empty : Keyspace Score = record {
        entries = [];
        max_keys = max;
        script_creates = none;
      } in
        let kept = solid (alive later store.entries) in
        restore is_finite empty later (snapshot now store.entries) ≡ (
          if all_finite is_finite (alive now store.entries)
          then (record empty { entries = kept }, ok (length kept))
          else (empty, err "the shape of a snapshot entry is wrong"))
  unfolding restore
  restore-snapshot is_finite store now later max d p fits =
      let whole = restore_parsed-snapshot store now later max d p fits in
      let read = parse_all-snapshot is_finite now store.entries in
      elim (Bool-cases (all_finite is_finite (alive now store.entries))) [
        | inl finite ↦ rw (read, finite) whole
        | inr infinite ↦ rw (read, infinite) refl
      ]
