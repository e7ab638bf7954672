-- ===== src/Memory/Laws.antt =====
-- What is alive in a store, under the operations on its entries.
use yorr.Prelude.{
  ℕ, ◌≤◌, String, ◌≡◌, refl, inl, inr, Bool, true, false, not, Option, none, some, [], ◌∷◌, Dict,
  lookup, insert, delete, keys, keys-insert, keys-delete, length, includes, Distinct,
  Distinct-append, Distinct-without, str_eq, str_eq→eq, arith, Bool-cases,
}
use yorr.Memory.Keyspace.{Entry, is_expired, alive}

module _ {Score : Type 0} where
  -- Nothing, or an entry that has not expired.
  abbrev pub lives : ℕ → Option (Entry Score) → Bool
  lives now none = true
  lives now (some e) = not (is_expired now e)

  pub not_in-alive :
      (now : ℕ) (k : String) (m : Dict (Entry Score))
      → includes (keys m) k ≡ false
      → includes (keys (alive now m)) k ≡ false
  unfolding alive
  not_in-alive now k [] h = refl
  not_in-alive now k ((j, e) ∷ m) h = ground (arith, not_in-alive now k m)

  pub Distinct-alive :
      (now : ℕ) (m : Dict (Entry Score)) → Distinct (keys m) → Distinct (keys (alive now m))
  unfolding alive
  Distinct-alive now [] d = tt
  Distinct-alive now ((j, e) ∷ m) (fresh, d) = elim (Bool-cases (is_expired now e)) [
    | inl up ↦ rw up (Distinct-alive now m d)
    | inr more ↦ rw more (not_in-alive now j m fresh, Distinct-alive now m d)
  ]

  pub lookup-none :
      (k : String) (m : Dict (Entry Score)) → includes (keys m) k ≡ false → lookup k m ≡ none
  unfolding lookup
  lookup-none k [] h = refl
  lookup-none k ((j, e) ∷ m) h = ground (arith, lookup-none k m)

  pub lookup-alive-some :
      (now : ℕ) (k : String) (m : Dict (Entry Score)) (e : Entry Score)
      → lookup k m ≡ some e
      → is_expired now e ≡ false
      → lookup k (alive now m) ≡ some e
  unfolding alive lookup
  lookup-alive-some now k [] e h more = cc
  lookup-alive-some now k ((j, w) ∷ m) e h more = ground (arith, lookup-alive-some now k m e)

  pub lookup-alive-none :
      (now : ℕ) (k : String) (m : Dict (Entry Score))
      → lookup k m ≡ none
      → lookup k (alive now m) ≡ none
  unfolding alive lookup
  lookup-alive-none now k [] h = refl
  lookup-alive-none now k ((j, w) ∷ m) h = ground (arith, lookup-alive-none now k m)

  pub lookup-alive_expired :
      (now : ℕ) (k : String) (m : Dict (Entry Score)) (e : Entry Score)
      → Distinct (keys m)
      → lookup k m ≡ some e
      → is_expired now e ≡ true
      → lookup k (alive now m) ≡ none
  unfolding alive lookup
  lookup-alive_expired now k [] e d h up = cc
  lookup-alive_expired now k ((j, w) ∷ m) e (fresh, d) h up = elim (Bool-cases (str_eq j k)) [
    | inl here ↦
        let w_up : is_expired now w ≡ true = ground (arith, here, h, up) in
        let absent : includes (keys m) k ≡ false = rw (str_eq→eq j k here) at fresh in
        rw w_up (lookup-none k (alive now m) (not_in-alive now k m absent))
    | inr there ↦ ground (arith, there, lookup-alive_expired now k m e d)
  ]

  pub delete-absent :
      (k : String) (m : Dict (Entry Score)) → includes (keys m) k ≡ false → delete k m ≡ m
  unfolding delete
  delete-absent k [] h = refl
  delete-absent k ((j, e) ∷ m) h = ground (arith, delete-absent k m)

  pub alive-delete :
      (now : ℕ) (k : String) (m : Dict (Entry Score))
      → alive now (delete k m) ≡ delete k (alive now m)
  unfolding alive delete
  alive-delete now k [] = refl
  alive-delete now k ((j, e) ∷ m) = ground (arith, alive-delete now k m)

  pub expired_later :
      (now later : ℕ) (e : Entry Score)
      → now ≤ later
      → is_expired now e ≡ true
      → is_expired later e ≡ true
  unfolding is_expired
  expired_later now later e p up = ground arith

  -- What has expired is gone for good.
  pub alive-alive :
      (now later : ℕ) (m : Dict (Entry Score))
      → now ≤ later
      → alive later (alive now m) ≡ alive later m
  unfolding alive
  alive-alive now later [] p = refl
  alive-alive now later ((j, e) ∷ m) p = elim (Bool-cases (is_expired now e)) [
    | inl up ↦ rw (up, expired_later now later e p up) (alive-alive now later m p)
    | inr more ↦ rw more (ground (arith, alive-alive now later m p))
  ]

  pub alive-insert :
      (now : ℕ) (k : String) (e : Entry Score) (m : Dict (Entry Score))
      → lives now (lookup k m) ≡ true
      → alive now (insert k e m) ≡ alive now (insert k e (alive now m))
  unfolding alive insert lookup
  alive-insert now k e [] h = refl
  alive-insert now k e ((j, w) ∷ m) h = elim (Bool-cases (str_eq j k)) [
    | inl here ↦
        let w_more : is_expired now w ≡ false = ground (arith, here, h) in
        let again : alive now (alive now m) ≡ alive now m = alive-alive now now m (omega arith) in
        ground (arith, here, w_more, again)
    | inr there ↦ ground (arith, there, alive-insert now k e m)
  ]

  pub length-alive : (now : ℕ) (m : Dict (Entry Score)) → length (alive now m) ≤ length m
  unfolding alive
  length-alive now [] = ground arith
  length-alive now ((j, e) ∷ m) = ground (arith, length-alive now m)

  pub Distinct-insert :
      (k : String) (e : Entry Score) (m : Dict (Entry Score))
      → Distinct (keys m)
      → Distinct (keys (insert k e m))
  Distinct-insert k e m d = rw (keys-insert k e m) (elim (Bool-cases (includes (keys m) k)) [
    | inl there ↦ rw there d
    | inr fresh ↦ rw fresh (Distinct-append (keys m) k d fresh)
  ])

  pub Distinct-delete :
      (k : String) (m : Dict (Entry Score)) → Distinct (keys m) → Distinct (keys (delete k m))
  Distinct-delete k m d = rw (keys-delete k m) (Distinct-without k (keys m) d)
