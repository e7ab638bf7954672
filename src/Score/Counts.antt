-- ===== src/Score/Counts.antt =====
-- What the table of `counts` in scoreCategory.ts holds: how many dice show each face.
use yorr.Prelude.{
  ℕ, suc, ◌+◌, ◌≤◌, ◌≡◌, ◌≢◌, refl, Bool, true, List, [], ◌∷◌, arith, length, eqb, if◌then◌else◌,
  Bool-cases, inl, inr,
}
use yorr.Score.Category.{tally, counts_from, counts, some_count}

-- How many dice show the face, told without a table.
unfoldable pub occurs : ℕ → List ℕ → ℕ
occurs face [] = 0
occurs face (die ∷ dice) = let n = occurs face dice in if eqb die face then suc n else n

-- The entry of a face in a table, 0 if it has none; and the sum of all entries.
unfoldable pub entry : ℕ → List (ℕ × ℕ) → ℕ
entry face [] = 0
entry face ((f, n) ∷ rest) = if eqb f face then n else entry face rest

unfoldable pub total : List (ℕ × ℕ) → ℕ
total [] = 0
total ((f, n) ∷ rest) = n + total rest

-- Entries are positive, and no face has two.
unfoldable pub IsTable : List (ℕ × ℕ) → Type 0
unfolding entry
IsTable [] = Unit
IsTable ((f, n) ∷ rest) = (1 ≤ n) × (entry f rest ≡ 0) × IsTable rest

entry-tally :
    (face die : ℕ) (t : List (ℕ × ℕ))
    → entry face (tally die t) ≡ (if eqb die face then suc (entry face t) else entry face t)
unfolding entry tally
entry-tally face die [] = ground arith
entry-tally face die ((f, n) ∷ rest) = ground (arith, entry-tally face die rest)

tally-IsTable : (die : ℕ) (t : List (ℕ × ℕ)) → IsTable t → IsTable (tally die t)
unfolding IsTable tally
tally-IsTable die [] h = (ground arith, refl, tt)
tally-IsTable die ((f, n) ∷ rest) (one, fresh, h) = elim (Bool-cases (eqb f die)) [
  | inl e ↦ rw e (ground arith, fresh, h)
  | inr e ↦ rw e (one, ground (arith, entry-tally f die rest), tally-IsTable die rest h)
]

total-tally : (die : ℕ) (t : List (ℕ × ℕ)) → total (tally die t) ≡ suc (total t)
unfolding total tally
total-tally die [] = refl
total-tally die ((f, n) ∷ rest) = ground (arith, total-tally die rest)

entry-counts_from :
    (face : ℕ) (dice : List ℕ) (t : List (ℕ × ℕ))
    → entry face (counts_from t dice) ≡ entry face t + occurs face dice
unfolding counts_from occurs
entry-counts_from face [] t = ground arith
entry-counts_from face (die ∷ dice) t =
    ground (arith, entry-counts_from face dice (tally die t), entry-tally face die t)

counts_from-IsTable : (dice : List ℕ) (t : List (ℕ × ℕ)) → IsTable t → IsTable (counts_from t dice)
unfolding counts_from
counts_from-IsTable [] t h = h
counts_from-IsTable (die ∷ dice) t h =
    counts_from-IsTable dice (tally die t) (tally-IsTable die t h)

total-counts_from :
    (dice : List ℕ) (t : List (ℕ × ℕ)) → total (counts_from t dice) ≡ total t + length dice
unfolding counts_from
total-counts_from [] t = ground arith
total-counts_from (die ∷ dice) t =
    ground (arith, total-counts_from dice (tally die t), total-tally die t)

pub entry-counts : (face : ℕ) (dice : List ℕ) → entry face (counts dice) ≡ occurs face dice
unfolding counts entry
entry-counts face dice = ground (arith, entry-counts_from face dice [])

pub counts-IsTable : (dice : List ℕ) → IsTable (counts dice)
unfolding counts IsTable
counts-IsTable dice = counts_from-IsTable dice [] tt

pub total-counts : (dice : List ℕ) → total (counts dice) ≡ length dice
unfolding counts total
total-counts dice = ground (arith, total-counts_from dice [])

entry_here : (f n : ℕ) (rest : List (ℕ × ℕ)) → entry f ((f, n) ∷ rest) ≡ n
unfolding entry
entry_here f n rest = ground arith

entry_later :
    (g f n : ℕ) (rest : List (ℕ × ℕ))
    → entry f rest ≡ 0
    → 1 ≤ entry g rest
    → entry g ((f, n) ∷ rest) ≡ entry g rest
unfolding entry
entry_later g f n rest fresh more = elim (Bool-cases (eqb f g)) [
  | inl e ↦
      let same : f ≡ g = ground arith in
      let clash : entry g rest ≡ 0 = rw (← same) fresh in ground arith
  | inr e ↦ rw e refl
]

-- A test holds of some count if and only if it holds of the count of a face that shows.
pub some_count-entry :
    (test : ℕ → Bool) (t : List (ℕ × ℕ))
    → IsTable t
    → some_count test t ≡ true
    → (face : ℕ) × (1 ≤ entry face t) × (test (entry face t) ≡ true)
unfolding some_count IsTable
some_count-entry test [] h e = cc
some_count-entry test ((f, n) ∷ rest) (one, fresh, h) e = elim (Bool-cases (test n)) [
  | inl y ↦ (f, rw (entry_here f n rest) one, rw (entry_here f n rest) y)
  | inr none_here ↦
      let (g, more, holds) = some_count-entry test rest h (ground arith) in
      let later = entry_later g f n rest fresh more in (g, rw later more, rw later holds)
]

pub entry-some_count :
    (test : ℕ → Bool) (t : List (ℕ × ℕ)) (face : ℕ)
    → 1 ≤ entry face t
    → test (entry face t) ≡ true
    → some_count test t ≡ true
unfolding some_count entry
entry-some_count test [] face h e = ground arith
entry-some_count test ((f, n) ∷ rest) face h h' = elim (Bool-cases (eqb f face)) [
  | inl e ↦ let here : test n ≡ true = rw e at h' in ground arith
  | inr e ↦ ground (arith, entry-some_count test rest face)
]

pub entry≤total : (face : ℕ) (t : List (ℕ × ℕ)) → entry face t ≤ total t
unfolding entry total
entry≤total face [] = ground arith
entry≤total face ((f, n) ∷ rest) = ground (arith, entry≤total face rest)

pub two-entries≤total : (a b : ℕ) (t : List (ℕ × ℕ)) → a ≢ b → entry a t + entry b t ≤ total t
unfolding entry total
two-entries≤total a b [] ne = ground arith
two-entries≤total a b ((f, n) ∷ rest) ne =
    ground (arith, two-entries≤total a b rest ne, entry≤total a rest, entry≤total b rest)
