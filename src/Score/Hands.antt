-- ===== src/Score/Hands.antt =====
-- The categories of scoreCategory.ts, told by how many dice show each face.
use yorr.Prelude.{
  ℕ, zero, suc, ◌+◌, ◌≤◌, ◌<◌, ◌≡◌, ◌≢◌, ◌↔◌, refl, ◌∙◌, Bool, true, ◌&&◌, ◌||◌, List, [], ◌∷◌,
  arith, length, eqb, leb, Bool-cases, inl, inr,
}
use yorr.Score.Category.{
  Category, ones, twos, threes, fours, fives, sixes, choice, four_of_a_kind, full_house,
  small_straight, large_straight, yacht, counts, contains_face, is_four_of_a_kind, is_full_house,
  has_run, run_from, satisfied,
}
use yorr.Score.Counts.{
  occurs, entry, total, IsTable, entry-counts, counts-IsTable, total-counts, some_count-entry,
  entry-some_count, entry≤total, two-entries≤total,
}

-- The face shows on some die.
abbrev pub Shown : ℕ → List ℕ → Type 0
Shown face dice = 1 ≤ occurs face dice

-- What a category asks of the dice.
unfoldable pub Shows : Category → List ℕ → Type 0
Shows ones dice = Shown 1 dice
Shows twos dice = Shown 2 dice
Shows threes dice = Shown 3 dice
Shows fours dice = Shown 4 dice
Shows fives dice = Shown 5 dice
Shows sixes dice = Shown 6 dice
Shows choice dice = Unit
Shows four_of_a_kind dice = (face : ℕ) × (4 ≤ occurs face dice)
Shows full_house dice = (a : ℕ) × (b : ℕ) × (occurs a dice ≡ 3) × (occurs b dice ≡ 2)
Shows small_straight dice = (a : ℕ) × (1 ≤ a) × (a ≤ 3) × ((k : ℕ) → k < 4 → Shown (a + k) dice)
Shows large_straight dice = (a : ℕ) × (1 ≤ a) × (a ≤ 2) × ((k : ℕ) → k < 5 → Shown (a + k) dice)
Shows yacht dice = (face : ℕ) × (occurs face dice ≡ 5)

contains_face-Shown :
    (face : ℕ) (dice : List ℕ) → (contains_face dice face ≡ true) ↔ Shown face dice
unfolding contains_face occurs
contains_face-Shown face [] = ground arith
contains_face-Shown face (die ∷ dice) = ground (arith, contains_face-Shown face dice)

four_of_a_kind-Shows : (dice : List ℕ) → (is_four_of_a_kind dice ≡ true) ↔ Shows four_of_a_kind dice
unfolding is_four_of_a_kind Shows
four_of_a_kind-Shows dice = (
  (λ e.
      let (face, one, many) =
        some_count-entry (λ n. leb 4 n) (counts dice) (counts-IsTable dice) e in
      (face, ground (arith, entry-counts face dice))),
  (λ (face, h).
      entry-some_count (λ n. leb 4 n) (counts dice) face (ground (arith, entry-counts face dice))
        (ground (arith, entry-counts face dice))),
)

-- A table that is all one face.
one_entry :
    (t : List (ℕ × ℕ)) (face : ℕ)
    → IsTable t
    → 1 ≤ entry face t
    → entry face t ≡ total t
    → length t ≡ 1
unfolding IsTable entry total
one_entry [] face h one all = ground arith
one_entry ((f, n) ∷ []) face h one all = refl
one_entry ((f, n) ∷ (g, m) ∷ rest) face (pos_n, fresh, (pos_m, later, h)) one all =
    ground (arith, entry≤total face rest)

two_entries :
    (t : List (ℕ × ℕ)) (a b : ℕ)
    → IsTable t
    → a ≢ b
    → 1 ≤ entry a t
    → 1 ≤ entry b t
    → entry a t + entry b t ≡ total t
    → length t ≡ 2
unfolding IsTable entry total
two_entries [] a b h ne one_a one_b all = ground arith
two_entries ((f, n) ∷ rest) a b (pos_n, fresh, h) ne one_a one_b all = elim (Bool-cases (eqb f a)) [
  | inl e ↦ let other : f ≢ b = (λ i. ne (ground arith)) in ground (arith, one_entry rest b h)
  | inr e ↦ elim (Bool-cases (eqb f b)) [
    | inl g ↦ ground (arith, one_entry rest a h)
    | inr g ↦ ground (arith, two-entries≤total a b rest ne)
  ]
]

one_face : (t : List (ℕ × ℕ)) → IsTable t → length t ≡ 1 → (face : ℕ) × (entry face t ≡ total t)
unfolding entry total
one_face [] h e = ground arith
one_face ((f, n) ∷ []) h e = (f, ground arith)
one_face ((f, n) ∷ x ∷ rest) h e = ground arith

full_house-Shows :
    (dice : List ℕ) → length dice ≡ 5 → (is_full_house dice ≡ true) ↔ Shows full_house dice
unfolding is_full_house Shows
full_house-Shows dice five = (to, from)
  where
    h : IsTable (counts dice)
    h = counts-IsTable dice

    to : is_full_house dice ≡ true → Shows full_house dice
    to e =
        let (b, one_b, two) = some_count-entry (λ n. eqb n 2) (counts dice) h (ground arith) in
        let (a, one_a, three) = some_count-entry (λ n. eqb n 3) (counts dice) h (ground arith) in
        (a, b, ground (arith, entry-counts a dice), ground (arith, entry-counts b dice))

    from : Shows full_house dice → is_full_house dice ≡ true
    from (a, b, three, two) =
        let ea : entry a (counts dice) ≡ 3 = entry-counts a dice ∙ three in
        let eb : entry b (counts dice) ≡ 2 = entry-counts b dice ∙ two in
        let ne : a ≢ b =
          (λ i. let clash : entry b (counts dice) ≡ 3 = rw (← i) ea in ground arith) in
        let all = total-counts dice in
        let size =
          two_entries (counts dice) a b h ne (ground arith) (ground arith) (ground arith) in
        let twos_in =
          entry-some_count (λ n. eqb n 2) (counts dice) b (ground arith) (ground arith) in
        let threes_in =
          entry-some_count (λ n. eqb n 3) (counts dice) a (ground arith) (ground arith) in
        ground arith

yacht-Shows :
    (dice : List ℕ) → length dice ≡ 5 → (eqb (length (counts dice)) 1 ≡ true) ↔ Shows yacht dice
unfolding Shows
yacht-Shows dice five = (to, from)
  where
    h : IsTable (counts dice)
    h = counts-IsTable dice

    to : eqb (length (counts dice)) 1 ≡ true → Shows yacht dice
    to e =
        let (face, all) = one_face (counts dice) h (ground arith) in
        let dice_in = total-counts dice in (face, ground (arith, entry-counts face dice))

    from : Shows yacht dice → eqb (length (counts dice)) 1 ≡ true
    from (face, all) =
        let e = entry-counts face dice in
        let dice_in = total-counts dice in
        let size = one_entry (counts dice) face h (ground arith) (ground arith) in ground arith

module _ (dice : List ℕ) where
  -- Whether each of the `n` faces from `face` on shows.
  row : ℕ → ℕ → Bool
  row zero face = true
  row (suc n) face = let rest = row n (face + 1) in contains_face dice face && rest

  row-Shown : (n face : ℕ) → row n face ≡ true → (k : ℕ) → k < n → Shown (face + k) dice
  unfolding row
  row-Shown zero face e k h = ground arith
  row-Shown (suc n) face e zero h =
      let first : contains_face dice face ≡ true = ground arith in
      let start : face + 0 ≡ face = omega arith in
      rw start ((contains_face-Shown face dice).0 first)
  row-Shown (suc n) face e (suc k) h =
      let next : face + suc k ≡ face + 1 + k = omega arith in
      rw next (row-Shown n (face + 1) (ground arith) k (omega arith))

  Shown-row : (n face : ℕ) → ((k : ℕ) → k < n → Shown (face + k) dice) → row n face ≡ true
  unfolding row
  Shown-row zero face h = refl
  Shown-row (suc n) face h =
      let start : face + 0 ≡ face = omega arith in
      let first : Shown face dice = rw (← start) (h 0 (omega arith)) in
      let here : contains_face dice face ≡ true = (contains_face-Shown face dice).1 first in
      rw here (
        Shown-row n (face + 1) (λ k l.
          let next : face + 1 + k ≡ face + suc k = omega arith in
          rw next (h (suc k) (omega arith))))

  has_run_4 : has_run dice 4 ≡ row 4 1 || row 4 2 || row 4 3
  unfolding has_run run_from row
  has_run_4 = ground arith

  has_run_5 : has_run dice 5 ≡ row 5 1 || row 5 2
  unfolding has_run run_from row
  has_run_5 = ground arith

  small_straight-Shows : (has_run dice 4 ≡ true) ↔ Shows small_straight dice
  unfolding Shows
  small_straight-Shows = (to, from)
    where
      to : has_run dice 4 ≡ true → Shows small_straight dice
      to e = elim (Bool-cases (row 4 1)) [
        | inl f ↦ (1, omega arith, omega arith, row-Shown 4 1 f)
        | inr f ↦ elim (Bool-cases (row 4 2)) [
          | inl g ↦ (2, omega arith, omega arith, row-Shown 4 2 g)
          | inr g ↦ (3, omega arith, omega arith, row-Shown 4 3 (ground (arith, has_run_4)))
        ]
      ]

      from : Shows small_straight dice → has_run dice 4 ≡ true
      from (zero, one, few, h) = ground arith
      from (suc zero, one, few, h) = ground (arith, has_run_4, Shown-row 4 1 h)
      from (suc (suc zero), one, few, h) = ground (arith, has_run_4, Shown-row 4 2 h)
      from (suc (suc (suc zero)), one, few, h) = ground (arith, has_run_4, Shown-row 4 3 h)
      from (suc (suc (suc (suc a))), one, few, h) = ground arith

  large_straight-Shows : (has_run dice 5 ≡ true) ↔ Shows large_straight dice
  unfolding Shows
  large_straight-Shows = (to, from)
    where
      to : has_run dice 5 ≡ true → Shows large_straight dice
      to e = elim (Bool-cases (row 5 1)) [
        | inl f ↦ (1, omega arith, omega arith, row-Shown 5 1 f)
        | inr f ↦ (2, omega arith, omega arith, row-Shown 5 2 (ground (arith, has_run_5)))
      ]

      from : Shows large_straight dice → has_run dice 5 ≡ true
      from (zero, one, few, h) = ground arith
      from (suc zero, one, few, h) = ground (arith, has_run_5, Shown-row 5 1 h)
      from (suc (suc zero), one, few, h) = ground (arith, has_run_5, Shown-row 5 2 h)
      from (suc (suc (suc a)), one, few, h) = ground arith

-- On five dice, a category is satisfied if and only if the dice show what it asks for: a face for an
-- upper category, four or more of one face, three of one face and two of another, four or five
-- faces in a row, five of one face, and nothing for the choice.
pub satisfied-Shows :
    (c : Category) (dice : List ℕ) → length dice ≡ 5 → (satisfied c dice ≡ true) ↔ Shows c dice
unfolding satisfied Shows
satisfied-Shows ones dice five = contains_face-Shown 1 dice
satisfied-Shows twos dice five = contains_face-Shown 2 dice
satisfied-Shows threes dice five = contains_face-Shown 3 dice
satisfied-Shows fours dice five = contains_face-Shown 4 dice
satisfied-Shows fives dice five = contains_face-Shown 5 dice
satisfied-Shows sixes dice five = contains_face-Shown 6 dice
satisfied-Shows choice dice five = ((λ e. tt), (λ h. refl))
satisfied-Shows four_of_a_kind dice five = four_of_a_kind-Shows dice
satisfied-Shows full_house dice five = full_house-Shows dice five
satisfied-Shows small_straight dice five = small_straight-Shows dice
satisfied-Shows large_straight dice five = large_straight-Shows dice
satisfied-Shows yacht dice five = yacht-Shows dice five
