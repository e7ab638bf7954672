-- ===== src/Score/Worth.antt =====
-- What yachtScoreCalculator.ts gives for a roll: the amounts and their bound.
use yorr.Prelude.{
  ℕ, String, suc, ◌+◌, ◌*◌, ◌≤◌, ◌≡◌, ◌⊎◌, ◌↔◌, refl, ap, ◌∙◌, Bool, true, false, ◌&&◌, List, [],
  ◌∷◌, arith, length, every, keep, eqb, if◌then◌else◌, Bool-cases, inl, inr, ok, err,
}
use yorr.Score.Category.{
  Category, ones, twos, threes, fours, fives, sixes, choice, four_of_a_kind, full_house,
  small_straight, large_straight, yacht, satisfied, is_satisfied_by, validate_dice, is_face, sum,
  upper_face_sum,
}
use yorr.Score.Calculator.{points, calculate_score}
use yorr.Score.Counts.{occurs}
use yorr.Score.Hands.{Shows, satisfied-Shows}

abbrev pub is_roll : List ℕ → Bool
is_roll dice = eqb (length dice) 5 && every is_face dice

-- The worth of a category that the dice show, without the loops of the source.
unfoldable pub worth : Category → List ℕ → ℕ
worth ones dice = occurs 1 dice
worth twos dice = 2 * occurs 2 dice
worth threes dice = 3 * occurs 3 dice
worth fours dice = 4 * occurs 4 dice
worth fives dice = 5 * occurs 5 dice
worth sixes dice = 6 * occurs 6 dice
worth choice dice = sum dice
worth four_of_a_kind dice = sum dice
worth full_house dice = sum dice
worth small_straight dice = 15
worth large_straight dice = 30
worth yacht dice = 50

sum_if :
    (b : Bool) (n : ℕ) (rest : List ℕ)
    → sum (if b then n ∷ rest else rest) ≡ (if b then n else 0) + sum rest
unfolding sum
sum_if true n rest = refl
sum_if false n rest = ground arith

times_if :
    (face die n : ℕ)
    → (if eqb die face then die else 0) + face * n ≡ face * (if eqb die face then suc n else n)
times_if face die n = elim (Bool-cases (eqb die face)) [
  | inl e ↦ let same : die ≡ face = ground arith in rw e (omega arith)
  | inr e ↦ rw e (omega arith)
]

upper_face_sum-occurs :
    (face : ℕ) (dice : List ℕ) → upper_face_sum face dice ≡ face * occurs face dice
unfolding upper_face_sum occurs sum
upper_face_sum-occurs face [] = ground arith
upper_face_sum-occurs face (die ∷ dice) =
    sum_if (eqb die face) die (keep (λ x. eqb x face) dice)
    ∙ ap (λ n. (if eqb die face then die else 0) + n) (upper_face_sum-occurs face dice)
    ∙ times_if face die (occurs face dice)

points-worth : (c : Category) (dice : List ℕ) → points c dice ≡ worth c dice
unfolding points worth
points-worth ones dice = ground (arith, upper_face_sum-occurs 1 dice)
points-worth twos dice = upper_face_sum-occurs 2 dice
points-worth threes dice = upper_face_sum-occurs 3 dice
points-worth fours dice = upper_face_sum-occurs 4 dice
points-worth fives dice = upper_face_sum-occurs 5 dice
points-worth sixes dice = upper_face_sum-occurs 6 dice
points-worth choice dice = refl
points-worth four_of_a_kind dice = refl
points-worth full_house dice = refl
points-worth small_straight dice = refl
points-worth large_straight dice = refl
points-worth yacht dice = refl

valid_roll : (dice : List ℕ) → is_roll dice ≡ true → validate_dice dice ≡ ok tt
unfolding validate_dice
valid_roll dice h = ground arith

calculate_score_refused :
    (c : Category) (dice : List ℕ)
    → is_roll dice ≡ false
    → (e : String) × (calculate_score c dice ≡ err e)
unfolding calculate_score is_satisfied_by validate_dice
calculate_score_refused c dice h = elim (Bool-cases (eqb (length dice) 5)) [
  | inl e ↦ ("dice_face", ground arith)
  | inr e ↦ ("dice_count", rw e refl)
]

scored :
    (c : Category) (dice : List ℕ)
    → is_roll dice ≡ true
    → calculate_score c dice ≡ ok (if satisfied c dice then points c dice else 0)
unfolding calculate_score is_satisfied_by
scored c dice valid = rw (valid_roll dice valid) refl

-- Every die shows a face from 1 to 6.
abbrev pub AreFaces : List ℕ → Type 0
AreFaces [] = Unit {0}
AreFaces (die ∷ dice) = (1 ≤ die) × (die ≤ 6) × AreFaces dice

every-AreFaces : (dice : List ℕ) → every is_face dice ≡ true → AreFaces dice
unfolding is_face
every-AreFaces [] h = tt
every-AreFaces (die ∷ dice) h = (ground arith, ground arith, every-AreFaces dice (ground arith))

AreFaces-every : (dice : List ℕ) → AreFaces dice → every is_face dice ≡ true
unfolding is_face
AreFaces-every [] h = refl
AreFaces-every (die ∷ dice) (low, high, rest) = ground (arith, AreFaces-every dice rest)

-- In every category, a score is given to five dice that all show a face from 1 to 6, and to nothing
-- else: any other list is refused, and not given 0.
pub calculate_score_given :
    (c : Category) (dice : List ℕ)
    → ((n : ℕ) × (calculate_score c dice ≡ ok n)) ↔ ((length dice ≡ 5) × AreFaces dice)
calculate_score_given c dice = (
  (λ (n, e). elim (Bool-cases (is_roll dice)) [
    | inr invalid ↦ let (why, r) = calculate_score_refused c dice invalid in ground arith
    | inl valid ↦ (ground arith, every-AreFaces dice (ground arith))
  ]),
  (λ (five, faces).
      let all = AreFaces-every dice faces in
      let valid : is_roll dice ≡ true = ground arith in
      (if satisfied c dice then points c dice else 0, scored c dice valid)),
)

-- A roll of five dice scores what the category is worth if the dice show it, and 0 if they do not.
pub calculate_score_lem :
    (c : Category) (dice : List ℕ)
    → is_roll dice ≡ true
    → (Shows c dice × (calculate_score c dice ≡ ok (worth c dice)))
      ⊎ ((¬ Shows c dice) × (calculate_score c dice ≡ ok 0))
unfolding calculate_score is_satisfied_by
calculate_score_lem c dice valid =
    let five : length dice ≡ 5 = ground arith in
    elim (Bool-cases (satisfied c dice)) [
      | inl holds ↦ inl (
        (satisfied-Shows c dice five).0 holds,
        rw (valid_roll dice valid, holds) (ap ok (points-worth c dice)),
      )
      | inr fails ↦ inr (
        (λ shows. let holds = (satisfied-Shows c dice five).1 shows in ground arith),
        rw (valid_roll dice valid, fails) refl,
      )
    ]

sum_bound : (dice : List ℕ) → every is_face dice ≡ true → sum dice ≤ 6 * length dice
unfolding sum is_face
sum_bound [] h = ground arith
sum_bound (die ∷ dice) h = ground (arith, sum_bound dice)

occurs_bound : (face : ℕ) (dice : List ℕ) → occurs face dice ≤ length dice
unfolding occurs
occurs_bound face [] = ground arith
occurs_bound face (die ∷ dice) = ground (arith, occurs_bound face dice)

points_bound : (c : Category) (dice : List ℕ) → is_roll dice ≡ true → points c dice ≤ 50
unfolding worth
points_bound c dice valid = rw (points-worth c dice) (by_category c)
  where
    all : sum dice ≤ 50
    all = ground (arith, sum_bound dice)

    face : (f : ℕ) → occurs f dice ≤ 5
    face f = ground (arith, occurs_bound f dice)

    by_category : (c : Category) → worth c dice ≤ 50
    by_category ones = ground (arith, face 1)
    by_category twos = ground (arith, face 2)
    by_category threes = ground (arith, face 3)
    by_category fours = ground (arith, face 4)
    by_category fives = ground (arith, face 5)
    by_category sixes = ground (arith, face 6)
    by_category choice = all
    by_category four_of_a_kind = all
    by_category full_house = all
    by_category small_straight = omega arith
    by_category large_straight = omega arith
    by_category yacht = omega arith

-- No category gives more than 50 points.
pub calculate_score_bound :
    (c : Category) (dice : List ℕ) (n : ℕ) → calculate_score c dice ≡ ok n → n ≤ 50
calculate_score_bound c dice n e = elim (Bool-cases (is_roll dice)) [
  | inr invalid ↦ let (why, r) = calculate_score_refused c dice invalid in ground arith
  | inl valid ↦ ground (arith, scored c dice, points_bound c dice)
]
