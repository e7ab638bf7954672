-- ===== src/Score/Calculator.antt =====
-- yachtScoreCalculator.ts: the score of a roll in a category, and the bonus of the upper six.
use yorr.Prelude.{ℕ, ◌+◌, Option, none, some, List, [], ◌∷◌, leb, if◌then◌else◌, Result, ok, ◌>>=◌}
use yorr.Score.Category.{
  Category, ones, twos, threes, fours, fives, sixes, choice, four_of_a_kind, full_house,
  small_straight, large_straight, yacht, is_satisfied_by, upper_face_sum, sum,
}

abbrev pub small_straight_score : ℕ
small_straight_score = 15

abbrev pub large_straight_score : ℕ
large_straight_score = 30

abbrev pub yacht_score : ℕ
yacht_score = 50

abbrev pub upper_bonus_threshold : ℕ
upper_bonus_threshold = 63

abbrev pub upper_bonus_score : ℕ
upper_bonus_score = 35

-- The `switch` of `calculateScore`, for dice that satisfy the category.
unfoldable pub points : Category → List ℕ → ℕ
unfolding upper_face_sum sum
points ones dice = upper_face_sum 1 dice
points twos dice = upper_face_sum 2 dice
points threes dice = upper_face_sum 3 dice
points fours dice = upper_face_sum 4 dice
points fives dice = upper_face_sum 5 dice
points sixes dice = upper_face_sum 6 dice
points choice dice = sum dice
points four_of_a_kind dice = sum dice
points full_house dice = sum dice
points small_straight dice = small_straight_score
points large_straight dice = large_straight_score
points yacht dice = yacht_score

unfoldable pub calculate_score : Category → List ℕ → Result ℕ
calculate_score category dice = do
  satisfied ← is_satisfied_by category dice
  ok (if satisfied then points category dice else 0)

-- `calculateUpperSubtotal` on recorded scores, which are naturals here; an empty box counts 0.
unfoldable pub upper_subtotal_of : (Category → Option ℕ) → List Category → ℕ
upper_subtotal_of scores [] = 0
upper_subtotal_of scores (c ∷ rest) =
    elim (scores c) [ none ↦ 0 | some n ↦ n ] + upper_subtotal_of scores rest

abbrev pub upper_categories : List Category
upper_categories = ones ∷ twos ∷ threes ∷ fours ∷ fives ∷ sixes ∷ []

unfoldable pub calculate_upper_subtotal : (Category → Option ℕ) → ℕ
unfolding upper_subtotal_of
calculate_upper_subtotal scores = upper_subtotal_of scores upper_categories

unfoldable pub calculate_upper_bonus : (Category → Option ℕ) → ℕ
calculate_upper_bonus scores =
    if leb upper_bonus_threshold (calculate_upper_subtotal scores) then upper_bonus_score else 0
