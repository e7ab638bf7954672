-- ===== src/Score/Examples.antt =====
-- Rolls and requests of Yacht (backend/src/game/score), and the theorems at them.
use mathlib.Core.List.{Permᴰ}
use yorr.Prelude.{
  ℕ, ◌≡◌, ◌≢◌, ◌⊎◌, ◌↔◌, refl, ◌≤◌, true, length, List, [], ◌∷◌, ok, lookup, lookup_or, arith,
  number, decimal, eq_iff,
}
use yorr.Score.Category.{
  full_house, api_key, is_face, counts, counts_from, tally, some_count, satisfied, is_satisfied_by,
  is_full_house, validate_dice, sum,
}
use yorr.Score.Calculator.{calculate_score, points}
use yorr.Score.Hands.{Shows, satisfied-Shows}
use yorr.Score.Worth.{
  is_roll, worth, calculate_score_lem, AreFaces, calculate_score_given, calculate_score_bound,
}
use yorr.Score.Reorder.{calculate_score-perm}
use yorr.Score.Confirm.{
  Store, Request, success, idempotent_retry, round_conflict, confirm, confirm_guard, request,
  exists, hexists, has_value, field, bonus_of,
}
use yorr.Score.Sums.{IsSummed, recorded, confirm-IsSummed}
use yorr.Score.Repeats.{confirm_repeated, confirm_conflict}

abbrev house : List ℕ
house = 2 ∷ 5 ∷ 2 ∷ 5 ∷ 5 ∷ []

abbrev house_sorted : List ℕ
house_sorted = 5 ∷ 2 ∷ 2 ∷ 5 ∷ 5 ∷ []

satisfied-Shows_example : (satisfied full_house house ≡ true) ↔ Shows full_house house
satisfied-Shows_example = satisfied-Shows full_house house refl

house-is_roll : is_roll house ≡ true
unfolding is_face
house-is_roll = refl

calculate_score_example :
    (Shows full_house house × (calculate_score full_house house ≡ ok (worth full_house house)))
    ⊎ ((¬ Shows full_house house) × (calculate_score full_house house ≡ ok 0))
calculate_score_example = calculate_score_lem full_house house house-is_roll

house_scores : calculate_score full_house house ≡ ok 19
unfolding calculate_score is_satisfied_by validate_dice is_face satisfied is_full_house counts
    counts_from tally some_count points sum
house_scores = refl

calculate_score_given_example :
    ((n : ℕ) × (calculate_score full_house house ≡ ok n)) ↔ ((length house ≡ 5) × AreFaces house)
calculate_score_given_example = calculate_score_given full_house house

calculate_score_bound_example : 19 ≤ 50
calculate_score_bound_example = calculate_score_bound full_house house 19 house_scores

calculate_score-perm_example :
    calculate_score full_house house ≡ calculate_score full_house house_sorted
calculate_score-perm_example =
    calculate_score-perm full_house house house_sorted (Permᴰ.swap refl refl) house-is_roll

-- Ann plays in a running game and has recorded her aces.
abbrev store : Store
store = record {
  game = ("roomCode", "R1") ∷ [];
  room = ("gameId", "G1") ∷ ("phase", "PLAYING") ∷ [];
  players = ("ann", "{}") ∷ ("bob", "{}") ∷ [];
  scoreboard =
      ("ones", "3") ∷ ("_upperSubtotal", "3") ∷ ("_upperBonus", "0") ∷ ("_total", "3") ∷ [];
  submissions = ("1", "ones:1,1,1,4,6") ∷ [];
  scores = ("ann", "3") ∷ [];
  game_ttl = 60000;
  scoreboard_ttl = 0;
  submissions_ttl = 0;
}

board_IsSummed : IsSummed store.scoreboard
unfolding field recorded bonus_of lookup_or lookup number api_key
board_IsSummed = record { subtotal = refl; bonus = refl; total = refl }

confirm-IsSummed_example :
    IsSummed
      (confirm store (request "R1" "G1" "ann" 2 full_house 19 "fullHouse:2,5,2,5,5")).1.scoreboard
confirm-IsSummed_example =
    confirm-IsSummed store "R1" "G1" "ann" "fullHouse:2,5,2,5,5" 2 19 full_house board_IsSummed

abbrev asked : Request
asked = request "R1" "G1" "ann" 2 full_house 19 "fullHouse:2,5,2,5,5"

abbrev asked_other : Request
asked_other = request "R1" "G1" "ann" 2 full_house 19 "fullHouse:5,2,2,5,5"

passes : (confirm store asked).0 ≡ success
unfolding confirm confirm_guard hexists has_value exists request lookup decimal api_key
passes = refl

confirm_repeated_example :
    confirm (confirm store asked).1 asked ≡ (idempotent_retry, (confirm store asked).1)
confirm_repeated_example = confirm_repeated store asked passes

other_signature : asked_other.signature ≢ asked.signature
unfolding request
other_signature e = ground (arith, eq_iff asked_other.signature asked.signature)

confirm_conflict_example :
    confirm (confirm store asked).1 asked_other ≡ (round_conflict, (confirm store asked).1)
unfolding request
confirm_conflict_example =
    confirm_conflict store asked asked_other passes refl refl refl refl other_signature
