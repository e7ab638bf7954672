-- ===== src/Round/Contracts.antt =====
-- The checks of roundStateContracts.ts, the constructors of roundSubmission.ts and roundState.ts, and
-- roundDice.ts.
use yorr.Prelude.{
  ℕ, String, Bool, true, false, not, ◌&&◌, ◌||◌, Option, none, some, List, [], ◌∷◌, ◌++◌, length,
  every, includes, is_blank, leb, ltb, eqb, if◌then◌else◌, Result, ok, err, ◌>>=◌, require,
}
use yorr.Round.Types.{State, Submission, dice_count, submittable_categories}

abbrev pub is_die : ℕ → Bool
is_die value = leb 1 value && leb value 6

unfoldable pub validate_held : List Bool → Result (Unit {0})
validate_held held = require (eqb (length held) dice_count) "INVALID_ROLL"

unfoldable pub validate_dice : List ℕ → Result (Unit {0})
validate_dice dice = require (eqb (length dice) dice_count && every is_die dice) "INVALID_DICE"

-- The constructor of `RoundSubmission`.
unfoldable pub submission : String → ℕ → List ℕ → String → Result Submission
unfolding is_blank
submission player_id round_number dice category = do
  named ← require (not (is_blank player_id)) "INVALID_PLAYER"
  numbered ← require (not (ltb round_number 1)) "INVALID_ROUND"
  rolled ← validate_dice dice
  known ← require (includes submittable_categories category) "INVALID_CATEGORY"
  ok (record {
    player_id = player_id;
    round_number = round_number;
    dice = dice;
    category = category;
  })

-- The loop of `immutableParticipants`, whose set so far is `copy`.
unfoldable pub participants_from : List String → List String → Result (List String)
unfolding is_blank
participants_from copy [] = if eqb (length copy) 0 then err "INVALID_PLAYER" else ok copy
participants_from copy (p ∷ rest) =
    let more = participants_from (copy ++ p ∷ []) rest in
    if is_blank p || includes copy p then err "INVALID_PLAYER" else more

unfoldable pub immutable_participants : List String → Result (List String)
unfolding participants_from
immutable_participants players = participants_from [] players

-- The constructor of `RoundState`, which `restore` calls.
unfoldable pub restore : State → Result State
restore props = do
  numbered ← require (not (ltb props.round_number 1)) "INVALID_ROUND"
  limited ← require (not (ltb props.total_rounds 1)) "INVALID_ROUND"
  within ← require (not (ltb props.total_rounds props.round_number)) "INVALID_ROUND"
  ok props

unfoldable pub start : ℕ → List String → ℕ → Result State
unfolding immutable_participants restore
start round_number players total_rounds = do
  order ← immutable_participants players
  restore (record {
    round_number = round_number;
    total_rounds = total_rounds;
    participant_order = order;
    submissions = [];
    active_player_index = 0;
    active_roll_count = 0;
    active_dice = none;
    active_held = none;
    finished = false;
  })

-- `sameDice`
unfoldable pub same_dice : List ℕ → List ℕ → Bool
same_dice [] [] = true
same_dice (x ∷ left) (y ∷ right) = eqb x y && same_dice left right
same_dice _ _ = false

-- The loop of `mergeRolledDice`, on as many held marks as rolled dice: where a mark is set and an
-- earlier die is there, it stays.
unfoldable pub keep_held : List ℕ → List ℕ → List Bool → List ℕ
keep_held (kept ∷ previous) (rolled ∷ dice) (held ∷ marks) =
    (if held then kept else rolled) ∷ keep_held previous dice marks
keep_held _ dice _ = dice

unfoldable pub merge_rolled_dice : Option (List ℕ) → List ℕ → List Bool → List ℕ
unfolding keep_held
merge_rolled_dice none dice held = dice
merge_rolled_dice (some previous) dice held = keep_held previous dice held
