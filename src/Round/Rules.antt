-- ===== src/Round/Rules.antt =====
-- The transitions of roundState.ts and roundTransitions.ts.
use yorr.Prelude.{
  ℕ, zero, suc, ◌+◌, ◌-◌, String, Bool, true, false, not, ◌&&◌, ◌||◌, Option, none, some, List, [],
  ◌∷◌, length, get_elem?, includes, map, Dict, insert, lookup, leb, ltb, eqb, str_eq, if◌then◌else◌,
  Result, ok, err, ◌>>=◌, require,
}
use yorr.Round.Types.{State, Submission, Roll, Advanced, max_roll_count, none_held}
use yorr.Round.Contracts.{restore, validate_held, validate_dice, same_dice, merge_rolled_dice}

-- The getter `activePlayerId`.
unfoldable pub active_player_id : State → Result String
active_player_id s = elim (get_elem? s.participant_order s.active_player_index) [
  | none ↦ err "INVALID_PLAYER"
  | some p ↦ ok p
]

abbrev pub has_rolls_left : State → Bool
has_rolls_left s = ltb s.active_roll_count max_roll_count

unfoldable pub validate_current_player : State → String → ℕ → Result (Unit {0})
validate_current_player s player_id submitted_round_number = do
  playing ← require (not s.finished) "GAME_ALREADY_FINISHED"
  current ← require (eqb submitted_round_number s.round_number) "ROUND_MISMATCH"
  seated ← require (includes s.participant_order player_id) "PLAYER_NOT_IN_ROUND"
  active ← active_player_id s
  require (str_eq active player_id) "NOT_ACTIVE_PLAYER"

-- `held.includes(true)`
unfoldable pub holds_some : List Bool → Bool
holds_some [] = false
holds_some (h ∷ held) = h || holds_some held

unfoldable pub is_none : {A : Type 0} → Option A → Bool
is_none none = true
is_none (some a) = false

unfoldable pub record_roll : State → Roll → Result State
unfolding is_none holds_some
record_roll s i = do
  current ← validate_current_player s i.player_id i.round_number
  next ←
      require
        (not (
          ltb i.roll_count 1
          || ltb max_roll_count i.roll_count
          || not (eqb i.roll_count (s.active_roll_count + 1))))
        "INVALID_ROLL"
  marks ← validate_held i.held
  dice ← validate_dice i.rolled_dice
  first ← require (not (is_none s.active_dice && holds_some i.held)) "INVALID_ROLL"
  restore (record s {
    active_roll_count = i.roll_count;
    active_dice = some (merge_rolled_dice s.active_dice i.rolled_dice i.held);
    active_held = some i.held;
    finished = false;
  })

unfoldable pub record_hold : State → String → ℕ → List Bool → Result State
unfolding is_none
record_hold s player_id submitted_round_number held = do
  current ← validate_current_player s player_id submitted_round_number
  rolled ← require (not (is_none s.active_dice)) "INVALID_ROLL"
  marks ← validate_held held
  restore (record s { active_held = some held; finished = false })

unfoldable pub auto_roll : State → List ℕ → Result State
auto_roll s rolled_dice = do
  left ← require (has_rolls_left s) "INVALID_ROLL"
  active ← active_player_id s
  record_roll s (record {
    player_id = active;
    round_number = s.round_number;
    roll_count = s.active_roll_count + 1;
    held = elim s.active_held [ none ↦ none_held | some held ↦ held ];
    rolled_dice = rolled_dice;
  })

-- `[...submissions.keys()]`
unfoldable pub submitted : Dict Submission → List String
submitted submissions = map (λ (player_id, x). player_id) submissions

unfoldable pub complete_round : State → Dict Submission → Result Advanced
unfolding submitted
complete_round s submissions =
    let game_completed = leb s.total_rounds s.round_number in
    let terminal : State = record s {
      submissions = submissions;
      active_roll_count = 0;
      active_dice = none;
      active_held = none;
      finished = true;
    } in
    let next_round : State = record terminal {
      round_number = s.round_number + 1;
      submissions = [];
      active_player_index = 0;
      finished = false;
    } in
    do
      next ← restore (if game_completed then terminal else next_round)
      ok (record {
        state = next;
        completed_round = some (record {
          round_number = s.round_number;
          submitted_player_ids = submitted submissions;
          next_round_number = if game_completed then s.round_number else s.round_number + 1;
          game_completed = game_completed;
        });
      })

unfoldable pub advance_turn : State → Dict Submission → Result Advanced
advance_turn s submissions =
    if ltb (s.active_player_index + 1) (length s.participant_order)
    then (do
      next ← restore (record s {
        submissions = submissions;
        active_player_index = s.active_player_index + 1;
        active_roll_count = 0;
        active_dice = none;
        active_held = none;
        finished = false;
      })
      ok (record { state = next; completed_round = none }))
    else complete_round s submissions

unfoldable pub submit : State → Submission → Result Advanced
submit s i = do
  current ← validate_current_player s i.player_id i.round_number
  rolled ← elim s.active_dice [
    | none ↦ err "INVALID_DICE"
    | some dice ↦ require (same_dice dice i.dice) "INVALID_DICE"
  ]
  fresh ← require (is_none (lookup i.player_id s.submissions)) "ALREADY_SUBMITTED"
  advance_turn s (insert i.player_id i s.submissions)

unfoldable pub expire : State → Result Advanced
expire s = do
  playing ← require (not s.finished) "GAME_ALREADY_FINISHED"
  advance_turn s s.submissions

-- `indexOf`, for a player who is there.
unfoldable pub index_of : List String → String → ℕ
index_of [] player_id = 0
index_of (p ∷ order) player_id =
    let n = index_of order player_id in if str_eq p player_id then 0 else suc n

-- `splice(index, 1)`
unfoldable pub remove_at : ℕ → List String → List String
remove_at n [] = []
remove_at zero (p ∷ order) = order
remove_at (suc n) (p ∷ order) = p ∷ remove_at n order

unfoldable pub without_participant : State → String → Result State
unfolding index_of remove_at
without_participant s player_id =
    if s.finished || not (includes s.participant_order player_id) then ok s else do
      active ← active_player_id s
      other ← require (not (str_eq active player_id)) "INVALID_PLAYER"
      let removed_index = index_of s.participant_order player_id
      restore (record s {
        participant_order = remove_at removed_index s.participant_order;
        active_player_index =
            if ltb removed_index s.active_player_index
            then s.active_player_index - 1
            else s.active_player_index;
        finished = false;
      })
