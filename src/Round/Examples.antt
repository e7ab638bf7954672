-- ===== src/Round/Examples.antt =====
-- Turns of Yacht (backend/src/game/round), and the theorems at them.
use yorr.Prelude.{
  ℕ, ◌+◌, ◌<◌, String, ◌≡◌, ◌⊎◌, ◌↔◌, refl, Bool, true, false, none, some, List, [], ◌∷◌, includes,
  ok, insert, lookup, is_blank, is_space, str_eq, if◌then◌else◌, arith,
}
use yorr.Round.Types.{State, Submission, Advanced, Completion, none_held}
use yorr.Round.Contracts.{
  start, restore, immutable_participants, participants_from, validate_dice, validate_held,
  same_dice, keep_held, merge_rolled_dice,
}
use yorr.Round.Rules.{
  active_player_id, validate_current_player, record_roll, record_hold, auto_roll, submit, expire,
  advance_turn, complete_round, without_participant, index_of, remove_at, is_none, holds_some,
}
use yorr.Round.Valid.{
  IsValid, rolled, not_yet, Action, rolls, holds, auto_rolls, submits, expires, leaves, run, apply,
  advanced,
}
use yorr.Round.Departures.{game-IsValid, TakenOut, without_participant-Departed}
use yorr.Round.Progress.{turns, expire_times, skips_finish}
use yorr.Round.Calls.{validate_current_player_lem, auto_roll_lem, Keeps, marks_of, submit_lem}

abbrev players : List String
players = "ann" ∷ "bob" ∷ "cho" ∷ []

-- The first turn of a game of two rounds.
abbrev first_turn : State
first_turn = record {
  round_number = 1;
  total_rounds = 2;
  participant_order = players;
  submissions = [];
  active_player_index = 0;
  active_roll_count = 0;
  active_dice = none;
  active_held = none;
  finished = false;
}

starts : start 1 players 2 ≡ ok first_turn
unfolding start restore immutable_participants participants_from is_blank is_space
starts = refl

abbrev dice : List ℕ
dice = 3 ∷ 3 ∷ 1 ∷ 6 ∷ 3 ∷ []

abbrev fresh_dice : List ℕ
fresh_dice = 2 ∷ 4 ∷ 5 ∷ 5 ∷ 6 ∷ []

abbrev marks : List Bool
marks = true ∷ true ∷ false ∷ false ∷ true ∷ []

abbrev rolled_turn : State
rolled_turn = record first_turn {
  active_roll_count = 1;
  active_dice = some dice;
  active_held = some marks;
}

abbrev submission : Submission
submission = record { player_id = "ann"; round_number = 1; dice = dice; category = "threes" }

abbrev history : List Action
history =
    rolls (record {
      player_id = "ann";
      round_number = 1;
      roll_count = 1;
      held = none_held;
      rolled_dice = dice;
    })
    ∷ holds "ann" 1 marks
    ∷ submits submission
    ∷ leaves "ann"
    ∷ auto_rolls fresh_dice
    ∷ expires
    ∷ []

abbrev second_round : State
second_round = record first_turn {
  participant_order = "bob" ∷ "cho" ∷ [];
  submissions = ("ann", submission) ∷ [];
  active_player_index = 1;
}

runs : run first_turn history ≡ ok second_round
unfolding run apply advanced record_roll record_hold submit expire auto_roll without_participant
    advance_turn complete_round validate_current_player validate_dice validate_held active_player_id
    restore merge_rolled_dice keep_held same_dice index_of remove_at is_none holds_some insert
    lookup
runs = refl

game-IsValid_example : IsValid second_round
game-IsValid_example = game-IsValid 1 players 2 first_turn history second_round starts runs

first-IsValid : IsValid first_turn
first-IsValid = record {
  round_from = omega arith;
  round_to = omega arith;
  turn = omega arith;
  roll = not_yet;
}

rolled-IsValid : IsValid rolled_turn
rolled-IsValid = record {
  round_from = omega arith;
  round_to = omega arith;
  turn = omega arith;
  roll = rolled (omega arith) (omega arith) refl refl refl;
}

abbrev without_cho : State
without_cho = record rolled_turn { participant_order = "ann" ∷ "bob" ∷ [] }

cho_leaves : without_participant rolled_turn "cho" ≡ ok without_cho
unfolding without_participant active_player_id index_of remove_at restore
cho_leaves = refl

without_participant-Departed_example :
    IsValid without_cho
    × (active_player_id without_cho ≡ active_player_id rolled_turn)
    × (without_cho.submissions ≡ rolled_turn.submissions)
    × ((((rolled_turn.finished ≡ true) ⊎ (includes rolled_turn.participant_order "cho" ≡ false))
          × (without_cho ≡ rolled_turn))
        ⊎ ((rolled_turn.finished ≡ false)
            × TakenOut "cho" rolled_turn.participant_order without_cho.participant_order))
without_participant-Departed_example =
    without_participant-Departed rolled_turn without_cho "cho" rolled-IsValid cho_leaves

five_fewer : 5 < turns first_turn
unfolding turns
five_fewer = omega arith

skips_finish_example :
    ((t : State) × (expire_times (turns first_turn) first_turn ≡ ok t) × (t.finished ≡ true))
    × ((t : State) × (expire_times 5 first_turn ≡ ok t) × (t.finished ≡ false))
skips_finish_example = skips_finish first_turn 5 first-IsValid refl five_fewer

validate_current_player_example : (validate_current_player first_turn "bob" 1 ≡ ok tt) ↔ (
    (first_turn.finished ≡ false)
    × (1 ≡ first_turn.round_number)
    × (active_player_id first_turn ≡ ok "bob"))
validate_current_player_example = validate_current_player_lem first_turn "bob" 1

auto_roll_example :
    (t : State) × (auto_roll rolled_turn fresh_dice ≡ ok t)
    × (t.active_roll_count ≡ rolled_turn.active_roll_count + 1)
    × (t.active_held ≡ some (marks_of rolled_turn))
    × (shown : List ℕ) × (t.active_dice ≡ some shown)
    × Keeps rolled_turn.active_dice (marks_of rolled_turn) fresh_dice shown
auto_roll_example = auto_roll_lem rolled_turn fresh_dice rolled-IsValid refl (omega arith) refl

abbrev submitted_state : State
submitted_state = record first_turn {
  submissions = ("ann", submission) ∷ [];
  active_player_index = 1;
}

abbrev after_submission : Advanced
after_submission = record { state = submitted_state; completed_round = none }

submits_well : submit rolled_turn submission ≡ ok after_submission
unfolding submit validate_current_player active_player_id same_dice is_none advance_turn restore
    insert lookup
submits_well = refl

submit_example :
    (active_player_id rolled_turn ≡ ok "ann")
    × (rolled_turn.active_dice ≡ some dice)
    × (lookup "ann" rolled_turn.submissions ≡ none)
    × (((after_submission.completed_round ≡ none)
          × ((q : String)
              → lookup q submitted_state.submissions
                ≡ (if str_eq "ann" q then some submission else lookup q rolled_turn.submissions)))
        ⊎ ((c : Completion) × (after_submission.completed_round ≡ some c)
            × (includes c.submitted_player_ids "ann" ≡ true)))
submit_example = submit_lem rolled_turn submission after_submission submits_well
