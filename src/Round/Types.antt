-- ===== src/Round/Types.antt =====
-- The data of roundStateContracts.ts, roundSubmission.ts and roundState.ts. The order of the fields is
-- the source's. A die is a natural number, as in the scores.
use yorr.Prelude.{ℕ, String, Bool, false, Option, List, [], ◌∷◌, Dict}

abbrev pub dice_count : ℕ
dice_count = 5

abbrev pub max_roll_count : ℕ
max_roll_count = 3

abbrev pub default_total_rounds : ℕ
default_total_rounds = 12

-- `NO_HELD`
abbrev pub none_held : List Bool
none_held = false ∷ false ∷ false ∷ false ∷ false ∷ []

abbrev pub submittable_categories : List String
submittable_categories =
    "ones" ∷ "twos" ∷ "threes" ∷ "fours" ∷ "fives" ∷ "sixes" ∷ "choice" ∷ "fourOfAKind"
    ∷ "fullHouse" ∷ "smallStraight" ∷ "largeStraight" ∷ "yacht" ∷ []

pub record Submission : Type 0 where
  pub player_id : String
  pub round_number : ℕ
  pub dice : List ℕ
  pub category : String

pub record Roll : Type 0 where
  pub player_id : String
  pub round_number : ℕ
  pub roll_count : ℕ
  pub held : List Bool
  pub rolled_dice : List ℕ

pub record Completion : Type 0 where
  pub round_number : ℕ
  pub submitted_player_ids : List String
  pub next_round_number : ℕ
  pub game_completed : Bool

-- `RoundStateProps` and the fields of `RoundState`; `participantIds` is the set of `participantOrder`.
pub record State : Type 0 where
  pub round_number : ℕ
  pub total_rounds : ℕ
  pub participant_order : List String
  pub submissions : Dict Submission
  pub active_player_index : ℕ
  pub active_roll_count : ℕ
  pub active_dice : Option (List ℕ)
  pub active_held : Option (List Bool)
  pub finished : Bool

-- `RoundSubmissionResult`
pub record Advanced : Type 0 where
  pub state : State
  pub completed_round : Option Completion
