-- ===== src/Duel/Types.antt =====
-- duelState.ts, with the look-ups and the constants of duelRound.ts and duelRules.ts.
use yorr.Prelude.{
  ℕ, String, ℤ, negsuc, Bool, true, false, Option, List, ◌∷◌, Dict, lookup_or, Result, ok, err,
}

pub data Phase : Type 0 where
  waiting signal result finished : Phase

pub data RoundKind : Type 0 where
  shot tie warning self_shot forfeit : RoundKind

pub record Round : Type 0 where
  pub number : ℕ
  pub kind : RoundKind
  pub shooter_id : Option String
  pub hit_id : Option String
  pub ko_id : Option String
  pub foul_id : Option String
  pub over : Bool
  pub at : ℕ

pub record State : Type 0 where
  pub version : ℕ
  pub phase : Phase
  pub player_order : List String
  pub hp : Dict ℕ
  pub fouls : Dict ℕ
  pub reactions : Dict ℤ
  pub last_input_seq : Dict ℤ
  pub round : ℕ
  pub signal_at : ℕ
  pub next_action_at : ℕ
  pub last_round : Option Round

abbrev pub is_finished : Phase → Bool
is_finished finished = true
is_finished _ = false

abbrev pub is_waiting : Phase → Bool
is_waiting waiting = true
is_waiting _ = false

abbrev pub is_signal : Phase → Bool
is_signal signal = true
is_signal _ = false

abbrev pub is_result : Phase → Bool
is_result result = true
is_result _ = false

abbrev pub max_hp : ℕ
max_hp = 3

abbrev pub max_fouls : ℕ
max_fouls = 2

-- The reactions that are no times: drawn before the signal, and not drawn at all.
abbrev pub foul : ℤ
foul = negsuc 0

abbrev pub miss : ℤ
miss = negsuc 1

abbrev pub tie_hold_millis : ℕ
tie_hold_millis = 1650

abbrev pub result_hold_millis : ℕ
result_hold_millis = 2150

abbrev pub ko_hold_millis : ℕ
ko_hold_millis = 2900

abbrev pub grace_millis : ℕ
grace_millis = 700

abbrev pub freeze_millis : ℕ
freeze_millis = 2600

abbrev pub at {ℓ} : {V : Type ℓ} → Dict V → String → V → V
at values player_id fallback = lookup_or values player_id fallback

-- `const [first, second] = state.playerOrder`
abbrev pub sides : List String → Result (String × String)
sides (first ∷ second ∷ rest) = ok (first, second)
sides _ = err "duel_requires_two_players"
