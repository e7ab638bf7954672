-- ===== src/Davinci/Input.antt =====
-- davinciInput.ts: what is checked of an input before the rules see it, and who takes part.
use yorr.Prelude.{
  String, ℤ, pos, ltb_ℤ, Bool, false, not, ◌||◌, Option, none, some, List, ◌++◌, map, length, keep,
  ltb, str_eq, is_blank, Result, ok, err, require, ◌>>◌, if◌then◌else◌,
}
use yorr.Davinci.Types.{min_players, max_players}

unfoldable pub require_input_seq : ℤ → Result (Unit {0})
require_input_seq input_seq = require (not (ltb_ℤ input_seq (pos 0))) "invalid_davinci_input"

unfoldable pub require_guess_payload : ℤ → String → String → Result (Unit {0})
require_guess_payload input_seq target_id tile_id = do
  require_input_seq input_seq
  require (not (is_blank target_id || is_blank tile_id)) "invalid_davinci_guess"

unfoldable pub require_decide_payload : ℤ → String → Result (Unit {0})
require_decide_payload input_seq decision = do
  require_input_seq input_seq
  require (str_eq decision "CONTINUE" || str_eq decision "STOP") "invalid_davinci_decision"

unfoldable pub require_place_payload : ℤ → ℤ → Result (Unit {0})
require_place_payload input_seq index = do
  require_input_seq input_seq
  require (not (ltb_ℤ index (pos 0))) "invalid_davinci_place"

pub record RosterPlayer : Type 0 where
  pub player_id : String
  pub kind : String

pub record StartRoster : Type 0 where
  pub host_id : Option String
  pub players : List RosterPlayer

-- `player.playerId === roster.hostId`
unfoldable pub is_host : Option String → RosterPlayer → Bool
is_host none p = false
is_host (some h) p = str_eq p.player_id h

unfoldable pub ordered_player_ids : StartRoster → Result (List String)
unfolding is_host
ordered_player_ids roster =
    let humans = keep (λ (p : RosterPlayer). str_eq p.kind "HUMAN") roster.players in
    let players =
      map (λ (p : RosterPlayer). p.player_id)
        (keep (is_host roster.host_id) humans
          ++ keep (λ p. not (is_host roster.host_id p)) humans) in
    if ltb (length players) min_players || ltb max_players (length players)
    then err "davinci_requires_two_to_four_players"
    else ok players
