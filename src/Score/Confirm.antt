-- ===== src/Score/Confirm.antt =====
-- The script CONFIRM_SCORE of scripts.ts, on the six hashes of one call. A key is there if its hash has
-- a field. `scoreBoardStore.ts` writes its arguments.
use yorr.Prelude.{
  ℕ, ◌+◌, ◌-◌, String, Bool, true, false, not, Option, none, some, [], ◌∷◌, Dict, insert, lookup,
  lookup_or, str_eq, ltb, leb, if◌then◌else◌, decimal, number, Result, ok, err,
}
use yorr.Score.Category.{Category, api_key, is_upper_category}

-- The hashes behind KEYS 1 to 6, and the times to live of those that the script reads or sets.
pub record Store : Type 0 where
  pub game : Dict String
  pub room : Dict String
  pub players : Dict String
  pub scoreboard : Dict String
  pub submissions : Dict String
  pub scores : Dict String
  pub game_ttl : ℕ
  pub scoreboard_ttl : ℕ
  pub submissions_ttl : ℕ

-- ARGV 1 to 8
pub record Request : Type 0 where
  pub room_code : String
  pub game_id : String
  pub player_id : String
  pub round_number : String
  pub category : String
  pub score : String
  pub is_upper : String
  pub signature : String

-- `CONFIRM_SCORE_CODE`
pub data Code : Type 0 where
  success game_missing game_room_changed player_missing round_conflict idempotent_retry
        category_conflict room_missing room_game_changed game_not_playing :
      Code

unfoldable pub exists : Dict String → Bool
exists [] = false
exists (x ∷ m) = true

unfoldable pub hexists : Dict String → String → Bool
hexists m k = elim (lookup k m) [ none ↦ false | some v ↦ true ]

-- `r.hget(m, k) === v`
unfoldable pub has_value : Dict String → String → String → Bool
has_value m k v = elim (lookup k m) [ none ↦ false | some w ↦ str_eq w v ]

unfoldable pub confirm_guard : Store → Request → Option Code
unfolding exists hexists has_value
confirm_guard s i =
    if not (hexists s.game "roomCode")
    then some game_missing
    else if not (has_value s.game "roomCode" i.room_code)
    then some game_room_changed
    else if not (exists s.room)
    then some room_missing
    else if not (has_value s.room "gameId" i.game_id)
    then some room_game_changed
    else if not (has_value s.room "phase" "PLAYING")
    then some game_not_playing
    else if not (hexists s.players i.player_id)
    then some player_missing
    else if hexists s.submissions i.round_number
    then some (
        if has_value s.submissions i.round_number i.signature
        then idempotent_retry
        else round_conflict)
    else if hexists s.scoreboard i.category
    then some category_conflict
    else none

abbrev pub upper_subtotal_field : String
upper_subtotal_field = "_upperSubtotal"

abbrev pub upper_bonus_field : String
upper_bonus_field = "_upperBonus"

abbrev pub total_field : String
total_field = "_total"

-- `Number(r.hget(m, k) ?? '0')`
unfoldable pub field : Dict String → String → ℕ
field m k = number (lookup_or m k "0")

unfoldable pub next_subtotal : Dict String → Request → ℕ
unfolding field
next_subtotal board i =
    field board upper_subtotal_field + (if str_eq i.is_upper "1" then number i.score else 0)

unfoldable pub bonus_of : ℕ → ℕ
bonus_of subtotal = if leb 63 subtotal then 35 else 0

unfoldable pub next_total : Dict String → Request → ℕ
unfolding field next_subtotal bonus_of
next_total board i =
    field board total_field
    + number i.score
    + bonus_of (next_subtotal board i)
    - field board upper_bonus_field

-- The `hset` of the score board.
unfoldable pub next_board : Dict String → Request → Dict String
unfolding next_total next_subtotal bonus_of
next_board board i = insert total_field (decimal (next_total board i)) (
    insert upper_bonus_field (decimal (bonus_of (next_subtotal board i))) (
      insert upper_subtotal_field (decimal (next_subtotal board i))
        (insert i.category i.score board)))

unfoldable pub confirm : Store → Request → Code × Store
confirm s i = elim (confirm_guard s i) [
  | some refused ↦ (refused, s)
  | none ↦ (
    success,
    record s {
      scoreboard = next_board s.scoreboard i;
      submissions = insert i.round_number i.signature s.submissions;
      scores = insert i.player_id (decimal (next_total s.scoreboard i)) s.scores;
      scoreboard_ttl = if ltb 0 s.game_ttl then s.game_ttl else s.scoreboard_ttl;
      submissions_ttl = if ltb 0 s.game_ttl then s.game_ttl else s.submissions_ttl;
    },
  )
]

-- `raiseIfFailed`: the reasons of the codes.
unfoldable pub raise_if_failed : Code → Result (Unit {0})
raise_if_failed success = ok tt
raise_if_failed idempotent_retry = ok tt
raise_if_failed game_missing = err "GAME_NOT_FOUND"
raise_if_failed game_room_changed = err "GAME_NOT_FOUND"
raise_if_failed room_missing = err "GAME_NOT_FOUND"
raise_if_failed room_game_changed = err "GAME_NOT_FOUND"
raise_if_failed game_not_playing = err "GAME_NOT_ACTIVE"
raise_if_failed player_missing = err "PLAYER_NOT_IN_GAME"
raise_if_failed round_conflict = err "ROUND_ALREADY_SCORED"
raise_if_failed category_conflict = err "CATEGORY_ALREADY_USED"

-- The arguments that `confirmScore` gives the script.
unfoldable pub request : String → String → String → ℕ → Category → ℕ → String → Request
request room_code game_id player_id round_number category score signature = record {
  room_code = room_code;
  game_id = game_id;
  player_id = player_id;
  round_number = decimal round_number;
  category = api_key category;
  score = decimal score;
  is_upper = if is_upper_category category then "1" else "0";
  signature = signature;
}
