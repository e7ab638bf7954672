-- ===== src/Rooms/History.antt =====
-- Whatever happens to a room: the scripts of room/scripts and of completion/scripts.ts in any order, as
-- `RoomService` and `BotService` call them, and time between them.
use Prim.Native.String.{◌++◌}
use mathlib.Core.Path.{subst}
use yorr.Prelude.{
  ℕ, ◌+◌, String, ◌≡◌, Bool, false, List, [], ◌∷◌, str_eq, str_eq→eq, Bool-cases, inl, inr, arith,
  refl, sym, ap, ◌∙◌, lookup,
}
use Prim.Native.String.{len}
use text.Mathlib.TextPositions.{len-append}
use yorr.Rooms.Hashes.{Hash, gone, exists, has_value}
use yorr.Rooms.Store.{Store}
use yorr.Rooms.Scripts.{
  create, join, leave, close, bot_add, bot_remove, start, rollback_start, cancel_active_game,
  return_to_lobby, touch,
}
use yorr.Rooms.Valid.{IsGone, IsOpen}
use yorr.Rooms.Entering.{join-IsOpen, bot_add-IsOpen}
use yorr.Rooms.Leaving.{IsRoom, shut, open_room, leave-IsRoom, bot_remove-IsOpen}
use yorr.Rooms.Phases.{
  start-IsOpen, rollback_start-IsOpen, cancel_active_game-IsOpen, return_to_lobby-IsOpen,
}
use yorr.Rooms.Clock.{pass, pass-IsRoom, pass-IsGone, touch-IsOpen}
use yorr.Rooms.Making.{
  create-IsOpen, create_again, close-IsGone, finish, finished_room, finish-IsOpen,
}

-- `ROOM_TTL_SECONDS`, 40 minutes
abbrev pub room_ttl_seconds : ℕ
room_ttl_seconds = 2400

-- A bot's id is `bot-` and a UUID.
unfoldable pub bot_id : String → String
bot_id uuid = "bot-" ++ uuid

pub data Action : Type 0 where
  creates : (capacity : ℕ) (host_id game_code mode : String) → Action
  joins : (user_id nickname : String) → Action
  leaves : (player_id : String) → Action
  closes : Action
  adds_bot : (requester_id uuid nickname marker : String) → Action
  removes_bot : (requester_id player_id : String) → Action
  starts : (game_id room_code : String) (min_players : ℕ) → Action
  rolls_back : (game_id : String) → Action
  cancels : Action
  finishes : (game_id : String) (force : Bool) (required : ℕ) → Action
  returns : Action
  touches : Action
  passes : (ms : ℕ) → Action

unfoldable pub apply : Store → Action → Store
unfolding create join leave close bot_add bot_id bot_remove start rollback_start cancel_active_game
    finish return_to_lobby touch pass
apply s (creates capacity host_id game_code mode) =
    (create s capacity host_id game_code room_ttl_seconds mode).1
apply s (joins user_id nickname) = (join s user_id nickname).1
apply s (leaves player_id) = (leave s player_id).1
apply s closes = close s
apply s (adds_bot requester_id uuid nickname marker) =
    (bot_add s requester_id (bot_id uuid) nickname marker).1
apply s (removes_bot requester_id player_id) = (bot_remove s requester_id player_id).1
apply s (starts game_id room_code min_players) = (start s game_id room_code min_players).1
apply s (rolls_back game_id) = (rollback_start s game_id).1
apply s cancels = (cancel_active_game s).1
apply s (finishes game_id force required) = finish s game_id force required
apply s returns = (return_to_lobby s).1
apply s touches = (touch s room_ttl_seconds).1
apply s (passes ms) = pass s ms

unfoldable pub run : Store → List Action → Store
unfolding apply
run s [] = s
run s (a ∷ rest) = run (apply s a) rest

named_bot : (uuid : String) → str_eq (bot_id uuid) "" ≡ false
unfolding bot_id
named_bot uuid = elim (Bool-cases (str_eq (bot_id uuid) "")) [
  | inr named ↦ named
  | inl blank ↦
      let same : bot_id uuid ≡ "" = str_eq→eq (bot_id uuid) "" blank in
      let lens : 4 + len uuid ≡ 0 = sym (len-append "bot-" uuid) ∙ ap len same in
      absurd (omega arith)
]

apply-open : (s : Store) (a : Action) → IsOpen s → IsRoom (apply s a)
unfolding apply
apply-open s (creates capacity host_id game_code mode) v =
    subst (λ r. IsRoom r.1)
      (sym (create_again s capacity host_id game_code room_ttl_seconds mode v)) (open_room v)
apply-open s (joins user_id nickname) v = open_room (join-IsOpen s user_id nickname v)
apply-open s (leaves player_id) v = leave-IsRoom s player_id v
apply-open s closes v = shut (close-IsGone s)
apply-open s (adds_bot requester_id uuid nickname marker) v =
    open_room (bot_add-IsOpen s requester_id (bot_id uuid) nickname marker (named_bot uuid) v)
apply-open s (removes_bot requester_id player_id) v =
    open_room (bot_remove-IsOpen s requester_id player_id v)
apply-open s (starts game_id room_code min_players) v =
    open_room (start-IsOpen s v game_id room_code min_players)
apply-open s (rolls_back game_id) v = open_room (rollback_start-IsOpen s v game_id)
apply-open s cancels v = open_room (cancel_active_game-IsOpen s v)
apply-open s (finishes game_id force required) v =
    open_room (finish-IsOpen s game_id force required v)
apply-open s returns v = open_room (return_to_lobby-IsOpen s v)
apply-open s touches v = open_room (touch-IsOpen s v room_ttl_seconds (omega arith))
apply-open s (passes ms) v = pass-IsRoom s v ms

-- Where there is no room, every script but `create` leaves all as it is.
module _ (s : Store) (absent : IsGone s) where
  unmade : exists s.room ≡ false
  unfolding exists
  unmade = rw absent.no_room refl

  unread : (k v : String) → has_value s.room k v ≡ false
  unfolding has_value lookup
  unread k v = rw absent.no_room refl

  kept : {t : Store} → t ≡ s → IsRoom t
  kept e = subst IsRoom (sym e) (shut absent)

  apply-gone : (a : Action) → IsRoom (apply s a)
  unfolding apply join leave bot_add bot_remove start rollback_start cancel_active_game
      return_to_lobby touch
  apply-gone (creates capacity host_id game_code mode) =
      open_room
        (create-IsOpen capacity host_id game_code room_ttl_seconds mode (omega arith) s absent)
  apply-gone (joins user_id nickname) = kept (rw (unmade, apply) refl)
  apply-gone (leaves player_id) = kept (rw (unmade, apply) refl)
  apply-gone closes = shut (close-IsGone s)
  apply-gone (adds_bot requester_id uuid nickname marker) = kept (rw (unmade, apply) refl)
  apply-gone (removes_bot requester_id player_id) = kept (rw (unmade, apply) refl)
  apply-gone (starts game_id room_code min_players) = kept (rw (unmade, apply) refl)
  apply-gone (rolls_back game_id) = kept (rw (unread "phase" "PLAYING", apply) refl)
  apply-gone cancels = kept (rw (unmade, apply) refl)
  apply-gone (finishes game_id force required) = elim (finished_room s game_id force required) [
    | inl same ↦ kept same
    | inr (done, playing) ↦ ground (arith, unread "phase" "PLAYING")
  ]
  apply-gone returns = kept (rw (unmade, apply) refl)
  apply-gone touches = kept (rw (unmade, apply) refl)
  apply-gone (passes ms) = shut (pass-IsGone s ms absent)

run_from : (s : Store) (acts : List Action) → IsRoom s → IsRoom (run s acts)
unfolding run
run_from s [] r = r
run_from s (a ∷ rest) (shut absent) = run_from (apply s a) rest (apply-gone s absent a)
run_from s (a ∷ rest) (open_room v) = run_from (apply s a) rest (apply-open s a v)

abbrev pub nothing : (String → Hash) → Store
nothing games = record { room = gone; players = gone; scores = gone; bots = gone; games = games }

-- Whatever scripts of a room and calls that finish its game run on a room that is not there at first, in
-- whatever order and with whatever time
-- between them, the room is gone with its players, scores and bots, or it is open: its count of members is
-- that of its players, who are no more than its capacity; the same players have a score; every bot is a
-- player, and a host who sits there is a human and does so whenever any human does; all its hashes expire
-- at once; and it has a game exactly when it is not in its lobby.
pub run-IsRoom : (games : String → Hash) (acts : List Action) → IsRoom (run (nothing games) acts)
run-IsRoom games acts =
    run_from (nothing games) acts
      (shut (record { no_room = refl; no_players = refl; no_scores = refl; no_bots = refl }))
