-- ===== src/Davinci/Service.antt =====
-- davinciGameService.ts, davinciProgress.ts, davinciResume.ts and `mutate` of davinciStateStore.ts, for one
-- room: its stored state, the one deadline that the scheduler holds for it, and what is sent and recorded.
-- Each call is one step, and no other comes in between.
pub mod Timers
pub mod Requests
use yorr.Prelude.{
  ℕ, String, ℤ, Bool, true, false, not, ◌||◌, Option, none, some, List, [], ◌∷◌, ◌++◌, leb, eqb,
  if◌then◌else◌, Result, ok, err, require, ◌>>=◌, ◌>>◌,
}
use yorr.Davinci.Types.{State, Event, EventKind, is_finished}
use yorr.Davinci.Tiles.{is_guessable_number}
use yorr.Davinci.View.{View, to_view}
use yorr.Davinci.Rules.{
  GuessInput, DecideInput, PlaceInput, Decision, continue, stop, guess, decide, place, expire,
  forfeit,
}
use yorr.Davinci.Setup.{initial_state, score_of}
use yorr.Davinci.Input.{
  StartRoster, ordered_player_ids, require_guess_payload, require_decide_payload,
  require_place_payload,
}

pub record Deadline : Type 0 where
  pub version : ℕ
  pub at : ℕ

pub record Seat : Type 0 where
  pub player_id : String
  pub has_socket : Bool

pub record Room : Type 0 where
  pub state : Option State
  pub deadline : Option Deadline
  pub seats : List Seat

pub data Effect : Type 0 where
  cancels finishes_forced syncs_room : Effect
  schedules : Deadline → Effect
  writes_scores : List (String × ℕ) → Effect
  sends : List (String × View) → Effect
  sends_snapshots : List (String × View) → Effect

-- `sendToAll`: a seat without a socket is passed over, and each viewer gets a view of his own.
unfoldable pub frames : List Seat → State → List (String × View)
frames [] s = []
frames (seat ∷ rest) s =
    let later = frames rest s in
    if seat.has_socket then (seat.player_id, to_view s (some seat.player_id)) ∷ later else later

unfoldable pub broadcast : List Seat → State → Bool → List Effect
unfolding frames
broadcast seats s with_snapshot =
    sends (frames seats s) ∷ (if with_snapshot then sends_snapshots (frames seats s) ∷ [] else [])

unfoldable pub schedule : Room → State → Room × List Effect
schedule room s =
    if is_finished s.phase || leb s.next_action_at 0
    then (room, [])
    else let deadline : Deadline = record { version = s.version; at = s.next_action_at } in
      (record room { deadline = some deadline }, schedules deadline ∷ [])

unfoldable pub scores_of : List String → State → List (String × ℕ)
scores_of [] s = []
scores_of (p ∷ rest) s = (p, score_of s p) ∷ scores_of rest s

unfoldable pub was_forfeit : Option Event → Bool
was_forfeit none = false
was_forfeit (some e) = elim e.kind [ EventKind.forfeit ↦ true | _ ↦ false ]

-- `changed` of davinciProgress.ts
unfoldable pub changed : Room → State → Room × List Effect
unfolding schedule broadcast scores_of was_forfeit
changed room s =
    if not (is_finished s.phase)
    then (let (room', booked) = schedule room s in
        (room', broadcast room.seats s (was_forfeit s.last_event) ++ booked))
    else (
      record room { deadline = none },
      cancels
          ∷ writes_scores (scores_of s.player_order s)
          ∷ finishes_forced
          ∷ broadcast room.seats s true,
    )

-- `mutate`: a rule that leaves the version alone writes nothing.
unfoldable pub mutate : Room → (State → Option State) → Option State
mutate room mutation = elim room.state [
  | none ↦ none
  | some current ↦ elim (mutation current) [
    | none ↦ none
    | some next ↦ if leb next.version current.version then none else some next
  ]
]

unfoldable pub commit : Room → Option State → Room × List Effect
unfolding changed
commit room none = (room, [])
commit room (some next) = changed (record room { state = some next }) next

unfoldable pub service_guess : Room → GuessInput → Result (Room × List Effect)
unfolding mutate commit
service_guess room i = do
  require_guess_payload i.input_seq i.target_id i.tile_id
  require (is_guessable_number i.number) "invalid_davinci_guess"
  ok (commit room (mutate room (λ s. some (guess s i))))

decision_text : Decision → String
decision_text continue = "CONTINUE"
decision_text stop = "STOP"

unfoldable pub service_decide : Room → DecideInput → Result (Room × List Effect)
unfolding mutate commit decision_text
service_decide room i = do
  require_decide_payload i.input_seq (decision_text i.decision)
  ok (commit room (mutate room (λ s. some (decide s i))))

unfoldable pub service_place : Room → PlaceInput → Result (Room × List Effect)
unfolding mutate commit
service_place room i = do
  require_place_payload i.input_seq i.index
  ok (commit room (mutate room (λ s. some (place s i))))

unfoldable pub remove_player : Room → String → ℕ → Room × List Effect
unfolding mutate commit
remove_player room player_id now = commit room (mutate room (λ s. some (forfeit s player_id now)))

-- The rule that the timer applies: nothing, if the state has moved on since it was set.
unfoldable pub timeout_rule : ℕ → ℕ → State → Option State
timeout_rule expected_version now s =
    if not (eqb s.version expected_version) || is_finished s.phase
    then none
    else some (expire s now)

-- The reserved deadline fires: the scheduler gives up the slot and calls `timeout`.
unfoldable pub fire : Room → Deadline → ℕ → Room × List Effect
unfolding mutate commit timeout_rule
fire room d now =
    let room' : Room = record room { deadline = none } in
    commit room' (mutate room' (timeout_rule d.version now))

-- The deadline fires while others hold the lock of the state for too long: the scheduler has given up the
-- slot, and `mutate` throws.
unfoldable pub fire_busy : Room → Room
fire_busy room = record room { deadline = none }

unfoldable pub pause : Room → Room × List Effect
pause room = (record room { deadline = none }, cancels ∷ [])

unfoldable pub resume : Room → Room × List Effect
unfolding schedule
resume room = elim room.state [
  | none ↦ (room, [])
  | some s ↦ if is_finished s.phase then (room, []) else schedule room s
]

unfoldable pub rehydrate : Room → Result (Room × List Effect)
unfolding schedule
rehydrate room = elim room.state [
  | none ↦ err "no state in a room that plays"
  | some s ↦ if is_finished s.phase then err "the game is over" else ok (schedule room s)
]

unfoldable pub start : Room → StartRoster → List ℕ → ℕ → Result (Room × List Effect)
unfolding schedule broadcast
start room roster shuffled_order now = do
  players ← ordered_player_ids roster
  s ← initial_state players shuffled_order now
  elim room.state [
    | some old ↦ err "davinci_already_initialized"
    | none ↦
        let (room', booked) = schedule (record room { state = some s }) s in
        ok (room', broadcast room.seats s true ++ booked)
  ]

unfoldable pub reset : Room → Room × List Effect
reset room = (record room { state = none; deadline = none }, cancels ∷ syncs_room ∷ [])

unfoldable pub close : Room → Room × List Effect
close room = (record room { state = none; deadline = none }, cancels ∷ [])

-- What may reach the room of a game; `fires` is the reserved deadline, if there is one.
pub data Request : Type 0 where
  starts : StartRoster → List ℕ → ℕ → Request
  guesses : GuessInput → Request
  decides : DecideInput → Request
  places : PlaceInput → Request
  leaves : String → ℕ → Request
  fires : ℕ → Request
  fires_busy pauses resumes rehydrates resets closes : Request

-- A call that throws leaves the room as it was.
unfoldable pub served : Room → Result (Room × List Effect) → Room
served room (ok after) = after.0
served room (err e) = room

unfoldable pub serve : Room → Request → Room
serve room (starts roster order now) = served room (start room roster order now)
serve room (guesses i) = served room (service_guess room i)
serve room (decides i) = served room (service_decide room i)
serve room (places i) = served room (service_place room i)
serve room (leaves p now) = (remove_player room p now).0
serve room (fires now) = elim room.deadline [ none ↦ room | some d ↦ (fire room d now).0 ]
serve room fires_busy = fire_busy room
serve room pauses = (pause room).0
serve room resumes = (resume room).0
serve room rehydrates = served room (rehydrate room)
serve room resets = (reset room).0
serve room closes = (close room).0

-- Whether a room may be without its deadline after the requests: it may when it was paused or its deadline
-- was lost, until it is resumed or its game is put away.
abbrev pub halts : Bool → Request → Bool
halts halted pauses = true
halts halted fires_busy = true
halts halted resumes = false
halts halted rehydrates = false
halts halted resets = false
halts halted closes = false
halts halted (starts roster order now) = halted
halts halted (guesses i) = halted
halts halted (decides i) = halted
halts halted (places i) = halted
halts halted (leaves p now) = halted
halts halted (fires now) = halted

abbrev pub halts_after : Bool → List Request → Bool
halts_after halted [] = halted
halts_after halted (r ∷ rest) = halts_after (halts halted r) rest

unfoldable pub serve_all : Room → List Request → Room
serve_all room [] = room
serve_all room (r ∷ rest) = serve_all (serve room r) rest
