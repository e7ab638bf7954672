-- ===== src/Pingpong/Service.antt =====
-- pingPongGameService.ts, pingPongProgress.ts, pingPongResume.ts and `mutate` of
-- pingPongStateStore.ts, for one room: its stored state, the one deadline that the scheduler holds for
-- it, whether its dashboard judges the rallies, and what is sent and recorded. Each call is one step, and
-- no other comes in between.
use yorr.Prelude.{
  ℕ, String, ℤ, pos, Bool, true, false, not, ◌||◌, Option, none, some, List, [], ◌∷◌, ◌++◌, Dict,
  leb, eqb, ltb_ℤ, str_eq, if◌then◌else◌, Result, ok, err, require, ◌>>=◌, ◌>>◌,
}
use yorr.Pingpong.Types.{Floats, State, is_finished, is_preparing, is_countdown}
use yorr.Pingpong.Scoring.{serve, expire, forfeit}
use yorr.Pingpong.Rules.{SwingInput, initial, judged_at, ready, swing, host_report}

pub record Deadline : Type 0 where
  pub version : ℕ
  pub at : ℕ

pub record Room (Float : Type 0) : Type 0 where
  pub state : Option (State Float)
  pub deadline : Option Deadline
  pub host_judged : Option Bool
  pub is_party : Bool

pub data Effect (Float : Type 0) : Type 0 where
  cancels finishes_forced marks_waiting marks_playing leaves_room cancels_game syncs_room :
      Effect Float
  schedules : Deadline → Effect Float
  writes_scores : Dict ℕ → Effect Float
  sends : State Float → Effect Float
  sends_snapshot : State Float → Effect Float
  relays_swing : String → ℤ → ℕ → Effect Float

-- One player of the room that the game starts with.
pub record Entrant : Type 0 where
  pub player_id : String
  pub is_human : Bool

unfoldable pub humans : List Entrant → List String
humans [] = []
humans (e ∷ rest) = let later = humans rest in if e.is_human then e.player_id ∷ later else later

unfoldable pub hosts : String → List String → List String
hosts host [] = []
hosts host (p ∷ rest) = let later = hosts host rest in if str_eq p host then p ∷ later else later

unfoldable pub guests : String → List String → List String
guests host [] = []
guests host (p ∷ rest) = let later = guests host rest in if str_eq p host then later else p ∷ later

-- The stable sort by `playerId !== hostId`; where there is no host nobody comes first.
unfoldable pub host_first : Option String → List String → List String
unfolding hosts guests
host_first none players = players
host_first (some host) players = hosts host players ++ guests host players

unfoldable pub ordered_player_ids : Option String → List Entrant → Result (List String)
unfolding host_first humans
ordered_player_ids host entrants = elim (host_first host (humans entrants)) [
  | p ∷ q ∷ [] ↦ ok (p ∷ q ∷ [])
  | _ ↦ err "ping_pong_requires_two_players"
]

module _ (F : Floats) where
  open F use {Float}

  -- `isHostJudged`, once the room has been read
  unfoldable pub is_host_judged : Room Float → Bool
  is_host_judged room = elim room.host_judged [ none ↦ room.is_party | some judged ↦ judged ]

  unfoldable pub remember_judge : Room Float → Room Float
  unfolding is_host_judged
  remember_judge room = record room { host_judged = some (is_host_judged room) }

  unfoldable pub schedule : Room Float → State Float → Room Float × List (Effect Float)
  unfolding is_host_judged remember_judge is_finished
  schedule room s =
      if is_host_judged room || is_finished s.phase || leb s.next_action_at 0
      then (remember_judge room, [])
      else let deadline : Deadline = record { version = s.version; at = s.next_action_at } in
        (record (remember_judge room) { deadline = some deadline }, schedules deadline ∷ [])

  unfoldable pub broadcast : State Float → Bool → List (Effect Float)
  broadcast s with_snapshot = sends s ∷ (if with_snapshot then sends_snapshot s ∷ [] else [])

  unfoldable pub changed : Room Float → State Float → Room Float × List (Effect Float)
  unfolding schedule broadcast is_finished is_countdown
  changed room s =
      if is_finished s.phase
      then (
        record room { deadline = none },
        cancels ∷ writes_scores s.scores ∷ finishes_forced ∷ broadcast s true,
      )
      else (let (room', booked) = schedule room s in
          (room', broadcast s (is_countdown s.phase) ++ booked))

  -- `mutate`: a rule that leaves the version alone writes nothing.
  unfoldable pub mutate : Room Float → (State Float → Option (State Float)) → Option (State Float)
  mutate room mutation = elim room.state [
    | none ↦ none
    | some current ↦ elim (mutation current) [
      | none ↦ none
      | some next ↦ if eqb next.version current.version then none else some next
    ]
  ]

  unfoldable pub commit : Room Float → Option (State Float) → Room Float × List (Effect Float)
  unfolding changed
  commit room none = (room, [])
  commit room (some next) = changed (record room { state = some next }) next

  unfoldable pub service_swing :
      Room Float → String → ℤ → ℕ → ℕ → Float → Result (Room Float × List (Effect Float))
  unfolding mutate commit is_host_judged remember_judge
  service_swing room player_id input_seq client_ts now target_x = do
    require (not (ltb_ℤ input_seq (pos 0))) "invalid_ping_pong_swing"
    let known = remember_judge room
    ok (
        if is_host_judged room
        then (known, relays_swing player_id input_seq client_ts ∷ [])
        else (let input : SwingInput F = record {
          player_id = player_id;
          input_seq = input_seq;
          now = judged_at now client_ts;
          target_x = target_x;
        } in
            commit known (mutate known (λ s. some (swing F s input)))))

  unfoldable pub host_state : Room Float → String → State Float → Room Float × List (Effect Float)
  unfolding mutate commit is_host_judged remember_judge
  host_state room player_id reported =
      if not (is_host_judged room)
      then (remember_judge room, [])
      else commit (remember_judge room)
          (mutate (remember_judge room) (λ s. host_report F s reported player_id))

  unfoldable pub service_ready : Room Float → String → ℕ → Room Float × List (Effect Float)
  unfolding mutate commit
  service_ready room player_id now = commit room (mutate room (λ s. some (ready F s player_id now)))

  -- The rule that the timer applies: nothing, if the state has moved on since it was set.
  unfoldable pub timeout_rule : ℕ → ℕ → Float → State Float → Option (State Float)
  unfolding is_finished is_countdown
  timeout_rule expected_version now target_x s =
      if not (eqb s.version expected_version) || is_finished s.phase
      then none
      else if is_countdown s.phase
      then some (serve F s now target_x)
      else some (expire F s now)

  -- The reserved deadline fires: the scheduler gives up the slot and calls `timeout`.
  unfoldable pub fire : Room Float → Deadline → ℕ → Float → Room Float × List (Effect Float)
  unfolding mutate commit timeout_rule
  fire room d now target_x =
      let room' : Room Float = record room { deadline = none } in
      commit room' (mutate room' (timeout_rule d.version now target_x))

  -- The deadline fires while others hold the lock of the state for too long: the scheduler has given up
  -- the slot, and `mutate` throws.
  unfoldable pub fire_busy : Room Float → Room Float
  fire_busy room = record room { deadline = none }

  unfoldable pub stop : Room Float → Room Float
  stop room = record room { deadline = none; host_judged = none }

  unfoldable pub was_preparing : Option (State Float) → Bool
  unfolding is_preparing
  was_preparing none = false
  was_preparing (some s) = is_preparing s.phase

  -- A departure before the match starts cancels it; a later one forfeits it.
  unfoldable pub leave : Room Float → String → ℕ → Room Float × List (Effect Float)
  unfolding mutate commit stop was_preparing
  leave room player_id now =
      if was_preparing room.state
      then (
        record (stop room) { state = none },
        leaves_room ∷ cancels ∷ cancels_game ∷ marks_waiting ∷ syncs_room ∷ [],
      )
      else (let (room', sent) = commit room (mutate room (λ s. some (forfeit F s player_id now))) in
          (room', leaves_room ∷ sent))

  unfoldable pub start :
      Room Float → Option String → List Entrant → ℕ → Result (Room Float × List (Effect Float))
  unfolding schedule broadcast remember_judge
  start room host entrants now = do
    players ← ordered_player_ids host entrants
    s ← initial F players now
    elim room.state [
      | some old ↦ err "ping_pong_already_initialized"
      | none ↦
          let (room', booked) = schedule (record (remember_judge room) { state = some s }) s in
          ok (room', marks_playing ∷ broadcast s true ++ booked)
    ]

  unfoldable pub pause : Room Float → Room Float × List (Effect Float)
  pause room = (record room { deadline = none }, cancels ∷ [])

  unfoldable pub resume : Room Float → Room Float × List (Effect Float)
  unfolding schedule is_finished
  resume room = elim room.state [
    | none ↦ (room, [])
    | some s ↦ if is_finished s.phase then (room, []) else schedule room s
  ]

  unfoldable pub rehydrate : Room Float → Result (Room Float × List (Effect Float))
  unfolding schedule is_finished
  rehydrate room = elim room.state [
    | none ↦ err "no state in a room that plays"
    | some s ↦ if is_finished s.phase then err "the match is over" else ok (schedule room s)
  ]

  unfoldable pub reset : Room Float → Room Float × List (Effect Float)
  unfolding stop
  reset room = (record (stop room) { state = none }, cancels ∷ marks_waiting ∷ syncs_room ∷ [])

  unfoldable pub close : Room Float → Room Float × List (Effect Float)
  unfolding stop
  close room = (record (stop room) { state = none }, cancels ∷ [])
