-- ===== src/Davinci/Service/Timers.antt =====
-- The reserved deadline of a game under the calls of its service.
use yorr.Prelude.{
  ℕ, ◌<◌, String, ◌≡◌, refl, ◌≢◌, ◌⊎◌, Bool, true, false, Option, none, some, List, arith,
  if◌then◌else◌, Result, ok, err, Result-cases, Option-cases, ◌>>◌, require, Bool-cases, leb, inl,
  inr,
}
use yorr.Davinci.Types.{State, Tile, finished, is_finished}
use yorr.Davinci.TurnFlow.{place_drawn}
use yorr.Davinci.Rules.{
  GuessInput, DecideInput, PlaceInput, guess, guess_wrong, guess_right, decide, place, expire,
  forfeit, forfeit_base,
}
use yorr.Davinci.Tiles.{is_guessable_number}
use yorr.Davinci.Input.{
  require_guess_payload, require_decide_payload, require_place_payload, StartRoster,
  ordered_player_ids,
}
use yorr.Davinci.Setup.{initial_state, deal}
use yorr.Davinci.Opening.{initial_state_deals}
use yorr.Davinci.Deadlines.{
  advance-HasMoved, conclude_turn-HasMoved, expire-HasMoved, expire_finished,
}
use yorr.Davinci.Service.{
  Room, Deadline, Effect, schedule, changed, mutate, commit, service_guess, service_decide,
  service_place, remove_player, served, decision_text, start,
}

-- A state that goes on has a deadline.
abbrev pub HasDeadline : State → Type 0
HasDeadline s = s.phase ≢ finished → 0 < s.next_action_at

module _ (s : State) (live : HasDeadline s) where
  pub guess-HasDeadline : (i : GuessInput) → HasDeadline (guess s i)
  unfolding guess guess_wrong guess_right
  guess-HasDeadline i = grind (arith, conclude_turn-HasMoved)

  pub decide-HasDeadline : (i : DecideInput) → HasDeadline (decide s i)
  unfolding decide
  decide-HasDeadline i = grind (arith, conclude_turn-HasMoved)

  pub place-HasDeadline : (i : PlaceInput) → HasDeadline (place s i)
  unfolding place place_drawn
  place-HasDeadline i = grind (arith, advance-HasMoved)

  pub expire-HasDeadline : (now : ℕ) → HasDeadline (expire s now)
  expire-HasDeadline now = grind (arith, expire-HasMoved, expire_finished)

  pub forfeit-HasDeadline : (p : String) (now : ℕ) → HasDeadline (forfeit s p now)
  unfolding forfeit forfeit_base
  forfeit-HasDeadline p now = grind (arith, advance-HasMoved)

-- The room keeps the deadline of its present state, or none when the game is over; `halted` tells whether
-- it may be without it, as it is after a pause.
abbrev pub IsTimedFor : Bool → State → Option Deadline → Type 0
IsTimedFor halted s d =
    if is_finished s.phase
    then d ≡ none
    else (0 < s.next_action_at)
      × ((d ≡ some (record { version = s.version; at = s.next_action_at }))
          ⊎ ((halted ≡ true) × (d ≡ none)))

abbrev pub IsTimed : Bool → Room → Type 0
IsTimed halted room = elim room.state [
  | none ↦ Unit {0}
  | some s ↦ IsTimedFor halted s room.deadline
]

module _ (halted : Bool) where
  pub changed-IsTimed :
      (room : Room) (s : State)
      → HasDeadline s
      → IsTimed halted (changed (record room { state = some s }) s).0
  unfolding changed schedule
  changed-IsTimed room s live = elim (Bool-cases (is_finished s.phase)) [
    | inl e ↦ simp e refl
    | inr e ↦
        let ahead : leb s.next_action_at 0 ≡ false = ground arith in
        simp (e, ahead) (ground arith, inl refl)
  ]

  pub HasDeadline-of_IsTimedFor :
      (s : State) (d : Option Deadline) → IsTimedFor halted s d → HasDeadline s
  HasDeadline-of_IsTimedFor s d h p = ground arith

  -- A rule that leaves a deadline wherever the game goes on may be applied to any timed room.
  pub commit-IsTimed :
      (room : Room) (rule : State → State)
      → ((s : State) → HasDeadline s → HasDeadline (rule s))
      → IsTimed halted room
      → IsTimed halted (commit room (mutate room (λ s. some (rule s)))).0
  unfolding mutate commit
  commit-IsTimed room rule keeps h = by_state room.state refl
    where
      kept : (s : State) → room.state ≡ some s → IsTimedFor halted s room.deadline
      kept s e = rw e at h

      by_state :
          (o : Option State)
          → room.state ≡ o
          → IsTimed halted (commit room (mutate room (λ s. some (rule s)))).0
      by_state none e = simp (e, mutate, commit) h
      by_state (some s) e =
          simp (e, mutate, commit)
            (elim (Bool-cases (leb (rule s).version s.version)) [
              | inl same ↦ rw same h
              | inr new ↦ rw new (
                  changed-IsTimed room (rule s)
                    (keeps s (HasDeadline-of_IsTimedFor s room.deadline (kept s e))))
            ])

  pub served_then :
      (room : Room) (r : Result (Unit {0})) (m : Result (Room × List Effect))
      → IsTimed halted room
      → IsTimed halted (served room m)
      → IsTimed halted (served room (r >> m))
  unfolding served
  served_then room (ok u) m h k = k
  served_then room (err e) m h k = h

  pub serve_guess-IsTimed :
      (room : Room) (i : GuessInput)
      → IsTimed halted room
      → IsTimed halted (served room (service_guess room i))
  unfolding service_guess served
  serve_guess-IsTimed room i h =
      let after = commit room (mutate room (λ s. some (guess s i))) in
      let done = commit-IsTimed room (λ s. guess s i) (λ s live. guess-HasDeadline s live i) h in
      let checked = require (is_guessable_number i.number) "invalid_davinci_guess" in
      served_then room (require_guess_payload i.input_seq i.target_id i.tile_id)
        (checked >> ok after) h (served_then room checked (ok after) h done)

  pub serve_decide-IsTimed :
      (room : Room) (i : DecideInput)
      → IsTimed halted room
      → IsTimed halted (served room (service_decide room i))
  unfolding service_decide served
  serve_decide-IsTimed room i h =
      let after = commit room (mutate room (λ s. some (decide s i))) in
      served_then room (require_decide_payload i.input_seq (decision_text i.decision)) (ok after) h
        (commit-IsTimed room (λ s. decide s i) (λ s live. decide-HasDeadline s live i) h)

  pub serve_place-IsTimed :
      (room : Room) (i : PlaceInput)
      → IsTimed halted room
      → IsTimed halted (served room (service_place room i))
  unfolding service_place served
  serve_place-IsTimed room i h =
      let after = commit room (mutate room (λ s. some (place s i))) in
      served_then room (require_place_payload i.input_seq i.index) (ok after) h
        (commit-IsTimed room (λ s. place s i) (λ s live. place-HasDeadline s live i) h)

  pub remove_player-IsTimed :
      (room : Room) (p : String) (now : ℕ)
      → IsTimed halted room
      → IsTimed halted (remove_player room p now).0
  unfolding remove_player
  remove_player-IsTimed room p now h =
      commit-IsTimed room (λ s. forfeit s p now) (λ s live. forfeit-HasDeadline s live p now) h

  pub schedule-IsTimed :
      (room : Room) (s : State)
      → is_finished s.phase ≡ false
      → 0 < s.next_action_at
      → IsTimed halted (schedule (record room { state = some s }) s).0
  unfolding schedule
  schedule-IsTimed room s on ahead =
      let later : leb s.next_action_at 0 ≡ false = ground arith in
      simp (on, later) (ahead, inl refl)

  dealt_running :
      (players : List String) (first : String) (shuffled : List Tile) (now : ℕ)
      → (is_finished (deal players first shuffled now).phase ≡ false)
        × (0 < (deal players first shuffled now).next_action_at)
  unfolding deal
  dealt_running players first shuffled now = (refl, omega arith)

  pub serve_start-IsTimed :
      (room : Room) (roster : StartRoster) (order : List ℕ) (now : ℕ)
      → IsTimed halted room
      → IsTimed halted (served room (start room roster order now))
  unfolding start served
  serve_start-IsTimed room roster order now h = elim (Result-cases (ordered_player_ids roster)) [
    | inr (code, e) ↦ rw (e, start) h
    | inl (players, e) ↦ elim (Result-cases (initial_state players order now)) [
      | inr (code, f) ↦ rw (e, start) (rw f h)
      | inl (s, f) ↦ elim (Option-cases room.state) [
        | inr (old, g) ↦ simp (e, f, g) (rw g at h)
        | inl g ↦
            let (first, shuffled, d, _, _) = initial_state_deals players order now s f in
            let run = dealt_running players first shuffled now in
            simp (e, f, g) (rw d (schedule-IsTimed room _ run.0 run.1))
      ]
    ]
  ]
