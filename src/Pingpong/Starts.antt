-- ===== src/Pingpong/Starts.antt =====
-- The reserved deadline of a room of ping pong when its match starts or is resumed.
use mathlib.Core.Path.{subst}
use yorr.Prelude.{
  ℕ, String, ◌≡◌, refl, ap, ◌∙◌, inl, inr, Bool, true, false, ◌||◌, Option, none, some, List, [],
  ◌∷◌, ◌++◌, leb, if◌then◌else◌, arith, Bool-cases, Result, ok, err, ◌>>=◌,
}
use yorr.Pingpong.Types.{Floats, State, is_finished, is_preparing}
use yorr.Pingpong.Rules.{initial, first_state}
use yorr.Pingpong.Service.{
  Room, Effect, Entrant, is_host_judged, remember_judge, schedule, broadcast, marks_playing, start,
  resume, rehydrate, ordered_player_ids,
}
use yorr.Pingpong.Timers.{HasTime}
use yorr.Pingpong.Reservations.{
  IsTimed, deadline_of, party_deadline, remember_judge-IsTimed, no_deadline, timed_for, IsTimed-by,
  served_deadline,
}
use yorr.Pingpong.Calls.{settled}

-- Of two ways to go on, both keep the reserved deadline.
module _ (F : Floats) (halted : Bool) where
  open F use {Float}

  pub choose :
      (b : Bool) (x y : Room Float × List (Effect Float))
      → (b ≡ true → IsTimed F halted x.0)
      → (b ≡ false → IsTimed F halted y.0)
      → IsTimed F halted (if b then x else y).0
  choose true x y f g = f refl
  choose false x y f g = g refl

module _ (F : Floats) (halted : Bool) where
  open F use {Float}

  -- A room that keeps no deadline of its own accord is as it should be, halted or not.
  strict :
      (room : Room Float) (s : State Float)
      → room.state ≡ some s
      → (is_host_judged F room || is_finished s.phase || leb s.next_action_at 0) ≡ true
      → IsTimed F halted room
      → IsTimed F false room
  strict room s stored off v =
      let known = timed_for F halted room s stored v in
      elim (Bool-cases (is_host_judged F room)) [
        | inl judged ↦
            IsTimed-by F false room s stored
              (rw judged (party_deadline F halted room s known judged))
        | inr unjudged ↦
            let (time, held) = served_deadline F halted room s known unjudged in
            let idle : leb s.next_action_at 0 ≡ true = ground (arith, time) in
            let kept : room.deadline ≡ deadline_of F false s = elim held [
              | inl own ↦ own
              | inr (paused, nothing) ↦ nothing ∙ rw idle refl
            ] in
            IsTimed-by F false room s stored (rw unjudged (time, inl kept))
      ]

  -- A state is given its deadline, also after a pause.
  schedule-IsTimed :
      (room : Room Float) (s : State Float)
      → IsTimed F halted room
      → room.state ≡ some s
      → IsTimed F false (schedule F room s).0
  unfolding schedule remember_judge is_host_judged
  schedule-IsTimed room s v stored =
      choose F false (is_host_judged F room || is_finished s.phase || leb s.next_action_at 0) _ _
        (λ off. remember_judge-IsTimed F false room (strict room s stored off v))
        (λ on.
          let unjudged : is_host_judged F room ≡ false = ground arith in
          let busy : leb s.next_action_at 0 ≡ false = ground arith in
          let time =
            (served_deadline F halted room s (timed_for F halted room s stored v) unjudged).0 in
          let booked : Room Float = record (remember_judge F room) {
            deadline = some (record { version = s.version; at = s.next_action_at });
          } in
          IsTimed-by F false booked s stored (rw unjudged (time, inl (rw busy refl))))

  abbrev resume_from : Room Float → Option (State Float) → Room Float × List (Effect Float)
  resume_from room none = (room, [])
  resume_from room (some s) = if is_finished s.phase then (room, []) else schedule F room s

  abbrev rehydrate_from :
      Room Float → Option (State Float) → Result (Room Float × List (Effect Float))
  rehydrate_from room none = err "no state in a room that plays"
  rehydrate_from room (some s) =
      if is_finished s.phase then err "the match is over" else ok (schedule F room s)

  gone-IsTimed :
      (room : Room Float) → room.state ≡ none → IsTimed F halted room → IsTimed F false room
  gone-IsTimed room e v = rw e (no_deadline F halted room e v)

  over-IsTimed :
      (room : Room Float) (s : State Float)
      → room.state ≡ some s
      → is_finished s.phase ≡ true
      → IsTimed F halted room
      → IsTimed F false room
  over-IsTimed room s e over v = strict room s e (ground arith) v

  pub resume-IsTimed :
      (room : Room Float) → IsTimed F halted room → IsTimed F false (resume F room).0
  unfolding resume
  resume-IsTimed room v = resumed room.state refl
    where
      resumed : (o : Option (State Float)) → room.state ≡ o → IsTimed F false (resume_from room o).0
      resumed none e = gone-IsTimed room e v
      resumed (some s) e =
          choose F false (is_finished s.phase) _ _ (λ over. over-IsTimed room s e over v)
            (λ on. schedule-IsTimed room s v e)

  refused :
      (b : Bool) (room : Room Float) (next : Room Float × List (Effect Float))
      → (b ≡ true → IsTimed F false room)
      → (b ≡ false → IsTimed F false next.0)
      → IsTimed F false (settled F room (if b then err "the match is over" else ok next))
  refused true room next f g = f refl
  refused false room next f g = g refl

  pub rehydrate-IsTimed :
      (room : Room Float)
      → IsTimed F halted room
      → IsTimed F false (settled F room (rehydrate F room))
  unfolding rehydrate
  rehydrate-IsTimed room v = rehydrated room.state refl
    where
      rehydrated :
          (o : Option (State Float))
          → room.state ≡ o
          → IsTimed F false (settled F room (rehydrate_from room o))
      rehydrated none e = gone-IsTimed room e v
      rehydrated (some s) e =
          refused (is_finished s.phase) room (schedule F room s)
            (λ over. over-IsTimed room s e over v) (λ on. schedule-IsTimed room s v e)

  ok_of : {x y : State Float} → ok x ≡ ok y → x ≡ y
  ok_of {x} e = ap (λ r. elim r [ err code ↦ x | ok z ↦ z ]) e

  -- A match starts with no deadline.
  initial-HasTime :
      (players : List String) (now : ℕ) (s : State Float)
      → initial F players now ≡ ok s
      → (leb s.next_action_at 0 ≡ true) × HasTime F s
  unfolding initial first_state is_preparing is_finished
  initial-HasTime [] now s e = cc
  initial-HasTime (p ∷ []) now s e = cc
  initial-HasTime (p ∷ q ∷ r ∷ rest) now s e = cc
  initial-HasTime (p ∷ q ∷ []) now s e =
      subst (λ t. (leb t.next_action_at 0 ≡ true) × HasTime F t) (ok_of e) (refl, refl)

  opened :
      (room : Room Float) (s : State Float)
      → IsTimed F halted room
      → room.state ≡ none
      → (leb s.next_action_at 0 ≡ true) × HasTime F s
      → IsTimed F halted (schedule F (record (remember_judge F room) { state = some s }) s).0
  unfolding schedule remember_judge is_host_judged
  opened room s v absent (idle, time) =
      choose F halted (is_host_judged F room || is_finished s.phase || leb s.next_action_at 0) _ _
        (λ off. elim (Bool-cases (is_host_judged F room)) [
          | inl judged ↦ rw judged (no_deadline F halted room absent v)
          | inr unjudged ↦
              rw unjudged (time, inl (no_deadline F halted room absent v ∙ rw idle refl))
        ])
        (λ on. ground (arith, idle, on))

  abbrev start_from :
      Room Float → Option (State Float) → State Float → Result (Room Float × List (Effect Float))
  start_from room o s = elim o [
    | some old ↦ err "ping_pong_already_initialized"
    | none ↦
        let (next, booked) = schedule F (record (remember_judge F room) { state = some s }) s in
        ok (next, marks_playing ∷ broadcast F s true ++ booked)
  ]

  pub start-IsTimed :
      (room : Room Float) (host : Option String) (entrants : List Entrant) (now : ℕ)
      → IsTimed F halted room
      → IsTimed F halted (settled F room (start F room host entrants now))
  unfolding start
  start-IsTimed room host entrants now v = listed (ordered_player_ids host entrants)
    where
      placed :
          (s : State Float)
          → (leb s.next_action_at 0 ≡ true) × HasTime F s
          → (o : Option (State Float)) → room.state ≡ o
          → IsTimed F halted (settled F room (start_from room o s))
      placed s h (some old) e = v
      placed s h none e = opened room s v e h

      prepared :
          (players : List String) (r : Result (State Float))
          → initial F players now ≡ r
          → IsTimed F halted (settled F room (r >>= λ s. start_from room room.state s))
      prepared players (err code) e = v
      prepared players (ok s) e = placed s (initial-HasTime players now s e) room.state refl

      listed :
          (r : Result (List String))
          → IsTimed F halted (
              settled F room
                (r >>= λ players. (initial F players now >>= λ s. start_from room room.state s)))
      listed (err code) = v
      listed (ok players) = prepared players (initial F players now) refl
