-- ===== src/Davinci/Service/Requests.antt =====
-- The deadline of a game that fires or is lost, and the requests to its service in any order.
use yorr.Prelude.{
  ℕ, ◌<◌, ◌≡◌, refl, ◌≢◌, Bool, true, false, Option, none, some, List, arith, if◌then◌else◌, [],
  ◌∷◌, Result, ok, err, Bool-cases, leb, eqb, inl, inr,
}
use yorr.Davinci.Types.{State, finished, is_finished}
use yorr.Davinci.Rules.{expire}
use yorr.Davinci.Deadlines.{version-expire}
use yorr.Davinci.Service.{
  Room, Deadline, Effect, schedule, mutate, commit, timeout_rule, fire, served, serve, serve_all,
  Request, starts, guesses, decides, places, leaves, fires, fires_busy, pauses, resumes, rehydrates,
  resets, closes, reset, close, pause, resume, rehydrate, fire_busy, halts, halts_after,
}
use yorr.Davinci.Service.Timers.{
  expire-HasDeadline, IsTimedFor, IsTimed, changed-IsTimed, HasDeadline-of_IsTimedFor,
  serve_guess-IsTimed, serve_decide-IsTimed, serve_place-IsTimed, remove_player-IsTimed,
  serve_start-IsTimed,
}

module _ (halted : Bool) where
  running :
      (s : State) (d : Option Deadline)
      → is_finished s.phase ≡ false
      → IsTimedFor halted s d
      → 0 < s.next_action_at
  running s d on h = let kept = (rw on at h) in kept.0

  none_left :
      (s : State) (d : Deadline) → is_finished s.phase ≡ true → IsTimedFor halted s (some d) → ⊥
  none_left s d over h = ground arith

  same_version :
      (s : State) (d : Deadline)
      → is_finished s.phase ≡ false
      → IsTimedFor halted s (some d)
      → eqb s.version d.version ≡ true
  same_version s d on h = ground arith

  -- The reserved deadline is that of the present state, so it always moves the game.
  fire-IsTimed :
      (room : Room) (d : Deadline) (now : ℕ)
      → room.deadline ≡ some d
      → IsTimed halted room
      → IsTimed halted (fire room d now).0
  unfolding fire mutate commit timeout_rule
  fire-IsTimed room d now held h = by_state room.state refl
    where
      kept : (s : State) → room.state ≡ some s → IsTimedFor halted s room.deadline
      kept s e = rw e at h

      by_state : (o : Option State) → room.state ≡ o → IsTimed halted (fire room d now).0
      by_state none e = simp (e, fire, mutate, commit) tt
      by_state (some s) e =
          let timed : IsTimedFor halted s (some d) = rw held at (kept s e) in
          elim (Bool-cases (is_finished s.phase)) [
            | inl over ↦ absurd (none_left s d over timed)
            | inr on ↦
                let running : s.phase ≢ finished = λ p. ground arith in
                let same : eqb s.version d.version ≡ true = same_version s d on timed in
                let raised : leb (expire s now).version s.version ≡ false =
                  ground (arith, version-expire s now running) in
                simp (e, same, on, raised)
                  (changed-IsTimed halted (record room { deadline = none }) (expire s now)
                    (expire-HasDeadline s (HasDeadline-of_IsTimedFor halted s (some d) timed) now))
          ]

  fires-IsTimed :
      (room : Room) (now : ℕ) (d : Option Deadline)
      → room.deadline ≡ d
      → IsTimed halted room
      → IsTimed halted (elim d [ none ↦ room | some held ↦ (fire room held now).0 ])
  fires-IsTimed room now none e h = h
  fires-IsTimed room now (some d) e h = fire-IsTimed room d now e h

  lost-IsTimed :
      (room : Room) → IsTimed halted room → IsTimed true (record room { deadline = none })
  lost-IsTimed room h = by_state room.state refl
    where
      by_state :
          (o : Option State) → room.state ≡ o → IsTimed true (record room { deadline = none })
      by_state none e = rw e tt
      by_state (some s) e =
          let kept : IsTimedFor halted s room.deadline = rw e at h in
          rw e (elim (Bool-cases (is_finished s.phase)) [
            | inl over ↦ rw over refl
            | inr on ↦ rw on (running s room.deadline on kept, inr (refl, refl))
          ])

  resume_at :
      (room : Room) (s : State)
      → room.state ≡ some s
      → is_finished s.phase ≡ false
      → IsTimed halted room
      → IsTimed false (schedule room s).0
  unfolding schedule
  resume_at room s e on h =
      let kept : IsTimedFor halted s room.deadline = rw e at h in
      let ahead = running s room.deadline on kept in
      let later : leb s.next_action_at 0 ≡ false = ground arith in
      simp (on, later) (rw e (rw on (ahead, inl refl)))

  over-IsTimed :
      (room : Room) (s : State)
      → room.state ≡ some s
      → is_finished s.phase ≡ true
      → IsTimed halted room
      → IsTimed false room
  over-IsTimed room s e over h =
      let kept : IsTimedFor halted s room.deadline = rw e at h in
      let nothing : room.deadline ≡ none = rw over at kept in rw e (rw over nothing)

  -- A call that does nothing, or throws, when the game is over.
  unless_over :
      (b : Bool) (room : Room) (next : Room × List Effect)
      → (b ≡ true → IsTimed false room)
      → (b ≡ false → IsTimed false next.0)
      → IsTimed false (if b then (room, []) else next).0
        × IsTimed false (served room (if b then err "the game is over" else ok next))
  unfolding served
  unless_over true room next f g = (f refl, f refl)
  unless_over false room next f g = (g refl, g refl)

  resume_parts :
      (room : Room) (s : State)
      → room.state ≡ some s
      → IsTimed halted room
      → let b = is_finished s.phase in
        IsTimed false (if b then (room, []) else schedule room s).0
        × IsTimed false (served room (if b then err "the game is over" else ok (schedule room s)))
  resume_parts room s e h =
      unless_over (is_finished s.phase) room (schedule room s)
        (λ over. over-IsTimed room s e over h) (λ on. resume_at room s e on h)

  gone-IsTimed : (room : Room) → room.state ≡ none → IsTimed false room
  gone-IsTimed room e = rw e tt

  abbrev resume_from : Room → Option State → Room × List Effect
  resume_from room o = elim o [
    | none ↦ (room, [])
    | some s ↦ if is_finished s.phase then (room, []) else schedule room s
  ]

  abbrev rehydrate_from : Room → Option State → Result (Room × List Effect)
  rehydrate_from room o = elim o [
    | none ↦ err "no state in a room that plays"
    | some s ↦ if is_finished s.phase then err "the game is over" else ok (schedule room s)
  ]

  resume-IsTimed : (room : Room) → IsTimed halted room → IsTimed false (resume room).0
  unfolding resume
  resume-IsTimed room h = resumed room.state refl
    where
      resumed : (o : Option State) → room.state ≡ o → IsTimed false (resume_from room o).0
      resumed none e = gone-IsTimed room e
      resumed (some s) e = (resume_parts room s e h).0

  rehydrate-IsTimed :
      (room : Room) → IsTimed halted room → IsTimed false (served room (rehydrate room))
  unfolding rehydrate served
  rehydrate-IsTimed room h = rehydrated room.state refl
    where
      rehydrated :
          (o : Option State) → room.state ≡ o → IsTimed false (served room (rehydrate_from room o))
      rehydrated none e = gone-IsTimed room e
      rehydrated (some s) e = (resume_parts room s e h).1

  serve-IsTimed :
      (room : Room) (r : Request) → IsTimed halted room → IsTimed (halts halted r) (serve room r)
  unfolding serve reset close pause fire_busy
  serve-IsTimed room (starts roster order now) h =
      serve_start-IsTimed halted room roster order now h
  serve-IsTimed room (guesses i) h = serve_guess-IsTimed halted room i h
  serve-IsTimed room (decides i) h = serve_decide-IsTimed halted room i h
  serve-IsTimed room (places i) h = serve_place-IsTimed halted room i h
  serve-IsTimed room (leaves p now) h = remove_player-IsTimed halted room p now h
  serve-IsTimed room (fires now) h = fires-IsTimed room now room.deadline refl h
  serve-IsTimed room fires_busy h = lost-IsTimed room h
  serve-IsTimed room pauses h = lost-IsTimed room h
  serve-IsTimed room resumes h = resume-IsTimed room h
  serve-IsTimed room rehydrates h = rehydrate-IsTimed room h
  serve-IsTimed room resets h = tt
  serve-IsTimed room closes h = tt

-- Requests reach a room one after the other, in any order, and its deadline fires at any time between
-- them. A game in progress has the deadline of its present version reserved and no other; only from a
-- pause, or a deadline that fired in vain because the state was locked, until the game is resumed it may
-- have none. A finished game has none.
pub serve_all-IsTimed :
    (halted : Bool) (room : Room) (requests : List Request)
    → IsTimed halted room
    → IsTimed (halts_after halted requests) (serve_all room requests)
unfolding serve_all
serve_all-IsTimed halted room [] h = h
serve_all-IsTimed halted room (r ∷ rest) h =
    serve_all-IsTimed (halts halted r) (serve room r) rest (serve-IsTimed halted room r h)
