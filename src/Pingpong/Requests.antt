-- ===== src/Pingpong/Requests.antt =====
-- The reserved deadline of a room of ping pong under the calls of pingPongGameService.ts.
use mathlib.Core.Path.{subst}
use yorr.Prelude.{
  ℕ, String, ℤ, pos, ◌≡◌, refl, ap, inl, inr, Bool, true, false, not, Option, Option-cases, none,
  some, List, [], ◌∷◌, ltb_ℤ, arith, Bool-cases,
}
use yorr.Pingpong.Types.{Floats, State}
use yorr.Pingpong.Scoring.{forfeit}
use yorr.Pingpong.Rules.{SwingInput, ready, swing, judged_at, host_report}
use yorr.Pingpong.Service.{
  Room, Deadline, is_host_judged, remember_judge, service_swing, host_state, service_ready, fire,
  stop, was_preparing, leave, reset, close, pause, fire_busy,
}
use yorr.Pingpong.Timers.{Goes, forfeit-Goes, ready-Goes, swing-Goes}
use yorr.Pingpong.Reservations.{
  IsTimed, timed_for, IsTimed-by, served_deadline, commit-IsTimed, remember_judge-IsTimed,
  fire-IsTimed,
}
use yorr.Pingpong.Calls.{
  Request, starts, swings, reports, readies, leaves, fires, resumes, fires_busy, pauses, rehydrates,
  resets, closes, halts, halts_after, settled, serve_request, serve_requests, fresh_room,
}
use yorr.Pingpong.Starts.{choose, start-IsTimed, resume-IsTimed, rehydrate-IsTimed}

module _ (F : Floats) (halted : Bool) where
  open F use {Float}

  some_of : {x y : State Float} → some x ≡ some y → x ≡ y
  some_of {x} e = ap (λ o. elim o [ none ↦ x | some z ↦ z ]) e

  judge_kept :
      (room : Room Float) → is_host_judged F (remember_judge F room) ≡ is_host_judged F room
  unfolding is_host_judged remember_judge
  judge_kept room = refl

  ready-IsTimed :
      (room : Room Float) (p : String) (now : ℕ)
      → IsTimed F halted room
      → IsTimed F halted (service_ready F room p now).0
  unfolding service_ready
  ready-IsTimed room p now v =
      commit-IsTimed F halted room (λ s. some (ready F s p now)) v
        (λ s t e u h. subst (Goes F s) (some_of e) (ready-Goes F s p now h))

  swing-IsTimed :
      (room : Room Float) (p : String) (seq : ℤ) (ts now : ℕ) (x : Float)
      → IsTimed F halted room
      → IsTimed F halted (settled F room (service_swing F room p seq ts now x))
  unfolding service_swing
  swing-IsTimed room p seq ts now x v = elim (Bool-cases (ltb_ℤ seq (pos 0))) [
    | inl bad ↦ rw (bad, service_swing) v
    | inr good ↦
        let input : SwingInput F = record {
          player_id = p;
          input_seq = seq;
          now = judged_at now ts;
          target_x = x;
        } in
        rw (good, service_swing)
          (choose F halted (is_host_judged F room) _ _ (λ j. remember_judge-IsTimed F halted room v)
            (λ n.
              commit-IsTimed F halted (remember_judge F room) (λ s. some (swing F s input))
                (remember_judge-IsTimed F halted room v)
                (λ s t e u h. subst (Goes F s) (some_of e) (swing-Goes F s input h))))
  ]

  report-IsTimed :
      (room : Room Float) (p : String) (s : State Float)
      → IsTimed F halted room
      → IsTimed F halted (host_state F room p s).0
  unfolding host_state
  report-IsTimed room p reported v =
      choose F halted (not (is_host_judged F room)) _ _
        (λ n. remember_judge-IsTimed F halted room v)
        (λ j.
          commit-IsTimed F halted (remember_judge F room) (λ s. host_report F s reported p)
            (remember_judge-IsTimed F halted room v)
            (λ s t e u h. ground (arith, judge_kept room, j, u)))

  leave-IsTimed :
      (room : Room Float) (p : String) (now : ℕ)
      → IsTimed F halted room
      → IsTimed F halted (leave F room p now).0
  unfolding leave stop
  leave-IsTimed room p now v = elim (Bool-cases (was_preparing F room.state)) [
    | inl before ↦ rw before refl
    | inr begun ↦ rw begun (
        commit-IsTimed F halted room (λ s. some (forfeit F s p now)) v
          (λ s t e u h. subst (Goes F s) (some_of e) (forfeit-Goes F s p now h)))
  ]

  fires-IsTimed :
      (room : Room Float) (now : ℕ) (x : Float)
      → IsTimed F halted room
      → IsTimed F halted (serve_request F room (fires now x))
  unfolding serve_request
  fires-IsTimed room now x v = fired room.deadline refl
    where
      fired :
          (o : Option Deadline)
          → room.deadline ≡ o
          → IsTimed F halted (elim o [ none ↦ room | some d ↦ (fire F room d now x).0 ])
      fired none e = v
      fired (some d) e = fire-IsTimed F halted room d now x v e

  -- The requests that put the deadline off or away, or give it back.
  lost-IsTimed :
      (room : Room Float) → IsTimed F halted room → IsTimed F true (record room { deadline = none })
  unfolding is_host_judged
  lost-IsTimed room v = elim (Option-cases room.state) [
    | inl absent ↦ rw absent refl
    | inr (s, stored) ↦
        let known = timed_for F halted room s stored v in
        IsTimed-by F true (record room { deadline = none }) s stored
          (elim (Bool-cases (is_host_judged F room)) [
            | inl judged ↦ rw judged refl
            | inr unjudged ↦
                rw unjudged ((served_deadline F halted room s known unjudged).0, inr (refl, refl))
          ])
  ]

  serve_request-IsTimed :
      (room : Room Float) (r : Request F)
      → IsTimed F halted room
      → IsTimed F (halts F halted r) (serve_request F room r)
  unfolding serve_request reset close stop pause fire_busy
  serve_request-IsTimed room (starts host entrants now) v =
      start-IsTimed F halted room host entrants now v
  serve_request-IsTimed room (swings p seq ts now x) v = swing-IsTimed room p seq ts now x v
  serve_request-IsTimed room (reports p s) v = report-IsTimed room p s v
  serve_request-IsTimed room (readies p now) v = ready-IsTimed room p now v
  serve_request-IsTimed room (leaves p now) v = leave-IsTimed room p now v
  serve_request-IsTimed room (fires now x) v = fires-IsTimed room now x v
  serve_request-IsTimed room fires_busy v = lost-IsTimed room v
  serve_request-IsTimed room pauses v = lost-IsTimed room v
  serve_request-IsTimed room resumes v = resume-IsTimed F halted room v
  serve_request-IsTimed room rehydrates v = rehydrate-IsTimed F halted room v
  serve_request-IsTimed room resets v = refl
  serve_request-IsTimed room closes v = refl

module _ (F : Floats) where
  open F use {Float}

  serve_requests-IsTimed :
      (halted : Bool) (room : Room Float) (requests : List (Request F))
      → IsTimed F halted room
      → IsTimed F (halts_after F halted requests) (serve_requests F room requests)
  unfolding serve_requests
  serve_requests-IsTimed halted room [] v = v
  serve_requests-IsTimed halted room (r ∷ rest) v =
      serve_requests-IsTimed (halts F halted r) (serve_request F room r) rest
        (serve_request-IsTimed F halted room r v)

  -- Calls come to a room one after the other, in any order, and its reserved deadline fires at any time
  -- between them. While the server judges its match, the room has reserved the deadline of the present
  -- version of the state and no other, and it has one exactly while the match is neither prepared nor
  -- over; only from a pause, or a deadline that fired in vain because the state was locked, until the
  -- match is resumed it may have none. A room without a match, and one that its dashboard judges, has
  -- none.
  pub room-IsTimed :
      (is_party : Bool) (requests : List (Request F))
      → IsTimed F (halts_after F false requests) (serve_requests F (fresh_room F is_party) requests)
  room-IsTimed is_party requests =
      serve_requests-IsTimed false (fresh_room F is_party) requests refl
