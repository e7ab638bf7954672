-- ===== src/Pingpong/Reservations.antt =====
-- One deadline for the present state of a room that the server judges, and none for a room that its
-- dashboard judges.
use mathlib.Core.Path.{subst}
use yorr.Prelude.{
  ℕ, ◌+◌, ◌≡◌, ◌⊎◌, refl, sym, ◌∙◌, inl, inr, Bool, true, false, Option, none, some, leb, eqb,
  if◌then◌else◌, arith, Bool-cases, Option-cases,
}
use yorr.Pingpong.Types.{
  Floats, State, Phase, preparing, countdown, playing, finished, is_finished, is_preparing,
  is_playing, is_countdown,
}
use yorr.Pingpong.Scoring.{serve, point, expire}
use yorr.Pingpong.Service.{
  Room, Deadline, is_host_judged, remember_judge, schedule, changed, mutate, commit, timeout_rule,
  fire,
}
use yorr.Pingpong.Timers.{HasTime, Goes, serve-Goes, expire-Goes}

-- `halted` tells whether the room may be without its deadline, as it is after a pause.
module _ (F : Floats) (halted : Bool) where
  open F use {Float}

  abbrev pub deadline_of : State Float → Option Deadline
  deadline_of s =
      if leb s.next_action_at 0
      then none
      else some (record { version = s.version; at = s.next_action_at })

  -- A state that the server judges has its deadline, and the room has reserved it or is halted.
  abbrev pub IsTimedFor : State Float → Option Deadline → Bool → Type 0
  IsTimedFor s deadline judged =
      if judged
      then deadline ≡ none
      else HasTime F s × ((deadline ≡ deadline_of s) ⊎ ((halted ≡ true) × (deadline ≡ none)))

  abbrev pub IsTimed : Room Float → Type 0
  IsTimed room = elim room.state [
    | none ↦ room.deadline ≡ none
    | some s ↦ IsTimedFor s room.deadline (is_host_judged F room)
  ]

  -- The next state of a room, and the deadline that was reserved before it.
  module _ (room : Room Float) (s : State Float)
      (served : is_host_judged F room ≡ false → HasTime F s)
      (party : is_host_judged F room ≡ true → room.deadline ≡ none)
      (early : is_host_judged F room ≡ false
        → is_preparing s.phase ≡ true
        → room.deadline ≡ none) where
    pub changed-IsTimed : IsTimed (changed F (record room { state = some s }) s).0
    unfolding changed schedule is_host_judged remember_judge
    changed-IsTimed = elim (Bool-cases (is_host_judged F room)) [
      | inl judged ↦ elim (Bool-cases (is_finished s.phase)) [
        | inl over ↦ rw over (rw judged refl)
        | inr on ↦ rw (on, judged) (party judged)
      ]
      | inr unjudged ↦ elim (Bool-cases (leb s.next_action_at 0)) [
        | inl idle ↦ elim (Bool-cases (is_finished s.phase)) [
          | inl over ↦ rw over (rw unjudged (served unjudged, inl (rw idle refl)))
          | inr on ↦
              let before : is_preparing s.phase ≡ true = ground (arith, served unjudged) in
              let nothing : none ≡ deadline_of s = rw idle refl in
              rw (on, unjudged, idle) (served unjudged, inl (early unjudged before ∙ nothing))
        ]
        | inr busy ↦
            let on : is_finished s.phase ≡ false = ground (arith, served unjudged) in
            rw (on, unjudged, busy) (served unjudged, inl (rw busy refl))
      ]
    ]

  -- What is known of the deadline of a room with a state.
  pub party_deadline :
      (room : Room Float) (s : State Float)
      → IsTimedFor s room.deadline (is_host_judged F room)
      → is_host_judged F room ≡ true
      → room.deadline ≡ none
  party_deadline room s v judged = rw judged at v

  pub served_deadline :
      (room : Room Float) (s : State Float)
      → IsTimedFor s room.deadline (is_host_judged F room)
      → is_host_judged F room ≡ false
      → HasTime F s × ((room.deadline ≡ deadline_of s) ⊎ ((halted ≡ true) × (room.deadline ≡ none)))
  served_deadline room s v unjudged = rw unjudged at v

  idle_deadline :
      (s : State Float) → HasTime F s → is_preparing s.phase ≡ true → deadline_of s ≡ none
  idle_deadline s v before = let idle : leb s.next_action_at 0 ≡ true = ground arith in rw idle refl

  pub timed_for :
      (room : Room Float) (s : State Float)
      → room.state ≡ some s
      → IsTimed room
      → IsTimedFor s room.deadline (is_host_judged F room)
  unfolding is_host_judged
  timed_for room s e v = rw e at v

  pub IsTimed-by :
      (room : Room Float) (s : State Float)
      → room.state ≡ some s
      → IsTimedFor s room.deadline (is_host_judged F room)
      → IsTimed room
  unfolding is_host_judged
  IsTimed-by room s e v = rw e v

  -- What a rule writes comes from the stored state.
  Written : Room Float → (State Float → Option (State Float)) → Type 0
  Written room rule =
      (mutate F room rule ≡ none)
      ⊎ ((s : State Float) × (t : State Float) × (room.state ≡ some s)
          × (rule s ≡ some t)
          × (mutate F room rule ≡ some t))

  mutate-Written :
      (room : Room Float) (rule : State Float → Option (State Float)) → Written room rule
  unfolding Written mutate
  mutate-Written room rule = elim (Option-cases room.state) [
    | inl absent ↦ inl (rw (absent, mutate) refl)
    | inr (s, stored) ↦ elim (Option-cases (rule s)) [
      | inl ignored ↦ inl (rw (stored, mutate) (rw (ignored, mutate) refl))
      | inr (t, next) ↦ elim (Bool-cases (eqb t.version s.version)) [
        | inl same ↦ inl (rw (stored, mutate) (rw (next, mutate) (rw same refl)))
        | inr moved ↦
            inr (s, t, stored, next, rw (stored, mutate) (rw (next, mutate) (rw moved refl)))
      ]
    ]
  ]

  -- A rule is applied to the stored state.
  pub commit-IsTimed :
      (room : Room Float) (rule : State Float → Option (State Float))
      → IsTimed room
      → ((s t : State Float)
          → rule s ≡ some t
          → is_host_judged F room ≡ false
          → HasTime F s
          → Goes F s t)
      → IsTimed (commit F room (mutate F room rule)).0
  unfolding commit Written
  commit-IsTimed room rule v goes = elim (mutate-Written room rule) [
    | inl kept ↦ subst (λ n. IsTimed (commit F room n).0) (sym kept) v
    | inr (s, t, stored, next, written) ↦
        let known = timed_for room s stored v in
        let served : (u : is_host_judged F room ≡ false)
            → HasTime F s
              × ((room.deadline ≡ deadline_of s) ⊎ ((halted ≡ true) × (room.deadline ≡ none))) =
          λ u. served_deadline room s known u in
        subst (λ n. IsTimed (commit F room n).0) (sym written)
          (changed-IsTimed room t (λ u. (goes s t next u (served u).0).0)
            (λ j. party_deadline room s known j)
            (λ u p. elim (served u).1 [
              | inl kept ↦ kept ∙ idle_deadline s (served u).0 ((goes s t next u (served u).0).1 p)
              | inr (paused, nothing) ↦ nothing
            ]))
  ]

  pub remember_judge-IsTimed : (room : Room Float) → IsTimed room → IsTimed (remember_judge F room)
  unfolding remember_judge is_host_judged
  remember_judge-IsTimed room v = v

  version-serve :
      (s : State Float) (now : ℕ) (x : Float)
      → is_countdown s.phase ≡ true
      → (serve F s now x).version ≡ s.version + 1
  unfolding serve
  version-serve s now x e = rw e refl

  version-expire :
      (s : State Float) (now : ℕ)
      → is_playing s.phase ≡ true
      → (expire F s now).version ≡ s.version + 1
  unfolding expire point
  version-expire s now e = rw e refl

  must_play :
      (p : Phase)
      → is_preparing p ≡ false
      → is_finished p ≡ false
      → is_countdown p ≡ false
      → is_playing p ≡ true
  unfolding is_preparing is_finished is_countdown is_playing
  must_play preparing b f c = cc
  must_play countdown b f c = cc
  must_play playing b f c = refl
  must_play finished b f c = cc

  -- The rule of a deadline moves on the state that it was made for.
  Fired : State Float → ℕ → Float → Type 0
  Fired s now x =
      (t : State Float) × (timeout_rule F s.version now x s ≡ some t)
      × (eqb t.version s.version ≡ false)
      × Goes F s t

  timeout_rule-Fired :
      (s : State Float) (now : ℕ) (x : Float)
      → HasTime F s
      → leb s.next_action_at 0 ≡ false
      → Fired s now x
  unfolding Fired timeout_rule
  timeout_rule-Fired s now x v busy =
      let on : is_finished s.phase ≡ false = ground (arith, v) in
      let begun : is_preparing s.phase ≡ false = ground (arith, v) in
      let same : eqb s.version s.version ≡ true = ground arith in
      elim (Bool-cases (is_countdown s.phase)) [
        | inl counting ↦
            let version = version-serve s now x counting in
            (
              serve F s now x,
              rw (same, on, counting) refl,
              ground (arith, version),
              serve-Goes F s now x v,
            )
        | inr other ↦
            let version = version-expire s now (must_play s.phase begun on other) in
            (
              expire F s now,
              rw (same, on, other) refl,
              ground (arith, version),
              expire-Goes F s now v,
            )
      ]

  pub no_deadline : (room : Room Float) → room.state ≡ none → IsTimed room → room.deadline ≡ none
  no_deadline room absent v = rw absent at v

  mutate_moved :
      (room : Room Float) (s t : State Float) (rule : State Float → Option (State Float))
      → room.state ≡ some s
      → rule s ≡ some t
      → eqb t.version s.version ≡ false
      → mutate F room rule ≡ some t
  unfolding mutate
  mutate_moved room s t rule stored next moved =
      rw (stored, mutate) (rw (next, mutate) (rw moved refl))

  -- The deadline that fires is that of the stored state, which it moves on.
  pub fire-IsTimed :
      (room : Room Float) (d : Deadline) (now : ℕ) (x : Float)
      → IsTimed room
      → room.deadline ≡ some d
      → IsTimed (fire F room d now x).0
  unfolding fire commit is_host_judged Fired
  fire-IsTimed room d now x v reserved = elim (Option-cases room.state) [
    | inl absent ↦
        let nothing : room.deadline ≡ none = no_deadline room absent v in
        ground (arith, nothing, reserved)
    | inr (s, stored) ↦
        let known = timed_for room s stored v in
        elim (Bool-cases (is_host_judged F room)) [
          | inl judged ↦ ground (arith, party_deadline room s known judged)
          | inr unjudged ↦
              let (time, held) = served_deadline room s known unjudged in
              let kept : room.deadline ≡ deadline_of s = elim held [
                | inl kept ↦ kept
                | inr (paused, nothing) ↦ ground (arith, nothing, reserved)
              ] in
              let busy : leb s.next_action_at 0 ≡ false = ground (arith, kept, reserved) in
              let own : d.version ≡ s.version = ground (arith, kept, reserved) in
              let (t, rule, moved, goes) = timeout_rule-Fired s now x time busy in
              let rule' : timeout_rule F d.version now x s ≡ some t = rw own rule in
              let wrote =
                mutate_moved (record room { deadline = none }) s t (timeout_rule F d.version now x)
                  stored rule' moved in
              subst (λ n. IsTimed (commit F (record room { deadline = none }) n).0) (sym wrote)
                (changed-IsTimed (record room { deadline = none }) t (λ u. goes.0) (λ j. refl)
                  (λ u p. refl))
        ]
  ]
