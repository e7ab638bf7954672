-- ===== src/Pingpong/Rules.antt =====
-- pingPongRules.ts: the start, the ready gate, the swing and the report of a judging dashboard.
use yorr.Prelude.{
  ℕ, ◌+◌, ◌-◌, String, ℤ, pos, negsuc, Bool, true, false, not, ◌||◌, ◌&&◌, Option, none, some, List,
  [], ◌∷◌, ◌++◌, Dict, insert, lookup_or, if◌then◌else◌, leb, leb_ℤ, ltb_ℤ, eqb, includes, every,
  str_eq, Result, ok, err,
}
use yorr.Pingpong.Types.{
  Floats, preparing, countdown, EventType, Direction, to_first, to_second, Ball, State, is_finished,
  is_preparing, is_playing, make_event, seat_of,
}
use yorr.Pingpong.Court.{
  point_countdown_millis, max_rollback_millis, normal_speed, ideal_1, ideal_2, window_1_low,
  window_1_high, window_2_low, window_2_high, progress, ball_at, ball_x, fault_of, return_kind,
  flight_deadline,
}

-- `sequences[playerId] ?? -1`
unfoldable pub last_seq : Dict ℤ → String → ℤ
unfolding lookup_or
last_seq sequences p = lookup_or sequences p (negsuc 0)

-- `Math.max(now - MAX_ROLLBACK_MILLIS, Math.min(now, clientTs))`
unfoldable pub judged_at : ℕ → ℕ → ℕ
judged_at now client_ts =
    let earliest = now - max_rollback_millis in
    let seen = if leb now client_ts then now else client_ts in
    if leb earliest seen then seen else earliest

unfoldable pub is_incoming : ℕ → Direction → Bool
is_incoming seat to_first = eqb seat 0
is_incoming seat to_second = not (eqb seat 0)

unfoldable pub return_direction : ℕ → Direction
return_direction seat = if eqb seat 0 then to_second else to_first

-- Every player of `players` has the value `v`; a name that comes twice has one entry.
unfoldable pub fill : {V : Type 0} → V → List String → Dict V → Dict V
fill v [] m = m
fill v (p ∷ rest) m = fill v rest (insert p v m)

-- `reported.playerOrder.length !== … || reported.playerOrder.some((id, index) => id !== …[index])`
unfoldable pub same_order : List String → List String → Bool
same_order [] [] = true
same_order [] (q ∷ qs) = false
same_order (p ∷ ps) [] = false
same_order (p ∷ ps) (q ∷ qs) = str_eq p q && same_order ps qs

module _ (F : Floats) where
  open F use {Float, of_nat, literal, sub, lt, abs}

  unfoldable pub first_state : List String → String → ℕ → State Float
  unfolding fill make_event
  first_state players first now = record {
    version = 1;
    phase = preparing;
    player_order = players;
    scores = fill 0 players [];
    last_input_seq = fill (negsuc 0) players [];
    ready_player_ids = [];
    ball = record {
      pos = of_nat 0;
      direction = to_first;
      speed = normal_speed F;
      smash = false;
      fault = none;
      fault_from = of_nat 0;
      x0 = literal 5 1;
      x1 = literal 5 1;
      launched_at = now;
    };
    rally = 0;
    serve_receiver_id = some first;
    next_action_at = 0;
    last_event = some (make_event 1 EventType.ready first now);
  }

  unfoldable pub initial : List String → ℕ → Result (State Float)
  unfolding first_state
  initial (p ∷ q ∷ []) now = ok (first_state (p ∷ q ∷ []) p now)
  initial [] now = err "ping_pong_requires_two_players"
  initial (p ∷ []) now = err "ping_pong_requires_two_players"
  initial (p ∷ q ∷ r ∷ rest) now = err "ping_pong_requires_two_players"

  unfoldable pub cannot_ready : State Float → String → Bool
  unfolding is_preparing last_seq
  cannot_ready s p =
      not (is_preparing s.phase)
      || not (includes s.player_order p)
      || ltb_ℤ (last_seq s.last_input_seq p) (pos 0)
      || includes s.ready_player_ids p

  unfoldable pub ready : State Float → String → ℕ → State Float
  unfolding cannot_ready make_event
  ready s p now =
      if cannot_ready s p
      then s
      else let ready_ids = s.ready_player_ids ++ p ∷ [] in
        let everyone = every (λ q. includes ready_ids q) s.player_order in
        record s {
          version = s.version + 1;
          phase = if everyone then countdown else preparing;
          ready_player_ids = ready_ids;
          next_action_at = if everyone then now + point_countdown_millis else 0;
          last_event = some (make_event (s.version + 1) EventType.player_ready p now);
        }

  unfoldable pub has_fault : Ball Float → Bool
  has_fault ball = elim ball.fault [ none ↦ false | some f ↦ true ]

  unfoldable pub record_only : State Float → String → Dict ℤ → ℕ → Option (State Float)
  unfolding is_preparing is_playing has_fault make_event
  record_only s p seqs now =
      if is_preparing s.phase
      then some (record s {
        version = s.version + 1;
        last_input_seq = seqs;
        next_action_at = 0;
        last_event = some (make_event (s.version + 1) EventType.practice p now);
      })
      else if not (is_playing s.phase) || has_fault s.ball
      then some (record s { version = s.version + 1; last_input_seq = seqs })
      else none

  unfoldable pub missed_window : ℕ → Float → Option EventType
  missed_window seat at =
      if (if eqb seat 0 then lt at (window_1_low F) else lt (window_2_high F) at)
      then some EventType.too_early
      else if (if eqb seat 0 then lt (window_1_high F) at else lt at (window_2_low F))
      then some EventType.too_late
      else none

  pub record SwingInput : Type 0 where
    pub player_id : String
    pub input_seq : ℤ
    pub now : ℕ
    pub target_x : Float

  -- A ball that is hit in the window.
  unfoldable pub returned : State Float → ℕ → Dict ℤ → Ball Float → SwingInput → State Float
  unfolding return_direction make_event
  returned s seat seqs current i =
      let ideal = if eqb seat 0 then ideal_1 F else ideal_2 F in
      let distance = abs (sub current.pos ideal) in
      let early = if eqb seat 0 then lt current.pos ideal else lt ideal current.pos in
      let fault = fault_of F distance early in
      let direction = return_direction seat in
      let kind = return_kind F distance fault in
      let ball : Ball Float = record {
        pos = current.pos;
        direction = direction;
        speed = kind.speed;
        smash = kind.smash;
        fault = fault;
        fault_from = progress F current.pos direction;
        x0 = ball_x F current;
        x1 = i.target_x;
        launched_at = i.now;
      } in
      record s {
        version = s.version + 1;
        last_input_seq = seqs;
        ball = ball;
        rally = elim fault [ none ↦ s.rally + 1 | some f ↦ s.rally ];
        next_action_at = flight_deadline F ball i.now;
        last_event = some (make_event (s.version + 1) kind.type i.player_id i.now);
      }

  -- A swing at a ball in flight.
  unfoldable pub struck : State Float → ℕ → Dict ℤ → SwingInput → State Float
  unfolding is_incoming missed_window returned make_event
  struck s seat seqs i =
      let current = ball_at F s.ball i.now in
      if not (is_incoming seat current.direction)
      then record s { version = s.version + 1; last_input_seq = seqs; ball = current }
      else elim (missed_window seat current.pos) [
        | some missed ↦ record s {
          version = s.version + 1;
          last_input_seq = seqs;
          ball = current;
          last_event = some (make_event (s.version + 1) missed i.player_id i.now);
        }
        | none ↦ returned s seat seqs current i
      ]

  unfoldable pub swing : State Float → SwingInput → State Float
  unfolding seat_of last_seq record_only struck
  swing s i = elim (seat_of s.player_order i.player_id) [
    | none ↦ s
    | some seat ↦
        if leb_ℤ i.input_seq (last_seq s.last_input_seq i.player_id)
        then s
        else let seqs = insert i.player_id i.input_seq s.last_input_seq in
          elim (record_only s i.player_id seqs i.now) [
            | some recorded ↦ recorded
            | none ↦ struck s seat seqs i
          ]
  ]

  unfoldable pub host_report : State Float → State Float → String → Option (State Float)
  unfolding is_finished same_order
  host_report current reported sender_id =
      if includes current.player_order sender_id
      then none
      else if is_finished current.phase
      then none
      else if leb reported.version current.version
      then none
      else if not (same_order reported.player_order current.player_order)
      then none
      else some (record reported { player_order = current.player_order })
