-- ===== src/Pingpong/Scoring.antt =====
-- pingPongScoring.ts: serve, point and forfeit.
use yorr.Prelude.{
  ℕ, ◌+◌, ◌-◌, ◌/◌, ◌%◌, String, Bool, false, not, ◌&&◌, Option, none, some, List, Dict, insert,
  if◌then◌else◌, ltb, leb, eqb,
}
use yorr.Pingpong.Types.{
  Floats, countdown, playing, finished, EventType, Direction, to_first, to_second, Ball, State,
  is_finished, is_playing, is_countdown, make_event, name_of, player_at, points, seat_of,
}
use yorr.Pingpong.Court.{win_score, point_countdown_millis, normal_speed, ball_at, miss_deadline}

unfoldable pub service_turn : ℕ → ℕ
service_turn total = if ltb total 20 then total / 2 else 10 + (total - 20)

unfoldable pub serve_receiver : List String → Dict ℕ → String
unfolding service_turn points player_at
serve_receiver order scores =
    let total = points scores (player_at order 0) + points scores (player_at order 1) in
    player_at order (service_turn total % 2)

unfoldable pub other_seat : ℕ → ℕ
other_seat seat = if eqb seat 0 then 1 else 0

-- `score >= WIN_SCORE && score - opponentScore >= 2`
unfoldable pub has_won : ℕ → ℕ → Bool
has_won score opponent = leb win_score score && leb (opponent + 2) score

unfoldable pub is_first_seat : Option ℕ → Bool
is_first_seat none = false
is_first_seat (some i) = eqb i 0

-- Who scores when nobody returns the ball: whoever did not play a faulty ball, else its sender.
unfoldable pub scorer_of : {Float : Type 0} → Ball Float → ℕ
scorer_of ball = elim ball.fault [
  | some f ↦ elim ball.direction [ to_first ↦ 0 | to_second ↦ 1 ]
  | none ↦ elim ball.direction [ to_first ↦ 1 | to_second ↦ 0 ]
]

module _ (F : Floats) where
  open F use {Float, of_nat, literal}

  unfoldable pub served_ball : Direction → ℕ → Float → Ball Float
  served_ball direction now target_x = record {
    pos = elim direction [ to_first ↦ of_nat 0 | to_second ↦ of_nat 1 ];
    direction = direction;
    speed = normal_speed F;
    smash = false;
    fault = none;
    fault_from = of_nat 0;
    x0 = literal 5 1;
    x1 = target_x;
    launched_at = now;
  }

  unfoldable pub serve : State Float → ℕ → Float → State Float
  unfolding is_countdown is_first_seat seat_of name_of make_event
  serve s now target_x =
      if not (is_countdown s.phase)
      then s
      else let receiver =
          seat_of s.player_order (elim s.serve_receiver_id [ none ↦ "" | some p ↦ p ]) in
        let ball =
          served_ball (if is_first_seat receiver then to_first else to_second) now target_x in
        record s {
          version = s.version + 1;
          phase = playing;
          ball = ball;
          rally = 0;
          next_action_at = miss_deadline F ball now;
          last_event =
              some (make_event (s.version + 1) EventType.serve (name_of s.serve_receiver_id) now);
        }

  unfoldable pub point : State Float → ℕ → Ball Float → ℕ → State Float
  unfolding has_won other_seat player_at points make_event
  point s scorer ball now =
      let scorer_id = player_at s.player_order scorer in
      let score = points s.scores scorer_id + 1 in
      let scores = insert scorer_id score s.scores in
      let opponent_score = points scores (player_at s.player_order (other_seat scorer)) in
      let over = has_won score opponent_score in
      record s {
        version = s.version + 1;
        phase = if over then finished else countdown;
        scores = scores;
        ball = ball;
        serve_receiver_id = if over then none else some (serve_receiver s.player_order scores);
        next_action_at = if over then 0 else now + point_countdown_millis;
        last_event = some (
            make_event (s.version + 1) (if over then EventType.game_over else EventType.point)
              scorer_id now);
      }

  unfoldable pub expire : State Float → ℕ → State Float
  unfolding is_playing scorer_of
  expire s now =
      if not (is_playing s.phase)
      then s
      else let ball = ball_at F s.ball now in point s (scorer_of ball) ball now

  unfoldable pub forfeit : State Float → String → ℕ → State Float
  unfolding is_finished seat_of other_seat player_at make_event
  forfeit s player_id now = elim (seat_of s.player_order player_id) [
    | none ↦ s
    | some loser ↦
        if is_finished s.phase
        then s
        else let winner_id = player_at s.player_order (other_seat loser) in
          record s {
            version = s.version + 1;
            phase = finished;
            scores = insert winner_id win_score s.scores;
            serve_receiver_id = none;
            next_action_at = 0;
            last_event = some (make_event (s.version + 1) EventType.opponent_left winner_id now);
          }
  ]
