-- ===== src/Pingpong/Timers.antt =====
-- The rules give a state its next deadline exactly while the ball is played or about to be.
use yorr.Prelude.{
  ℕ, ◌+◌, String, ℤ, ◌≡◌, refl, sym, ◌∙◌, inl, inr, Bool, true, false, not, ◌||◌, none, some, Dict,
  leb, leb_ℤ, if◌then◌else◌, arith, Bool-cases, Option-cases,
}
use yorr.Pingpong.Types.{
  Floats, State, Phase, preparing, countdown, playing, finished, Ball, is_finished, is_preparing,
  is_playing, is_countdown, seat_of,
}
use yorr.Pingpong.Court.{point_countdown_millis, ball_at, duration, miss_deadline, flight_deadline}
use yorr.Pingpong.Scoring.{serve, point, expire, forfeit}
use yorr.Pingpong.Rules.{
  SwingInput, ready, cannot_ready, record_only, returned, struck, swing, last_seq, is_incoming,
  missed_window, has_fault,
}

module _ (F : Floats) where
  open F use {Float}

  -- There is a next deadline while the ball is played or about to be.
  abbrev pub HasTime : State Float → Type 0
  HasTime s = leb s.next_action_at 0 ≡ (is_preparing s.phase || is_finished s.phase)

  -- A step to a state with its deadline, that does not go back to the preparation.
  abbrev pub Goes : State Float → State Float → Type 0
  Goes s t = HasTime t × (is_preparing t.phase ≡ true → is_preparing s.phase ≡ true)

  miss_deadline_pos : (ball : Ball Float) (now : ℕ) → leb (miss_deadline F ball now) 0 ≡ false
  unfolding miss_deadline duration
  miss_deadline_pos ball now = ground arith

  flight_deadline_pos : (ball : Ball Float) (now : ℕ) → leb (flight_deadline F ball now) 0 ≡ false
  unfolding flight_deadline duration
  flight_deadline_pos ball now = ground arith

  pub serve-Goes : (s : State Float) (now : ℕ) (x : Float) → HasTime s → Goes s (serve F s now x)
  unfolding serve is_preparing is_finished
  serve-Goes s now x v = elim (Bool-cases (is_countdown s.phase)) [
    | inr other ↦ rw other (v, λ h. h)
    | inl counting ↦ rw counting (miss_deadline_pos _ now, λ h. cc)
  ]

  over_time :
      (over : Bool) (now : ℕ)
      → leb (if over then 0 else now + point_countdown_millis) 0 ≡ (
          is_preparing (if over then finished else countdown)
          || is_finished (if over then finished else countdown))
  unfolding is_preparing is_finished
  over_time true now = refl
  over_time false now = ground arith

  over_phase :
      (over : Bool) {P : Type 0} → is_preparing (if over then finished else countdown) ≡ true → P
  unfolding is_preparing
  over_phase true h = cc
  over_phase false h = cc

  ready_time :
      (everyone : Bool) (now : ℕ)
      → leb (if everyone then now + point_countdown_millis else 0) 0 ≡ (
          is_preparing (if everyone then countdown else preparing)
          || is_finished (if everyone then countdown else preparing))
  unfolding is_preparing is_finished
  ready_time true now = ground arith
  ready_time false now = refl

  playing_phase : (p : Phase) → is_playing p ≡ true → (is_preparing p || is_finished p) ≡ false
  unfolding is_playing is_preparing is_finished
  playing_phase preparing h = cc
  playing_phase countdown h = cc
  playing_phase playing h = refl
  playing_phase finished h = cc

  point-Goes :
      (s : State Float) (scorer : ℕ) (ball : Ball Float) (now : ℕ)
      → Goes s (point F s scorer ball now)
  unfolding point is_preparing is_finished
  point-Goes s scorer ball now = (over_time _ now, λ h. over_phase _ h)

  pub expire-Goes : (s : State Float) (now : ℕ) → HasTime s → Goes s (expire F s now)
  unfolding expire
  expire-Goes s now v = elim (Bool-cases (is_playing s.phase)) [
    | inr other ↦ rw other (v, λ h. h)
    | inl on ↦ rw on (point-Goes s _ _ now)
  ]

  pub forfeit-Goes :
      (s : State Float) (p : String) (now : ℕ) → HasTime s → Goes s (forfeit F s p now)
  unfolding forfeit is_preparing
  forfeit-Goes s p now v = elim (Option-cases (seat_of s.player_order p)) [
    | inl nobody ↦ rw (nobody, forfeit) (v, λ h. h)
    | inr (seat, there) ↦ elim (Bool-cases (is_finished s.phase)) [
      | inl over ↦ rw (there, forfeit) (rw over (v, λ h. h))
      | inr on ↦ rw (there, forfeit) (rw on (refl, λ h. cc))
    ]
  ]

  was_preparing_of :
      (s : State Float) (p : String) → cannot_ready F s p ≡ false → is_preparing s.phase ≡ true
  unfolding cannot_ready
  was_preparing_of s p can = ground arith

  pub ready-Goes : (s : State Float) (p : String) (now : ℕ) → HasTime s → Goes s (ready F s p now)
  unfolding ready
  ready-Goes s p now v = elim (Bool-cases (cannot_ready F s p)) [
    | inl kept ↦ rw kept (v, λ h. h)
    | inr can ↦ rw can (ready_time _ now, λ h. was_preparing_of s p can)
  ]

  struck-Goes :
      (s : State Float) (seat : ℕ) (seqs : Dict ℤ) (i : SwingInput F)
      → HasTime s
      → is_playing s.phase ≡ true
      → Goes s (struck F s seat seqs i)
  unfolding struck returned
  struck-Goes s seat seqs i v on =
      let current = ball_at F s.ball i.now in
      elim (Bool-cases (is_incoming seat current.direction)) [
        | inr away ↦ rw away (v, λ h. h)
        | inl coming ↦ elim (Option-cases (missed_window F seat current.pos)) [
          | inr (missed, early_or_late) ↦ rw coming (rw (early_or_late, struck) (v, λ h. h))
          | inl hit ↦ rw coming (
              rw (hit, struck)
                (flight_deadline_pos _ i.now ∙ sym (playing_phase s.phase on), λ h. h))
        ]
      ]

  recorded-Goes :
      (s : State Float) (seat : ℕ) (seqs : Dict ℤ) (i : SwingInput F)
      → HasTime s
      → Goes s (elim (record_only F s i.player_id seqs i.now) [
        | some t ↦ t
        | none ↦ struck F s seat seqs i
      ])
  unfolding record_only
  recorded-Goes s seat seqs i v = elim (Bool-cases (is_preparing s.phase)) [
    | inl before ↦ rw before (rw before refl, λ h. refl)
    | inr begun ↦ elim (Bool-cases (not (is_playing s.phase) || has_fault F s.ball)) [
      | inl only ↦ rw (begun, only) (v, λ h. sym begun ∙ h)
      | inr live ↦
          let (time, same) = struck-Goes s seat seqs i v (ground arith) in
          rw (begun, live) (time, λ h. sym begun ∙ same h)
    ]
  ]

  pub swing-Goes : (s : State Float) (i : SwingInput F) → HasTime s → Goes s (swing F s i)
  unfolding swing
  swing-Goes s i v = elim (Option-cases (seat_of s.player_order i.player_id)) [
    | inl nobody ↦ rw (nobody, swing) (v, λ h. h)
    | inr (seat, there) ↦
        elim (Bool-cases (leb_ℤ i.input_seq (last_seq s.last_input_seq i.player_id))) [
          | inl old ↦ rw (there, swing) (rw old (v, λ h. h))
          | inr new ↦ rw (there, swing) (rw new (recorded-Goes s seat _ i v))
        ]
  ]
