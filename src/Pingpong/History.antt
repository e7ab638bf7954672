-- ===== src/Pingpong/History.antt =====
-- A whole match of ping pong: the ready gate, swings, the clock and departures, in any order.
use mathlib.Core.Path.{subst}
use yorr.Prelude.{
  ℕ, ◌+◌, ◌<◌, String, ℤ, ◌≡◌, refl, sym, ◌∙◌, ◌≢◌, ◌⊎◌, inl, inr, not, str_eq, eq_iff, ◌||◌, none,
  some, List, [], ◌∷◌, arith, Dict, insert, eq_refl, eqb, leb_ℤ, ok, Bool-cases, Option-cases,
}
use yorr.Pingpong.Types.{
  Floats, Phase, preparing, countdown, playing, finished, EventType, Ball, State, is_finished,
  is_playing, is_countdown, make_event, player_at, seat_of, name_of,
}
use yorr.Pingpong.Court.{win_score, ball_at}
use yorr.Pingpong.Scoring.{other_seat, serve, expire, forfeit, scorer_of}
use yorr.Pingpong.Rules.{
  first_state, initial, ready, SwingInput, last_seq, swing, record_only, struck, returned,
  is_incoming, missed_window, has_fault,
}
use yorr.Pingpong.Service.{timeout_rule}
use yorr.Pingpong.Match.{
  Standing, IsMatch, playing_of, countdown_of, first_state-IsMatch, ready-IsMatch, point-IsMatch,
  points-insert, miss_deadline_pos, flight_deadline_pos,
}

-- What may happen: a player reports ready, swings or leaves, or the clock of the present state runs out.
pub data Action (F : Floats) : Type 0 where
  readies : String → ℕ → Action F
  swings : SwingInput F → Action F
  runs_out : ℕ → F.Float → Action F
  leaves : String → ℕ → Action F

scorer_of-lt : {Float : Type 0} (ball : Ball Float) → scorer_of ball < 2
unfolding scorer_of
scorer_of-lt ball = ground arith

module _ (F : Floats) where
  open F use {Float}

  unfoldable pub timed_out : State Float → ℕ → Float → State Float
  unfolding timeout_rule
  timed_out s now target_x = elim (timeout_rule F s.version now target_x s) [
    | none ↦ s
    | some t ↦ t
  ]

  unfoldable pub apply : State Float → Action F → State Float
  unfolding timed_out
  apply s (readies p now) = ready F s p now
  apply s (swings i) = swing F s i
  apply s (runs_out now target_x) = timed_out s now target_x
  apply s (leaves p now) = forfeit F s p now

  unfoldable pub run : State Float → List (Action F) → State Float
  unfolding apply
  run s [] = s
  run s (a ∷ rest) = run (apply s a) rest

-- A player leaves at some time of a history.
abbrev pub HasLeft : {F : Floats} → String → List (Action F) → Type 0
HasLeft x [] = ⊥
HasLeft x (leaves y now ∷ rest) = (x ≡ y) ⊎ HasLeft x rest
HasLeft x (readies y now ∷ rest) = HasLeft x rest
HasLeft x (swings i ∷ rest) = HasLeft x rest
HasLeft x (runs_out now target_x ∷ rest) = HasLeft x rest

-- `Left` holds of the leavers of a history.
abbrev Counts : {F : Floats} → (String → Type 0) → List (Action F) → Type 0
Counts Left history = (x : String) → HasLeft x history → Left x

seats :
    (p q x : String) (seat : ℕ)
    → seat_of (p ∷ q ∷ []) x ≡ some seat
    → let winner = player_at (p ∷ q ∷ []) (other_seat seat) in
      ((x ≡ p) × (winner ≡ q)) ⊎ ((x ≡ q) × (winner ≡ p))
unfolding seat_of player_at name_of other_seat
seats p q x seat e = elim (Bool-cases (str_eq p x)) [
  | inl first ↦
      let seated : seat ≡ 0 = ground arith in
      inl (ground (arith, eq_iff p x), rw (seated, player_at) refl)
  | inr other ↦ elim (Bool-cases (str_eq q x)) [
    | inl second ↦
        let seated : seat ≡ 1 = ground arith in
        inr (ground (arith, eq_iff q x), rw (seated, player_at) refl)
    | inr nobody ↦ ground arith
  ]
]

module _ (F : Floats) (p q : String) (ne : p ≢ q) (Left : String → Type 0) where
  open F use {Float}

  struck-fields :
      (s : State Float) (seat : ℕ) (seqs : Dict ℤ) (i : SwingInput F)
      → 0 < s.next_action_at
      → ((struck F s seat seqs i).player_order ≡ s.player_order)
        × ((struck F s seat seqs i).phase ≡ s.phase)
        × ((struck F s seat seqs i).scores ≡ s.scores)
        × (0 < (struck F s seat seqs i).next_action_at)
  unfolding struck returned
  struck-fields s seat seqs i ahead =
      elim (Bool-cases (is_incoming seat (ball_at F s.ball i.now).direction)) [
        | inr away ↦ rw away (refl, refl, refl, ahead)
        | inl comes ↦ elim (Option-cases (missed_window F seat (ball_at F s.ball i.now).pos)) [
          | inr (missed, e) ↦ rw comes (rw (e, struck) (refl, refl, refl, ahead))
          | inl e ↦ rw comes (rw (e, struck) (refl, refl, refl, flight_deadline_pos F _ i.now))
        ]
      ]

  -- A swing that is not stale.
  fresh-IsMatch :
      (s : State Float) (seat : ℕ) (seqs : Dict ℤ) (i : SwingInput F) (ph : Phase)
      → s.phase ≡ ph
      → IsMatch F p q Left s
      → IsMatch F p q Left (elim (record_only F s i.player_id seqs i.now) [
        | some recorded ↦ recorded
        | none ↦ struck F s seat seqs i
      ])
  unfolding record_only
  fresh-IsMatch s seat seqs i preparing e m =
      let (zero_p, zero_q, still, first) = subst (Standing F p q Left s) e m.standing in
      simp (e, record_only) (record { order = m.order; standing = (zero_p, zero_q, refl, first) })
  fresh-IsMatch s seat seqs i countdown e m =
      let waits = subst (Standing F p q Left s) e m.standing in
      simp (e, record_only) (record { order = m.order; standing = waits })
  fresh-IsMatch s seat seqs i finished e m =
      let (still, nobody, ended) = subst (Standing F p q Left s) e m.standing in
      simp (e, record_only)
        (record {
          order = m.order;
          standing = (
            still,
            nobody,
            elim ended [
              | inl won ↦ inl won
              | inr f ↦ inr (record {
                event = f.event;
                leaver = f.leaver;
                last = f.last;
                told = f.told;
                gone = f.gone;
                sides = f.sides;
                awarded = f.awarded;
              })
            ],
          );
        })
  fresh-IsMatch s seat seqs i playing e m =
      let (u, ahead) = subst (Standing F p q Left s) e m.standing in
      elim (Bool-cases (has_fault F s.ball)) [
        | inl dead ↦ simp (e, dead, record_only) (record { order = m.order; standing = (u, ahead) })
        | inr good ↦
            let (o, ph, sc, later) = struck-fields s seat seqs i ahead in
            simp (e, good, record_only)
              (record {
                order = o ∙ m.order;
                standing =
                    subst (Standing F p q Left (struck F s seat seqs i)) (sym (ph ∙ e))
                      (rw sc u, later);
              })
      ]

  swing-IsMatch :
      (s : State Float) (i : SwingInput F) → IsMatch F p q Left s → IsMatch F p q Left (swing F s i)
  unfolding swing
  swing-IsMatch s i m = elim (Option-cases (seat_of s.player_order i.player_id)) [
    | inl nobody ↦ rw (nobody, swing) m
    | inr (seat, seated) ↦
        elim (Bool-cases (leb_ℤ i.input_seq (last_seq s.last_input_seq i.player_id))) [
          | inl stale ↦ rw (seated, swing) (rw stale m)
          | inr new ↦
              rw (seated, swing)
                (rw new (
                  fresh-IsMatch s seat (insert i.player_id i.input_seq s.last_input_seq) i s.phase
                    refl m))
        ]
  ]

  expire-IsMatch :
      (s : State Float) (now : ℕ) → IsMatch F p q Left s → IsMatch F p q Left (expire F s now)
  unfolding expire
  expire-IsMatch s now m = elim (Bool-cases (is_playing s.phase)) [
    | inr idle ↦ rw idle m
    | inl plays ↦
        let (u, ahead) = subst (Standing F p q Left s) (playing_of s.phase plays) m.standing in
        let ball = ball_at F s.ball now in
        rw plays
          (point-IsMatch F p q ne Left s ball now (scorer_of ball) (scorer_of-lt ball) m.order u)
  ]

  serve-IsMatch :
      (s : State Float) (now : ℕ) (target_x : Float)
      → IsMatch F p q Left s
      → IsMatch F p q Left (serve F s now target_x)
  unfolding serve
  serve-IsMatch s now target_x m = elim (Bool-cases (is_countdown s.phase)) [
    | inr idle ↦ rw idle m
    | inl waits ↦
        let (u, ahead, r) = subst (Standing F p q Left s) (countdown_of s.phase waits) m.standing in
        rw waits (record { order = m.order; standing = (u, miss_deadline_pos F _ now) })
  ]

  forfeit-IsMatch :
      (s : State Float) (x : String) (now : ℕ)
      → Left x
      → IsMatch F p q Left s
      → IsMatch F p q Left (forfeit F s x now)
  unfolding forfeit
  forfeit-IsMatch s x now gone m = elim (Option-cases (seat_of s.player_order x)) [
    | inl none_here ↦ rw (none_here, forfeit) m
    | inr (loser, seated) ↦ elim (Bool-cases (is_finished s.phase)) [
      | inl over ↦ rw (seated, forfeit) (rw over m)
      | inr on ↦
          let winner = player_at s.player_order (other_seat loser) in
          rw (seated, forfeit)
            (rw on (record {
              order = m.order;
              standing = (
                refl,
                refl,
                inr (record {
                  event = make_event (s.version + 1) EventType.opponent_left winner now;
                  leaver = x;
                  last = refl;
                  told = refl;
                  gone = gone;
                  sides =
                      subst
                        (λ o.
                          ((x ≡ p) × (player_at o (other_seat loser) ≡ q))
                          ⊎ ((x ≡ q) × (player_at o (other_seat loser) ≡ p)))
                        (sym m.order) (seats p q x loser (rw m.order at seated));
                  awarded =
                      ground
                        (arith, points-insert s.scores winner winner win_score, eq_refl winner);
                }),
              );
            }))
    ]
  ]

  runs_out-IsMatch :
      (s : State Float) (now : ℕ) (target_x : Float)
      → IsMatch F p q Left s
      → IsMatch F p q Left (timed_out F s now target_x)
  unfolding timed_out timeout_rule
  runs_out-IsMatch s now target_x m =
      elim (Bool-cases (not (eqb s.version s.version) || is_finished s.phase)) [
        | inl over ↦ rw (over, timed_out) m
        | inr on ↦ elim (Bool-cases (is_countdown s.phase)) [
          | inl waits ↦ rw (on, timed_out) (rw waits (serve-IsMatch s now target_x m))
          | inr flies ↦ rw (on, timed_out) (rw flies (expire-IsMatch s now m))
        ]
      ]

  apply-IsMatch :
      (s : State Float) (a : Action F)
      → Counts Left (a ∷ [])
      → IsMatch F p q Left s
      → IsMatch F p q Left (apply F s a)
  unfolding apply
  apply-IsMatch s (readies x now) left m = ready-IsMatch F p q ne Left s x now m
  apply-IsMatch s (swings i) left m = swing-IsMatch s i m
  apply-IsMatch s (runs_out now target_x) left m = runs_out-IsMatch s now target_x m
  apply-IsMatch s (leaves x now) left m = forfeit-IsMatch s x now (left x (inl refl)) m

  Counts-first :
      (a : Action F) (rest : List (Action F)) → Counts Left (a ∷ rest) → Counts Left (a ∷ [])
  Counts-first (leaves y now) rest left x (inl e) = left x (inl e)
  Counts-first (leaves y now) rest left x (inr e) = absurd e
  Counts-first (readies y now) rest left x e = absurd e
  Counts-first (swings i) rest left x e = absurd e
  Counts-first (runs_out now target_x) rest left x e = absurd e

  Counts-rest : (a : Action F) (rest : List (Action F)) → Counts Left (a ∷ rest) → Counts Left rest
  Counts-rest (leaves y now) rest left x e = left x (inr e)
  Counts-rest (readies y now) rest left x e = left x e
  Counts-rest (swings i) rest left x e = left x e
  Counts-rest (runs_out now target_x) rest left x e = left x e

  pub run-IsMatch :
      (s : State Float) (history : List (Action F))
      → Counts Left history
      → IsMatch F p q Left s
      → IsMatch F p q Left (run F s history)
  unfolding run
  run-IsMatch s [] left m = m
  run-IsMatch s (a ∷ rest) left m =
      run-IsMatch (apply F s a) rest (Counts-rest a rest left)
        (apply-IsMatch s a (Counts-first a rest left) m)

-- A match between two different players starts. Whatever they and the clock do from then on, while it
-- goes on nobody has won and it has a deadline, but for the ready gate, where nobody has a point or a
-- deadline. Before each later serve the receiver is whom the rules of table tennis name: in turns of
-- two serves, and of one from 20 points on. A match that is over has no deadline, and somebody won it
-- with its last point, by 11 to at most 9 or by two from 10 on, or one of the two left in the course
-- of it, and its last event names the other one, who was given 11 points.
pub IsMatch-from_initial :
    (F : Floats) (p q : String)
    → p ≢ q
    → (now : ℕ) (history : List (Action F))
    → (s : State F.Float) × (initial F (p ∷ q ∷ []) now ≡ ok s)
      × IsMatch F p q (λ x. HasLeft x history) (run F s history)
unfolding initial
IsMatch-from_initial F p q ne now history =
    let s = first_state F (p ∷ q ∷ []) p now in
    let Left : String → Type 0 = λ x. HasLeft x history in
    (
      s,
      refl,
      run-IsMatch F p q ne Left s history (λ x left. left) (first_state-IsMatch F p q ne Left now),
    )
