-- ===== src/Duel/Clock.antt =====
-- What `onTimeout` of duelGameService.ts does to a match between two players, and a whole history of it.
use yorr.Prelude.{
  ℕ, String, ◌≡◌, refl, ◌≢◌, true, false, Option, none, some, List, [], ◌∷◌, arith, ok, Bool-cases,
  inl, inr,
}
use yorr.Duel.Types.{Phase, waiting, signal, result, finished, State, Round, is_signal, is_result}
use yorr.Duel.Rules.{light, expire, freeze, next_round, finish}
use yorr.Duel.Timeout.{is_over, tick}
use yorr.Duel.Outcome.{BothStand}
use yorr.Duel.Match.{
  IsMatch, Standing, Gives, Action, draws, ticks, leaves, apply, run, is_live, stand_of_live,
  light-IsMatch, Fell-of, resolve_round-IsMatch, draw-Gives, forfeit-Gives,
}

module _ (p q : String) (ne : p ≢ q) where
  stand_of_open :
      (s : State) (ph : Phase)
      → is_result ph ≡ true
      → is_over s.last_round ≡ false
      → Standing p q ne s ph
      → BothStand p q s.hp s.fouls
  stand_of_open s result e open' (inl h) = h.1
  stand_of_open s result e open' (inr (over, fell)) = cc
  stand_of_open s waiting e open' h = cc
  stand_of_open s signal e open' h = cc
  stand_of_open s finished e open' h = cc

  over_of : (o : Option Round) (r : Round) → o ≡ some r → is_over o ≡ false → r.over ≡ false
  unfolding is_over
  over_of o r e h = ground arith

  next_round-IsMatch :
      (s : State) (now wait : ℕ)
      → is_over s.last_round ≡ false
      → IsMatch p q ne s
      → IsMatch p q ne (next_round s now wait)
  unfolding next_round
  next_round-IsMatch s now wait open' m = by_round s.last_round refl
    where
      by_round : (o : Option Round) → s.last_round ≡ o → IsMatch p q ne (next_round s now wait)
      by_round none e = simp (e, next_round) m
      by_round (some r) e = elim (Bool-cases (is_result s.phase)) [
        | inr f ↦ simp (e, f, next_round) m
        | inl f ↦
            let b = stand_of_open s s.phase f open' m.standing in
            let still : r.over ≡ false = over_of s.last_round r e open' in
            simp (e, f, still, next_round) (record { order = m.order; standing = b })
      ]

  over_of_some : (o : Option Round) (r : Round) → o ≡ some r → r.over ≡ true → is_over o ≡ true
  unfolding is_over
  over_of_some o r e h = ground arith

  result_of : (ph : Phase) → is_result ph ≡ true → ph ≡ result
  result_of waiting e = cc
  result_of signal e = cc
  result_of result e = refl
  result_of finished e = cc

  finish-IsMatch : (s : State) → IsMatch p q ne s → IsMatch p q ne (finish s)
  unfolding finish
  finish-IsMatch s m = by_round s.last_round refl
    where
      by_round : (o : Option Round) → s.last_round ≡ o → IsMatch p q ne (finish s)
      by_round none e = simp (e, finish) m
      by_round (some r) e = elim (Bool-cases (is_result s.phase)) [
        | inr f ↦ simp (e, f, finish) m
        | inl f ↦ elim (Bool-cases r.over) [
          | inr g ↦ simp (e, f, g, finish) m
          | inl g ↦
              let over : is_over s.last_round ≡ true = over_of_some s.last_round r e g in
              let fell = Fell-of p q ne s s.phase (result_of s.phase f) over m.standing in
              simp (e, f, g, finish) (record { order = m.order; standing = inl (rw e at fell) })
        ]
      ]

  expire-Gives : (s : State) (now : ℕ) → IsMatch p q ne s → Gives p q ne (expire s now)
  unfolding expire is_live
  expire-Gives s now m = elim (Bool-cases (is_signal s.phase)) [
    | inr e ↦ (s, rw e refl, m)
    | inl e ↦
        let live : is_live s.phase ≡ true = ground arith in
        let (t, r, mt) =
          resolve_round-IsMatch p q ne s s.last_input_seq (freeze s.player_order s.reactions) now
            m.order (stand_of_live p q ne s s.phase live m.standing) in
        (t, rw e r, mt)
  ]

  tick-Gives : (s : State) (now wait : ℕ) → IsMatch p q ne s → Gives p q ne (tick s now wait)
  unfolding tick
  tick-Gives s now wait m = by_phase s.phase refl
    where
      by_phase : (ph : Phase) → s.phase ≡ ph → Gives p q ne (tick s now wait)
      by_phase waiting e = (light s now, simp (e, tick) refl, light-IsMatch p q ne s now m)
      by_phase signal e = let (t, r, mt) = expire-Gives s now m in (t, simp (e, tick) r, mt)
      by_phase finished e = (s, simp (e, tick) refl, m)
      by_phase result e = elim (Bool-cases (is_over s.last_round)) [
        | inl over ↦ (finish s, simp (e, over, tick) refl, finish-IsMatch s m)
        | inr open' ↦ (
          next_round s now wait,
          simp (e, open', tick) refl,
          next_round-IsMatch s now wait open' m,
        )
      ]

  pub apply-Gives : (s : State) (a : Action) → IsMatch p q ne s → Gives p q ne (apply s a)
  unfolding apply
  apply-Gives s (draws i) m = draw-Gives p q ne s i m
  apply-Gives s (ticks now wait) m = tick-Gives s now wait m
  apply-Gives s (leaves x now) m = forfeit-Gives p q ne s x now m

  -- Whatever the two players and the clock do, nothing throws, and the match stays sound: while it goes
  -- on both players have a life left and one warning at most, and when a round has ended it exactly one
  -- of them has fallen and the other has a life left.
  pub run-Gives :
      (s : State) (history : List Action)
      → IsMatch p q ne s
      → (t : State) × (run s history ≡ ok t) × IsMatch p q ne t
  unfolding run
  run-Gives s [] m = (s, refl, m)
  run-Gives s (a ∷ rest) m =
      let (t, e, mt) = apply-Gives s a m in let (u, f, mu) = run-Gives t rest mt in (u, rw e f, mu)
