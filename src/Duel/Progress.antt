-- ===== src/Duel/Progress.antt =====
-- How a duel gets on: its start, its rounds and its clock.
use yorr.Prelude.{
  ℕ, ◌+◌, ◌-◌, ◌<◌, String, ℤ, ◌≡◌, refl, sym, ◌≢◌, ◌⊎◌, inl, inr, false, none, some, [], ◌∷◌,
  arith, Dict, lookup_or-insert_self, lookup_or-insert_ne, ltb, Bool-cases, ok,
}
use yorr.Duel.Types.{
  Phase, waiting, signal, finished, result, State, RoundKind, at, miss, is_finished,
}
use yorr.Duel.Round.{
  Verdict, Winner, nobody, first_wins, second_wins, compare_draw, verdict, shootout, shot, penalty,
  settle, resolve_round,
}
use yorr.Duel.Rules.{light, expire, freeze, next_round, finish}
use yorr.Duel.Timeout.{is_over, tick, timeout}
use yorr.Duel.Outcome.{BothStand, foul_side-cases}
use yorr.Duel.Match.{IsMatch, Standing}

module _ (p q : String) (ne : p ≢ q) where
  -- What a match can still lose: the lives of both, and the fouls that they may still commit.
  unfoldable pub left : Dict ℕ → Dict ℕ → ℕ
  left hp fouls = at hp p 0 + at hp q 0 + (2 - at fouls p 0) + (2 - at fouls q 0)

  penalty-Progress :
      (s : State) (x : String) (now : ℕ)
      → BothStand p q s.hp s.fouls
      → (x ≡ p) ⊎ (x ≡ q)
      → left (penalty s x now).hp (penalty s x now).fouls < left s.hp s.fouls
  unfolding penalty left
  penalty-Progress s x now b (inl e) =
      let n = at s.fouls p 0 + 1 in
      let low = b.fouls_p in
      let own = lookup_or-insert_self p n 0 s.fouls in
      let other = lookup_or-insert_ne p q n 0 s.fouls ne in
      let lives = lookup_or-insert_self p (at s.hp p 0 - 1) 0 s.hp in
      let others = lookup_or-insert_ne p q (at s.hp p 0 - 1) 0 s.hp ne in
      rw e
        (elim (Bool-cases (ltb n 2)) [ inl t ↦ rw t (ground arith) | inr t ↦ rw t (ground arith) ])
  penalty-Progress s x now b (inr e) =
      let n = at s.fouls q 0 + 1 in
      let low = b.fouls_q in
      let own = lookup_or-insert_self q n 0 s.fouls in
      let other = lookup_or-insert_ne q p n 0 s.fouls (λ i. ne (sym i)) in
      let lives = lookup_or-insert_self q (at s.hp q 0 - 1) 0 s.hp in
      let others = lookup_or-insert_ne q p (at s.hp q 0 - 1) 0 s.hp (λ i. ne (sym i)) in
      rw e
        (elim (Bool-cases (ltb n 2)) [ inl t ↦ rw t (ground arith) | inr t ↦ rw t (ground arith) ])

  shot_q-Progress :
      (s : State) (now : ℕ)
      → BothStand p q s.hp s.fouls
      → left (shot s p q now).hp (shot s p q now).fouls < left s.hp s.fouls
  unfolding shot left
  shot_q-Progress s now b =
      let lives = b.hp_q in
      ground (
        arith,
        lookup_or-insert_self q (at s.hp q 0 - 1) 0 s.hp,
        lookup_or-insert_ne q p (at s.hp q 0 - 1) 0 s.hp (λ i. ne (sym i)),
      )

  shot_p-Progress :
      (s : State) (now : ℕ)
      → BothStand p q s.hp s.fouls
      → left (shot s q p now).hp (shot s q p now).fouls < left s.hp s.fouls
  unfolding shot left
  shot_p-Progress s now b =
      let lives = b.hp_p in
      ground (
        arith,
        lookup_or-insert_self p (at s.hp p 0 - 1) 0 s.hp,
        lookup_or-insert_ne p q (at s.hp p 0 - 1) 0 s.hp ne,
      )

  pub Progress : State → Verdict → Type 0
  Progress s v =
      ((v.round.kind ≡ RoundKind.tie) × (v.hp ≡ s.hp) × (v.fouls ≡ s.fouls))
      ⊎ (left v.hp v.fouls < left s.hp s.fouls)

  shootout-Progress :
      (s : State) (reactions : Dict ℤ) (now : ℕ)
      → BothStand p q s.hp s.fouls
      → Progress s (shootout s reactions p q now)
  unfolding Progress shootout
  shootout-Progress s reactions now b =
      by_winner (compare_draw (at reactions p miss) (at reactions q miss)) refl
    where
      by_winner :
          (w : Winner)
          → compare_draw (at reactions p miss) (at reactions q miss) ≡ w
          → Progress s (shootout s reactions p q now)
      by_winner nobody e = rw (e, shootout) (inl (refl, refl, refl))
      by_winner first_wins e = rw (e, shootout) (inr (shot_q-Progress s now b))
      by_winner second_wins e = rw (e, shootout) (inr (shot_p-Progress s now b))

  -- A round between two players who both stand is a tie and leaves lives and warnings as they were, or
  -- it takes something from what the match can still lose.
  pub verdict-Progress :
      (s : State) (reactions : Dict ℤ) (now : ℕ)
      → BothStand p q s.hp s.fouls
      → Progress s (verdict s reactions p q now)
  unfolding verdict Progress
  verdict-Progress s reactions now b = elim (foul_side-cases p q ne reactions) [
    | inl e ↦ rw (e, verdict) (inr (penalty-Progress s p now b (inl refl)))
    | inr (inl e) ↦ rw (e, verdict) (inr (penalty-Progress s q now b (inr refl)))
    | inr (inr e) ↦ rw (e, verdict) (shootout-Progress s reactions now b)
  ]

  tick-Version :
      (s : State) (now wait : ℕ) (ph : Phase)
      → s.phase ≡ ph
      → s.player_order ≡ p ∷ q ∷ []
      → Standing p q ne s ph
      → is_finished ph ≡ false
      → (t : State) × (tick s now wait ≡ ok t) × (t.version ≡ s.version + 1)
  unfolding tick light expire resolve_round settle next_round finish is_over
  tick-Version s now wait waiting e o h f = (light s now, simp (e, tick) refl, ground arith)
  tick-Version s now wait signal e o h f =
      let reactions = freeze s.player_order s.reactions in
      let t = settle s s.last_input_seq reactions now (verdict s reactions p q now) in
      (t, simp (e, o, tick, expire, resolve_round) refl, refl)
  tick-Version s now wait result e o (inl (open', b, some')) f =
      (next_round s now wait, simp (e, open', tick) refl, ground arith)
  tick-Version s now wait result e o (inr (over, fell)) f =
      (finish s, simp (e, over, tick) refl, ground arith)
  tick-Version s now wait finished e o h f = cc

  -- In a match that is not finished, the clock that is due does not throw and moves the version, so
  -- that the same deadline does not fire again.
  pub timeout-Moves :
      (s : State) (now wait : ℕ)
      → IsMatch p q ne s
      → is_finished s.phase ≡ false
      → (t : State) × (timeout s s.version now wait ≡ ok (some t))
        × (t.version ≡ s.version + 1)
        × (timeout t s.version now wait ≡ ok none)
  unfolding timeout
  timeout-Moves s now wait m f =
      let (t, e, v) = tick-Version s now wait s.phase refl m.order m.standing f in
      (t, ground arith, v, ground arith)
