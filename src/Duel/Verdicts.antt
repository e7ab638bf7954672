-- ===== src/Duel/Verdicts.antt =====
-- What duelRound.ts makes of two reactions, told without its order of tests.
use yorr.Prelude.{
  ℕ, ◌-◌, String, ℤ, pos, leb_ℤ, ltb_ℤ, eqb_ℤ, eqb_ℤ→eq, ◌≡◌, refl, sym, ◌≢◌, ◌⊎◌, inl, inr, Bool,
  true, false, ◌&&◌, ◌||◌, none, some, arith, Dict, lookup_or-insert_self, lookup_or-insert_ne, leb,
}
use yorr.Duel.Types.{State, foul, miss, at}
use yorr.Duel.Round.{
  Winner, nobody, first_wins, second_wins, compare_draw, Verdict, verdict, foul_side, shootout,
  shot,
}

-- A reaction beats another if it is a time, and the other is none or a longer one.
abbrev pub beats : ℤ → ℤ → Bool
beats a b = leb_ℤ (pos 0) a && (ltb_ℤ b (pos 0) || ltb_ℤ a b)

-- `hit` is shot by `shooter`: he loses one life, and nothing else changes.
pub record Shot (s : State) (v : Verdict) (shooter hit : String) : Type 0 where
  pub shooter_id : v.round.shooter_id ≡ some shooter
  pub hit_id : v.round.hit_id ≡ some hit
  pub loses : at v.hp hit 0 ≡ at s.hp hit 0 - 1
  pub keeps : at v.hp shooter 0 ≡ at s.hp shooter 0
  pub fouls : v.fouls ≡ s.fouls
  pub over : v.round.over ≡ leb (at s.hp hit 0) 1

pub record Unhurt (s : State) (v : Verdict) : Type 0 where
  pub hit_id : v.round.hit_id ≡ none
  pub hp : v.hp ≡ s.hp
  pub over : v.round.over ≡ false

module _ (p q : String) (ne : p ≢ q) where
  shot-Shot : (s : State) (a b : String) (now : ℕ) → a ≢ b → Shot s (shot s a b now) a b
  unfolding shot
  shot-Shot s a b now d = record {
    shooter_id = refl;
    hit_id = refl;
    loses = lookup_or-insert_self b _ 0 s.hp;
    keeps = lookup_or-insert_ne b a _ 0 s.hp (λ e. d (sym e));
    fouls = refl;
    over = ground arith;
  }

  neq_ℤ : (a b : ℤ) → a ≢ b → eqb_ℤ a b ≡ false
  neq_ℤ a b d = ground (arith, eqb_ℤ→eq a b)

  clean_side :
      (reactions : Dict ℤ)
      → at reactions p miss ≢ foul
      → at reactions q miss ≢ foul
      → foul_side reactions p q ≡ none
  unfolding foul_side
  clean_side reactions cp cq =
      rw (neq_ℤ (at reactions p miss) foul cp, neq_ℤ (at reactions q miss) foul cq) refl

  first_beats : (a b : ℤ) → compare_draw a b ≡ first_wins → (beats a b ≡ true) × (beats b a ≡ false)
  unfolding compare_draw
  first_beats a b e = ground arith

  second_beats :
      (a b : ℤ) → compare_draw a b ≡ second_wins → (beats b a ≡ true) × (beats a b ≡ false)
  unfolding compare_draw
  second_beats a b e = ground arith

  nobody_beats : (a b : ℤ) → compare_draw a b ≡ nobody → (beats b a ≡ false) × (beats a b ≡ false)
  unfolding compare_draw
  nobody_beats a b e = ground arith

  -- When nobody drew too early, the quicker one shoots the other, who loses one life and falls if it
  -- was the last; if neither beats the other, by equal times or because both froze, nobody is hurt.
  pub verdict_clean :
      (s : State) (reactions : Dict ℤ) (now : ℕ)
      → at reactions p miss ≢ foul
      → at reactions q miss ≢ foul
      → let v = verdict s reactions p q now in
        let a = at reactions p miss in
        let b = at reactions q miss in
        ((beats a b ≡ true) × Shot s v p q)
        ⊎ ((beats b a ≡ true) × Shot s v q p)
        ⊎ ((beats a b ≡ false) × (beats b a ≡ false) × Unhurt s v)
  unfolding verdict shootout
  verdict_clean s reactions now cp cq = by_winner (compare_draw a b) refl
    where
      a : ℤ
      a = at reactions p miss

      b : ℤ
      b = at reactions q miss

      clean : foul_side reactions p q ≡ none
      clean = clean_side reactions cp cq

      by_winner :
          (w : Winner)
          → compare_draw a b ≡ w
          → let v = verdict s reactions p q now in
            ((beats a b ≡ true) × Shot s v p q)
            ⊎ ((beats b a ≡ true) × Shot s v q p)
            ⊎ ((beats a b ≡ false) × (beats b a ≡ false) × Unhurt s v)
      by_winner first_wins e =
          let (f, g) = first_beats a b e in
          rw (clean, e, verdict, shootout) (inl (f, shot-Shot s p q now ne))
      by_winner second_wins e =
          let (f, g) = second_beats a b e in
          rw (clean, e, verdict, shootout) (inr (inl (f, shot-Shot s q p now (λ i. ne (sym i)))))
      by_winner nobody e =
          let (f, g) = nobody_beats a b e in
          rw (clean, e, verdict, shootout)
            (inr (inr (g, f, record { hit_id = refl; hp = refl; over = refl })))
