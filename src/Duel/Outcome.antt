-- ===== src/Duel/Outcome.antt =====
-- What the verdict of duelRound.ts leaves of two players who both stood before the round.
use yorr.Prelude.{
  ℕ, ◌+◌, ◌-◌, ◌≤◌, ◌<◌, String, ℤ, ◌≡◌, refl, ◌≢◌, ◌⊎◌, true, false, Option, none, some, arith,
  Dict, insert, lookup_or-insert_self, lookup_or-insert_ne, sym, leb, ltb, Bool-cases, inl, inr,
}
use yorr.Duel.Types.{State, miss, at}
use yorr.Duel.Round.{
  Winner, nobody, first_wins, second_wins, compare_draw, Verdict, verdict, foul_side, shootout,
  shot, penalty,
}

module _ (p q : String) where
  -- Both stand: a life left and one warning at most.
  pub record BothStand (hp fouls : Dict ℕ) : Type 0 where
    pub hp_p : 0 < at hp p 0
    pub hp_q : 0 < at hp q 0
    pub fouls_p : at fouls p 0 ≤ 1
    pub fouls_q : at fouls q 0 ≤ 1

  -- One has fallen, and the other has a life left.
  abbrev pub OneFell : Dict ℕ → Option String → Type 0
  OneFell hp ko = ((ko ≡ some p) × (0 < at hp q 0)) ⊎ ((ko ≡ some q) × (0 < at hp p 0))

  -- What a round leaves: both stand and the match goes on, or one has fallen and it is over.
  abbrev pub Outcome : Verdict → Type 0
  Outcome v =
      ((v.round.over ≡ false) × BothStand v.hp v.fouls)
      ⊎ ((v.round.over ≡ true) × OneFell v.hp v.round.ko_id)

  module _ (ne : p ≢ q) where
    stand_after_warning_p :
        (hp fouls : Dict ℕ) (n : ℕ) → BothStand hp fouls → n ≤ 1 → BothStand hp (insert p n fouls)
    stand_after_warning_p hp fouls n b h = record {
      hp_p = b.hp_p;
      hp_q = b.hp_q;
      fouls_p = rw lookup_or-insert_self h;
      fouls_q = rw (lookup_or-insert_ne p q n 0 fouls ne) b.fouls_q;
    }

    stand_after_warning_q :
        (hp fouls : Dict ℕ) (n : ℕ) → BothStand hp fouls → n ≤ 1 → BothStand hp (insert q n fouls)
    stand_after_warning_q hp fouls n b h = record {
      hp_p = b.hp_p;
      hp_q = b.hp_q;
      fouls_p = rw (lookup_or-insert_ne q p n 0 fouls (λ e. ne (sym e))) b.fouls_p;
      fouls_q = rw lookup_or-insert_self h;
    }

    stand_after_hit_p :
        (hp fouls : Dict ℕ) (n : ℕ) → BothStand hp fouls → 0 < n → BothStand (insert p n hp) fouls
    stand_after_hit_p hp fouls n b h = record {
      hp_p = rw lookup_or-insert_self h;
      hp_q = rw (lookup_or-insert_ne p q n 0 hp ne) b.hp_q;
      fouls_p = b.fouls_p;
      fouls_q = b.fouls_q;
    }

    stand_after_hit_q :
        (hp fouls : Dict ℕ) (n : ℕ) → BothStand hp fouls → 0 < n → BothStand (insert q n hp) fouls
    stand_after_hit_q hp fouls n b h = record {
      hp_p = rw (lookup_or-insert_ne q p n 0 hp (λ e. ne (sym e))) b.hp_p;
      hp_q = rw lookup_or-insert_self h;
      fouls_p = b.fouls_p;
      fouls_q = b.fouls_q;
    }

    fell_p : (hp : Dict ℕ) (n : ℕ) → 0 < at hp q 0 → OneFell (insert p n hp) (some p)
    fell_p hp n h = inl (refl, rw (lookup_or-insert_ne p q n 0 hp ne) h)

    fell_q : (hp : Dict ℕ) (n : ℕ) → 0 < at hp p 0 → OneFell (insert q n hp) (some q)
    fell_q hp n h = inr (refl, rw (lookup_or-insert_ne q p n 0 hp (λ e. ne (sym e))) h)

    penalty-Outcome :
        (s : State) (f : String) (now : ℕ)
        → BothStand s.hp s.fouls
        → (f ≡ p) ⊎ (f ≡ q)
        → Outcome (penalty s f now)
    unfolding penalty
    penalty-Outcome s f now b (inl e) = elim (Bool-cases (ltb (at s.fouls p 0 + 1) 2)) [
      | inl t ↦ rw e (rw t (inl (refl, stand_after_warning_p s.hp s.fouls _ b (ground arith))))
      | inr t ↦ rw e (rw t (inr (refl, fell_p s.hp _ b.hp_q)))
    ]
    penalty-Outcome s f now b (inr e) = elim (Bool-cases (ltb (at s.fouls q 0 + 1) 2)) [
      | inl t ↦ rw e (rw t (inl (refl, stand_after_warning_q s.hp s.fouls _ b (ground arith))))
      | inr t ↦ rw e (rw t (inr (refl, fell_q s.hp _ b.hp_p)))
    ]

    hit_q-Outcome : (s : State) (now : ℕ) → BothStand s.hp s.fouls → Outcome (shot s p q now)
    unfolding shot
    hit_q-Outcome s now b = elim (Bool-cases (leb (at s.hp q 0 - 1) 0)) [
      | inl t ↦ rw t (inr (refl, fell_q s.hp _ b.hp_p))
      | inr t ↦ rw t (inl (refl, stand_after_hit_q s.hp s.fouls _ b (ground arith)))
    ]

    hit_p-Outcome : (s : State) (now : ℕ) → BothStand s.hp s.fouls → Outcome (shot s q p now)
    unfolding shot
    hit_p-Outcome s now b = elim (Bool-cases (leb (at s.hp p 0 - 1) 0)) [
      | inl t ↦ rw t (inr (refl, fell_p s.hp _ b.hp_q))
      | inr t ↦ rw t (inl (refl, stand_after_hit_p s.hp s.fouls _ b (ground arith)))
    ]

    shootout-Outcome :
        (s : State) (reactions : Dict ℤ) (now : ℕ)
        → BothStand s.hp s.fouls
        → Outcome (shootout s reactions p q now)
    unfolding shootout
    shootout-Outcome s reactions now b =
        by_winner (compare_draw (at reactions p miss) (at reactions q miss)) refl
      where
        by_winner :
            (w : Winner)
            → compare_draw (at reactions p miss) (at reactions q miss) ≡ w
            → Outcome (shootout s reactions p q now)
        by_winner nobody e = rw (e, shootout) (inl (refl, b))
        by_winner first_wins e = rw (e, shootout) (hit_q-Outcome s now b)
        by_winner second_wins e = rw (e, shootout) (hit_p-Outcome s now b)

    pub foul_side-cases :
        (reactions : Dict ℤ)
        → (foul_side reactions p q ≡ some p)
          ⊎ (foul_side reactions p q ≡ some q)
          ⊎ (foul_side reactions p q ≡ none)
    unfolding foul_side
    foul_side-cases reactions = ground arith

    pub verdict-Outcome :
        (s : State) (reactions : Dict ℤ) (now : ℕ)
        → BothStand s.hp s.fouls
        → Outcome (verdict s reactions p q now)
    unfolding verdict
    verdict-Outcome s reactions now b = elim (foul_side-cases reactions) [
      | inl e ↦ rw (e, verdict) (penalty-Outcome s p now b (inl refl))
      | inr (inl e) ↦ rw (e, verdict) (penalty-Outcome s q now b (inr refl))
      | inr (inr e) ↦ rw (e, verdict) (shootout-Outcome s reactions now b)
    ]
