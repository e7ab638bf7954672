-- ===== src/Duel/Scores.antt =====
-- What duelProgress.ts writes as the final scores of a match.
use yorr.Prelude.{
  ℕ, ◌<◌, String, ◌≡◌, refl, sym, ◌≢◌, ◌⊎◌, inl, inr, ◌∙◌, true, false, Option, none, some, [], ◌∷◌,
  arith, Dict, lookup, lookup_or, lookup_or-insert_ne, eq_iff, eq_refl, str_eq, Bool-cases,
  ne→str_eq, ok,
}
use yorr.Duel.Types.{result, State, at, is_finished}
use yorr.Duel.Rules.{finish, forfeit, walk_over, is_first}
use yorr.Duel.Timeout.{is_over, fallen, score, final_scores}
use yorr.Duel.Outcome.{OneFell}
use yorr.Duel.Match.{IsMatch, Fell-of}

-- A player's final score is 0 if he fell, and what he has of lives otherwise.
at-final_scores :
    (ko : Option String) (hp : Dict ℕ) (k : String)
    → at (final_scores ko hp) k 0 ≡ score ko k (at hp k 0)
unfolding final_scores score lookup_or lookup
at-final_scores none [] k = refl
at-final_scores (some x) [] k = ground arith
at-final_scores ko ((j, n) ∷ rest) k = elim (Bool-cases (str_eq j k)) [
  | inl e ↦ ground (arith, eq_iff j k)
  | inr e ↦ ground (arith, at-final_scores ko rest k)
]

module _ (p q : String) (ne : p ≢ q) where
  -- The scores of a match in which `loser` fell in the last round: he has 0, and the other, who still
  -- stands, has the lives that are left to him, one at least.
  pub record Scores (s : State) (winner loser : String) : Type 0 where
    pub fell : fallen s.last_round ≡ some loser
    pub lost : at (final_scores (fallen s.last_round) s.hp) loser 0 ≡ 0
    pub kept : at (final_scores (fallen s.last_round) s.hp) winner 0 ≡ at s.hp winner 0
    pub stands : 0 < at s.hp winner 0

  scores_of_fallen :
      (hp : Dict ℕ) (ko : Option String) (x y : String)
      → x ≢ y
      → ko ≡ some x
      → (at (final_scores ko hp) x 0 ≡ 0) × (at (final_scores ko hp) y 0 ≡ at hp y 0)
  unfolding score
  scores_of_fallen hp ko x y d e = (
    rw (at-final_scores ko hp x, e, eq_refl x) refl,
    rw (at-final_scores ko hp y, e, ne→str_eq y x (λ i. d (sym i))) refl,
  )

  fell-Scores : (s : State) → OneFell p q s.hp (fallen s.last_round) → Scores s p q ⊎ Scores s q p
  fell-Scores s (inl (e, h)) =
      let (lost, kept) = scores_of_fallen s.hp (fallen s.last_round) p q ne e in
      inr (record { fell = e; lost = lost; kept = kept; stands = h })
  fell-Scores s (inr (e, h)) =
      let (lost, kept) = scores_of_fallen s.hp (fallen s.last_round) q p (λ i. ne (sym i)) e in
      inl (record { fell = e; lost = lost; kept = kept; stands = h })

  finish_fields :
      (s : State)
      → s.phase ≡ result
      → is_over s.last_round ≡ true
      → (is_finished (finish s).phase ≡ true)
        × ((finish s).hp ≡ s.hp)
        × ((finish s).last_round ≡ s.last_round)
  unfolding finish is_over
  finish_fields s r o = ground arith

  -- When the hold after a deciding round ends, the match is finished with that round as its last and
  -- with the lives that it left. The one who fell in it scores 0, and the other, who still stands, scores
  -- the lives that he has, one at least.
  pub finish-Scores :
      (s : State)
      → IsMatch p q ne s
      → s.phase ≡ result
      → is_over s.last_round ≡ true
      → (is_finished (finish s).phase ≡ true)
        × ((finish s).last_round ≡ s.last_round)
        × ((finish s).hp ≡ s.hp)
        × (Scores (finish s) p q ⊎ Scores (finish s) q p)
  finish-Scores s m r o =
      let (done, hp, last) = finish_fields s r o in
      (
        done,
        last,
        hp,
        fell-Scores (finish s) (rw (hp, last) (Fell-of p q ne s s.phase r o m.standing).1),
      )

  -- The other of two different players.
  abbrev pub Opposite : String → String → Type 0
  Opposite x y = ((x ≡ p) × (y ≡ q)) ⊎ ((x ≡ q) × (y ≡ p))

  forfeit_walk :
      (s : State) (x y : String) (now : ℕ)
      → s.player_order ≡ p ∷ q ∷ []
      → is_finished s.phase ≡ false
      → Opposite x y
      → forfeit s x now ≡ ok (walk_over s x y now)
  unfolding forfeit is_first
  forfeit_walk s x y now o f (inl (e, g)) = rw (e, g) (rw (f, o, eq_refl p) refl)
  forfeit_walk s x y now o f (inr (e, g)) = rw (e, g) (rw (f, o, ne→str_eq p q ne, eq_refl q) refl)

  ne_of_Opposite : (x y : String) → Opposite x y → x ≢ y
  ne_of_Opposite x y (inl (e, g)) h = ne (sym e ∙ h ∙ g)
  ne_of_Opposite x y (inr (e, g)) h = ne (sym g ∙ sym h ∙ e)

  -- Whichever of the two leaves an unfinished match, it is finished at once, he scores 0, and the
  -- other scores the lives that he has.
  pub forfeit_scores :
      (s : State) (x y : String) (now : ℕ)
      → IsMatch p q ne s
      → is_finished s.phase ≡ false
      → Opposite x y
      → (t : State) × (forfeit s x now ≡ ok t)
        × (is_finished t.phase ≡ true)
        × (at (final_scores (fallen t.last_round) t.hp) x 0 ≡ 0)
        × (at (final_scores (fallen t.last_round) t.hp) y 0 ≡ at s.hp y 0)
  unfolding walk_over fallen
  forfeit_scores s x y now m f side =
      let differ = ne_of_Opposite x y side in
      let t = walk_over s x y now in
      let (lost, kept) = scores_of_fallen t.hp (some x) x y differ refl in
      (
        t,
        forfeit_walk s x y now m.order f side,
        refl,
        lost,
        kept ∙ lookup_or-insert_ne x y 0 0 s.hp differ,
      )
