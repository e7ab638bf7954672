-- ===== src/Score/Reorder.antt =====
-- The order of the dice does not count in yachtScoreCalculator.ts.
use mathlib.Core.List.{Permᴰ}
use mathlib.Core.List.Permᴰ
use yorr.Prelude.{
  ℕ, suc, ◌+◌, ◌*◌, ◌≡◌, refl, sym, ap, ◌∙◌, true, List, arith, length, every, inl, inr, ok,
}
use yorr.Score.Category.{
  Category, ones, twos, threes, fours, fives, sixes, choice, four_of_a_kind, full_house,
  small_straight, large_straight, yacht, is_face, sum,
}
use yorr.Score.Calculator.{calculate_score}
use yorr.Score.Counts.{occurs}
use yorr.Score.Hands.{Shows}
use yorr.Score.Worth.{is_roll, worth, calculate_score_lem}

occurs-perm : (face : ℕ) {xs ys : List ℕ} → Permᴰ xs ys → occurs face xs ≡ occurs face ys
unfolding occurs
occurs-perm face Permᴰ.nil = refl
occurs-perm face (Permᴰ.cons e p) = rw (e, occurs-perm face p) refl
occurs-perm face (Permᴰ.swap e f) = rw (e, f) (ground arith)
occurs-perm face (Permᴰ.trans p q) = occurs-perm face p ∙ occurs-perm face q

length-perm : {xs ys : List ℕ} → Permᴰ xs ys → length xs ≡ length ys
length-perm Permᴰ.nil = refl
length-perm (Permᴰ.cons e p) = ap suc (length-perm p)
length-perm (Permᴰ.swap e f) = refl
length-perm (Permᴰ.trans p q) = length-perm p ∙ length-perm q

every-perm : {xs ys : List ℕ} → Permᴰ xs ys → every is_face xs ≡ every is_face ys
every-perm Permᴰ.nil = refl
every-perm (Permᴰ.cons e p) = rw (e, every-perm p) refl
every-perm (Permᴰ.swap e f) = rw (e, f) (ground arith)
every-perm (Permᴰ.trans p q) = every-perm p ∙ every-perm q

sum-perm : {xs ys : List ℕ} → Permᴰ xs ys → sum xs ≡ sum ys
unfolding sum
sum-perm Permᴰ.nil = refl
sum-perm (Permᴰ.cons e p) = rw (e, sum-perm p) refl
sum-perm (Permᴰ.swap e f) = ground arith
sum-perm (Permᴰ.trans p q) = sum-perm p ∙ sum-perm q

worth-perm : (c : Category) {xs ys : List ℕ} → Permᴰ xs ys → worth c xs ≡ worth c ys
unfolding worth
worth-perm ones p = occurs-perm 1 p
worth-perm twos p = ap (λ n. 2 * n) (occurs-perm 2 p)
worth-perm threes p = ap (λ n. 3 * n) (occurs-perm 3 p)
worth-perm fours p = ap (λ n. 4 * n) (occurs-perm 4 p)
worth-perm fives p = ap (λ n. 5 * n) (occurs-perm 5 p)
worth-perm sixes p = ap (λ n. 6 * n) (occurs-perm 6 p)
worth-perm choice p = sum-perm p
worth-perm four_of_a_kind p = sum-perm p
worth-perm full_house p = sum-perm p
worth-perm small_straight p = refl
worth-perm large_straight p = refl
worth-perm yacht p = refl

Shows-perm : (c : Category) {xs ys : List ℕ} → Permᴰ xs ys → Shows c xs → Shows c ys
unfolding Shows
Shows-perm ones p h = rw (← occurs-perm 1 p) h
Shows-perm twos p h = rw (← occurs-perm 2 p) h
Shows-perm threes p h = rw (← occurs-perm 3 p) h
Shows-perm fours p h = rw (← occurs-perm 4 p) h
Shows-perm fives p h = rw (← occurs-perm 5 p) h
Shows-perm sixes p h = rw (← occurs-perm 6 p) h
Shows-perm choice p h = tt
Shows-perm four_of_a_kind p (f, h) = (f, rw (← occurs-perm f p) h)
Shows-perm full_house p (a, b, h, i) = (a, b, rw (← occurs-perm a p) h, rw (← occurs-perm b p) i)
Shows-perm small_straight p (a, lo, hi, h) =
    (a, lo, hi, (λ k l. rw (← occurs-perm (a + k) p) (h k l)))
Shows-perm large_straight p (a, lo, hi, h) =
    (a, lo, hi, (λ k l. rw (← occurs-perm (a + k) p) (h k l)))
Shows-perm yacht p (f, h) = (f, rw (← occurs-perm f p) h)

-- A roll scores the same in whatever order its dice lie.
pub calculate_score-perm :
    (c : Category) (xs ys : List ℕ)
    → Permᴰ xs ys
    → is_roll xs ≡ true
    → calculate_score c xs ≡ calculate_score c ys
calculate_score-perm c xs ys p valid = elim (calculate_score_lem c xs valid) [
  | inl (shows, e) ↦ elim (calculate_score_lem c ys valid') [
    | inl (shows', f) ↦ e ∙ ap ok (worth-perm c p) ∙ sym f
    | inr (lacks, f) ↦ absurd (lacks (Shows-perm c p shows))
  ]
  | inr (lacks, e) ↦ elim (calculate_score_lem c ys valid') [
    | inl (shows, f) ↦ absurd (lacks (Shows-perm c (Permᴰ.symm p) shows))
    | inr (lacks', f) ↦ e ∙ sym f
  ]
]
  where
    valid' : is_roll ys ≡ true
    valid' = rw (← length-perm p, ← every-perm p) valid
