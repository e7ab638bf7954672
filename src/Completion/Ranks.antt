-- ===== src/Completion/Ranks.antt =====
-- That `rankTotals` of gameResultCalculator.ts is the competition ranking.
use mathlib.Core.List.{Permᴰ, append_assoc}
use mathlib.Core.List.Permᴰ
use yorr.Prelude.{
  ℕ, suc, ◌+◌, ◌≤◌, ◌<◌, ◌≡◌, refl, sym, ap, ◌∙◌, String, true, false, Option, none, some, List, [],
  ◌∷◌, ◌++◌, map, length, length-append, ltb, eqb, if◌then◌else◌, arith, Bool-cases, inl, inr,
}
use yorr.Completion.Ranking.{
  Ranking, in_order, sort_insert, sorted, rank_at, rankings_from, rank_totals,
}

-- How many have more than `total`.
unfoldable pub above : ℕ → List (String × ℕ) → ℕ
above total [] = 0
above total ((p, n) ∷ rest) = let more = above total rest in if ltb total n then suc more else more

-- Everybody has at most, or more than, so much.
AtMost : ℕ → List (String × ℕ) → Type 0
AtMost total [] = Unit
AtMost total ((p, n) ∷ rest) = (n ≤ total) × AtMost total rest

AtLeast : ℕ → List (String × ℕ) → Type 0
AtLeast total [] = Unit
AtLeast total ((p, n) ∷ rest) = (total ≤ n) × AtLeast total rest

-- The totals do not rise.
unfoldable pub IsFalling : List (String × ℕ) → Type 0
unfolding AtMost
IsFalling [] = Unit
IsFalling ((p, n) ∷ rest) = AtMost n rest × IsFalling rest

AtMost-sort_insert :
    (m : ℕ) (p : String) (n : ℕ) (xs : List (String × ℕ))
    → n ≤ m
    → AtMost m xs
    → AtMost m (sort_insert (p, n) xs)
unfolding AtMost sort_insert
AtMost-sort_insert m p n [] h a = (h, tt)
AtMost-sort_insert m p n ((q, k) ∷ rest) h (hk, a) = elim (Bool-cases (in_order (p, n) (q, k))) [
  | inl e ↦ rw e (h, (hk, a))
  | inr e ↦ rw e (hk, AtMost-sort_insert m p n rest h a)
]

AtMost-trans : (m n : ℕ) (xs : List (String × ℕ)) → m ≤ n → AtMost m xs → AtMost n xs
unfolding AtMost
AtMost-trans m n [] h a = tt
AtMost-trans m n ((q, k) ∷ rest) h (hk, a) = (omega arith, AtMost-trans m n rest h a)

in_order_totals :
    (p q : String) (n k : ℕ)
    → (in_order (p, n) (q, k) ≡ true → k ≤ n) × (in_order (p, n) (q, k) ≡ false → n ≤ k)
unfolding in_order
in_order_totals p q n k = (ground arith, ground arith)

sort_insert-IsFalling :
    (p : String) (n : ℕ) (xs : List (String × ℕ)) → IsFalling xs → IsFalling (sort_insert (p, n) xs)
unfolding IsFalling sort_insert
sort_insert-IsFalling p n [] f = (tt, tt)
sort_insert-IsFalling p n ((q, k) ∷ rest) (a, f) = elim (Bool-cases (in_order (p, n) (q, k))) [
  | inl e ↦
      let less = (in_order_totals p q n k).0 e in
      rw e ((less, AtMost-trans k n rest less a), (a, f))
  | inr e ↦ rw e (
    AtMost-sort_insert k p n rest ((in_order_totals p q n k).1 e) a,
    sort_insert-IsFalling p n rest f,
  )
]

sorted-IsFalling : (xs : List (String × ℕ)) → IsFalling (sorted xs)
unfolding sorted IsFalling
sorted-IsFalling [] = tt
sorted-IsFalling ((p, n) ∷ rest) = sort_insert-IsFalling p n (sorted rest) (sorted-IsFalling rest)

sort_insert-perm : (x : String × ℕ) (xs : List (String × ℕ)) → Permᴰ (sort_insert x xs) (x ∷ xs)
unfolding sort_insert
sort_insert-perm x [] = Permᴰ.refl _
sort_insert-perm x (y ∷ rest) = elim (Bool-cases (in_order x y)) [
  | inl e ↦ rw e (Permᴰ.refl _)
  | inr e ↦ rw e (Permᴰ.trans (Permᴰ.cons refl (sort_insert-perm x rest)) (Permᴰ.swap refl refl))
]

pub sorted-perm : (xs : List (String × ℕ)) → Permᴰ (sorted xs) xs
unfolding sorted
sorted-perm [] = Permᴰ.nil
sorted-perm (x ∷ rest) =
    Permᴰ.trans (sort_insert-perm x (sorted rest)) (Permᴰ.cons refl (sorted-perm rest))

above-perm : (total : ℕ) {xs ys : List (String × ℕ)} → Permᴰ xs ys → above total xs ≡ above total ys
unfolding above
above-perm total Permᴰ.nil = refl
above-perm total (Permᴰ.cons e p) = rw (e, above-perm total p) refl
above-perm total (Permᴰ.swap e f) = rw (e, f) (ground arith)
above-perm total (Permᴰ.trans p q) = above-perm total p ∙ above-perm total q

above-append :
    (total : ℕ) (xs ys : List (String × ℕ))
    → above total (xs ++ ys) ≡ above total xs + above total ys
unfolding above
above-append total [] ys = ground arith
above-append total ((p, n) ∷ xs) ys = ground (arith, above-append total xs ys)

above_none : (total : ℕ) (xs : List (String × ℕ)) → AtMost total xs → above total xs ≡ 0
unfolding above AtMost
above_none total [] a = refl
above_none total ((p, n) ∷ xs) (h, a) = ground (arith, above_none total xs a)

above_all :
    (total : ℕ) (least : ℕ) (xs : List (String × ℕ))
    → total < least
    → AtLeast least xs
    → above total xs ≡ length xs
unfolding above AtLeast
above_all total least [] h a = refl
above_all total least ((p, n) ∷ xs) h (l, a) = ground (arith, above_all total least xs h a)

-- Every rank is one more than the number of entries of `whole` that have more.
unfoldable pub AreRanks : List (String × ℕ) → List Ranking → Type 0
AreRanks whole [] = Unit
AreRanks whole (r ∷ rest) = (r.rank ≡ suc (above r.total whole)) × AreRanks whole rest

-- What the loop knows of the last total and rank given.
Known : Option ℕ → ℕ → List (String × ℕ) → List (String × ℕ) → Type 0
unfolding AtLeast AtMost
Known none rank seen rest = seen ≡ []
Known (some previous) rank seen rest =
    AtLeast previous seen × AtMost previous rest × (rank ≡ suc (above previous seen))

AtLeast-snoc :
    (m n : ℕ) (p : String) (xs : List (String × ℕ))
    → n ≤ m
    → AtLeast m xs
    → AtLeast n (xs ++ (p, n) ∷ [])
unfolding AtLeast
AtLeast-snoc m n p [] h a = (omega arith, tt)
AtLeast-snoc m n p ((q, k) ∷ xs) h (l, a) = (omega arith, AtLeast-snoc m n p xs h a)

rank_at_lem :
    (previous : Option ℕ) (rank : ℕ) (p : String) (n : ℕ) (seen rest : List (String × ℕ))
    → Known previous rank seen ((p, n) ∷ rest)
    → rank_at (length seen) rank previous n ≡ suc (above n seen)
unfolding Known rank_at AtMost above
rank_at_lem none rank p n seen rest e = rw e refl
rank_at_lem (some m) rank p n seen rest (least, (most, a), known) = elim (Bool-cases (eqb m n)) [
  | inl e ↦ let same : m ≡ n = ground arith in rw e (rw (← same) known)
  | inr e ↦ rw e (ground (arith, above_all n m seen (ground arith) least))
]

above_last :
    (n : ℕ) (p : String) (seen : List (String × ℕ)) → above n (seen ++ (p, n) ∷ []) ≡ above n seen
unfolding above
above_last n p seen = ground (arith, above-append n seen ((p, n) ∷ []))

Known-next :
    (previous : Option ℕ) (rank : ℕ) (p : String) (n : ℕ) (seen rest : List (String × ℕ))
    → IsFalling ((p, n) ∷ rest)
    → Known previous rank seen ((p, n) ∷ rest)
    → Known (some n) (rank_at (length seen) rank previous n) (seen ++ (p, n) ∷ []) rest
unfolding Known IsFalling AtMost AtLeast above
Known-next previous rank p n seen rest (most, f) k = (
  least previous k,
  most,
  rank_at_lem previous rank p n seen rest k ∙ ap suc (sym (above_last n p seen)),
)
  where
    least :
        (previous : Option ℕ)
        → Known previous rank seen ((p, n) ∷ rest)
        → AtLeast n (seen ++ (p, n) ∷ [])
    least none e = rw e (omega arith, tt)
    least (some m) (l, (h, a), known) = AtLeast-snoc m n p seen h l

IsFalling-head :
    (p : String) (n : ℕ) (rest : List (String × ℕ))
    → IsFalling ((p, n) ∷ rest)
    → AtMost n rest × IsFalling rest
unfolding IsFalling
IsFalling-head p n rest h = h

above_here :
    (n : ℕ) (p : String) (seen rest : List (String × ℕ))
    → AtMost n rest
    → above n (seen ++ (p, n) ∷ rest) ≡ above n seen
unfolding above
above_here n p seen rest most =
    ground (arith, above-append n seen ((p, n) ∷ rest), above_none n rest most)

rankings_from-AreRanks :
    (previous : Option ℕ) (rank : ℕ) (seen rest : List (String × ℕ))
    → IsFalling rest
    → Known previous rank seen rest
    → AreRanks (seen ++ rest) (rankings_from (length seen) rank previous rest)
unfolding AreRanks rankings_from
rankings_from-AreRanks previous rank seen [] f k = tt
rankings_from-AreRanks previous rank seen ((p, n) ∷ rest) f k =
    let next = Known-next previous rank p n seen rest f k in
    let (most, falling) = IsFalling-head p n rest f in
    let later =
      rankings_from-AreRanks (some n) (rank_at (length seen) rank previous n) (seen ++ (p, n) ∷ [])
        rest falling next in
    (
      rank_at_lem previous rank p n seen rest k ∙ ap suc (sym (above_here n p seen rest most)),
      rw (append_assoc seen ((p, n) ∷ []) rest, length-append seen ((p, n) ∷ [])) at later,
    )

AreRanks-perm :
    (xs ys : List (String × ℕ)) (rankings : List Ranking)
    → Permᴰ xs ys
    → AreRanks xs rankings
    → AreRanks ys rankings
unfolding AreRanks
AreRanks-perm xs ys [] p h = tt
AreRanks-perm xs ys (r ∷ rest) p (e, h) =
    (e ∙ ap suc (above-perm r.total p), AreRanks-perm xs ys rest p h)

unfoldable pub entries : List Ranking → List (String × ℕ)
entries rankings = map (λ r. (r.player_id, r.total)) rankings

entries-rankings_from :
    (index rank : ℕ) (previous : Option ℕ) (xs : List (String × ℕ))
    → entries (rankings_from index rank previous xs) ≡ xs
unfolding entries rankings_from
entries-rankings_from index rank previous [] = refl
entries-rankings_from index rank previous ((p, n) ∷ rest) =
    ap (λ more. (p, n) ∷ more)
      (entries-rankings_from (index + 1) (rank_at index rank previous n) (some n) rest)

Known-start : (xs : List (String × ℕ)) → Known none 0 [] xs
unfolding Known
Known-start xs = refl

-- The ranking lists everybody with his total once, in an order in which the totals do not rise, and the
-- rank of each is one more than the number of players who have more, so that equal totals share a
-- rank and the next one skips as many.
pub rank_totals_lem :
    (totals : List (String × ℕ))
    → Permᴰ (entries (rank_totals totals)) totals
      × IsFalling (entries (rank_totals totals))
      × AreRanks totals (rank_totals totals)
unfolding rank_totals
rank_totals_lem totals =
    let same = entries-rankings_from 0 0 none (sorted totals) in
    (
      rw same (sorted-perm totals),
      rw same (sorted-IsFalling totals),
      AreRanks-perm (sorted totals) totals (rankings_from 0 0 none (sorted totals))
          (sorted-perm totals)
          (rankings_from-AreRanks none 0 [] (sorted totals) (sorted-IsFalling totals)
            (Known-start (sorted totals))),
    )
