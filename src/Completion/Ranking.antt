-- ===== src/Completion/Ranking.antt =====
-- gameResultCalculator.ts. Scores are natural numbers, so the test for negative or fractional ones has
-- nothing to refuse. Texts are compared by code points, as the identifiers of players are ASCII.
use Prim.Native.Nat.{Ordering}
use Prim.Native.String.{compare}
use yorr.Prelude.{
  ℕ, ◌+◌, String, Bool, true, false, not, Option, none, some, List, [], ◌∷◌, ◌++◌, map, length,
  includes, is_blank, ltb, eqb, if◌then◌else◌, Result, ok, err, ◌>>=◌, ◌>>◌, require,
}
use yorr.Score.Category.{counts}
use yorr.Score.Counts.{entry}

pub record Ranking : Type 0 where
  pub rank : ℕ
  pub player_id : String
  pub total : ℕ

pub record PlayerScore : Type 0 where
  pub player_id : String
  pub final_score : ℕ

pub record PlayerResult : Type 0 where
  pub player_id : String
  pub final_score : ℕ
  pub rank : ℕ
  pub winner : Bool
  pub tied : Bool

pub record GameResult : Type 0 where
  pub players : List PlayerResult
  pub is_tie : Bool

-- `byTotalDescThenPlayerId(left, right) <= 0`
unfoldable pub in_order : String × ℕ → String × ℕ → Bool
in_order (left_id, left) (right_id, right) =
    if not (eqb left right)
    then ltb right left
    else elim (compare left_id right_id) [ Ordering.gt ↦ false | _ ↦ true ]

-- `sort`: a stable sort, told by insertion.
unfoldable pub sort_insert : String × ℕ → List (String × ℕ) → List (String × ℕ)
unfolding in_order
sort_insert x [] = x ∷ []
sort_insert x (y ∷ rest) =
    let later = sort_insert x rest in if in_order x y then x ∷ y ∷ rest else y ∷ later

unfoldable pub sorted : List (String × ℕ) → List (String × ℕ)
unfolding sort_insert
sorted [] = []
sorted (x ∷ rest) = sort_insert x (sorted rest)

-- The rank of the entry at `index`, when the last rank given was `rank`, to `previous`.
unfoldable pub rank_at : ℕ → ℕ → Option ℕ → ℕ → ℕ
rank_at index rank none total = index + 1
rank_at index rank (some previous) total = if eqb previous total then rank else index + 1

-- The loop of `rankTotals`.
unfoldable pub rankings_from : ℕ → ℕ → Option ℕ → List (String × ℕ) → List Ranking
unfolding rank_at
rankings_from index rank previous [] = []
rankings_from index rank previous ((player_id, total) ∷ rest) =
    record { rank = rank_at index rank previous total; player_id = player_id; total = total }
    ∷ rankings_from (index + 1) (rank_at index rank previous total) (some total) rest

unfoldable pub rank_totals : List (String × ℕ) → List Ranking
unfolding sorted rankings_from
rank_totals totals = rankings_from 0 0 none (sorted totals)

-- The loop of `validate`, on the identifiers seen so far.
unfoldable pub validate_from : List String → List PlayerScore → Result (Unit {0})
unfolding is_blank
validate_from seen [] = ok tt
validate_from seen (p ∷ rest) =
    let more = validate_from (seen ++ p.player_id ∷ []) rest in
    if is_blank p.player_id
    then err "blank_player"
    else if includes seen p.player_id
    then err "duplicate_player"
    else more

unfoldable pub validate : List PlayerScore → Result (Unit {0})
validate scores = require (not (eqb (length scores) 0)) "no_players" >> validate_from [] scores

-- `counts`: how many players have each score.
unfoldable pub score_counts : List PlayerScore → List (ℕ × ℕ)
unfolding counts
score_counts scores = counts (map (λ p. p.final_score) scores)

unfoldable pub player_result : List (ℕ × ℕ) → Ranking → PlayerResult
unfolding entry
player_result table r = record {
  player_id = r.player_id;
  final_score = r.total;
  rank = r.rank;
  winner = eqb r.rank 1;
  tied = ltb 1 (entry r.total table);
}

unfoldable pub top_score : List PlayerResult → ℕ
top_score [] = 0
top_score (p ∷ rest) = p.final_score

unfoldable pub calculate_game_result : List PlayerScore → Result GameResult
unfolding validate player_result score_counts rank_totals top_score entry
calculate_game_result scores = do
  valid ← validate scores
  let table = score_counts scores
  let players =
      map (player_result table) (rank_totals (map (λ p. (p.player_id, p.final_score)) scores))
  ok (record { players = players; is_tie = ltb 1 (entry (top_score players) table) })
