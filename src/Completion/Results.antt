-- ===== src/Completion/Results.antt =====
-- The marks of winners and ties of gameResultCalculator.ts.
use yorr.Prelude.{
  ℕ, suc, ◌≤◌, ◌≡◌, ◌↔◌, String, true, List, [], ◌∷◌, map, ltb, arith, inl, inr, ok, Result-cases,
}
use yorr.Score.Counts.{occurs, entry, entry-counts}
use yorr.Completion.Ranking.{
  Ranking, PlayerScore, PlayerResult, GameResult, rank_totals, score_counts, player_result,
  top_score, calculate_game_result, validate,
}
use yorr.Completion.Ranks.{above, AreRanks, rank_totals_lem}

abbrev pub totals_of : List PlayerScore → List (String × ℕ)
totals_of scores = map (λ p. (p.player_id, p.final_score)) scores

abbrev pub scores_of : List PlayerScore → List ℕ
scores_of scores = map (λ p. p.final_score) scores

-- A fair line: the winners are those whom nobody tops, and a tie is a score that somebody else has too.
pub record IsFair (scores : List PlayerScore) (p : PlayerResult) : Type 0 where
  pub rank : p.rank ≡ suc (above p.final_score (totals_of scores))
  pub winner : (p.winner ≡ true) ↔ (above p.final_score (totals_of scores) ≡ 0)
  pub tied : (p.tied ≡ true) ↔ (2 ≤ occurs p.final_score (scores_of scores))

unfoldable pub AreFair : List PlayerScore → List PlayerResult → Type 0
AreFair scores [] = Unit
AreFair scores (p ∷ rest) = IsFair scores p × AreFair scores rest

entry-score_counts :
    (scores : List PlayerScore) (n : ℕ)
    → entry n (score_counts scores) ≡ occurs n (scores_of scores)
unfolding score_counts
entry-score_counts scores n = entry-counts n (scores_of scores)

player_results-AreFair :
    (scores : List PlayerScore) (rankings : List Ranking)
    → AreRanks (totals_of scores) rankings
    → AreFair scores (map (player_result (score_counts scores)) rankings)
unfolding AreRanks AreFair player_result
player_results-AreFair scores [] h = tt
player_results-AreFair scores (r ∷ rest) (e, h) = (
  record {
    rank = e;
    winner = (ground arith, ground arith);
    tied = (
      ground (arith, entry-score_counts scores r.total),
      ground (arith, entry-score_counts scores r.total),
    );
  },
  player_results-AreFair scores rest h,
)

result_of : List PlayerScore → GameResult
result_of scores =
    let players = map (player_result (score_counts scores)) (rank_totals (totals_of scores)) in
    record { players = players; is_tie = ltb 1 (entry (top_score players) (score_counts scores)) }

result_fields :
    (scores : List PlayerScore) (r : GameResult)
    → calculate_game_result scores ≡ ok r
    → r ≡ result_of scores
unfolding calculate_game_result result_of
result_fields scores r e = elim (Result-cases (validate scores)) [
  | inr (why, f) ↦ ground arith
  | inl (u, f) ↦ ground arith
]

-- A result lists fair lines only, and calls the game a tie if and only if the score of its first line is
-- that of two players or more.
pub calculate_game_result-AreFair :
    (scores : List PlayerScore) (r : GameResult)
    → calculate_game_result scores ≡ ok r
    → AreFair scores r.players
      × ((r.is_tie ≡ true) ↔ (2 ≤ occurs (top_score r.players) (scores_of scores)))
unfolding result_of
calculate_game_result-AreFair scores r e = rw (result_fields scores r e) (
  player_results-AreFair scores (rank_totals (totals_of scores))
      (rank_totals_lem (totals_of scores)).2,
  by_count,
)
  where
    top : ℕ
    top = top_score (map (player_result (score_counts scores)) (rank_totals (totals_of scores)))

    by_count :
        (ltb 1 (entry top (score_counts scores)) ≡ true) ↔ (2 ≤ occurs top (scores_of scores))
    by_count = (
      ground (arith, entry-score_counts scores top),
      ground (arith, entry-score_counts scores top),
    )
