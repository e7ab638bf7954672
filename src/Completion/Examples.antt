-- ===== src/Completion/Examples.antt =====
-- Ends of games (backend/src/game/completion), and the theorems at them.
use mathlib.Core.List.{Permᴰ}
use yorr.Prelude.{
  ℕ, String, ◌≡◌, ◌≢◌, ◌↔◌, refl, ◌≤◌, true, false, List, [], ◌∷◌, ok, lookup, is_blank, is_space,
}
use yorr.Score.Counts.{occurs, entry}
use yorr.Score.Category.{counts, counts_from, tally}
use yorr.Score.Confirm.{exists, has_value}
use yorr.Completion.Ranking.{
  PlayerScore, GameResult, in_order, sort_insert, sorted, rank_at, rankings_from, rank_totals,
  validate, validate_from, score_counts, player_result, top_score, calculate_game_result,
}
use yorr.Completion.Ranks.{IsFalling, AreRanks, entries, rank_totals_lem}
use yorr.Completion.Results.{AreFair, scores_of, calculate_game_result-AreFair}
use yorr.Completion.Finish.{
  Store, hkeys, recorded_boxes, is_box, is_complete, finish_if_complete, finish_once, AllHave,
  finish_complete,
}

abbrev totals : List (String × ℕ)
totals = ("dia", 90) ∷ ("ann", 120) ∷ ("cho", 120) ∷ ("bob", 210) ∷ []

rank_totals_example :
    Permᴰ (entries (rank_totals totals)) totals
    × IsFalling (entries (rank_totals totals))
    × AreRanks totals (rank_totals totals)
rank_totals_example = rank_totals_lem totals

ranks :
    rank_totals totals
    ≡ record { rank = 1; player_id = "bob"; total = 210 }
      ∷ record { rank = 2; player_id = "ann"; total = 120 }
      ∷ record { rank = 2; player_id = "cho"; total = 120 }
      ∷ record { rank = 4; player_id = "dia"; total = 90 }
      ∷ []
unfolding rank_totals rankings_from rank_at sorted sort_insert in_order
ranks = refl

abbrev scores : List PlayerScore
scores =
    record { player_id = "ann"; final_score = 120 }
    ∷ record { player_id = "bob"; final_score = 120 }
    ∷ []

abbrev tie_result : GameResult
tie_result = record {
  players =
      record { player_id = "ann"; final_score = 120; rank = 1; winner = true; tied = true }
      ∷ record { player_id = "bob"; final_score = 120; rank = 1; winner = true; tied = true }
      ∷ [];
  is_tie = true;
}

calculates : calculate_game_result scores ≡ ok tie_result
unfolding calculate_game_result validate validate_from is_blank is_space rank_totals rankings_from
    rank_at sorted sort_insert in_order score_counts counts counts_from tally player_result entry
    top_score
calculates = refl

calculate_game_result_example :
    AreFair scores tie_result.players
    × ((tie_result.is_tie ≡ true) ↔ (2 ≤ occurs (top_score tie_result.players) (scores_of scores)))
calculate_game_result_example = calculate_game_result-AreFair scores tie_result calculates

-- A room of one player whose board has two boxes, in a game of two.
abbrev store : Store
store = record {
  room = ("gameId", "G1") ∷ ("phase", "PLAYING") ∷ [];
  players = ("ann", "{}") ∷ [];
  boards = λ p. ("ones", "3") ∷ ("twos", "4") ∷ ("_total", "7") ∷ [];
}

finishes : (finish_if_complete store "G1" false 2).0 ≡ true
unfolding finish_if_complete exists has_value is_complete recorded_boxes is_box lookup
finishes = refl

finish_once_example :
    finish_if_complete (finish_if_complete store "G1" false 2).1 "G1" true 2
    ≡ (false, (finish_if_complete store "G1" false 2).1)
finish_once_example = finish_once store "G1" false 2 finishes "G1" true 2

finish_complete_example : (store.players ≢ []) × AllHave store.boards 2 (hkeys store.players)
finish_complete_example = finish_complete store "G1" 2 finishes
