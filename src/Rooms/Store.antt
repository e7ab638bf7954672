-- ===== src/Rooms/Store.antt =====
-- The keys of one room (keys.ts) and the hashes behind them.
use Prim.Native.String.{◌++◌}
use yorr.Prelude.{String, List, [], ◌∷◌, str_eq, if◌then◌else◌}
use yorr.Rooms.Hashes.{Hash, gone}

-- The family of a room's hashes, and the hashes of games by their keys.
pub record Store : Type 0 where
  pub room : Hash
  pub players : Hash
  pub scores : Hash
  pub bots : Hash
  pub games : String → Hash

unfoldable pub game_key : String → String
game_key game_id = "game:" ++ game_id

unfoldable pub game_scoreboard_key : String → String → String
unfolding game_key
game_scoreboard_key game_id player_id = game_key game_id ++ ":scoreboard:" ++ player_id

unfoldable pub game_score_submissions_key : String → String → String
unfolding game_key
game_score_submissions_key game_id player_id =
    game_key game_id ++ ":score-submissions:" ++ player_id

abbrev pub put : (String → Hash) → String → Hash → String → Hash
put games k h j = if str_eq k j then h else games j

-- A change of the two hashes that a game keeps for each player.
unfoldable pub each_board : (Hash → Hash) → String → List String → (String → Hash) → String → Hash
unfolding game_scoreboard_key game_score_submissions_key
each_board f game_id [] games = games
each_board f game_id (p ∷ rest) games =
    let board = game_scoreboard_key game_id p in
    let done = put games board (f (games board)) in
    let log = game_score_submissions_key game_id p in
    each_board f game_id rest (put done log (f (done log)))

-- `r.del(room, players, scores, bots)`
abbrev pub delete_family : Store → Store
delete_family s = record s { room = gone; players = gone; scores = gone; bots = gone }
