-- ===== src/Davinci/Examples.antt =====
-- Runs of the Da Vinci Code rules (backend/src/game/davinci), and the theorems at these runs.
use yorr.Prelude.{
  ℕ, ◌+◌, String, ℤ, ap, arith, pos, ◌≡◌, refl, ◌≢◌, ◌⊎◌, true, false, none, some, List, [], ◌∷◌,
  Result, ok, err, insert, lookup, lookup_or,
}
use yorr.Davinci.Types.{State, black, white, guessing, finished}
use yorr.Davinci.Tiles.{
  compare_tiles, insert_at, insert_index_of, insert_loop, is_guessable_number, hidden_tiles,
}
use yorr.Davinci.TurnFlow.{
  advance, conclude_drawn, conclude_turn, timed_out, reveal_tile, next_player, eliminate_wiped,
  next_seat, index_of, index_from,
}
use yorr.Davinci.Rules.{
  GuessInput, stop, guess, guess_right, guess_event, is_stale, eliminate_target, decide, expire,
  forfeit, forfeit_base, reveal_all,
}
use yorr.Davinci.Play.{guesses, decides, accept, Action, inputs, expires, forfeits, apply, run}
use yorr.Davinci.Setup.{
  initial_state, deal, shuffle_from, davinci_tiles, faces_from, fill, deal_hands, sort_tiles,
  sort_insert,
}
use yorr.Davinci.View.{to_view, is_viewer}
use yorr.Davinci.Service.{Room, Request, serve_all, halts_after}
use yorr.Davinci.Input.{StartRoster}
use yorr.Davinci.Turns.{InPlay, apply_finished}
use yorr.Davinci.Order.{AllSorted}
use yorr.Davinci.Conservation.{
  Conserves, run-Conserves, count_tiles, count_drawn, LosesDrawn, forfeit_tiles,
}
use yorr.Davinci.Replays.{accept_replayed}
use yorr.Davinci.Deadlines.{HasMoved, expire-HasMoved}
use yorr.Davinci.Versions.{Bumps, apply-Bumps}
use yorr.Davinci.Secrecy.{SameTable, to_view_same}
use yorr.Davinci.Opening.{initial_state_starts, game-InPlay, game_in_order}
use yorr.Davinci.Service.Timers.{IsTimed}
use yorr.Davinci.Service.Requests.{serve_all-IsTimed}

abbrev players : List String
players = "ann" ∷ "bob" ∷ []

abbrev order : List ℕ
order =
    0 ∷ 1 ∷ 2 ∷ 3 ∷ 4 ∷ 5 ∷ 6 ∷ 7 ∷ 8 ∷ 9 ∷ 10 ∷ 11 ∷ 12 ∷ 13 ∷ 14 ∷ 15 ∷ 16 ∷ 17 ∷ 18 ∷ 19 ∷ 20
    ∷ 21 ∷ 22 ∷ 23 ∷ 24 ∷ 25 ∷ []

-- The state that the two are dealt.
started : Result State → State
started (ok s) = s
started (err e) = record {
  version = 0;
  phase = finished;
  player_order = [];
  turn_player_id = "";
  hands = [];
  deck = [];
  drawn = none;
  turn = 0;
  eliminated = [];
  winner_id = none;
  hits = [];
  last_input_seq = [];
  next_action_at = 0;
  last_event = none;
}

table : State
unfolding started
table = started (initial_state players order 1000)

-- Bob's first tile is a black 4, and Ann says so; then she stops.
abbrev right_guess : GuessInput
right_guess = record {
  player_id = "ann";
  input_seq = pos 0;
  target_id = "bob";
  tile_id = "T4";
  number = pos 4;
  now = 2000;
}

abbrev history : List Action
history =
    inputs (guesses right_guess)
    ∷ inputs
        (decides (record { player_id = "ann"; input_seq = pos 1; decision = stop; now = 3000 }))
    ∷ expires 40000
    ∷ forfeits "bob" 50000
    ∷ []

deals : initial_state players order 1000 ≡ ok table
unfolding initial_state table started deal shuffle_from davinci_tiles faces_from deal_hands fill
    sort_tiles sort_insert insert
deals = refl

game-InPlay_example : ((run table history).phase ≡ finished) ⊎ InPlay (run table history)
game-InPlay_example = game-InPlay players order 1000 table history deals

game_in_order_example : AllSorted (run table history).hands
game_in_order_example = game_in_order players order 1000 table history deals

-- The same without the departure.
abbrev stayed : List Action
stayed =
    inputs (guesses right_guess)
    ∷ inputs
        (decides (record { player_id = "ann"; input_seq = pos 1; decision = stop; now = 3000 }))
    ∷ expires 40000
    ∷ []

run-Conserves_example : Conserves table (run table stayed)
run-Conserves_example =
    run-Conserves table stayed (initial_state_starts players order 1000 table deals).2 tt

version_before : table.version ≡ 1
unfolding table started initial_state deal shuffle_from davinci_tiles faces_from deal_hands fill
    sort_tiles sort_insert insert
version_before = refl

version_after : (accept table (guesses right_guess)).version ≡ 2
unfolding accept guess guess_right table started initial_state deal shuffle_from davinci_tiles
    faces_from deal_hands fill sort_tiles sort_insert insert is_stale lookup_or lookup reveal_tile
    eliminate_target hidden_tiles is_guessable_number compare_tiles
version_after = refl

versions-ne : (s t : State) → s.version ≡ 2 → t.version ≡ 1 → s ≢ t
versions-ne s t a b e =
    let f : s.version ≡ t.version = ap (λ (x : State). x.version) e in ground arith

moves : accept table (guesses right_guess) ≢ table
moves = versions-ne (accept table (guesses right_guess)) table version_after version_before

-- The guess of Ann, sent once more after Bob's deadline.
accept_replayed_example :
    accept (run (accept table (guesses right_guess)) (expires 40000 ∷ [])) (guesses right_guess)
    ≡ run (accept table (guesses right_guess)) (expires 40000 ∷ [])
accept_replayed_example =
    accept_replayed table (guesses right_guess) (guesses right_guess) (expires 40000 ∷ []) moves
      refl (omega arith)

plays : table.phase ≢ finished
unfolding table started initial_state deal shuffle_from davinci_tiles faces_from deal_hands fill
    sort_tiles sort_insert insert
plays e = cc

expire-HasMoved_example : HasMoved 31000 (expire table 31000)
expire-HasMoved_example = expire-HasMoved table 31000 plays

over : (run table history).phase ≡ finished
unfolding run apply accept guess guess_right decide conclude_turn conclude_drawn expire timed_out
    forfeit forfeit_base advance next_player next_seat index_of index_from eliminate_wiped
    insert_index_of insert_loop insert_at compare_tiles reveal_all table started initial_state deal
    shuffle_from davinci_tiles faces_from deal_hands fill sort_tiles sort_insert insert is_stale
    lookup_or lookup reveal_tile eliminate_target hidden_tiles is_guessable_number guess_event
over = refl

apply_finished_example :
    apply (run table history) (inputs (guesses right_guess)) ≡ run table history
apply_finished_example = apply_finished (run table history) (inputs (guesses right_guess)) over

apply-Bumps_example : Bumps table (apply table (forfeits "bob" 5000))
apply-Bumps_example = apply-Bumps table (forfeits "bob" 5000)

forfeit_tiles_example :
    (LosesDrawn table "ann"
      × (count_tiles "T4" (forfeit table "ann" 5000) + count_drawn "T4" table.drawn
          ≡ count_tiles "T4" table))
    ⊎ ((¬ LosesDrawn table "ann")
        × (count_tiles "T4" (forfeit table "ann" 5000) ≡ count_tiles "T4" table))
forfeit_tiles_example = forfeit_tiles table "ann" 5000 "T4"

-- A table where Bob hides one tile, whose number may vary.
abbrev hiding : ℤ → State
hiding n = record {
  version = 3;
  phase = guessing;
  player_order = players;
  turn_player_id = "ann";
  hands =
      ("ann", record { id = "T0"; color = black; number = pos 2; revealed = false } ∷ [])
      ∷ ("bob", record { id = "T1"; color = white; number = n; revealed = false } ∷ [])
      ∷ [];
  deck = [];
  drawn = none;
  turn = 2;
  eliminated = [];
  winner_id = none;
  hits = [];
  last_input_seq = [];
  next_action_at = 9000;
  last_event = none;
}

same_for_ann : SameTable (some "ann") (hiding (pos 5)) (hiding (pos 9))
unfolding is_viewer
same_for_ann = record {
  version = refl;
  phase = refl;
  player_order = refl;
  turn_player_id = refl;
  hands = (
    refl,
    (record { id = refl; color = refl; revealed = refl; number = ((λ e. cc), (λ e. refl)) }, tt),
    (
      refl,
      (record { id = refl; color = refl; revealed = refl; number = ((λ e. cc), (λ e. cc)) }, tt),
      tt,
    ),
  );
  deck = refl;
  drawn = tt;
  turn = refl;
  eliminated = refl;
  winner_id = refl;
  hits = refl;
  last_input_seq = refl;
  next_action_at = refl;
  last_event = refl;
}

to_view_same_example : to_view (hiding (pos 5)) (some "ann") ≡ to_view (hiding (pos 9)) (some "ann")
to_view_same_example =
    to_view_same (some "ann") (hiding (pos 5)) (hiding (pos 9)) (λ e. cc) same_for_ann

abbrev roster : StartRoster
roster = record {
  host_id = some "bob";
  players =
      record { player_id = "ann"; kind = "HUMAN" }
      ∷ record { player_id = "bob"; kind = "HUMAN" }
      ∷ [];
}

abbrev empty_room : Room
empty_room = record {
  state = none;
  deadline = none;
  seats =
      record { player_id = "ann"; has_socket = true }
      ∷ record { player_id = "bob"; has_socket = false }
      ∷ [];
}

abbrev requests : List Request
requests =
    Request.starts roster order 1000
    ∷ Request.guesses right_guess
    ∷ Request.fires 31000
    ∷ Request.pauses
    ∷ Request.resumes
    ∷ Request.leaves "bob" 40000
    ∷ []

serve_all-IsTimed_example : IsTimed (halts_after false requests) (serve_all empty_room requests)
serve_all-IsTimed_example = serve_all-IsTimed false empty_room requests tt
