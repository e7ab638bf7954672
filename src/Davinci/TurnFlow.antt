-- ===== src/Davinci/TurnFlow.antt =====
-- davinciTurnFlow.ts: how a turn ends, and who plays next.
use yorr.Prelude.{
  ℕ, zero, suc, ◌+◌, ◌%◌, String, ℤ, pos, negsuc, pos_part, ltb_ℤ, eqb_ℤ, ◌+ℤ◌, Bool, true, false,
  not, ◌&&◌, ◌||◌, none, some, List, [], ◌∷◌, ◌++◌, insert, length, get_elem?, head?, tail, find,
  includes, leb, eqb, str_eq, if◌then◌else◌,
}
use yorr.Davinci.Types.{
  guessing, placing, finished, Tile, State, joker, guess_millis, place_millis, hand_of, survivors,
  is_placing, is_guessing,
}
use yorr.Davinci.Tiles.{insert_index_of, insert_at, hidden_tiles}

-- `indexOf`: -1 when the value is not there.
unfoldable pub index_from : ℕ → List String → String → ℤ
index_from i [] a = negsuc 0
index_from i (x ∷ xs) a = if str_eq x a then pos i else index_from (i + 1) xs a

abbrev pub index_of : List String → String → ℤ
index_of xs a = index_from 0 xs a

-- The loop `for (let step = …; step <= playerOrder.length; step += 1)` with `left` rounds to go.
unfoldable pub next_seat : ℕ → ℕ → ℤ → List String → List String → String → String
next_seat zero step seat order alive current = current
next_seat (suc left) step seat order alive current =
    let rest = next_seat left (step + 1) seat order alive current in
    elim (get_elem? order (pos_part (seat +ℤ pos step) % length order)) [
      | none ↦ rest
      | some candidate ↦ if includes alive candidate then candidate else rest
    ]

-- `wiped && !eliminated.includes(current) ? [...eliminated, current] : eliminated`
unfoldable pub eliminate_wiped : State → List String
eliminate_wiped s =
    if eqb (length (hidden_tiles (hand_of s s.turn_player_id))) 0
      && not (includes s.eliminated s.turn_player_id)
    then s.eliminated ++ s.turn_player_id ∷ []
    else s.eliminated

unfoldable pub next_player : State → List String → String
next_player s alive =
    next_seat (length s.player_order) 1 (index_of s.player_order s.turn_player_id) s.player_order
      alive s.turn_player_id

unfoldable pub advance : State → ℕ → State
advance s now =
    let out = eliminate_wiped s in
    let alive = survivors s.player_order out in
    if leb (length alive) 1
    then record s {
      phase = finished;
      eliminated = out;
      winner_id = head? alive;
      next_action_at = 0;
    }
    else record s {
      phase = guessing;
      turn_player_id = next_player s alive;
      eliminated = out;
      deck = tail s.deck;
      drawn = head? s.deck;
      turn = s.turn + 1;
      next_action_at = now + guess_millis;
    }

-- `hand.map((tile) => (tile.id === id ? { ...tile, revealed: true } : tile))`
unfoldable pub reveal_tile : String → List Tile → List Tile
reveal_tile id [] = []
reveal_tile id (t ∷ ts) =
    (if str_eq t.id id then record t { revealed = true } else t) ∷ reveal_tile id ts

-- The turn of a player who could not draw: a wrong guess shows the leftmost hidden tile instead.
unfoldable pub conclude_empty : State → Bool → ℕ → State
conclude_empty s false now = advance s now
conclude_empty s true now = elim (find (λ t. not t.revealed) (hand_of s s.turn_player_id)) [
  | none ↦ advance s now
  | some target ↦
      advance
        (record s {
          hands =
              insert s.turn_player_id (reveal_tile target.id (hand_of s s.turn_player_id)) s.hands;
        })
        now
]

unfoldable pub conclude_drawn : State → Tile → ℕ → State
conclude_drawn s tile now =
    if eqb_ℤ tile.number joker
    then record s { phase = placing; drawn = some tile; next_action_at = now + place_millis }
    else advance
        (record s {
          hands =
              insert s.turn_player_id
                (insert_at (hand_of s s.turn_player_id) tile
                  (insert_index_of (hand_of s s.turn_player_id) tile))
                s.hands;
          drawn = none;
        })
        now

unfoldable pub conclude_turn : State → Bool → ℕ → State
conclude_turn s reveal now = elim s.drawn [
  | none ↦ conclude_empty s reveal now
  | some drawn ↦ conclude_drawn s (if reveal then record drawn { revealed = true } else drawn) now
]

unfoldable pub place_drawn : State → ℤ → ℕ → State
place_drawn s index now = elim s.drawn [
  | none ↦ s
  | some drawn ↦
      if ltb_ℤ index (pos 0) || ltb_ℤ (pos (length (hand_of s s.turn_player_id))) index
      then s
      else advance
          (record s {
            hands =
                insert s.turn_player_id
                  (insert_at (hand_of s s.turn_player_id) drawn (pos_part index)) s.hands;
            drawn = none;
          })
          now
]

unfoldable pub timed_out : State → ℕ → State
timed_out s now =
    if not (is_placing s.phase)
    then conclude_turn s (is_guessing s.phase) now
    else let placed = place_drawn s (pos (length (hand_of s s.turn_player_id))) now in
      if is_placing placed.phase then advance (record s { drawn = none }) now else placed
