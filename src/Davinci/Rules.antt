-- ===== src/Davinci/Rules.antt =====
-- davinciRules.ts: the inputs of the players, the deadline and a departure.
use yorr.Prelude.{
  ℕ, ◌+◌, String, ℤ, negsuc, leb_ℤ, eqb_ℤ, Bool, true, false, not, ◌||◌, none, some, List, [], ◌∷◌,
  ◌++◌, insert, length, head?, find, includes, leb, eqb, str_eq, if◌then◌else◌,
}
use yorr.Davinci.Types.{
  guessing, deciding, finished, Tile, EventKind, Event, State, at, hand_of, survivors,
  decide_millis, guess_millis, is_guessing, is_deciding, is_placing, is_finished,
}
use yorr.Davinci.Tiles.{is_guessable_number, hidden_tiles}
use yorr.Davinci.TurnFlow.{reveal_tile, advance, conclude_turn, place_drawn, timed_out}

pub record GuessInput : Type 0 where
  pub player_id : String
  pub input_seq : ℤ
  pub target_id : String
  pub tile_id : String
  pub number : ℤ
  pub now : ℕ

unfoldable pub guess_event : State → GuessInput → Bool → Event
guess_event s i correct = record {
  kind = EventKind.guess;
  actor_id = s.turn_player_id;
  target_id = some i.target_id;
  tile_id = some i.tile_id;
  number = some i.number;
  correct = correct;
  at = i.now;
}

-- `inputSeq <= at(lastInputSeq, playerId, -1)`: an input that was already handled.
unfoldable pub is_stale : State → String → ℤ → Bool
is_stale s player_id input_seq = leb_ℤ input_seq (at s.last_input_seq player_id (negsuc 0))

abbrev pub with_seq : State → String → ℤ → State
with_seq s player_id input_seq = record s {
  last_input_seq = insert player_id input_seq s.last_input_seq;
}

unfoldable pub guess_wrong : State → GuessInput → State
guess_wrong s i =
    let done = conclude_turn (with_seq s i.player_id i.input_seq) true i.now in
    record done { version = s.version + 1; last_event = some (guess_event s i false) }

unfoldable pub eliminate_target : State → String → List Tile → List String
eliminate_target s target_id hand =
    if eqb (length (hidden_tiles hand)) 0 then s.eliminated ++ target_id ∷ [] else s.eliminated

unfoldable pub guess_right : State → GuessInput → State
guess_right s i =
    let hand = reveal_tile i.tile_id (hand_of s i.target_id) in
    let out = eliminate_target s i.target_id hand in
    let alive = survivors s.player_order out in
    let base = record s {
      version = s.version + 1;
      hands = insert i.target_id hand s.hands;
      eliminated = out;
      hits = insert i.player_id (at s.hits i.player_id 0 + 1) s.hits;
      last_input_seq = insert i.player_id i.input_seq s.last_input_seq;
      last_event = some (guess_event s i true);
    } in
    if leb (length alive) 1
    then record base {
      phase = finished;
      winner_id = elim (head? alive) [ none ↦ some i.player_id | some a ↦ some a ];
      next_action_at = 0;
    }
    else record base { phase = deciding; next_action_at = i.now + decide_millis }

unfoldable pub guess : State → GuessInput → State
guess s i =
    if not (is_guessing s.phase) || not (str_eq s.turn_player_id i.player_id)
    then s
    else if is_stale s i.player_id i.input_seq
    then s
    else if str_eq i.target_id i.player_id || not (includes s.player_order i.target_id)
    then s
    else if includes s.eliminated i.target_id
    then s
    else if not (is_guessable_number i.number)
    then s
    else elim (find (λ t. str_eq t.id i.tile_id) (hand_of s i.target_id)) [
      | none ↦ s
      | some tile ↦
          if tile.revealed
          then s
          else if eqb_ℤ tile.number i.number
          then guess_right s i
          else guess_wrong s i
    ]

pub data Decision : Type 0 where
  continue stop : Decision

pub record DecideInput : Type 0 where
  pub player_id : String
  pub input_seq : ℤ
  pub decision : Decision
  pub now : ℕ

unfoldable pub decide : State → DecideInput → State
decide s i =
    if not (is_deciding s.phase) || not (str_eq s.turn_player_id i.player_id)
    then s
    else if is_stale s i.player_id i.input_seq
    then s
    else elim i.decision [
      | continue ↦ record s {
        version = s.version + 1;
        phase = guessing;
        last_input_seq = insert i.player_id i.input_seq s.last_input_seq;
        next_action_at = i.now + guess_millis;
      }
      | stop ↦
          let done = conclude_turn (with_seq s i.player_id i.input_seq) false i.now in
          record done { version = s.version + 1 }
    ]

pub record PlaceInput : Type 0 where
  pub player_id : String
  pub input_seq : ℤ
  pub index : ℤ
  pub now : ℕ

unfoldable pub place : State → PlaceInput → State
place s i =
    if not (is_placing s.phase) || not (str_eq s.turn_player_id i.player_id)
    then s
    else if is_stale s i.player_id i.input_seq
    then s
    else let next = place_drawn (with_seq s i.player_id i.input_seq) i.index i.now in
      if is_placing next.phase then s else record next { version = s.version + 1 }

unfoldable pub expire : State → ℕ → State
expire s now =
    if is_finished s.phase
    then s
    else let next = timed_out s now in
      record next {
        version = s.version + 1;
        last_event = some (record {
          kind = EventKind.timeout;
          actor_id = s.turn_player_id;
          target_id = none;
          tile_id = none;
          number = none;
          correct = false;
          at = now;
        });
      }

-- `handOf(state, playerId).map((tile) => ({ ...tile, revealed: true }))`
unfoldable pub reveal_all : List Tile → List Tile
reveal_all [] = []
reveal_all (t ∷ ts) = record t { revealed = true } ∷ reveal_all ts

-- The state with the hand shown and the player out, before anyone else is given the turn.
unfoldable pub forfeit_base : State → String → ℕ → State
forfeit_base s player_id now = record s {
  version = s.version + 1;
  hands = insert player_id (reveal_all (hand_of s player_id)) s.hands;
  eliminated = s.eliminated ++ player_id ∷ [];
  last_event = some (record {
    kind = EventKind.forfeit;
    actor_id = player_id;
    target_id = none;
    tile_id = none;
    number = none;
    correct = false;
    at = now;
  });
}

unfoldable pub forfeit : State → String → ℕ → State
forfeit s player_id now =
    if is_finished s.phase
    then s
    else if not (includes s.player_order player_id) || includes s.eliminated player_id
    then s
    else let base = forfeit_base s player_id now in
      let alive = survivors s.player_order base.eliminated in
      if leb (length alive) 1
      then record base { phase = finished; winner_id = head? alive; next_action_at = 0 }
      else if not (str_eq s.turn_player_id player_id)
      then base
      else let next = advance (record base { drawn = none }) now in
        record next { version = s.version + 1 }
