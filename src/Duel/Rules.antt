-- ===== src/Duel/Rules.antt =====
-- duelRules.ts: the signal, the draws, the clock and a departure.
use yorr.Prelude.{
  ℕ, ◌+◌, ◌-◌, String, ℤ, pos, negsuc, leb_ℤ, ltb_ℤ, eqb_ℤ, pos_part, Bool, true, false, not, ◌||◌,
  none, some, List, [], ◌∷◌, Dict, insert, lookup, length, includes, min, eqb, str_eq,
  if◌then◌else◌, Result, ok, err, ◌>>=◌,
}
use yorr.Duel.Types.{
  waiting, signal, finished, RoundKind, State, is_finished, is_waiting, is_signal, is_result, at,
  sides, foul, miss, max_hp, grace_millis, freeze_millis,
}
use yorr.Duel.Round.{resolve_round}

unfoldable pub fill {ℓ} : {V : Type ℓ} → V → List String → Dict V → Dict V
fill v [] m = m
fill v (p ∷ rest) m = fill v rest (insert p v m)

unfoldable pub initial_state : List String → ℕ → ℕ → Result State
unfolding fill
initial_state players now wait =
    if not (eqb (length players) 2)
    then err "duel_requires_two_players"
    else ok (record {
      version = 1;
      phase = waiting;
      player_order = players;
      hp = fill max_hp players [];
      fouls = fill 0 players [];
      reactions = [];
      last_input_seq = fill (negsuc 0) players [];
      round = 1;
      signal_at = 0;
      next_action_at = now + wait;
      last_round = none;
    })

unfoldable pub light : State → ℕ → State
light s now = if not (is_waiting s.phase) then s else record s {
  version = s.version + 1;
  phase = signal;
  signal_at = now;
  next_action_at = now + freeze_millis;
  last_round = none;
}

pub record DrawInput : Type 0 where
  pub player_id : String
  pub input_seq : ℤ
  pub reported_ms : ℤ
  pub now : ℕ

-- The reaction that is written down: the reported time, cut off at the time that has passed.
unfoldable pub judged : State → DrawInput → ℤ
judged s i =
    if is_waiting s.phase || ltb_ℤ i.reported_ms (pos 0)
    then foul
    else pos (min (pos_part i.reported_ms) (i.now - s.signal_at))

unfoldable pub has_reaction : State → String → Bool
has_reaction s player_id = elim (lookup player_id s.reactions) [ none ↦ false | some r ↦ true ]

unfoldable pub draw : State → DrawInput → Result State
draw s i =
    if not (includes s.player_order i.player_id)
    then ok s
    else if leb_ℤ i.input_seq (at s.last_input_seq i.player_id (negsuc 0))
    then ok s
    else let seqs = insert i.player_id i.input_seq s.last_input_seq in
      if not (is_waiting s.phase || is_signal s.phase) || has_reaction s i.player_id
      then ok (record s { version = s.version + 1; last_input_seq = seqs })
      else let reactions = insert i.player_id (judged s i) s.reactions in
        if eqb_ℤ (judged s i) foul || eqb (length reactions) (length s.player_order)
        then resolve_round s seqs reactions i.now
        else ok (record s {
          version = s.version + 1;
          reactions = reactions;
          last_input_seq = seqs;
          next_action_at = min s.next_action_at (i.now + grace_millis);
          last_round = none;
        })

-- Who has not drawn is written down as frozen.
unfoldable pub freeze : List String → Dict ℤ → Dict ℤ
freeze [] reactions = reactions
freeze (p ∷ rest) reactions =
    freeze rest (elim (lookup p reactions) [ none ↦ insert p miss reactions | some r ↦ reactions ])

unfoldable pub expire : State → ℕ → Result State
expire s now =
    if not (is_signal s.phase)
    then ok s
    else resolve_round s s.last_input_seq (freeze s.player_order s.reactions) now

unfoldable pub next_round : State → ℕ → ℕ → State
next_round s now wait = elim s.last_round [
  | none ↦ s
  | some r ↦ if not (is_result s.phase) then s else if r.over then s else record s {
    version = s.version + 1;
    phase = waiting;
    reactions = [];
    round = s.round + 1;
    signal_at = 0;
    next_action_at = now + wait;
    last_round = none;
  }
]

unfoldable pub finish : State → State
finish s = elim s.last_round [
  | none ↦ s
  | some r ↦
      if not (is_result s.phase)
      then s
      else if not r.over
      then s
      else record s { version = s.version + 1; phase = finished; next_action_at = 0 }
]

unfoldable pub walk_over : State → String → String → ℕ → State
walk_over s player_id survivor now = record s {
  version = s.version + 1;
  phase = finished;
  hp = insert player_id 0 s.hp;
  reactions = [];
  signal_at = 0;
  next_action_at = 0;
  last_round = some (record {
    number = s.round;
    kind = RoundKind.forfeit;
    shooter_id = some survivor;
    hit_id = some player_id;
    ko_id = some player_id;
    foul_id = none;
    over = true;
    at = now;
  });
}

-- `playerOrder.indexOf(playerId) === 0`
unfoldable pub is_first : List String → String → Bool
is_first [] player_id = false
is_first (p ∷ rest) player_id = str_eq p player_id

unfoldable pub forfeit : State → String → ℕ → Result State
forfeit s player_id now =
    if is_finished s.phase || not (includes s.player_order player_id) then ok s else do
      (first, second) ← sides s.player_order
      ok (walk_over s player_id (if is_first s.player_order player_id then second else first) now)
