-- ===== src/Duel/Round.antt =====
-- duelRound.ts: the verdict on the reactions of one round.
use yorr.Prelude.{
  ℕ, ◌+◌, ◌-◌, String, ℤ, pos, leb_ℤ, ltb_ℤ, eqb_ℤ, true, false, ◌&&◌, Option, none, some, Dict,
  insert, leb, ltb, if◌then◌else◌, Result, ok, ◌>>=◌,
}
use yorr.Duel.Types.{
  Round, RoundKind, State, result, at, sides, foul, miss, max_fouls, tie_hold_millis,
  result_hold_millis, ko_hold_millis,
}

-- 0, 1 and 2 of the source
pub data Winner : Type 0 where
  nobody first_wins second_wins : Winner

unfoldable pub compare_draw : ℤ → ℤ → Winner
compare_draw a b =
    if leb_ℤ (pos 0) a && leb_ℤ (pos 0) b
    then if eqb_ℤ a b then nobody else if ltb_ℤ a b then first_wins else second_wins
    else if leb_ℤ (pos 0) a
    then first_wins
    else if leb_ℤ (pos 0) b
    then second_wins
    else nobody

unfoldable pub hold : Round → ℕ
hold round =
    if round.over
    then ko_hold_millis
    else elim round.hit_id [ none ↦ tie_hold_millis | some p ↦ result_hold_millis ]

-- A verdict: the round, with the lives and the warnings that it leaves.
pub record Verdict : Type 0 where
  pub round : Round
  pub hp : Dict ℕ
  pub fouls : Dict ℕ

unfoldable pub penalty : State → String → ℕ → Verdict
penalty s foul_id now =
    let count = at s.fouls foul_id 0 + 1 in
    if ltb count max_fouls
    then record {
      round = record {
        number = s.round;
        kind = RoundKind.warning;
        shooter_id = none;
        hit_id = none;
        ko_id = none;
        foul_id = some foul_id;
        over = false;
        at = now;
      };
      hp = s.hp;
      fouls = insert foul_id count s.fouls;
    }
    else record {
      round = record {
        number = s.round;
        kind = RoundKind.self_shot;
        shooter_id = none;
        hit_id = some foul_id;
        ko_id = some foul_id;
        foul_id = some foul_id;
        over = true;
        at = now;
      };
      hp = insert foul_id (at s.hp foul_id 0 - 1) s.hp;
      fouls = insert foul_id count s.fouls;
    }

unfoldable pub shot : State → String → String → ℕ → Verdict
shot s shooter hit now =
    let left = at s.hp hit 0 - 1 in
    record {
      round = record {
        number = s.round;
        kind = RoundKind.shot;
        shooter_id = some shooter;
        hit_id = some hit;
        ko_id = if leb left 0 then some hit else none;
        foul_id = none;
        over = leb left 0;
        at = now;
      };
      hp = insert hit left s.hp;
      fouls = s.fouls;
    }

unfoldable pub shootout : State → Dict ℤ → String → String → ℕ → Verdict
shootout s reactions first second now =
    elim (compare_draw (at reactions first miss) (at reactions second miss)) [
      | nobody ↦ record {
        round = record {
          number = s.round;
          kind = RoundKind.tie;
          shooter_id = none;
          hit_id = none;
          ko_id = none;
          foul_id = none;
          over = false;
          at = now;
        };
        hp = s.hp;
        fouls = s.fouls;
      }
      | first_wins ↦ shot s first second now
      | second_wins ↦ shot s second first now
    ]

unfoldable pub foul_side : Dict ℤ → String → String → Option String
foul_side reactions first second =
    if eqb_ℤ (at reactions first miss) foul
    then some first
    else if eqb_ℤ (at reactions second miss) foul
    then some second
    else none

unfoldable pub verdict : State → Dict ℤ → String → String → ℕ → Verdict
verdict s reactions first second now = elim (foul_side reactions first second) [
  | none ↦ shootout s reactions first second now
  | some foul_id ↦ penalty s foul_id now
]

unfoldable pub settle : State → Dict ℤ → Dict ℤ → ℕ → Verdict → State
settle s last_input_seq reactions now v = record s {
  version = s.version + 1;
  phase = result;
  hp = v.hp;
  fouls = v.fouls;
  reactions = reactions;
  last_input_seq = last_input_seq;
  next_action_at = now + hold v.round;
  last_round = some v.round;
}

unfoldable pub resolve_round : State → Dict ℤ → Dict ℤ → ℕ → Result State
resolve_round s last_input_seq reactions now = do
  (first, second) ← sides s.player_order
  ok (settle s last_input_seq reactions now (verdict s reactions first second now))
