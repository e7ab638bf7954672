-- ===== src/Duel/Examples.antt =====
-- Runs of the duel rules (backend/src/game/duel), and the theorems at these runs.
use yorr.Prelude.{
  String, ℤ, pos, ◌≡◌, refl, ◌≢◌, ◌⊎◌, inr, true, false, none, some, List, [], ◌∷◌, Dict, ok,
  insert, lookup, lookup_or, arith, eq_iff,
}
use yorr.Duel.Types.{State, signal, result, finished, RoundKind, at, foul, miss, is_finished}
use yorr.Duel.Round.{verdict}
use yorr.Duel.Rules.{forfeit, finish, walk_over, is_first}
use yorr.Duel.Timeout.{timeout, fallen, final_scores, is_over}
use yorr.Duel.Outcome.{BothStand}
use yorr.Duel.Match.{IsMatch, Action, draws, ticks, leaves}
use yorr.Duel.Verdicts.{beats, Shot, Unhurt, verdict_clean}
use yorr.Duel.Scores.{Scores, finish-Scores, forfeit_scores}
use yorr.Duel.Progress.{Progress, verdict-Progress, timeout-Moves}

abbrev ann : String
ann = "ann"

abbrev bob : String
bob = "bob"

ann-bob : ann ≢ bob
ann-bob e = ground (arith, eq_iff ann bob)

abbrev seqs : Dict ℤ
seqs = ("ann", pos 0) ∷ ("bob", pos 0) ∷ []

-- Ann draws after 210 milliseconds, Bob after 340, in the second round, when Bob has one life left.
abbrev reactions : Dict ℤ
reactions = ("ann", pos 210) ∷ ("bob", pos 340) ∷ []

abbrev second_round : State
second_round = record {
  version = 7;
  phase = signal;
  player_order = "ann" ∷ "bob" ∷ [];
  hp = ("ann", 3) ∷ ("bob", 1) ∷ [];
  fouls = ("ann", 0) ∷ ("bob", 1) ∷ [];
  reactions = [];
  last_input_seq = seqs;
  round = 2;
  signal_at = 5000;
  next_action_at = 7600;
  last_round = none;
}

abbrev shot_round : State
shot_round = record second_round {
  version = 8;
  phase = result;
  hp = ("ann", 3) ∷ ("bob", 0) ∷ [];
  reactions = reactions;
  next_action_at = 8240;
  last_round = some (record {
    number = 2;
    kind = RoundKind.shot;
    shooter_id = some "ann";
    hit_id = some "bob";
    ko_id = some "bob";
    foul_id = none;
    over = true;
    at = 5340;
  });
}

abbrev history : List Action
history =
    ticks 2000 1500
    ∷ draws (record { player_id = "ann"; input_seq = pos 0; reported_ms = pos 210; now = 2215 })
    ∷ draws (record { player_id = "bob"; input_seq = pos 0; reported_ms = pos 340; now = 2345 })
    ∷ ticks 4600 1500
    ∷ leaves "bob" 5000
    ∷ []

both_stand : BothStand "ann" "bob" second_round.hp second_round.fouls
unfolding lookup_or lookup
both_stand = record {
  hp_p = omega arith;
  hp_q = omega arith;
  fouls_p = omega arith;
  fouls_q = omega arith;
}

verdict-Progress_example :
    Progress ann bob ann-bob second_round (verdict second_round reactions "ann" "bob" 5340)
verdict-Progress_example = verdict-Progress ann bob ann-bob second_round reactions 5340 both_stand

clean_ann : at reactions "ann" miss ≢ foul
unfolding lookup_or lookup
clean_ann e = cc

clean_bob : at reactions "bob" miss ≢ foul
unfolding lookup_or lookup
clean_bob e = cc

verdict_clean_example :
    let v = verdict second_round reactions "ann" "bob" 5340 in
    let a = at reactions "ann" miss in
    let b = at reactions "bob" miss in
    ((beats a b ≡ true) × Shot second_round v "ann" "bob")
    ⊎ ((beats b a ≡ true) × Shot second_round v "bob" "ann")
    ⊎ ((beats a b ≡ false) × (beats b a ≡ false) × Unhurt second_round v)
verdict_clean_example =
    verdict_clean ann bob ann-bob second_round reactions 5340 clean_ann clean_bob

second-IsMatch : IsMatch ann bob ann-bob second_round
second-IsMatch = record { order = refl; standing = both_stand }

timeout-Moves_example :
    (t : State) × (timeout second_round 7 7600 1500 ≡ ok (some t))
    × (t.version ≡ 8)
    × (timeout t 7 7600 1500 ≡ ok none)
timeout-Moves_example = timeout-Moves ann bob ann-bob second_round 7600 1500 second-IsMatch refl

shot-IsMatch : IsMatch ann bob ann-bob shot_round
unfolding is_over fallen lookup_or lookup
shot-IsMatch = record { order = refl; standing = inr (refl, inr (refl, omega arith)) }

over : is_over shot_round.last_round ≡ true
unfolding is_over
over = refl

finish-Scores_example :
    (is_finished (finish shot_round).phase ≡ true)
    × ((finish shot_round).last_round ≡ shot_round.last_round)
    × ((finish shot_round).hp ≡ shot_round.hp)
    × (Scores ann bob ann-bob (finish shot_round) "ann" "bob"
        ⊎ Scores ann bob ann-bob (finish shot_round) "bob" "ann")
finish-Scores_example = finish-Scores ann bob ann-bob shot_round shot-IsMatch refl over

forfeit_scores_example :
    (t : State) × (forfeit second_round "bob" 6000 ≡ ok t)
    × (is_finished t.phase ≡ true)
    × (at (final_scores (fallen t.last_round) t.hp) "bob" 0 ≡ 0)
    × (at (final_scores (fallen t.last_round) t.hp) "ann" 0 ≡ at second_round.hp "ann" 0)
forfeit_scores_example =
    forfeit_scores ann bob ann-bob second_round "bob" "ann" 6000 second-IsMatch refl
      (inr (refl, refl))

-- If the one who still stands leaves while the other is shown to have fallen, nobody has a point.
left_too_soon :
    forfeit shot_round "ann" 6000
    ≡ ok (record shot_round {
      version = 9;
      phase = finished;
      hp = ("ann", 0) ∷ ("bob", 0) ∷ [];
      reactions = [];
      signal_at = 0;
      next_action_at = 0;
      last_round = some (record {
        number = 2;
        kind = RoundKind.forfeit;
        shooter_id = some "bob";
        hit_id = some "ann";
        ko_id = some "ann";
        foul_id = none;
        over = true;
        at = 6000;
      });
    })
unfolding forfeit insert walk_over is_first
left_too_soon = refl
