-- ===== src/Duel/Timeout.antt =====
-- `timeout` of duelGameService.ts, the one clock of a duel, and the final scores of duelProgress.ts.
use yorr.Prelude.{
  ℕ, String, Bool, not, ◌||◌, Option, none, some, [], ◌∷◌, Dict, eqb, str_eq, if◌then◌else◌, Result,
  ok, ◌>>=◌, false,
}
use yorr.Duel.Types.{waiting, signal, result, finished, Round, State, is_finished}
use yorr.Duel.Rules.{light, expire, next_round, finish}

-- `current.lastRound?.over === true`
unfoldable pub is_over : Option Round → Bool
is_over none = false
is_over (some r) = r.over

-- What the clock does in each phase.
unfoldable pub tick : State → ℕ → ℕ → Result State
tick s now wait = elim s.phase [
  | waiting ↦ ok (light s now)
  | signal ↦ expire s now
  | result ↦ ok (if is_over s.last_round then finish s else next_round s now wait)
  | finished ↦ ok s
]

-- `None` is `null`: a deadline of an earlier version, or of a match that is over, does nothing.
unfoldable pub timeout : State → ℕ → ℕ → ℕ → Result (Option State)
timeout s expected_version now wait =
    if not (eqb s.version expected_version) || is_finished s.phase
    then ok none
    else do next ← tick s now wait; ok (some next)

-- `state.lastRound?.koId ?? null`
unfoldable pub fallen : Option Round → Option String
fallen none = none
fallen (some r) = r.ko_id

unfoldable pub score : Option String → String → ℕ → ℕ
score none player_id remaining = remaining
score (some ko) player_id remaining = if str_eq player_id ko then 0 else remaining

-- The scores that `changed` writes when a match is finished.
unfoldable pub final_scores : Option String → Dict ℕ → Dict ℕ
unfolding score
final_scores ko [] = []
final_scores ko ((player_id, remaining) ∷ rest) =
    (player_id, score ko player_id remaining) ∷ final_scores ko rest
