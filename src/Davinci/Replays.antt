-- ===== src/Davinci/Replays.antt =====
-- Inputs that arrive twice or late: `lastInputSeq` of davinciRules.ts.
use yorr.Prelude.{
  String, ℤ, negsuc, leb_ℤ, ◌≤ℤ◌, ◌≡◌, ◌≢◌, ◌⊎◌, false, List, [], ◌∷◌, arith, lookup_or-insert,
  eq_iff, str_eq, if◌then◌else◌,
}
use yorr.Davinci.Types.{State, at}
use yorr.Davinci.Rules.{
  guess, guess_wrong, guess_right, decide, place, expire, forfeit, forfeit_base, is_stale,
}
use yorr.Davinci.Frames.{
  advance-SameSeats, conclude_turn-SameSeats, place_drawn-SameSeats, timed_out-SameSeats,
}
use yorr.Davinci.Play.{
  Input, guesses, decides, places, player_of, seq_of, accept, Action, inputs, expires, forfeits,
  apply, run,
}

last_seq : State → String → ℤ
last_seq s p = at s.last_input_seq p (negsuc 0)

-- Either nothing happens, or the input's number becomes the last one of its player.
accept-last_seq :
    (s : State) (x : Input) (p : String)
    → (accept s x ≡ s)
      ⊎ ((last_seq (accept s x) p ≡ (if str_eq (player_of x) p then seq_of x else last_seq s p))
          × (leb_ℤ (seq_of x) (last_seq s (player_of x)) ≡ false))
unfolding accept guess guess_wrong guess_right decide place last_seq is_stale
accept-last_seq s (guesses i) p = grind (arith, conclude_turn-SameSeats, lookup_or-insert)
accept-last_seq s (decides i) p = grind (arith, conclude_turn-SameSeats, lookup_or-insert)
accept-last_seq s (places i) p = grind (arith, place_drawn-SameSeats, lookup_or-insert)

-- The last number of a player never falls.
apply-last_seq-le : (s : State) (a : Action) (p : String) → last_seq s p ≤ℤ last_seq (apply s a) p
unfolding apply
apply-last_seq-le s (inputs x) p = ground (arith, accept-last_seq s x p, eq_iff (player_of x) p)
apply-last_seq-le s (expires now) p = unfold expire last_seq in grind (arith, timed_out-SameSeats)
apply-last_seq-le s (forfeits q now) p =
    unfold forfeit forfeit_base last_seq in grind (arith, advance-SameSeats)

run-last_seq-le :
    (s : State) (as' : List Action) (p : String) → last_seq s p ≤ℤ last_seq (run s as') p
unfolding run
run-last_seq-le s [] p = omega arith
run-last_seq-le s (a ∷ rest) p =
    omega (arith, apply-last_seq-le s a p, run-last_seq-le (apply s a) rest p)

accept_stale : (s : State) (x : Input) → seq_of x ≤ℤ last_seq s (player_of x) → accept s x ≡ s
unfolding accept guess decide place last_seq is_stale
accept_stale s (guesses i) h = ground arith
accept_stale s (decides i) h = ground arith
accept_stale s (places i) h = ground arith

-- Once an input has changed the game, an input of the same player with the same or a lower number is
-- ignored, whatever has happened in between.
pub accept_replayed :
    (s : State) (x y : Input) (rest : List Action)
    → accept s x ≢ s
    → player_of y ≡ player_of x
    → seq_of y ≤ℤ seq_of x
    → accept (run (accept s x) rest) y ≡ run (accept s x) rest
accept_replayed s x y rest moved same low = accept_stale (run (accept s x) rest) y (
    rw same (
      ground (
        arith,
        accept-last_seq s x (player_of x),
        eq_iff (player_of x) (player_of x),
        run-last_seq-le (accept s x) rest (player_of x),
      )))
