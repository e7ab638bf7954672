-- ===== src/Round/Ends.antt =====
-- The end of a turn in roundState.ts: `advanceTurn`, by which `submit` and `expire` end, keeps the
-- invariant of `RoundState`.
use yorr.Prelude.{
  ◌+◌, ◌≡◌, inl, inr, true, false, none, [], length, Dict, insert, leb, ltb, ok, arith, Bool-cases,
}
use yorr.Round.Types.{State, Submission}
use yorr.Round.Contracts.{restore}
use yorr.Round.Rules.{submit, expire, advance_turn, complete_round}
use yorr.Round.Valid.{not_yet, IsValid, advanced}

-- The end of a round: the last one ends the game, and any other opens the next.
complete_round-IsValid :
    (s : State) (submissions : Dict Submission) (t : State)
    → advanced (complete_round s submissions) ≡ ok t
    → IsValid s
    → IsValid t
unfolding advanced complete_round restore
complete_round-IsValid s submissions t e v = elim (Bool-cases (leb s.total_rounds s.round_number)) [
  | inl over ↦
      let next : t ≡ record s {
        submissions = submissions;
        active_roll_count = 0;
        active_dice = none;
        active_held = none;
        finished = true;
      } =
        ground arith in
      rw next
        (record { round_from = v.round_from; round_to = v.round_to; turn = v.turn; roll = not_yet })
  | inr more ↦
      let next : t ≡ record s {
        round_number = s.round_number + 1;
        submissions = [];
        active_player_index = 0;
        active_roll_count = 0;
        active_dice = none;
        active_held = none;
        finished = false;
      } =
        ground arith in
      let turn = v.turn in
      rw next (record {
        round_from = omega arith;
        round_to = ground arith;
        turn = omega arith;
        roll = not_yet;
      })
]

pub advance_turn-IsValid :
    (s : State) (submissions : Dict Submission) (t : State)
    → advanced (advance_turn s submissions) ≡ ok t
    → IsValid s
    → IsValid t
unfolding advanced advance_turn restore
advance_turn-IsValid s submissions t e v =
    elim (Bool-cases (ltb (s.active_player_index + 1) (length s.participant_order))) [
      | inl more ↦
          let next : t ≡ record s {
            submissions = submissions;
            active_player_index = s.active_player_index + 1;
            active_roll_count = 0;
            active_dice = none;
            active_held = none;
            finished = false;
          } =
            ground arith in
          rw next (record {
            round_from = v.round_from;
            round_to = v.round_to;
            turn = ground arith;
            roll = not_yet;
          })
      | inr last ↦ complete_round-IsValid s submissions t (ground arith) v
    ]

pub submit-advance :
    (s : State) (i : Submission) (t : State)
    → advanced (submit s i) ≡ ok t
    → advanced (advance_turn s (insert i.player_id i s.submissions)) ≡ ok t
unfolding submit advanced
submit-advance s i t e = ground arith

pub expire-advance :
    (s : State) (t : State)
    → advanced (expire s) ≡ ok t
    → advanced (advance_turn s s.submissions) ≡ ok t
unfolding expire advanced
expire-advance s t e = ground arith
