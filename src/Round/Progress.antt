-- ===== src/Round/Progress.antt =====
-- That the rounds of roundState.ts come to an end, turn by turn.
use yorr.Prelude.{
  ℕ, zero, suc, ◌+◌, ◌-◌, ◌*◌, ◌≤◌, ◌<◌, ◌≡◌, ◌⊎◌, inl, inr, refl, true, false, none, [], length,
  leb, ltb, Result, ok, ◌>>=◌, arith, Bool-cases,
}
use yorr.Round.Types.{State}
use yorr.Round.Contracts.{restore}
use yorr.Round.Rules.{expire, advance_turn, complete_round}
use yorr.Round.Valid.{IsValid, advanced}
use yorr.Round.Ends.{expire-advance, advance_turn-IsValid}

-- The turns that are left, the active one included.
unfoldable pub turns : State → ℕ
turns s =
    (s.total_rounds - s.round_number) * length s.participant_order
    + (length s.participant_order - s.active_player_index)

-- `expire` called so many times.
unfoldable pub expire_times : ℕ → State → Result State
unfolding advanced
expire_times zero s = ok s
expire_times (suc n) s = do t ← advanced (expire s); expire_times n t

-- One round fewer is one turn of everybody fewer.
round_of_turns : (left n : ℕ) → 1 ≤ left → left * n ≡ (left - 1) * n + n
round_of_turns zero n h = ground arith
round_of_turns (suc left) n h = let one : suc left - 1 ≡ left = omega arith in rw one (omega arith)

pub expire-turns :
    (s : State)
    → IsValid s
    → s.finished ≡ false
    → (t : State) × (advanced (expire s) ≡ ok t)
      × ((t.finished ≡ true × turns s ≡ 1) ⊎ (t.finished ≡ false × turns s ≡ suc (turns t)))
unfolding expire advance_turn complete_round restore advanced turns
expire-turns s v playing =
    let lo = v.round_from in
    let hi = v.round_to in
    let turn = v.turn in
    elim (Bool-cases (ltb (s.active_player_index + 1) (length s.participant_order))) [
      | inl more ↦
          let t : State = record s {
            active_player_index = s.active_player_index + 1;
            active_roll_count = 0;
            active_dice = none;
            active_held = none;
            finished = false;
          } in
          (t, ground arith, inr (refl, ground arith))
      | inr last ↦ elim (Bool-cases (leb s.total_rounds s.round_number)) [
        | inl over ↦
            let t : State = record s {
              active_roll_count = 0;
              active_dice = none;
              active_held = none;
              finished = true;
            } in
            let none_left : s.total_rounds - s.round_number ≡ 0 = ground arith in
            (t, ground arith, inl (refl, rw none_left (ground arith)))
        | inr more ↦
            let t : State = record s {
              round_number = s.round_number + 1;
              submissions = [];
              active_player_index = 0;
              active_roll_count = 0;
              active_dice = none;
              active_held = none;
              finished = false;
            } in
            let fewer =
              round_of_turns (s.total_rounds - s.round_number) (length s.participant_order)
                (ground arith) in
            let next : s.total_rounds - (s.round_number + 1) ≡ s.total_rounds - s.round_number - 1 =
              omega arith in
            (t, ground arith, inr (refl, rw next (ground arith)))
      ]
    ]

expire_times-Finishes :
    (n : ℕ) (s : State)
    → IsValid s
    → s.finished ≡ false
    → turns s ≡ n
    → (t : State) × (expire_times n s ≡ ok t) × (t.finished ≡ true) × IsValid t
unfolding expire_times turns
expire_times-Finishes zero s v playing e = let turn = v.turn in ground arith
expire_times-Finishes (suc n) s v playing e =
    let (t, step, either) = expire-turns s v playing in
    let vt = advance_turn-IsValid s s.submissions t (expire-advance s t step) v in
    elim either [
      | inl (over, one) ↦ let last : n ≡ 0 = ground arith in (t, rw (step, last) refl, over, vt)
      | inr (more, fewer) ↦
          let (u, steps, done, vu) = expire_times-Finishes n t vt more (ground arith) in
          (u, rw step steps, done, vu)
    ]

expire_times-Plays :
    (n : ℕ) (s : State)
    → IsValid s
    → s.finished ≡ false
    → n < turns s
    → (t : State) × (expire_times n s ≡ ok t) × (t.finished ≡ false)
unfolding expire_times
expire_times-Plays zero s v playing e = (s, refl, playing)
expire_times-Plays (suc n) s v playing e =
    let (t, step, either) = expire-turns s v playing in
    let vt = advance_turn-IsValid s s.submissions t (expire-advance s t step) v in
    elim either [
      | inl (over, one) ↦ ground arith
      | inr (more, fewer) ↦
          let (u, steps, goes_on) = expire_times-Plays n t vt more (ground arith) in
          (u, rw step steps, goes_on)
    ]

-- A game whose every turn runs out ends after exactly the turns that are left: none of the skips
-- throws, the game is finished after the last of them, and it goes on after fewer.
pub skips_finish :
    (s : State) (fewer : ℕ)
    → IsValid s
    → s.finished ≡ false
    → fewer < turns s
    → ((t : State) × (expire_times (turns s) s ≡ ok t) × (t.finished ≡ true))
      × ((t : State) × (expire_times fewer s ≡ ok t) × (t.finished ≡ false))
skips_finish s fewer v playing before =
    let (t, steps, done, vt) = expire_times-Finishes (turns s) s v playing refl in
    ((t, steps, done), expire_times-Plays fewer s v playing before)
