-- ===== src/Round/Calls.antt =====
-- Which calls roundState.ts accepts, and what the accepted ones do.
use yorr.Prelude.{
  ℕ, zero, suc, ◌+◌, ◌<◌, ◌≡◌, ◌⊎◌, ◌↔◌, inl, inr, refl, String, Bool, true, false, ◌&&◌, Option,
  none, some, List, [], ◌∷◌, length, get_elem?, every, includes, Dict, insert, lookup,
  lookup-insert, eqb, str_eq, eq_iff, eq_refl, if◌then◌else◌, ok, arith, Bool-cases, Option-cases,
}
use yorr.Round.Types.{State, Submission, Completion, Advanced, none_held}
use yorr.Round.Contracts.{
  restore, is_die, same_dice, validate_held, validate_dice, merge_rolled_dice, keep_held,
}
use yorr.Round.Rules.{
  active_player_id, validate_current_player, record_roll, auto_roll, submit, advance_turn,
  complete_round, holds_some, is_none, submitted,
}
use yorr.Round.Valid.{IsRolled, not_yet, rolled, IsValid}
use yorr.Round.Departures.{active_of, no_entry}

same_dice→eq : (left right : List ℕ) → same_dice left right ≡ true → left ≡ right
unfolding same_dice
same_dice→eq [] [] e = refl
same_dice→eq [] (y ∷ right) e = cc
same_dice→eq (x ∷ left) [] e = cc
same_dice→eq (x ∷ left) (y ∷ right) e =
    let first : x ≡ y = ground arith in rw (first, same_dice→eq left right (ground arith)) refl

includes_entry :
    (order : List String) (i : ℕ) (p : String)
    → get_elem? order i ≡ some p
    → includes order p ≡ true
includes_entry [] i p e = ground arith
includes_entry (q ∷ order) zero p e = ground (arith, eq_iff q p)
includes_entry (q ∷ order) (suc i) p e = ground (arith, includes_entry order i p)

-- A call is let through if and only if the game is on, it names the current round, and the caller has
-- the turn.
pub validate_current_player_lem :
    (s : State) (p : String) (n : ℕ)
    → (validate_current_player s p n ≡ ok tt)
      ↔ ((s.finished ≡ false) × (n ≡ s.round_number) × (active_player_id s ≡ ok p))
unfolding validate_current_player active_player_id
validate_current_player_lem s p n =
    elim (Option-cases (get_elem? s.participant_order s.active_player_index)) [
      | inl nobody ↦ (ground arith, ground arith)
      | inr (q, active) ↦
          let seated = includes_entry s.participant_order s.active_player_index q active in
          (ground (arith, eq_iff q p), ground (arith, eq_iff q p))
    ]

-- Of the dice of a later roll, those under a mark are the earlier ones, and the others the new ones.
keep_held-entries :
    (previous dice : List ℕ) (held : List Bool) (i : ℕ) (mark : Bool)
    → length previous ≡ length dice
    → length held ≡ length dice
    → get_elem? held i ≡ some mark
    → get_elem? (keep_held previous dice held) i
      ≡ (if mark then get_elem? previous i else get_elem? dice i)
unfolding keep_held
keep_held-entries [] [] [] i mark e f h = ground arith
keep_held-entries (x ∷ previous) (y ∷ dice) (b ∷ held) zero mark e f h = ground arith
keep_held-entries (x ∷ previous) (y ∷ dice) (b ∷ held) (suc i) mark e f h =
    keep_held-entries previous dice held i mark (ground arith) (ground arith) h
keep_held-entries [] [] (b ∷ held) i mark e f h = ground arith
keep_held-entries [] (y ∷ dice) held i mark e f h = ground arith
keep_held-entries (x ∷ previous) [] held i mark e f h = ground arith
keep_held-entries (x ∷ previous) (y ∷ dice) [] i mark e f h = ground arith

-- The marks that the server's roll keeps to.
abbrev pub marks_or : Option (List Bool) → List Bool
marks_or marks = elim marks [ none ↦ none_held | some held ↦ held ]

abbrev pub marks_of : State → List Bool
marks_of s = marks_or s.active_held

IsRolled-marks :
    {n : ℕ} {dice : Option (List ℕ)} {marks : Option (List Bool)}
    → IsRolled n dice marks
    → (length (marks_or marks) ≡ 5) × ((is_none dice && holds_some (marks_or marks)) ≡ false)
unfolding is_none holds_some
IsRolled-marks not_yet = (refl, refl)
IsRolled-marks (rolled one few five faces marks) = (marks, refl)

active_exists : (s : State) → IsValid s → (p : String) × (active_player_id s ≡ ok p)
unfolding active_player_id
active_exists s v = elim (Option-cases (get_elem? s.participant_order s.active_player_index)) [
  | inl nobody ↦ absurd (no_entry s nobody v)
  | inr (p, active) ↦ (p, active_of s p active)
]

no_mark : (held : List Bool) (i : ℕ) → holds_some held ≡ false → get_elem? held i ≡ some true → ⊥
unfolding holds_some
no_mark [] i none_of h = ground arith
no_mark (b ∷ held) zero none_of h = ground arith
no_mark (b ∷ held) (suc i) none_of h = no_mark held i (ground arith) h

-- Where a die of the next roll comes from: under a mark, from the dice that lay there, and elsewhere
-- from the new ones.
abbrev pub ComesFrom : Option (List ℕ) → List ℕ → List ℕ → ℕ → Bool → Type 0
ComesFrom before dice shown i true =
    (earlier : List ℕ) × (before ≡ some earlier) × (get_elem? shown i ≡ get_elem? earlier i)
ComesFrom before dice shown i false = get_elem? shown i ≡ get_elem? dice i

abbrev pub Keeps : Option (List ℕ) → List Bool → List ℕ → List ℕ → Type 0
Keeps before held dice shown =
    (i : ℕ) (mark : Bool) → get_elem? held i ≡ some mark → ComesFrom before dice shown i mark

IsRolled-Keeps :
    {n : ℕ} {before : Option (List ℕ)} {marks : Option (List Bool)}
    → IsRolled n before marks
    → (dice : List ℕ) → length dice ≡ 5
    → Keeps before (marks_or marks) dice (merge_rolled_dice before dice (marks_or marks))
unfolding merge_rolled_dice holds_some
IsRolled-Keeps not_yet dice five i true h = absurd (no_mark none_held i refl h)
IsRolled-Keeps not_yet dice five i false h = refl
IsRolled-Keeps (rolled {dice = before} {held} one few five_before faces marks) dice five i true h =
    (before, refl, keep_held-entries before dice held i true (ground arith) (ground arith) h)
IsRolled-Keeps (rolled {dice = before} {held} one few five_before faces marks) dice five i false h =
    keep_held-entries before dice held i false (ground arith) (ground arith) h

-- While rolls are left, the server can always roll for whoever has the turn: one roll more is counted,
-- the marks stay, and the dice under them are those that lay there, and the others the new ones.
pub auto_roll_lem :
    (s : State) (dice : List ℕ)
    → IsValid s
    → s.finished ≡ false
    → s.active_roll_count < 3
    → (eqb (length dice) 5 && every is_die dice) ≡ true
    → (t : State) × (auto_roll s dice ≡ ok t)
      × (t.active_roll_count ≡ s.active_roll_count + 1)
      × (t.active_held ≡ some (marks_of s))
      × (shown : List ℕ) × (t.active_dice ≡ some shown)
      × Keeps s.active_dice (marks_of s) dice shown
unfolding auto_roll record_roll validate_held validate_dice restore
auto_roll_lem s dice v playing left five =
    let (p, active) = active_exists s v in
    let valid = (validate_current_player_lem s p s.round_number).1 (playing, refl, active) in
    let (marks, first) = IsRolled-marks v.roll in
    let lo = v.round_from in
    let hi = v.round_to in
    (
      record s {
        active_roll_count = s.active_roll_count + 1;
        active_dice = some (merge_rolled_dice s.active_dice dice (marks_of s));
        active_held = some (marks_of s);
        finished = false;
      },
      ground arith,
      refl,
      refl,
      merge_rolled_dice s.active_dice dice (marks_of s),
      refl,
      IsRolled-Keeps v.roll dice (ground arith),
    )

submit_parts :
    (s : State) (i : Submission) (a : Advanced)
    → submit s i ≡ ok a
    → (validate_current_player s i.player_id i.round_number ≡ ok tt)
      × ((dice : List ℕ) × (s.active_dice ≡ some dice) × (same_dice dice i.dice ≡ true))
      × (lookup i.player_id s.submissions ≡ none)
      × (advance_turn s (insert i.player_id i s.submissions) ≡ ok a)
unfolding submit is_none
submit_parts s i a e = by_dice s.active_dice refl
  where
    by_dice :
        (d : Option (List ℕ))
        → s.active_dice ≡ d
        → (validate_current_player s i.player_id i.round_number ≡ ok tt)
          × ((dice : List ℕ) × (s.active_dice ≡ some dice) × (same_dice dice i.dice ≡ true))
          × (lookup i.player_id s.submissions ≡ none)
          × (advance_turn s (insert i.player_id i s.submissions) ≡ ok a)
    by_dice none f = ground arith
    by_dice (some dice) f = (ground arith, (dice, f, ground arith), ground arith, ground arith)

advance_turn_report :
    (s : State) (submissions : Dict Submission) (a : Advanced)
    → advance_turn s submissions ≡ ok a
    → (a.completed_round ≡ none → a.state.submissions ≡ submissions)
      × ((c : Completion)
          → a.completed_round ≡ some c
          → c.submitted_player_ids ≡ submitted submissions)
unfolding advance_turn complete_round restore
advance_turn_report s submissions a e = (ground arith, (λ c h. ground arith))

includes-submitted :
    (p : String) (i : Submission) (m : Dict Submission)
    → includes (submitted (insert p i m)) p ≡ true
unfolding submitted insert
includes-submitted p i [] = ground (arith, eq_refl p)
includes-submitted p i ((q, j) ∷ m) = elim (Bool-cases (str_eq q p)) [
  | inl e ↦ rw e refl
  | inr e ↦ rw e (includes-submitted p i m)
]

-- An accepted submission is of the player who has the turn and has not submitted in this round, and its
-- dice are the server's. If it ends no round, it is on record beside what the others submitted; if
-- it ends the round, the round's report names him.
pub submit_lem :
    (s : State) (i : Submission) (a : Advanced)
    → submit s i ≡ ok a
    → (active_player_id s ≡ ok i.player_id)
      × (s.active_dice ≡ some i.dice)
      × (lookup i.player_id s.submissions ≡ none)
      × (((a.completed_round ≡ none)
            × ((q : String)
                → lookup q a.state.submissions
                  ≡ (if str_eq i.player_id q then some i else lookup q s.submissions)))
          ⊎ ((c : Completion) × (a.completed_round ≡ some c)
              × (includes c.submitted_player_ids i.player_id ≡ true)))
submit_lem s i a e =
    let (valid, (dice, at_hand, same), fresh, next) = submit_parts s i a e in
    let (playing, current, active) =
      (validate_current_player_lem s i.player_id i.round_number).0 valid in
    let (kept, reported) = advance_turn_report s (insert i.player_id i s.submissions) a next in
    (
      active,
      rw (← same_dice→eq dice i.dice same) at_hand,
      fresh,
      elim (Option-cases a.completed_round) [
        | inl h ↦ inl (h, (λ q. rw (kept h) (lookup-insert i.player_id q i s.submissions)))
        | inr (c, h) ↦
            inr (c, h, rw (reported c h) (includes-submitted i.player_id i s.submissions))
      ],
    )
