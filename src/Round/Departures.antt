-- ===== src/Round/Departures.antt =====
-- `withoutParticipant` of roundState.ts, and the invariant under any history of a game.
use yorr.Prelude.{
  ℕ, zero, suc, ◌+◌, ◌-◌, ◌≤◌, ◌<◌, ◌≡◌, ◌≢◌, ◌⊎◌, inl, inr, refl, sym, ap, ◌∙◌, String, true,
  false, not, ◌||◌, none, some, List, [], ◌∷◌, ◌++◌, length, get_elem?, includes, ltb, str_eq,
  if◌then◌else◌, ok, arith, Bool-cases, Result-cases, Option-cases, str_eq→eq, eq_iff,
}
use yorr.Round.Types.{State}
use yorr.Round.Contracts.{restore, start, immutable_participants, participants_from}
use yorr.Round.Rules.{active_player_id, without_participant, index_of, remove_at}
use yorr.Round.Valid.{
  not_yet, IsValid, Action, rolls, holds, auto_rolls, submits, expires, leaves, apply, run,
  record_roll-IsValid, record_hold-IsValid, auto_roll-IsValid,
}
use yorr.Round.Ends.{advance_turn-IsValid, submit-advance, expire-advance}

get-index_of :
    (order : List String) (p : String)
    → includes order p ≡ true
    → get_elem? order (index_of order p) ≡ some p
unfolding index_of
get-index_of [] p h = ground arith
get-index_of (q ∷ order) p h = elim (Bool-cases (str_eq q p)) [
  | inl e ↦ rw e (rw (str_eq→eq q p e) refl)
  | inr e ↦ rw (e, get-index_of order p (ground arith)) refl
]

index_of_bound :
    (order : List String) (p : String) → includes order p ≡ true → index_of order p < length order
unfolding index_of
index_of_bound [] p h = ground arith
index_of_bound (q ∷ order) p h = ground (arith, index_of_bound order p)

length-remove_at :
    (i : ℕ) (order : List String) → i < length order → length (remove_at i order) + 1 ≡ length order
unfolding remove_at
length-remove_at i [] h = ground arith
length-remove_at zero (p ∷ order) h = ground arith
length-remove_at (suc i) (p ∷ order) h = ground (arith, length-remove_at i order)

get-remove_at_before :
    (i j : ℕ) (order : List String) → j < i → get_elem? (remove_at i order) j ≡ get_elem? order j
unfolding remove_at
get-remove_at_before i j [] h = refl
get-remove_at_before zero j (p ∷ order) h = ground arith
get-remove_at_before (suc i) zero (p ∷ order) h = refl
get-remove_at_before (suc i) (suc j) (p ∷ order) h = get-remove_at_before i j order (ground arith)

get-remove_at_after :
    (i j : ℕ) (order : List String)
    → i ≤ j
    → get_elem? (remove_at i order) j ≡ get_elem? order (suc j)
unfolding remove_at
get-remove_at_after i j [] h = refl
get-remove_at_after zero j (p ∷ order) h = refl
get-remove_at_after (suc i) zero (p ∷ order) h = ground arith
get-remove_at_after (suc i) (suc j) (p ∷ order) h = get-remove_at_after i j order (ground arith)

-- Another entry stays, one place earlier if it stood behind the removed one.
get-remove_at :
    (order : List String) (r i : ℕ) (q : String)
    → r ≢ i
    → r < length order
    → i < length order
    → get_elem? order i ≡ some q
    → let j = if ltb r i then i - 1 else i in
      (get_elem? (remove_at r order) j ≡ some q) × (j < length (remove_at r order))
get-remove_at order r i q ne hr hi at_i = elim (Bool-cases (ltb r i)) [
  | inr e ↦ rw e (
    get-remove_at_before r i order (ground arith) ∙ at_i,
    ground (arith, length-remove_at r order),
  )
  | inl e ↦
      let next : suc (i - 1) ≡ i = ground arith in
      let moved = get-remove_at_after r (i - 1) order (ground arith) in
      rw e (moved ∙ rw next at_i, ground (arith, length-remove_at r order))
]

active_of_entry :
    (s t : State)
    → get_elem? t.participant_order t.active_player_index
      ≡ get_elem? s.participant_order s.active_player_index
    → active_player_id t ≡ active_player_id s
unfolding active_player_id
active_of_entry s t h = ground arith

-- The first entry of a player is taken out of the order.
abbrev pub TakenOut : String → List String → List String → Type 0
TakenOut p order rest =
    (before : List String) × (after : List String) × (order ≡ before ++ p ∷ after)
    × (rest ≡ before ++ after)
    × (includes before p ≡ false)

remove_at-TakenOut :
    (order : List String) (p : String)
    → includes order p ≡ true
    → TakenOut p order (remove_at (index_of order p) order)
unfolding index_of remove_at
remove_at-TakenOut [] p h = ground arith
remove_at-TakenOut (q ∷ order) p h = elim (Bool-cases (str_eq q p)) [
  | inl e ↦
      let same : q ≡ p = str_eq→eq q p e in ([], order, ap (λ x. x ∷ order) same, rw e refl, refl)
  | inr e ↦
      let (before, after, split, rest, first) = remove_at-TakenOut order p (ground arith) in
      (q ∷ before, after, rw split refl, rw (e, rest) refl, rw e first)
]

departure_fields :
    (s t : State) (p q : String)
    → (s.finished || not (includes s.participant_order p)) ≡ false
    → active_player_id s ≡ ok q
    → without_participant s p ≡ ok t
    → let r = index_of s.participant_order p in
      (str_eq q p ≡ false)
      × (t ≡ record s {
        participant_order = remove_at r s.participant_order;
        active_player_index =
            if ltb r s.active_player_index
            then s.active_player_index - 1
            else s.active_player_index;
        finished = false;
      })
unfolding without_participant restore
departure_fields s t p q inside active e = ground arith

pub active_of :
    (s : State) (q : String)
    → get_elem? s.participant_order s.active_player_index ≡ some q
    → active_player_id s ≡ ok q
unfolding active_player_id
active_of s q h = ground arith

get_elem?_some : (i : ℕ) (order : List String) → i < length order → get_elem? order i ≡ none → ⊥
get_elem?_some i [] h e = ground arith
get_elem?_some zero (p ∷ order) h e = ground arith
get_elem?_some (suc i) (p ∷ order) h e = get_elem?_some i order (ground arith) e

pub no_entry :
    (s : State) → get_elem? s.participant_order s.active_player_index ≡ none → IsValid s → ⊥
no_entry s e v = get_elem?_some s.active_player_index s.participant_order v.turn e

-- A departure that succeeds leaves a valid state, keeps the turn with whoever has it, and keeps what was
-- submitted. If the game is on and the player in its order, his first entry is taken out of it, and
-- the other entries stay; otherwise nothing is changed.
pub without_participant-Departed :
    (s t : State) (p : String)
    → IsValid s
    → without_participant s p ≡ ok t
    → IsValid t
      × (active_player_id t ≡ active_player_id s)
      × (t.submissions ≡ s.submissions)
      × ((((s.finished ≡ true) ⊎ (includes s.participant_order p ≡ false)) × (t ≡ s))
          ⊎ ((s.finished ≡ false) × TakenOut p s.participant_order t.participant_order))
unfolding without_participant
without_participant-Departed s t p v e =
    elim (Bool-cases (s.finished || not (includes s.participant_order p))) [
      | inl out ↦
          let same : t ≡ s = ground arith in
          let why : (s.finished ≡ true) ⊎ (includes s.participant_order p ≡ false) =
            elim (Bool-cases s.finished) [ inl over ↦ inl over | inr on ↦ inr (ground arith) ] in
          rw same (v, refl, refl, inl (why, refl))
      | inr inside ↦ elim (Option-cases (get_elem? s.participant_order s.active_player_index)) [
        | inl nobody ↦ absurd (no_entry s nobody v)
        | inr (q, active) ↦
            let there : includes s.participant_order p ≡ true = ground arith in
            let (other, next) = departure_fields s t p q inside (active_of s q active) e in
            let r = index_of s.participant_order p in
            let here = get-index_of s.participant_order p there in
            let bound = index_of_bound s.participant_order p there in
            let differs : r ≢ s.active_player_index = (λ e.
              let clash : some q ≡ some p = sym active ∙ rw (← e) here in
              ground (arith, eq_iff q p)) in
            let (same_active, in_range) =
              get-remove_at s.participant_order r s.active_player_index q differs bound v.turn
                active in
            rw next (
              record {
                round_from = v.round_from;
                round_to = v.round_to;
                turn = in_range;
                roll = v.roll;
              },
              active_of_entry s _ (same_active ∙ sym active),
              refl,
              inr (ground arith, remove_at-TakenOut s.participant_order p there),
            )
      ]
    ]

participants_from_nonempty :
    (copy players order : List String)
    → participants_from copy players ≡ ok order
    → 1 ≤ length order
unfolding participants_from
participants_from_nonempty copy [] order e = ground arith
participants_from_nonempty copy (p ∷ rest) order e =
    ground (arith, participants_from_nonempty (copy ++ p ∷ []) rest order)

start_fields :
    (n : ℕ) (players : List String) (total : ℕ) (s : State)
    → start n players total ≡ ok s
    → (order : List String) × (immutable_participants players ≡ ok order)
      × (1 ≤ n)
      × (n ≤ total)
      × (s ≡ record {
        round_number = n;
        total_rounds = total;
        participant_order = order;
        submissions = [];
        active_player_index = 0;
        active_roll_count = 0;
        active_dice = none;
        active_held = none;
        finished = false;
      })
unfolding start restore
start_fields n players total s e = elim (Result-cases (immutable_participants players)) [
  | inr (why, f) ↦ ground arith
  | inl (order, f) ↦ (order, f, ground arith, ground arith, ground arith)
]

start-IsValid :
    (n : ℕ) (players : List String) (total : ℕ) (s : State)
    → start n players total ≡ ok s
    → IsValid s
unfolding immutable_participants
start-IsValid n players total s e =
    let (order, made, one, within, same) = start_fields n players total s e in
    rw same (record {
      round_from = one;
      round_to = within;
      turn = participants_from_nonempty [] players order made;
      roll = not_yet;
    })

pub apply-IsValid : (s : State) (a : Action) (t : State) → apply s a ≡ ok t → IsValid s → IsValid t
unfolding apply
apply-IsValid s (rolls i) t e v = record_roll-IsValid s i t e v
apply-IsValid s (holds p n held) t e v = record_hold-IsValid s p n held t e v
apply-IsValid s (auto_rolls dice) t e v = auto_roll-IsValid s dice t e v
apply-IsValid s (submits i) t e v = advance_turn-IsValid s _ t (submit-advance s i t e) v
apply-IsValid s expires t e v = advance_turn-IsValid s _ t (expire-advance s t e) v
apply-IsValid s (leaves p) t e v = (without_participant-Departed s t p v e).0

run-IsValid :
    (s : State) (history : List Action) (t : State) → run s history ≡ ok t → IsValid s → IsValid t
unfolding run
run-IsValid s [] t e v = let same : t ≡ s = ground arith in rw same v
run-IsValid s (a ∷ rest) t e v = elim (Result-cases (apply s a)) [
  | inr (why, f) ↦ ground arith
  | inl (u, f) ↦ run-IsValid u rest t (ground arith) (apply-IsValid s a u f v)
]

-- In a game that starts, whatever is rolled, held, submitted, skipped or left in whatever order, as long
-- as no call throws: the round stays between 1 and the limit, the turn is some participant's, and
-- the dice of the turn are five faces with five marks after the first of at most three rolls, and
-- none before it.
pub game-IsValid :
    (n : ℕ) (players : List String) (total : ℕ) (s : State) (history : List Action) (t : State)
    → start n players total ≡ ok s
    → run s history ≡ ok t
    → IsValid t
game-IsValid n players total s history t e f =
    run-IsValid s history t f (start-IsValid n players total s e)
