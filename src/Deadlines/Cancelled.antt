-- ===== src/Deadlines/Cancelled.antt =====
-- A room that waits for nothing runs nothing, until it is scheduled again.
use mathlib.Core.Path.{subst}
use yorr.Prelude.{
  ℕ, ◌+◌, ◌-◌, String, ◌≡◌, refl, sym, ◌∙◌, inl, inr, Bool, true, false, not, ◌&&◌, Option, none,
  some, List, [], ◌∷◌, Dict, lookup, insert, delete, every, keep, str_eq, str_eq→eq, eqb, eq_refl,
  leb, if◌then◌else◌, is_blank, arith, Bool-cases, Option-cases,
}
use yorr.Deadlines.Scheduler.{
  Slot, Task, Scheduler, initial, cancel_quietly, run_if_current, attach, reserve, schedule,
  drop_slot, cancel, cancel_room, cancel_all, stop, nth, Call, schedules, cancels, cancels_room,
  stops, fires, apply, run,
}
use yorr.Deadlines.Slots.{
  current, generation_of, quiet, current-insert, current-delete, current-attach,
}
use yorr.Deadlines.Calls.{IsSound, only_slots, current_found, run-IsSound}

-- The tasks of a room that have run.
abbrev pub ran_of : String → List Task → List Task
ran_of r tasks = keep (λ t. str_eq t.room_id r) tasks

abbrev pub is_other : String → Call → Bool
is_other r (schedules room_id round_number deadline now inline) = not (str_eq room_id r)
is_other r (cancels room_id round_number) = true
is_other r (cancels_room room_id) = true
is_other r stops = true
is_other r (fires index) = true

module _ (r : String) where
  -- The room waits for nothing, and these are the tasks of it that have run.
  abbrev IsIdle : List Task → Scheduler → Type 0
  IsIdle done s = (current s r ≡ none) × (ran_of r s.ran ≡ done)

  -- A task that runs is of a room that waits for it.
  elsewhere :
      (s : Scheduler) (t : Task) (slot : Slot)
      → current s r ≡ none
      → lookup t.room_id s.scheduled_rounds ≡ some slot
      → str_eq t.room_id r ≡ false
  elsewhere s t slot none_here there = elim (Bool-cases (str_eq t.room_id r)) [
    | inr other ↦ other
    | inl same ↦
        let found = current_found s t.room_id slot there in
        let nothing : current s t.room_id ≡ none =
          subst (λ q. current s q ≡ none) (sym (str_eq→eq t.room_id r same)) none_here in
        ground (arith, found, nothing)
  ]

  module _ {done : List Task} where
    cancel_quietly-IsIdle :
        (slot : Option Slot) (s : Scheduler) → IsIdle done s → IsIdle done (cancel_quietly slot s)
    unfolding current
    cancel_quietly-IsIdle slot s v = subst (IsIdle done) (sym (quiet slot s)) v

    delete-IsIdle :
        (s : Scheduler) (q : String)
        → IsIdle done s
        → IsIdle done (record s { scheduled_rounds = delete q s.scheduled_rounds })
    delete-IsIdle s q v = (ground (arith, v.0, current-delete s q r), v.1)

    drop_slot-IsIdle :
        (s : Scheduler) (q : String) (slot : Slot)
        → IsIdle done s
        → IsIdle done (drop_slot s q slot)
    unfolding drop_slot
    drop_slot-IsIdle s q slot v =
        cancel_quietly-IsIdle (some slot)
          (record s { scheduled_rounds = delete q s.scheduled_rounds }) (delete-IsIdle s q v)

    cancel-IsIdle :
        (s : Scheduler) (q : String) (n : ℕ) → IsIdle done s → IsIdle done (cancel s q n)
    unfolding cancel
    cancel-IsIdle s q n v = elim (Option-cases (lookup q s.scheduled_rounds)) [
      | inl none_yet ↦ rw (none_yet, cancel) v
      | inr (slot, there) ↦ elim (Bool-cases (eqb slot.round_number n)) [
        | inl same ↦ rw (there, cancel) (rw same (drop_slot-IsIdle s q slot v))
        | inr other ↦ rw (there, cancel) (rw other v)
      ]
    ]

    cancel_room-IsIdle :
        (s : Scheduler) (q : String) → IsIdle done s → IsIdle done (cancel_room s q)
    unfolding cancel_room
    cancel_room-IsIdle s q v = elim (Option-cases (lookup q s.scheduled_rounds)) [
      | inl none_yet ↦ rw (none_yet, cancel_room) v
      | inr (slot, there) ↦ rw (there, cancel_room) (drop_slot-IsIdle s q slot v)
    ]

    run_if_current-IsIdle :
        (s : Scheduler) (t : Task) → IsIdle done s → IsIdle done (run_if_current s t)
    unfolding run_if_current current
    run_if_current-IsIdle s t v = elim (Option-cases (lookup t.room_id s.scheduled_rounds)) [
      | inl none_yet ↦ rw (none_yet, run_if_current) v
      | inr (slot, there) ↦
          elim (Bool-cases
            (eqb slot.round_number t.round_number && eqb slot.generation t.generation)) [
              | inr other ↦ rw (there, run_if_current) (rw other v)
              | inl same ↦
                  let away = elsewhere s t slot v.0 there in
                  rw (there, run_if_current)
                    (rw same ((delete-IsIdle s t.room_id v).0, rw away v.1))
            ]
    ]

    attach-IsIdle :
        (s : Scheduler) (q : String) (g : ℕ) → IsIdle done s → IsIdle done (attach s q g)
    unfolding current
    attach-IsIdle s q g v =
        subst (IsIdle done) (sym (only_slots s q g)) (current-attach s q g r ∙ v.0, v.1)

    reserve-IsIdle :
        (s : Scheduler) (q : String) (n d : ℕ)
        → str_eq q r ≡ false
        → IsIdle done s
        → IsIdle done (reserve s q n d)
    unfolding reserve current
    reserve-IsIdle s q n d other v =
        let slot : Slot = record {
          round_number = n;
          generation = s.generations + 1;
          timeout = none;
        } in
        let taken : Scheduler = record s {
          scheduled_rounds = insert q slot s.scheduled_rounds;
          generations = s.generations + 1;
        } in
        let still : IsIdle done taken = (current-insert s q slot r ∙ rw other v.0, v.1) in
        cancel_quietly-IsIdle (lookup q s.scheduled_rounds) taken still

    handed-IsIdle :
        (s : Scheduler) (t : Task) (inline : Bool)
        → IsIdle done s
        → IsIdle done (if inline then run_if_current s t else s)
    handed-IsIdle s t true v = run_if_current-IsIdle s t v
    handed-IsIdle s t false v = v

    schedules-IsIdle :
        (s : Scheduler) (q : String) (n deadline now : ℕ) (inline : Bool)
        → str_eq q r ≡ false
        → IsIdle done s
        → IsIdle done (apply s (schedules q n deadline now inline))
    unfolding apply schedule
    schedules-IsIdle s q n deadline now inline other v = elim (Bool-cases (is_blank q)) [
      | inl blank ↦ rw (blank, apply) v
      | inr named ↦ elim (Bool-cases (leb 1 n)) [
        | inr none_yet ↦ rw (named, none_yet, apply) v
        | inl counted ↦
            rw (named, counted, apply)
              (attach-IsIdle _ q (s.generations + 1) (
                handed-IsIdle (reserve s q n (deadline - now)) _ inline
                  (reserve-IsIdle s q n (deadline - now) other v)))
      ]
    ]

    cancel_all-IsIdle :
        (m : Dict Slot) (s : Scheduler) → IsIdle done s → IsIdle done (cancel_all m s)
    unfolding cancel_all
    cancel_all-IsIdle [] s v = v
    cancel_all-IsIdle ((q, slot) ∷ rest) s v =
        cancel_all-IsIdle rest (cancel_quietly (some slot) s)
          (cancel_quietly-IsIdle (some slot) s v)

    stop-IsIdle : (s : Scheduler) → IsIdle done s → IsIdle done (stop s)
    unfolding stop current generation_of lookup
    stop-IsIdle s v = (refl, (cancel_all-IsIdle s.scheduled_rounds s v).1)

    apply-IsIdle :
        (s : Scheduler) (c : Call) → is_other r c ≡ true → IsIdle done s → IsIdle done (apply s c)
    unfolding apply
    apply-IsIdle s (schedules q n deadline now inline) other v =
        schedules-IsIdle s q n deadline now inline (ground arith) v
    apply-IsIdle s (cancels q n) other v = cancel-IsIdle s q n v
    apply-IsIdle s (cancels_room q) other v = cancel_room-IsIdle s q v
    apply-IsIdle s stops other v = stop-IsIdle s v
    apply-IsIdle s (fires index) other v = elim (Option-cases (nth s.given index)) [
      | inl nothing ↦ rw (nothing, apply) v
      | inr (t, given) ↦ rw (given, apply) (run_if_current-IsIdle s t v)
    ]

    run-IsIdle :
        (s : Scheduler) (calls : List Call)
        → every (is_other r) calls ≡ true
        → IsIdle done s
        → IsIdle done (run s calls)
    unfolding run
    run-IsIdle s [] others v = v
    run-IsIdle s (c ∷ rest) others v =
        run-IsIdle (apply s c) rest (ground arith) (apply-IsIdle s c (ground arith) v)

  nothing_found : (s : Scheduler) → lookup r s.scheduled_rounds ≡ none → current s r ≡ none
  unfolding current generation_of
  nothing_found s e = rw e refl

  cancelled_room : (s : Scheduler) → IsIdle (ran_of r s.ran) (cancel_room s r)
  unfolding cancel_room drop_slot
  cancelled_room s = elim (Option-cases (lookup r s.scheduled_rounds)) [
    | inl none_yet ↦ rw (none_yet, cancel_room) (nothing_found s none_yet, refl)
    | inr (slot, there) ↦
        rw (there, cancel_room)
          (cancel_quietly-IsIdle (some slot)
            (record s { scheduled_rounds = delete r s.scheduled_rounds })
            (ground (arith, current-delete s r r, eq_refl r), refl))
  ]

-- Whatever was called before and whenever the executor runs the tasks that it was handed, cancelled ones and
-- the same one again included: no reservation has run twice, and the one that a room waits for is the last
-- that was made for it and has not run. And once a room is cancelled, none of its tasks runs through all that
-- follows, if that does not schedule the room.
pub cancel_room_lem :
    (before after : List Call) (r : String)
    → every (is_other r) after ≡ true
    → let s = run initial before in
      IsSound s × (ran_of r (run (cancel_room s r) after).ran ≡ ran_of r s.ran)
cancel_room_lem before after r others =
    let s = run initial before in
    (run-IsSound before, (run-IsIdle r (cancel_room s r) after others (cancelled_room r s)).1)
