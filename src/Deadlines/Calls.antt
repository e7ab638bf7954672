-- ===== src/Deadlines/Calls.antt =====
-- Every call of the scheduler, and everything that the executor may do, under the invariant of Once.antt.
use mathlib.Core.Path.{subst}
use yorr.Prelude.{
  ℕ, ◌+◌, ◌-◌, String, ◌≡◌, refl, sym, ap, ◌∙◌, inl, inr, Bool, true, false, ◌&&◌, Option, none,
  some, List, [], ◌∷◌, Dict, lookup, insert, delete, eqb, leb, if◌then◌else◌, is_blank, arith,
  Bool-cases, Option-cases,
}
use yorr.Deadlines.Scheduler.{
  Slot, Task, Scheduler, initial, cancel_quietly, run_if_current, attach, reserve, schedule,
  drop_slot, cancel, cancel_room, cancel_all, stop, nth, Call, schedules, cancels, cancels_room,
  stops, fires, apply, run,
}
use yorr.Deadlines.Slots.{
  current, generation_of, quiet, current-insert, current-delete, current-attach,
}
use yorr.Deadlines.Once.{IsOrderly, fewer, reserved, runs}

abbrev pub IsSound : Scheduler → Type 0
IsSound s = IsOrderly (current s) s.generations s.given s.ran

quietly : (slot : Option Slot) (s : Scheduler) → IsSound s → IsSound (cancel_quietly slot s)
unfolding current
quietly slot s v = subst IsSound (sym (quiet slot s)) v

emptied :
    (s : Scheduler) (r : String)
    → IsSound s
    → IsSound (record s { scheduled_rounds = delete r s.scheduled_rounds })
emptied s r v = fewer v (λ j g e. ground (arith, current-delete s r j))

drop_slot-IsSound :
    (s : Scheduler) (r : String) (slot : Slot) → IsSound s → IsSound (drop_slot s r slot)
unfolding drop_slot
drop_slot-IsSound s r slot v =
    quietly (some slot) (record s { scheduled_rounds = delete r s.scheduled_rounds })
      (emptied s r v)

cancel-IsSound : (s : Scheduler) (r : String) (n : ℕ) → IsSound s → IsSound (cancel s r n)
unfolding cancel
cancel-IsSound s r n v = elim (Option-cases (lookup r s.scheduled_rounds)) [
  | inl none_yet ↦ rw (none_yet, cancel) v
  | inr (slot, there) ↦ elim (Bool-cases (eqb slot.round_number n)) [
    | inl same ↦ rw (there, cancel) (rw same (drop_slot-IsSound s r slot v))
    | inr other ↦ rw (there, cancel) (rw other v)
  ]
]

cancel_room-IsSound : (s : Scheduler) (r : String) → IsSound s → IsSound (cancel_room s r)
unfolding cancel_room
cancel_room-IsSound s r v = elim (Option-cases (lookup r s.scheduled_rounds)) [
  | inl none_yet ↦ rw (none_yet, cancel_room) v
  | inr (slot, there) ↦ rw (there, cancel_room) (drop_slot-IsSound s r slot v)
]

pub current_found :
    (s : Scheduler) (r : String) (slot : Slot)
    → lookup r s.scheduled_rounds ≡ some slot
    → current s r ≡ some slot.generation
unfolding current generation_of
current_found s r slot e = rw e refl

run_if_current-IsSound : (s : Scheduler) (t : Task) → IsSound s → IsSound (run_if_current s t)
unfolding run_if_current current
run_if_current-IsSound s t v = elim (Option-cases (lookup t.room_id s.scheduled_rounds)) [
  | inl none_yet ↦ rw (none_yet, run_if_current) v
  | inr (slot, there) ↦
      elim (Bool-cases (eqb slot.round_number t.round_number && eqb slot.generation t.generation)) [
        | inr other ↦ rw (there, run_if_current) (rw other v)
        | inl same ↦
            let g : slot.generation ≡ t.generation = ground arith in
            rw (there, run_if_current)
              (rw same (
                runs v t (current_found s t.room_id slot there ∙ ap some g)
                  (current-delete s t.room_id)))
      ]
]

pub only_slots :
    (s : Scheduler) (r : String) (g : ℕ)
    → attach s r g ≡ record s { scheduled_rounds = (attach s r g).scheduled_rounds }
unfolding attach
only_slots s r g = elim (Option-cases (lookup r s.scheduled_rounds)) [
  | inl none_yet ↦ rw (none_yet, attach) refl
  | inr (slot, there) ↦ elim (Bool-cases (eqb slot.generation g)) [
    | inl same ↦ rw (there, attach) (rw same refl)
    | inr other ↦ rw (there, attach) (rw other refl)
  ]
]

attach-IsSound : (s : Scheduler) (r : String) (g : ℕ) → IsSound s → IsSound (attach s r g)
unfolding current
attach-IsSound s r g v =
    subst IsSound (sym (only_slots s r g)) (fewer v (λ j h e. sym (current-attach s r g j) ∙ e))

reserve-IsSound : (s : Scheduler) (r : String) (n d : ℕ) → IsSound s → IsSound (reserve s r n d)
unfolding reserve current
reserve-IsSound s r n d v =
    let slot : Slot = record { round_number = n; generation = s.generations + 1; timeout = none } in
    let task : Task = record {
      room_id = r;
      round_number = n;
      generation = s.generations + 1;
      delay_ms = d;
    } in
    let taken : Scheduler = record s {
      scheduled_rounds = insert r slot s.scheduled_rounds;
      generations = s.generations + 1;
    } in
    subst (λ x. IsSound (record x { given = task ∷ x.given }))
      (sym (quiet (lookup r s.scheduled_rounds) taken))
      (reserved v task refl (current-insert s r slot))

handed-IsSound :
    (s : Scheduler) (t : Task) (inline : Bool)
    → IsSound s
    → IsSound (if inline then run_if_current s t else s)
handed-IsSound s t true v = run_if_current-IsSound s t v
handed-IsSound s t false v = v

schedule-IsSound :
    (s : Scheduler) (r : String) (n deadline now : ℕ) (inline : Bool)
    → IsSound s
    → IsSound (apply s (schedules r n deadline now inline))
unfolding apply schedule
schedule-IsSound s r n deadline now inline v = elim (Bool-cases (is_blank r)) [
  | inl blank ↦ rw (blank, apply) v
  | inr named ↦ elim (Bool-cases (leb 1 n)) [
    | inr none_yet ↦ rw (named, none_yet, apply) v
    | inl counted ↦
        rw (named, counted, apply)
          (attach-IsSound _ r (s.generations + 1) (
            handed-IsSound (reserve s r n (deadline - now)) _ inline
              (reserve-IsSound s r n (deadline - now) v)))
  ]
]

cancel_all-IsSound : (m : Dict Slot) (s : Scheduler) → IsSound s → IsSound (cancel_all m s)
unfolding cancel_all
cancel_all-IsSound [] s v = v
cancel_all-IsSound ((r, slot) ∷ rest) s v =
    cancel_all-IsSound rest (cancel_quietly (some slot) s) (quietly (some slot) s v)

stop-IsSound : (s : Scheduler) → IsSound s → IsSound (stop s)
unfolding stop current generation_of lookup
stop-IsSound s v = fewer (cancel_all-IsSound s.scheduled_rounds s v) (λ j g e. cc)

apply-IsSound : (s : Scheduler) (c : Call) → IsSound s → IsSound (apply s c)
unfolding apply
apply-IsSound s (schedules r n deadline now inline) v = schedule-IsSound s r n deadline now inline v
apply-IsSound s (cancels r n) v = cancel-IsSound s r n v
apply-IsSound s (cancels_room r) v = cancel_room-IsSound s r v
apply-IsSound s stops v = stop-IsSound s v
apply-IsSound s (fires index) v = elim (Option-cases (nth s.given index)) [
  | inl nothing ↦ rw (nothing, apply) v
  | inr (t, given) ↦ rw (given, apply) (run_if_current-IsSound s t v)
]

run_from : (s : Scheduler) (calls : List Call) → IsSound s → IsSound (run s calls)
unfolding run
run_from s [] v = v
run_from s (c ∷ rest) v = run_from (apply s c) rest (apply-IsSound s c v)

initial-IsSound : IsSound initial
unfolding current generation_of lookup
initial-IsSound = record {
  once = tt;
  waiting = λ r g e. refl;
  newest = λ r g e. refl;
  apart = λ r q g e f. cc;
  slots_bounded = λ r g e. cc;
  ran_bounded = λ g h. cc;
  given_bounded = refl;
}

pub run-IsSound : (calls : List Call) → IsSound (run initial calls)
run-IsSound calls = run_from initial calls initial-IsSound
