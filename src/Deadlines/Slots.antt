-- ===== src/Deadlines/Slots.antt =====
-- The generation that each room's slot has, under the steps of the scheduler.
use yorr.Prelude.{
  ℕ, String, ◌≡◌, refl, sym, ◌∙◌, inl, inr, true, Option, none, some, lookup, insert, delete,
  lookup-insert, lookup-delete, str_eq, str_eq→eq, eqb, if◌then◌else◌, Bool-cases, Option-cases,
}
use yorr.Deadlines.Scheduler.{Slot, Scheduler, cancel_quietly, attach}

unfoldable pub generation_of : Option Slot → Option ℕ
generation_of none = none
generation_of (some slot) = some slot.generation

unfoldable pub current : Scheduler → String → Option ℕ
unfolding generation_of
current s room_id = generation_of (lookup room_id s.scheduled_rounds)

-- A cancelled handle changes nothing else.
pub quiet :
    (slot : Option Slot) (s : Scheduler)
    → cancel_quietly slot s ≡ record s { cancelled = (cancel_quietly slot s).cancelled }
unfolding cancel_quietly
quiet none s = refl
quiet (some slot) s = elim (Option-cases slot.timeout) [
  | inl none_yet ↦ rw none_yet refl
  | inr (handle, kept) ↦ rw kept refl
]

pub current-insert :
    (s : Scheduler) (r : String) (slot : Slot) (j : String)
    → current (record s { scheduled_rounds = insert r slot s.scheduled_rounds }) j
      ≡ (if str_eq r j then some slot.generation else current s j)
unfolding current generation_of
current-insert s r slot j =
    rw (lookup-insert r j slot s.scheduled_rounds)
      (elim (Bool-cases (str_eq r j)) [ inl here ↦ rw here refl | inr there ↦ rw there refl ])

pub current-delete :
    (s : Scheduler) (r : String) (j : String)
    → current (record s { scheduled_rounds = delete r s.scheduled_rounds }) j
      ≡ (if str_eq r j then none else current s j)
unfolding current generation_of
current-delete s r j =
    rw (lookup-delete r j s.scheduled_rounds)
      (elim (Bool-cases (str_eq r j)) [ inl here ↦ rw here refl | inr there ↦ rw there refl ])

current_here :
    (s : Scheduler) (r j : String) (slot : Slot)
    → lookup r s.scheduled_rounds ≡ some slot
    → str_eq r j ≡ true
    → current s j ≡ some slot.generation
unfolding current generation_of
current_here s r j slot e here = rw (← str_eq→eq r j here) (rw e refl)

pub current-attach :
    (s : Scheduler) (r : String) (g : ℕ) (j : String) → current (attach s r g) j ≡ current s j
unfolding attach
current-attach s r g j = elim (Option-cases (lookup r s.scheduled_rounds)) [
  | inl none_yet ↦ rw (none_yet, attach) refl
  | inr (slot, taken) ↦ elim (Bool-cases (eqb slot.generation g)) [
    | inr other ↦ rw (taken, attach) (rw other refl)
    | inl same ↦
        rw (taken, attach)
          (rw same (
            current-insert s r (record slot { timeout = some g }) j
            ∙ (elim (Bool-cases (str_eq r j)) [
              | inr there ↦ rw there refl
              | inl here ↦ rw here (sym (current_here s r j slot taken here))
            ])))
  ]
]
