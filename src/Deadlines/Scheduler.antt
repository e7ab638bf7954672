-- ===== src/Deadlines/Scheduler.antt =====
-- deadlineScheduler.ts: `InMemoryRoundDeadlineScheduler`. The executor is handed tasks and asked to cancel
-- them; it may run any task that it was handed at any time, and nothing is assumed of when, whether or how
-- often it does. An executor may also run a task before `schedule` returns.
use yorr.Prelude.{
  ℕ, ◌+◌, ◌-◌, String, Bool, not, ◌&&◌, Option, none, some, List, [], ◌∷◌, Dict, lookup, insert,
  delete, eqb, leb, if◌then◌else◌, is_blank, Result, ok, err, require, ◌>>◌,
}

-- `ScheduledRound`; the handle of a timeout is the number of its generation.
pub record Slot : Type 0 where
  pub round_number : ℕ
  pub generation : ℕ
  pub timeout : Option ℕ

-- What the executor is handed.
pub record Task : Type 0 where
  pub room_id : String
  pub round_number : ℕ
  pub generation : ℕ
  pub delay_ms : ℕ

-- The fields of the class, and what has gone out: the tasks handed to the executor, the handles cancelled,
-- and the tasks whose action has been started, the last one first.
pub record Scheduler : Type 0 where
  pub scheduled_rounds : Dict Slot
  pub generations : ℕ
  pub given : List Task
  pub cancelled : List ℕ
  pub ran : List Task

abbrev pub initial : Scheduler
initial = record { scheduled_rounds = []; generations = 0; given = []; cancelled = []; ran = [] }

unfoldable pub cancel_quietly : Option Slot → Scheduler → Scheduler
cancel_quietly none s = s
cancel_quietly (some slot) s = elim slot.timeout [
  | none ↦ s
  | some handle ↦ record s { cancelled = handle ∷ s.cancelled }
]

unfoldable pub run_if_current : Scheduler → Task → Scheduler
run_if_current s t = elim (lookup t.room_id s.scheduled_rounds) [
  | none ↦ s
  | some slot ↦
      if eqb slot.round_number t.round_number && eqb slot.generation t.generation
      then record s { scheduled_rounds = delete t.room_id s.scheduled_rounds; ran = t ∷ s.ran }
      else s
]

-- The handle is kept if the slot is still that of this generation.
unfoldable pub attach : Scheduler → String → ℕ → Scheduler
attach s room_id generation = elim (lookup room_id s.scheduled_rounds) [
  | none ↦ s
  | some slot ↦
      if eqb slot.generation generation
      then record s {
        scheduled_rounds =
            insert room_id (record slot { timeout = some generation }) s.scheduled_rounds;
      }
      else s
]

-- The slot is taken before the executor is handed the task.
unfoldable pub reserve : Scheduler → String → ℕ → ℕ → Scheduler
unfolding cancel_quietly
reserve s room_id round_number delay_ms =
    let generation = s.generations + 1 in
    let slot : Slot = record {
      round_number = round_number;
      generation = generation;
      timeout = none;
    } in
    let task : Task = record {
      room_id = room_id;
      round_number = round_number;
      generation = generation;
      delay_ms = delay_ms;
    } in
    let taken = cancel_quietly (lookup room_id s.scheduled_rounds) (record s {
      scheduled_rounds = insert room_id slot s.scheduled_rounds;
      generations = generation;
    }) in
    record taken { given = task ∷ taken.given }

-- `inline`: the executor runs the task before it returns.
unfoldable pub schedule : Scheduler → String → ℕ → ℕ → ℕ → Bool → Result Scheduler
unfolding reserve run_if_current attach
schedule s room_id round_number deadline now inline = do
  require (not (is_blank room_id)) "roomId must not be blank"
  require (leb 1 round_number) "roundNumber must be at least 1"
  let generation = s.generations + 1
  let delay_ms = deadline - now
  let handed = reserve s room_id round_number delay_ms
  let task : Task = record {
    room_id = room_id;
    round_number = round_number;
    generation = generation;
    delay_ms = delay_ms;
  }
  ok (attach (if inline then run_if_current handed task else handed) room_id generation)

unfoldable pub drop_slot : Scheduler → String → Slot → Scheduler
unfolding cancel_quietly
drop_slot s room_id slot =
    cancel_quietly (some slot) (record s { scheduled_rounds = delete room_id s.scheduled_rounds })

unfoldable pub cancel : Scheduler → String → ℕ → Scheduler
unfolding drop_slot
cancel s room_id round_number = elim (lookup room_id s.scheduled_rounds) [
  | none ↦ s
  | some slot ↦ if eqb slot.round_number round_number then drop_slot s room_id slot else s
]

unfoldable pub cancel_room : Scheduler → String → Scheduler
unfolding drop_slot
cancel_room s room_id = elim (lookup room_id s.scheduled_rounds) [
  | none ↦ s
  | some slot ↦ drop_slot s room_id slot
]

unfoldable pub cancel_all : Dict Slot → Scheduler → Scheduler
unfolding cancel_quietly
cancel_all [] s = s
cancel_all ((room_id, slot) ∷ rest) s = cancel_all rest (cancel_quietly (some slot) s)

unfoldable pub stop : Scheduler → Scheduler
unfolding cancel_all
stop s = record (cancel_all s.scheduled_rounds s) { scheduled_rounds = [] }

unfoldable pub nth : List Task → ℕ → Option Task
nth [] n = none
nth (t ∷ rest) n = let later = nth rest (n - 1) in if eqb n 0 then some t else later

pub data Call : Type 0 where
  schedules : (room_id : String) (round_number deadline now : ℕ) (inline : Bool) → Call
  cancels : (room_id : String) (round_number : ℕ) → Call
  cancels_room : (room_id : String) → Call
  stops : Call
  -- The executor runs one of the tasks that it was handed.
  fires : (index : ℕ) → Call

unfoldable pub apply : Scheduler → Call → Scheduler
unfolding schedule cancel cancel_room stop nth run_if_current
apply s (schedules room_id round_number deadline now inline) =
    elim (schedule s room_id round_number deadline now inline) [ ok t ↦ t | err code ↦ s ]
apply s (cancels room_id round_number) = cancel s room_id round_number
apply s (cancels_room room_id) = cancel_room s room_id
apply s stops = stop s
apply s (fires index) = elim (nth s.given index) [ none ↦ s | some t ↦ run_if_current s t ]

unfoldable pub run : Scheduler → List Call → Scheduler
unfolding apply
run s [] = s
run s (c ∷ rest) = run (apply s c) rest
