-- ===== src/Deadlines/Examples.antt =====
-- Runs of the scheduler.
use yorr.Prelude.{◌≡◌, refl, List, [], ◌∷◌, map, lookup, insert, delete, true, false, is_blank}
use yorr.Deadlines.Scheduler.{Call, schedules, fires, initial, Task, run, cancel_room}
use yorr.Deadlines.Calls.{IsSound}
use yorr.Deadlines.Cancelled.{ran_of, cancel_room_lem}

-- A deadline is moved, the old timer fires all the same, then the new one, twice; and another is made.
abbrev before : List Call
before =
    schedules "room" 1 100 0 false
    ∷ schedules "room" 2 200 0 false
    ∷ fires 1
    ∷ fires 0
    ∷ fires 0
    ∷ schedules "room" 3 300 0 false
    ∷ []

abbrev after : List Call
after = fires 0 ∷ schedules "other" 1 100 200 true ∷ fires 1 ∷ []

cancel_room_example :
    IsSound (run initial before)
    × (ran_of "room" (run (cancel_room (run initial before) "room") after).ran
        ≡ ran_of "room" (run initial before).ran)
cancel_room_example = cancel_room_lem before after "room" refl

-- The second reservation has run, once.
ran_before : map (λ (t : Task). t.generation) (run initial before).ran ≡ 2 ∷ []
unfolding run insert lookup delete is_blank
ran_before = refl

-- A deadline that has passed runs at once, before `schedule` returns.
ran_after :
    map (λ (t : Task). t.generation) (run (cancel_room (run initial before) "room") after).ran
    ≡ 4 ∷ 2 ∷ []
unfolding run cancel_room insert lookup delete is_blank
ran_after = refl
