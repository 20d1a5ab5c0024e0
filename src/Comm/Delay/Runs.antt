-- ===== src/Comm/Delay/Runs.antt =====
-- Concrete runs of the delayed requests: the theorems at one input.
use py_legacy.Common.{◌≡◌, refl, false, not, some, [], ◌∷◌, ◌++◌}
use py_legacy.Utils.UniqueDeque.{has}
use py_legacy.Protocol.Scope.{engine}
use py_legacy.Comm.Delay.{
  TrackedEvent, DelayHandler, filter, has_id, enter, schedule, taken, take_due, fire, is_to_delete,
  cancel_delayed_requests,
}
use py_legacy.Comm.Delay.Reached.{
  started, Reach, start, step, schedules, takes, cancel-queue, fire-cancel,
}

-- Two steps of the speed of engine 12.
abbrev first : TrackedEvent
first = record { id = 1; due = 5; tmcc_id = 12; scope = engine; command = 3; is_kept = false }

abbrev second : TrackedEvent
second = record first { id = 2; due = 8 }

abbrev one_scheduled : DelayHandler
one_scheduled = schedule first started

abbrev both_scheduled : DelayHandler
both_scheduled = schedule second one_scheduled

abbrev first_taken : DelayHandler
first_taken = take_due 6 both_scheduled

one_scheduled-Reach : Reach one_scheduled
unfolding has has_id
one_scheduled-Reach = step started one_scheduled start (
    schedules first started (record {
      not_cached = refl;
      not_queued = refl;
      not_ran = refl;
      not_canceled = refl;
      not_underway = tt;
    }))

both_scheduled-Reach : Reach both_scheduled
unfolding has has_id schedule enter
both_scheduled-Reach = step one_scheduled both_scheduled one_scheduled-Reach (
    schedules second one_scheduled (record {
      not_cached = refl;
      not_queued = refl;
      not_ran = refl;
      not_canceled = refl;
      not_underway = tt;
    }))

first_taken-Reach : Reach first_taken
first_taken-Reach = step both_scheduled first_taken both_scheduled-Reach (takes 6 both_scheduled)

cancel-queue_example :
    let d' = cancel_delayed_requests 12 (some engine) [] both_scheduled in
    (d'.queue ≡ filter (λ e. not (is_to_delete 12 (some engine) [] e)) both_scheduled.queue)
    × (d'.sent ≡ both_scheduled.sent)
cancel-queue_example = cancel-queue 12 (some engine) [] both_scheduled both_scheduled-Reach

fire-cancel_example :
    (fire (cancel_delayed_requests 12 (some engine) [] first_taken)).sent
    ≡ first_taken.sent ++ first ∷ []
unfolding take_due taken schedule enter
fire-cancel_example = fire-cancel 12 (some engine) [] first_taken first first_taken-Reach refl
