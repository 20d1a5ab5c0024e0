-- ===== src/Comm/Delay/Reached.antt =====
-- Which of the events that wait to be sent a cancellation takes off, in every state that occurs
-- (comm/comm_buffer.py).
use mathlib.Core.Path.{subst}
use py_legacy.Common.{ℕ, ◌≡◌, ap, ◌∙◌, not, Option, none, some, List, [], ◌∷◌, ◌++◌}
use py_legacy.Protocol.Scope.{CommandScope}
use py_legacy.Comm.Delay.{
  TrackedEvent, DelayHandler, filter, schedule, take_due, fire, fired, is_to_delete,
  cancel_delayed_requests, purge_inactive_events,
}
use py_legacy.Comm.Delay.Kept.{
  IsUnderway, IsOrderly, IsFresh, schedule-IsOrderly, take_due-IsOrderly, fired_lem, fire-IsOrderly,
  purge-IsOrderly,
}
use py_legacy.Comm.Delay.Canceled.{cancel_orderly, cancel-rest, cancel-IsOrderly}

-- Any order of the calls of other threads and of what the scheduler does.
pub data Step : DelayHandler → DelayHandler → Type 0 where
  schedules : (e : TrackedEvent) (d : DelayHandler) → IsFresh e d → Step d (schedule e d)
  takes : (now : ℕ) (d : DelayHandler) → Step d (take_due now d)
  fires : (d : DelayHandler) → Step d (fire d)
  cancels :
      (n : ℕ) (s : Option CommandScope) (requests : List ℕ) (d : DelayHandler)
      → Step d (cancel_delayed_requests n s requests d)
  purges : (d : DelayHandler) → Step d (purge_inactive_events d)

abbrev pub started : DelayHandler
started = record {
  queue = [];
  in_flight = none;
  event_cache = [];
  ran = [];
  canceled = [];
  sent = [];
}

pub data Reach : DelayHandler → Type 0 where
  start : Reach started
  step : (d d' : DelayHandler) → Reach d → Step d d' → Reach d'

Step-IsOrderly : (d d' : DelayHandler) → Step d d' → IsOrderly d → IsOrderly d'
Step-IsOrderly d _ (schedules e _ f) o = schedule-IsOrderly e d f o
Step-IsOrderly d _ (takes now _) o = take_due-IsOrderly now d o
Step-IsOrderly d _ (fires _) o = fire-IsOrderly d o
Step-IsOrderly d _ (cancels n s requests _) o = cancel-IsOrderly n s requests d o
Step-IsOrderly d _ (purges _) o = purge-IsOrderly d o

pub Reach-IsOrderly : (d : DelayHandler) → Reach d → IsOrderly d
Reach-IsOrderly _ start = record { waiting = tt; distinct = tt; underway = tt }
Reach-IsOrderly d (step d₀ _ r s) = Step-IsOrderly d₀ d s (Reach-IsOrderly d₀ r)

-- In every state that scheduling, running, cancellations and purges lead to, in any order, a cancellation
-- takes off the queue the events that are for the address and scope, are requested and are not to be
-- kept, and no others; the order of the others stays, and nothing is sent.
pub cancel-queue :
    (n : ℕ) (s : Option CommandScope) (requests : List ℕ) (d : DelayHandler)
    → Reach d
    → let d' = cancel_delayed_requests n s requests d in
      (d'.queue ≡ filter (λ e. not (is_to_delete n s requests e)) d.queue) × (d'.sent ≡ d.sent)
cancel-queue n s requests d reached =
    let (queue, _, _, _, sent) = cancel-rest n s requests d in
    (queue ∙ cancel_orderly n s requests d (Reach-IsOrderly d reached), sent)

fire_underway :
    (e : TrackedEvent) (d : DelayHandler)
    → IsOrderly d
    → d.in_flight ≡ some e
    → (fire d).sent ≡ d.sent ++ e ∷ []
unfolding fire
fire_underway e d o h =
    ap (λ f. (fired f d).sent) h
    ∙ ap (λ (x : DelayHandler). x.sent)
        (fired_lem e d (subst (IsUnderway d.ran d.canceled d.queue) h o.underway))

-- A cancellation comes too late for an event that the scheduler has taken out of its queue and has not
-- yet run: the event is sent, whatever is canceled.
pub fire-cancel :
    (n : ℕ) (s : Option CommandScope) (requests : List ℕ) (d : DelayHandler) (e : TrackedEvent)
    → Reach d
    → d.in_flight ≡ some e
    → (fire (cancel_delayed_requests n s requests d)).sent ≡ d.sent ++ e ∷ []
fire-cancel n s requests d e reached h =
    let (_, _, _, flight, sent) = cancel-rest n s requests d in
    let o = cancel-IsOrderly n s requests d (Reach-IsOrderly d reached) in
    fire_underway e (cancel_delayed_requests n s requests d) o (flight ∙ h)
    ∙ ap (λ es. es ++ e ∷ []) sent
