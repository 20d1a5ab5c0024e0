-- ===== src/Comm/Delay.antt =====
-- `DelayHandler` and `TrackedEvent` (comm/comm_buffer.py): requests that are sent later, and their
-- cancellation. An event, a command and a time are numbers; the scheduler of the standard library is a
-- list in the order of time. The sets of the cache, which stand under the address and the scope of their
-- requests, are one list, where an event tells its key. Requests of the PDI and the events that purge
-- the cache are left out of the queue; a purge is a step of its own.
pub mod Events
pub mod Cancel
pub mod Kept
pub mod Canceled
pub mod Reached
mod Runs
use py_legacy.Common.{
  ℕ, zero, suc, Bool, true, false, not, ◌&&◌, ◌||◌, Option, none, some, List, [], ◌∷◌, ◌++◌, ◌==◌,
  ltb, leb, if◌then◌else◌,
}
use py_legacy.Utils.UniqueDeque.{has}
use py_legacy.Protocol.Scope.{CommandScope, engine, train, same_scope}

-- `is_kept` for NUMERIC and RESET, which are not canceled.
pub record TrackedEvent : Type 0 where
  pub id : ℕ
  pub due : ℕ
  pub tmcc_id : ℕ
  pub scope : CommandScope
  pub command : ℕ
  pub is_kept : Bool

-- `in_flight` is the event that the scheduler has taken out of its queue and not yet run.
pub record DelayHandler : Type 0 where
  pub queue : List TrackedEvent
  pub in_flight : Option TrackedEvent
  pub event_cache : List TrackedEvent
  pub ran : List ℕ
  pub canceled : List ℕ
  pub sent : List TrackedEvent

unfoldable pub filter : (TrackedEvent → Bool) → List TrackedEvent → List TrackedEvent
filter test [] = []
filter test (e ∷ es) = let rest = filter test es in if test e then e ∷ rest else rest

unfoldable pub has_id : ℕ → List TrackedEvent → Bool
has_id n [] = false
has_id n (e ∷ es) = n == e.id || has_id n es

-- `scheduler.enter`: behind those that are due at the same time.
unfoldable pub enter : TrackedEvent → List TrackedEvent → List TrackedEvent
enter e [] = e ∷ []
enter e (x ∷ xs) = let rest = enter e xs in if ltb e.due x.due then e ∷ x ∷ xs else x ∷ rest

unfoldable pub schedule : TrackedEvent → DelayHandler → DelayHandler
unfolding enter
schedule e d = record d { queue = enter e d.queue; event_cache = e ∷ d.event_cache }

-- `scheduler.run` takes the first event out, if it is due; it runs one at a time.
unfoldable pub taken : ℕ → List TrackedEvent → Option TrackedEvent → DelayHandler → DelayHandler
taken now (e ∷ es) none d = if leb e.due now then record d { queue = es; in_flight = some e } else d
taken now _ _ d = d

unfoldable pub take_due : ℕ → DelayHandler → DelayHandler
unfolding taken
take_due now d = taken now d.queue d.in_flight d

-- `was_canceled`
abbrev pub was_canceled : DelayHandler → ℕ → Bool
was_canceled d n = has n d.canceled && not (has n d.ran)

-- The wrapper of the action.
unfoldable pub fired : Option TrackedEvent → DelayHandler → DelayHandler
unfolding has
fired none d = d
fired (some e) d =
    if was_canceled d e.id
    then record d { in_flight = none }
    else if has e.id d.ran
    then record d { in_flight = none }
    else record d { in_flight = none; ran = e.id ∷ d.ran; sent = d.sent ++ e ∷ [] }

unfoldable pub fire : DelayHandler → DelayHandler
unfolding fired
fire d = fired d.in_flight d

-- `TrackedEvent.cancel`; the scheduler raises ValueError for an event that is not in its queue.
unfoldable pub cancel_event : TrackedEvent → DelayHandler → DelayHandler
unfolding has has_id filter
cancel_event e d =
    if has e.id d.ran
    then d
    else if has_id e.id d.queue
    then record d { queue = filter (λ x. not (x.id == e.id)) d.queue; canceled = e.id ∷ d.canceled }
    else d

unfoldable pub cancel_events : List TrackedEvent → DelayHandler → DelayHandler
unfolding cancel_event
cancel_events [] d = d
cancel_events (e ∷ es) d = cancel_events es (cancel_event e d)

-- Whether the address and scope are those of several sets of the cache, of which a new set is made.
abbrev pub is_joined : ℕ → Option CommandScope → Bool
is_joined n none = n == 99
is_joined n (some s) = n == 99 && (same_scope s engine || same_scope s train)

abbrev pub is_meant : ℕ → Option CommandScope → TrackedEvent → Bool
is_meant n none e = n == 99
is_meant n (some s) e =
    if is_joined n (some s)
    then same_scope e.scope engine || same_scope e.scope train
    else e.tmcc_id == n && same_scope e.scope s

-- `requests`, where None and the empty set let all pass.
abbrev pub is_requested : List ℕ → TrackedEvent → Bool
is_requested [] e = true
is_requested (r ∷ rs) e = has e.command (r ∷ rs)

abbrev pub is_to_delete : ℕ → Option CommandScope → List ℕ → TrackedEvent → Bool
is_to_delete n s requests e = is_meant n s e && (not e.is_kept && is_requested requests e)

unfoldable pub cancel_delayed_requests :
    ℕ → Option CommandScope → List ℕ → DelayHandler → DelayHandler
unfolding filter cancel_events has
cancel_delayed_requests n s requests d =
    let d' = cancel_events (filter (is_to_delete n s requests) d.event_cache) d in
    if is_joined n s
    then d'
    else record d' { event_cache = filter (λ e. not (is_to_delete n s requests e)) d.event_cache }

unfoldable pub purge_inactive_events : DelayHandler → DelayHandler
unfolding filter has
purge_inactive_events d = record d {
  event_cache = filter (λ e. not (has e.id d.ran || was_canceled d e.id)) d.event_cache;
}
