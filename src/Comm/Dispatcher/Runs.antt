-- ===== src/Comm/Dispatcher/Runs.antt =====
-- Concrete runs of the dispatcher: the theorems at one input.
use py_legacy.Common.{
  ℕ, true, false, not, ◌&&◌, ◌||◌, ◌==◌, none, List, [], ◌∷◌, ◌++◌, ◌≡◌, refl, ok,
}
use py_legacy.Common.Int.{pos}
use py_legacy.Utils.UniqueDeque.{has}
use py_legacy.Protocol.Scope.{engine}
use py_legacy.Comm.Dispatcher.{
  Topic, broadcast, scope_topic, address_topic, command_topic, Dispatcher, Request, Event, called,
  Settings, same_topic, subscribers, add_subscriber, subscribe, unsubscribe, dispatch, run,
  cancel_delayed, publish_request, publish_all, publish, publish_to,
}
use py_legacy.Comm.Dispatcher.Subscriptions.{is_subscribed}
use py_legacy.Comm.Dispatcher.Invariant.{
  started, Reach, start, step, subscribes, IsWellFormed, Reach-IsWellFormed,
}
use py_legacy.Comm.Dispatcher.Deliveries.{is_called, concerns}
use py_legacy.Comm.Dispatcher.Outcome.{dispatch-subscribe}
use py_legacy.Comm.Dispatcher.Delivered.{run-subscribe}
use py_legacy.Comm.Dispatcher.Cancellation.{unsubscribe-subscribed}

-- Subscriber 1 hears everything, subscriber 2 what is about engine 12.
abbrev hears_all : Dispatcher
hears_all = subscribe 1 broadcast started

abbrev two_heard : Dispatcher
two_heard = subscribe 2 (address_topic engine 12) hears_all

two_heard-Reach : Reach two_heard
two_heard-Reach =
    step hears_all two_heard (step started hears_all start (subscribes 1 broadcast started))
      (subscribes 2 (address_topic engine 12) hears_all)

abbrev set_speed : Request
set_speed = record {
  scope = engine;
  address = 12;
  command = 7;
  command_data = pos 40;
  is_data = true;
  is_halt = false;
  is_system_halt = false;
  is_filtered = true;
}

abbrev halt : Request
halt = record set_speed { address = 99; is_data = false; is_halt = true; is_filtered = false }

abbrev server : Settings
server = record { filter_updates = true; has_server_port = true }

Reach-IsWellFormed_example : IsWellFormed two_heard
Reach-IsWellFormed_example = Reach-IsWellFormed two_heard two_heard-Reach

dispatch-subscribe_example :
    is_called 3 (dispatch server (subscribe 3 (command_topic engine 12 7) two_heard) set_speed) ≡ (
      (3 == 3 && concerns server (command_topic engine 12 7) set_speed)
      || is_called 3 (dispatch server two_heard set_speed))
dispatch-subscribe_example =
    dispatch-subscribe server 3 3 (command_topic engine 12 7) two_heard set_speed two_heard-Reach

run-subscribe_example :
    let d' = subscribe 3 (scope_topic engine) two_heard in
    (pre : List Event) × (post : List Event) × (run server d' ((halt ∷ []) ++ set_speed ∷ [])
      ≡ run server d' (halt ∷ []) ++ ((pre ++ called 3 set_speed ∷ post) ++ run server d' []))
run-subscribe_example =
    run-subscribe server 3 (scope_topic engine) two_heard (halt ∷ []) set_speed [] two_heard-Reach
      refl

unsubscribe-subscribed_example :
    (d' : Dispatcher) × (unsubscribe 2 (address_topic engine 12) two_heard ≡ ok d')
    × ((s' : ℕ) (w : Topic)
        → is_subscribed s' w d'.channels ≡ (
            is_subscribed s' w two_heard.channels
            && not (s' == 2 && same_topic w (address_topic engine 12))))
unfolding subscribe add_subscriber subscribers has
unsubscribe-subscribed_example =
    unsubscribe-subscribed 2 (address_topic engine 12) two_heard two_heard-Reach refl

-- A halt reaches a subscriber to everything twice.
halt_heard :
    run (record { filter_updates = false; has_server_port = false }) hears_all (halt ∷ [])
    ≡ cancel_delayed none ∷ called 1 halt ∷ called 1 halt ∷ []
unfolding run dispatch publish_request publish_all publish publish_to subscribe add_subscriber
    subscribers has
halt_heard = refl
