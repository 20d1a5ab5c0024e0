-- ===== src/Comm/Delay/Canceled.antt =====
-- What a cancellation does to events that are in order
-- (comm/comm_buffer.py).
use mathlib.Core.Path.{subst}
use py_legacy.Common.{
  ℕ, ◌≡◌, refl, sym, ap, ◌∙◌, Bool, true, false, not, ◌&&◌, Option, none, some, List, arith, All,
  Bool-cases, inl, inr,
}
use py_legacy.Utils.UniqueDeque.{has}
use py_legacy.Protocol.Scope.{CommandScope}
use py_legacy.Comm.Delay.{
  TrackedEvent, DelayHandler, filter, has_id, cancel_events, is_joined, is_to_delete,
  cancel_delayed_requests,
}
use py_legacy.Comm.Delay.Events.{
  filter-filter, filter-same, All-filter, All-passed, IsDistinct, filter-IsDistinct,
}
use py_legacy.Comm.Delay.Cancel.{
  HasNotRun, cancel_events-queue, cancel_events-rest, cancel_events-absent, cancel_events-unmeant,
}
use py_legacy.Comm.Delay.Kept.{All-map, All-both, Waits, IsUnderway, IsOrderly}

-- Which events a cancellation takes off the queue.
pub cancel_orderly :
    (n : ℕ) (s : Option CommandScope) (requests : List ℕ) (d : DelayHandler)
    → IsOrderly d
    → (cancel_events (filter (is_to_delete n s requests) d.event_cache) d).queue
      ≡ filter (λ e. not (is_to_delete n s requests e)) d.queue
cancel_orderly n s requests d o =
    let meant = is_to_delete n s requests in
    cancel_events-queue (filter meant d.event_cache) d (
      All-map (Waits d.ran d.canceled d.event_cache) (HasNotRun d.ran) d.queue (λ x (r, _, _). r)
        o.waiting)
    ∙ filter-same (λ x. not (has_id x.id (filter meant d.event_cache))) (λ e. not (meant e)) d.queue
        (All-map (Waits d.ran d.canceled d.event_cache)
          (λ x. not (has_id x.id (filter meant d.event_cache)) ≡ not (meant x)) d.queue
          (λ x (_, _, w). ap not (w meant)) o.waiting)

cancel_cache :
    (n : ℕ) (s : Option CommandScope) (requests : List ℕ) (d : DelayHandler)
    → (P : TrackedEvent → Bool) (e : TrackedEvent) → is_to_delete n s requests e ≡ false
    → ((Q : TrackedEvent → Bool) → has_id e.id (filter Q d.event_cache) ≡ Q e)
    → has_id e.id (filter P (cancel_delayed_requests n s requests d).event_cache) ≡ P e
unfolding cancel_delayed_requests
cancel_cache n s requests d P e h w =
    let meant = is_to_delete n s requests in
    let left = λ (x : TrackedEvent). not (meant x) in
    let (_, _, cache, _) = cancel_events-rest (filter meant d.event_cache) d in
    elim (Bool-cases (is_joined n s)) [
      | inl j ↦ rw j (ap (λ es. has_id e.id (filter P es)) cache ∙ w P)
      | inr j ↦ rw j (
          ap (has_id e.id) (filter-filter P left d.event_cache)
          ∙ (w (λ x. left x && P x) ∙ ap (λ b. not b && P e) h))
    ]

pub cancel-rest :
    (n : ℕ) (s : Option CommandScope) (requests : List ℕ) (d : DelayHandler)
    → let d' = cancel_delayed_requests n s requests d in
      let d'' = cancel_events (filter (is_to_delete n s requests) d.event_cache) d in
      (d'.queue ≡ d''.queue)
      × (d'.ran ≡ d.ran)
      × (d'.canceled ≡ d''.canceled)
      × (d'.in_flight ≡ d.in_flight)
      × (d'.sent ≡ d.sent)
unfolding cancel_delayed_requests
cancel-rest n s requests d =
    let (ran, flight, _, sent) =
      cancel_events-rest (filter (is_to_delete n s requests) d.event_cache) d in
    elim (Bool-cases (is_joined n s)) [
      | inl j ↦ rw j (refl, ran, refl, flight, sent)
      | inr j ↦ rw j (refl, ran, refl, flight, sent)
    ]

-- What a cancellation leaves of the invariant, where it took off `es`.
still-IsUnderway :
    (es : List TrackedEvent) (d d' : DelayHandler) (o : Option TrackedEvent)
    → d'.ran ≡ d.ran
    → d'.canceled ≡ (cancel_events es d).canceled
    → d'.queue ≡ (cancel_events es d).queue
    → IsUnderway d.ran d.canceled d.queue o
    → IsUnderway d'.ran d'.canceled d'.queue o
still-IsUnderway es d d' none ran canceled queue u = tt
still-IsUnderway es d d' (some e) ran canceled queue (r, c, q) =
    let (absent, same) = cancel_events-absent e.id es d q in
    (ap (has e.id) ran ∙ r, ap (has e.id) canceled ∙ (same ∙ c), ap (has_id e.id) queue ∙ absent)

pub cancel-IsOrderly :
    (n : ℕ) (s : Option CommandScope) (requests : List ℕ) (d : DelayHandler)
    → IsOrderly d
    → IsOrderly (cancel_delayed_requests n s requests d)
cancel-IsOrderly n s requests d o =
    let meant = is_to_delete n s requests in
    let left = λ (e : TrackedEvent). not (meant e) in
    let es = filter meant d.event_cache in
    let d' = cancel_delayed_requests n s requests d in
    let (queue, ran, canceled, flight, _) = cancel-rest n s requests d in
    let q = queue ∙ cancel_orderly n s requests d o in
    let old = Waits d.ran d.canceled d.event_cache in
    record {
      waiting = subst (All (Waits d'.ran d'.canceled d'.event_cache)) (sym q) (
          All-map (λ x. old x × (left x ≡ true)) (Waits d'.ran d'.canceled d'.event_cache)
            (filter left d.queue)
            (λ x ((r, c, w), l).
              let spared : meant x ≡ false = ground (arith, l) in
              (
                ap (has x.id) ran ∙ r,
                ap (has x.id) canceled ∙ (cancel_events-unmeant x.id es d (w meant ∙ spared) ∙ c),
                λ P. cancel_cache n s requests d P x spared w,
              ))
            (All-both old (λ x. left x ≡ true) (filter left d.queue)
              (All-filter old left d.queue o.waiting) (All-passed left d.queue)));
      distinct = subst IsDistinct (sym q) (filter-IsDistinct left d.queue o.distinct);
      underway =
          subst (IsUnderway d'.ran d'.canceled d'.queue) (sym flight)
            (still-IsUnderway es d d' d.in_flight ran canceled queue o.underway);
    }
