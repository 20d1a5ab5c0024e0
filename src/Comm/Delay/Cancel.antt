-- ===== src/Comm/Delay/Cancel.antt =====
-- What the cancellation of a list of events changes (comm/comm_buffer.py).
use py_legacy.Common.{
  ℕ, ◌≡◌, refl, sym, ap, ◌∙◌, Bool, true, false, not, ◌&&◌, ◌||◌, List, [], ◌∷◌, ◌==◌, arith, All,
  Bool-cases, inl, inr, eq_of_==,
}
use mathlib.Core.Path.{subst}
use py_legacy.Utils.UniqueDeque.{has}
use py_legacy.Comm.Delay.{TrackedEvent, DelayHandler, filter, has_id, cancel_event, cancel_events}
use py_legacy.Comm.Delay.Events.{
  filter-filter, filter-absent, All-filter, filter-true, has_id-filter_absent,
}

abbrev pub HasNotRun : List ℕ → TrackedEvent → Type 0
HasNotRun ran e = has e.id ran ≡ false

ran_absent :
    (ran : List ℕ) (n : ℕ) (es : List TrackedEvent)
    → All (HasNotRun ran) es
    → has n ran ≡ true
    → has_id n es ≡ false
unfolding has_id
ran_absent ran n [] h r = refl
ran_absent ran n (e ∷ es) (p, h) r = elim (Bool-cases (n == e.id)) [
  | inl q ↦ absurd (cc (r, p, eq_of_== n e.id q))
  | inr q ↦ rw q (ran_absent ran n es h r)
]

cancel_event-queue :
    (e : TrackedEvent) (d : DelayHandler)
    → All (HasNotRun d.ran) d.queue
    → (cancel_event e d).queue ≡ filter (λ x. not (x.id == e.id)) d.queue
unfolding cancel_event
cancel_event-queue e d h = elim (Bool-cases (has e.id d.ran)) [
  | inl r ↦ rw r (sym (filter-absent e.id d.queue (ran_absent d.ran e.id d.queue h r)))
  | inr r ↦ rw r (elim (Bool-cases (has_id e.id d.queue)) [
    | inl q ↦ rw q refl
    | inr q ↦ rw q (sym (filter-absent e.id d.queue q))
  ])
]

-- Nothing but the queue and the canceled events changes.
cancel_event-rest :
    (e : TrackedEvent) (d : DelayHandler)
    → ((cancel_event e d).ran ≡ d.ran)
      × ((cancel_event e d).in_flight ≡ d.in_flight)
      × ((cancel_event e d).event_cache ≡ d.event_cache)
      × ((cancel_event e d).sent ≡ d.sent)
unfolding cancel_event
cancel_event-rest e d = elim (Bool-cases (has e.id d.ran)) [
  | inl r ↦ rw r (refl, refl, refl, refl)
  | inr r ↦ rw r (elim (Bool-cases (has_id e.id d.queue)) [
    | inl q ↦ rw q (refl, refl, refl, refl)
    | inr q ↦ rw q (refl, refl, refl, refl)
  ])
]

-- An event becomes canceled if it is the one meant, and is in the queue.
cancel_event-canceled :
    (n : ℕ) (e : TrackedEvent) (d : DelayHandler)
    → (n == e.id && has_id n d.queue) ≡ false
    → has n (cancel_event e d).canceled ≡ has n d.canceled
unfolding cancel_event has
cancel_event-canceled n e d h = elim (Bool-cases (has e.id d.ran)) [
  | inl r ↦ rw r refl
  | inr r ↦ rw r (elim (Bool-cases (has_id e.id d.queue)) [
    | inl q ↦ rw q (elim (Bool-cases (n == e.id)) [
      | inl s ↦ absurd (cc (h, s, q, eq_of_== n e.id s))
      | inr s ↦ rw s refl
    ])
    | inr q ↦ rw q refl
  ])
]

pub cancel_events-queue :
    (es : List TrackedEvent) (d : DelayHandler)
    → All (HasNotRun d.ran) d.queue
    → (cancel_events es d).queue ≡ filter (λ x. not (has_id x.id es)) d.queue
unfolding cancel_events has_id
cancel_events-queue [] d h = sym (filter-true d.queue)
cancel_events-queue (e ∷ es) d h =
    let (same, _, _, _) = cancel_event-rest e d in
    let q = cancel_event-queue e d h in
    cancel_events-queue es (cancel_event e d) (
      subst (λ r. All (HasNotRun r) (cancel_event e d).queue) (sym same)
        (subst (All (HasNotRun d.ran)) (sym q)
          (All-filter (HasNotRun d.ran) (λ x. not (x.id == e.id)) d.queue h)))
    ∙ (ap (filter (λ x. not (has_id x.id es))) q
        ∙ (filter-filter (λ x. not (has_id x.id es)) (λ x. not (x.id == e.id)) d.queue
            ∙ ap (λ P. filter P d.queue) (λ i x. neither (x.id == e.id) (has_id x.id es) i)))
  where
    neither : (b c : Bool) → (not b && not c) ≡ not (b || c)
    neither b c = ground arith

pub cancel_events-rest :
    (es : List TrackedEvent) (d : DelayHandler)
    → ((cancel_events es d).ran ≡ d.ran)
      × ((cancel_events es d).in_flight ≡ d.in_flight)
      × ((cancel_events es d).event_cache ≡ d.event_cache)
      × ((cancel_events es d).sent ≡ d.sent)
unfolding cancel_events
cancel_events-rest [] d = (refl, refl, refl, refl)
cancel_events-rest (e ∷ es) d =
    let (a, b, c, s) = cancel_event-rest e d in
    let (a', b', c', s') = cancel_events-rest es (cancel_event e d) in
    (a' ∙ a, b' ∙ b, c' ∙ c, s' ∙ s)

pub cancel_event-absent :
    (n : ℕ) (e : TrackedEvent) (d : DelayHandler)
    → has_id n d.queue ≡ false
    → has_id n (cancel_event e d).queue ≡ false
unfolding cancel_event
cancel_event-absent n e d h = elim (Bool-cases (has e.id d.ran)) [
  | inl r ↦ rw r h
  | inr r ↦ rw r (elim (Bool-cases (has_id e.id d.queue)) [
    | inl q ↦ rw q (has_id-filter_absent (λ x. not (x.id == e.id)) n d.queue h)
    | inr q ↦ rw q h
  ])
]

pub cancel_events-absent :
    (n : ℕ) (es : List TrackedEvent) (d : DelayHandler)
    → has_id n d.queue ≡ false
    → (has_id n (cancel_events es d).queue ≡ false)
      × (has n (cancel_events es d).canceled ≡ has n d.canceled)
unfolding cancel_events
cancel_events-absent n [] d h = (h, refl)
cancel_events-absent n (e ∷ es) d h =
    let (q, c) = cancel_events-absent n es (cancel_event e d) (cancel_event-absent n e d h) in
    (q, c ∙ cancel_event-canceled n e d (ground (arith, h)))

pub cancel_events-unmeant :
    (n : ℕ) (es : List TrackedEvent) (d : DelayHandler)
    → has_id n es ≡ false
    → has n (cancel_events es d).canceled ≡ has n d.canceled
unfolding cancel_events has_id
cancel_events-unmeant n [] d h = refl
cancel_events-unmeant n (e ∷ es) d h =
    cancel_events-unmeant n es (cancel_event e d) (ground arith)
    ∙ cancel_event-canceled n e d (ground arith)
