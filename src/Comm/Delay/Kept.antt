-- ===== src/Comm/Delay/Kept.antt =====
-- What holds of the events that wait to be sent, and which of them a cancellation takes off
-- (comm/comm_buffer.py).
use mathlib.Core.Path.{subst}
use py_legacy.Common.{
  ℕ, ◌≡◌, refl, sym, ap, ◌∙◌, Bool, true, false, not, ◌&&◌, ◌||◌, Option, none, some, List, [], ◌∷◌,
  ◌++◌, ◌==◌, leb, arith, All, Bool-cases, inl, inr, eq_of_==,
}
use py_legacy.Utils.UniqueDeque.{has}
use py_legacy.Comm.Delay.{
  TrackedEvent, DelayHandler, filter, has_id, enter, schedule, take_due, taken, fire, fired,
  was_canceled, purge_inactive_events,
}
use py_legacy.Comm.Delay.Events.{
  filter-filter, filter-true, All-enter, has_id-enter, IsDistinct, enter-IsDistinct,
  has_id-filter_absent,
}

pub All-map {ℓ κ} :
    {A : Type 0} (P : A → Type ℓ) (Q : A → Type κ) (xs : List A)
    → ((x : A) → P x → Q x)
    → All P xs
    → All Q xs
All-map P Q [] f h = tt
All-map P Q (x ∷ xs) f (p, h) = (f x p, All-map P Q xs f h)

pub All-both {ℓ κ} :
    {A : Type 0} (P : A → Type ℓ) (Q : A → Type κ) (xs : List A)
    → All P xs
    → All Q xs
    → All (λ x. P x × Q x) xs
All-both P Q [] h k = tt
All-both P Q (x ∷ xs) (p, h) (q, k) = ((p, q), All-both P Q xs h k)

absent-All :
    (n : ℕ) (es : List TrackedEvent) → has_id n es ≡ false → All (λ e. (e.id == n) ≡ false) es
unfolding has_id
absent-All n [] h = tt
absent-All n (e ∷ es) h = (ground arith, absent-All n es (ground arith))

-- An event that waits has not run, is not canceled, and is found in the cache by what it is.
abbrev pub Waits : List ℕ → List ℕ → List TrackedEvent → TrackedEvent → Type 0
Waits ran canceled cache e =
    (has e.id ran ≡ false)
    × (has e.id canceled ≡ false)
    × ((P : TrackedEvent → Bool) → has_id e.id (filter P cache) ≡ P e)

-- The event that is about to run has not run, is not canceled, and does not wait any more.
abbrev pub IsUnderway : List ℕ → List ℕ → List TrackedEvent → Option TrackedEvent → Type 0
IsUnderway ran canceled queue none = Unit
IsUnderway ran canceled queue (some e) =
    (has e.id ran ≡ false) × (has e.id canceled ≡ false) × (has_id e.id queue ≡ false)

pub record IsOrderly (d : DelayHandler) : Type 0 where
  pub waiting : All (Waits d.ran d.canceled d.event_cache) d.queue
  pub distinct : IsDistinct d.queue
  pub underway : IsUnderway d.ran d.canceled d.queue d.in_flight

abbrev pub IsOther : ℕ → Option TrackedEvent → Type 0
IsOther n none = Unit
IsOther n (some e) = (e.id == n) ≡ false

-- A new event is none of those that there are or were.
pub record IsFresh (e : TrackedEvent) (d : DelayHandler) : Type 0 where
  pub not_cached : has_id e.id d.event_cache ≡ false
  pub not_queued : has_id e.id d.queue ≡ false
  pub not_ran : has e.id d.ran ≡ false
  pub not_canceled : has e.id d.canceled ≡ false
  pub not_underway : IsOther e.id d.in_flight

has_id-filter_first :
    (P : TrackedEvent → Bool) (n : ℕ) (e : TrackedEvent) (es : List TrackedEvent)
    → has_id n (filter P (e ∷ es)) ≡ ((P e && n == e.id) || has_id n (filter P es))
unfolding filter has_id
has_id-filter_first P n e es = elim (Bool-cases (P e)) [ inl p ↦ rw p refl | inr p ↦ rw p refl ]

-- A fresh event is found in the cache, and does not get in the way of those that are there.
fresh-Waits :
    (e : TrackedEvent) (d : DelayHandler)
    → IsFresh e d
    → Waits d.ran d.canceled (e ∷ d.event_cache) e
fresh-Waits e d f = (
  f.not_ran,
  f.not_canceled,
  λ P. ground (
    arith,
    has_id-filter_first P e.id e d.event_cache,
    has_id-filter_absent P e.id d.event_cache f.not_cached,
  ),
)

not_same :
    (n : ℕ) (e : TrackedEvent) (cache : List TrackedEvent)
    → has_id e.id cache ≡ false
    → has_id n cache ≡ true
    → (n == e.id) ≡ false
not_same n e cache h k = elim (Bool-cases (n == e.id)) [
  | inl q ↦ absurd (cc (h, k, eq_of_== n e.id q))
  | inr q ↦ q
]

still-Waits :
    (e : TrackedEvent) (d : DelayHandler) (x : TrackedEvent)
    → IsFresh e d
    → Waits d.ran d.canceled d.event_cache x
    → Waits d.ran d.canceled (e ∷ d.event_cache) x
still-Waits e d x f (r, c, w) =
    let there = ap (has_id x.id) (sym (filter-true d.event_cache)) ∙ w (λ y. true) in
    let other = not_same x.id e d.event_cache f.not_cached there in
    (r, c, λ P. ground (arith, has_id-filter_first P x.id e d.event_cache, w P, other))

schedule-IsUnderway :
    (e : TrackedEvent) (d : DelayHandler) (o : Option TrackedEvent)
    → IsOther e.id o
    → IsUnderway d.ran d.canceled d.queue o
    → IsUnderway d.ran d.canceled (enter e d.queue) o
unfolding schedule
schedule-IsUnderway e d none n u = tt
schedule-IsUnderway e d (some x) n (r, c, q) =
    (r, c, has_id-enter x.id e d.queue ∙ ground (arith, n, q))

pub schedule-IsOrderly :
    (e : TrackedEvent) (d : DelayHandler) → IsFresh e d → IsOrderly d → IsOrderly (schedule e d)
unfolding schedule
schedule-IsOrderly e d f o = record {
  waiting = All-enter (Waits d.ran d.canceled (e ∷ d.event_cache)) e d.queue (fresh-Waits e d f) (
      All-map (Waits d.ran d.canceled d.event_cache) (Waits d.ran d.canceled (e ∷ d.event_cache))
        d.queue (λ x. still-Waits e d x f) o.waiting);
  distinct = enter-IsDistinct e d.queue f.not_queued o.distinct;
  underway = schedule-IsUnderway e d d.in_flight f.not_underway o.underway;
}

taken-IsOrderly :
    (now : ℕ) (q : List TrackedEvent) (f : Option TrackedEvent) (d : DelayHandler)
    → All (Waits d.ran d.canceled d.event_cache) q
    → IsDistinct q
    → IsOrderly d
    → IsOrderly (taken now q f d)
unfolding taken
taken-IsOrderly now (e ∷ es) none d ((r, c, w), ws) (n, ds) o = elim (Bool-cases (leb e.due now)) [
  | inl h ↦ rw h (record { waiting = ws; distinct = ds; underway = (r, c, n) })
  | inr h ↦ rw h o
]
taken-IsOrderly now [] f d w n o = o
taken-IsOrderly now (e ∷ es) (some x) d w n o = o

pub take_due-IsOrderly : (now : ℕ) (d : DelayHandler) → IsOrderly d → IsOrderly (take_due now d)
unfolding take_due
take_due-IsOrderly now d o = taken-IsOrderly now d.queue d.in_flight d o.waiting o.distinct o

-- An event that is taken out of the queue is sent: nothing that happens meanwhile cancels it.
pub fired_lem :
    (e : TrackedEvent) (d : DelayHandler)
    → IsUnderway d.ran d.canceled d.queue (some e)
    → fired (some e) d ≡ record d { in_flight = none; ran = e.id ∷ d.ran; sent = d.sent ++ e ∷ [] }
unfolding fired
fired_lem e d (r, c, q) = rw c (rw r refl)

fired-IsOrderly :
    (f : Option TrackedEvent) (d : DelayHandler)
    → IsUnderway d.ran d.canceled d.queue f
    → IsOrderly d
    → IsOrderly (fired f d)
unfolding has fired
fired-IsOrderly none d u o = o
fired-IsOrderly (some e) d (r, c, q) o = subst IsOrderly (sym (fired_lem e d (r, c, q))) (record {
  waiting =
      All-map (λ x. Waits d.ran d.canceled d.event_cache x × ((x.id == e.id) ≡ false))
        (Waits (e.id ∷ d.ran) d.canceled d.event_cache) d.queue
        (λ x ((r', c', w), n). (ground (arith, r', n), c', w))
        (All-both (Waits d.ran d.canceled d.event_cache) (λ x. (x.id == e.id) ≡ false) d.queue
          o.waiting (absent-All e.id d.queue q));
  distinct = o.distinct;
  underway = tt;
})

pub fire-IsOrderly : (d : DelayHandler) → IsOrderly d → IsOrderly (fire d)
unfolding fire
fire-IsOrderly d o = fired-IsOrderly d.in_flight d o.underway o

pub purge-IsOrderly : (d : DelayHandler) → IsOrderly d → IsOrderly (purge_inactive_events d)
unfolding purge_inactive_events
purge-IsOrderly d o =
    let left = λ (e : TrackedEvent). not (has e.id d.ran || was_canceled d e.id) in
    record {
      waiting =
          All-map (Waits d.ran d.canceled d.event_cache)
            (Waits d.ran d.canceled (filter left d.event_cache)) d.queue
            (λ x (r, c, w). (
              r,
              c,
              λ P.
                  ap (has_id x.id) (filter-filter P left d.event_cache)
                  ∙ (w (λ e. left e && P e) ∙ ground (arith, r, c)),
            ))
            o.waiting;
      distinct = o.distinct;
      underway = o.underway;
    }
