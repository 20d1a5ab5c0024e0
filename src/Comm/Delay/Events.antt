-- ===== src/Comm/Delay/Events.antt =====
-- Lists of events: what is filtered, entered and found (comm/comm_buffer.py).
use py_legacy.Common.{
  ℕ, ◌≡◌, refl, ap, ◌∙◌, Bool, true, false, not, ◌&&◌, ◌||◌, List, [], ◌∷◌, ◌==◌, ltb, arith, All,
  Bool-cases, inl, inr,
}
use py_legacy.Comm.Delay.{TrackedEvent, filter, has_id, enter}

pub filter-true : (es : List TrackedEvent) → filter (λ e. true) es ≡ es
unfolding filter
filter-true [] = refl
filter-true (e ∷ es) = ap (λ xs. e ∷ xs) (filter-true es)

pub filter-filter :
    (P Q : TrackedEvent → Bool) (es : List TrackedEvent)
    → filter P (filter Q es) ≡ filter (λ e. Q e && P e) es
unfolding filter
filter-filter P Q [] = refl
filter-filter P Q (e ∷ es) = elim (Bool-cases (Q e)) [
  | inl q ↦ rw q (ground (arith, filter-filter P Q es))
  | inr q ↦ rw q (filter-filter P Q es)
]

pub has_id-filter_absent :
    (P : TrackedEvent → Bool) (n : ℕ) (es : List TrackedEvent)
    → has_id n es ≡ false
    → has_id n (filter P es) ≡ false
unfolding filter has_id
has_id-filter_absent P n [] h = refl
has_id-filter_absent P n (e ∷ es) h = ground (arith, has_id-filter_absent P n es)

pub filter-absent :
    (n : ℕ) (es : List TrackedEvent) → has_id n es ≡ false → filter (λ x. not (x.id == n)) es ≡ es
unfolding filter has_id
filter-absent n [] h = refl
filter-absent n (e ∷ es) h = ground (arith, filter-absent n es)

pub filter-same :
    (P Q : TrackedEvent → Bool) (es : List TrackedEvent)
    → All (λ e. P e ≡ Q e) es
    → filter P es ≡ filter Q es
unfolding filter
filter-same P Q [] h = refl
filter-same P Q (e ∷ es) (p, h) = rw p (rw (filter-same P Q es h) refl)

pub All-filter {κ} :
    (Q : TrackedEvent → Type κ) (P : TrackedEvent → Bool) (es : List TrackedEvent)
    → All Q es
    → All Q (filter P es)
unfolding filter
All-filter Q P [] h = tt
All-filter Q P (e ∷ es) (p, h) = elim (Bool-cases (P e)) [
  | inl q ↦ rw q (p, All-filter Q P es h)
  | inr q ↦ rw q (All-filter Q P es h)
]

-- What is left after a filter passes it.
pub All-passed :
    (P : TrackedEvent → Bool) (es : List TrackedEvent) → All (λ e. P e ≡ true) (filter P es)
unfolding filter
All-passed P [] = tt
All-passed P (e ∷ es) = elim (Bool-cases (P e)) [
  | inl q ↦ rw q (q, All-passed P es)
  | inr q ↦ rw q (All-passed P es)
]

pub All-enter {κ} :
    (Q : TrackedEvent → Type κ) (e : TrackedEvent) (es : List TrackedEvent)
    → Q e
    → All Q es
    → All Q (enter e es)
unfolding enter
All-enter Q e [] q h = (q, tt)
All-enter Q e (x ∷ es) q (p, h) = elim (Bool-cases (ltb e.due x.due)) [
  | inl b ↦ rw b (q, (p, h))
  | inr b ↦ rw b (p, All-enter Q e es q h)
]

pub has_id-enter :
    (n : ℕ) (e : TrackedEvent) (es : List TrackedEvent)
    → has_id n (enter e es) ≡ (n == e.id || has_id n es)
unfolding enter has_id
has_id-enter n e [] = refl
has_id-enter n e (x ∷ es) = elim (Bool-cases (ltb e.due x.due)) [
  | inl b ↦ rw b refl
  | inr b ↦ rw b (ground (arith, has_id-enter n e es))
]

-- No event stands in the list twice.
abbrev pub IsDistinct : List TrackedEvent → Type 0
IsDistinct [] = Unit
IsDistinct (e ∷ es) = (has_id e.id es ≡ false) × IsDistinct es

pub enter-IsDistinct :
    (e : TrackedEvent) (es : List TrackedEvent)
    → has_id e.id es ≡ false
    → IsDistinct es
    → IsDistinct (enter e es)
unfolding enter has_id
enter-IsDistinct e [] n d = (refl, tt)
enter-IsDistinct e (x ∷ es) n (p, d) = elim (Bool-cases (ltb e.due x.due)) [
  | inl b ↦ rw b (n, (p, d))
  | inr b ↦ rw b (has_id-enter x.id e es ∙ ground arith, enter-IsDistinct e es (ground arith) d)
]

pub filter-IsDistinct :
    (P : TrackedEvent → Bool) (es : List TrackedEvent) → IsDistinct es → IsDistinct (filter P es)
unfolding filter
filter-IsDistinct P [] d = tt
filter-IsDistinct P (e ∷ es) (p, d) = elim (Bool-cases (P e)) [
  | inl q ↦ rw q (has_id-filter_absent P e.id es p, filter-IsDistinct P es d)
  | inr q ↦ rw q (filter-IsDistinct P es d)
]
