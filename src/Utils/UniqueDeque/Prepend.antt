-- ===== src/Utils/UniqueDeque/Prepend.antt =====
-- `UniqueDeque.appendleft` on every branch (utils/unique_deque.py).
use py_legacy.Common.{
  ℕ, suc, ◌≤◌, ◌≡◌, refl, sym, ap, ◌∙◌, true, false, ◌||◌, Option, some, List, [], ◌∷◌, arith, ◌==◌,
  length, Bool-cases, eq_of_==, Option-cases, inl, inr, ok, get_elem?,
}
use mathlib.Core.Path.{subst}
use py_legacy.Utils.UniqueDeque.{
  UniqueDeque, has, without, last, but_last, is_full, remove_item, appendleft,
}
use py_legacy.Utils.UniqueDeque.Lists.{
  has-without, without-IsUnique, length-without, length-but_last, last-none, has-but_last,
}
use py_legacy.Utils.UniqueDeque.Invariant.{Fits, IsConsistent, HasRoom, pop-IsConsistent}
use py_legacy.Utils.UniqueDeque.Append.{full_room, spare_room}

-- What `appendleft` promises of the deque that it leaves.
abbrev pub IsPrepended : UniqueDeque → ℕ → UniqueDeque → Type 0
IsPrepended d x d' =
    (appendleft d x ≡ ok d')
    × (get_elem? d'.items 0 ≡ some x)
    × (d'.maxlen ≡ d.maxlen)
    × IsConsistent d'

abbrev pushed : UniqueDeque → ℕ → UniqueDeque
pushed d x = record d { seen = x ∷ d.seen; items = x ∷ d.items }

pushed-IsConsistent :
    (d : UniqueDeque) (x : ℕ)
    → IsConsistent d
    → has x d.items ≡ false
    → Fits d.maxlen (suc (length d.items))
    → IsConsistent (pushed d x)
unfolding has
pushed-IsConsistent d x (unique, same, _) p room = ((p, unique), λ y. ground (arith, same y), room)

pulled-IsConsistent :
    (d : UniqueDeque) (x : ℕ)
    → IsConsistent d
    → has x d.items ≡ true
    → IsConsistent (record d { items = x ∷ without x d.items })
unfolding has
pulled-IsConsistent d x (unique, same, fits) p = (
  (ground (arith, has-without x x d.items unique), without-IsUnique x d.items unique),
  λ y. same y ∙ still y,
  subst (Fits d.maxlen) (sym (length-without x d.items p)) fits,
)
  where
    still : (y : ℕ) → has y d.items ≡ (y == x || has y (without x d.items))
    still y = elim (Bool-cases (y == x)) [
      | inl e ↦
          let q : has y d.items ≡ true = ap (λ z. has z d.items) (eq_of_== y x e) ∙ p in
          ground arith
      | inr e ↦ ground (arith, has-without y x d.items unique)
    ]

prepend_again :
    (items seen : List ℕ) (maxlen : Option ℕ) (x : ℕ)
    → IsConsistent (record { items = items; seen = seen; maxlen = maxlen })
    → has x items ≡ true
    → (d' : UniqueDeque) × IsPrepended (record { items = items; seen = seen; maxlen = maxlen }) x d'
unfolding appendleft has remove_item
prepend_again [] seen maxlen x h p = absurd (cc p)
prepend_again (y ∷ rest) seen maxlen x (unique, same, fits) p =
    let d : UniqueDeque = record { items = y ∷ rest; seen = seen; maxlen = maxlen } in
    elim (Bool-cases (y == x)) [
      | inl f ↦ (
        d,
        (
          rw (appendleft, same x ∙ p) (rw f refl),
          ap some (eq_of_== y x f),
          refl,
          (unique, same, fits),
        ),
      )
      | inr f ↦ (
        record d { items = x ∷ without x d.items },
        (
          rw (appendleft, same x ∙ p) (rw (f, p) refl),
          refl,
          refl,
          pulled-IsConsistent d x (unique, same, fits) p,
        ),
      )
    ]

last-length : (z : ℕ) (xs : List ℕ) → last xs ≡ some z → 1 ≤ length xs
unfolding last
last-length z [] h = absurd (cc h)
last-length z (a ∷ xs) h = omega arith

-- A full deque loses its last element.
prepend_full :
    (d : UniqueDeque) (x z : ℕ)
    → IsConsistent d
    → is_full d ≡ true
    → last d.items ≡ some z
    → has x d.items ≡ false
    → (d' : UniqueDeque) × IsPrepended d x d'
unfolding appendleft
prepend_full d x z (unique, same, fits) full e p =
    let (d', taken, left, bound, kept) = pop-IsConsistent d z e (unique, same, fits) in
    let absent : has x d'.items ≡ false =
      ap (has x) left ∙ ground (arith, has-but_last x z d.items unique e) in
    let room : Fits d'.maxlen (suc (length d'.items)) =
      subst (λ o. Fits o (suc (length d'.items))) (sym bound)
        (subst (Fits d.maxlen) (sym (ap (λ (xs : List ℕ). suc (length xs)) left ∙ shorter)) fits) in
    (
      pushed d' x,
      (
        rw (appendleft, same x ∙ p) (rw (full, taken) refl),
        refl,
        bound,
        pushed-IsConsistent d' x kept absent room,
      ),
    )
  where
    shorter : suc (length (but_last d.items)) ≡ length d.items
    shorter = length-but_last d.items (last-length z d.items e)

prepend_new :
    (d : UniqueDeque) (x : ℕ)
    → IsConsistent d
    → HasRoom d.maxlen
    → has x d.items ≡ false
    → (d' : UniqueDeque) × IsPrepended d x d'
unfolding appendleft is_full
prepend_new d x (unique, same, fits) room p = elim (Bool-cases (is_full d)) [
  | inl full ↦ elim (Option-cases (last d.items)) [
    | inl e ↦ absurd (
        omega
          (arith, full_room d.maxlen (length d.items) full room, ap length (last-none d.items e)))
    | inr (z, e) ↦ prepend_full d x z (unique, same, fits) full e p
  ]
  | inr short ↦ (
    pushed d x,
    (
      rw (appendleft, same x ∙ p) (rw short refl),
      refl,
      refl,
      pushed-IsConsistent d x (unique, same, fits) p
          (spare_room d.maxlen (length d.items) short fits),
    ),
  )
]

-- `appendleft` on a consistent deque with room for an element returns, leaves a consistent deque of the
-- same bound, and the element is then the first one.
pub appendleft-IsConsistent :
    (d : UniqueDeque) (x : ℕ)
    → IsConsistent d
    → HasRoom d.maxlen
    → (d' : UniqueDeque) × IsPrepended d x d'
appendleft-IsConsistent d x h room = elim (Bool-cases (has x d.items)) [
  | inl p ↦ prepend_again d.items d.seen d.maxlen x h p
  | inr p ↦ prepend_new d x h room p
]
