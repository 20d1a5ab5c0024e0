-- ===== src/Utils/UniqueDeque/Append.antt =====
-- `UniqueDeque.append` on every branch (utils/unique_deque.py).
use py_legacy.Common.{
  ℕ, suc, ◌≤◌, ◌≡◌, refl, sym, ap, ◌∙◌, true, false, Option, none, some, List, [], ◌∷◌, ◌++◌, arith,
  ◌==◌, length, length-append, Bool-cases, eq_of_==, Option-cases, inl, inr, ok,
}
use mathlib.Core.Path.{subst}
use py_legacy.Utils.UniqueDeque.{
  UniqueDeque, has, without, last, is_full, remove_item, popleft, append, extend,
}
use py_legacy.Utils.UniqueDeque.Lists.{
  has-snoc, has-without, without-IsUnique, snoc-IsUnique, length-without, last-snoc, last-none,
  List-cases,
}
use py_legacy.Utils.UniqueDeque.Invariant.{Fits, IsConsistent, HasRoom, popleft-IsConsistent}

abbrev pub added : UniqueDeque → ℕ → UniqueDeque
added d x = record d { seen = x ∷ d.seen; items = d.items ++ x ∷ [] }

pub added-IsConsistent :
    (d : UniqueDeque) (x : ℕ)
    → IsConsistent d
    → has x d.items ≡ false
    → Fits d.maxlen (suc (length d.items))
    → IsConsistent (added d x)
unfolding has
added-IsConsistent d x (unique, same, _) p room = (
  snoc-IsUnique d.items x unique p,
  λ y. ground (arith, has-snoc y d.items x, same y),
  fits_snoc d.maxlen d.items x room,
)
  where
    fits_snoc :
        (o : Option ℕ) (xs : List ℕ) (x : ℕ)
        → Fits o (suc (length xs))
        → Fits o (length (xs ++ x ∷ []))
    fits_snoc none xs x h = tt
    fits_snoc (some m) xs x h = omega (arith, length-append xs (x ∷ []))

abbrev pub moved : UniqueDeque → ℕ → UniqueDeque
moved d x = record d { items = without x d.items ++ x ∷ [] }

moved-IsConsistent :
    (d : UniqueDeque) (x : ℕ) → IsConsistent d → has x d.items ≡ true → IsConsistent (moved d x)
moved-IsConsistent d x (unique, same, fits) p = (
  snoc-IsUnique (without x d.items) x (without-IsUnique x d.items unique)
      (ground (arith, has-without x x d.items unique)),
  λ y. same y ∙ still y,
  fits_moved d.maxlen fits,
)
  where
    still : (y : ℕ) → has y d.items ≡ has y (without x d.items ++ x ∷ [])
    still y = elim (Bool-cases (y == x)) [
      | inl e ↦
          let q : has y d.items ≡ true = ap (λ z. has z d.items) (eq_of_== y x e) ∙ p in
          ground (arith, has-snoc y (without x d.items) x)
      | inr e ↦ ground (arith, has-snoc y (without x d.items) x, has-without y x d.items unique)
    ]

    fits_moved :
        (o : Option ℕ) → Fits o (length d.items) → Fits o (length (without x d.items ++ x ∷ []))
    fits_moved none h = tt
    fits_moved (some m) h =
        omega (arith, length-append (without x d.items) (x ∷ []), length-without x d.items p)

-- What `append` promises of the deque that it leaves.
abbrev pub IsAppended : UniqueDeque → ℕ → UniqueDeque → Type 0
IsAppended d x d' =
    (append d x ≡ ok d') × (last d'.items ≡ some x) × (d'.maxlen ≡ d.maxlen) × IsConsistent d'

append_again :
    (d : UniqueDeque) (x : ℕ)
    → IsConsistent d
    → has x d.items ≡ true
    → (d' : UniqueDeque) × IsAppended d x d'
unfolding append has remove_item
append_again d x (unique, same, fits) p = elim (Option-cases (last d.items)) [
  | inl e ↦ absurd (cc (rw (last-none d.items e, has) at p))
  | inr (y, e) ↦ elim (Bool-cases (y == x)) [
    | inl f ↦ (
      d,
      (
        rw (append, same x ∙ p) (rw (e, f) refl),
        e ∙ ap some (eq_of_== y x f),
        refl,
        (unique, same, fits),
      ),
    )
    | inr f ↦ (
      moved d x,
      (
        rw (append, same x ∙ p) (rw (e, f, p) refl),
        last-snoc (without x d.items) x,
        refl,
        moved-IsConsistent d x (unique, same, fits) p,
      ),
    )
  ]
]

pub full_room :
    (o : Option ℕ) (n : ℕ) → (elim o [ none ↦ false | some m ↦ n == m ]) ≡ true → HasRoom o → 1 ≤ n
full_room none n h room = absurd (cc h)
full_room (some m) n h room = ground arith

pub spare_room :
    (o : Option ℕ) (n : ℕ)
    → (elim o [ none ↦ false | some m ↦ n == m ]) ≡ false
    → Fits o n
    → Fits o (suc n)
spare_room none n h fits = tt
spare_room (some m) n h fits = ground arith

-- A full deque loses its first element.
append_full :
    (d : UniqueDeque) (x : ℕ) (z : ℕ) (rest : List ℕ)
    → IsConsistent d
    → is_full d ≡ true
    → d.items ≡ z ∷ rest
    → has x d.items ≡ false
    → (d' : UniqueDeque) × IsAppended d x d'
unfolding append has popleft
append_full d x z rest (unique, same, fits) full e p =
    let (d', taken, left, bound, kept) = popleft-IsConsistent d z rest e (unique, same, fits) in
    let room : Fits d.maxlen (suc (length d'.items)) =
      subst (Fits d.maxlen) (ap length e ∙ ap (λ (xs : List ℕ). suc (length xs)) (sym left)) fits in
    (
      added d' x,
      (
        rw (append, same x ∙ p) (rw (full, taken) refl),
        last-snoc d'.items x,
        bound,
        added-IsConsistent d' x kept (ap (has x) left ∙ tail_of z rest (rw e at p))
            (subst (λ o. Fits o (suc (length d'.items))) (sym bound) room),
      ),
    )
  where
    tail_of : (z : ℕ) (rest : List ℕ) → has x (z ∷ rest) ≡ false → has x rest ≡ false
    tail_of z rest h = ground arith

append_new :
    (d : UniqueDeque) (x : ℕ)
    → IsConsistent d
    → HasRoom d.maxlen
    → has x d.items ≡ false
    → (d' : UniqueDeque) × IsAppended d x d'
unfolding append is_full
append_new d x (unique, same, fits) room p = elim (Bool-cases (is_full d)) [
  | inl full ↦ elim (List-cases d.items) [
    | inl e ↦ absurd (
        unfold is_full in omega (arith, full_room d.maxlen (length d.items) full room, ap length e))
    | inr (z, rest, e) ↦ append_full d x z rest (unique, same, fits) full e p
  ]
  | inr short ↦ (
    added d x,
    (
      rw (append, same x ∙ p) (rw short refl),
      last-snoc d.items x,
      refl,
      added-IsConsistent d x (unique, same, fits) p
          (spare_room d.maxlen (length d.items) short fits),
    ),
  )
]

-- `append` on a consistent deque with room for an element returns, leaves a consistent deque of the same
-- bound, and the element is then the last one.
pub append-IsConsistent :
    (d : UniqueDeque) (x : ℕ)
    → IsConsistent d
    → HasRoom d.maxlen
    → (d' : UniqueDeque) × IsAppended d x d'
append-IsConsistent d x h room = elim (Bool-cases (has x d.items)) [
  | inl p ↦ append_again d x h p
  | inr p ↦ append_new d x h room p
]

-- `extend` on a consistent deque with room for an element returns and leaves a consistent deque of the
-- same bound, whatever the elements are.
pub extend-IsConsistent :
    (xs : List ℕ) (d : UniqueDeque)
    → IsConsistent d
    → HasRoom d.maxlen
    → (d' : UniqueDeque) × (extend d xs ≡ ok d') × (d'.maxlen ≡ d.maxlen) × IsConsistent d'
unfolding extend
extend-IsConsistent [] d h room = (d, refl, refl, h)
extend-IsConsistent (x ∷ xs) d h room =
    let (d', (e, _, bound, h')) = append-IsConsistent d x h room in
    let (d'', e', bound', h'') = extend-IsConsistent xs d' h' (subst HasRoom (sym bound) room) in
    (d'', rw (extend, e) e', bound' ∙ bound, h'')
