-- ===== src/Utils/UniqueDeque/Copy.antt =====
-- `UniqueDeque.copy` and the constructor (utils/unique_deque.py).
use py_legacy.Common.{
  ℕ, suc, ◌+◌, ◌≡◌, refl, sym, ap, ◌∙◌, true, false, Option, none, some, List, [], ◌∷◌, ◌++◌, arith,
  ◌==◌, ==_refl, length, length-append, append-nil, append_assoc, Bool-cases, eq_of_==, inl, inr,
  ok,
}
use mathlib.Core.Path.{subst}
use py_legacy.Utils.UniqueDeque.{
  UniqueDeque, has, is_full, append, extend, unique_deque, copy, concat,
}
use py_legacy.Utils.UniqueDeque.Lists.{IsUnique, has-snoc}
use py_legacy.Utils.UniqueDeque.Invariant.{Fits, IsConsistent, HasRoom}
use py_legacy.Utils.UniqueDeque.Append.{added, added-IsConsistent, extend-IsConsistent}

IsApart : List ℕ → List ℕ → Type 0
IsApart xs ys = (y : ℕ) → has y xs ≡ true → has y ys ≡ false

spare :
    (o : Option ℕ) (n k : ℕ)
    → Fits o (n + suc k)
    → (elim o [ none ↦ false | some m ↦ n == m ]) ≡ false
spare none n k h = refl
spare (some m) n k h = ground arith

spare_one : (o : Option ℕ) (n k : ℕ) → Fits o (n + suc k) → Fits o (suc n)
spare_one none n k h = tt
spare_one (some m) n k h = omega arith

append_fresh :
    (d : UniqueDeque) (x : ℕ)
    → has x d.seen ≡ false
    → is_full d ≡ false
    → append d x ≡ ok (added d x)
unfolding append
append_fresh d x new short = rw (append, new) (rw short refl)

IsApart-snoc :
    (x : ℕ) (xs items : List ℕ)
    → has x xs ≡ false
    → IsApart (x ∷ xs) items
    → IsApart xs (items ++ x ∷ [])
unfolding IsApart has
IsApart-snoc x xs items p apart y q = elim (Bool-cases (y == x)) [
  | inl e ↦ absurd (cc (sym q ∙ (ap (λ z. has z xs) (eq_of_== y x e) ∙ p)))
  | inr e ↦ ground (arith, has-snoc y items x, apart y (ground arith))
]

-- New elements are put behind the others one by one, in their order, where they fit.
extend_fresh :
    (xs : List ℕ) (d : UniqueDeque)
    → IsConsistent d
    → IsUnique xs
    → IsApart xs d.items
    → Fits d.maxlen (length d.items + length xs)
    → (d' : UniqueDeque) × (extend d xs ≡ ok d')
      × (d'.items ≡ d.items ++ xs)
      × (d'.maxlen ≡ d.maxlen)
      × IsConsistent d'
unfolding extend has is_full IsApart
extend_fresh [] d h unique apart fits = (d, refl, sym (append-nil d.items), refl, h)
extend_fresh (x ∷ xs) d (u, same, f) (p, unique) apart fits =
    let new : has x d.items ≡ false = apart x (ground (arith, ==_refl x)) in
    let short : is_full d ≡ false = spare d.maxlen (length d.items) (length xs) fits in
    let kept =
      added-IsConsistent d x (u, same, f) new
        (spare_one d.maxlen (length d.items) (length xs) fits) in
    let (d', e, items, bound, h') =
      extend_fresh xs (added d x) kept unique (IsApart-snoc x xs d.items p apart)
        (subst (Fits d.maxlen) (omega (arith, length-append d.items (x ∷ []))) fits) in
    (
      d',
      rw (extend, append_fresh d x (same x ∙ new) short) e,
      items ∙ append_assoc d.items (x ∷ []) xs,
      bound,
      h',
    )

-- The constructor, given elements of which none stands twice, within the bound, returns a consistent
-- deque of these elements in their order.
pub unique_deque-IsConsistent :
    (xs : List ℕ) (maxlen : Option ℕ)
    → IsUnique xs
    → Fits maxlen (length xs)
    → (d' : UniqueDeque) × (unique_deque xs maxlen ≡ ok d')
      × (d'.items ≡ xs)
      × (d'.maxlen ≡ maxlen)
      × IsConsistent d'
unfolding unique_deque has IsApart
unique_deque-IsConsistent xs maxlen unique fits =
    extend_fresh xs (record { items = []; seen = []; maxlen = maxlen })
      (tt, λ y. refl, empty_fits maxlen (length xs) fits) unique (λ y q. refl)
      (subst (Fits maxlen) (omega arith) fits)
  where
    empty_fits : (o : Option ℕ) (n : ℕ) → Fits o n → Fits o 0
    empty_fits none n h = tt
    empty_fits (some m) n h = omega arith

-- `copy` of a consistent deque has its elements in their order and its bound, and `+` of it and other
-- elements is what `extend` makes of the copy, which is consistent and has the same bound.
pub copy-concat :
    (d : UniqueDeque) (xs : List ℕ)
    → IsConsistent d
    → HasRoom d.maxlen
    → (c d' : UniqueDeque) × (copy d ≡ ok c)
      × (c.items ≡ d.items)
      × (c.maxlen ≡ d.maxlen)
      × (concat d xs ≡ ok d')
      × (extend c xs ≡ ok d')
      × (d'.maxlen ≡ d.maxlen)
      × IsConsistent d'
unfolding copy concat
copy-concat d xs (unique, same, fits) room =
    let (c, e, items, bound, h) = unique_deque-IsConsistent d.items d.maxlen unique fits in
    let (d', e', bound', h') = extend-IsConsistent xs c h (subst HasRoom (sym bound) room) in
    (c, d', e, items, bound, rw e e', e', bound' ∙ bound, h')
