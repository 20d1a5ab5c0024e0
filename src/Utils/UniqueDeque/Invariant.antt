-- ===== src/Utils/UniqueDeque/Invariant.antt =====
-- What `UniqueDeque` keeps true (utils/unique_deque.py).
use py_legacy.Common.{
  ℕ, ◌≤◌, ◌≡◌, refl, sym, ap, ◌∙◌, true, false, not, ◌&&◌, Option, none, some, List, [], ◌∷◌, arith,
  ◌==◌, length, Bool-cases, eq_of_==, inl, inr, ok,
}
use py_legacy.Utils.UniqueDeque.{
  UniqueDeque, has, without, discard, last, but_last, remove, popleft, pop,
}
use py_legacy.Utils.UniqueDeque.Lists.{
  IsUnique, has-discard, has-without, without-IsUnique, length-without, has-but_last,
  but_last-IsUnique, length-but_last,
}

abbrev pub Fits : Option ℕ → ℕ → Type 0
Fits none n = Unit
Fits (some m) n = n ≤ m

-- No element twice, `_seen` has the same elements, and the bound holds.
abbrev pub IsConsistent : UniqueDeque → Type 0
IsConsistent d =
    IsUnique d.items × ((y : ℕ) → has y d.seen ≡ has y d.items) × Fits d.maxlen (length d.items)

-- There is room for one element at least.
abbrev pub HasRoom : Option ℕ → Type 0
HasRoom none = Unit
HasRoom (some m) = 1 ≤ m

Fits-mono : (o : Option ℕ) (n k : ℕ) → Fits o n → k ≤ n → Fits o k
Fits-mono none n k h le = tt
Fits-mono (some m) n k h le = omega arith

has-first :
    (y x : ℕ) (rest : List ℕ) → has x rest ≡ false → (has y (x ∷ rest) && not (y == x)) ≡ has y rest
unfolding has
has-first y x rest p = elim (Bool-cases (y == x)) [
  | inl e ↦ let q : has y rest ≡ false = ap (λ z. has z rest) (eq_of_== y x e) ∙ p in ground arith
  | inr e ↦ ground arith
]

-- `popleft` on a consistent deque gives the first element, and leaves a consistent deque of the others,
-- of the same bound.
pub popleft-IsConsistent :
    (d : UniqueDeque) (x : ℕ) (rest : List ℕ)
    → d.items ≡ x ∷ rest
    → IsConsistent d
    → (d' : UniqueDeque) × (popleft d ≡ ok (x, d'))
      × (d'.items ≡ rest)
      × (d'.maxlen ≡ d.maxlen)
      × IsConsistent d'
unfolding popleft
popleft-IsConsistent d x rest e (unique, same, fits) =
    let (p, unique') : IsUnique (x ∷ rest) = rw e at unique in
    (
      record { items = rest; seen = discard x d.seen; maxlen = d.maxlen },
      rw e refl,
      refl,
      refl,
      (
        unique',
        λ y.
            has-discard y x d.seen
            ∙ (ap (λ b. b && not (y == x)) (same y ∙ ap (has y) e) ∙ has-first y x rest p),
        Fits-mono d.maxlen (length d.items) (length rest) fits (rw e (omega arith)),
      ),
    )

but_last_le : (xs : List ℕ) → length (but_last xs) ≤ length xs
unfolding but_last
but_last_le [] = omega arith
but_last_le (x ∷ xs) = omega (arith, length-but_last (x ∷ xs) (omega arith))

-- `pop` on a consistent deque gives the last element, and leaves a consistent deque of the others, of
-- the same bound.
pub pop-IsConsistent :
    (d : UniqueDeque) (x : ℕ)
    → last d.items ≡ some x
    → IsConsistent d
    → (d' : UniqueDeque) × (pop d ≡ ok (x, d'))
      × (d'.items ≡ but_last d.items)
      × (d'.maxlen ≡ d.maxlen)
      × IsConsistent d'
unfolding pop
pop-IsConsistent d x e (unique, same, fits) = (
  record d { items = but_last d.items; seen = discard x d.seen },
  rw (pop, e) refl,
  refl,
  refl,
  (
    but_last-IsUnique d.items unique,
    λ y.
        has-discard y x d.seen
        ∙ (ap (λ b. b && not (y == x)) (same y) ∙ sym (has-but_last y x d.items unique e)),
    Fits-mono d.maxlen (length d.items) (length (but_last d.items)) fits (but_last_le d.items),
  ),
)

-- `remove` of an element of a consistent deque leaves a consistent deque of the others, in their order,
-- of the same bound.
pub remove-IsConsistent :
    (d : UniqueDeque) (x : ℕ)
    → has x d.items ≡ true
    → IsConsistent d
    → (d' : UniqueDeque) × (remove d x ≡ ok d')
      × (d'.items ≡ without x d.items)
      × (d'.maxlen ≡ d.maxlen)
      × IsConsistent d'
unfolding remove
remove-IsConsistent d x e (unique, same, fits) = (
  record d { items = without x d.items; seen = discard x d.seen },
  rw e refl,
  refl,
  refl,
  (
    without-IsUnique x d.items unique,
    λ y.
        has-discard y x d.seen
        ∙ (ap (λ b. b && not (y == x)) (same y) ∙ sym (has-without y x d.items unique)),
    Fits-mono d.maxlen (length d.items) (length (without x d.items)) fits
        (omega (arith, length-without x d.items e)),
  ),
)
