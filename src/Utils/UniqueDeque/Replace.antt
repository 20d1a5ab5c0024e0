-- ===== src/Utils/UniqueDeque/Replace.antt =====
-- `UniqueDeque.__setitem__` leaves the element that it replaces in `_seen` (utils/unique_deque.py).
use py_legacy.Common.{
  ℕ, zero, suc, ◌≡◌, refl, ◌∙◌, true, false, none, some, List, [], ◌∷◌, arith, length, get_elem?,
  raise, Error,
}
use py_legacy.Common.Int.{ℤ}
use py_legacy.Utils.UniqueDeque.{UniqueDeque, has, append, set_item, set_at, position}
use py_legacy.Utils.UniqueDeque.Lists.{IsUnique}
use py_legacy.Utils.UniqueDeque.Invariant.{IsConsistent}
use py_legacy.Utils.UniqueDeque.Stale.{append_stale}

has-get_elem : (k y : ℕ) (xs : List ℕ) → get_elem? xs k ≡ some y → has y xs ≡ true
unfolding has
has-get_elem k y [] e = absurd (cc e)
has-get_elem zero y (z ∷ xs) e = ground arith
has-get_elem (suc k) y (z ∷ xs) e = ground (arith, has-get_elem k y xs e)

-- The replaced element is gone.
has-set_at :
    (k x y : ℕ) (xs : List ℕ)
    → IsUnique xs
    → get_elem? xs k ≡ some y
    → has x xs ≡ false
    → has y (set_at k x xs) ≡ false
unfolding has set_at
has-set_at k x y [] h e p = absurd (cc e)
has-set_at zero x y (z ∷ xs) (q, h) e p = ground arith
has-set_at (suc k) x y (z ∷ xs) (q, h) e p =
    ground (arith, has-set_at k x y xs h e (ground arith), has-get_elem k y xs e)

-- Once an element is replaced by a new one, by its index, `append` raises an exception for it.
pub set_item-append :
    (d : UniqueDeque) (key : ℤ) (k x y : ℕ)
    → IsConsistent d
    → position (length d.items) key ≡ some k
    → get_elem? d.items k ≡ some y
    → has x d.items ≡ false
    → (d' : UniqueDeque) × (e : Error) × (set_item d key x ≡ (none, d')) × (append d' y ≡ raise e)
unfolding set_item has
set_item-append d key k x y (unique, same, fits) at there new =
    let left : UniqueDeque = record d { seen = x ∷ d.seen; items = set_at k x d.items } in
    let still : has y (x ∷ d.seen) ≡ true =
      ground (arith, same y, has-get_elem k y d.items there) in
    let (error, fails) = append_stale left y still (has-set_at k x y d.items unique there new) in
    (left, error, rw (set_item, same x ∙ new) (rw at refl), fails)
