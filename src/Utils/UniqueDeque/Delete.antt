-- ===== src/Utils/UniqueDeque/Delete.antt =====
-- `UniqueDeque.__delitem__` leaves the element in `_seen` (utils/unique_deque.py).
use py_legacy.Common.{
  ℕ, ◌≡◌, refl, ap, ◌∙◌, ◌≢◌, true, some, List, ◌∷◌, arith, length, ok, raise, Error,
}
use mathlib.Core.Path.{subst}
use py_legacy.Common.Int.{pos}
use py_legacy.Utils.UniqueDeque.{UniqueDeque, has, append, delete_item, discard, position}
use py_legacy.Utils.UniqueDeque.Lists.{IsUnique, has-discard}
use py_legacy.Utils.UniqueDeque.Invariant.{IsConsistent}
use py_legacy.Utils.UniqueDeque.Stale.{append_stale}

-- Once the first element, if it is not 0, is deleted by its index, `append` raises an exception for it.
pub delete_item-append :
    (d : UniqueDeque) (x : ℕ) (rest : List ℕ)
    → d.items ≡ x ∷ rest
    → IsConsistent d
    → x ≢ 0
    → (d' : UniqueDeque) × (e : Error) × (delete_item d (pos 0) ≡ ok d') × (append d' x ≡ raise e)
unfolding delete_item position has
delete_item-append d x rest e (unique, same, fits) nz =
    let still : has x (discard 0 d.seen) ≡ true =
      has-discard x 0 d.seen ∙ ground (arith, same x, ap (has x) e) in
    let (gone, _) = subst IsUnique e unique in
    let cut : UniqueDeque = record d { items = rest; seen = discard 0 d.seen } in
    let first : position (length d.items) (pos 0) ≡ some 0 = ground (arith, ap length e) in
    let (error, fails) = append_stale cut x still gone in
    (cut, error, rw (delete_item, first) (rw e refl), fails)
