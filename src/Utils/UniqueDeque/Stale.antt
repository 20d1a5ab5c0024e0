-- ===== src/Utils/UniqueDeque/Stale.antt =====
-- An element that is in `_seen` and not in the deque (utils/unique_deque.py).
use py_legacy.Common.{
  ℕ, ◌≡◌, refl, sym, ◌∙◌, true, false, ◌==◌, Option-cases, Bool-cases, eq_of_==, inl, inr, raise,
  Error, index_error, value_error,
}
use mathlib.Core.Path.{subst}
use py_legacy.Utils.UniqueDeque.{UniqueDeque, has, last, append, remove_item}
use py_legacy.Utils.UniqueDeque.Lists.{has-last}

-- `append` takes such an element for one that it has to move, and fails.
pub append_stale :
    (d : UniqueDeque) (x : ℕ)
    → has x d.seen ≡ true
    → has x d.items ≡ false
    → (e : Error) × (append d x ≡ raise e)
unfolding append remove_item
append_stale d x still gone = elim (Option-cases (last d.items)) [
  | inl q ↦ (index_error, rw (append, still) (rw q refl))
  | inr (y, q) ↦
      let other : (y == x) ≡ false = elim (Bool-cases (y == x)) as (λ _. (y == x) ≡ false) [
        | inl t ↦
            let there : has x d.items ≡ true =
              subst (λ z. has z d.items ≡ true) (eq_of_== y x t) (has-last y d.items q) in
            absurd (cc (sym there ∙ gone))
        | inr t ↦ t
      ] in
      (value_error, rw (append, still) (rw (q, other, gone) refl))
]
