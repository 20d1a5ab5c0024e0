-- ===== src/Utils/ExpiringSet.antt =====
-- `ExpiringSet` (utils/expiring_set.py). A call of `time()` is an argument: what it returned, in ticks
-- of a clock; elements are numbers. The lock is not modelled.
pub mod Laws
pub mod Size
use py_legacy.Common.{
  ℕ, suc, ◌-◌, Bool, true, false, not, Option, none, some, List, [], ◌∷◌, ◌++◌, ◌==◌, leb, ltb,
  if◌then◌else◌, length, Result, ok, raise, key_error,
}

-- `_age` and `_container`
pub record ExpiringSet : Type 0 where
  pub age : ℕ
  pub container : List (ℕ × ℕ)

unfoldable pub stamp_of : ℕ → List (ℕ × ℕ) → Option ℕ
stamp_of v [] = none
stamp_of v ((k, t) ∷ rest) = let later = stamp_of v rest in if v == k then some t else later

-- `del self._container[value]`
unfoldable pub delete : ℕ → List (ℕ × ℕ) → List (ℕ × ℕ)
delete v [] = []
delete v ((k, t) ∷ rest) = let others = delete v rest in if v == k then others else (k, t) ∷ others

-- The entries that are not too old.
unfoldable pub unexpired : ℕ → ℕ → List (ℕ × ℕ) → List (ℕ × ℕ)
unexpired age now [] = []
unexpired age now ((k, t) ∷ rest) =
    let others = unexpired age now rest in if leb (now - t) age then (k, t) ∷ others else others

-- `__len__`
unfoldable pub size : ExpiringSet → ℕ → ℕ × ExpiringSet
unfolding unexpired
size s now =
    let left = unexpired s.age now s.container in (length left, record s { container = left })

unfoldable pub contains : ExpiringSet → ℕ → ℕ → Bool × ExpiringSet
unfolding stamp_of delete
contains s v now = elim (stamp_of v s.container) [
  | none ↦ (false, s)
  | some t ↦
      if ltb s.age (now - t)
      then (false, record s { container = delete v s.container })
      else (true, s)
]

-- `contains` reads the clock first, then the new entry does.
unfoldable pub add : ExpiringSet → ℕ → ℕ → ℕ → ExpiringSet
unfolding contains
add s v now later =
    let checked = contains s v now in
    if checked.0
    then checked.1
    else record { age = checked.1.age; container = checked.1.container ++ (v, later) ∷ [] }

unfoldable pub clear : ExpiringSet → ExpiringSet
clear s = record s { container = [] }

unfoldable pub discard : ExpiringSet → ℕ → ExpiringSet
discard s v = record s { container = delete v s.container }

unfoldable pub remove : ExpiringSet → ℕ → Result ExpiringSet
unfolding discard stamp_of
remove s v = elim (stamp_of v s.container) [ none ↦ raise key_error | some t ↦ ok (discard s v) ]
