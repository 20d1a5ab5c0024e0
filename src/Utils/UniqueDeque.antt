-- ===== src/Utils/UniqueDeque.antt =====
-- `UniqueDeque` (utils/unique_deque.py): a deque that holds no element twice. The elements are
-- numbers, so that an index can be an element as well; the lock is not modelled.
pub mod Lists
pub mod Invariant
pub mod Append
pub mod Delete
pub mod Stale
pub mod Insert
pub mod Replace
pub mod Prepend
pub mod Copy
use py_legacy.Common.{
  ℕ, zero, suc, ◌+◌, ◌-◌, Bool, true, false, not, ◌&&◌, ◌||◌, Option, none, some, List, [], ◌∷◌,
  ◌++◌, ◌==◌, ltb, leb, if◌then◌else◌, get_elem?, length, take, drop, Result, ok, raise, Error,
  index_error, value_error, ◌>>=◌,
}
use py_legacy.Common.Int.{ℤ, pos, negsuc}

-- `x in xs`
unfoldable pub has : ℕ → List ℕ → Bool
has x [] = false
has x (y ∷ ys) = x == y || has x ys

-- `deque.remove`, where the element is there
unfoldable pub without : ℕ → List ℕ → List ℕ
without x [] = []
without x (y ∷ ys) = let rest = without x ys in if x == y then ys else y ∷ rest

-- `set.discard`
unfoldable pub discard : ℕ → List ℕ → List ℕ
discard x [] = []
discard x (y ∷ ys) = let rest = discard x ys in if x == y then rest else y ∷ rest

unfoldable pub last : List ℕ → Option ℕ
last [] = none
last (x ∷ []) = some x
last (x ∷ y ∷ ys) = last (y ∷ ys)

unfoldable pub but_last : List ℕ → List ℕ
but_last [] = []
but_last (x ∷ []) = []
but_last (x ∷ y ∷ ys) = x ∷ but_last (y ∷ ys)

pub record UniqueDeque : Type 0 where
  pub items : List ℕ
  pub seen : List ℕ
  pub maxlen : Option ℕ

-- `self.maxlen is not None and len(self) == self.maxlen`
unfoldable pub is_full : UniqueDeque → Bool
is_full d = elim d.maxlen [ none ↦ false | some m ↦ length d.items == m ]

unfoldable pub clear : UniqueDeque → UniqueDeque
clear d = record d { items = []; seen = [] }

-- `super().remove(x)`
unfoldable pub remove_item : UniqueDeque → ℕ → Result UniqueDeque
remove_item d x =
    if has x d.items then ok (record d { items = without x d.items }) else raise value_error

unfoldable pub remove : UniqueDeque → ℕ → Result UniqueDeque
unfolding remove_item
remove d x = do d' ← remove_item d x; ok (record d' { seen = discard x d'.seen })

unfoldable pub popleft : UniqueDeque → Result (ℕ × UniqueDeque)
popleft d = elim d.items [
  | [] ↦ raise index_error
  | x ∷ rest ↦ ok (x, record { items = rest; seen = discard x d.seen; maxlen = d.maxlen })
]

unfoldable pub pop : UniqueDeque → Result (ℕ × UniqueDeque)
pop d = elim (last d.items) [
  | none ↦ raise index_error
  | some x ↦ ok (x, record d { items = but_last d.items; seen = discard x d.seen })
]

unfoldable pub append : UniqueDeque → ℕ → Result UniqueDeque
unfolding remove_item popleft is_full
append d x =
    if has x d.seen
    then (elim (last d.items) [
      | none ↦ raise index_error
      | some y ↦
          if y == x
          then ok d
          else (do d' ← remove_item d x; ok (record d' { items = d'.items ++ x ∷ [] }))
    ])
    else do
      d' ← if is_full d then (do (y, shorter) ← popleft d; ok shorter) else ok d
      ok (record d' { seen = x ∷ d'.seen; items = d'.items ++ x ∷ [] })

-- also `push`
unfoldable pub appendleft : UniqueDeque → ℕ → Result UniqueDeque
unfolding remove_item pop is_full
appendleft d x =
    if has x d.seen
    then (elim d.items [
      | [] ↦ raise index_error
      | y ∷ rest ↦
          if y == x
          then ok d
          else (do d' ← remove_item d x; ok (record d' { items = x ∷ d'.items }))
    ])
    else do
      d' ← if is_full d then (do (y, shorter) ← pop d; ok shorter) else ok d
      ok (record d' { seen = x ∷ d'.seen; items = x ∷ d'.items })

-- also `__iadd__`
unfoldable pub extend : UniqueDeque → List ℕ → Result UniqueDeque
extend d [] = ok d
extend d (x ∷ xs) = do d' ← append d x; extend d' xs

unfoldable pub extendleft : UniqueDeque → List ℕ → Result UniqueDeque
extendleft d [] = ok d
extendleft d (x ∷ xs) = do d' ← appendleft d x; extendleft d' xs

-- `UniqueDeque(iterable, maxlen)`
unfoldable pub unique_deque : List ℕ → Option ℕ → Result UniqueDeque
unique_deque iterable maxlen = extend (record { items = []; seen = []; maxlen = maxlen }) iterable

unfoldable pub copy : UniqueDeque → Result UniqueDeque
copy d = unique_deque d.items d.maxlen

-- The position that an index names.
unfoldable pub position : ℕ → ℤ → Option ℕ
position n (pos i) = if ltb i n then some i else none
position n (negsuc i) = if ltb i n then some (n - 1 - i) else none

-- `__delitem__`: what leaves `_seen` is the index.
unfoldable pub delete_item : UniqueDeque → ℤ → Result UniqueDeque
unfolding position
delete_item d key = elim (position (length d.items) key) [
  | none ↦ raise index_error
  | some i ↦ ok (record d {
    items = take i d.items ++ drop (suc i) d.items;
    seen = elim key as (λ _. List ℕ) [ pos k ↦ discard k d.seen | negsuc k ↦ d.seen ];
  })
]

-- `next`: the element behind the index, else the first.
unfoldable pub next : UniqueDeque → ℕ → Option ℕ
next d index = elim (get_elem? d.items (index + 1)) [ some x ↦ some x | none ↦ get_elem? d.items 0 ]

-- The list of `deque.insert`: an index that is too high is the end.
unfoldable pub insert_at : ℕ → ℕ → List ℕ → List ℕ
insert_at zero x ys = x ∷ ys
insert_at (suc i) x [] = x ∷ []
insert_at (suc i) x (y ∷ ys) = y ∷ insert_at i x ys

-- Where an index puts an element; one that is too low is the front.
unfoldable pub slot : ℕ → ℤ → ℕ
slot n (pos i) = i
slot n (negsuc i) = n - (i + 1)

-- `super().insert(i, value)`, and what it raised; the state is kept when it raises.
unfoldable pub insert_item : UniqueDeque → ℤ → ℕ → Option Error × UniqueDeque
unfolding is_full insert_at slot
insert_item d i x =
    if is_full d
    then (some index_error, d)
    else (none, record d { items = insert_at (slot (length d.items) i) x d.items })

-- What was raised, and the state that is left.
unfoldable pub insert : UniqueDeque → ℤ → ℕ → Option Error × UniqueDeque
unfolding insert_item remove_item
insert d i x =
    if has x d.seen
    then (elim (remove_item d x) [ raise e ↦ (some e, d) | ok d' ↦ insert_item d' i x ])
    else insert_item (record d { seen = x ∷ d.seen }) i x

unfoldable pub set_at : ℕ → ℕ → List ℕ → List ℕ
set_at i x [] = []
set_at zero x (y ∷ ys) = x ∷ ys
set_at (suc i) x (y ∷ ys) = y ∷ set_at i x ys

-- `__setitem__`: what was raised, and the state that is left.
unfoldable pub set_item : UniqueDeque → ℤ → ℕ → Option Error × UniqueDeque
unfolding position set_at
set_item d key x = if has x d.seen then (none, d) else (elim (position (length d.items) key) [
  | none ↦ (some index_error, record d { seen = x ∷ d.seen })
  | some i ↦ (none, record d { seen = x ∷ d.seen; items = set_at i x d.items })
])

-- `previous`: index -1 is the last element.
unfoldable pub previous : UniqueDeque → ℕ → Option ℕ
previous d zero = last d.items
previous d (suc index) = get_elem? d.items index

-- `__add__`
unfoldable pub concat : UniqueDeque → List ℕ → Result UniqueDeque
concat d xs = do uq ← copy d; extend uq xs
