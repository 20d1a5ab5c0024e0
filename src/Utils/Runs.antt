-- ===== src/Utils/Runs.antt =====
-- Concrete runs of `UniqueDeque`: tests, and the theorems at one input.
use py_legacy.Common.{
  key_error, none, index_error, leb, ◌-◌, ℕ, some, [], ◌∷◌, ◌≡◌, refl, arith, ok, raise, Error,
}
use py_legacy.Common.Int.{pos, negsuc}
use py_legacy.Utils.ExpiringSet as Set
use py_legacy.Utils.ExpiringSet.{ExpiringSet, stamp_of, delete, contains, add, size, unexpired}
use py_legacy.Utils.ExpiringSet.Laws.{is_in, contains-add_new}
use py_legacy.Utils.UniqueDeque.{
  UniqueDeque, has, without, last, but_last, is_full, remove_item, popleft, pop, append, appendleft,
  discard, insert, insert_item, insert_at, slot, previous,
}
use py_legacy.Utils.UniqueDeque.Append.{IsAppended, append-IsConsistent}
use py_legacy.Utils.UniqueDeque.Insert.{insert-append}

abbrev recent : UniqueDeque
recent = record { items = 5 ∷ 3 ∷ []; seen = 3 ∷ 5 ∷ []; maxlen = some 2 }

-- The three ways an element can be added to a full deque.
moved_behind :
    append recent 5 ≡ ok (record { items = 3 ∷ 5 ∷ []; seen = 3 ∷ 5 ∷ []; maxlen = some 2 })
unfolding append has last remove_item without
moved_behind = refl

kept : append recent 3 ≡ ok recent
unfolding append has last
kept = refl

pushed_out :
    append recent 7 ≡ ok (record { items = 3 ∷ 7 ∷ []; seen = 7 ∷ 3 ∷ []; maxlen = some 2 })
unfolding append has is_full popleft discard
pushed_out = refl

pushed_out_left :
    appendleft recent 7 ≡ ok (record { items = 7 ∷ 5 ∷ []; seen = 7 ∷ 5 ∷ []; maxlen = some 2 })
unfolding appendleft has is_full pop last but_last discard
pushed_out_left = refl

same_elements : (y : ℕ) → has y recent.seen ≡ has y recent.items
unfolding has
same_elements y = ground arith

append-IsConsistent_example : (d' : UniqueDeque) × IsAppended recent 7 d'
unfolding has
append-IsConsistent_example =
    append-IsConsistent recent 7 ((refl, (refl, tt)), same_elements, omega arith) (omega arith)

abbrev roomy : UniqueDeque
roomy = record { items = 5 ∷ 3 ∷ []; seen = 3 ∷ 5 ∷ []; maxlen = some 3 }

inserted_behind :
    insert roomy (negsuc 0) 7
    ≡ (none, record { items = 5 ∷ 7 ∷ 3 ∷ []; seen = 7 ∷ 3 ∷ 5 ∷ []; maxlen = some 3 })
unfolding insert insert_item insert_at slot has is_full
inserted_behind = refl

insert-append_example :
    (d' : UniqueDeque) × (e : Error) × (insert recent (pos 0) 7 ≡ (some index_error, d'))
    × (append d' 7 ≡ raise e)
unfolding has is_full
insert-append_example =
    insert-append recent (pos 0) 7 ((refl, (refl, tt)), same_elements, omega arith) refl refl

before_first : previous recent 0 ≡ some 3
unfolding previous last
before_first = refl

abbrev heard : ExpiringSet
heard = record { age = 10; container = (7, 100) ∷ (8, 104) ∷ [] }

contains-add_new_example : is_in (add heard 7 112 113) 7 120 ≡ leb (120 - 113) 10
unfolding contains stamp_of delete
contains-add_new_example = contains-add_new heard 7 112 113 7 120 refl

-- The number that the size is given as.
one_left : (size heard 112).0 ≡ 1
unfolding size unexpired
one_left = refl

removed : Set.remove heard 9 ≡ raise key_error
unfolding Set.remove stamp_of
removed = refl
