-- ===== src/Utils/UniqueDeque/Insert.antt =====
-- `UniqueDeque.insert` (utils/unique_deque.py).
use py_legacy.Common.{
  ℕ, zero, suc, ◌≤◌, ◌≡◌, refl, sym, ap, ◌∙◌, true, false, not, ◌||◌, Option, none, some, List, [],
  ◌∷◌, arith, ◌==◌, length, Bool-cases, eq_of_==, inl, inr, raise, Error, index_error,
}
use py_legacy.Common.Int.{ℤ}
use py_legacy.Utils.UniqueDeque.{
  UniqueDeque, has, without, is_full, remove_item, append, insert, insert_item, insert_at, slot,
}
use py_legacy.Utils.UniqueDeque.Lists.{IsUnique, has-without, without-IsUnique, length-without}
use py_legacy.Utils.UniqueDeque.Invariant.{Fits, IsConsistent}
use py_legacy.Utils.UniqueDeque.Stale.{append_stale}

has-insert_at : (y i x : ℕ) (xs : List ℕ) → has y (insert_at i x xs) ≡ (y == x || has y xs)
unfolding has insert_at
has-insert_at y zero x xs = refl
has-insert_at y (suc i) x [] = refl
has-insert_at y (suc i) x (z ∷ xs) = ground (arith, has-insert_at y i x xs)

insert_at-IsUnique :
    (i x : ℕ) (xs : List ℕ) → IsUnique xs → has x xs ≡ false → IsUnique (insert_at i x xs)
unfolding has insert_at
insert_at-IsUnique zero x xs h p = (p, h)
insert_at-IsUnique (suc i) x [] h p = (refl, tt)
insert_at-IsUnique (suc i) x (z ∷ xs) (q, h) p =
    (ground (arith, has-insert_at z i x xs), insert_at-IsUnique i x xs h (ground arith))

length-insert_at : (i x : ℕ) (xs : List ℕ) → length (insert_at i x xs) ≡ suc (length xs)
unfolding insert_at
length-insert_at zero x xs = refl
length-insert_at (suc i) x [] = refl
length-insert_at (suc i) x (z ∷ xs) = ap suc (length-insert_at i x xs)

pub without_absent : (x : ℕ) (xs : List ℕ) → has x xs ≡ false → without x xs ≡ xs
unfolding has without
without_absent x [] h = refl
without_absent x (z ∷ xs) h = elim (Bool-cases (x == z)) [
  | inl e ↦ absurd (ground arith)
  | inr e ↦ rw e (ap (λ r. z ∷ r) (without_absent x xs (ground arith)))
]

room_left :
    (o : Option ℕ) (n k : ℕ)
    → Fits o n
    → (elim o [ none ↦ false | some m ↦ k == m ]) ≡ false
    → k ≤ n
    → Fits o (suc k)
room_left none n k h e le = tt
room_left (some m) n k h e le = ground arith

less_room :
    (o : Option ℕ) (n k : ℕ)
    → Fits o n
    → suc k ≡ n
    → (elim o [ none ↦ false | some m ↦ k == m ]) ≡ false
less_room none n k h e = refl
less_room (some m) n k h e = ground arith

-- `super().insert` where the element is not in the deque, but in `_seen` already.
inserted-IsConsistent :
    (d : UniqueDeque) (k x : ℕ)
    → IsUnique d.items
    → ((y : ℕ) → has y d.seen ≡ (y == x || has y d.items))
    → has x d.items ≡ false
    → Fits d.maxlen (suc (length d.items))
    → IsConsistent (record d { items = insert_at k x d.items })
inserted-IsConsistent d k x unique same p room = (
  insert_at-IsUnique k x d.items unique p,
  λ y. same y ∙ sym (has-insert_at y k x d.items),
  rw (length-insert_at k x d.items) room,
)

-- What `insert` promises of the deque that it leaves.
abbrev pub IsInserted : UniqueDeque → ℤ → ℕ → UniqueDeque → Type 0
IsInserted d i x d' =
    (insert d i x ≡ (none, d'))
    × (d'.items ≡ insert_at (slot (length (without x d.items)) i) x (without x d.items))
    × (d'.maxlen ≡ d.maxlen)
    × IsConsistent d'

insert_again :
    (d : UniqueDeque) (i : ℤ) (x : ℕ)
    → IsConsistent d
    → has x d.items ≡ true
    → (d' : UniqueDeque) × IsInserted d i x d'
unfolding insert insert_item remove_item is_full
insert_again d i x (unique, same, fits) p =
    let taken : UniqueDeque = record d { items = without x d.items } in
    let k : ℕ = slot (length (without x d.items)) i in
    let shorter = length-without x d.items p in
    let room : is_full taken ≡ false =
      less_room d.maxlen (length d.items) (length (without x d.items)) fits shorter in
    (
      record taken { items = insert_at k x taken.items },
      (
        rw (insert, same x ∙ p) (rw (p, room) refl),
        refl,
        refl,
        inserted-IsConsistent taken k x (without-IsUnique x d.items unique) (λ y. same y ∙ still y)
            (ground (arith, has-without x x d.items unique))
            (room_left d.maxlen (length d.items) (length (without x d.items)) fits room
              (omega arith)),
      ),
    )
  where
    still : (y : ℕ) → has y d.items ≡ (y == x || has y (without x d.items))
    still y = elim (Bool-cases (y == x)) [
      | inl e ↦
          let q : has y d.items ≡ true = ap (λ z. has z d.items) (eq_of_== y x e) ∙ p in
          ground arith
      | inr e ↦ ground (arith, has-without y x d.items unique)
    ]

insert_new :
    (d : UniqueDeque) (i : ℤ) (x : ℕ)
    → IsConsistent d
    → is_full d ≡ false
    → has x d.items ≡ false
    → (d' : UniqueDeque) × IsInserted d i x d'
unfolding insert insert_item is_full has
insert_new d i x (unique, same, fits) room p =
    let marked : UniqueDeque = record d { seen = x ∷ d.seen } in
    let k : ℕ = slot (length d.items) i in
    (
      record marked { items = insert_at k x d.items },
      (
        rw (insert, same x ∙ p) (rw room refl),
        rw (without_absent x d.items p) refl,
        refl,
        inserted-IsConsistent marked k x unique (λ y. ground (arith, same y)) p
            (room_left d.maxlen (length d.items) (length d.items) fits room (omega arith)),
      ),
    )

-- `insert` on a consistent deque that is not full, or has the element already, returns, leaves a
-- consistent deque of the same bound, and the element stands at the index among the others (at the end
-- if the index is too high, at the front if it is too low).
pub insert-IsConsistent :
    (d : UniqueDeque) (i : ℤ) (x : ℕ)
    → IsConsistent d
    → (not (is_full d) || has x d.items) ≡ true
    → (d' : UniqueDeque) × IsInserted d i x d'
insert-IsConsistent d i x h free = elim (Bool-cases (has x d.items)) [
  | inl p ↦ insert_again d i x h p
  | inr p ↦ insert_new d i x h (ground arith) p
]

-- `insert` of a new element into a full deque raises IndexError, and after that `append` of the element
-- raises an exception too.
pub insert-append :
    (d : UniqueDeque) (i : ℤ) (x : ℕ)
    → IsConsistent d
    → is_full d ≡ true
    → has x d.items ≡ false
    → (d' : UniqueDeque) × (e : Error) × (insert d i x ≡ (some index_error, d'))
      × (append d' x ≡ raise e)
unfolding insert insert_item has is_full
insert-append d i x (unique, same, fits) full p =
    let left : UniqueDeque = record d { seen = x ∷ d.seen } in
    let (error, fails) = append_stale left x (ground arith) p in
    (left, error, rw (insert, same x ∙ p) (rw full refl), fails)
