-- ===== src/Utils/UniqueDeque/Lists.antt =====
-- Membership in a list of which an element is taken off or to which one is added.
use py_legacy.Common.{
  ℕ, suc, ◌≤◌, ◌≡◌, refl, true, false, not, ◌&&◌, ◌||◌, none, some, List, [], ◌∷◌, ◌++◌, arith,
  ◌==◌, length, Bool-cases, inl, inr, ◌⊎◌,
}
use py_legacy.Utils.UniqueDeque.{has, without, discard, last, but_last}

-- No element stands in the list twice.
abbrev pub IsUnique : List ℕ → Type 0
IsUnique [] = Unit
IsUnique (x ∷ xs) = (has x xs ≡ false) × IsUnique xs

pub has-snoc : (y : ℕ) (xs : List ℕ) (x : ℕ) → has y (xs ++ x ∷ []) ≡ (has y xs || y == x)
unfolding has
has-snoc y [] x = ground arith
has-snoc y (z ∷ xs) x = ground (arith, has-snoc y xs x)

pub has-discard : (y x : ℕ) (xs : List ℕ) → has y (discard x xs) ≡ (has y xs && not (y == x))
unfolding has discard
has-discard y x [] = refl
has-discard y x (z ∷ xs) = ground (arith, has-discard y x xs)

pub has-without :
    (y x : ℕ) (xs : List ℕ) → IsUnique xs → has y (without x xs) ≡ (has y xs && not (y == x))
unfolding has without
has-without y x [] h = refl
has-without y x (z ∷ xs) (p, h) = ground (arith, has-without y x xs h)

pub without-IsUnique : (x : ℕ) (xs : List ℕ) → IsUnique xs → IsUnique (without x xs)
unfolding without
without-IsUnique x [] h = tt
without-IsUnique x (z ∷ xs) (p, h) = elim (Bool-cases (x == z)) [
  | inl e ↦ rw e h
  | inr e ↦ rw e (ground (arith, has-without z x xs h), without-IsUnique x xs h)
]

pub snoc-IsUnique : (xs : List ℕ) (x : ℕ) → IsUnique xs → has x xs ≡ false → IsUnique (xs ++ x ∷ [])
unfolding has
snoc-IsUnique [] x h p = (refl, tt)
snoc-IsUnique (z ∷ xs) x (q, h) p =
    (ground (arith, has-snoc z xs x), snoc-IsUnique xs x h (ground arith))

pub length-without :
    (x : ℕ) (xs : List ℕ) → has x xs ≡ true → suc (length (without x xs)) ≡ length xs
unfolding has without
length-without x [] h = absurd (cc h)
length-without x (z ∷ xs) h = ground (arith, length-without x xs)

pub has-last : (x : ℕ) (xs : List ℕ) → last xs ≡ some x → has x xs ≡ true
unfolding has last
has-last x [] e = absurd (cc e)
has-last x (z ∷ []) e = ground arith
has-last x (z ∷ w ∷ xs) e = ground (arith, has-last x (w ∷ xs))

not_in_front : (z : ℕ) (xs : List ℕ) → has z xs ≡ false → has z (but_last xs) ≡ false
unfolding has but_last
not_in_front z [] p = refl
not_in_front z (a ∷ []) p = refl
not_in_front z (a ∷ b ∷ xs) p = ground (arith, not_in_front z (b ∷ xs))

-- The list without its last element.
pub has-but_last :
    (y x : ℕ) (xs : List ℕ)
    → IsUnique xs
    → last xs ≡ some x
    → has y (but_last xs) ≡ (has y xs && not (y == x))
unfolding has last but_last
has-but_last y x [] h e = absurd (cc e)
has-but_last y x (z ∷ []) h e = ground arith
has-but_last y x (z ∷ w ∷ xs) (p, h) e =
    let q = has-last x (w ∷ xs) e in ground (arith, has-but_last y x (w ∷ xs) h e)

pub but_last-IsUnique : (xs : List ℕ) → IsUnique xs → IsUnique (but_last xs)
unfolding but_last
but_last-IsUnique [] h = tt
but_last-IsUnique (z ∷ []) h = tt
but_last-IsUnique (z ∷ w ∷ xs) (p, h) = (not_in_front z (w ∷ xs) p, but_last-IsUnique (w ∷ xs) h)

pub length-but_last : (xs : List ℕ) → 1 ≤ length xs → suc (length (but_last xs)) ≡ length xs
unfolding but_last
length-but_last [] h = absurd (omega arith)
length-but_last (z ∷ []) h = refl
length-but_last (z ∷ w ∷ xs) h = omega (arith, length-but_last (w ∷ xs) (omega arith))

pub last-snoc : (xs : List ℕ) (x : ℕ) → last (xs ++ x ∷ []) ≡ some x
unfolding last
last-snoc [] x = refl
last-snoc (z ∷ []) x = refl
last-snoc (z ∷ w ∷ xs) x = last-snoc (w ∷ xs) x

pub last-none : (xs : List ℕ) → last xs ≡ none → xs ≡ []
unfolding last
last-none [] e = refl
last-none (z ∷ []) e = absurd (cc e)
last-none (z ∷ w ∷ xs) e = absurd (cc (last-none (w ∷ xs) e))

pub List-cases : (xs : List ℕ) → (xs ≡ []) ⊎ ((z : ℕ) × (rest : List ℕ) × (xs ≡ z ∷ rest))
List-cases [] = inl refl
List-cases (z ∷ rest) = inr (z, rest, refl)
