-- ===== src/Utils/ExpiringSet/Size.antt =====
-- What is left in an `ExpiringSet` after its size was asked for (utils/expiring_set.py).
use py_legacy.Common.{
  ℕ, ◌-◌, ◌≡◌, refl, ap, ◌∙◌, ◌&&◌, Option, none, some, List, [], ◌∷◌, ◌==◌, leb, if◌then◌else◌,
  Bool-cases, inl, inr, eq_of_==,
}
use py_legacy.Utils.ExpiringSet.{ExpiringSet, stamp_of, unexpired, size}
use py_legacy.Utils.ExpiringSet.Laws.{is_in, live, is_in_lem}

-- An element has one entry at most, as in every dict.
abbrev pub IsDict : List (ℕ × ℕ) → Type 0
IsDict [] = Unit
IsDict ((k, t) ∷ rest) = (stamp_of k rest ≡ none) × IsDict rest

abbrev fresh : ℕ → ℕ → Option ℕ → Option ℕ
fresh age now none = none
fresh age now (some t) = if leb (now - t) age then some t else none

stamp_of-unexpired :
    (age now w : ℕ) (c : List (ℕ × ℕ))
    → IsDict c
    → stamp_of w (unexpired age now c) ≡ fresh age now (stamp_of w c)
unfolding stamp_of unexpired
stamp_of-unexpired age now w [] h = refl
stamp_of-unexpired age now w ((k, t) ∷ c) (p, h) = elim (Bool-cases (w == k)) [
  | inl e ↦
      let absent : stamp_of w c ≡ none = ap (λ z. stamp_of z c) (eq_of_== w k e) ∙ p in
      elim (Bool-cases (leb (now - t) age)) [
        | inl f ↦ rw f (rw e (rw f refl))
        | inr f ↦ rw f (rw e (rw f (stamp_of-unexpired age now w c h ∙ rw absent refl)))
      ]
  | inr e ↦ elim (Bool-cases (leb (now - t) age)) [
    | inl f ↦ rw f (rw e (stamp_of-unexpired age now w c h))
    | inr f ↦ rw f (rw e (stamp_of-unexpired age now w c h))
  ]
]

live-fresh :
    (age now t : ℕ) (o : Option ℕ) → live age t (fresh age now o) ≡ (live age now o && live age t o)
live-fresh age now t none = refl
live-fresh age now t (some u) = elim (Bool-cases (leb (now - u) age)) [
  | inl f ↦ rw f refl
  | inr f ↦ rw f refl
]

-- Asking for the size takes out the elements that are too old by then, and no others.
pub contains-size :
    (s : ExpiringSet) (now w t : ℕ)
    → IsDict s.container
    → is_in (size s now).1 w t ≡ (is_in s w now && is_in s w t)
unfolding size
contains-size s now w t h =
    is_in_lem (record s { container = unexpired s.age now s.container }) w t
    ∙ (ap (live s.age t) (stamp_of-unexpired s.age now w s.container h)
        ∙ (live-fresh s.age now t (stamp_of w s.container)
            ∙ rw (is_in_lem s w now, is_in_lem s w t) refl))
