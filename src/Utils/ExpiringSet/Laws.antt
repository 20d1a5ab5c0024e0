-- ===== src/Utils/ExpiringSet/Laws.antt =====
-- What an `ExpiringSet` answers after it was changed (utils/expiring_set.py).
use py_legacy.Common.{
  ℕ, ◌-◌, ◌≡◌, refl, sym, ap, ◌∙◌, Bool, true, false, Option, none, some, List, [], ◌∷◌, ◌++◌,
  arith, ◌==◌, leb, ltb, if◌then◌else◌, Bool-cases, Option-cases, inl, inr, eq_of_==,
}
use py_legacy.Utils.ExpiringSet.{ExpiringSet, stamp_of, delete, contains, add, discard}

stamp_of-snoc :
    (w v t : ℕ) (c : List (ℕ × ℕ))
    → stamp_of w (c ++ (v, t) ∷ [])
      ≡ (elim (stamp_of w c) [ some u ↦ some u | none ↦ if w == v then some t else none ])
unfolding stamp_of
stamp_of-snoc w v t [] = refl
stamp_of-snoc w v t ((k, u) ∷ c) = ground (arith, stamp_of-snoc w v t c)

stamp_of-delete :
    (w v : ℕ) (c : List (ℕ × ℕ)) → stamp_of w (delete v c) ≡ (if w == v then none else stamp_of w c)
unfolding stamp_of delete
stamp_of-delete w v [] = ground arith
stamp_of-delete w v ((k, u) ∷ c) = ground (arith, stamp_of-delete w v c)

-- Whether an element is in the set at a time.
abbrev pub is_in : ExpiringSet → ℕ → ℕ → Bool
is_in s v now = (contains s v now).0

abbrev pub live : ℕ → ℕ → Option ℕ → Bool
live age now none = false
live age now (some t) = leb (now - t) age

module _ (s : ExpiringSet) (v now : ℕ) where
  contains-none : stamp_of v s.container ≡ none → contains s v now ≡ (false, s)
  unfolding contains
  contains-none e = rw (contains, e) refl

  contains_old :
      (t : ℕ)
      → stamp_of v s.container ≡ some t
      → ltb s.age (now - t) ≡ true
      → contains s v now ≡ (false, record s { container = delete v s.container })
  unfolding contains
  contains_old t e f = rw (contains, e) (rw f refl)

  contains_live :
      (t : ℕ)
      → stamp_of v s.container ≡ some t
      → ltb s.age (now - t) ≡ false
      → contains s v now ≡ (true, s)
  unfolding contains
  contains_live t e f = rw (contains, e) (rw f refl)

  pub is_in_lem : is_in s v now ≡ live s.age now (stamp_of v s.container)
  is_in_lem = elim (Option-cases (stamp_of v s.container)) [
    | inl e ↦ ap (λ p. p.0) (contains-none e) ∙ rw e refl
    | inr (t, e) ↦ elim (Bool-cases (ltb s.age (now - t))) [
      | inl f ↦ ap (λ p. p.0) (contains_old t e f) ∙ rw e (ground arith)
      | inr f ↦ ap (λ p. p.0) (contains_live t e f) ∙ rw e (ground arith)
    ]
  ]

  -- What `add` does with the answer of `contains`.
  add_of :
      (later : ℕ) (b : Bool) (s' : ExpiringSet)
      → contains s v now ≡ (b, s')
      → add s v now later
        ≡ (if b then s' else record { age = s'.age; container = s'.container ++ (v, later) ∷ [] })
  unfolding add
  add_of later b s' h =
      ap
        (λ (p : Bool × ExpiringSet).
          if p.0
          then p.1
          else record { age = p.1.age; container = p.1.container ++ (v, later) ∷ [] })
        h

  -- `add` of an element that is in the set changes nothing: its age is not set back.
  pub contains-add_kept : (later : ℕ) → is_in s v now ≡ true → add s v now later ≡ s
  contains-add_kept later h = elim (Option-cases (stamp_of v s.container)) [
    | inl e ↦ absurd (cc (sym h ∙ ap (λ p. p.0) (contains-none e)))
    | inr (t, e) ↦ elim (Bool-cases (ltb s.age (now - t))) [
      | inl f ↦ absurd (cc (sym h ∙ ap (λ p. p.0) (contains_old t e f)))
      | inr f ↦ add_of later true s (contains_live t e f)
    ]
  ]

-- An entry put behind others that do not have its element.
live-snoc :
    (age w v later t : ℕ) (c c' : List (ℕ × ℕ))
    → stamp_of w c' ≡ (if w == v then none else stamp_of w c)
    → live age t (stamp_of w (c' ++ (v, later) ∷ []))
      ≡ (if w == v then leb (t - later) age else live age t (stamp_of w c))
live-snoc age w v later t c c' h = elim (Bool-cases (w == v)) [
  | inl e ↦ rw (stamp_of-snoc w v later c', h) (rw e (rw e refl))
  | inr e ↦ rw (stamp_of-snoc w v later c', h) (rw e (after e (stamp_of w c)))
]
  where
    after :
        (w == v) ≡ false
        → (o : Option ℕ)
        → live age t (elim o [ some u ↦ some u | none ↦ if w == v then some later else none ])
          ≡ live age t o
    after e none = rw e refl
    after e (some u) = refl

-- `add` of an element that is not in the set, or too old, makes it count its age from then on, and leaves
-- all other elements as they were.
pub contains-add_new :
    (s : ExpiringSet) (v now later w t : ℕ)
    → is_in s v now ≡ false
    → is_in (add s v now later) w t ≡ (if w == v then leb (t - later) s.age else is_in s w t)
contains-add_new s v now later w t h =
    rw (is_in_lem s w t) (elim (Option-cases (stamp_of v s.container)) [
      | inl e ↦
          let put = add_of s v now later false s (contains-none s v now e) in
          let same : stamp_of w s.container ≡ (if w == v then none else stamp_of w s.container) =
            elim (Bool-cases (w == v)) [
              | inl f ↦ rw f (ap (λ x. stamp_of x s.container) (eq_of_== w v f) ∙ e)
              | inr f ↦ rw f refl
            ] in
          ap (λ r. is_in r w t) put
          ∙ (is_in_lem (record s { container = s.container ++ (v, later) ∷ [] }) w t
              ∙ live-snoc s.age w v later t s.container s.container same)
      | inr (u, e) ↦ elim (Bool-cases (ltb s.age (now - u))) [
        | inl f ↦
            let left : ExpiringSet = record s { container = delete v s.container } in
            let put = add_of s v now later false left (contains_old s v now u e f) in
            ap (λ r. is_in r w t) put
            ∙ (is_in_lem (record s { container = delete v s.container ++ (v, later) ∷ [] }) w t
                ∙ live-snoc s.age w v later t s.container (delete v s.container)
                    (stamp_of-delete w v s.container))
        | inr f ↦ absurd (cc (sym h ∙ ap (λ p. p.0) (contains_live s v now u e f)))
      ]
    ])

live-delete :
    (age w v t : ℕ) (c : List (ℕ × ℕ))
    → live age t (stamp_of w (delete v c)) ≡ (if w == v then false else live age t (stamp_of w c))
live-delete age w v t c = elim (Bool-cases (w == v)) [
  | inl e ↦ rw (stamp_of-delete w v c, e) refl
  | inr e ↦ rw (stamp_of-delete w v c, e) refl
]

-- `discard` takes out the element and no other, whether it is too old or not.
pub contains-discard :
    (s : ExpiringSet) (v w t : ℕ)
    → is_in (discard s v) w t ≡ (if w == v then false else is_in s w t)
unfolding discard
contains-discard s v w t =
    is_in_lem (record s { container = delete v s.container }) w t
    ∙ (live-delete s.age w v t s.container ∙ rw (is_in_lem s w t) refl)
