-- ===== src/Pdi/Listener/Chunks.antt =====
-- How the received bytes are split over calls of `offer` does not change the packets.
use py_legacy.Common.{
  ℕ, zero, suc, ◌+◌, ◌-◌, ◌<◌, ◌≡◌, refl, sym, ap, ◌∙◌, ◌⊎◌, some, List, [], ◌∷◌, ◌++◌, arith, ◌==◌,
  length, append-nil, append_assoc, Bool-cases, Option-cases, inl, inr, take-append-le,
  drop-append-le, get_elem?-append,
}
use py_legacy.Pdi.Frame.{pdi_sop}
use py_legacy.Pdi.Listener.{
  Listener, index_eop, Round, idle, need_more, escaped, skipped, packet, round_at, round_of, round,
  Drained, after_round, drain, fuel_for, offer, feed,
}
use native.Mathlib.Nat.{suc-add, add_comm}
use py_legacy.Pdi.Listener.Fuel.{index_eop_bounds, drain_total}

index_eop-append :
    (bs ys : List ℕ) (start i : ℕ)
    → index_eop bs start ≡ some i
    → index_eop (bs ++ ys) start ≡ some i
unfolding index_eop
index_eop-append [] ys start i h = cc
index_eop-append (b ∷ bs) ys zero zero h = ground arith
index_eop-append (b ∷ bs) ys zero (suc i) h = ground (arith, index_eop-append bs ys zero i)
index_eop-append (b ∷ bs) ys (suc start) zero h = ground arith
index_eop-append (b ∷ bs) ys (suc start) (suc i) h = ground (arith, index_eop-append bs ys start i)

offered : List ℕ → Round → Round
offered ys idle = idle
offered ys need_more = need_more
offered ys (escaped l) = escaped (offer l ys)
offered ys (skipped b l) = skipped b (offer l ys)
offered ys (packet p l) = packet p (offer l ys)

round_at-append :
    (first : ℕ) (rest ys : List ℕ) (i : ℕ)
    → i < suc (length rest)
    → round_at first (rest ++ ys) (some i) ≡ offered ys (round_at first rest (some i))
unfolding round_at offered offer
round_at-append first rest ys i h =
    let bs = first ∷ rest in
    ground (
      arith,
      get_elem?-append (i - 1) bs ys,
      take-append-le (i + 1) bs ys,
      drop-append-le (i + 1) bs ys,
    )

abbrev Waits : Round → Type 0
Waits idle = Unit
Waits need_more = Unit
Waits (escaped l) = ⊥
Waits (skipped b l) = ⊥
Waits (packet p l) = ⊥

round_of-append :
    (bs ys : List ℕ) (start : ℕ)
    → Waits (round_of bs start) ⊎ (round_of (bs ++ ys) start ≡ offered ys (round_of bs start))
unfolding round_of
round_of-append [] ys start = inl tt
round_of-append (first ∷ rest) ys start = elim (Bool-cases (first == pdi_sop)) [
  | inl e ↦ elim (Option-cases (index_eop (first ∷ rest) start)) [
    | inl p ↦ inl (rw (e, p) (unfold round_at in tt))
    | inr (i, p) ↦ inr (
        rw (e, p, index_eop-append (first ∷ rest) ys start i p)
          (round_at-append first rest ys i (index_eop_bounds _ start i p).1))
  ]
  | inr e ↦ inr (rw e (unfold offered offer in refl))
]

some-packet :
    (again : Listener → Drained) (l l' : Listener) (p : List ℕ) {ps : List (List ℕ)}
    {l'' : Listener}
    → after_round again l (packet p l') ≡ some (ps, l'')
    → (qs : List (List ℕ)) × (again l' ≡ some (qs, l'')) × (ps ≡ p ∷ qs)
unfolding after_round
some-packet again l l' p h = elim (Option-cases (again l')) [
  | inl e ↦ cc (rw (e, after_round) at h)
  | inr ((qs, l2), e) ↦
      (qs, ground (arith, rw (e, after_round) at h), ground (arith, rw (e, after_round) at h))
]

after_round-more :
    (again more : Listener → Drained)
    → ((l : Listener) (r : List (List ℕ) × Listener) → again l ≡ some r → more l ≡ some r)
    → (l : Listener) (rd : Round) (r : List (List ℕ) × Listener) → after_round again l rd ≡ some r
    → after_round more l rd ≡ some r
unfolding after_round
after_round-more again more agree l idle r h = h
after_round-more again more agree l need_more r h = h
after_round-more again more agree l (escaped l') r h = agree l' r h
after_round-more again more agree l (skipped b l') r h = agree l' r h
after_round-more again more agree l (packet p l') (ps, l'') h =
    let (qs, e, e') = some-packet again l l' p h in rw (agree l' (qs, l'') e, after_round) (rw e')

-- More fuel does not change an answer.
drain-more :
    (n k : ℕ) (l : Listener) (r : List (List ℕ) × Listener)
    → drain n l ≡ some r
    → drain (n + k) l ≡ some r
unfolding drain
drain-more zero k l r h = cc
drain-more (suc n) k l r h =
    rw suc-add
      (after_round-more (drain n) (drain (n + k)) (λ l r. drain-more n k l r) l (round l) r h)

Waits-end :
    (again : Listener → Drained) (l l' : Listener) (rd : Round) (ps : List (List ℕ))
    → Waits rd
    → after_round again l rd ≡ some (ps, l')
    → (ps ≡ []) × (l ≡ l')
unfolding after_round
Waits-end again l l' idle ps w h = ground arith
Waits-end again l l' need_more ps w h = ground arith
Waits-end again l l' (escaped _) ps w h = absurd w
Waits-end again l l' (skipped _ _) ps w h = absurd w
Waits-end again l l' (packet _ _) ps w h = absurd w

after_round-offer :
    (again later : Listener → Drained) (l l' l'' : Listener) (ys : List ℕ) (qs : List (List ℕ))
    → ((k : Listener) (ps : List (List ℕ))
        → again k ≡ some (ps, l')
        → later (offer k ys) ≡ some (ps ++ qs, l''))
    → (rd : Round) (ps : List (List ℕ)) → after_round again l rd ≡ some (ps, l')
    → Waits rd ⊎ (after_round later (offer l ys) (offered ys rd) ≡ some (ps ++ qs, l''))
unfolding after_round offered
after_round-offer again later l l' l'' ys qs step idle ps h = inl tt
after_round-offer again later l l' l'' ys qs step need_more ps h = inl tt
after_round-offer again later l l' l'' ys qs step (escaped k) ps h = inr (step k ps h)
after_round-offer again later l l' l'' ys qs step (skipped b k) ps h = inr (step k ps h)
after_round-offer again later l l' l'' ys qs step (packet p k) ps h =
    let (rs, e, e') = some-packet again l k p h in inr (rw (step k rs e, after_round) (rw e'))

waits_offer :
    (n m : ℕ) (l l' l'' : Listener) (ys : List ℕ) (ps qs : List (List ℕ))
    → (ps ≡ []) × (l ≡ l')
    → drain m (offer l' ys) ≡ some (qs, l'')
    → drain (n + m) (offer l ys) ≡ some (ps ++ qs, l'')
waits_offer n m l l' l'' ys ps qs (e, e') h =
    rw (e, e', add_comm n m) (drain-more m n (offer l' ys) (qs, l'') h)

-- Draining before and after `offer`, or once after it.
pub drain-offer :
    (n m : ℕ) (l l' l'' : Listener) (ys : List ℕ) (ps qs : List (List ℕ))
    → drain n l ≡ some (ps, l')
    → drain m (offer l' ys) ≡ some (qs, l'')
    → drain (n + m) (offer l ys) ≡ some (ps ++ qs, l'')
unfolding drain offer
drain-offer zero m l l' l'' ys ps qs h h' = cc
drain-offer (suc n) m l l' l'' ys ps qs h h' =
    let step = λ (k : Listener) (rs : List (List ℕ)) (e : drain n k ≡ some (rs, l')).
      drain-offer n m k l' l'' ys rs qs e h' in
    elim (round_of-append l.bytes ys l.search_from) [
      | inl w ↦
          waits_offer (suc n) m l l' l'' ys ps qs (Waits-end (drain n) l l' (round l) ps w h) h'
      | inr e ↦
          elim (after_round-offer (drain n) (drain (n + m)) l l' l'' ys qs step (round l) ps h) [
            | inl w ↦
                waits_offer (suc n) m l l' l'' ys ps qs (Waits-end (drain n) l l' (round l) ps w h)
                  h'
            | inr p ↦ rw suc-add (rw e p)
          ]
    ]

drained_round :
    (again : Listener → Drained) (l l' : Listener) (rd : Round) (ps : List (List ℕ))
    → ((k : Listener) (qs : List (List ℕ)) → again k ≡ some (qs, l') → Waits (round l'))
    → round l ≡ rd
    → after_round again l rd ≡ some (ps, l')
    → Waits (round l')
unfolding after_round
drained_round again l l' idle ps ih e h = rw (← (Waits-end again l l' idle ps tt h).1, e) tt
drained_round again l l' need_more ps ih e h =
    rw (← (Waits-end again l l' need_more ps tt h).1, e) tt
drained_round again l l' (escaped k) ps ih e h = ih k ps h
drained_round again l l' (skipped b k) ps ih e h = ih k ps h
drained_round again l l' (packet p k) ps ih e h =
    let (qs, e', _) = some-packet again l k p h in ih k qs e'

drained-Waits :
    (n : ℕ) (l l' : Listener) (ps : List (List ℕ)) → drain n l ≡ some (ps, l') → Waits (round l')
unfolding drain
drained-Waits zero l l' ps h = absurd (cc h)
drained-Waits (suc n) l l' ps h =
    drained_round (drain n) l l' (round l) ps (λ k qs. drained-Waits n k l' qs) refl h

Waits-round :
    (again : Listener → Drained) (l : Listener) (rd : Round)
    → Waits rd
    → after_round again l rd ≡ some ([], l)
unfolding after_round
Waits-round again l idle w = refl
Waits-round again l need_more w = refl
Waits-round again l (escaped _) w = absurd w
Waits-round again l (skipped _ _) w = absurd w
Waits-round again l (packet _ _) w = absurd w

-- A state in which the loop has stopped is left alone by the loop.
drain_again :
    (n : ℕ) (l l' : Listener) (ps : List (List ℕ))
    → drain n l ≡ some (ps, l')
    → drain 1 l' ≡ some ([], l')
drain_again n l l' ps h =
    unfold drain in Waits-round (drain 0) l' (round l') (drained-Waits n l l' ps h)

pub drain_unique :
    (n m : ℕ) (l : Listener) (r s : List (List ℕ) × Listener)
    → drain n l ≡ some r
    → drain m l ≡ some s
    → r ≡ s
drain_unique n m l r s h k =
    let e : drain (n + m) l ≡ some s = rw (add_comm n m) (drain-more m n l s k) in
    let p : ◌≡◌ {A = Drained} (some r) (some s) = sym (drain-more n m l r h) ∙ e in ground arith

offer-offer : (l : Listener) (xs ys : List ℕ) → offer (offer l xs) ys ≡ offer l (xs ++ ys)
unfolding offer
offer-offer l xs ys = rw append_assoc

abbrev pub joined : List (List ℕ) → List ℕ
joined [] = []
joined (c ∷ cs) = c ++ joined cs

feed_step :
    (l : Listener) (c : List ℕ) (cs : List (List ℕ)) {ps qs : List (List ℕ)} {l' l'' : Listener}
    → drain (fuel_for (offer l c)) (offer l c) ≡ some (ps, l')
    → feed l' cs ≡ some (qs, l'')
    → feed l (c ∷ cs) ≡ some (ps ++ qs, l'')
unfolding feed
feed_step l c cs e f = rw (feed, e) (rw f)

feed-joined' :
    (cs : List (List ℕ)) (l : Listener)
    → drain 1 l ≡ some ([], l)
    → (r : List (List ℕ) × Listener) × (k : ℕ) × (feed l cs ≡ some r)
      × (drain k (offer l (joined cs)) ≡ some r)
unfolding feed
feed-joined' [] l w = (([], l), 1, refl, unfold offer in rw append-nil w)
feed-joined' (c ∷ cs) l w =
    let ((ps, l'), e) = drain_total (offer l c) in
    let ((qs, l''), k, f, d) =
      feed-joined' cs l' (drain_again (fuel_for (offer l c)) (offer l c) l' ps e) in
    (
      (ps ++ qs, l''),
      fuel_for (offer l c) + k,
      feed_step l c cs e f,
      rw (← offer-offer l c (joined cs))
          (drain-offer (fuel_for (offer l c)) k (offer l c) l' l'' (joined cs) ps qs e d),
    )

-- From a state in which the loop waits, chunks of bytes offered one after the other give the packets
-- and the state that all of the bytes offered at once give.
pub feed-joined :
    (cs : List (List ℕ)) (l : Listener)
    → drain 1 l ≡ some ([], l)
    → feed l cs ≡ drain (fuel_for (offer l (joined cs))) (offer l (joined cs))
feed-joined cs l w =
    let (r, k, f, d) = feed-joined' cs l w in
    let (s, e) = drain_total (offer l (joined cs)) in
    f
    ∙ (ap some (drain_unique k (fuel_for (offer l (joined cs))) (offer l (joined cs)) r s d e)
        ∙ sym e)
