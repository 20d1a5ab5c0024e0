-- ===== src/Pdi/Listener/Fuel.antt =====
-- The inner loop ends: each round takes a byte off the deque or moves the search on.
use py_legacy.Common.{
  ℕ, zero, suc, ◌+◌, ◌-◌, ◌*◌, ◌≤◌, ◌<◌, ◌≡◌, refl, some, List, [], ◌∷◌, arith, ◌==◌, length, drop,
  length-drop, Bool-cases, Option-cases, inl, inr,
}
use py_legacy.Pdi.Frame.{pdi_sop}
use py_legacy.Pdi.Listener.{
  Listener, index_eop, Round, idle, need_more, escaped, skipped, packet, round_at, round_of, round,
  Drained, after_round, drain, fuel_for,
}

pub index_eop_bounds :
    (bs : List ℕ) (start i : ℕ) → index_eop bs start ≡ some i → (start ≤ i) × (i < length bs)
unfolding index_eop
index_eop_bounds [] start i h = cc
index_eop_bounds (b ∷ bs) zero zero h = ground arith
index_eop_bounds (b ∷ bs) zero (suc i) h = ground (arith, index_eop_bounds bs zero i)
index_eop_bounds (b ∷ bs) (suc start) zero h = ground arith
index_eop_bounds (b ∷ bs) (suc start) (suc i) h = ground (arith, index_eop_bounds bs start i)

-- What is left to do: falls in each round that goes on.
abbrev measure : Listener → ℕ
measure l = length l.bytes * suc (length l.bytes) + (length l.bytes - l.search_from)

abbrev Falls : Listener → Round → Type 0
Falls l idle = Unit
Falls l need_more = Unit
Falls l (escaped l') = measure l' < measure l
Falls l (skipped b l') = measure l' < measure l
Falls l (packet p l') = measure l' < measure l

measure_drop : (m n : ℕ) → m < n → m * suc m + m < n * suc n
measure_drop m n h = let k = n - suc m in let e : n ≡ m + suc k = omega arith in rw e (omega arith)

-- The round at an EOP that was found.
round_at-Falls :
    (first : ℕ) (rest : List ℕ) (start i : ℕ)
    → (start ≤ i) × (i < suc (length rest))
    → Falls (record { bytes = first ∷ rest; search_from = start }) (round_at first rest (some i))
unfolding round_at
round_at-Falls first rest start i h =
    let bs = first ∷ rest in
    ground (
      arith,
      measure_drop (length rest) (length bs),
      measure_drop (length (drop (i + 1) bs)) (length bs),
      length-drop (i + 1) bs,
    )

round_of-Falls :
    (bs : List ℕ) (start : ℕ)
    → Falls (record { bytes = bs; search_from = start }) (round_of bs start)
unfolding round_of
round_of-Falls [] start = tt
round_of-Falls (first ∷ rest) start = elim (Bool-cases (first == pdi_sop)) [
  | inl e ↦ rw e (elim (Option-cases (index_eop (first ∷ rest) start)) [
    | inl p ↦ rw p (unfold round_at in tt)
    | inr (i, p) ↦ rw p (round_at-Falls first rest start i (index_eop_bounds _ start i p))
  ])
  | inr e ↦ rw e (ground (arith, measure_drop (length rest) (suc (length rest))))
]

IsTotal : (Listener → Drained) → ℕ → Type 0
IsTotal again n =
    (l : Listener) → measure l < n → (r : List (List ℕ) × Listener) × (again l ≡ some r)

after_round_total :
    (again : Listener → Drained) (l : Listener) (r : Round)
    → IsTotal again (measure l)
    → Falls l r
    → (x : List (List ℕ) × Listener) × (after_round again l r ≡ some x)
unfolding after_round IsTotal
after_round_total again l idle t f = (([], l), refl)
after_round_total again l need_more t f = (([], l), refl)
after_round_total again l (escaped l') t f = t l' f
after_round_total again l (skipped b l') t f = t l' f
after_round_total again l (packet p l') t f =
    let ((ps, l''), e) = t l' f in ((p ∷ ps, l''), rw (e, after_round))

drain-IsTotal_fuel : (fuel : ℕ) → IsTotal (drain fuel) fuel
unfolding drain IsTotal
drain-IsTotal_fuel zero l h = absurd (omega arith)
drain-IsTotal_fuel (suc fuel) l h =
    after_round_total (drain fuel) l (round l) (λ l' h'. drain-IsTotal_fuel fuel l' (omega arith))
      (round_of-Falls l.bytes l.search_from)

-- The inner loop of the listener ends on every deque, wherever the search stands.
pub drain_total : (l : Listener) → (r : List (List ℕ) × Listener) × (drain (fuel_for l) l ≡ some r)
unfolding IsTotal
drain_total l = drain-IsTotal_fuel (fuel_for l) l (omega arith)
