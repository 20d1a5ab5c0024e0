-- ===== src/Pdi/Listener/Search.antt =====
-- The search for the end of a packet: it passes each EOP that has a stuff byte before it.
use py_legacy.Common.{
  ℕ, suc, ◌+◌, ◌-◌, ◌<◌, ◌≡◌, refl, ◌∙◌, true, false, some, List, [], ◌∷◌, ◌++◌, arith, ◌==◌,
  if◌then◌else◌, get_elem?, length, take, drop, append_assoc, Bool-cases, inl, inr, length-append,
  eq_of_==,
}
use py_legacy.Pdi.Frame.{pdi_sop, pdi_stf, pdi_eop}
use py_legacy.Pdi.Listener.{
  Listener, index_eop, Round, idle, need_more, escaped, skipped, packet, round_at, round_of,
  Drained, after_round, drain,
}
use native.Mathlib.Nat.{add-zero, suc-add, add-suc}
use native.Mathlib.Numerals.{add-one}

pub index_eop_next :
    (pre suf : List ℕ) (prev b : ℕ)
    → index_eop (pre ++ prev ∷ b ∷ suf) (suc (length pre)) ≡ (
        if b == pdi_eop
        then some (suc (length pre))
        else index_eop (pre ++ prev ∷ b ∷ suf) (suc (suc (length pre))))
unfolding index_eop
index_eop_next [] suf prev b = ground arith
index_eop_next (x ∷ pre) suf prev b = rw (index_eop_next pre suf prev b) (ground arith)

pub get_elem?_at : (pre suf : List ℕ) (b : ℕ) → get_elem? (pre ++ b ∷ suf) (length pre) ≡ some b
get_elem?_at [] suf b = refl
get_elem?_at (x ∷ pre) suf b = get_elem?_at pre suf b

-- Each EOP has a stuff byte before it.
abbrev pub IsGuarded : ℕ → List ℕ → Type 0
IsGuarded prev [] = Unit
IsGuarded prev (b ∷ bs) = ((b == pdi_eop) ≡ true → (prev == pdi_stf) ≡ true) × IsGuarded b bs

abbrev pub Goes : Round → Type 0
Goes idle = ⊥
Goes need_more = ⊥
Goes (escaped l) = Unit
Goes (skipped b l) = Unit
Goes (packet p l) = Unit

-- Only a round that waits looks at the state.
after_round-Goes :
    (again : Listener → Drained) (l l' : Listener) (rd : Round)
    → Goes rd
    → after_round again l rd ≡ after_round again l' rd
unfolding after_round
after_round-Goes again l l' (escaped _) g = refl
after_round-Goes again l l' (skipped _ _) g = refl
after_round-Goes again l l' (packet _ _) g = refl
after_round-Goes again l l' idle g = absurd g
after_round-Goes again l l' need_more g = absurd g

module _ (tail : List ℕ) (r : List (List ℕ) × Listener) where
  abbrev pub from : ℕ → Listener
  from start = record { bytes = pdi_sop ∷ tail; search_from = start }

  -- The loop goes on from a search at `start` and ends in `r`.
  abbrev pub Ends : ℕ → Type 0
  Ends start =
      (k : ℕ) × (drain (suc k) (from start) ≡ some r) × Goes (round_of (pdi_sop ∷ tail) start)

  pub skip_byte :
      (start : ℕ)
      → index_eop (pdi_sop ∷ tail) start ≡ index_eop (pdi_sop ∷ tail) (suc start)
      → Ends (suc start)
      → Ends start
  unfolding drain
  skip_byte start e (k, d, g) =
      let next = round_at pdi_sop tail (index_eop (pdi_sop ∷ tail) (suc start)) in
      (k, rw e (after_round-Goes (drain k) (from start) (from (suc start)) next g ∙ d), rw e g)

  round_escaped :
      (i n : ℕ)
      → index_eop (pdi_sop ∷ tail) i ≡ some i
      → i ≡ suc n
      → 0 < n
      → get_elem? (pdi_sop ∷ tail) n ≡ some pdi_stf
      → round_of (pdi_sop ∷ tail) i ≡ escaped (from (suc i))
  unfolding round_of round_at
  round_escaped i n e s p q =
      let m : i - 1 ≡ n = omega arith in rw e (rw m (rw q (ground (arith, add-one i))))

  skip_escaped :
      (i n : ℕ)
      → index_eop (pdi_sop ∷ tail) i ≡ some i
      → i ≡ suc n
      → 0 < n
      → get_elem? (pdi_sop ∷ tail) n ≡ some pdi_stf
      → Ends (suc i)
      → Ends i
  skip_escaped i n e s p q (k, d, g) =
      let rd = round_escaped i n e s p q in (suc k, unfold drain in rw rd d, rw rd tt)

  pub round_packet :
      (i n x : ℕ)
      → index_eop (pdi_sop ∷ tail) i ≡ some i
      → i ≡ suc n
      → 0 < n
      → get_elem? (pdi_sop ∷ tail) n ≡ some x
      → (x == pdi_stf) ≡ false
      → round_of (pdi_sop ∷ tail) i
        ≡ packet
            (take (suc i) (pdi_sop ∷ tail))
            (record { bytes = drop (suc i) (pdi_sop ∷ tail); search_from = 0 })
  unfolding round_of round_at
  round_packet i n x e s p q z =
      let m : i - 1 ≡ n = omega arith in rw e (rw m (rw q (rw z (ground (arith, add-one i)))))

  behind_stf :
      (pre : List ℕ) (suf : List ℕ) → pdi_sop ∷ tail ≡ pre ++ pdi_stf ∷ suf → 0 < length pre
  behind_stf [] suf e = ground arith
  behind_stf (x ∷ pre) suf e = omega arith

  -- The search passes the guarded bytes of `body` and stops at the EOP behind them.
  pub Ends-at_eop :
      (body : List ℕ) (pre : List ℕ) (prev : ℕ) (rest : List ℕ)
      → pdi_sop ∷ tail ≡ pre ++ prev ∷ (body ++ rest)
      → IsGuarded prev body
      → Ends (suc (length pre + length body))
      → Ends (suc (length pre))
  Ends-at_eop [] pre prev rest e g h = rw add-zero at h
  Ends-at_eop (b ∷ body) pre prev rest e (g, gs) h =
      let e' : pdi_sop ∷ tail ≡ (pre ++ prev ∷ []) ++ b ∷ (body ++ rest) = rw append_assoc e in
      let n : length (pre ++ prev ∷ []) ≡ suc (length pre) =
        omega (arith, length-append pre (prev ∷ [])) in
      let ends : Ends (suc (suc (length pre))) =
        rw n at (
          Ends-at_eop body (pre ++ prev ∷ []) b rest e' gs (rw n (rw suc-add (rw add-suc at h)))) in
      let found = index_eop_next pre (body ++ rest) prev b in
      elim (Bool-cases (b == pdi_eop)) [
        | inl p ↦
            let q : prev ≡ pdi_stf = eq_of_== _ _ (g p) in
            let e'' : pdi_sop ∷ tail ≡ pre ++ pdi_stf ∷ b ∷ (body ++ rest) = rw (← q) e in
            skip_escaped (suc (length pre)) (length pre) (rw e (found ∙ rw p)) refl
              (behind_stf pre (b ∷ (body ++ rest)) e'')
              (rw e'' (get_elem?_at pre (b ∷ (body ++ rest)) pdi_stf)) ends
        | inr p ↦ skip_byte (suc (length pre)) (rw e (found ∙ rw p)) ends
      ]
