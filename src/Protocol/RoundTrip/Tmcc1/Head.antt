-- ===== src/Protocol/RoundTrip/Tmcc1/Head.antt =====
-- The bits of a TMCC1 word above the data: what stands there once an address is put in, checked for
-- every address (`classify` and `address_from_bytes` in protocol/tmcc1/tmcc1_constants.py).
use py_legacy.Common.{
  ℕ, ◌+◌, ◌*◌, ◌/◌, ◌%◌, ◌≤◌, ◌<◌, ◌≡◌, refl, sym, ap, ◌∙◌, bit_and, bit_or, Bool, true, false, not,
  ◌&&◌, arith, ◌==◌, all_below, all_below_sound, Result, ok, raise,
}
use py_legacy.Common.Bits.{bit_and_join, bit_or_join, bit_and-zero, bit_or-zero, zero-bit_and}
use py_legacy.Protocol.Scope.{CommandScope, engine, switch, acc, same_scope, same_scope_lem}
use py_legacy.Protocol.Decode.{classify}
use py_legacy.Protocol.RoundTrip.Words.{low_seven_bits', merged, merged-word}
use py_legacy.Protocol.RoundTrip.Tmcc1.{Table, engines, switches, accessories, top}

abbrev pub scope_of : Table → CommandScope
scope_of engines = engine
scope_of switches = switch
scope_of accessories = acc

gives_scope : CommandScope → Result CommandScope → Bool
gives_scope s (ok r) = same_scope r s
gives_scope s (raise e) = false

gives_scope_lem : (s : CommandScope) (r : Result CommandScope) → gives_scope s r ≡ true → r ≡ ok s
unfolding gives_scope
gives_scope_lem s (ok r) h = ap ok (same_scope_lem r s h)
gives_scope_lem s (raise e) h = absurd (cc h)

head_ok : Table → ℕ → Bool
unfolding gives_scope
head_ok t h =
    bit_and (top t + h) 384 == top t
    && bit_and (top t + h) 511 == top t + h
    && bit_or (top t) h == top t + h
    && bit_and 127 (top t + h) == h
    && not (bit_and (top t + h) 400 == 400)
    && gives_scope (scope_of t) (classify ((top t + h) / 2))

heads : (t : Table) → all_below 128 (head_ok t) ≡ true
unfolding head_ok all_below classify
heads engines = refl
heads switches = refl
heads accessories = refl

top_kept : (t : Table) → bit_and (top t) 511 ≡ top t
top_kept engines = refl
top_kept switches = refl
top_kept accessories = refl

top_masked : (t : Table) → bit_and (top t) 384 ≡ top t
top_masked engines = refl
top_masked switches = refl
top_masked accessories = refl

module _ (t : Table) (h : ℕ) (le : h ≤ 127) where
  head_lem :
      (bit_and (top t + h) 384 ≡ top t)
      × (bit_and (top t + h) 511 ≡ top t + h)
      × (bit_or (top t) h ≡ top t + h)
      × (bit_and 127 (top t + h) ≡ h)
      × ((bit_and (top t + h) 400 == 400) ≡ false)
      × (classify ((top t + h) / 2) ≡ ok (scope_of t))
  unfolding head_ok
  head_lem =
      let checked : head_ok t h ≡ true =
        all_below_sound 128 (head_ok t) h (heads t) (omega arith) in
      (
        ground arith,
        ground arith,
        ground arith,
        ground arith,
        ground arith,
        gives_scope_lem (scope_of t) (classify ((top t + h) / 2)) (ground arith),
      )

  module _ (l : ℕ) (fits : l < 128) where
    -- The address mask takes the address away.
    pub masked_head : bit_and ((top t + h) * 128 + l) 0xC07F ≡ bit_and (top t * 128 + l) 0xC07F
    masked_head =
        let (e, _, _, _, _, _) = head_lem in
        bit_and_join 7 (top t + h) l 384 127 fits (omega arith)
        ∙ (ap (λ n. n * 128 + bit_and l 127) (e ∙ sym (top_masked t))
            ∙ sym (bit_and_join 7 (top t) l 384 127 fits (omega arith)))

    pub address_head : bit_and 16256 ((top t + h) * 128 + l) / 128 ≡ h
    address_head =
        let (_, _, _, e, _, _) = head_lem in
        let j : bit_and 16256 ((top t + h) * 128 + l)
            ≡ bit_and 127 (top t + h) * 128 + bit_and 0 l =
          bit_and_join 7 127 0 (top t + h) l (omega arith) fits in
        omega (arith, j, e, zero-bit_and l)

    pub classify-head : classify (((top t + h) * 128 + l) / 256) ≡ ok (scope_of t)
    classify-head =
        let (_, _, _, _, _, e) = head_lem in
        let q : ((top t + h) * 128 + l) / 256 ≡ (top t + h) / 2 = omega arith in ap classify q ∙ e

    -- The word is not taken for one of a train.
    pub unmodified_head : (bit_and ((top t + h) * 128 + l) 0xC800 == 0xC800) ≡ false
    unmodified_head =
        let (_, _, _, _, e, _) = head_lem in
        let j : bit_and ((top t + h) * 128 + l) 0xC800
            ≡ bit_and (top t + h) 400 * 128 + bit_and l 0 =
          bit_and_join 7 (top t + h) l 400 0 fits (omega arith) in
        let z = bit_and-zero l in ground arith

    pub bit_or-head : bit_or (top t * 128 + l) (h * 128) ≡ (top t + h) * 128 + l
    bit_or-head =
        let (_, _, e, _, _, _) = head_lem in
        let p : h * 128 ≡ h * 128 + 0 = omega arith in
        ap (bit_or (top t * 128 + l)) p
        ∙ (bit_or_join 7 (top t) l h 0 fits (omega arith) ∙ omega (arith, e, bit_or-zero l))

  pub kept_head : bit_and (top t + h) 511 ≡ top t + h
  kept_head = let (_, e, _, _, _, _) = head_lem in e

-- Bits without an address.
module _ (t : Table) (b : ℕ) (top_eq : b / 128 ≡ top t) where
  base_join : b ≡ top t * 128 + b % 128
  base_join = omega (arith, top_eq)

  pub masked_base : bit_and b 0xC07F ≡ b
  masked_base =
      ap (λ x. bit_and x 0xC07F) base_join
      ∙ (bit_and_join 7 (top t) (b % 128) 384 127 (omega arith) (omega arith)
          ∙ omega (arith, top_masked t, low_seven_bits' (b % 128) (omega arith), base_join))

  pub bit_or-base : (a : ℕ) → a ≤ 127 → bit_or b (a * 128) ≡ a * 128 + b
  bit_or-base a le =
      ap (λ x. bit_or x (a * 128)) base_join
      ∙ (bit_or-head t a le (b % 128) (omega arith) ∙ omega (arith, base_join))

  -- Setting the data bits leaves the address and the bits above it alone.
  pub merged-base :
      (h mask v : ℕ)
      → h ≤ 127
      → mask < 128
      → v < 128
      → merged mask v (h * 128 + b) ≡ h * 128 + merged mask v b
  merged-base h mask v le mask_fits v_fits =
      let l = b % 128 in
      let split : h * 128 + b ≡ (top t + h) * 128 + l = omega (arith, base_join) in
      let placed =
        merged-word 7 511 (top t + h) l mask v refl (kept_head t h le) (omega arith) mask_fits
          v_fits in
      let base =
        merged-word 7 511 (top t) l mask v refl (top_kept t) (omega arith) mask_fits v_fits in
      ap (merged mask v) split ∙ (placed ∙ omega (arith, ap (merged mask v) base_join, base))
