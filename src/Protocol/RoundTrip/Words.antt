-- ===== src/Protocol/RoundTrip/Words.antt =====
-- A word is an address above `k` low bits. What the tests and the data of a command see of it
-- (`by_value`, `data_from_bytes`, `_apply_data`).
use py_legacy.Common.{
  [], ◌∷◌, if◌then◌else◌, ℕ, suc, ◌+◌, ◌-◌, ◌*◌, ◌^◌, ◌≤◌, ◌<◌, ◌≡◌, refl, ap, bit_and, bit_or,
  arith, ◌==◌, all_below, all_below_sound, eq_of_==,
}
use py_legacy.Common.Bits.{bit_and_join, bit_and_low', bit_or_low, bit_and_le}
use py_legacy.Common.Int.{pos}
use py_legacy.Protocol.Def.{
  CommandDef, complement, is_data, address_mask, data_bits_of, data_from_bytes, matches_masked,
  key_of_value,
}

-- Two words that look the same under both masks are the same to the tests of a command.
module _ (c : CommandDef) (x y : ℕ)
    (address : bit_and x (address_mask c) ≡ bit_and y (address_mask c))
    (field : data_bits_of c x ≡ data_bits_of c y) where
  pub matches_masked_agree : matches_masked c x ≡ matches_masked c y
  unfolding matches_masked
  matches_masked_agree = rw (address, field) refl

  pub data_from_bytes_agree : data_from_bytes c x ≡ data_from_bytes c y
  unfolding data_from_bytes
  data_from_bytes_agree =
      ap
        (λ (bits : ℕ).
          if is_data c
          then (elim c.d_map [ [] ↦ pos bits | p ∷ rest ↦ key_of_value bits (p ∷ rest) ])
          else pos 0)
        field

-- The number of 16 bits with the low `k` bits of `x` turned over.
module _ (k high x : ℕ) (whole : suc 0xFFFF ≡ suc high * 2 ^ k) (fits : x < 2 ^ k) where
  complement_join : complement x ≡ high * 2 ^ k + (2 ^ k - 1 - x)
  unfolding complement
  complement_join = omega arith

-- The data bits `v` put in place of those that `mask` covers.
abbrev pub merged : ℕ → ℕ → ℕ → ℕ
merged mask v bits = bit_or (bit_and bits (complement mask)) v

module _ (k high h b mask v : ℕ) (whole : suc 0xFFFF ≡ suc high * 2 ^ k) (keep : bit_and h high ≡ h)
    (b_fits : b < 2 ^ k) (mask_fits : mask < 2 ^ k) (v_fits : v < 2 ^ k) where
  merged_low : merged mask v b ≡ bit_or (bit_and b (2 ^ k - 1 - mask)) v
  merged_low =
      let e = complement_join k high mask whole mask_fits in
      rw e (rw (bit_and_low' k high (2 ^ k - 1 - mask) b (omega arith) b_fits) refl)

  -- Setting the data bits leaves the address alone.
  pub merged-word : merged mask v (h * 2 ^ k + b) ≡ h * 2 ^ k + merged mask v b
  merged-word =
      let r = 2 ^ k - 1 - mask in
      let e = complement_join k high mask whole mask_fits in
      rw merged_low (
        rw e (
          rw (bit_and_join k h b high r b_fits (omega arith), keep)
            (bit_or_low k h (bit_and b r) v (omega (arith, bit_and_le b r)) v_fits)))

pub low_seven_bits : (h : ℕ) → h ≤ 127 → bit_and 127 h ≡ h
low_seven_bits h q =
    eq_of_== (bit_and 127 h) h
      (all_below_sound 128 (λ h. bit_and 127 h == h) h (unfold all_below in refl) (omega arith))

pub low_seven_bits' : (h : ℕ) → h ≤ 127 → bit_and h 127 ≡ h
low_seven_bits' h q =
    eq_of_== (bit_and h 127) h
      (all_below_sound 128 (λ h. bit_and h 127 == h) h (unfold all_below in refl) (omega arith))

pub low_nine_bits : (b : ℕ) → b < 512 → bit_and b 511 ≡ b
low_nine_bits b q =
    eq_of_== (bit_and b 511) b
      (all_below_sound 512 (λ b. bit_and b 511 == b) b (unfold all_below in refl) q)
