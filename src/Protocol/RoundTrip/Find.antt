-- ===== src/Protocol/RoundTrip/Find.antt =====
-- How `build_tmcc2_command_req` reads a word with an address in it: the command, the data and the
-- address that it finds (protocol/command_req.py).
use py_legacy.Common.{
  ℕ, ◌+◌, ◌*◌, ◌/◌, ◌≤◌, ◌<◌, ◌≡◌, refl, sym, ap, ◌∙◌, bit_and, Bool, true, false, Bool-cases,
  eq_of_==, inl, inr, none, some, arith, ◌==◌, ok,
}
use mathlib.Core.Path.{subst}
use py_legacy.Common.Int.{ℤ}
use py_legacy.Common.Bits.{bit_and_low, bit_and_low', bit_and_join, zero-bit_and}
use py_legacy.Protocol.Def.{
  CommandDef, Command, complement, address_mask, data_bits_of, data_from_bytes, is_alias, matches,
  find, data_mask,
}
use py_legacy.Protocol.Decode.{find_tmcc2, tmcc2_address}
use py_legacy.Protocol.RoundTrip.Rows.{all_rows, find_agree}
use py_legacy.Protocol.RoundTrip.Words.{low_seven_bits, matches_masked_agree, data_from_bytes_agree}
use py_legacy.Protocol.RoundTrip.Tmcc2.{engine_row, engine_row_lem, masked, IsWordOf}
use py_legacy.Protocol.Tmcc2.Engine.{tmcc2_engine_commands}
use py_legacy.Protocol.Tmcc2.Others.{tmcc2_halt_commands}

-- A row is an alias, or an engine command.
unfoldable row_kind : Command → Bool
unfolding is_alias
row_kind m = elim (is_alias m.value) [ true ↦ true | false ↦ engine_row m.value ]

row_kinds : all_rows row_kind tmcc2_engine_commands ≡ true
unfolding row_kind all_rows engine_row address_mask data_mask tmcc2_engine_commands
row_kinds = refl

-- `HALT` is an alias: it is found by no word.
no_halt : (x : ℕ) → find (matches x) tmcc2_halt_commands ≡ none
unfolding find matches is_alias tmcc2_halt_commands
no_halt x = refl

module _ (h w : ℕ) (w_fits : w < 512) where
  same_masked :
      (c : CommandDef)
      → address_mask c ≡ 511
      → bit_and (h * 512 + w) (address_mask c) ≡ bit_and w (address_mask c)
  same_masked c e = rw e (bit_and_low 9 h w 511 w_fits (omega arith))

  same_data :
      (c : CommandDef)
      → complement (data_mask c) < 512
      → data_bits_of c (h * 512 + w) ≡ data_bits_of c w
  unfolding data_bits_of
  same_data c e = bit_and_low' 9 h w (complement (data_mask c)) w_fits e

  matches_word : (0 < h) → (m : Command) → row_kind m ≡ true → matches (h * 512 + w) m ≡ masked w m
  unfolding row_kind matches masked
  matches_word p m k = elim (Bool-cases (is_alias m.value)) [
    | inl e ↦ ground arith
    | inr e ↦
        let (_, _, mask, bits_fit, field_fits, _) = engine_row_lem m.value (ground arith) in
        let other : (m.value.command_bits == h * 512 + w) ≡ false = ground arith in
        let agree =
          matches_masked_agree m.value (h * 512 + w) w (same_masked m.value mask)
            (same_data m.value field_fits) in
        ground arith
  ]

  pub find_word :
      (m : Command) (d : ℤ)
      → IsWordOf m d w
      → find (matches (h * 512 + w)) tmcc2_engine_commands ≡ some m
  find_word m d (_, _, direct, low) = elim (Bool-cases (h == 0)) [
    | inl e ↦
        let z : h ≡ 0 = eq_of_== h 0 e in
        let q : w ≡ h * 512 + w = omega arith in
        subst (λ x. find (matches x) tmcc2_engine_commands ≡ some m) q direct
    | inr e ↦
        find_agree (matches (h * 512 + w)) (masked w) row_kind (matches_word (ground arith))
          tmcc2_engine_commands row_kinds
        ∙ low
  ]

  pub find_tmcc2-word : (m : Command) (d : ℤ) → IsWordOf m d w → find_tmcc2 (h * 512 + w) ≡ some m
  unfolding find_tmcc2
  find_tmcc2-word m d r = rw (find_tmcc2, no_halt (h * 512 + w), find_word m d r) refl

  pub data_from_bytes-word :
      (m : Command) (d : ℤ)
      → engine_row m.value ≡ true
      → IsWordOf m d w
      → data_from_bytes m.value (h * 512 + w) ≡ d
  data_from_bytes-word m d r (_, e, _, _) =
      let (_, _, mask, _, field_fits, _) = engine_row_lem m.value r in
      data_from_bytes_agree m.value (h * 512 + w) w (same_masked m.value mask)
        (same_data m.value field_fits)
      ∙ e

  pub tmcc2_address-word :
      (c : CommandDef) → engine_row c ≡ true → 1 ≤ h → h ≤ 99 → tmcc2_address c (h * 512 + w) ≡ ok h
  unfolding tmcc2_address complement
  tmcc2_address-word c r lo hi =
      let (_, addressable, mask, _, _, _) = engine_row_lem c r in
      let split : 127 * 512 + 0 ≡ 65024 = refl in
      let e : bit_and 65024 (h * 512 + w) ≡ h * 512 =
        sym (ap (λ x. bit_and x (h * 512 + w)) split)
        ∙ bit_and_join 9 127 0 h w (omega arith) w_fits
        ∙ omega (arith, zero-bit_and w, low_seven_bits h (omega arith)) in
      let q : h * 512 / 512 ≡ h = omega arith in rw (mask, addressable) (rw e (rw q (ground arith)))
