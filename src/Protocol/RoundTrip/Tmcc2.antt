-- ===== src/Protocol/RoundTrip/Tmcc2.antt =====
-- The checked table of the TMCC2 engine commands, and what it says of a command's word
-- (protocol/command_req.py, protocol/tmcc2/tmcc2_constants.py).
use py_legacy.Common.{
  ℕ, ◌+◌, ◌-◌, ◌*◌, ◌^◌, ◌≤◌, ◌<◌, ◌≡◌, refl, ap, Bool, true, false, ◌&&◌, some, get_elem?, arith,
  ◌==◌, ltb, if◌then◌else◌, all_below, Bool-cases, inl, inr, Result-cases, ok, raise,
}
use mathlib.Core.Path.{subst}
use native.Mathlib.Nat.{zero-add}
use py_legacy.Common.Int.{ℤ, eq_ℤ, eq_of_eq_ℤ}
use py_legacy.Protocol.Scope.{engine, same_scope}
use py_legacy.Protocol.Def.{
  CommandDef, Command, Variant, tmcc1, tmcc2, complement, num_data_bits, data_mask, address_mask,
  data_from_bytes, is_alias, is_valid_bits, matches_masked, matches, find,
}
use py_legacy.Protocol.Request.{apply_data, data_to_bits}
use py_legacy.Protocol.RoundTrip.Rows.{
  all_indexed, all_indexed_sound, found_at, find_of_found, all_data,
}
use py_legacy.Protocol.RoundTrip.Words.{low_seven_bits', merged, merged-word}
use py_legacy.Protocol.Tmcc2.Engine.{tmcc2_engine_commands}

abbrev pub is_engine : Variant → Bool
is_engine (tmcc1 i p) = false
is_engine (tmcc2 s d) = same_scope s engine

-- What is the same for all engine commands.
unfoldable pub engine_row : CommandDef → Bool
engine_row c =
    is_engine c.variant
    && c.is_addressable
    && address_mask c == 511
    && ltb c.command_bits 512
    && ltb (complement (data_mask c)) 512
    && ltb (2 ^ num_data_bits c - 1) 512

-- The test of a command, an equal number apart.
unfoldable pub masked : ℕ → Command → Bool
masked w m = if is_alias m.value then false else matches_masked m.value w

-- The word `w` stands for the command in row `i` with the data `d`.
unfoldable pub word_ok : ℕ → CommandDef → ℤ → ℕ → Bool
unfolding masked
word_ok i c d w =
    ltb w 512
    && eq_ℤ (data_from_bytes c w) d
    && found_at (matches w) i tmcc2_engine_commands
    && found_at (masked w) i tmcc2_engine_commands

unfoldable pub datum_ok : ℕ → CommandDef → ℤ → Bool
unfolding word_ok
datum_ok i c d = elim (num_data_bits c == 0) [
  | true ↦ word_ok i c d c.command_bits
  | false ↦ elim (data_to_bits c d) [
    | raise e ↦ false
    | ok v ↦ ltb v 512 && word_ok i c d (merged (2 ^ num_data_bits c - 1) v c.command_bits)
  ]
]

unfoldable pub row_ok : ℕ → Command → Bool
unfolding engine_row datum_ok
row_ok i m = elim (is_alias m.value) [
  | true ↦ true
  | false ↦ elim (engine_row m.value) [
    | true ↦ all_data m.value (datum_ok i m.value)
    | false ↦ false
  ]
]

engine_table : all_indexed row_ok 0 tmcc2_engine_commands ≡ true
unfolding row_ok all_indexed all_data found_at data_to_bits data_from_bytes matches address_mask
    data_mask all_below matches_masked is_valid_bits tmcc2_engine_commands
engine_table = refl

row_ok_split :
    (i : ℕ) (m : Command)
    → is_alias m.value ≡ false
    → row_ok i m ≡ true
    → (engine_row m.value ≡ true) × (all_data m.value (datum_ok i m.value) ≡ true)
unfolding row_ok
row_ok_split i m f h = ground arith

-- What a word of nine bits has to be for the command in row `i` and the data `d`.
abbrev pub IsWordOf : Command → ℤ → ℕ → Type 0
IsWordOf m d w =
    (w < 512)
    × (data_from_bytes m.value w ≡ d)
    × (find (matches w) tmcc2_engine_commands ≡ some m)
    × (find (masked w) tmcc2_engine_commands ≡ some m)

word_ok_lem :
    (i : ℕ) (m : Command) (d : ℤ) (w : ℕ)
    → get_elem? tmcc2_engine_commands i ≡ some m
    → word_ok i m.value d w ≡ true
    → IsWordOf m d w
unfolding word_ok
word_ok_lem i m d w row h = (
  ground arith,
  eq_of_eq_ℤ (data_from_bytes m.value w) d (ground arith),
  find_of_found (matches w) tmcc2_engine_commands i m (ground arith) row,
  find_of_found (masked w) tmcc2_engine_commands i m (ground arith) row,
)

pub engine_row_lem :
    (c : CommandDef)
    → engine_row c ≡ true
    → (is_engine c.variant ≡ true)
      × (c.is_addressable ≡ true)
      × (address_mask c ≡ 511)
      × (c.command_bits < 512)
      × (complement (data_mask c) < 512)
      × (2 ^ num_data_bits c - 1 < 512)
unfolding engine_row
engine_row_lem c h =
    (ground arith, ground arith, ground arith, ground arith, ground arith, ground arith)

-- The word of a command before the address is put in, and the word with the address.
pub datum_ok_lem :
    (i : ℕ) (m : Command) (d : ℤ)
    → get_elem? tmcc2_engine_commands i ≡ some m
    → engine_row m.value ≡ true
    → datum_ok i m.value d ≡ true
    → (w : ℕ) × IsWordOf m d w
      × ((h : ℕ)
          → h ≤ 127
          → apply_data m.value d (h * 512 + m.value.command_bits) ≡ ok (h * 512 + w))
unfolding datum_ok apply_data
datum_ok_lem i m d row r h = elim (Bool-cases (num_data_bits m.value == 0)) [
  | inl z ↦ (
    m.value.command_bits,
    word_ok_lem i m d m.value.command_bits row (ground arith),
    λ h' q. rw z refl,
  )
  | inr z ↦ elim (Result-cases (data_to_bits m.value d)) [
    | inr (e, f) ↦ absurd (ground arith)
    | inl (v, f) ↦
        let (_, _, _, bits_fit, _, mask_fits) = engine_row_lem m.value r in
        let b = m.value.command_bits in
        let mask = 2 ^ num_data_bits m.value - 1 in
        (
          merged mask v b,
          word_ok_lem i m d (merged mask v b) row (ground arith),
          λ h' q.
              rw (z, f)
                (ap ok (
                  merged-word 9 127 h' b mask v refl (low_seven_bits' h' q) bits_fit mask_fits
                    (ground arith))),
        )
  ]
]

-- The facts of a row that is no alias.
pub row_checked :
    (i : ℕ) (m : Command)
    → get_elem? tmcc2_engine_commands i ≡ some m
    → is_alias m.value ≡ false
    → (engine_row m.value ≡ true) × (all_data m.value (datum_ok i m.value) ≡ true)
row_checked i m row f = row_ok_split i m f (
    subst (λ n. row_ok n m ≡ true) (zero-add i)
      (all_indexed_sound row_ok tmcc2_engine_commands 0 i engine_table row))
