-- ===== src/Protocol/RoundTrip/Tmcc1/Find.antt =====
-- How `build_tmcc1_command_req` reads a word with an address in it (protocol/command_req.py).
use py_legacy.Common.{
  ℕ, ◌+◌, ◌*◌, ◌/◌, ◌%◌, ◌≤◌, ◌<◌, ◌≡◌, refl, sym, ap, ◌∙◌, bit_and, Bool, true, false, ◌||◌, none,
  some, get_elem?, arith, ◌==◌, ok, Bool-cases, inl, inr,
}
use py_legacy.Common.Bits.{bit_and_low', bit_and_le}
use py_legacy.Protocol.Def.{
  CommandDef, Command, complement, address_mask, data_mask, data_bits_of, data_from_bytes, is_alias,
  is_data, num_data_bits, matches_masked, matches, matches_prefix, find,
}
use py_legacy.Protocol.Decode.{find_tmcc1, tmcc1_address, classify}
use py_legacy.Protocol.Scope.{train, same_scope}
use py_legacy.Protocol.RoundTrip.Rows.{all_rows, find_agree, find_of_found, find_of_none}
use py_legacy.Protocol.RoundTrip.Words.{matches_masked_agree, data_from_bytes_agree}
use py_legacy.Protocol.RoundTrip.Tmcc2.{masked}
use py_legacy.Protocol.RoundTrip.Tmcc1.{
  Table, engines, switches, accessories, rows, top, row_form, row_form_lem, finds_at,
}
use py_legacy.Protocol.RoundTrip.Tmcc1.Head.{
  masked_head, address_head, classify-head, unmodified_head, scope_of,
}
use py_legacy.Protocol.Tmcc1.Engine.{tmcc1_engine_commands}
use py_legacy.Protocol.Tmcc1.Others.{tmcc1_halt_commands, tmcc1_switch_commands, tmcc1_aux_commands}

unfoldable row_kind : Table → Command → Bool
unfolding is_alias
row_kind t m = elim (is_alias m.value) [ true ↦ true | false ↦ row_form t m.value ]

row_kinds : (t : Table) → all_rows (row_kind t) (rows t) ≡ true
unfolding row_kind all_rows row_form address_mask data_mask tmcc1_engine_commands
    tmcc1_switch_commands tmcc1_aux_commands
row_kinds engines = refl
row_kinds switches = refl
row_kinds accessories = refl

no_halt : (x : ℕ) → x < 65535 → find (matches x) tmcc1_halt_commands ≡ none
unfolding find matches matches_masked address_mask is_data num_data_bits data_mask is_alias
    tmcc1_halt_commands
no_halt x le = ground (arith, bit_and_le x 65535)

pub never_train : (t : Table) → same_scope (scope_of t) train ≡ false
never_train engines = refl
never_train switches = refl
never_train accessories = refl

-- A word `w` for address 0, and the word for address `h`.
module _ (t : Table) (h w : ℕ) (lo : 1 ≤ h) (hi : h ≤ 99) (top_eq : w / 128 ≡ top t) where
  abbrev word : ℕ
  word = h * 128 + w

  word_split : word ≡ (top t + h) * 128 + w % 128
  word_split = omega (arith, top_eq)

  base_split : w ≡ top t * 128 + w % 128
  base_split = omega (arith, top_eq)

  same_masked :
      (c : CommandDef)
      → address_mask c ≡ 0xC07F
      → bit_and word (address_mask c) ≡ bit_and w (address_mask c)
  same_masked c e = rw e (
      ap (λ x. bit_and x 0xC07F) word_split
      ∙ (masked_head t h (omega arith) (w % 128) (omega arith)
          ∙ ap (λ x. bit_and x 0xC07F) (sym base_split)))

  same_data :
      (c : CommandDef) → complement (data_mask c) < 128 → data_bits_of c word ≡ data_bits_of c w
  unfolding data_bits_of
  same_data c e =
      let field = complement (data_mask c) in
      ap (bit_and field) word_split
      ∙ (bit_and_low' 7 (top t + h) (w % 128) field (omega arith) e
          ∙ (sym (bit_and_low' 7 (top t) (w % 128) field (omega arith) e)
              ∙ ap (bit_and field) (sym base_split)))

  row_agree :
      (u : Table) (c : CommandDef)
      → row_form u c ≡ true
      → matches_masked c word ≡ matches_masked c w
  row_agree u c r =
      let (_, _, mask, _, field, _) = row_form_lem u c r in
      matches_masked_agree c word w (same_masked c mask) (same_data c field)

  matches_prefix-word :
      (p : ℕ) (m : Command)
      → row_kind engines m ≡ true
      → matches_prefix p word m ≡ matches_prefix p w m
  unfolding row_kind matches_prefix
  matches_prefix-word p m k = elim (Bool-cases (is_alias m.value)) [
    | inl e ↦ ground arith
    | inr e ↦ let agree = row_agree engines m.value (ground arith) in ground arith
  ]

  top_small : (u : Table) → ((top u == 0) || (top u == 128) || (top u == 256)) ≡ true
  top_small engines = refl
  top_small switches = refl
  top_small accessories = refl

  matches-word : (u : Table) (m : Command) → row_kind u m ≡ true → matches word m ≡ masked w m
  unfolding row_kind matches masked
  matches-word u m k = elim (Bool-cases (is_alias m.value)) [
    | inl e ↦ ground arith
    | inr e ↦
        let agree = row_agree u m.value (ground arith) in
        let (_, _, _, bits, _, _) = row_form_lem u m.value (ground arith) in
        let a = top_small t in
        let b = top_small u in
        let other : (m.value.command_bits == word) ≡ false = ground (arith, word_split) in
        ground arith
  ]

  find_engine :
      (p : ℕ)
      → find (matches_prefix p word) tmcc1_engine_commands
        ≡ find (matches_prefix p w) tmcc1_engine_commands
  find_engine p =
      find_agree (matches_prefix p word) (matches_prefix p w) (row_kind engines)
        (matches_prefix-word p) tmcc1_engine_commands (row_kinds engines)

  find_other : (u : Table) → find (matches word) (rows u) ≡ find (masked w) (rows u)
  find_other u =
      find_agree (matches word) (masked w) (row_kind u) (matches-word u) (rows u) (row_kinds u)

  halt_none : find (matches word) tmcc1_halt_commands ≡ none
  halt_none = let a = top_small t in no_halt word (ground arith)

  unmodified : (bit_and word 0xC800 == 0xC800) ≡ false
  unmodified =
      ap (λ x. bit_and x 0xC800 == 0xC800) word_split
      ∙ unmodified_head t h (omega arith) (w % 128) (omega arith)

  in_engines :
      (p : ℕ) (m : Command)
      → find (matches_prefix p w) tmcc1_engine_commands ≡ some m
      → find_tmcc1 p word ≡ some (m, none)
  unfolding find_tmcc1
  in_engines p m e = rw (find_tmcc1, halt_none) (rw (find_engine p ∙ e) refl)

  in_switches :
      (p : ℕ) (m : Command)
      → find (matches_prefix p w) tmcc1_engine_commands ≡ none
      → find (masked w) tmcc1_switch_commands ≡ some m
      → find_tmcc1 p word ≡ some (m, none)
  unfolding find_tmcc1
  in_switches p m none_before e =
      rw (find_tmcc1, halt_none)
        (rw (find_engine p ∙ none_before) (rw unmodified (rw (find_other switches ∙ e) refl)))

  in_accessories :
      (p : ℕ) (m : Command)
      → find (matches_prefix p w) tmcc1_engine_commands ≡ none
      → find (masked w) tmcc1_switch_commands ≡ none
      → find (masked w) tmcc1_aux_commands ≡ some m
      → find_tmcc1 p word ≡ some (m, none)
  unfolding find_tmcc1
  in_accessories p m none_before none_between e =
      rw (find_tmcc1, halt_none)
        (rw (find_engine p ∙ none_before) (
          rw unmodified
            (rw (find_other switches ∙ none_between) (rw (find_other accessories ∙ e) refl))))

  pub data_from_bytes-word :
      (c : CommandDef) → row_form t c ≡ true → data_from_bytes c word ≡ data_from_bytes c w
  data_from_bytes-word c r =
      let (_, _, mask, _, field, _) = row_form_lem t c r in
      data_from_bytes_agree c word w (same_masked c mask) (same_data c field)

  pub tmcc1_address-word : (c : CommandDef) → row_form t c ≡ true → tmcc1_address c word ≡ ok h
  unfolding tmcc1_address complement
  tmcc1_address-word c r =
      let (_, addressable, mask, _, _, _) = row_form_lem t c r in
      let scope : classify (word / 256) ≡ ok (scope_of t) =
        ap (λ x. classify (x / 256)) word_split
        ∙ classify-head t h (omega arith) (w % 128) (omega arith) in
      let address : bit_and 16256 word / 128 ≡ h =
        ap (λ x. bit_and 16256 x / 128) word_split
        ∙ address_head t h (omega arith) (w % 128) (omega arith) in
      let not_train : same_scope (scope_of t) train ≡ false = never_train t in
      rw (mask, addressable, scope) (rw not_train (rw address refl))

-- The tables before it do not have the word, so the command is the one in row `i`.
pub find_tmcc1-word :
    (t : Table) (h w : ℕ) (p i : ℕ) (m : Command)
    → 1 ≤ h
    → h ≤ 99
    → w / 128 ≡ top t
    → get_elem? (rows t) i ≡ some m
    → finds_at t i p w ≡ true
    → find_tmcc1 p (h * 128 + w) ≡ some (m, none)
unfolding finds_at
find_tmcc1-word engines h w p i m lo hi e row found =
    in_engines engines h w lo hi e p m
      (find_of_found (matches_prefix p w) tmcc1_engine_commands i m found row)
find_tmcc1-word switches h w p i m lo hi e row found =
    in_switches switches h w lo hi e p m
      (find_of_none (matches_prefix p w) tmcc1_engine_commands (ground arith))
      (find_of_found (masked w) tmcc1_switch_commands i m (ground arith) row)
find_tmcc1-word accessories h w p i m lo hi e row found =
    in_accessories accessories h w lo hi e p m
      (find_of_none (matches_prefix p w) tmcc1_engine_commands (ground arith))
      (find_of_none (masked w) tmcc1_switch_commands (ground arith))
      (find_of_found (masked w) tmcc1_aux_commands i m (ground arith) row)
