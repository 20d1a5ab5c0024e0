-- ===== src/Protocol/RoundTrip/Receive.antt =====
-- The bytes of a TMCC2 engine or train command, and what `from_bytes` makes of them
-- (protocol/command_req.py).
use py_legacy.Common.{
  Bool, ℕ, ◌+◌, ◌*◌, ◌/◌, ◌%◌, ◌≤◌, ◌<◌, ◌≡◌, refl, ap, ◌∙◌, inl, inr, true, false, ◌||◌, some,
  List, [], ◌∷◌, get_elem?, arith, ◌==◌, ltb, leb, if◌then◌else◌, ok, Result, Bool-cases,
}
use py_legacy.Common.Int.{ℤ}
use py_legacy.Protocol.Scope.{CommandScope, train, same_scope}
use py_legacy.Protocol.Def.{Command, native_scope, is_alias}
use py_legacy.Protocol.Request.{
  CommandReq, is_engine_or_train, apply_data, build, as_bytes, determine_first_byte, scope_prefix,
}
use py_legacy.Protocol.Decode.{
  request, from_bytes, build_tmcc2_command_req, finish_tmcc2, set_flags, tmcc2_address,
}
use py_legacy.Pdi.Frame.{pdi_sop}
use py_legacy.Protocol.Digits.{address_digits, address_digits_lem, parse_int}
use py_legacy.Protocol.RoundTrip.Rows.{accepts, own_data, all_data_sound}
use py_legacy.Protocol.RoundTrip.Tmcc2.{
  engine_row, engine_row_lem, IsWordOf, row_checked, datum_ok, datum_ok_lem,
}
use py_legacy.Protocol.RoundTrip.Find.{find_tmcc2-word, data_from_bytes-word, tmcc2_address-word}
use py_legacy.Protocol.RoundTrip.Engine.{
  variant_cases, scope_cases, high, native_scope-engine, own_data_idem, request_of, build-word,
}
use py_legacy.Protocol.Tmcc2.Engine.{tmcc2_engine_commands}

abbrev pub prefix_of : CommandScope → ℕ
prefix_of s = if same_scope s train then 0xF9 else 0xF8

-- The bytes of a command whose word is `w` without the address.
abbrev pub sent : CommandScope → ℕ → ℕ → List ℕ
sent s a w =
    prefix_of s
    ∷ (high a * 512 + w) / 256
    ∷ (high a * 512 + w) % 256
    ∷ (if ltb 99 a then address_digits a else [])

module _ (m : Command) (row : engine_row m.value ≡ true) (a : ℕ) (s : CommandScope) (lo : 1 ≤ a)
    (hi : a ≤ 9999) (q : is_engine_or_train s ≡ true) where
  first_byte-engine : determine_first_byte m.value s ≡ ok (prefix_of s)
  unfolding determine_first_byte scope_prefix
  first_byte-engine =
      let (v, _, _, _, _, _) = engine_row_lem m.value row in
      let (b, e) = variant_cases m.value.variant v in
      elim (scope_cases s q) [ inl t ↦ rw (e, t) refl | inr t ↦ rw (e, t) refl ]

  pub as_bytes-word : (d : ℤ) (w : ℕ) → w < 512 → as_bytes (request_of m a d s w) ≡ ok (sent s a w)
  unfolding as_bytes
  as_bytes-word d w w_fits =
      let (_, addressable, _, _, _, _) = engine_row_lem m.value row in
      let fits : ltb (high a * 512 + w) 65536 ≡ true = ground arith in
      rw (first_byte-engine, fits, addressable) refl

  module _ (d : ℤ) (w : ℕ) (word : IsWordOf m (own_data m.value d) w)
      (set : apply_data m.value (own_data m.value d) (high a * 512 + m.value.command_bits)
        ≡ ok (high a * 512 + w)) where
    build-own : build m a (own_data m.value d) (some s) ≡ ok (request_of m a d s w)
    build-own =
        build-word m row a s lo hi q (own_data m.value d) w (rw (own_data_idem m.value d) set)
        ∙ rw (own_data_idem m.value d) refl

    finish-engine :
        (suffix : List ℕ)
        → (elim suffix as (λ _. Result ℕ) [
          | [] ↦ tmcc2_address m.value (high a * 512 + w)
          | c ∷ cs ↦ parse_int (c ∷ cs)
        ])
          ≡ ok a
        → finish_tmcc2 (prefix_of s) (high a * 512 + w) suffix (some m) ≡ ok (request_of m a d s w)
    unfolding finish_tmcc2
    finish-engine suffix address =
        let scope : (if prefix_of s == 0xF9 then train else native_scope m.value) ≡ s =
          elim (scope_cases s q) [
            | inl t ↦ rw t (native_scope-engine m.value row)
            | inr t ↦ rw t refl
          ] in
        rw (scope, address)
          (rw (data_from_bytes-word (high a) w word.0 m (own_data m.value d) row word) build-own)

    build_tmcc2-engine :
        build_tmcc2_command_req true (sent s a w) ≡ ok (request (request_of m a d s w))
    unfolding build_tmcc2_command_req
    build_tmcc2-engine =
        let x = high a * 512 + w in
        let joined : x / 256 * 256 + x % 256 ≡ x = omega arith in
        let found = find_tmcc2-word (high a) w word.0 m (own_data m.value d) word in
        elim (Bool-cases (ltb 99 a)) [
          | inl big ↦
              let (c0, c1, c2, c3, digits, back) = address_digits_lem a (omega arith) in
              let h : leb (x / 256) 1 ≡ true = ground arith in
              let done = finish-engine (c0 ∷ c1 ∷ c2 ∷ c3 ∷ []) back in
              rw (big, digits, h) (rw (joined, found, done) refl)
          | inr small ↦
              let h : high a ≡ a = ground arith in
              let address =
                tmcc2_address-word (high a) w word.0 m.value row (ground arith) (ground arith) in
              let done = finish-engine [] (address ∙ ap ok h) in
              rw small (rw (joined, found, done) refl)
        ]

    set_flags-engine :
        (four : Bool)
        → (four || ltb 99 a) ≡ ltb 99 a
        → set_flags false four (request (request_of m a d s w))
          ≡ request (record (request_of m a d s w) { is_tmcc4 = ltb 99 a })
    unfolding set_flags
    set_flags-engine four same =
        let (_, addressable, _, _, _, _) = engine_row_lem m.value row in
        let own : (if m.value.is_addressable then a else 99) ≡ a = rw addressable refl in
        rw (own, same) (elim (Bool-cases (ltb 99 a)) [ inl e ↦ rw e refl | inr e ↦ rw e refl ])

    pub from_bytes-engine :
        (four : Bool)
        → (four || ltb 99 a) ≡ ltb 99 a
        → from_bytes false four (sent s a w)
          ≡ ok (request (record (request_of m a d s w) { is_tmcc4 = ltb 99 a }))
    unfolding from_bytes
    from_bytes-engine four same =
        let not_pdi : (prefix_of s == pdi_sop) ≡ false = elim (scope_cases s q) [
          | inl t ↦ rw t refl
          | inr t ↦ rw t refl
        ] in
        let four_digits : (prefix_of s == 0xF8 || prefix_of s == 0xF9) ≡ true =
          elim (scope_cases s q) [ inl t ↦ rw t refl | inr t ↦ rw t refl ] in
        rw (not_pdi, four_digits, build_tmcc2-engine, set_flags-engine four same) refl

-- Such a command with its word `w`.
pub sent_engine :
    (i : ℕ) (m : Command) (a : ℕ) (d : ℤ) (s : CommandScope)
    → get_elem? tmcc2_engine_commands i ≡ some m
    → is_alias m.value ≡ false
    → 1 ≤ a
    → a ≤ 9999
    → accepts m.value d ≡ true
    → is_engine_or_train s ≡ true
    → (w : ℕ) × (w < 512)
      × (build m a d (some s) ≡ ok (request_of m a d s w))
      × (as_bytes (request_of m a d s w) ≡ ok (sent s a w))
      × ((four : Bool)
          → (four || ltb 99 a) ≡ ltb 99 a
          → from_bytes false four (sent s a w)
            ≡ ok (request (record (request_of m a d s w) { is_tmcc4 = ltb 99 a })))
sent_engine i m a d s at_row first_class lo hi valid q =
    let (row, table) = row_checked i m at_row first_class in
    let own = own_data m.value d in
    let (w, word, set) =
      datum_ok_lem i m own at_row row (all_data_sound m.value (datum_ok i m.value) d table valid) in
    let placed = set (high a) (ground arith) in
    (
      w,
      word.0,
      build-word m row a s lo hi q d w placed,
      as_bytes-word m row a s lo hi q d w word.0,
      from_bytes-engine m row a s lo hi q d w word placed,
    )

-- A command of the TMCC2 engine table that is no alias, for an engine or a train with an address from 1
-- to 9999 and data that the command accepts, is built, and its bytes are read back as the same request:
-- the command, the address, the data, the scope and the bits. The request that is read is marked as
-- 4-digit if and only if the address is above 99.
pub from_bytes-as_bytes_engine :
    (i : ℕ) (m : Command) (a : ℕ) (d : ℤ) (s : CommandScope)
    → get_elem? tmcc2_engine_commands i ≡ some m
    → is_alias m.value ≡ false
    → 1 ≤ a
    → a ≤ 9999
    → accepts m.value d ≡ true
    → is_engine_or_train s ≡ true
    → (r : CommandReq) × (bytes : List ℕ) × (build m a d (some s) ≡ ok r)
      × (r.command ≡ m)
      × (r.address ≡ a)
      × (r.command_data ≡ own_data m.value d)
      × (r.scope ≡ s)
      × (as_bytes r ≡ ok bytes)
      × (from_bytes false false bytes ≡ ok (request (record r { is_tmcc4 = ltb 99 a })))
from_bytes-as_bytes_engine i m a d s at_row first_class lo hi valid q =
    let (w, _, built, bytes, back) = sent_engine i m a d s at_row first_class lo hi valid q in
    (request_of m a d s w, sent s a w, built, refl, refl, refl, refl, bytes, back false refl)
