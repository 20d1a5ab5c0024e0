-- ===== src/Protocol/RoundTrip/Engine.antt =====
-- A TMCC2 engine or train command, built, sent and received (`CommandReq.build`, `as_bytes`,
-- `from_bytes` in protocol/command_req.py).
use py_legacy.Common.{
  ℕ, ◌+◌, ◌*◌, ◌≤◌, ◌≡◌, refl, ap, ◌∙◌, ◌⊎◌, inl, inr, bit_and, bit_or, Bool, true, false, some,
  arith, ◌==◌, leb, if◌then◌else◌, ok, Bool-cases,
}
use Prim.Native.String.{String}
use py_legacy.Common.Int.{ℤ}
use py_legacy.Common.Bits.{bit_or_join, bit_or-zero, zero-bit_or}
use py_legacy.Protocol.Scope.{
  CommandScope, engine, train, switch, route, acc, system, asc2, amc2, bpc2, irda, stm2, base, sync,
  block, configured, same_scope,
}
use py_legacy.Protocol.Def.{
  CommandDef, Command, Variant, tmcc1, tmcc2, num_data_bits, native_scope, syntax, route_ident,
}
use py_legacy.Protocol.Request.{
  CommandReq, is_engine_or_train, is_legacy, has_ident, vet_request, validate_requested_scope,
  apply_address, apply_data, command_req, build,
}
use py_legacy.Protocol.RoundTrip.Rows.{own_data}
use py_legacy.Protocol.RoundTrip.Tmcc2.{is_engine, engine_row, engine_row_lem}
use py_legacy.Protocol.RoundTrip.Words.{low_nine_bits}

pub scope_cases : (s : CommandScope) → is_engine_or_train s ≡ true → (s ≡ engine) ⊎ (s ≡ train)
scope_cases engine h = inl refl
scope_cases train h = inr refl
scope_cases switch h = absurd (cc h)
scope_cases route h = absurd (cc h)
scope_cases acc h = absurd (cc h)
scope_cases system h = absurd (cc h)
scope_cases asc2 h = absurd (cc h)
scope_cases amc2 h = absurd (cc h)
scope_cases bpc2 h = absurd (cc h)
scope_cases irda h = absurd (cc h)
scope_cases stm2 h = absurd (cc h)
scope_cases base h = absurd (cc h)
scope_cases sync h = absurd (cc h)
scope_cases block h = absurd (cc h)
scope_cases configured h = absurd (cc h)

engine_cases : (s : CommandScope) → same_scope s engine ≡ true → s ≡ engine
engine_cases s h = elim (scope_cases s (ground arith)) [
  | inl e ↦ e
  | inr e ↦ absurd (cc (rw e at h))
]

pub variant_cases : (v : Variant) → is_engine v ≡ true → (b : Bool) × (v ≡ tmcc2 engine b)
variant_cases (tmcc1 i p) h = absurd (cc h)
variant_cases (tmcc2 s b) h = (b, ap (λ s. tmcc2 s b) (engine_cases s h))

-- The address that goes into the word; one above 99 is sent in digits behind it.
abbrev pub high : ℕ → ℕ
high a = if leb a 99 then a else 0

module _ (c : CommandDef) (row : engine_row c ≡ true) where
  is_legacy-engine : is_legacy c ≡ true
  unfolding syntax
  is_legacy-engine =
      let (v, _, _, _, _, _) = engine_row_lem c row in
      let (b, e) = variant_cases c.variant v in rw e refl

  is_route-engine : has_ident route_ident c ≡ false
  is_route-engine =
      let (v, _, _, _, _, _) = engine_row_lem c row in
      let (b, e) = variant_cases c.variant v in rw e refl

  pub native_scope-engine : native_scope c ≡ engine
  unfolding native_scope
  native_scope-engine =
      let (v, _, _, _, _, _) = engine_row_lem c row in
      let (b, e) = variant_cases c.variant v in rw e refl

  apply_address-word :
      (s : CommandScope) (a : ℕ)
      → 1 ≤ a
      → apply_address c s a c.command_bits ≡ high a * 512 + c.command_bits
  unfolding apply_address syntax
  apply_address-word s a lo =
      let (v, addressable, mask, bits_fit, _, _) = engine_row_lem c row in
      let (b, e) = variant_cases c.variant v in
      let cleared : bit_and c.command_bits 511 ≡ c.command_bits =
        low_nine_bits c.command_bits bits_fit in
      let placed : bit_or c.command_bits (a * 512) ≡ a * 512 + c.command_bits =
        let p : a * 512 ≡ a * 512 + 0 = omega arith in
        let q : c.command_bits ≡ 0 * 512 + c.command_bits = omega arith in
        ap (bit_or c.command_bits) p
        ∙ (ap (λ x. bit_or x (a * 512 + 0)) q
            ∙ (bit_or_join 9 0 c.command_bits a 0 bits_fit (omega arith)
                ∙ omega (arith, zero-bit_or a, bit_or-zero c.command_bits))) in
      rw (e, mask, addressable, cleared) (rw (e, placed) (ground arith))

  vet_request-engine :
      (name : String) (a : ℕ) (s : CommandScope)
      → 1 ≤ a
      → a ≤ 9999
      → is_engine_or_train s ≡ true
      → vet_request (record { name = name; value = c }) a (some s) ≡ ok tt
  unfolding vet_request
  vet_request-engine name a s lo hi q =
      let (_, addressable, _, _, _, _) = engine_row_lem c row in
      rw (addressable, is_legacy-engine, is_route-engine, q) (ground arith)

  pub validate_requested_scope-engine :
      (s : CommandScope) → is_engine_or_train s ≡ true → validate_requested_scope c (some s) ≡ s
  unfolding validate_requested_scope
  validate_requested_scope-engine s q = rw (q, native_scope-engine) refl

pub own_data_idem : (c : CommandDef) (d : ℤ) → own_data c (own_data c d) ≡ own_data c d
own_data_idem c d = elim (Bool-cases (num_data_bits c == 0)) [
  | inl e ↦ rw e refl
  | inr e ↦ rw e refl
]

-- The request for an engine command whose word is `w` without the address.
abbrev pub request_of : Command → ℕ → ℤ → CommandScope → ℕ → CommandReq
request_of m a d s w = record {
  command = m;
  address = a;
  command_data = own_data m.value d;
  scope = s;
  command_bits = high a * 512 + w;
  is_tmcc_rx = false;
  is_tmcc4 = false;
}

module _ (m : Command) (row : engine_row m.value ≡ true) (a : ℕ) (s : CommandScope) (lo : 1 ≤ a)
    (hi : a ≤ 9999) (q : is_engine_or_train s ≡ true) where
  pub build-word :
      (d : ℤ) (w : ℕ)
      → apply_data m.value (own_data m.value d) (high a * 512 + m.value.command_bits)
        ≡ ok (high a * 512 + w)
      → build m a d (some s) ≡ ok (request_of m a d s w)
  unfolding build command_req
  build-word d w h =
      let (_, addressable, _, _, _, _) = engine_row_lem m.value row in
      let own : (if m.value.is_addressable then a else 0) ≡ a = rw addressable refl in
      rw (vet_request-engine m.value row m.name a s lo hi q) (
        rw (own, validate_requested_scope-engine m.value row s q)
          (rw (apply_address-word m.value row s a lo) (rw h refl)))
