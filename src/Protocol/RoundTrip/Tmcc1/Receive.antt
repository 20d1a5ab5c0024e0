-- ===== src/Protocol/RoundTrip/Tmcc1/Receive.antt =====
-- A TMCC1 engine, switch or accessory command, built, sent and received (protocol/command_req.py).
use py_legacy.Common.{
  ℕ, ◌+◌, ◌-◌, ◌*◌, ◌/◌, ◌%◌, ◌^◌, ◌≤◌, ◌≡◌, refl, ap, ◌∙◌, true, false, ◌||◌, none, some, List, [],
  ◌∷◌, get_elem?, arith, ◌==◌, ltb, if◌then◌else◌, ok, Result-cases, Bool-cases, inl, inr,
}
use Prim.Native.String.{String}
use py_legacy.Common.Int.{ℤ, eq_of_eq_ℤ}
use py_legacy.Pdi.Frame.{pdi_sop}
use py_legacy.Protocol.Def.{
  CommandDef, Command, num_data_bits, command_prefix, syntax, native_scope, is_alias,
  data_from_bytes, route_ident, identifier_value, identifier_scope,
}
use py_legacy.Protocol.Request.{
  CommandReq, is_legacy, has_ident, vet_request, validate_requested_scope, apply_address,
  apply_data, data_to_bits, command_req, build, as_bytes, determine_first_byte,
}
use py_legacy.Protocol.Decode.{
  request, from_bytes, build_tmcc1_command_req, finish_tmcc1, set_flags, is_tmcc1_prefix,
}
use py_legacy.Protocol.RoundTrip.Rows.{accepts, own_data, all_data_sound}
use py_legacy.Protocol.RoundTrip.Words.{merged}
use py_legacy.Protocol.RoundTrip.Engine.{own_data_idem}
use py_legacy.Protocol.RoundTrip.Tmcc1.{
  Table, engines, switches, accessories, rows, top, ident_of, row_form, row_form_lem, has_form_lem,
  finds_at, word_fits, datum_fits, row_fits_lem,
}
use py_legacy.Protocol.RoundTrip.Tmcc1.Head.{scope_of, masked_base, bit_or-base, merged-base}
use py_legacy.Protocol.RoundTrip.Tmcc1.Find.{
  never_train, find_tmcc1-word, data_from_bytes-word, tmcc1_address-word,
}

ident_scope : (t : Table) → identifier_scope (ident_of t) ≡ scope_of t
unfolding identifier_scope
ident_scope engines = refl
ident_scope switches = refl
ident_scope accessories = refl

not_route : (t : Table) → (identifier_value route_ident == identifier_value (ident_of t)) ≡ false
not_route engines = refl
not_route switches = refl
not_route accessories = refl

module _ (t : Table) (c : CommandDef) (row : row_form t c ≡ true) where
  native_scope-row : native_scope c ≡ scope_of t
  unfolding native_scope
  native_scope-row =
      let (v, _, _, _, _, _) = row_form_lem t c row in
      let (p, e, _) = has_form_lem (ident_of t) c.variant v in rw e (ident_scope t)

  is_legacy-row : is_legacy c ≡ false
  unfolding syntax
  is_legacy-row =
      let (v, _, _, _, _, _) = row_form_lem t c row in
      let (p, e, _) = has_form_lem (ident_of t) c.variant v in rw e refl

  is_route-row : has_ident route_ident c ≡ false
  is_route-row =
      let (v, _, _, _, _, _) = row_form_lem t c row in
      let (p, e, _) = has_form_lem (ident_of t) c.variant v in rw e (not_route t)

  vet_request-row :
      (name : String) (a : ℕ)
      → 1 ≤ a
      → a ≤ 99
      → vet_request (record { name = name; value = c }) a none ≡ ok tt
  unfolding vet_request
  vet_request-row name a lo hi =
      let (v, addressable, _, _, _, _) = row_form_lem t c row in
      rw (addressable, native_scope-row, is_legacy-row, is_route-row) (ground arith)

  apply_address-row :
      (a : ℕ) → a ≤ 99 → apply_address c (scope_of t) a c.command_bits ≡ a * 128 + c.command_bits
  unfolding apply_address syntax
  apply_address-row a hi =
      let (v, addressable, mask, bits, _, _) = row_form_lem t c row in
      let (p, e, _) = has_form_lem (ident_of t) c.variant v in
      let cleared = masked_base t c.command_bits bits in
      let placed = bit_or-base t c.command_bits bits a (omega arith) in
      rw (e, mask, addressable, cleared) (rw (never_train t, e, placed) refl)

  validate_requested_scope-row : validate_requested_scope c none ≡ scope_of t
  unfolding validate_requested_scope
  validate_requested_scope-row = native_scope-row

-- The request for a command whose word is `w` without the address.
abbrev request_at : Table → Command → ℕ → ℤ → ℕ → CommandReq
request_at t m a d w = record {
  command = m;
  address = a;
  command_data = own_data m.value d;
  scope = scope_of t;
  command_bits = a * 128 + w;
  is_tmcc_rx = false;
  is_tmcc4 = false;
}

-- What a word has to be for the command in row `i` and the data `d`.
abbrev IsWordAt : Table → ℕ → Command → ℤ → ℕ → Type 0
IsWordAt t i m d w =
    (w / 128 ≡ top t)
    × (data_from_bytes m.value w ≡ d)
    × (finds_at t i (command_prefix m.value) w ≡ true)

word_fits_lem :
    (t : Table) (i : ℕ) (m : Command) (d : ℤ) (w : ℕ)
    → word_fits t i m.value d w ≡ true
    → IsWordAt t i m d w
unfolding word_fits
word_fits_lem t i m d w h =
    (ground arith, eq_of_eq_ℤ (data_from_bytes m.value w) d (ground arith), ground arith)

datum_fits_lem :
    (t : Table) (i : ℕ) (m : Command) (d : ℤ)
    → row_form t m.value ≡ true
    → datum_fits t i m.value d ≡ true
    → (w : ℕ) × IsWordAt t i m d w
      × ((h : ℕ)
          → h ≤ 99
          → apply_data m.value d (h * 128 + m.value.command_bits) ≡ ok (h * 128 + w))
unfolding datum_fits apply_data
datum_fits_lem t i m d r h = elim (Bool-cases (num_data_bits m.value == 0)) [
  | inl z ↦ (
    m.value.command_bits,
    word_fits_lem t i m d m.value.command_bits (ground arith),
    λ h' q. rw z refl,
  )
  | inr z ↦ elim (Result-cases (data_to_bits m.value d)) [
    | inr (e, f) ↦ absurd (ground arith)
    | inl (v, f) ↦
        let (_, _, _, bits, _, mask_fits) = row_form_lem t m.value r in
        let b = m.value.command_bits in
        let mask = 2 ^ num_data_bits m.value - 1 in
        (
          merged mask v b,
          word_fits_lem t i m d (merged mask v b) (ground arith),
          λ h' q.
              rw (z, f)
                (ap ok (merged-base t b bits h' mask v (omega arith) mask_fits (ground arith))),
        )
  ]
]

top_bound : (t : Table) → top t ≤ 256
top_bound engines = omega arith
top_bound switches = omega arith
top_bound accessories = omega arith

module _ (t : Table) (i : ℕ) (m : Command) (row : row_form t m.value ≡ true)
    (at_row : get_elem? (rows t) i ≡ some m) (a : ℕ) (lo : 1 ≤ a) (hi : a ≤ 99) where
  build-row :
      (d : ℤ) (w : ℕ)
      → apply_data m.value (own_data m.value d) (a * 128 + m.value.command_bits) ≡ ok (a * 128 + w)
      → build m a d none ≡ ok (request_at t m a d w)
  unfolding build command_req
  build-row d w h =
      let (_, addressable, _, _, _, _) = row_form_lem t m.value row in
      let own : (if m.value.is_addressable then a else 0) ≡ a = rw addressable refl in
      rw (vet_request-row t m.value row m.name a lo hi) (
        rw (own, validate_requested_scope-row t m.value row)
          (rw (apply_address-row t m.value row a hi) (rw h refl)))

  first_byte-row :
      (p : ℕ) × (determine_first_byte m.value (scope_of t) ≡ ok p)
      × (command_prefix m.value ≡ p)
      × (is_tmcc1_prefix p ≡ true)
  unfolding determine_first_byte command_prefix
  first_byte-row =
      let (v, _, _, _, _, _) = row_form_lem t m.value row in
      let (p, e, q) = has_form_lem (ident_of t) m.value.variant v in (p, rw e refl, rw e refl, q)

  abbrev sent_row : ℕ → ℕ → List ℕ
  sent_row p w = p ∷ (a * 128 + w) / 256 ∷ (a * 128 + w) % 256 ∷ []

  as_bytes-row :
      (p : ℕ) (d : ℤ) (w : ℕ)
      → determine_first_byte m.value (scope_of t) ≡ ok p
      → w / 128 ≡ top t
      → as_bytes (request_at t m a d w) ≡ ok (sent_row p w)
  unfolding as_bytes
  as_bytes-row p d w first e =
      let (_, addressable, _, _, _, _) = row_form_lem t m.value row in
      let fits : ltb (a * 128 + w) 65536 ≡ true = ground (arith, top_bound t) in
      let small : ltb 99 a ≡ false = ground arith in rw (first, fits, addressable) (rw small refl)

  module _ (d : ℤ) (w : ℕ) (word : IsWordAt t i m (own_data m.value d) w)
      (set : apply_data m.value (own_data m.value d) (a * 128 + m.value.command_bits)
        ≡ ok (a * 128 + w)) where
    finish-row : finish_tmcc1 (a * 128 + w) (some (m, none)) ≡ ok (request_at t m a d w)
    unfolding finish_tmcc1
    finish-row =
        let (e, value, _) = word in
        let address = tmcc1_address-word t a w lo hi e m.value row in
        let same = data_from_bytes-word t a w lo hi e m.value row ∙ value in
        let again =
          build-row (own_data m.value d) w (rw (own_data_idem m.value d) set)
          ∙ rw (own_data_idem m.value d) refl in
        rw address (rw same again)

    flags_row :
        set_flags false false (request (request_at t m a d w)) ≡ request (request_at t m a d w)
    unfolding set_flags
    flags_row =
        let (_, addressable, _, _, _, _) = row_form_lem t m.value row in
        let own : (if m.value.is_addressable then a else 99) ≡ a = rw addressable refl in
        let small : ltb 99 a ≡ false = ground arith in rw own (rw small refl)

    from_bytes-row :
        (p : ℕ)
        → command_prefix m.value ≡ p
        → is_tmcc1_prefix p ≡ true
        → from_bytes false false (sent_row p w) ≡ ok (request (request_at t m a d w))
    unfolding from_bytes build_tmcc1_command_req
    from_bytes-row p prefix known =
        let (e, _, found) = word in
        let x = a * 128 + w in
        let joined : x / 256 * 256 + x % 256 ≡ x = omega arith in
        let not_pdi : (p == pdi_sop) ≡ false = ground arith in
        let two_digits : (p == 0xF8 || p == 0xF9) ≡ false = ground arith in
        let look_up = find_tmcc1-word t a w p i m lo hi e at_row (rw prefix at found) in
        rw (not_pdi, two_digits, known) (rw (joined, look_up, finish-row, flags_row) refl)

-- A first-class command of the TMCC1 engine, switch or accessory table, with an address from 1 to 99 and
-- data that the command accepts, is built, and its bytes are read back as the same request.
pub from_bytes-as_bytes_tmcc1 :
    (t : Table) (i : ℕ) (m : Command) (a : ℕ) (d : ℤ)
    → get_elem? (rows t) i ≡ some m
    → is_alias m.value ≡ false
    → 1 ≤ a
    → a ≤ 99
    → accepts m.value d ≡ true
    → (r : CommandReq) × (bytes : List ℕ) × (build m a d none ≡ ok r)
      × (r.command ≡ m)
      × (r.address ≡ a)
      × (r.command_data ≡ own_data m.value d)
      × (r.scope ≡ scope_of t)
      × (as_bytes r ≡ ok bytes)
      × (from_bytes false false bytes ≡ ok (request r))
from_bytes-as_bytes_tmcc1 t i m a d at_row first_class lo hi valid =
    let (row, table) = row_fits_lem t i m at_row first_class in
    let own = own_data m.value d in
    let (w, word, set) =
      datum_fits_lem t i m own row
        (all_data_sound m.value (datum_fits t i m.value) d table valid) in
    let (p, first, prefix, known) = first_byte-row t i m row at_row a lo hi in
    (
      request_at t m a d w,
      sent_row t i m row at_row a lo hi p w,
      build-row t i m row at_row a lo hi d w (set a hi),
      refl,
      refl,
      refl,
      refl,
      as_bytes-row t i m row at_row a lo hi p d w first word.0,
      from_bytes-row t i m row at_row a lo hi d w word (set a hi) p prefix known,
    )
