-- ===== src/Db/CompData/RoundTrip.antt =====
-- A record is written to bytes and read back (db/comp_data.py).
use Prim.Native.String.{String}
use text.Mathlib.Text.{◌==◌ as str_eq}
use text.Mathlib.TextEquality.{eq_iff}
use mathlib.Core.Path.{subst}
use py_legacy.Common.{
  ℕ, ◌+◌, ◌-◌, ◌≤◌, ◌≡◌, refl, sym, ap, ◌∙◌, inl, inr, Bool, true, false, ◌&&◌, ◌||◌, Option, none,
  some, List, [], ◌∷◌, ◌++◌, arith, ltb, leb, length, length-append, take, drop, Bool-cases, ok,
  and_left, and_right, if◌then◌else◌,
}
use py_legacy.Common.Int.{pos}
use py_legacy.Protocol.Scope.{CommandScope, engine, train, switch, route, acc, same_scope}
use py_legacy.Db.Text.{replicate, length-replicate}
use py_legacy.Db.CompData.{
  CompData, Fields, from_bytes, parse_bytes, is_nothing, initial_fields, parse_map, is_absent,
  comp_data, sort_schema, without_d4, write_map, write_fields, scope_to_comp_map,
  scope_record_length, as_bytes,
}
use py_legacy.Db.CompData.Maps.{
  CompDataHandler, Schema, int, base_memory_engine_read_map, base_memory_train_read_map,
  base_memory_d4_train_read_map, base_memory_acc_read_map, base_memory_switch_read_map,
  base_memory_route_read_map,
}
use py_legacy.Db.CompData.Layout.{
  IsLaidOut, laid_out, laid_out-IsLaidOut, end_of, AreStored, AreReadAt, write_fields_lem,
}
use py_legacy.Db.CompData.Reading.{
  In, In-sort_schema, In-without_d4, lacks, lacks-In, distinct, parse_bytes-In,
}

-- Two records agree on the fields of a map.
abbrev pub AreSame : Fields → Fields → Schema → Type 0
AreSame f g [] = Unit
AreSame f g ((k, h) ∷ rest) = (f h.field ≡ g h.field) × AreSame f g rest

abbrev IsWithin : Schema → Schema → Type 0
IsWithin sub schema = (k : ℕ) (h : CompDataHandler) → In k h sub → In k h schema

module _ (s : ℕ → Option ℕ) (bs : List ℕ) (read : Schema) (start fs : Fields) where
  AreSame-parse_bytes :
      (written : Schema) (last : ℕ)
      → distinct read ≡ true
      → IsWithin written read
      → IsLaidOut last written
      → end_of last written ≤ length bs
      → ((k : ℕ) (h : CompDataHandler) → In k h written → is_nothing (start h.field) ≡ true)
      → AreReadAt s fs bs 0 written
      → AreSame (parse_bytes s bs read start) fs written
  AreSame-parse_bytes [] last d sub o le empty r = tt
  AreSame-parse_bytes ((k, h) ∷ rest) last d sub (o, size, os) le empty (r, rs) = (
    parse_bytes-In s bs read start k h (fs h.field) d (sub k h (inl (refl, refl)))
        (omega (arith, end_lem rest (k + h.length) os, le)) (empty k h (inl (refl, refl)))
        (subst (λ n. from_bytes s h.codec (take h.length (drop n bs)) ≡ ok (fs h.field))
          (omega arith) r),
    AreSame-parse_bytes rest (k + h.length) d (λ j g m. sub j g (inr m)) os le
        (λ j g m. empty j g (inr m)) rs,
  )
    where
      end_lem : (schema : Schema) (last : ℕ) → IsLaidOut last schema → last ≤ end_of last schema
      end_lem [] last o = omega arith
      end_lem ((k, h) ∷ rest) last (o, _, os) = omega (arith, end_lem rest (k + h.length) os)

-- The scopes that have a record.
abbrev pub IsRecordScope : CommandScope → Type 0
IsRecordScope engine = Unit
IsRecordScope train = Unit
IsRecordScope acc = Unit
IsRecordScope switch = Unit
IsRecordScope route = Unit
IsRecordScope _ = ⊥

unfoldable pub map_of : CommandScope → Schema
map_of engine = base_memory_engine_read_map
map_of train = base_memory_train_read_map
map_of acc = base_memory_acc_read_map
map_of switch = base_memory_switch_read_map
map_of route = base_memory_route_read_map
map_of _ = []

-- The map for an address of two digits, or of four.
unfoldable pub base_map : CommandScope → Bool → Schema
base_map train true = base_memory_d4_train_read_map
base_map scope big = map_of scope

unfoldable pub written_map : CommandScope → Bool → Schema
unfolding base_map
written_map scope true = sort_schema (base_map scope true)
written_map scope false = without_d4 (sort_schema (base_map scope false))

-- A record of a four-digit address is read without knowing the address.
abbrev pub known_id : Bool → ℕ → Option ℕ
known_id true id = none
known_id false id = some id

is_fit : CommandScope → Bool → Bool
is_fit scope big =
    distinct (base_map scope big)
    && (laid_out 0 (written_map scope big)
        && (leb (end_of 0 (written_map scope big)) (scope_record_length scope)
            && (big || lacks "_tmcc_id" (written_map scope big))))

is_fit_lem : (scope : CommandScope) (big : Bool) → IsRecordScope scope → is_fit scope big ≡ true
unfolding is_fit distinct lacks laid_out base_map map_of written_map sort_schema without_d4
    base_memory_engine_read_map base_memory_train_read_map base_memory_d4_train_read_map
    base_memory_acc_read_map base_memory_switch_read_map base_memory_route_read_map
is_fit_lem engine true h = refl
is_fit_lem engine false h = refl
is_fit_lem train true h = refl
is_fit_lem train false h = refl
is_fit_lem acc true h = refl
is_fit_lem acc false h = refl
is_fit_lem switch true h = refl
is_fit_lem switch false h = refl
is_fit_lem route true h = refl
is_fit_lem route false h = refl
is_fit_lem _ big h = absurd h

module _ (scope : CommandScope) (big : Bool) (record_scope : IsRecordScope scope) where
  fit_distinct : distinct (base_map scope big) ≡ true
  unfolding is_fit
  fit_distinct = and_left _ _ (is_fit_lem scope big record_scope)

  fit_rest :
      (laid_out 0 (written_map scope big)
        && (leb (end_of 0 (written_map scope big)) (scope_record_length scope)
            && (big || lacks "_tmcc_id" (written_map scope big))))
      ≡ true
  unfolding is_fit
  fit_rest = and_right (distinct (base_map scope big)) _ (is_fit_lem scope big record_scope)

  fit-IsLaidOut : IsLaidOut 0 (written_map scope big)
  fit-IsLaidOut =
      laid_out-IsLaidOut 0 (written_map scope big)
        (and_left (laid_out 0 (written_map scope big)) _ fit_rest)

  fit_end : end_of 0 (written_map scope big) ≤ scope_record_length scope
  fit_end =
      let after = and_right (laid_out 0 (written_map scope big)) _ fit_rest in
      ground (
        arith,
        and_left (leb (end_of 0 (written_map scope big)) (scope_record_length scope))
            (big || lacks "_tmcc_id" (written_map scope big)) after,
      )

  fit_lacks : (big || lacks "_tmcc_id" (written_map scope big)) ≡ true
  fit_lacks =
      and_right (leb (end_of 0 (written_map scope big)) (scope_record_length scope)) _
        (and_right (laid_out 0 (written_map scope big)) _ fit_rest)

written-IsWithin :
    (scope : CommandScope) (big : Bool) → IsWithin (written_map scope big) (base_map scope big)
unfolding written_map
written-IsWithin scope true k h m = In-sort_schema k h (base_map scope true) m
written-IsWithin scope false k h m =
    In-sort_schema k h (base_map scope false)
      (In-without_d4 k h (sort_schema (base_map scope false)) m)

str_eq_flip : (a b : String) → str_eq a b ≡ false → str_eq b a ≡ false
str_eq_flip a b h = ground (arith, eq_iff a b, eq_iff b a)

starts_empty :
    (big : Bool) (id : ℕ) (written : Schema) (k : ℕ) (h : CompDataHandler)
    → (big || lacks "_tmcc_id" written) ≡ true
    → In k h written
    → is_nothing (initial_fields (known_id big id) h.field) ≡ true
starts_empty true id written k h l m = refl
starts_empty false id written k h l m =
    rw (str_eq_flip "_tmcc_id" h.field (lacks-In "_tmcc_id" k h written l m)) refl

map_of_lem :
    (scope : CommandScope) → IsRecordScope scope → scope_to_comp_map scope ≡ some (map_of scope)
unfolding scope_to_comp_map map_of
map_of_lem engine h = refl
map_of_lem train h = refl
map_of_lem acc h = refl
map_of_lem switch h = refl
map_of_lem route h = refl
map_of_lem _ h = absurd h

parse_map_lem :
    (scope : CommandScope) (big : Bool) (id : ℕ)
    → IsRecordScope scope
    → parse_map scope (known_id big id) (map_of scope) ≡ base_map scope big
unfolding map_of base_map
parse_map_lem engine true id h = refl
parse_map_lem engine false id h = refl
parse_map_lem train true id h = refl
parse_map_lem train false id h = refl
parse_map_lem acc true id h = refl
parse_map_lem acc false id h = refl
parse_map_lem switch true id h = refl
parse_map_lem switch false id h = refl
parse_map_lem route true id h = refl
parse_map_lem route false id h = refl
parse_map_lem _ big id h = absurd h

base_map_lem :
    (scope : CommandScope)
    → IsRecordScope scope
    → (base_map scope true
        ≡ (if same_scope scope train then base_memory_d4_train_read_map else map_of scope))
      × (base_map scope false ≡ map_of scope)
unfolding map_of base_map
base_map_lem engine h = (refl, refl)
base_map_lem train h = (refl, refl)
base_map_lem acc h = (refl, refl)
base_map_lem switch h = (refl, refl)
base_map_lem route h = (refl, refl)
base_map_lem _ h = absurd h

write_map_lem :
    (scope : CommandScope) (id : ℕ)
    → IsRecordScope scope
    → write_map scope (map_of scope) (pos id) ≡ written_map scope (ltb 99 id)
unfolding write_map written_map
write_map_lem scope id h = elim (Bool-cases (ltb 99 id)) [
  | inl e ↦ rw e (ap sort_schema (sym (base_map_lem scope h).0))
  | inr e ↦ rw e (ap (λ m. without_d4 (sort_schema m)) (sym (base_map_lem scope h).1))
]

record_length_pos : (scope : CommandScope) → IsRecordScope scope → 0x40 ≤ scope_record_length scope
record_length_pos engine h = omega arith
record_length_pos train h = omega arith
record_length_pos acc h = omega arith
record_length_pos switch h = omega arith
record_length_pos route h = omega arith
record_length_pos _ h = absurd h

present : (bs : List ℕ) → 1 ≤ length bs → is_absent bs ≡ false
present [] h = absurd (omega arith)
present (b ∷ bs) h = refl

as_bytes_lem :
    (scope : CommandScope) (fs : Fields) (id : ℕ) (bs : List ℕ)
    → IsRecordScope scope
    → fs "_tmcc_id" ≡ int (pos id)
    → write_fields (written_map scope (ltb 99 id)) 0 fs ≡ ok bs
    → as_bytes (record { scope = scope; fields = fs })
      ≡ ok (bs ++ replicate (scope_record_length scope - length bs) 0xFF)
unfolding as_bytes
as_bytes_lem scope fs id bs h own w =
    rw (map_of_lem scope h, as_bytes) (rw own (rw (write_map_lem scope id h) (rw w refl)))

comp_data_lem :
    (s : ℕ → Option ℕ) (scope : CommandScope) (big : Bool) (id : ℕ) (bs : List ℕ)
    → IsRecordScope scope
    → 1 ≤ length bs
    → comp_data s bs scope (known_id big id)
      ≡ ok (record {
        scope = scope;
        fields = parse_bytes s bs (base_map scope big) (initial_fields (known_id big id));
      })
unfolding comp_data
comp_data_lem s scope big id bs h some_bytes =
    rw (map_of_lem scope h, comp_data)
      (rw (present bs some_bytes) (rw (parse_map_lem scope big id h) refl))

-- A record of an engine, a train, an accessory, a switch or a route whose fields hold values that they
-- can hold is written to as many bytes as the Base 3 has for it, and these are read back as a record
-- with the same values, for a two-digit address, which the reader knows, and for a four-digit one, which
-- it does not.
pub comp_data-as_bytes :
    (s : ℕ → Option ℕ) (scope : CommandScope) (fs : Fields) (id : ℕ)
    → IsRecordScope scope
    → fs "_tmcc_id" ≡ int (pos id)
    → AreStored s fs (written_map scope (ltb 99 id))
    → (bs : List ℕ) × (c : CompData) × (as_bytes (record { scope = scope; fields = fs }) ≡ ok bs)
      × (length bs ≡ scope_record_length scope)
      × (comp_data s bs scope (known_id (ltb 99 id) id) ≡ ok c)
      × AreSame c.fields fs (written_map scope (ltb 99 id))
comp_data-as_bytes s scope fs id h own stored =
    let big : Bool = ltb 99 id in
    let filling : List ℕ =
      replicate (scope_record_length scope - end_of 0 (written_map scope big)) 0xFF in
    let (bs, w, l, _, read) =
      write_fields_lem s fs (written_map scope big) 0 filling (fit-IsLaidOut scope big h) stored in
    let start : Fields = initial_fields (known_id big id) in
    let size : length (bs ++ filling) ≡ scope_record_length scope = omega (
      arith,
      length-append bs filling,
      length-replicate {A = ℕ} (scope_record_length scope - end_of 0 (written_map scope big)) 0xFF,
      l,
      fit_end scope big h,
    ) in
    (
      bs ++ filling,
      record { scope = scope; fields = parse_bytes s (bs ++ filling) (base_map scope big) start },
      as_bytes_lem scope fs id bs h own w
          ∙ ap (λ n. ok (bs ++ replicate (scope_record_length scope - n) 0xFF)) (omega (arith, l)),
      size,
      comp_data_lem s scope big id (bs ++ filling) h
          (omega (arith, size, record_length_pos scope h)),
      AreSame-parse_bytes s (bs ++ filling) (base_map scope big) start fs (written_map scope big) 0
          (fit_distinct scope big h) (written-IsWithin scope big) (fit-IsLaidOut scope big h)
          (omega (arith, size, fit_end scope big h))
          (λ k g m. starts_empty big id (written_map scope big) k g (fit_lacks scope big h) m) read,
    )
