-- ===== src/Db/Updates/Bounds.antt =====
-- Where a package is written (db/comp_data.py).
use Prim.Native.String.{String}
use text.Mathlib.Text.{◌==◌ as str_eq}
use text.Mathlib.TextEquality.{eq_iff}
use mathlib.Core.Path.{subst}
use py_legacy.Common.{
  ℕ, ◌+◌, ◌≤◌, ◌≡◌, ◌⊎◌, refl, inl, inr, Bool, true, false, ◌&&◌, ◌||◌, Option, none, some, List,
  [], ◌∷◌, arith, leb, Bool-cases, Option-cases, and_left, and_right, length, Result, ok, raise,
  ◌>>=◌,
}
use py_legacy.Protocol.Scope.{CommandScope, engine, train, switch, route, acc}
use py_legacy.Db.CompData.{scope_to_comp_map, scope_record_length, field_bytes}
use py_legacy.Db.CompData.Maps.{
  Value, nothing, int, str, consist, routes, raw, CompDataHandler, Schema,
  base_memory_engine_read_map, base_memory_train_read_map, base_memory_acc_read_map,
  base_memory_switch_read_map, base_memory_route_read_map,
}
use py_legacy.Db.Updates.{
  Transform, EngineView, Datum, UpdatePkg, find_field, addressed, create_update_pkg, base_value,
  make_package,
}
use py_legacy.Db.Updates.Lengths.{
  is_exact, is_short, is_given, value_short, IsLong, field_bytes-IsLong, IsShort,
  base_value-IsShort,
}

-- An entry of a map ends within so many bytes, and its codec writes as many bytes as it is long.
abbrev is_entry : ℕ → ℕ → CompDataHandler → Bool
is_entry n k h = leb (k + h.length) n && is_exact h.codec h.length h.field

-- All fields of a map do.
unfoldable pub ends_within : ℕ → Schema → Bool
ends_within n [] = true
ends_within n ((k, h) ∷ rest) = is_entry n k h && ends_within n rest

abbrev IsInside : ℕ → String → Option (ℕ × CompDataHandler) → Type 0
IsInside n f none = Unit
IsInside n f (some (k, h)) = (is_entry n k h ≡ true) × (str_eq f h.field ≡ true)

find_field-IsInside :
    (n : ℕ) (f : String) (schema : Schema)
    → ends_within n schema ≡ true
    → IsInside n f (find_field f schema)
unfolding find_field ends_within
find_field-IsInside n f [] e = tt
find_field-IsInside n f ((k, h) ∷ rest) e = elim (Bool-cases (str_eq f h.field)) [
  | inl here ↦ rw here (and_left (is_entry n k h) (ends_within n rest) e, here)
  | inr later ↦
      rw later (find_field-IsInside n f rest (and_right (is_entry n k h) (ends_within n rest) e))
]

-- The entry lies within the record, and it is not that of the TMCC ID.
abbrev IsWithin : ℕ → ℕ → CompDataHandler → Type 0
IsWithin n k h =
    (k + h.length ≤ n)
    × (is_exact h.codec h.length h.field ≡ true)
    × (str_eq h.field "_tmcc_id" ≡ false)

inside-IsWithin :
    (n : ℕ) (f : String) (k : ℕ) (h : CompDataHandler)
    → (is_entry n k h ≡ true) × (str_eq f h.field ≡ true)
    → str_eq f "_tmcc_id" ≡ false
    → IsWithin n k h
inside-IsWithin n f k h (e, same) other =
    let exact = and_right (leb (k + h.length) n) (is_exact h.codec h.length h.field) e in
    let fits = and_left (leb (k + h.length) n) (is_exact h.codec h.length h.field) e in
    (
      ground (arith, fits),
      exact,
      subst (λ g. str_eq g "_tmcc_id" ≡ false) ((eq_iff f h.field).0 same) other,
    )

abbrev IsAddressedInside : ℕ → Option (String × ℕ × CompDataHandler) → Type 0
IsAddressedInside n none = Unit
IsAddressedInside n (some (f, k, h)) = IsWithin n k h

addressed-IsAddressedInside :
    (n : ℕ) (f : String) (schema : Schema)
    → ends_within n schema ≡ true
    → str_eq f "_tmcc_id" ≡ false
    → IsAddressedInside n (addressed f schema)
unfolding addressed
addressed-IsAddressedInside n f schema e other = elim (Option-cases (find_field f schema)) [
  | inr ((k, h), found) ↦
      rw (found, addressed)
        (inside-IsWithin n f k h (rw found at (find_field-IsInside n f schema e)) other)
  | inl missing ↦
      rw (missing, addressed)
        (elim (Bool-cases (str_eq f "_rpm" || str_eq f "_labor")) [
          | inr another ↦ rw another tt
          | inl shared ↦ rw shared (elim (Option-cases (find_field "_rpm_labor" schema)) [
            | inl none_there ↦ rw none_there tt
            | inr ((k, h), found) ↦ rw found (
                inside-IsWithin n "_rpm_labor" k h
                  (rw found at (find_field-IsInside n "_rpm_labor" schema e)) refl)
          ])
        ])
]

-- Unless the text is too long, there are as many bytes as the package says.
abbrev IsPkgInside : ℕ → Datum → Result (Option UpdatePkg) → Type 0
IsPkgInside n d (ok (some p)) =
    (p.offset + p.length ≤ n) × ((is_short d p.length ≡ false) ⊎ (length p.data_bytes ≡ p.length))
IsPkgInside n d (ok none) = Unit
IsPkgInside n d (raise e) = Unit

module _ (n : ℕ) (d : Datum) (f : String) (k : ℕ) (h : CompDataHandler) (w : IsWithin n k h) where
  written_inside :
      (r : Result (List ℕ))
      → (is_short d h.length ≡ false) ⊎ IsLong h.length r
      → IsPkgInside n d (do
        bs ← r
        ok (some (record { field = f; offset = k; length = h.length; data_bytes = bs })))
  written_inside (ok bs) long = (w.0, long)
  written_inside (raise e) long = tt

  written_whole :
      (v : Value)
      → is_given v ≡ true
      → (is_short d h.length ≡ false) ⊎ (value_short v h.length ≡ true)
      → (is_short d h.length ≡ false) ⊎ IsLong h.length (field_bytes h v)
  written_whole v g (inl long) = inl long
  written_whole v g (inr short) = inr (field_bytes-IsLong h v w.1 w.2 short g)

  make_package-IsPkgInside :
      (v : Value)
      → (is_short d h.length ≡ false) ⊎ (value_short v h.length ≡ true)
      → IsPkgInside n d (make_package f k h v)
  make_package-IsPkgInside nothing s = tt
  make_package-IsPkgInside (int x) s =
      written_inside (field_bytes h (int x)) (written_whole (int x) refl s)
  make_package-IsPkgInside (str t) s =
      written_inside (field_bytes h (str t)) (written_whole (str t) refl s)
  make_package-IsPkgInside (consist cs) s =
      written_inside (field_bytes h (consist cs)) (written_whole (consist cs) refl s)
  make_package-IsPkgInside (routes cs) s =
      written_inside (field_bytes h (routes cs)) (written_whole (routes cs) refl s)
  make_package-IsPkgInside (raw bs) s =
      written_inside (field_bytes h (raw bs)) (written_whole (raw bs) refl s)

  base_value-IsPkgInside :
      (r : Result Value)
      → (is_short d h.length ≡ false) ⊎ IsShort h.length r
      → IsPkgInside n d (do v ← r; make_package f k h v)
  base_value-IsPkgInside (ok v) s = make_package-IsPkgInside v s
  base_value-IsPkgInside (raise e) s = tt

map_ends_within : ℕ → Option Schema → Bool
map_ends_within n none = true
map_ends_within n (some schema) = ends_within n schema

maps_end :
    (scope : CommandScope)
    → map_ends_within (scope_record_length scope) (scope_to_comp_map scope) ≡ true
unfolding map_ends_within ends_within scope_to_comp_map base_memory_engine_read_map
    base_memory_train_read_map base_memory_acc_read_map base_memory_switch_read_map
    base_memory_route_read_map
maps_end engine = refl
maps_end train = refl
maps_end acc = refl
maps_end switch = refl
maps_end route = refl
maps_end _ = refl

create_update_pkg-IsPkgInside :
    (scope : CommandScope) (transform : Transform) (f : String) (is_legacy : Bool)
    (state : Option EngineView) (datum : Datum)
    → str_eq f "_tmcc_id" ≡ false
    → IsPkgInside
        (scope_record_length scope)
        datum
        (create_update_pkg scope transform f is_legacy state datum)
unfolding create_update_pkg map_ends_within
create_update_pkg-IsPkgInside scope transform f is_legacy state datum other =
    elim (Option-cases (scope_to_comp_map scope)) [
      | inl none_there ↦ rw (none_there, create_update_pkg) tt
      | inr (schema, e) ↦
          let ends : ends_within (scope_record_length scope) schema ≡ true =
            rw e at (maps_end scope) in
          let inside =
            addressed-IsAddressedInside (scope_record_length scope) f schema ends other in
          rw (e, create_update_pkg)
            (elim (Option-cases (addressed f schema)) [
              | inl unknown ↦ rw unknown tt
              | inr ((field, k, h), found) ↦ rw found (
                  base_value-IsPkgInside (scope_record_length scope) datum field k h
                    (rw found at inside) (base_value transform f field is_legacy state datum)
                    (short_cases field h))
            ])
    ]
  where
    short_cases :
        (field : String) (h : CompDataHandler)
        → (is_short datum h.length ≡ false)
          ⊎ IsShort h.length (base_value transform f field is_legacy state datum)
    short_cases field h = elim (Bool-cases (is_short datum h.length)) [
      | inl short ↦ inr (base_value-IsShort h.length transform f field is_legacy state datum short)
      | inr long ↦ inl long
    ]

-- A package that does not write the TMCC ID, and whose data is no text longer than the field, has as
-- many bytes as its field, and they lie within the record of its scope, whatever the state is.
pub create_update_pkg_bounds :
    (scope : CommandScope) (transform : Transform) (f : String) (is_legacy : Bool)
    (state : Option EngineView) (datum : Datum) (p : UpdatePkg)
    → str_eq f "_tmcc_id" ≡ false
    → is_short datum p.length ≡ true
    → create_update_pkg scope transform f is_legacy state datum ≡ ok (some p)
    → (p.offset + length p.data_bytes ≤ scope_record_length scope)
      × (length p.data_bytes ≡ p.length)
create_update_pkg_bounds scope transform f is_legacy state datum p other short e = both (
    subst (IsPkgInside (scope_record_length scope) datum) e
      (create_update_pkg-IsPkgInside scope transform f is_legacy state datum other))
  where
    both :
        (p.offset + p.length ≤ scope_record_length scope)
          × ((is_short datum p.length ≡ false) ⊎ (length p.data_bytes ≡ p.length))
        → (p.offset + length p.data_bytes ≤ scope_record_length scope)
          × (length p.data_bytes ≡ p.length)
    both (le, inl long) = absurd (cc (long, short))
    both (le, inr whole) = (omega (arith, le, whole), whole)
