-- ===== src/Db/Components.antt =====
-- The members of a train and of a route, as a record of the Base 3 holds them (db/components.py).
pub mod Written
pub mod RoundTrip
pub mod Routes
pub mod Lost
use py_legacy.Common.{
  ℕ, zero, suc, ◌+◌, ◌-◌, ◌*◌, Bool, true, false, ◌&&◌, ◌||◌, Option, none, some, List, [], ◌∷◌,
  ◌++◌, ◌==◌, leb, if◌then◌else◌, length, Result, ok, raise, index_error, ◌>>=◌, bit_and,
}
use py_legacy.Db.Text.{replicate, le_bytes}

-- `UnitAssignment(0b111 & flags)` never raises: every value has a name.
pub record ConsistComponent : Type 0 where
  pub tmcc_id : ℕ
  pub flags : ℕ
  pub extra : ℕ
  pub rec_no : Option ℕ

pub record RouteComponent : Type 0 where
  pub tmcc_id : ℕ
  pub flags : ℕ

-- `reversed(xs)`, before `acc`
unfoldable pub rev_onto {ℓ} : {A : Type ℓ} → List A → List A → List A
rev_onto [] acc = acc
rev_onto (x ∷ xs) acc = rev_onto xs (x ∷ acc)

-- The loop over pairs of bytes; `acc` holds what was put in front so far.
unfoldable pub read_pairs {ℓ} : {A : Type ℓ} → (ℕ → ℕ → A) → ℕ → List ℕ → List A → Result (List A)
read_pairs make zero bs acc = ok acc
read_pairs make (suc n) [] acc = ok acc
read_pairs make (suc n) (f ∷ []) acc = if f == 0xFF then ok acc else raise index_error
read_pairs make (suc n) (f ∷ t ∷ rest) acc =
    read_pairs make n rest (if f == 0xFF || t == 0xFF then acc else make f t ∷ acc)

abbrev pub consist_pair : ℕ → ℕ → ConsistComponent
consist_pair f t = record { tmcc_id = t; flags = f; extra = 0xFF; rec_no = none }

unfoldable pub consist_from_bytes : List ℕ → Result (List ConsistComponent)
unfolding read_pairs
consist_from_bytes bs = read_pairs consist_pair 16 bs []

abbrev d4_component : (ℕ → Option ℕ) → ℕ → ℕ → ℕ → ℕ → List ConsistComponent → List ConsistComponent
d4_component by_record_no extra flags lo hi rest = elim (by_record_no (lo + 256 * hi)) [
  | none ↦ rest
  | some id ↦
      record { tmcc_id = id; flags = flags; extra = extra; rec_no = some (lo + 256 * hi) } ∷ rest
]

-- The loop over groups of four bytes. `by_record_no` is the TMCC ID that the state store knows a record
-- by; `extra` is the first byte of all.
unfoldable pub read_d4 : (ℕ → Option ℕ) → ℕ → ℕ → List ℕ → Result (List ConsistComponent)
read_d4 by_record_no extra zero bs = ok []
read_d4 by_record_no extra (suc n) [] = ok []
read_d4 by_record_no extra (suc n) (a ∷ []) = raise index_error
read_d4 by_record_no extra (suc n) (a ∷ f ∷ []) = if f == 0xFF then ok [] else raise index_error
read_d4 by_record_no extra (suc n) (a ∷ f ∷ lo ∷ []) =
    if f == 0xFF || lo == 0xFF then ok [] else raise index_error
read_d4 by_record_no extra (suc n) (a ∷ f ∷ lo ∷ hi ∷ rest) = do
  more ← read_d4 by_record_no extra n rest
  ok (
      if f == 0xFF || (lo == 0xFF || hi == 0xFF)
      then more
      else d4_component by_record_no extra f lo hi more)

unfoldable pub consist_from_d4_bytes : (ℕ → Option ℕ) → List ℕ → Result (List ConsistComponent)
unfolding read_d4
consist_from_d4_bytes by_record_no [] = ok []
consist_from_d4_bytes by_record_no (extra ∷ bs) = read_d4 by_record_no extra 16 (extra ∷ bs)

unfoldable pub consist_component_bytes : ConsistComponent → Result (List ℕ)
consist_component_bytes c = elim c.rec_no [
  | none ↦ (do f ← le_bytes 1 c.flags; t ← le_bytes 1 c.tmcc_id; ok (f ++ t))
  | some n ↦ (do f ← le_bytes 1 c.flags; r ← le_bytes 2 n; ok (0xFF ∷ (f ++ r)))
]

unfoldable pub consist_bytes : List ConsistComponent → Result (List ℕ)
unfolding consist_component_bytes
consist_bytes [] = ok []
consist_bytes (c ∷ cs) = do b ← consist_component_bytes c; bs ← consist_bytes cs; ok (b ++ bs)

unfoldable pub pad_to : ℕ → List ℕ → List ℕ
pad_to n bs = bs ++ replicate (n - length bs) 0xFF

unfoldable pub consist_to_bytes : List ConsistComponent → Result (List ℕ)
unfolding consist_bytes rev_onto pad_to
consist_to_bytes cs = do bs ← consist_bytes (rev_onto cs []); ok (pad_to 32 bs)

unfoldable pub consist_to_d4_bytes : List ConsistComponent → Result (List ℕ)
unfolding consist_bytes pad_to
consist_to_d4_bytes cs = do bs ← consist_bytes cs; ok (pad_to 64 bs)

-- `sorted(..., key=lambda s: s.tmcc_id)`, which keeps the order of equal keys
unfoldable pub insert_route : RouteComponent → List RouteComponent → List RouteComponent
insert_route c [] = c ∷ []
insert_route c (d ∷ ds) =
    let behind = insert_route c ds in if leb c.tmcc_id d.tmcc_id then c ∷ d ∷ ds else d ∷ behind

unfoldable pub sort_routes : List RouteComponent → List RouteComponent
unfolding insert_route
sort_routes [] = []
sort_routes (c ∷ cs) = insert_route c (sort_routes cs)

abbrev pub route_pair : ℕ → ℕ → RouteComponent
route_pair f t = record { tmcc_id = t; flags = f }

unfoldable pub routes_from_bytes : List ℕ → Result (List RouteComponent)
unfolding read_pairs sort_routes
routes_from_bytes bs = do cs ← read_pairs route_pair 16 bs []; ok (sort_routes cs)

unfoldable pub route_bytes : List RouteComponent → Result (List ℕ)
route_bytes [] = ok []
route_bytes (c ∷ cs) = do
  f ← le_bytes 1 c.flags
  t ← le_bytes 1 c.tmcc_id
  bs ← route_bytes cs
  ok (f ++ (t ++ bs))

unfoldable pub routes_to_bytes : List RouteComponent → Result (List ℕ)
unfolding route_bytes pad_to
routes_to_bytes cs = do bs ← route_bytes cs; ok (pad_to 32 bs)

unfoldable pub is_thru : RouteComponent → Bool
is_thru c = bit_and 3 c.flags == 0

unfoldable pub is_route : RouteComponent → Bool
is_route c = bit_and 3 c.flags == 3
