-- ===== src/Protocol/RoundTrip/Rows.antt =====
-- Checks of a command table, made by evaluation, and what they say of its rows.
use py_legacy.Common.{
  ℕ, zero, suc, ◌+◌, ◌≡◌, refl, Bool, true, false, not, ◌&&◌, ◌||◌, none, some, List, [], ◌∷◌,
  arith, ◌==◌, ltb, if◌then◌else◌, get_elem?, all_below, all_below_sound, Bool-cases, Option-cases,
  inl, inr,
}
use native.Mathlib.Nat.{add-zero, add-suc, suc-add}
use py_legacy.Common.Int.{ℤ, pos, negsuc, leb_ℤ, eq_of_eq_ℤ}
use py_legacy.Protocol.Def.{
  CommandDef, Command, num_data_bits, is_data, is_valid_data, map_get, find,
}

module _ (p : Command → Bool) where
  unfoldable pub all_rows : List Command → Bool
  all_rows [] = true
  all_rows (m ∷ ms) = elim (p m) [ true ↦ all_rows ms | false ↦ false ]

  pub all_rows_sound :
      (ms : List Command) (i : ℕ) {m : Command}
      → all_rows ms ≡ true
      → get_elem? ms i ≡ some m
      → p m ≡ true
  unfolding all_rows
  all_rows_sound [] i h e = absurd (cc e)
  all_rows_sound (x ∷ ms) zero h e = ground arith
  all_rows_sound (x ∷ ms) (suc i) h e = all_rows_sound ms i (ground arith) e

-- The same with the position of the row.
module _ (p : ℕ → Command → Bool) where
  unfoldable pub all_indexed : ℕ → List Command → Bool
  all_indexed i [] = true
  all_indexed i (m ∷ ms) = elim (p i m) [ true ↦ all_indexed (suc i) ms | false ↦ false ]

  pub all_indexed_sound :
      (ms : List Command) (start i : ℕ) {m : Command}
      → all_indexed start ms ≡ true
      → get_elem? ms i ≡ some m
      → p (start + i) m ≡ true
  unfolding all_indexed
  all_indexed_sound [] start i h e = absurd (cc e)
  all_indexed_sound (x ∷ ms) start zero h e = rw add-zero (ground arith)
  all_indexed_sound (x ∷ ms) start (suc i) h e =
      rw (add-suc, ← suc-add) (all_indexed_sound ms (suc start) i (ground arith) e)

-- The position of the first row that passes.
module _ (p : Command → Bool) where
  unfoldable pub found_at : ℕ → List Command → Bool
  found_at i [] = false
  found_at zero (m ∷ ms) = p m
  found_at (suc i) (m ∷ ms) = elim (p m) [ true ↦ false | false ↦ found_at i ms ]

  pub find_of_found :
      (ms : List Command) (i : ℕ) (m : Command)
      → found_at i ms ≡ true
      → get_elem? ms i ≡ some m
      → find p ms ≡ some m
  unfolding found_at find
  find_of_found [] i m h e = absurd (cc e)
  find_of_found (x ∷ ms) zero m h e = ground arith
  find_of_found (x ∷ ms) (suc i) m h e = ground (arith, find_of_found ms i m)

-- No row passes.
pub find_of_none :
    (p : Command → Bool) (ms : List Command)
    → all_rows (λ m. not (p m)) ms ≡ true
    → find p ms ≡ none
unfolding all_rows find
find_of_none p [] h = refl
find_of_none p (m ∷ ms) h = ground (arith, find_of_none p ms)

-- Two tests that agree on the rows of a checked table find the same row.
pub find_agree :
    (p q ok_row : Command → Bool)
    → ((m : Command) → ok_row m ≡ true → p m ≡ q m)
    → (ms : List Command) → all_rows ok_row ms ≡ true
    → find p ms ≡ find q ms
unfolding find all_rows
find_agree p q ok_row agree [] h = refl
find_agree p q ok_row agree (m ∷ ms) h = ground (arith, agree m, find_agree p q ok_row agree ms)

-- The data that a caller may give: anything to a command without data.
unfoldable pub accepts : CommandDef → ℤ → Bool
accepts c d = num_data_bits c == 0 || is_valid_data c d

-- The data that the request then holds.
abbrev pub own_data : CommandDef → ℤ → ℤ
own_data c d = if num_data_bits c == 0 then pos 0 else d

all_keys : (ℤ → Bool) → List (ℤ × ℕ) → Bool
all_keys p [] = true
all_keys p ((k, v) ∷ rest) = elim (p k) [ true ↦ all_keys p rest | false ↦ false ]

all_keys_sound :
    (p : ℤ → Bool) (d : ℤ) (rest : List (ℤ × ℕ)) (v : ℕ)
    → all_keys p rest ≡ true
    → map_get d rest ≡ some v
    → p d ≡ true
unfolding all_keys map_get
all_keys_sound p d [] v h e = absurd (cc e)
all_keys_sound p d ((k, w) ∷ rest) v h e = ground (arith, eq_of_eq_ℤ d k, all_keys_sound p d rest v)

-- A check of every value that a command takes.
unfoldable pub all_data : CommandDef → (ℤ → Bool) → Bool
unfolding all_keys
all_data c p = if num_data_bits c == 0 then p (pos 0) else (elim c.d_map [
  | [] ↦ all_below (c.d_max + 1) (λ n. if ltb n c.d_min then true else p (pos n))
  | k ∷ rest ↦ all_keys p (k ∷ rest)
])

all_range_sound :
    (lo hi : ℕ) (p : ℤ → Bool) (d : ℤ)
    → all_below (hi + 1) (λ n. if ltb n lo then true else p (pos n)) ≡ true
    → (leb_ℤ (pos lo) d && leb_ℤ d (pos hi)) ≡ true
    → p d ≡ true
all_range_sound lo hi p (pos n) h e =
    ground (
      arith,
      all_below_sound (hi + 1) (λ n. if ltb n lo then true else p (pos n)) n h (ground arith),
    )
all_range_sound lo hi p (negsuc n) h e = absurd (cc e)

data_sound :
    (lo hi : ℕ) (map : List (ℤ × ℕ)) (p : ℤ → Bool) (d : ℤ)
    → (elim map as (λ _. Bool) [
      | [] ↦ all_below (hi + 1) (λ n. if ltb n lo then true else p (pos n))
      | k ∷ rest ↦ all_keys p (k ∷ rest)
    ])
      ≡ true
    → (elim map as (λ _. Bool) [
      | [] ↦ leb_ℤ (pos lo) d && leb_ℤ d (pos hi)
      | k ∷ rest ↦ elim (map_get d (k ∷ rest)) [ none ↦ false | some v ↦ true ]
    ])
      ≡ true
    → p d ≡ true
data_sound lo hi [] p d h e = all_range_sound lo hi p d h e
data_sound lo hi (k ∷ rest) p d h e = elim (Option-cases (map_get d (k ∷ rest))) [
  | inl x ↦ absurd (cc (rw x at e))
  | inr (v, x) ↦ all_keys_sound p d (k ∷ rest) v h x
]

pub all_data_sound :
    (c : CommandDef) (p : ℤ → Bool) (d : ℤ)
    → all_data c p ≡ true
    → accepts c d ≡ true
    → p (own_data c d) ≡ true
unfolding all_data accepts is_valid_data is_data
all_data_sound c p d h e = elim (Bool-cases (num_data_bits c == 0)) [
  | inl z ↦ rw z (rw z at h)
  | inr z ↦ rw z (data_sound c.d_min c.d_max c.d_map p d (rw z at h) (rw z at e))
]
