-- ===== src/Db/CompData/Reading.antt =====
-- What `_parse_bytes` puts into the fields (db/comp_data.py).
use Prim.Native.String.{String}
use text.Mathlib.Text.{◌==◌ as str_eq}
use text.Mathlib.TextEquality.{eq_iff}
use py_legacy.Common.{
  ℕ, ◌+◌, ◌-◌, ◌≤◌, ◌≡◌, refl, sym, ap, ◌∙◌, ◌⊎◌, inl, inr, Bool, true, false, not, ◌&&◌, Option,
  List, [], ◌∷◌, arith, leb, length, take, drop, Bool-cases, ok, and_left, and_right, if◌then◌else◌,
  Result-cases,
}
use py_legacy.Db.CompData.{
  Fields, from_bytes, parse_field, parse_bytes, is_nothing, insert_entry, sort_schema, without_d4,
}
use py_legacy.Db.CompData.Maps.{Value, CompDataHandler, Schema}

abbrev pub In : ℕ → CompDataHandler → Schema → Type 0
In k h [] = ⊥
In k h ((j, g) ∷ rest) = ((k ≡ j) × (h ≡ g)) ⊎ In k h rest

In-insert_entry :
    (k j : ℕ) (h g : CompDataHandler) (schema : Schema)
    → In k h (insert_entry j g schema)
    → ((k ≡ j) × (h ≡ g)) ⊎ In k h schema
unfolding insert_entry
In-insert_entry k j h g [] m = m
In-insert_entry k j h g ((i, f) ∷ rest) m = elim (Bool-cases (leb j i)) [
  | inl e ↦ rw e at m
  | inr e ↦ elim (behind (rw e at m)) [
    | inl here ↦ inr (inl here)
    | inr later ↦ elim (In-insert_entry k j h g rest later) [
      | inl new ↦ inl new
      | inr old ↦ inr (inr old)
    ]
  ]
]
  where
    behind :
        ((k ≡ i) × (h ≡ f)) ⊎ In k h (insert_entry j g rest)
        → ((k ≡ i) × (h ≡ f)) ⊎ In k h (insert_entry j g rest)
    behind m = m

pub In-sort_schema :
    (k : ℕ) (h : CompDataHandler) (schema : Schema) → In k h (sort_schema schema) → In k h schema
unfolding sort_schema
In-sort_schema k h [] m = m
In-sort_schema k h ((j, g) ∷ rest) m = elim (In-insert_entry k j h g (sort_schema rest) m) [
  | inl here ↦ inl here
  | inr later ↦ inr (In-sort_schema k h rest later)
]

pub In-without_d4 :
    (k : ℕ) (h : CompDataHandler) (schema : Schema) → In k h (without_d4 schema) → In k h schema
unfolding without_d4
In-without_d4 k h [] m = m
In-without_d4 k h ((j, g) ∷ rest) m = elim (kept g.d4_only m) [
  | inl here ↦ inl here
  | inr later ↦ inr (In-without_d4 k h rest later)
]
  where
    kept :
        (b : Bool)
        → In k h (if b then without_d4 rest else (j, g) ∷ without_d4 rest)
        → ((k ≡ j) × (h ≡ g)) ⊎ In k h (without_d4 rest)
    kept true m = inr m
    kept false m = m

-- No entry has the field.
unfoldable pub lacks : String → Schema → Bool
lacks f [] = true
lacks f ((k, h) ∷ rest) = not (str_eq f h.field) && lacks f rest

-- No two entries have the same field.
unfoldable pub distinct : Schema → Bool
unfolding lacks
distinct [] = true
distinct ((k, h) ∷ rest) = lacks h.field rest && distinct rest

str_eq_sym : (a b : String) → str_eq a b ≡ false → str_eq b a ≡ false
str_eq_sym a b h = ground (arith, eq_iff a b, eq_iff b a)

pub lacks-In :
    (f : String) (k : ℕ) (h : CompDataHandler) (schema : Schema)
    → lacks f schema ≡ true
    → In k h schema
    → str_eq f h.field ≡ false
unfolding lacks
lacks-In f k h [] l m = absurd m
lacks-In f k h ((j, g) ∷ rest) l (inl (_, e)) =
    rw e (ground (arith, and_left (not (str_eq f g.field)) (lacks f rest) l))
lacks-In f k h ((j, g) ∷ rest) l (inr later) =
    lacks-In f k h rest (and_right (not (str_eq f g.field)) (lacks f rest) l) later

module _ (s : ℕ → Option ℕ) (bs : List ℕ) where
  parse_field-other :
      (fs : Fields) (k : ℕ) (h : CompDataHandler) (f : String)
      → str_eq f h.field ≡ false
      → parse_field s bs fs k h f ≡ fs f
  unfolding parse_field
  parse_field-other fs k h f e =
      elim (Bool-cases (leb (k + h.length - 1) (length bs) && is_nothing (fs h.field))) [
        | inl open_field ↦
            rw open_field (elim (Result-cases (from_bytes s h.codec (take h.length (drop k bs)))) [
              | inl (v, r) ↦ rw r (rw e refl)
              | inr (x, r) ↦ rw r refl
            ])
        | inr closed ↦ rw closed refl
      ]

  parse_bytes-lacks :
      (schema : Schema) (fs : Fields) (f : String)
      → lacks f schema ≡ true
      → parse_bytes s bs schema fs f ≡ fs f
  unfolding parse_bytes lacks
  parse_bytes-lacks [] fs f l = refl
  parse_bytes-lacks ((k, h) ∷ rest) fs f l =
      parse_bytes-lacks rest (parse_field s bs fs k h) f
        (and_right (not (str_eq f h.field)) (lacks f rest) l)
      ∙ parse_field-other fs k h f
          (ground (arith, and_left (not (str_eq f h.field)) (lacks f rest) l))

  parse_field_lem :
      (fs : Fields) (k : ℕ) (h : CompDataHandler) (v : Value)
      → k + h.length ≤ length bs
      → is_nothing (fs h.field) ≡ true
      → from_bytes s h.codec (take h.length (drop k bs)) ≡ ok v
      → parse_field s bs fs k h h.field ≡ v
  unfolding parse_field
  parse_field_lem fs k h v le empty r =
      let long : leb (k + h.length - 1) (length bs) ≡ true = ground arith in
      rw (long, empty) (rw r (rw ((eq_iff h.field h.field).1 refl) refl))

  -- A field that is not set yet gets the value that its bytes stand for.
  pub parse_bytes-In :
      (schema : Schema) (fs : Fields) (k : ℕ) (h : CompDataHandler) (v : Value)
      → distinct schema ≡ true
      → In k h schema
      → k + h.length ≤ length bs
      → is_nothing (fs h.field) ≡ true
      → from_bytes s h.codec (take h.length (drop k bs)) ≡ ok v
      → parse_bytes s bs schema fs h.field ≡ v
  unfolding parse_bytes distinct
  parse_bytes-In [] fs k h v d m le empty r = absurd m
  parse_bytes-In ((j, g) ∷ rest) fs k h v d (inl (p, q)) le empty r =
      let l : lacks h.field rest ≡ true =
        ap (λ x. lacks x.field rest) q ∙ and_left (lacks g.field rest) (distinct rest) d in
      parse_bytes-lacks rest (parse_field s bs fs j g) h.field l
      ∙ (ap (λ (x : ℕ). parse_field s bs fs x g h.field) (sym p)
          ∙ (ap (λ x. parse_field s bs fs k x h.field) (sym q)
              ∙ parse_field_lem fs k h v le empty r))
  parse_bytes-In ((j, g) ∷ rest) fs k h v d (inr later) le empty r =
      let apart : str_eq h.field g.field ≡ false =
        str_eq_sym g.field h.field
          (lacks-In g.field k h rest (and_left (lacks g.field rest) (distinct rest) d) later) in
      parse_bytes-In rest (parse_field s bs fs j g) k h v
        (and_right (lacks g.field rest) (distinct rest) d) later le
        (ap is_nothing (parse_field-other fs j g h.field apart) ∙ empty) r
