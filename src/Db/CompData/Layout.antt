-- ===== src/Db/CompData/Layout.antt =====
-- The fields of a record lie where the map says, when they are written one after the other
-- (db/comp_data.py).
use mathlib.Core.Path.{subst}
use py_legacy.Common.{
  ℕ, zero, suc, ◌+◌, ◌-◌, ◌≤◌, ◌≡◌, refl, sym, ap, ◌∙◌, inl, inr, Bool, true, false, ◌&&◌, Option,
  List, [], ◌∷◌, ◌++◌, append-nil, append_assoc, arith, ◌==◌, leb, length, length-append, take,
  drop, take-append, ok, and_left, and_right, eq_of_==,
}
use py_legacy.Db.Text.{replicate, length-replicate}
use py_legacy.Db.CompData.{Fields, from_bytes, to_bytes, field_bytes, write_fields}
use py_legacy.Db.CompData.Maps.{
  Value, nothing, int, str, consist, routes, raw, Codec, number, text_field, digits, members,
  d4_members, route_members, CompDataHandler, Schema,
}
use py_legacy.Db.CompData.Stored.{width, IsStored, IsStored-IsKept}

-- The fields do not overlap, and each has the width of its codec.
abbrev pub IsLaidOut : ℕ → Schema → Type 0
IsLaidOut last [] = Unit
IsLaidOut last ((k, h) ∷ rest) =
    (last ≤ k) × (h.length ≡ width h.codec) × IsLaidOut (k + h.length) rest

unfoldable pub laid_out : ℕ → Schema → Bool
laid_out last [] = true
laid_out last ((k, h) ∷ rest) =
    leb last k && (h.length == width h.codec && laid_out (k + h.length) rest)

pub laid_out-IsLaidOut :
    (last : ℕ) (schema : Schema) → laid_out last schema ≡ true → IsLaidOut last schema
unfolding laid_out
laid_out-IsLaidOut last [] g = tt
laid_out-IsLaidOut last ((k, h) ∷ rest) g =
    let g' = and_right (leb last k) _ g in
    (
      ground (
        arith,
        and_left (leb last k) (h.length == width h.codec && laid_out (k + h.length) rest) g,
      ),
      eq_of_== _ _ (and_left _ _ g'),
      laid_out-IsLaidOut (k + h.length) rest (and_right (h.length == width h.codec) _ g'),
    )

abbrev pub end_of : ℕ → Schema → ℕ
end_of last [] = last
end_of last ((k, h) ∷ rest) = end_of (k + h.length) rest

IsLaidOut-mono : (a b : ℕ) (schema : Schema) → a ≤ b → IsLaidOut b schema → IsLaidOut a schema
IsLaidOut-mono a b [] le h = tt
IsLaidOut-mono a b ((k, h) ∷ rest) le (p, q, r) = (omega arith, q, r)

is_raw : Value → Bool
is_raw (raw bs) = true
is_raw nothing = false
is_raw (int n) = false
is_raw (str t) = false
is_raw (consist cs) = false
is_raw (routes cs) = false

field_bytes-to_bytes :
    (h : CompDataHandler) (v : Value) (bs : List ℕ)
    → is_raw v ≡ false
    → to_bytes h.codec v ≡ ok bs
    → field_bytes h v ≡ ok (bs ++ replicate (h.length - length bs) 0xFF)
unfolding field_bytes is_raw
field_bytes-to_bytes h nothing bs e w = rw w refl
field_bytes-to_bytes h (int n) bs e w = rw w refl
field_bytes-to_bytes h (str t) bs e w = rw w refl
field_bytes-to_bytes h (consist cs) bs e w = rw w refl
field_bytes-to_bytes h (routes cs) bs e w = rw w refl
field_bytes-to_bytes h (raw b) bs e w = absurd (cc e)

module _ (s : ℕ → Option ℕ) where
  IsStored-not_raw : (c : Codec) (v : Value) → IsStored s c v → is_raw v ≡ false
  unfolding is_raw
  IsStored-not_raw (number n) v (x, e, _) = rw e refl
  IsStored-not_raw (text_field n) v (inl (e, _)) = rw e refl
  IsStored-not_raw (text_field n) v (inr (t, e, _)) = rw e refl
  IsStored-not_raw digits v (x, e, _) = rw e refl
  IsStored-not_raw members v (cs, e, _, _) = rw e refl
  IsStored-not_raw d4_members v (cs, e, _, _) = rw e refl
  IsStored-not_raw route_members v (cs, e, _, _, _) = rw e refl

  field_kept :
      (h : CompDataHandler) (v : Value)
      → h.length ≡ width h.codec
      → IsStored s h.codec v
      → (bs : List ℕ) × (field_bytes h v ≡ ok bs)
        × (length bs ≡ h.length)
        × (from_bytes s h.codec bs ≡ ok v)
  field_kept h v size stored =
      let (bs, w, l, r) = IsStored-IsKept s h.codec v stored in
      let exact : h.length - length bs ≡ 0 = omega (arith, l, size) in
      (
        bs,
        field_bytes-to_bytes h v bs (IsStored-not_raw h.codec v stored) w
            ∙ rw exact (ap ok (append-nil bs)),
        l ∙ sym size,
        r,
      )

  -- Every field of the map has a value that it can hold.
  abbrev pub AreStored : Fields → Schema → Type 0
  AreStored fs [] = Unit
  AreStored fs ((k, h) ∷ rest) = IsStored s h.codec (fs h.field) × AreStored fs rest

  -- At its place in the bytes, which start at `base`, each field is read as its value.
  abbrev pub AreReadAt : Fields → List ℕ → ℕ → Schema → Type 0
  AreReadAt fs bs base [] = Unit
  AreReadAt fs bs base ((k, h) ∷ rest) =
      (from_bytes s h.codec (take h.length (drop (k - base) bs)) ≡ ok (fs h.field))
      × AreReadAt fs bs base rest

drop-past : (p bs : List ℕ) (m n : ℕ) → m ≡ length p + n → drop m (p ++ bs) ≡ drop n bs
drop-past [] bs m n e = ap (λ k. drop k bs) (omega arith)
drop-past (x ∷ p) bs zero n e = absurd (omega arith)
drop-past (x ∷ p) bs (suc m) n e = drop-past p bs m n (omega arith)

regroup : (a b c d : List ℕ) → (a ++ (b ++ c)) ++ d ≡ a ++ (b ++ (c ++ d))
regroup a b c d = append_assoc a (b ++ c) d ∙ ap (λ xs. a ++ xs) (append_assoc b c d)

slice :
    (gap new rest : List ℕ) (m n : ℕ)
    → length gap ≡ m
    → length new ≡ n
    → take n (drop m (gap ++ (new ++ rest))) ≡ new
slice gap new rest m n g l =
    ap (take n) (drop-past gap (new ++ rest) m 0 (omega (arith, g)))
    ∙ (ap (λ j. take j (new ++ rest)) (sym l) ∙ take-append new rest)

module _ (s : ℕ → Option ℕ) (fs : Fields) where
  AreReadAt-past :
      (schema : Schema) (p bs : List ℕ) (base e : ℕ)
      → base ≤ e
      → length p ≡ e - base
      → IsLaidOut e schema
      → AreReadAt s fs bs e schema
      → AreReadAt s fs (p ++ bs) base schema
  AreReadAt-past [] p bs base e le l o r = tt
  AreReadAt-past ((k, h) ∷ rest) p bs base e le l (o, _, os) (r, rs) = (
    rw (drop-past p bs (k - base) (k - e) (omega (arith, l))) r,
    AreReadAt-past rest p bs base e le l (IsLaidOut-mono e (k + h.length) rest (omega arith) os) rs,
  )

  pub write_fields_lem :
      (schema : Schema) (last : ℕ) (tail : List ℕ)
      → IsLaidOut last schema
      → AreStored s fs schema
      → (bs : List ℕ) × (write_fields schema last fs ≡ ok bs)
        × (length bs ≡ end_of last schema - last)
        × (last ≤ end_of last schema)
        × AreReadAt s fs (bs ++ tail) last schema
  unfolding write_fields
  write_fields_lem [] last tail o h = ([], refl, omega arith, omega arith, tt)
  write_fields_lem ((k, h) ∷ rest) last tail (o, size, os) (stored, hs) =
      let (new, w, l, r) = field_kept s h (fs h.field) size stored in
      let (more, ws, ls, up, rs) = write_fields_lem rest (k + h.length) tail os hs in
      let gap : List ℕ = replicate (k - last) 0xFF in
      let gap_length = length-replicate {A = ℕ} (k - last) 0xFF in
      (
        gap ++ (new ++ more),
        rw (w, ws) refl,
        omega
            (arith, length-append gap (new ++ more), length-append new more, gap_length, l, ls, up),
        omega (arith, up),
        subst (λ xs. AreReadAt s fs xs last ((k, h) ∷ rest)) (sym (regroup gap new more tail))
            (
              ap (from_bytes s h.codec)
                    (slice gap new (more ++ tail) (k - last) h.length gap_length l)
                  ∙ r,
              AreReadAt-past rest gap (new ++ (more ++ tail)) last k o gap_length
                  (IsLaidOut-mono k (k + h.length) rest (omega arith) os)
                  (AreReadAt-past rest new (more ++ tail) k (k + h.length) (omega arith)
                    (omega (arith, l)) os rs),
            ),
      )
