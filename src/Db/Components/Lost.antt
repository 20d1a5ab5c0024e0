-- ===== src/Db/Components/Lost.antt =====
-- The members of a 4-digit train that are read back, and those that are lost (db/components.py).
use py_legacy.Common.{
  ℕ, zero, suc, ◌+◌, ◌-◌, ◌*◌, ◌/◌, ◌%◌, ◌≤◌, ◌<◌, ◌≡◌, refl, sym, ap, ◌∙◌, Bool, true, false, ◌||◌,
  Option, none, some, List, [], ◌∷◌, ◌++◌, arith, ◌==◌, length, All, get_elem?, ok, inl, inr,
  Bool-cases, if◌then◌else◌,
}
use py_legacy.Db.Text.{replicate}
use py_legacy.Db.Components.{
  ConsistComponent, read_d4, consist_from_d4_bytes, d4_component, consist_component_bytes,
  consist_bytes, pad_to, consist_to_d4_bytes,
}
use py_legacy.Db.Components.Written.{byte_fits, word_fits, length-pad_to}

-- A member of a 4-digit train: its record is known to the state store, neither its flags nor the
-- high byte of its record number is 0xFF, and its extra byte is.
abbrev pub IsWritten : (ℕ → Option ℕ) → ConsistComponent → Type 0
IsWritten by_record_no c =
    (n : ℕ) × (c.rec_no ≡ some n)
    × (by_record_no n ≡ some c.tmcc_id)
    × (n / 256 < 0xFF)
    × (c.flags < 0xFF)
    × (c.extra ≡ 0xFF)

-- The record number has the low byte 0xFF.
abbrev pub is_lost : ConsistComponent → Bool
is_lost c = elim c.rec_no [ none ↦ false | some n ↦ n % 256 == 0xFF ]

-- The members that are not lost.
unfoldable pub remaining : List ConsistComponent → List ConsistComponent
remaining [] = []
remaining (c ∷ cs) = let rest = remaining cs in if is_lost c then rest else c ∷ rest

module _ (by_record_no : ℕ → Option ℕ) where
  read_d4-filling : (k n : ℕ) → read_d4 by_record_no 0xFF n (replicate (4 * k) 0xFF) ≡ ok []
  unfolding read_d4
  read_d4-filling k zero = refl
  read_d4-filling zero (suc n) = refl
  read_d4-filling (suc k) (suc n) = rw (four k) (rw (read_d4-filling k n) refl)
    where
      four : (k : ℕ) → 4 * suc k ≡ suc (suc (suc (suc (4 * k))))
      four k = omega arith

  d4_member_bytes :
      (c : ConsistComponent) (n : ℕ)
      → c.rec_no ≡ some n
      → n / 256 < 0xFF
      → c.flags < 0xFF
      → consist_component_bytes c ≡ ok (0xFF ∷ c.flags ∷ (n % 256) ∷ (n / 256) ∷ [])
  unfolding consist_component_bytes
  d4_member_bytes c n r hi f =
      rw (r, byte_fits c.flags (omega arith), word_fits n (omega arith)) refl

  d4_member :
      (c : ConsistComponent) (n : ℕ) (rest : List ConsistComponent)
      → c.rec_no ≡ some n
      → by_record_no n ≡ some c.tmcc_id
      → c.extra ≡ 0xFF
      → d4_component by_record_no 0xFF c.flags (n % 256) (n / 256) rest ≡ c ∷ rest
  d4_member c n rest r known x =
      let whole : n % 256 + 256 * (n / 256) ≡ n = omega arith in
      rw (whole, d4_component)
        (rw known (
          rw whole (
            ap (λ d. d ∷ rest)
              (λ i. record {
                tmcc_id = c.tmcc_id;
                flags = c.flags;
                extra = sym x i;
                rec_no = sym r i;
              }))))

  read_d4-member :
      (c : ConsistComponent) (n m : ℕ) (bs : List ℕ) (cs : List ConsistComponent)
      → c.rec_no ≡ some n
      → by_record_no n ≡ some c.tmcc_id
      → n / 256 < 0xFF
      → c.flags < 0xFF
      → c.extra ≡ 0xFF
      → read_d4 by_record_no 0xFF m bs ≡ ok (remaining cs)
      → read_d4 by_record_no 0xFF (suc m) (0xFF ∷ c.flags ∷ (n % 256) ∷ (n / 256) ∷ bs)
        ≡ ok (remaining (c ∷ cs))
  unfolding read_d4 remaining
  read_d4-member c n m bs cs r known hi f x back = elim (Bool-cases (n % 256 == 0xFF)) [
    | inl lost ↦
        let gone : (c.flags == 0xFF || (n % 256 == 0xFF || n / 256 == 0xFF)) ≡ true =
          ground arith in
        rw back (rw gone (rw r (rw lost refl)))
    | inr there ↦
        let kept : (c.flags == 0xFF || (n % 256 == 0xFF || n / 256 == 0xFF)) ≡ false =
          ground arith in
        rw back (rw kept (ap ok (d4_member c n (remaining cs) r known x) ∙ rw r (rw there refl)))
  ]

  consist_bytes-d4 :
      (cs : List ConsistComponent) (m k : ℕ)
      → All (IsWritten by_record_no) cs
      → length cs ≤ m
      → (bs : List ℕ) × (consist_bytes cs ≡ ok bs)
        × (length bs ≡ 4 * length cs)
        × (get_elem? (bs ++ 0xFF ∷ []) 0 ≡ some 0xFF)
        × (read_d4 by_record_no 0xFF m (bs ++ replicate (4 * k) 0xFF) ≡ ok (remaining cs))
  unfolding consist_bytes remaining
  consist_bytes-d4 [] m k h few = ([], refl, refl, refl, read_d4-filling k m)
  consist_bytes-d4 (c ∷ cs) zero k h few = absurd (omega arith)
  consist_bytes-d4 (c ∷ cs) (suc m) k ((n, r, known, hi, f, x), h) few =
      let (bs, e, l, first, back) = consist_bytes-d4 cs m k h (omega arith) in
      (
        0xFF ∷ c.flags ∷ (n % 256) ∷ (n / 256) ∷ bs,
        rw (d4_member_bytes c n r hi f, e) refl,
        omega (arith, l),
        refl,
        read_d4-member c n m (bs ++ replicate (4 * k) 0xFF) cs r known hi f x back,
      )

  from_first :
      (bs : List ℕ)
      → get_elem? bs 0 ≡ some 0xFF
      → consist_from_d4_bytes by_record_no bs ≡ read_d4 by_record_no 0xFF 16 bs
  unfolding consist_from_d4_bytes
  from_first [] h = absurd (cc h)
  from_first (b ∷ bs) h =
      ap (λ x. read_d4 by_record_no x 16 (b ∷ bs)) (omega (arith, some_inj b 0xFF h))
    where
      some_inj : (a b : ℕ) → ◌≡◌ {A = Option ℕ} (some a) (some b) → a ≡ b
      some_inj a b h = cc h

  padded_first :
      (bs : List ℕ)
      → get_elem? (bs ++ 0xFF ∷ []) 0 ≡ some 0xFF
      → get_elem? (pad_to 64 bs) 0 ≡ some 0xFF
  unfolding pad_to
  padded_first [] h = refl
  padded_first (b ∷ bs) h = h

  -- Of a 4-digit train of at most 16 members, whose record numbers the state store all knows under their
  -- TMCC ID, whose extra byte is 0xFF, and where no flags and no high byte of a record number is 0xFF,
  -- exactly the members are read back from the 64 bytes that are written for it whose record number
  -- has not the low byte 0xFF: the others are lost.
  pub consist_from_d4_bytes-lost :
      (cs : List ConsistComponent)
      → All (IsWritten by_record_no) cs
      → length cs ≤ 16
      → (bs : List ℕ) × (consist_to_d4_bytes cs ≡ ok bs)
        × (length bs ≡ 64)
        × (consist_from_d4_bytes by_record_no bs ≡ ok (remaining cs))
  unfolding consist_to_d4_bytes
  consist_from_d4_bytes-lost cs h few =
      let (bs, e, l, first, back) = consist_bytes-d4 cs 16 (16 - length cs) h few in
      (
        pad_to 64 bs,
        rw e refl,
        length-pad_to 64 bs (omega (arith, l)),
        from_first (pad_to 64 bs) (padded_first bs first)
            ∙ unfold pad_to in
              ap (λ k. read_d4 by_record_no 0xFF 16 (bs ++ replicate k 0xFF)) (omega (arith, l))
              ∙ back,
      )
