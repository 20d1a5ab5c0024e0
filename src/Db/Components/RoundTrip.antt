-- ===== src/Db/Components/RoundTrip.antt =====
-- The members of a train and of a route are read back as they were written (db/components.py).
use py_legacy.Common.{
  ℕ, zero, suc, ◌+◌, ◌-◌, ◌*◌, ◌/◌, ◌%◌, ◌≤◌, ◌<◌, ◌≡◌, refl, sym, ap, ◌∙◌, false, ◌||◌, Option,
  none, some, List, [], ◌∷◌, ◌++◌, append-nil, arith, ◌==◌, length, All, ok,
}
use py_legacy.Db.Text.{replicate}
use py_legacy.Db.Components.Written.{byte_fits, length-pad_to}
use py_legacy.Db.Components.Lost.{IsWritten, is_lost, remaining, consist_from_d4_bytes-lost}
use py_legacy.Db.Components.{
  ConsistComponent, rev_onto, read_pairs, consist_pair, consist_from_bytes, consist_from_d4_bytes,
  consist_component_bytes, consist_bytes, pad_to, consist_to_bytes, consist_to_d4_bytes,
}

-- The bytes of pairs.
abbrev pub pairs : List (ℕ × ℕ) → List ℕ
pairs [] = []
pairs ((f, t) ∷ ps) = f ∷ t ∷ pairs ps

abbrev pub IsPair : ℕ × ℕ → Type 0
IsPair p = (p.0 < 0xFF) × (p.1 < 0xFF)

module _ {A : Type 0} (make : ℕ → ℕ → A) where
  abbrev pub made : List (ℕ × ℕ) → List A
  made [] = []
  made ((f, t) ∷ ps) = make f t ∷ made ps

  read_filling : (n k : ℕ) (acc : List A) → read_pairs make n (replicate k 0xFF) acc ≡ ok acc
  unfolding read_pairs
  read_filling zero k acc = refl
  read_filling (suc n) zero acc = refl
  read_filling (suc n) (suc zero) acc = refl
  read_filling (suc n) (suc (suc k)) acc = read_filling n k acc

  pub read_pairs-pairs :
      (ps : List (ℕ × ℕ)) (n k : ℕ) (acc : List A)
      → All IsPair ps
      → length ps ≤ n
      → read_pairs make n (pairs ps ++ replicate k 0xFF) acc ≡ ok (rev_onto (made ps) acc)
  unfolding read_pairs rev_onto
  read_pairs-pairs [] n k acc h le = read_filling n k acc
  read_pairs-pairs ((f, t) ∷ ps) zero k acc h le = absurd (omega arith)
  read_pairs-pairs ((f, t) ∷ ps) (suc n) k acc ((p, q), h) le =
      let kept : (f == 0xFF || t == 0xFF) ≡ false = ground arith in
      rw kept (read_pairs-pairs ps n k (make f t ∷ acc) h (omega arith))

module _ {ℓ} {A : Type ℓ} where
  rev_onto-rev_onto : (xs ys zs : List A) → rev_onto (rev_onto xs ys) zs ≡ rev_onto ys (xs ++ zs)
  unfolding rev_onto
  rev_onto-rev_onto [] ys zs = refl
  rev_onto-rev_onto (x ∷ xs) ys zs = rev_onto-rev_onto xs (x ∷ ys) zs

  length-rev_onto : (xs ys : List A) → length (rev_onto xs ys) ≡ length xs + length ys
  unfolding rev_onto
  length-rev_onto [] ys = omega arith
  length-rev_onto (x ∷ xs) ys = omega (arith, length-rev_onto xs (x ∷ ys))

  All-rev_onto {κ} :
      (P : A → Type κ) (xs ys : List A) → All P xs → All P ys → All P (rev_onto xs ys)
  unfolding rev_onto
  All-rev_onto P [] ys h g = g
  All-rev_onto P (x ∷ xs) ys (p, h) g = All-rev_onto P xs (x ∷ ys) h (p, g)

pub length-pairs : (ps : List (ℕ × ℕ)) → length (pairs ps) ≡ 2 * length ps
length-pairs [] = refl
length-pairs ((f, t) ∷ ps) = omega (arith, length-pairs ps)

-- A member of a train as a Base 3 record of a 2-digit train holds it.
abbrev pub IsMember : ConsistComponent → Type 0
IsMember c = (c.flags < 0xFF) × (c.tmcc_id < 0xFF) × (c.extra ≡ 0xFF) × (c.rec_no ≡ none)

abbrev member_pairs : List ConsistComponent → List (ℕ × ℕ)
member_pairs [] = []
member_pairs (c ∷ cs) = (c.flags, c.tmcc_id) ∷ member_pairs cs

member_bytes :
    (c : ConsistComponent) → IsMember c → consist_component_bytes c ≡ ok (c.flags ∷ c.tmcc_id ∷ [])
unfolding consist_component_bytes
member_bytes c (f, t, x, r) =
    rw (r, byte_fits c.flags (omega arith), byte_fits c.tmcc_id (omega arith)) refl

member_pair : (c : ConsistComponent) → IsMember c → consist_pair c.flags c.tmcc_id ≡ c
member_pair c (f, t, x, r) =
    λ i. record { tmcc_id = c.tmcc_id; flags = c.flags; extra = sym x i; rec_no = sym r i }

consist_bytes-pairs :
    (cs : List ConsistComponent)
    → All IsMember cs
    → (consist_bytes cs ≡ ok (pairs (member_pairs cs)))
      × (made consist_pair (member_pairs cs) ≡ cs)
      × All IsPair (member_pairs cs)
      × (length (member_pairs cs) ≡ length cs)
unfolding consist_bytes
consist_bytes-pairs [] h = (refl, refl, tt, refl)
consist_bytes-pairs (c ∷ cs) (member, h) =
    let (e, m, a, l) = consist_bytes-pairs cs h in
    (
      rw (member_bytes c member, e) refl,
      rw m (ap (λ d. d ∷ cs) (member_pair c member)),
      ((member.0, member.1), a),
      omega (arith, l),
    )

-- The members of a train, 16 at most, are written to the 32 bytes of the field in reverse, and read back
-- in their order.
pub consist_from_bytes-to_bytes :
    (cs : List ConsistComponent)
    → All IsMember cs
    → length cs ≤ 16
    → (bs : List ℕ) × (consist_to_bytes cs ≡ ok bs)
      × (length bs ≡ 32)
      × (consist_from_bytes bs ≡ ok cs)
unfolding consist_to_bytes consist_from_bytes
consist_from_bytes-to_bytes cs h few =
    let (e, m, a, l) = consist_bytes-pairs (rev_onto cs []) (All-rev_onto IsMember cs [] h tt) in
    let ps : List (ℕ × ℕ) = member_pairs (rev_onto cs []) in
    let short : length ps ≤ 16 = omega (arith, l, length-rev_onto cs []) in
    (
      pad_to 32 (pairs ps),
      rw e refl,
      length-pad_to 32 (pairs ps) (omega (arith, length-pairs ps)),
      unfold pad_to in
          read_pairs-pairs consist_pair ps 16 (32 - length (pairs ps)) [] a short
          ∙ ap ok (ap (λ xs. rev_onto xs []) m ∙ (rev_onto-rev_onto cs [] [] ∙ twice cs)),
    )
  where
    twice : (cs : List ConsistComponent) → rev_onto [] (cs ++ []) ≡ cs
    twice cs = append-nil cs

-- A member of a 4-digit train: its record is known to the state store, and no byte of it is 0xFF.
abbrev pub IsD4Member : (ℕ → Option ℕ) → ConsistComponent → Type 0
IsD4Member by_record_no c =
    (n : ℕ) × (c.rec_no ≡ some n)
    × (by_record_no n ≡ some c.tmcc_id)
    × (n % 256 < 0xFF)
    × (n / 256 < 0xFF)
    × (c.flags < 0xFF)
    × (c.extra ≡ 0xFF)

remaining-kept :
    (c : ConsistComponent) (cs : List ConsistComponent)
    → is_lost c ≡ false
    → remaining (c ∷ cs) ≡ c ∷ remaining cs
unfolding remaining
remaining-kept c cs h = rw h refl

D4Member-IsWritten :
    (by_record_no : ℕ → Option ℕ) (cs : List ConsistComponent)
    → All (IsD4Member by_record_no) cs
    → All (IsWritten by_record_no) cs × (remaining cs ≡ cs)
unfolding remaining
D4Member-IsWritten by_record_no [] h = (tt, refl)
D4Member-IsWritten by_record_no (c ∷ cs) ((n, r, known, lo, hi, f, x), h) =
    let (all, same) = D4Member-IsWritten by_record_no cs h in
    let there : (n % 256 == 0xFF) ≡ false = ground arith in
    let stays : is_lost c ≡ false = rw r there in
    (((n, r, known, hi, f, x), all), remaining-kept c cs stays ∙ ap (λ ds. c ∷ ds) same)

-- The members of a 4-digit train, 16 at most, are written to the 64 bytes of the field and read back,
-- where the state store knows their records and no byte of a record's number is 0xFF.
pub consist_from_d4_bytes-to_d4_bytes :
    (by_record_no : ℕ → Option ℕ) (cs : List ConsistComponent)
    → All (IsD4Member by_record_no) cs
    → length cs ≤ 16
    → (bs : List ℕ) × (consist_to_d4_bytes cs ≡ ok bs)
      × (length bs ≡ 64)
      × (consist_from_d4_bytes by_record_no bs ≡ ok cs)
consist_from_d4_bytes-to_d4_bytes by_record_no cs h few =
    let (all, same) = D4Member-IsWritten by_record_no cs h in
    let (bs, e, l, back) = consist_from_d4_bytes-lost by_record_no cs all few in
    (bs, e, l, back ∙ ap ok same)
