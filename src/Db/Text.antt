-- ===== src/Db/Text.antt =====
-- Text and numbers in the fields of a record: `encode_text`, `decode_text` and `decode_int` of
-- pdi/pdi_req.py, and the little-endian numbers of db/comp_data.py. Characters are code points.
use py_legacy.Common.{
  ℕ, zero, suc, ◌+◌, ◌-◌, ◌*◌, ◌/◌, ◌%◌, ◌≤◌, ◌<◌, ◌≡◌, refl, ap, Bool, true, false, ◌&&◌, Option,
  none, some, List, [], ◌∷◌, ◌++◌, arith, ◌==◌, ltb, if◌then◌else◌, length, length-append,
  Bool-cases, inl, inr, All, Result, ok, raise, value_error, overflow_error, ◌>>=◌,
}
use py_legacy.Common.Int.{ℤ, pos, negsuc}
use py_legacy.Protocol.Digits.{is_space, digits_value}

module _ {ℓ} {A : Type ℓ} where
  abbrev pub replicate : ℕ → A → List A
  replicate zero a = []
  replicate (suc n) a = a ∷ replicate n a

  pub length-replicate : (n : ℕ) (a : A) → length (replicate n a) ≡ n
  length-replicate zero a = refl
  length-replicate (suc n) a = omega (arith, length-replicate n a)

-- `int.to_bytes(n, "little")`
unfoldable pub le_bytes : ℕ → ℕ → Result (List ℕ)
le_bytes zero x = if x == 0 then ok [] else raise overflow_error
le_bytes (suc n) x = do rest ← le_bytes n (x / 256); ok ((x % 256) ∷ rest)

-- `int.from_bytes(..., "little")`
unfoldable pub from_le : List ℕ → ℕ
from_le [] = 0
from_le (b ∷ bs) = b + 256 * from_le bs

unfoldable pub lstrip : List ℕ → List ℕ
lstrip [] = []
lstrip (c ∷ cs) = let rest = lstrip cs in if is_space c then rest else c ∷ cs

abbrev pub is_empty : List ℕ → Bool
is_empty [] = true
is_empty (c ∷ cs) = false

unfoldable pub rstrip : List ℕ → List ℕ
rstrip [] = []
rstrip (c ∷ cs) = let rest = rstrip cs in if is_empty rest && is_space c then [] else c ∷ rest

-- `str.strip`, on characters below 256
unfoldable pub strip : List ℕ → List ℕ
unfolding lstrip rstrip is_space
strip s = rstrip (lstrip s)

unfoldable pub is_ascii : List ℕ → Bool
is_ascii [] = true
is_ascii (c ∷ cs) = ltb c 128 && is_ascii cs

-- `ljust(field_len, b"\xff")`
unfoldable pub ljust : ℕ → List ℕ → List ℕ
ljust n bs = bs ++ replicate (n - length bs) 0xFF

-- A character above 127 raises UnicodeEncodeError, which is a ValueError.
unfoldable pub encode_text : Option (List ℕ) → ℕ → Result (List ℕ)
unfolding strip is_ascii ljust
encode_text none field_len = ok (replicate field_len 0xFF)
encode_text (some t) field_len =
    if is_empty (strip t)
    then ok (replicate field_len 0xFF)
    else if is_ascii (strip t)
    then ok (ljust field_len (strip t))
    else raise value_error

-- The characters up to a 0 byte, without the bytes 0xFF.
unfoldable pub text_of : List ℕ → List ℕ
text_of [] = []
text_of (b ∷ bs) =
    let rest = text_of bs in if b == 0 then [] else if b == 0xFF then rest else b ∷ rest

unfoldable pub all_ff : List ℕ → Bool
all_ff [] = true
all_ff (b ∷ bs) = b == 0xFF && all_ff bs

unfoldable pub decode_text : List ℕ → Option (List ℕ)
unfolding text_of all_ff
decode_text [] = some []
decode_text (b ∷ bs) = if all_ff (b ∷ bs) then none else some (text_of (b ∷ bs))

minus : ℕ → ℤ
minus zero = pos zero
minus (suc n) = negsuc n

-- `int(s)` of characters below 256
unfoldable pub int_value : List ℕ → Result ℤ
unfolding is_space digits_value minus
int_value [] = raise value_error
int_value (c ∷ cs) =
    let stripped = int_value cs in
    if is_space c
    then stripped
    else if c == b'+'
    then (do n ← digits_value false 0 cs; ok (pos n))
    else if c == b'-'
    then (do n ← digits_value false 0 cs; ok (minus n))
    else (do n ← digits_value false 0 (c ∷ cs); ok (pos n))

-- Without digits, or without text, it is 0.
unfoldable pub decode_int : List ℕ → ℤ
unfolding decode_text int_value
decode_int bs = elim (decode_text bs) [
  | none ↦ pos 0
  | some t ↦ (elim (int_value t) [ ok n ↦ n | raise e ↦ pos 0 ])
]

-- One more than the highest number of so many bytes.
abbrev pub byte_range : ℕ → ℕ
byte_range zero = 1
byte_range (suc n) = 256 * byte_range n

-- A number that fits is written in as many bytes as the field has, and read back.
pub le_bytes_fits :
    (n x : ℕ)
    → x < byte_range n
    → (bs : List ℕ) × (le_bytes n x ≡ ok bs) × (length bs ≡ n) × (from_le bs ≡ x)
unfolding le_bytes from_le
le_bytes_fits zero x h = ([], ground arith, refl, omega arith)
le_bytes_fits (suc n) x h =
    let (bs, e, l, f) = le_bytes_fits n (x / 256) (omega arith) in
    ((x % 256) ∷ bs, rw e refl, omega (arith, l), omega (arith, f))

-- Characters that a field keeps: ASCII, and not 0, which ends the text.
abbrev pub IsPlain : List ℕ → Type 0
IsPlain = All (λ c. (1 ≤ c) × (c < 128))

is_ascii-IsPlain : (t : List ℕ) → IsPlain t → is_ascii t ≡ true
unfolding is_ascii
is_ascii-IsPlain [] h = refl
is_ascii-IsPlain (c ∷ cs) (p, h) = ground (arith, is_ascii-IsPlain cs h)

text_of-ff : (n : ℕ) → text_of (replicate n 0xFF) ≡ []
unfolding text_of
text_of-ff zero = refl
text_of-ff (suc n) = ground (arith, text_of-ff n)

text_of-IsPlain : (t : List ℕ) (n : ℕ) → IsPlain t → text_of (t ++ replicate n 0xFF) ≡ t
unfolding text_of
text_of-IsPlain [] n h = text_of-ff n
text_of-IsPlain (c ∷ cs) n (p, h) = ground (arith, text_of-IsPlain cs n h)

all_ff-replicate : (n : ℕ) → all_ff (replicate n 0xFF) ≡ true
unfolding all_ff
all_ff-replicate zero = refl
all_ff-replicate (suc n) = ground (arith, all_ff-replicate n)

-- A field of bytes 0xFF is no text.
pub decode_text-ff : (n : ℕ) → decode_text (replicate (suc n) 0xFF) ≡ none
unfolding decode_text
decode_text-ff n = rw (all_ff-replicate (suc n)) refl

decode_text-ljust :
    (t : List ℕ) (n : ℕ) → IsPlain t → is_empty t ≡ false → decode_text (ljust n t) ≡ some t
unfolding decode_text ljust all_ff
decode_text-ljust [] n h e = absurd (cc e)
decode_text-ljust (c ∷ cs) n (p, h) e =
    let first : (c == 0xFF) ≡ false = ground arith in
    let read = text_of-IsPlain (c ∷ cs) (n - length (c ∷ cs)) (p, h) in
    rw first (ap some (rw first at read))

-- Text whose characters between the white space at its ends are ASCII and none of them 0 is written to a
-- field of one byte or more and read back without that white space, and blank text is read back as no
-- text. Text that is too long for the field is written, and read back, as a whole.
pub decode_text-encode_text :
    (t : List ℕ) (n : ℕ)
    → IsPlain (strip t)
    → (bs : List ℕ) × (encode_text (some t) (suc n) ≡ ok bs)
      × (decode_text bs ≡ (if is_empty (strip t) then none else some (strip t)))
unfolding encode_text
decode_text-encode_text t n h = elim (Bool-cases (is_empty (strip t))) [
  | inl e ↦ (replicate (suc n) 0xFF, rw e refl, rw e (decode_text-ff n))
  | inr e ↦ (
    ljust (suc n) (strip t),
    rw e (rw (is_ascii-IsPlain (strip t) h) refl),
    rw e (decode_text-ljust (strip t) (suc n) h e),
  )
]

pub length-ljust : (n : ℕ) (t : List ℕ) → length t ≤ n → length (ljust n t) ≡ n
unfolding ljust
length-ljust n t fits = omega (
  arith,
  length-append t (replicate {A = ℕ} (n - length t) 0xFF),
  length-replicate {A = ℕ} (n - length t) 0xFF,
)

-- Text without white space at its ends, as a field of a record holds it.
abbrev pub IsField : ℕ → List ℕ → Type 0
IsField n t = (strip t ≡ t) × (is_empty t ≡ false) × IsPlain t × (length t ≤ n)

pub encode_text_fits :
    (t : List ℕ) (n : ℕ)
    → IsField n t
    → (bs : List ℕ) × (encode_text (some t) n ≡ ok bs) × (length bs ≡ n) × (decode_text bs ≡ some t)
unfolding encode_text
encode_text_fits t n (e, filled, plain, fits) = (
  ljust n t,
  rw e (rw (filled, is_ascii-IsPlain t plain) refl),
  length-ljust n t fits,
  decode_text-ljust t n plain filled,
)
