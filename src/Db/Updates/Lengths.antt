-- ===== src/Db/Updates/Lengths.antt =====
-- How many bytes the data of a package has (db/comp_data.py).
use Prim.Native.String.{String}
use text.Mathlib.Text.{◌==◌ as str_eq}
use mathlib.Core.Path.{subst}
use py_legacy.Common.{
  ℕ, zero, suc, ◌-◌, ◌/◌, ◌%◌, ◌≤◌, ◌≡◌, refl, sym, Bool, true, false, ◌&&◌, Option, none, some,
  List, [], ◌∷◌, ◌++◌, ◌==◌, arith, leb, length, length-append, Bool-cases, inl, inr, Result, ok,
  raise, ◌>>=◌, eq_of_==, if◌then◌else◌,
}
use py_legacy.Common.Int.{ℤ, pos, negsuc}
use py_legacy.Protocol.Digits.{is_space}
use py_legacy.Db.Text.{
  replicate, length-replicate, le_bytes, lstrip, rstrip, strip, is_empty, is_ascii, length-ljust,
  encode_text,
}
use py_legacy.Db.CompData.{field_bytes, to_bytes}
use py_legacy.Db.CompData.Maps.{
  Value, nothing, int, str, consist, routes, raw, Codec, number, text_field, digits, members,
  d4_members, route_members, CompDataHandler,
}
use py_legacy.Db.Updates.{
  Transform, plain, tmcc_speed, target_speed, constant, text_length, EngineView, Datum, missing,
  num, txt, member, converted, base_value, datum_value, datum_speed, number_of, rpm_labor_to,
  encode_tmcc_speed, train_brake_to, momentum_to,
}

-- The codec of a handler writes as many bytes as the handler is long, except for the TMCC ID, whose
-- digits may be more; the lists of members are not written by packages.
abbrev pub is_exact : Codec → ℕ → String → Bool
is_exact (number n) k f = n == k
is_exact (text_field n) k f = n == k
is_exact digits k f = str_eq f "_tmcc_id"
is_exact members k f = true
is_exact d4_members k f = true
is_exact route_members k f = true

-- Text is not longer than so many bytes.
abbrev pub is_short : Datum → ℕ → Bool
is_short (txt t) n = leb (length t) n
is_short _ n = true

abbrev pub value_short : Value → ℕ → Bool
value_short nothing n = true
value_short (int x) n = true
value_short (str t) n = leb (length t) n
value_short (consist cs) n = false
value_short (routes cs) n = false
value_short (raw bs) n = false

abbrev pub is_given : Value → Bool
is_given nothing = false
is_given v = true

abbrev pub IsLong : ℕ → Result (List ℕ) → Type 0
IsLong n (ok bs) = length bs ≡ n
IsLong n (raise e) = Unit

le_bytes-IsLong : (n x : ℕ) → IsLong n (le_bytes n x)
unfolding le_bytes
le_bytes-IsLong zero x = elim (Bool-cases (x == 0)) [ inl e ↦ rw e refl | inr e ↦ rw e tt ]
le_bytes-IsLong (suc n) x = one_more (x % 256) (le_bytes n (x / 256)) (le_bytes-IsLong n (x / 256))
  where
    one_more : (b : ℕ) (r : Result (List ℕ)) → IsLong n r → IsLong (suc n) (r >>= λ bs. ok (b ∷ bs))
    one_more b (ok bs) h = omega (arith, h)
    one_more b (raise e) h = tt

length-lstrip : (t : List ℕ) → length (lstrip t) ≤ length t
unfolding lstrip
length-lstrip [] = omega arith
length-lstrip (c ∷ cs) = elim (Bool-cases (is_space c)) [
  | inl e ↦ rw e (omega (arith, length-lstrip cs))
  | inr e ↦ rw e (omega arith)
]

length-rstrip : (t : List ℕ) → length (rstrip t) ≤ length t
unfolding rstrip
length-rstrip [] = omega arith
length-rstrip (c ∷ cs) = elim (Bool-cases (is_empty (rstrip cs) && is_space c)) [
  | inl e ↦ rw e (omega arith)
  | inr e ↦ rw e (omega (arith, length-rstrip cs))
]

length-strip : (t : List ℕ) → length (strip t) ≤ length t
unfolding strip
length-strip t = omega (arith, length-rstrip (lstrip t), length-lstrip t)

encode_text-IsLong : (t : List ℕ) (n : ℕ) → length t ≤ n → IsLong n (encode_text (some t) n)
unfolding encode_text
encode_text-IsLong t n h = elim (Bool-cases (is_empty (strip t))) [
  | inl e ↦ rw e (length-replicate n 0xFF)
  | inr e ↦ rw e (elim (Bool-cases (is_ascii (strip t))) [
    | inl f ↦ rw f (length-ljust n (strip t) (omega (arith, length-strip t)))
    | inr f ↦ rw f tt
  ])
]

to_bytes-int :
    (c : Codec) (k : ℕ) (f : String) (n : ℤ)
    → is_exact c k f ≡ true
    → str_eq f "_tmcc_id" ≡ false
    → IsLong k (to_bytes c (int n))
unfolding to_bytes
to_bytes-int (number m) k f (pos n) x i =
    subst (λ j. IsLong j (le_bytes m n)) (eq_of_== m k x) (le_bytes-IsLong m n)
to_bytes-int (number m) k f (negsuc n) x i = tt
to_bytes-int (text_field m) k f n x i = tt
to_bytes-int digits k f n x i = absurd (cc (x, i))
to_bytes-int members k f n x i = tt
to_bytes-int d4_members k f n x i = tt
to_bytes-int route_members k f n x i = tt

to_bytes-str :
    (c : Codec) (k : ℕ) (f : String) (t : List ℕ)
    → is_exact c k f ≡ true
    → length t ≤ k
    → IsLong k (to_bytes c (str t))
unfolding to_bytes
to_bytes-str (number m) k f t x i = tt
to_bytes-str (text_field m) k f t x i =
    let same : m ≡ k = eq_of_== m k x in
    subst (λ j. IsLong k (encode_text (some t) j)) (sym same) (encode_text-IsLong t k i)
to_bytes-str digits k f t x i = tt
to_bytes-str members k f t x i = tt
to_bytes-str d4_members k f t x i = tt
to_bytes-str route_members k f t x i = tt

padded-IsLong :
    (k : ℕ) (r : Result (List ℕ))
    → IsLong k r
    → IsLong k (r >>= λ bs. ok (bs ++ replicate (k - length bs) 0xFF))
padded-IsLong k (ok bs) h = omega (
  arith,
  h,
  length-append bs (replicate {A = ℕ} (k - length bs) 0xFF),
  length-replicate {A = ℕ} (k - length bs) 0xFF,
)
padded-IsLong k (raise e) h = tt

-- A value that is given is written in as many bytes as its field has.
pub field_bytes-IsLong :
    (h : CompDataHandler) (v : Value)
    → is_exact h.codec h.length h.field ≡ true
    → str_eq h.field "_tmcc_id" ≡ false
    → value_short v h.length ≡ true
    → is_given v ≡ true
    → IsLong h.length (field_bytes h v)
unfolding field_bytes
field_bytes-IsLong h nothing x i s g = absurd (cc g)
field_bytes-IsLong h (int n) x i s g =
    padded-IsLong h.length (to_bytes h.codec (int n)) (to_bytes-int h.codec h.length h.field n x i)
field_bytes-IsLong h (str t) x i s g =
    padded-IsLong h.length (to_bytes h.codec (str t))
      (to_bytes-str h.codec h.length h.field t x (ground arith))
field_bytes-IsLong h (consist cs) x i s g = absurd (cc s)
field_bytes-IsLong h (routes cs) x i s g = absurd (cc s)
field_bytes-IsLong h (raw bs) x i s g = absurd (cc s)

abbrev pub IsShort : ℕ → Result Value → Type 0
IsShort n (ok v) = value_short v n ≡ true
IsShort n (raise e) = Unit

number-IsShort : (n : ℕ) (r : Result ℕ) (g : ℕ → ℕ) → IsShort n (r >>= λ x. ok (int (pos (g x))))
number-IsShort n (ok x) g = refl
number-IsShort n (raise e) g = tt

speed-IsShort :
    (n : ℕ) (r : Result (Option ℕ)) (g : Option ℕ → ℕ) → IsShort n (r >>= λ x. ok (int (pos (g x))))
speed-IsShort n (ok x) g = refl
speed-IsShort n (raise e) g = tt

converted-IsShort :
    (n : ℕ) (sub field : String) (is_legacy : Bool) (state : Option EngineView) (d : Datum)
    → is_short d n ≡ true
    → IsShort n (converted sub field is_legacy state d)
unfolding converted
converted-IsShort n sub field is_legacy state d h = elim (Bool-cases (str_eq field "_rpm_labor")) [
  | inl a ↦ rw a (elim (Bool-cases (str_eq sub "_rpm_labor")) [
    | inl b ↦ rw b tt
    | inr b ↦ rw b (shared state)
  ])
  | inr a ↦ rw a (elim (Bool-cases (str_eq field "_smoke")) [
    | inl b ↦ rw b refl
    | inr b ↦ rw b (elim (Bool-cases (str_eq field "_train_brake")) [
      | inl c ↦ rw c (number-IsShort n (number_of d) train_brake_to)
      | inr c ↦ rw c (elim (Bool-cases (str_eq field "_momentum")) [
        | inl e ↦ rw e (number-IsShort n (number_of d) momentum_to)
        | inr e ↦ rw e (datum d h)
      ])
    ])
  ])
]
  where
    shared :
        (s : Option EngineView)
        → IsShort n (elim s [
          | none ↦ ok nothing
          | some view ↦ (do
            x ← number_of d
            ok (
                int (
                  pos (
                    if str_eq sub "_rpm"
                    then rpm_labor_to x view.labor
                    else rpm_labor_to view.rpm x))))
        ])
    shared none = refl
    shared (some view) =
        number-IsShort n (number_of d)
          (λ x. if str_eq sub "_rpm" then rpm_labor_to x view.labor else rpm_labor_to view.rpm x)

    datum : (d : Datum) → is_short d n ≡ true → value_short (datum_value d) n ≡ true
    datum missing h = refl
    datum (num x) h = refl
    datum (txt t) h = h
    datum (member m) h = refl

pub base_value-IsShort :
    (n : ℕ) (t : Transform) (sub field : String) (is_legacy : Bool) (state : Option EngineView)
    (d : Datum)
    → is_short d n ≡ true
    → IsShort n (base_value t sub field is_legacy state d)
unfolding base_value
base_value-IsShort n plain sub field l state d h = converted-IsShort n sub field l state d h
base_value-IsShort n tmcc_speed sub field l state d h =
    speed-IsShort n (datum_speed d) (λ s. encode_tmcc_speed s l)
base_value-IsShort n target_speed sub field l none d h =
    speed-IsShort n (datum_speed d) (λ s. encode_tmcc_speed s l)
base_value-IsShort n target_speed sub field l (some view) d h = elim (Bool-cases view.is_ramping) [
  | inl e ↦ rw e refl
  | inr e ↦ rw e (speed-IsShort n (datum_speed d) (λ s. encode_tmcc_speed s l))
]
base_value-IsShort n (constant c) sub field l state d h = refl
base_value-IsShort n (text_length k) sub field l state (txt t) h = refl
base_value-IsShort n (text_length k) sub field l state missing h = tt
base_value-IsShort n (text_length k) sub field l state (num x) h = tt
base_value-IsShort n (text_length k) sub field l state (member m) h = tt
