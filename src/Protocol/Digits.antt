-- ===== src/Protocol/Digits.antt =====
-- The four ASCII digits of a 4-digit address: `str(address).zfill(4).encode()`, and `int(...)` on
-- the characters of four received bytes.
use py_legacy.Common.{
  ℕ, zero, suc, ◌+◌, ◌-◌, ◌*◌, ◌/◌, ◌%◌, ◌<◌, ◌≡◌, refl, Bool, true, false, not, ◌&&◌, ◌||◌, List,
  [], ◌∷◌, ◌++◌, arith, ◌==◌, ltb, leb, if◌then◌else◌, length, all_below, all_below_sound, and_left,
  and_right, Result, ok, raise, value_error, ◌>>=◌,
}

decimal_fuel : ℕ → ℕ → List ℕ
decimal_fuel zero n = []
decimal_fuel (suc fuel) n =
    let front = decimal_fuel fuel (n / 10) in
    if ltb n 10 then (48 + n) ∷ [] else front ++ (48 + n % 10) ∷ []

-- `str(n).encode()`: n has at most n + 1 digits
unfoldable pub decimal : ℕ → List ℕ
unfolding decimal_fuel
decimal n = decimal_fuel (suc n) n

pad_zeros : ℕ → List ℕ → List ℕ
pad_zeros zero cs = cs
pad_zeros (suc n) cs = 48 ∷ pad_zeros n cs

-- `s.zfill(4)` of a number without a sign
unfoldable pub zfill4 : List ℕ → List ℕ
unfolding pad_zeros
zfill4 cs = pad_zeros (4 - length cs) cs

unfoldable pub address_digits : ℕ → List ℕ
unfolding zfill4 decimal
address_digits address = zfill4 (decimal address)

unfoldable pub is_digit : ℕ → Bool
is_digit c = leb 48 c && leb c 57

-- The characters below 256 that `int` strips from both ends of its argument.
unfoldable pub is_space : ℕ → Bool
is_space c = (leb 9 c && leb c 13) || (leb 28 c && leb c 32) || c == 0x85 || c == 0xA0

unfoldable pub all_space : List ℕ → Bool
unfolding is_space
all_space [] = true
all_space (c ∷ cs) = is_space c && all_space cs

-- The digits of a number, `_` allowed between two of them, and white space behind it. `after_digit`
-- tells whether a digit stands right before.
unfoldable pub digits_value : Bool → ℕ → List ℕ → Result ℕ
unfolding is_digit all_space
digits_value true n [] = ok n
digits_value false n [] = raise value_error
digits_value after_digit n (c ∷ cs) =
    let more = digits_value true (n * 10 + (c - 48)) cs in
    let under = digits_value false n cs in
    if is_digit c
    then more
    else if c == b'_' && after_digit
    then under
    else if after_digit && all_space (c ∷ cs)
    then ok n
    else raise value_error

-- A minus sign before a number other than 0 makes an address that `_vet_request` refuses with the
-- same ValueError.
signed_value : List ℕ → Result ℕ
unfolding digits_value is_digit is_space all_space
signed_value [] = raise value_error
signed_value (c ∷ cs) =
    if c == b'+'
    then digits_value false 0 cs
    else if c == b'-'
    then (do n ← digits_value false 0 cs; if n == 0 then ok 0 else raise value_error)
    else digits_value false 0 (c ∷ cs)

-- `int(s)`
unfoldable pub parse_int : List ℕ → Result ℕ
unfolding signed_value
parse_int [] = raise value_error
parse_int (c ∷ cs) =
    let stripped = parse_int cs in if is_space c then stripped else signed_value (c ∷ cs)

is_ok_of : ℕ → Result ℕ → Bool
is_ok_of n (ok m) = m == n
is_ok_of n (raise e) = false

is_ok_of_lem : (n : ℕ) (r : Result ℕ) → is_ok_of n r ≡ true → r ≡ ok n
unfolding is_ok_of
is_ok_of_lem n (ok m) h = ground arith
is_ok_of_lem n (raise e) h = cc

is_four : List ℕ → Bool
is_four (a ∷ b ∷ c ∷ d ∷ []) = true
is_four _ = false

digits_table :
    all_below 10000 (λ n. is_four (address_digits n) && is_ok_of n (parse_int (address_digits n)))
    ≡ true
unfolding all_below address_digits parse_int is_ok_of is_four
digits_table = refl

four_cases :
    (cs : List ℕ)
    → is_four cs ≡ true
    → (a : ℕ) × (b : ℕ) × (c : ℕ) × (d : ℕ) × (cs ≡ a ∷ b ∷ c ∷ d ∷ [])
unfolding is_four
four_cases [] h = absurd (cc h)
four_cases (a ∷ []) h = absurd (cc h)
four_cases (a ∷ b ∷ []) h = absurd (cc h)
four_cases (a ∷ b ∷ c ∷ []) h = absurd (cc h)
four_cases (a ∷ b ∷ c ∷ d ∷ []) h = (a, b, c, d, refl)
four_cases (a ∷ b ∷ c ∷ d ∷ e ∷ cs) h = absurd (cc h)

-- An address of at most four digits is written with four characters, and `int` reads it back.
pub address_digits_lem :
    (n : ℕ)
    → n < 10000
    → (a : ℕ) × (b : ℕ) × (c : ℕ) × (d : ℕ) × (address_digits n ≡ a ∷ b ∷ c ∷ d ∷ [])
      × (parse_int (a ∷ b ∷ c ∷ d ∷ []) ≡ ok n)
address_digits_lem n h =
    let checked = all_below_sound 10000 _ n digits_table h in
    let (a, b, c, d, e) = four_cases (address_digits n) (and_left _ _ checked) in
    (a, b, c, d, e, rw e at (is_ok_of_lem n (parse_int (address_digits n)) (and_right _ _ checked)))

starts_marked : List ℕ → Bool
starts_marked [] = false
starts_marked (c ∷ cs) = c == 0xFB

marked_table : all_below 10000 (λ n. not (starts_marked (address_digits n))) ≡ true
unfolding all_below address_digits starts_marked
marked_table = refl

-- A digit is not taken for the marker of a multi-byte command.
pub address_digits_head :
    (n a b c d : ℕ) → n < 10000 → address_digits n ≡ a ∷ b ∷ c ∷ d ∷ [] → (a == 0xFB) ≡ false
unfolding starts_marked
address_digits_head n a b c d h e =
    let checked =
      all_below_sound 10000 (λ n. not (starts_marked (address_digits n))) n marked_table h in
    let moved : not (starts_marked (a ∷ b ∷ c ∷ d ∷ [])) ≡ true = rw e at checked in ground arith
