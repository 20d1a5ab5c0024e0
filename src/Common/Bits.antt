-- ===== src/Common/Bits.antt =====
-- Laws of `bit_and` on numbers put together from a high and a low part.
use Prim.Native.Nat.{
  ℕ, zero, suc, ◌+◌, ◌-◌, ◌*◌, ◌/◌, ◌%◌, ◌^◌, ◌≤◌, ◌<◌, min, max, bit_and, bit_or, digits,
  bit_and-bitwise, bit_or-bitwise,
}
use mathlib.Core.Path.{◌≡◌, refl, sym, ap, ◌∙◌}
use native.Mathlib.Omega.{arith}
use native.Mathlib.Nat.{pow-suc, suc-add}

-- The recursion on digits, with more of them allowed than the number has.
module _ (end : ℕ → ℕ) (op : ℕ → ℕ → ℕ) where
  spare_digits : (n a b extra : ℕ) → a ≤ n → digits end op (n + extra) a b ≡ digits end op n a b
  spare_digits n zero b extra le = rw (no_digits (n + extra) b, no_digits n b) refl
    where
      no_digits : (count b : ℕ) → digits end op count 0 b ≡ end b
      no_digits zero b = refl
      no_digits (suc count) b = refl
  spare_digits zero (suc a) b extra le = absurd (omega arith)
  spare_digits (suc n) (suc a) b extra le = rw (suc-add n extra) (
      ap (λ high. high * 2 + op (suc a % 2) (b % 2))
        (spare_digits n (suc a / 2) (b / 2) extra (omega arith)))

  lowest_digit :
      (a b : ℕ)
      → digits end op (suc a) (suc a) b
        ≡ digits end op (suc a / 2) (suc a / 2) (b / 2) * 2 + op (suc a % 2) (b % 2)
  lowest_digit a b =
      let half = suc a / 2 in
      let e : a ≡ half + (a - half) = omega arith in
      ap (λ high. high * 2 + op (suc a % 2) (b % 2))
        (ap (λ count. digits end op count half (b / 2)) e
          ∙ spare_digits half half (b / 2) (a - half) (omega arith))

-- One binary digit.
pub bit_and_step : (a b : ℕ) → bit_and a b ≡ bit_and (a / 2) (b / 2) * 2 + min (a % 2) (b % 2)
bit_and_step zero b = rw (bit_and-bitwise 0 b, bit_and-bitwise 0 (b / 2)) (omega arith)
bit_and_step (suc a) b =
    rw (bit_and-bitwise (suc a) b, bit_and-bitwise (suc a / 2) (b / 2))
      (lowest_digit (λ b. zero) min a b)

pub bit_or_step : (a b : ℕ) → bit_or a b ≡ bit_or (a / 2) (b / 2) * 2 + max (a % 2) (b % 2)
bit_or_step zero b = rw (bit_or-bitwise 0 b, bit_or-bitwise 0 (b / 2)) (omega arith)
bit_or_step (suc a) b =
    rw (bit_or-bitwise (suc a) b, bit_or-bitwise (suc a / 2) (b / 2))
      (lowest_digit (λ b. b) max a b)

-- The halves of a number put together at a power of two `2 * p`.
half_join : (h l p : ℕ) → (h * (p * 2) + l) / 2 ≡ h * p + l / 2
half_join h l p = omega arith

rem_join : (h l p : ℕ) → (h * (p * 2) + l) % 2 ≡ l % 2
rem_join h l p = omega arith

-- The operation on the high and the low digits by themselves.
pub bit_and_join :
    (k h l h' l' : ℕ)
    → l < 2 ^ k
    → l' < 2 ^ k
    → bit_and (h * 2 ^ k + l) (h' * 2 ^ k + l') ≡ bit_and h h' * 2 ^ k + bit_and l l'
bit_and_join zero h l h' l' p q =
    let e : l ≡ 0 = omega arith in
    let e' : l' ≡ 0 = omega arith in
    let low : bit_and l l' ≡ 0 = rw (e, e') in
    let high : h * 2 ^ 0 + l ≡ h = omega arith in
    let high' : h' * 2 ^ 0 + l' ≡ h' = omega arith in rw (high, high') (omega (arith, low))
bit_and_join (suc k) h l h' l' p q =
    let t = 2 ^ k in
    let p' : l / 2 < t = omega (arith, pow-suc 2 k) in
    let q' : l' / 2 < t = omega (arith, pow-suc 2 k) in
    let ih = bit_and_join k h (l / 2) h' (l' / 2) p' q' in
    rw (pow-suc 2 k) (
      rw (bit_and_step (h * (t * 2) + l) (h' * (t * 2) + l'), bit_and_step l l')
        (rw (half_join h l t, half_join h' l' t, rem_join h l t, rem_join h' l' t)
          (omega (arith, ih))))

-- The operation on the high and the low digits by themselves.
pub bit_or_join :
    (k h l h' l' : ℕ)
    → l < 2 ^ k
    → l' < 2 ^ k
    → bit_or (h * 2 ^ k + l) (h' * 2 ^ k + l') ≡ bit_or h h' * 2 ^ k + bit_or l l'
bit_or_join zero h l h' l' p q =
    let e : l ≡ 0 = omega arith in
    let e' : l' ≡ 0 = omega arith in
    let low : bit_or l l' ≡ 0 = rw (e, e') in
    let high : h * 2 ^ 0 + l ≡ h = omega arith in
    let high' : h' * 2 ^ 0 + l' ≡ h' = omega arith in rw (high, high') (omega (arith, low))
bit_or_join (suc k) h l h' l' p q =
    let t = 2 ^ k in
    let p' : l / 2 < t = omega (arith, pow-suc 2 k) in
    let q' : l' / 2 < t = omega (arith, pow-suc 2 k) in
    let ih = bit_or_join k h (l / 2) h' (l' / 2) p' q' in
    rw (pow-suc 2 k) (
      rw (bit_or_step (h * (t * 2) + l) (h' * (t * 2) + l'), bit_or_step l l')
        (rw (half_join h l t, half_join h' l' t, rem_join h l t, rem_join h' l' t)
          (omega (arith, ih))))

zero_right : (n a : ℕ) → a ≤ n → (bit_and a 0 ≡ 0) × (bit_or a 0 ≡ a)
zero_right zero a le =
    let e : a ≡ 0 = omega arith in (rw e (bit_and-bitwise 0 0), rw e (bit_or-bitwise 0 0))
zero_right (suc n) zero le = zero_right n zero (omega arith)
zero_right (suc n) (suc a) le =
    let (p, q) = zero_right n (suc a / 2) (omega arith) in
    (omega (arith, bit_and_step (suc a) 0, p), omega (arith, bit_or_step (suc a) 0, q))

pub bit_and-zero : (a : ℕ) → bit_and a 0 ≡ 0
bit_and-zero a = (zero_right a a (omega arith)).0

pub bit_or-zero : (a : ℕ) → bit_or a 0 ≡ a
bit_or-zero a = (zero_right a a (omega arith)).1

pub zero-bit_and : (a : ℕ) → bit_and 0 a ≡ 0
zero-bit_and a = bit_and-bitwise 0 a

bit_and_le_fuel : (n a b : ℕ) → a ≤ n → bit_and a b ≤ a
bit_and_le_fuel n zero b h = omega (arith, zero-bit_and b)
bit_and_le_fuel zero (suc a) b h = absurd (omega arith)
bit_and_le_fuel (suc n) (suc a) b h =
    omega (arith, bit_and_step (suc a) b, bit_and_le_fuel n (suc a / 2) (b / 2) (omega arith))

pub bit_and_le : (a b : ℕ) → bit_and a b ≤ a
bit_and_le a b = bit_and_le_fuel a a b (omega arith)

pub zero-bit_or : (a : ℕ) → bit_or 0 a ≡ a
zero-bit_or a = bit_or-bitwise 0 a

module _ (k h l m : ℕ) (l_fits : l < 2 ^ k) (m_fits : m < 2 ^ k) where
  -- A mask of the low digits.
  pub bit_and_low : bit_and (h * 2 ^ k + l) m ≡ bit_and l m
  bit_and_low =
      let e : m ≡ 0 * 2 ^ k + m = omega arith in
      rw e (
        rw (bit_and_join k h l 0 m l_fits m_fits, bit_and-zero)
          (omega (arith, ap (λ (t : ℕ). bit_and l t) (sym e))))

  pub bit_and_low' : bit_and m (h * 2 ^ k + l) ≡ bit_and m l
  bit_and_low' =
      let e : m ≡ 0 * 2 ^ k + m = omega arith in
      rw e (
        rw (bit_and_join k 0 m h l m_fits l_fits, zero-bit_and)
          (omega (arith, ap (λ (t : ℕ). bit_and t l) (sym e))))

  -- Low digits that are added to a number.
  pub bit_or_low : bit_or (h * 2 ^ k + l) m ≡ h * 2 ^ k + bit_or l m
  bit_or_low =
      let e : m ≡ 0 * 2 ^ k + m = omega arith in
      rw e (
        rw (bit_or_join k h l 0 m l_fits m_fits, bit_or-zero)
          (omega (arith, ap (λ (t : ℕ). bit_or l t) (sym e))))
