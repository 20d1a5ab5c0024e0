-- ===== src/Db/Updates/Conversions.antt =====
-- The conversions between TMCC and the Base 3, there and back (db/comp_data.py).
use py_legacy.Common.{
  ℕ, ◌+◌, ◌*◌, ◌/◌, ◌%◌, ◌||◌, if◌then◌else◌, ◌≤◌, ◌<◌, ◌≡◌, refl, Bool, true, false, ◌&&◌, none,
  some, arith, ◌==◌, eq_of_==, leb, all_below, all_below_sound, and_left, and_right,
}
use py_legacy.Db.Updates.{
  encode_tmcc_speed, decode_tmcc_speed, train_brake_from, train_brake_to, momentum_from,
  momentum_to, rpm_from, labor_from, rpm_labor_to,
}

speed_table :
    all_below 32 (λ n. decode_tmcc_speed (encode_tmcc_speed (some n) false) false == n) ≡ true
unfolding all_below decode_tmcc_speed encode_tmcc_speed
speed_table = refl

-- A TMCC1 speed from 0 to 31 is written on the scale of 0 to 199 and read back as the same speed, and a
-- Legacy speed below 255 is the same on both scales.
pub decode_tmcc_speed-encode_tmcc_speed :
    (n : ℕ) (is_legacy : Bool)
    → leb n (if is_legacy then 254 else 31) ≡ true
    → decode_tmcc_speed (encode_tmcc_speed (some n) is_legacy) is_legacy ≡ n
decode_tmcc_speed-encode_tmcc_speed n true h =
    unfold decode_tmcc_speed encode_tmcc_speed in ground arith
decode_tmcc_speed-encode_tmcc_speed n false h =
    eq_of_== _ n (all_below_sound 32 _ n speed_table (ground arith))

-- What is written for a speed fits a byte, whatever the speed is, and it is 255 or at most 199 for an
-- engine without Legacy control.
pub encode_tmcc_speed_bounds :
    (speed : ℕ)
    → (encode_tmcc_speed (some speed) true ≤ 255)
      × ((encode_tmcc_speed (some speed) false == 255
            || leb (encode_tmcc_speed (some speed) false) 199)
          ≡ true)
      × (encode_tmcc_speed none true ≡ 255)
unfolding encode_tmcc_speed
encode_tmcc_speed_bounds speed = (ground arith, ground arith, refl)

brake_momentum_table :
    all_below 8
      (λ n. train_brake_from (train_brake_to n) == n && momentum_from (momentum_to n) == n)
    ≡ true
unfolding all_below train_brake_from train_brake_to momentum_from momentum_to
brake_momentum_table = refl

-- The eight levels of the train brake and of the momentum are kept by the scales of the Base 3.
pub train_brake-momentum :
    (n : ℕ)
    → n < 8
    → (train_brake_from (train_brake_to n) ≡ n) × (momentum_from (momentum_to n) ≡ n)
train_brake-momentum n h =
    let checked = all_below_sound 8 _ n brake_momentum_table h in
    (eq_of_== _ n (and_left _ _ checked), eq_of_== _ n (and_right _ _ checked))

abbrev rpm_labor_test : ℕ → Bool
rpm_labor_test n =
    rpm_from (rpm_labor_to (n % 8) (n / 8)) == n % 8
    && labor_from (rpm_labor_to (n % 8) (n / 8)) == n / 8

rpm_labor_table : all_below 256 rpm_labor_test ≡ true
unfolding all_below rpm_from labor_from rpm_labor_to
rpm_labor_table = refl

rpm_labor_checked : (n : ℕ) → n < 256 → rpm_labor_test n ≡ true
rpm_labor_checked n small = all_below_sound 256 rpm_labor_test n rpm_labor_table small

-- The RPM and the labor share a byte, and are both read back from it.
pub rpm_labor_lem :
    (rpm labor : ℕ)
    → rpm < 8
    → labor < 32
    → (rpm_from (rpm_labor_to rpm labor) ≡ rpm) × (labor_from (rpm_labor_to rpm labor) ≡ labor)
rpm_labor_lem rpm labor lo hi = shared (labor * 8 + rpm) (omega arith) (omega arith) (omega arith)
  where
    shared :
        (n : ℕ)
        → n % 8 ≡ rpm
        → n / 8 ≡ labor
        → n < 256
        → (rpm_from (rpm_labor_to rpm labor) ≡ rpm) × (labor_from (rpm_labor_to rpm labor) ≡ labor)
    shared n low high small =
        let checked = rpm_labor_checked n small in
        (
          rw (low, high) at
              (eq_of_== (rpm_from (rpm_labor_to (n % 8) (n / 8))) (n % 8) (and_left _ _ checked)),
          rw (low, high) at
              (eq_of_== (labor_from (rpm_labor_to (n % 8) (n / 8))) (n / 8)
                (and_right (rpm_from (rpm_labor_to (n % 8) (n / 8)) == n % 8) _ checked)),
        )
