-- ===== src/Db/Components/Written.antt =====
-- Numbers of one and of two bytes, and the padding of a field (db/components.py).
use py_legacy.Common.{
  ℕ, ◌-◌, ◌/◌, ◌%◌, ◌≤◌, ◌<◌, ◌≡◌, ap, true, List, [], ◌∷◌, arith, ◌==◌, length, length-append, ok,
  ◌>>=◌,
}
use py_legacy.Db.Text.{replicate, length-replicate, le_bytes}
use py_legacy.Db.Components.{pad_to}

pub byte_fits : (x : ℕ) → x < 256 → le_bytes 1 x ≡ ok (x ∷ [])
unfolding le_bytes
byte_fits x h =
    let none_left : (x / 256 == 0) ≡ true = ground arith in
    rw none_left (ap (λ (b : ℕ). ok (b ∷ [])) (omega arith))

pub word_fits : (x : ℕ) → x / 256 < 256 → le_bytes 2 x ≡ ok ((x % 256) ∷ (x / 256) ∷ [])
unfolding le_bytes
word_fits x h = ap (λ r. r >>= λ rest. ok ((x % 256) ∷ rest)) (byte_fits (x / 256) h)

pub length-pad_to : (n : ℕ) (bs : List ℕ) → length bs ≤ n → length (pad_to n bs) ≡ n
unfolding pad_to
length-pad_to n bs h = omega (
  arith,
  length-append bs (replicate {A = ℕ} (n - length bs) 0xFF),
  length-replicate {A = ℕ} (n - length bs) 0xFF,
)
