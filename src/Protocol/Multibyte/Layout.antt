-- ===== src/Protocol/Multibyte/Layout.antt =====
-- The bytes of a multi-byte command: their number, their format and their checksum
-- (protocol/multibyte/multibyte_command_req.py).
use py_legacy.Common.{
  ℕ, ◌≤◌, ◌≡◌, refl, ap, true, false, List, [], ◌∷◌, ◌++◌, arith, ltb, inl, inr, ok, if◌then◌else◌,
}
use py_legacy.Protocol.Scope.{CommandScope}
use py_legacy.Protocol.Request.{is_engine_or_train}
use py_legacy.Protocol.Digits.{address_digits, address_digits_lem}
use py_legacy.Protocol.RoundTrip.Engine.{scope_cases}
use py_legacy.Protocol.RoundTrip.Receive.{prefix_of}
use py_legacy.Protocol.Multibyte.{
  MultiByteReq, scope_first_byte, word_1, word_prefix, checksum, strip_digits, with_digits,
  multibyte_bytes,
}

-- The bytes without the digits.
abbrev pub front : MultiByteReq → List ℕ
front r = prefix_of r.scope ∷ (word_1 r ++ (word_prefix r ++ r.data_byte ∷ word_prefix r))

abbrev pub whole : MultiByteReq → List ℕ
whole r = front r ++ checksum false (front r) ∷ []

abbrev pub written : MultiByteReq → List ℕ
written r = if ltb 99 r.address then with_digits (address_digits r.address) (whole r) else whole r

first_byte :
    (s : CommandScope) → is_engine_or_train s ≡ true → scope_first_byte s ≡ ok (prefix_of s)
unfolding scope_first_byte
first_byte s q = elim (scope_cases s q) [ inl e ↦ rw e refl | inr e ↦ rw e refl ]

pub multibyte_bytes_lem :
    (r : MultiByteReq) → is_engine_or_train r.scope ≡ true → multibyte_bytes r ≡ ok (written r)
unfolding multibyte_bytes
multibyte_bytes_lem r q = rw (first_byte r.scope q) refl

-- The list is made of words of three bytes.
abbrev pub IsWords : List ℕ → Type 0
IsWords [] = Unit
IsWords (a ∷ []) = ⊥
IsWords (a ∷ b ∷ []) = ⊥
IsWords (a ∷ b ∷ c ∷ rest) = IsWords rest

strip_digits-with_digits :
    (c0 c1 c2 c3 : ℕ) (bs : List ℕ)
    → IsWords bs
    → strip_digits (with_digits (c0 ∷ c1 ∷ c2 ∷ c3 ∷ []) bs) ≡ bs
unfolding strip_digits with_digits
strip_digits-with_digits c0 c1 c2 c3 [] h = refl
strip_digits-with_digits c0 c1 c2 c3 (a ∷ []) h = absurd h
strip_digits-with_digits c0 c1 c2 c3 (a ∷ b ∷ []) h = absurd h
strip_digits-with_digits c0 c1 c2 c3 (a ∷ b ∷ c ∷ rest) h =
    ap (λ xs. a ∷ b ∷ c ∷ xs) (strip_digits-with_digits c0 c1 c2 c3 rest h)

-- The checksum does not count the digits of a 4-digit address: on words with the digits put in, it is
-- the checksum of the words.
pub checksum-with_digits :
    (address : ℕ) (bs : List ℕ)
    → address ≤ 9999
    → IsWords bs
    → checksum true (with_digits (address_digits address) bs) ≡ checksum false bs
unfolding checksum
checksum-with_digits address bs hi h =
    let (c0, c1, c2, c3, digits, _) = address_digits_lem address (omega arith) in
    rw digits (rw (strip_digits-with_digits c0 c1 c2 c3 bs h) refl)
