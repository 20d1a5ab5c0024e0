-- ===== src/Comm/Listener/Multibyte.antt =====
-- Multi-byte commands of fixed length in the command listener (comm/command_listener.py).
use py_legacy.Common.{
  ℕ, ◌≤◌, ◌≡◌, refl, true, false, List, [], arith, ◌==◌, ltb, Bool-cases, inl, inr, ok,
}
use py_legacy.Protocol.Request.{is_engine_or_train}
use py_legacy.Protocol.Digits.{address_digits_lem, address_digits_head}
use py_legacy.Protocol.RoundTrip.Engine.{scope_cases}
use py_legacy.Protocol.RoundTrip.Receive.{prefix_of}
use py_legacy.Protocol.Multibyte.{MultiByteReq, word_1, word_prefix, with_digits, multibyte_bytes}
use py_legacy.Protocol.Multibyte.Layout.{written, multibyte_bytes_lem}
use py_legacy.Comm.Listener.{
  taken, byte_at, is_first_byte, is_marked, take_bytes, take_multibyte, round,
  tmcc2_variable_length_parameter_index,
}

-- A multi-byte command of fixed length for an engine or a train with an address from 1 to 9999 that
-- arrives as a whole is taken off the deque as one command, with the mark of a 4-digit address if and
-- only if the address is above 99.
pub round-multibyte :
    (r : MultiByteReq)
    → is_engine_or_train r.scope ≡ true
    → 1 ≤ r.address
    → r.address ≤ 9999
    → (r.index_byte == tmcc2_variable_length_parameter_index) ≡ false
    → (bytes : List ℕ) × (multibyte_bytes r ≡ ok bytes)
      × (round (record { bytes = bytes; is_tmcc4 = false })
          ≡ taken bytes (record { bytes = []; is_tmcc4 = ltb 99 r.address }))
unfolding round take_multibyte take_bytes byte_at is_marked word_1 word_prefix with_digits
round-multibyte r q lo hi fixed =
    let known : is_first_byte (prefix_of r.scope) ≡ true = elim (scope_cases r.scope q) [
      | inl t ↦ unfold is_first_byte in rw t refl
      | inr t ↦ unfold is_first_byte in rw t refl
    ] in
    (
      written r,
      multibyte_bytes_lem r q,
      elim (Bool-cases (ltb 99 r.address)) [
        | inl big ↦
            let (c0, c1, c2, c3, digits, _) = address_digits_lem r.address (omega arith) in
            let plain = address_digits_head r.address c0 c1 c2 c3 (omega arith) digits in
            rw (big, digits, known) (rw (plain, fixed) refl)
        | inr small ↦ rw (small, known) (rw fixed refl)
      ],
    )
