-- ===== src/Comm/Listener/Lost.antt =====
-- TMCC1 commands that the command listener loses (comm/command_listener.py).
use py_legacy.Common.{
  ℕ, zero, suc, ◌≤◌, ◌≡◌, refl, true, some, List, [], ◌∷◌, arith, All, ◌⊎◌, inl, inr, Bool-cases,
  ◌==◌, eq_of_==,
}
use py_legacy.Protocol.Decode.{from_bytes, is_tmcc1_prefix}
use py_legacy.Comm.Listener.{
  Listener, waits, byte_at, is_first_byte, is_marked, take_bytes, take_word, round, after_parse,
  after_round, drain, offer, feed,
}
use py_legacy.Comm.Listener.Engine.{idle, parse}

-- The state with the mark of a 4-digit address left on.
abbrev pub marked : Listener
marked = record { bytes = []; is_tmcc4 = true }

-- Two TMCC1 commands, the first for a low address, that arrive with one more byte: the bytes behind the
-- first are taken for the digits of an address, nothing is handed on, and the mark of a 4-digit address
-- stays on.
pub feed-swallowed :
    (high low high' low' b : ℕ)
    → high ≤ 1
    → feed parse idle ((0xFE ∷ high ∷ low ∷ 0xFE ∷ high' ∷ low' ∷ b ∷ []) ∷ [])
      ≡ some ([], waits marked)
unfolding feed drain after_round after_parse round take_word take_bytes byte_at is_first_byte
    is_marked offer from_bytes
feed-swallowed zero low high' low' b h = refl
feed-swallowed (suc zero) low high' low' b h = refl
feed-swallowed (suc (suc n)) low high' low' b h = absurd (omega arith)

-- A TMCC1 command of three bytes, with either of the two prefixes
abbrev pub IsTmcc1Word : List ℕ → Type 0
IsTmcc1Word bytes =
    (prefix : ℕ) × (high : ℕ) × (low : ℕ) × (is_tmcc1_prefix prefix ≡ true)
    × (bytes ≡ prefix ∷ high ∷ low ∷ [])

prefix_cases : (p : ℕ) → is_tmcc1_prefix p ≡ true → (p ≡ 0xFE) ⊎ (p ≡ 0xFD)
prefix_cases p h = elim (Bool-cases (p == 0xFE)) [
  | inl e ↦ inl (eq_of_== p 0xFE e)
  | inr e ↦ inr (ground arith)
]

-- While the mark is on, TMCC1 commands of three bytes, with the prefix 0xFE or 0xFD, that arrive one at a
-- time are all rejected, and the mark stays on.
pub feed-marked :
    (chunks : List (List ℕ))
    → All IsTmcc1Word chunks
    → feed parse marked chunks ≡ some ([], waits marked)
unfolding feed drain after_round after_parse round take_word take_bytes byte_at is_first_byte
    is_marked offer from_bytes
feed-marked [] h = refl
feed-marked (c ∷ cs) ((prefix, high, low, known, e), hs) = elim (prefix_cases prefix known) [
  | inl p ↦ rw e (rw p (rw (feed-marked cs hs) refl))
  | inr p ↦ rw e (rw p (rw (feed-marked cs hs) refl))
]
