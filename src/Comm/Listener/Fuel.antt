-- ===== src/Comm/Listener/Fuel.antt =====
-- Where the loop of the command listener comes to: each round takes a byte off the deque or changes nothing
-- (comm/command_listener.py).
use py_legacy.Common.{
  ℕ, zero, suc, ◌+◌, ◌-◌, ◌*◌, ◌≤◌, ◌<◌, ◌≡◌, refl, Bool, true, false, ◌&&◌, ◌||◌, Option, some,
  List, [], ◌∷◌, arith, ◌==◌, ltb, leb, length, length-drop, Result, ok, raise, value_error, Error,
  type_error, key_error, index_error, attribute_error, overflow_error, assertion_error, Bool-cases,
  inl, inr,
}
use py_legacy.Comm.Listener.{
  Listener, Round, unfinished, ignored, taken, End, waits, spins, dies, idles, byte_at, is_marked,
  is_first_byte, tmcc2_variable_length_parameter_index, take_bytes, take_multibyte, take_word,
  round, after_parse, after_round, drain, fuel_for,
}

-- What is left after a round.
abbrev IsShorter : Listener → Round → Type 0
IsShorter l unfinished = Unit
IsShorter l (ignored l') = length l'.bytes < length l.bytes
IsShorter l (taken bytes l') = length l'.bytes < length l.bytes

take_bytes-IsShorter :
    (l : Listener) (n : ℕ) (four : Bool)
    → 1 ≤ n
    → n ≤ length l.bytes
    → IsShorter l (take_bytes n four l.bytes)
unfolding take_bytes
take_bytes-IsShorter l n four lo hi = omega (arith, length-drop n l.bytes)

take_word-IsShorter :
    (l : Listener) (four : Bool) → 3 ≤ length l.bytes → IsShorter l (take_word four l.bytes)
unfolding take_word
take_word-IsShorter l four h =
    elim (Bool-cases (leb 4 (length l.bytes - 3) && leb (byte_at l.bytes 1) 1)) [
      | inl e ↦ rw e (take_bytes-IsShorter l 7 true (omega arith) (ground arith))
      | inr e ↦ rw e (take_bytes-IsShorter l 3 four (omega arith) h)
    ]

take_multibyte-IsShorter :
    (l : Listener) (four : Bool)
    → 9 ≤ length l.bytes
    → (length l.bytes < 21
        → (leb 9 (length l.bytes) && is_marked l.bytes 3 && is_marked l.bytes 6) ≡ true)
    → IsShorter l (take_multibyte four l.bytes)
unfolding take_multibyte
take_multibyte-IsShorter l four h marked =
    let d = l.bytes in
    elim (Bool-cases (leb 9 (length d) && byte_at d 2 == tmcc2_variable_length_parameter_index)) [
      | inl e ↦ rw e (elim (Bool-cases (ltb (length d) ((5 + byte_at d 5) * 3))) [
        | inl f ↦ rw f tt
        | inr f ↦
            rw f (take_bytes-IsShorter l ((5 + byte_at d 5) * 3) four (omega arith) (ground arith))
      ])
      | inr e ↦ rw e (elim (Bool-cases (leb 9 (length d) && is_marked d 3 && is_marked d 6)) [
        | inl f ↦ rw f (take_bytes-IsShorter l 9 four (omega arith) h)
        | inr f ↦ rw f (take_bytes-IsShorter l 21 true (omega arith) (ground arith))
      ])
    ]

round-IsShorter : (l : Listener) → IsShorter l (round l)
unfolding round
round-IsShorter l =
    let d = l.bytes in
    let n = length d in
    let many =
      leb 9 n && is_marked d 3 && is_marked d 6 || leb 21 n && is_marked d 7 && is_marked d 14 in
    elim (Bool-cases (leb 3 n && is_first_byte (byte_at d 0))) [
      | inl e ↦ rw e (elim (Bool-cases many) [
        | inl f ↦ rw f (take_multibyte-IsShorter l l.is_tmcc4 (ground arith) (λ few. ground arith))
        | inr f ↦ rw f (elim (Bool-cases (leb 4 n && is_marked d 3)) [
          | inl g ↦ rw g tt
          | inr g ↦ rw g (take_word-IsShorter l l.is_tmcc4 (ground arith))
        ])
      ])
      | inr e ↦ rw e (elim (Bool-cases (ltb n 3)) [
        | inl f ↦ rw f tt
        | inr f ↦ rw f (ground (arith, length-drop 1 d))
      ])
    ]

abbrev is_nonempty : List ℕ → Bool
is_nonempty [] = false
is_nonempty (b ∷ bs) = true

abbrev is_value_error : Error → Bool
is_value_error value_error = true
is_value_error e = false

-- It waits on an empty deque, and spins on bytes that a round leaves alone; a ValueError does not end it.
abbrev pub IsEnd : End → Type 0
IsEnd (waits l) = l.bytes ≡ []
IsEnd (spins l) = (is_nonempty l.bytes ≡ true) × (round l ≡ unfinished)
IsEnd (dies e) = is_value_error e ≡ false

idles-IsEnd :
    (bs : List ℕ) (four : Bool)
    → round (record { bytes = bs; is_tmcc4 = four }) ≡ unfinished
    → IsEnd (idles (record { bytes = bs; is_tmcc4 = four }))
idles-IsEnd [] four h = refl
idles-IsEnd (b ∷ bs) four h = (refl, h)

module _ {A : Type 0} (parse : Bool → List ℕ → Result A) where
  abbrev Ends : Option (List A × End) → Type 0
  Ends o = (r : List A × End) × (o ≡ some r) × IsEnd r.1

  after_parse-Ends :
      (n : ℕ) (l : Listener) (r : Result A)
      → ((l' : Listener) → length l'.bytes ≤ length l.bytes → Ends (drain parse n l'))
      → Ends (after_parse parse (drain parse n) l r)
  unfolding after_parse
  after_parse-Ends n l (ok a) h =
      let ((rs, e), q, end) = h (record { bytes = l.bytes; is_tmcc4 = false }) (omega arith) in
      ((a ∷ rs, e), rw (after_parse, q) refl, end)
  after_parse-Ends n l (raise value_error) h = h l (omega arith)
  after_parse-Ends n l (raise type_error) h = (([], dies type_error), refl, refl)
  after_parse-Ends n l (raise key_error) h = (([], dies key_error), refl, refl)
  after_parse-Ends n l (raise index_error) h = (([], dies index_error), refl, refl)
  after_parse-Ends n l (raise attribute_error) h = (([], dies attribute_error), refl, refl)
  after_parse-Ends n l (raise overflow_error) h = (([], dies overflow_error), refl, refl)
  after_parse-Ends n l (raise assertion_error) h = (([], dies assertion_error), refl, refl)

  after_round-Ends :
      (n : ℕ) (l : Listener) (rd : Round)
      → round l ≡ rd
      → IsShorter l rd
      → ((l' : Listener) → length l'.bytes < length l.bytes → Ends (drain parse n l'))
      → Ends (after_round parse (drain parse n) l rd)
  unfolding after_round
  after_round-Ends n l unfinished e q h = (([], idles l), refl, idles-IsEnd l.bytes l.is_tmcc4 e)
  after_round-Ends n l (ignored l') e q h = h l' q
  after_round-Ends n l (taken bytes l') e q h =
      after_parse-Ends n l' (parse l'.is_tmcc4 bytes) (λ l'' le. h l'' (omega arith))

  drain-Ends : (n : ℕ) (l : Listener) → length l.bytes < n → Ends (drain parse n l)
  unfolding drain
  drain-Ends zero l h = absurd (omega arith)
  drain-Ends (suc n) l h =
      after_round-Ends n l (round l) refl (round-IsShorter l)
        (λ l' lt. drain-Ends n l' (omega arith))

  -- On the fuel that `feed` gives it, whatever is in the deque and whatever the parser answers, the loop
  -- comes to wait, with the deque empty; or to spin, with bytes in the deque that a round leaves as
  -- they are; or it dies of an exception that is no ValueError.
  pub drain-fuel_for :
      (l : Listener) → (r : List A × End) × (drain parse (fuel_for parse l) l ≡ some r) × IsEnd r.1
  drain-fuel_for l = drain-Ends (suc (length l.bytes)) l (omega arith)
