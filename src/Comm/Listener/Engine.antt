-- ===== src/Comm/Listener/Engine.antt =====
-- TMCC2 engine and train commands that the command listener receives one at a time
-- (comm/command_listener.py).
use py_legacy.Common.{
  ℕ, ◌+◌, ◌*◌, ◌/◌, ◌≤◌, ◌<◌, ◌≡◌, refl, Bool, true, false, ◌||◌, some, List, [], ◌∷◌, arith, ltb,
  leb, get_elem?, map, All, Result, ok, ◌>>=◌, Bool-cases, inl, inr,
}
use py_legacy.Common.Int.{ℤ}
use py_legacy.Protocol.Scope.{CommandScope}
use py_legacy.Protocol.Def.{Command, is_alias}
use py_legacy.Protocol.Request.{build, as_bytes, is_engine_or_train}
use py_legacy.Protocol.Decode.{Parsed, request, from_bytes}
use py_legacy.Protocol.Digits.{address_digits_lem, address_digits_head}
use py_legacy.Protocol.RoundTrip.Rows.{accepts}
use py_legacy.Protocol.RoundTrip.Engine.{high, request_of, scope_cases}
use py_legacy.Protocol.RoundTrip.Receive.{prefix_of, sent, sent_engine}
use py_legacy.Protocol.Tmcc2.Engine.{tmcc2_engine_commands}
use py_legacy.Comm.Listener.{
  Listener, taken, waits, byte_at, is_first_byte, is_marked, take_bytes, take_word, round,
  after_parse, drain, offer, fuel_for, feed,
}

abbrev pub idle : Listener
idle = record { bytes = []; is_tmcc4 = false }

round-sent :
    (s : CommandScope) (a w : ℕ)
    → is_engine_or_train s ≡ true
    → a ≤ 9999
    → w < 512
    → round (record { bytes = sent s a w; is_tmcc4 = false })
      ≡ taken (sent s a w) (record { bytes = []; is_tmcc4 = ltb 99 a })
unfolding round take_word take_bytes byte_at is_marked
round-sent s a w q hi fits =
    let known : is_first_byte (prefix_of s) ≡ true = elim (scope_cases s q) [
      | inl t ↦ unfold is_first_byte in rw t refl
      | inr t ↦ unfold is_first_byte in rw t refl
    ] in
    elim (Bool-cases (ltb 99 a)) [
      | inl big ↦
          let (c0, c1, c2, c3, digits, _) = address_digits_lem a (omega arith) in
          let plain = address_digits_head a c0 c1 c2 c3 (omega arith) digits in
          let low : leb ((high a * 512 + w) / 256) 1 ≡ true = ground arith in
          rw (big, digits, known) (rw (plain, low) refl)
      | inr small ↦ rw (small, known) refl
    ]

-- A command that someone sends.
pub record Order : Type 0 where
  pub row : ℕ
  pub command : Command
  pub address : ℕ
  pub command_data : ℤ
  pub scope : CommandScope

-- It is a first-class command of the TMCC2 engine table, with what it accepts.
abbrev pub IsSendable : Order → Type 0
IsSendable o =
    (get_elem? tmcc2_engine_commands o.row ≡ some o.command)
    × (is_alias o.command.value ≡ false)
    × (1 ≤ o.address)
    × (o.address ≤ 9999)
    × (accepts o.command.value o.command_data ≡ true)
    × (is_engine_or_train o.scope ≡ true)

abbrev pub order_bytes : Order → Result (List ℕ)
order_bytes o = do r ← build o.command o.address o.command_data (some o.scope); as_bytes r

-- The request of the sender, with the receiver's mark of a 4-digit address.
abbrev pub order_request : Order → Result Parsed
order_request o = do
  r ← build o.command o.address o.command_data (some o.scope)
  ok (request (record r { is_tmcc4 = ltb 99 o.address }))

-- `CommandReq.from_bytes(cmd_bytes, is_tmcc4=is_tmcc4)`
abbrev pub parse : Bool → List ℕ → Result Parsed
parse four bytes = from_bytes false four bytes

-- One command is taken off the deque and handed on.
drain-sent :
    (o : Order)
    → IsSendable o
    → (bytes : List ℕ) × (p : Parsed) × (order_bytes o ≡ ok bytes)
      × (order_request o ≡ ok p)
      × (drain parse (fuel_for parse (offer parse idle bytes)) (offer parse idle bytes)
          ≡ some (p ∷ [], waits idle))
unfolding drain offer after_parse
drain-sent o (row, first_class, lo, hi, valid, q) =
    let a = o.address in
    let (w, fits, built, written, back) =
      sent_engine o.row o.command a o.command_data o.scope row first_class lo hi valid q in
    let p =
      request (record (request_of o.command a o.command_data o.scope w) { is_tmcc4 = ltb 99 a }) in
    let bytes = sent o.scope a w in
    let same : (ltb 99 a || ltb 99 a) ≡ ltb 99 a = elim (Bool-cases (ltb 99 a)) [
      | inl e ↦ rw e refl
      | inr e ↦ rw e refl
    ] in
    (
      bytes,
      p,
      rw (built, written) refl,
      rw built refl,
      rw (round-sent o.scope a w q hi fits)
          (rw (after_parse, back (ltb 99 a) same) (unfold round in refl)),
    )

-- Commands that arrive one at a time, each as a whole, are handed on as the requests of the sender, in
-- order, and the listener is then back where it was, with nothing left over.
pub feed-engine :
    (os : List Order)
    → All IsSendable os
    → (chunks : List (List ℕ)) × (ps : List Parsed) × (map order_bytes os ≡ map ok chunks)
      × (map order_request os ≡ map ok ps)
      × (feed parse idle chunks ≡ some (ps, waits idle))
unfolding feed
feed-engine [] h = ([], [], refl, refl, refl)
feed-engine (o ∷ os) (h, hs) =
    let (bytes, p, e, f, d) = drain-sent o h in
    let (chunks, ps, es, fs, ds) = feed-engine os hs in
    (bytes ∷ chunks, p ∷ ps, rw (e, es) refl, rw (f, fs) refl, rw (feed, d) (rw ds refl))
