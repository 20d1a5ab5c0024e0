-- ===== src/Pdi/Listener.antt =====
-- The loop of `PdiListener.run` (pdi/pdi_listener.py), which cuts the received bytes into packets.
pub mod Fuel
pub mod Chunks
pub mod Search
pub mod Frames
use py_legacy.Common.{
  ℕ, zero, suc, ◌+◌, ◌-◌, ◌*◌, Bool, true, false, Option, none, some, List, [], ◌∷◌, ◌++◌, ◌==◌,
  ltb, if◌then◌else◌, get_elem?, length, take, drop,
}
use py_legacy.Pdi.Frame.{pdi_sop, pdi_stf, pdi_eop}

-- `search_from` is `eop_pos + 1`: where the next search for EOP begins.
pub record Listener : Type 0 where
  pub bytes : List ℕ
  pub search_from : ℕ

-- `self._deque.index(PDI_EOP, start)`; `none` is its ValueError.
unfoldable pub index_eop : List ℕ → ℕ → Option ℕ
index_eop [] start = none
index_eop (b ∷ bs) (suc start) = elim (index_eop bs start) [ none ↦ none | some i ↦ some (suc i) ]
index_eop (b ∷ bs) zero =
    let rest = index_eop bs zero in
    if b == pdi_eop then some 0 else elim rest [ none ↦ none | some i ↦ some (suc i) ]

-- What one round of the inner loop does.
pub data Round : Type 0 where
  -- the deque is empty
  idle : Round
  -- there is no EOP yet: wait for bytes
  need_more : Round
  -- the EOP is part of the data: look past it
  escaped : Listener → Round
  -- a byte outside a packet is dropped
  skipped : ℕ → Listener → Round
  -- the bytes of a packet are given to `PdiReq.from_bytes` and the dispatcher
  packet : List ℕ → Listener → Round

abbrev pub is_stf : Option ℕ → Bool
is_stf none = false
is_stf (some b) = b == pdi_stf

-- The round once `index` has answered. `eop_pos - 1 > 0` fails only for an EOP in second place,
-- since the first byte is SOP.
unfoldable pub round_at : ℕ → List ℕ → Option ℕ → Round
round_at first rest none = need_more
round_at first rest (some eop_pos) =
    let bs = first ∷ rest in
    if ltb 0 (eop_pos - 1)
    then (if is_stf (get_elem? bs (eop_pos - 1))
        then escaped (record { bytes = bs; search_from = eop_pos + 1 })
        else packet (take (eop_pos + 1) bs)
            (record { bytes = drop (eop_pos + 1) bs; search_from = 0 }))
    else skipped first (record { bytes = rest; search_from = 0 })

unfoldable pub round_of : List ℕ → ℕ → Round
round_of [] start = idle
round_of (first ∷ rest) start =
    if first == pdi_sop
    then round_at first rest (index_eop (first ∷ rest) start)
    else skipped first (record { bytes = rest; search_from = 0 })

unfoldable pub round : Listener → Round
unfolding round_of round_at
round l = round_of l.bytes l.search_from

abbrev pub Drained : Type 0
Drained = Option (List (List ℕ) × Listener)

-- The rest of the loop after a round; `again` is the loop.
unfoldable pub after_round : (Listener → Drained) → Listener → Round → Drained
after_round again l idle = some ([], l)
after_round again l need_more = some ([], l)
after_round again l (escaped l') = again l'
after_round again l (skipped b l') = again l'
after_round again l (packet p l') = elim (again l') [
  | none ↦ none
  | some (ps, l'') ↦ some (p ∷ ps, l'')
]

-- The inner loop: the packets that it cuts off, and the state in which it waits for more bytes.
-- `none` means that the fuel ran out.
unfoldable pub drain : ℕ → Listener → Drained
unfolding after_round round
drain zero l = none
drain (suc fuel) l = after_round (drain fuel) l (round l)

-- `offer`
unfoldable pub offer : Listener → List ℕ → Listener
offer l bytes = record l { bytes = l.bytes ++ bytes }

-- Enough rounds for what is in the deque.
abbrev pub fuel_for : Listener → ℕ
fuel_for l = suc (length l.bytes * suc (length l.bytes) + (length l.bytes - l.search_from))

-- The outer loop of `run`, woken by each call of `offer`.
unfoldable pub feed : Listener → List (List ℕ) → Drained
feed l [] = some ([], l)
feed l (chunk ∷ chunks) = elim (drain (fuel_for (offer l chunk)) (offer l chunk)) [
  | none ↦ none
  | some (ps, l') ↦ elim (feed l' chunks) [ none ↦ none | some (qs, l'') ↦ some (ps ++ qs, l'') ]
]
