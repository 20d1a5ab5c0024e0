-- ===== src/Pdi/Listener/Frames.antt =====
-- What the listener makes of frames that `to_frame` has built.
use py_legacy.Common.{
  ℕ, suc, ◌≡◌, refl, sym, ap, ◌∙◌, Bool, true, false, some, List, [], ◌∷◌, ◌++◌, arith, ◌==◌,
  if◌then◌else◌, length, append_assoc, Bool-cases, inl, inr, take, drop, length-append, All,
}
use py_legacy.Pdi.Frame.{pdi_sop, pdi_stf, pdi_eop, is_reserved, to_frame}
use py_legacy.Pdi.Frame.Stuffing.{stuff}
use py_legacy.Pdi.Frame.RoundTrip.{
  calculate_checksum-send, sent_stream, sent_check, sent_check-plain, collides,
}
use py_legacy.Pdi.Listener.{
  Listener, index_eop, round_of, after_round, drain, fuel_for, offer, feed,
}
use native.Mathlib.Nat.{zero-add}
use py_legacy.Pdi.Listener.Fuel.{drain_total}
use py_legacy.Pdi.Listener.Chunks.{joined, feed-joined, drain_unique}
use py_legacy.Pdi.Listener.Search.{
  index_eop_next, get_elem?_at, IsGuarded, from, Ends, skip_byte, round_packet, Ends-at_eop,
}

plain-ne-eop : (b : ℕ) → is_reserved b ≡ false → (b == pdi_eop) ≡ false
unfolding is_reserved
plain-ne-eop b h = ground arith

plain-ne-stf : (b : ℕ) → is_reserved b ≡ false → (b == pdi_stf) ≡ false
unfolding is_reserved
plain-ne-stf b h = ground arith

stuff-IsGuarded :
    (prev : ℕ) (bs suf : List ℕ) → ((p : ℕ) → IsGuarded p suf) → IsGuarded prev (stuff bs ++ suf)
unfolding stuff
stuff-IsGuarded prev [] suf h = h prev
stuff-IsGuarded prev (b ∷ bs) suf h = elim (Bool-cases (is_reserved b)) [
  | inl e ↦ rw e (λ p. cc, (λ p. refl, stuff-IsGuarded b bs suf h))
  | inr e ↦ rw e (λ p. cc (plain-ne-eop b e), stuff-IsGuarded b bs suf h)
]

abbrev body : List ℕ → List ℕ
body bs = sent_stream bs ++ sent_check bs ∷ []

end-IsGuarded :
    (c : Bool) (x p : ℕ)
    → is_reserved x ≡ false
    → IsGuarded p ((if c then pdi_stf ∷ [] else []) ++ x ∷ [])
end-IsGuarded true x p h = (λ e. cc, (λ e. cc (plain-ne-eop x h), tt))
end-IsGuarded false x p h = (λ e. cc (plain-ne-eop x h), tt)

body-IsGuarded : (prev : ℕ) (bs : List ℕ) → IsGuarded prev (body bs)
body-IsGuarded prev bs = rw append_assoc (
    stuff-IsGuarded prev bs _
      (λ p. end-IsGuarded (collides bs) (sent_check bs) p (sent_check-plain bs)))

take_two :
    (xs ys : List ℕ) (a b : ℕ) → take (suc (suc (length xs))) (xs ++ a ∷ b ∷ ys) ≡ xs ++ a ∷ b ∷ []
take_two [] ys a b = refl
take_two (x ∷ xs) ys a b = ap (◌∷◌ x) (take_two xs ys a b)

drop_two : (xs ys : List ℕ) (a b : ℕ) → drop (suc (suc (length xs))) (xs ++ a ∷ b ∷ ys) ≡ ys
drop_two [] ys a b = refl
drop_two (x ∷ xs) ys a b = drop_two xs ys a b

-- The search ends at the EOP of a frame, whose checksum is no stuff byte.
frame-Ends :
    (stream rest : List ℕ) (check m : ℕ) (ps : List (List ℕ)) (l : Listener)
    → is_reserved check ≡ false
    → drain m (record { bytes = rest; search_from = 0 }) ≡ some (ps, l)
    → Ends
        (stream ++ check ∷ pdi_eop ∷ rest)
        ((pdi_sop ∷ (stream ++ check ∷ pdi_eop ∷ [])) ∷ ps, l)
        (suc (suc (length stream)))
unfolding after_round
frame-Ends stream rest check m ps l z h =
    let tail = stream ++ check ∷ pdi_eop ∷ rest in
    let i = suc (suc (length stream)) in
    let r : List (List ℕ) × Listener = ((pdi_sop ∷ (stream ++ check ∷ pdi_eop ∷ [])) ∷ ps, l) in
    let rd =
      round_packet tail r i (suc (length stream)) check
        (index_eop_next (pdi_sop ∷ stream) rest check pdi_eop) refl (omega arith)
        (get_elem?_at (pdi_sop ∷ stream) (pdi_eop ∷ rest) check) (plain-ne-stf check z) in
    let cut : after_round (drain m) (from tail r i) (round_of (pdi_sop ∷ tail) i) ≡ some r = rw rd (
      rw (take_two stream rest check pdi_eop, drop_two stream rest check pdi_eop)
        (rw (h, after_round))) in
    (m, unfold drain in cut, rw rd tt)

-- The frame at the front is cut off as one packet, and the loop goes on behind it.
drain-frame :
    (bs rest : List ℕ) (m : ℕ) (ps : List (List ℕ)) (l : Listener)
    → drain m (record { bytes = rest; search_from = 0 }) ≡ some (ps, l)
    → (k : ℕ) × (drain k (record { bytes = to_frame bs ++ rest; search_from = 0 })
        ≡ some (to_frame bs ∷ ps, l))
drain-frame bs rest m ps l h =
    let stream = sent_stream bs in
    let check = sent_check bs in
    let tail = stream ++ check ∷ pdi_eop ∷ rest in
    let r : List (List ℕ) × Listener = ((pdi_sop ∷ (stream ++ check ∷ pdi_eop ∷ [])) ∷ ps, l) in
    let last = frame-Ends stream rest check m ps l (sent_check-plain bs) h in
    let n : length (body bs) ≡ suc (length stream) =
      omega (arith, length-append stream (check ∷ [])) in
    let first =
      Ends-at_eop tail r (body bs) [] pdi_sop (pdi_eop ∷ rest)
        (ap (◌∷◌ pdi_sop) (sym (append_assoc stream (check ∷ []) (pdi_eop ∷ rest))))
        (body-IsGuarded pdi_sop bs) (rw (zero-add, n) last) in
    let (k, d, g) = skip_byte tail r 0 (unfold index_eop in refl) first in
    (suc k, rw frame_sent (rw (append_assoc stream (check ∷ pdi_eop ∷ []) rest) d))
  where
    frame_sent : to_frame bs ≡ pdi_sop ∷ (sent_stream bs ++ sent_check bs ∷ pdi_eop ∷ [])
    frame_sent = unfold to_frame in rw (calculate_checksum-send bs)

-- Bytes outside a packet: none is SOP.
abbrev pub IsNoise : List ℕ → Type 0
IsNoise = All (λ b. (b == pdi_sop) ≡ false)

drain-noise :
    (noise rest : List ℕ) (m : ℕ) (r : List (List ℕ) × Listener)
    → IsNoise noise
    → drain m (record { bytes = rest; search_from = 0 }) ≡ some r
    → (k : ℕ) × (drain k (record { bytes = noise ++ rest; search_from = 0 }) ≡ some r)
drain-noise [] rest m r q h = (m, h)
drain-noise (b ∷ noise) rest m r (q, qs) h =
    let (k, d) = drain-noise noise rest m r qs h in (suc k, skip k d)
  where
    skip :
        (k : ℕ)
        → drain k (record { bytes = noise ++ rest; search_from = 0 }) ≡ some r
        → drain (suc k) (record { bytes = b ∷ (noise ++ rest); search_from = 0 }) ≡ some r
    skip k d = unfold drain in rw q d

-- Frames, each with noise before it.
abbrev pub wire : List (List ℕ × List ℕ) → List ℕ
wire [] = []
wire ((noise, bs) ∷ rest) = noise ++ (to_frame bs ++ wire rest)

abbrev pub frames : List (List ℕ × List ℕ) → List (List ℕ)
frames [] = []
frames ((noise, bs) ∷ rest) = to_frame bs ∷ frames rest

abbrev pub listening : Listener
listening = record { bytes = []; search_from = 0 }

drain-wire :
    (w : List (List ℕ × List ℕ))
    → All (λ p. IsNoise p.0) w
    → (k : ℕ) × (drain k (record { bytes = wire w; search_from = 0 }) ≡ some (frames w, listening))
drain-wire [] q = (1, unfold drain in refl)
drain-wire ((noise, bs) ∷ w) (q, qs) =
    let (k, d) = drain-wire w qs in
    let (j, e) = drain-frame bs (wire w) k (frames w) listening d in
    drain-noise noise (to_frame bs ++ wire w) j (to_frame bs ∷ frames w, listening) q e

-- Frames with noise between them, received in chunks of any size, come out one packet for each
-- frame, in order, and nothing is left over.
pub feed-wire :
    (w : List (List ℕ × List ℕ)) (chunks : List (List ℕ))
    → All (λ p. IsNoise p.0) w
    → joined chunks ≡ wire w
    → feed listening chunks ≡ some (frames w, listening)
feed-wire w chunks q e =
    let (k, d) = drain-wire w q in
    let start : Listener = offer listening (joined chunks) in
    let (r, t) = drain_total start in
    let d' : drain k start ≡ some (frames w, listening) = unfold offer in rw e d in
    feed-joined chunks listening (unfold drain in refl)
    ∙ (t ∙ ap some (drain_unique (fuel_for start) k start r (frames w, listening) t d'))
