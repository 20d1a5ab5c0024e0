-- ===== src/Pdi/Asc2/Wire.antt =====
-- From the wire to the requests of the ASC2: the PDI listener and `Asc2Req` together (pdi/pdi_listener.py,
-- pdi/asc2_req.py).
use py_legacy.Common.{ℕ, ◌≡◌, refl, some, List, [], ◌∷◌, map, All, Result, ok}
use py_legacy.Pdi.Lcs.{direction_code}
use py_legacy.Pdi.Listener.{feed}
use py_legacy.Pdi.Listener.Chunks.{joined}
use py_legacy.Pdi.Listener.Frames.{IsNoise, wire, frames, listening, feed-wire}
use py_legacy.Pdi.Asc2.{Asc2Req, action_code, asc2_get, asc2_bytes, receive_asc2}
use py_legacy.Pdi.Asc2.RoundTrip.{content, told, blank, IsCarried, frame_of, carried_lem}

-- Requests with noise before each.
abbrev pub Traffic : Type 0
Traffic = List (List ℕ × Asc2Req)

abbrev pub sent : Traffic → List (List ℕ × List ℕ)
sent [] = []
sent ((noise, r) ∷ w) =
    (
      noise,
      direction_code asc2_get r.direction ∷ r.tmcc_id ∷ action_code r.action ∷ content r r.action,
    )
    ∷ sent w

abbrev pub seen : List ℕ × Asc2Req → Result Asc2Req
seen (noise, r) = ok (told r r.action (blank r (frame_of r)))

sent-IsNoise : (w : Traffic) → All (λ p. IsNoise p.0) w → All (λ p. IsNoise p.0) (sent w)
sent-IsNoise [] q = tt
sent-IsNoise ((noise, r) ∷ w) (q, qs) = (q, sent-IsNoise w qs)

frames-sent :
    (w : Traffic)
    → All (λ p. IsCarried p.1) w
    → (map (λ p. asc2_bytes p.1) w ≡ map ok (frames (sent w)))
      × (map receive_asc2 (frames (sent w)) ≡ map seen w)
frames-sent [] q = (refl, refl)
frames-sent ((noise, r) ∷ w) (c, cs) =
    let (out, back) = carried_lem r c in
    let (outs, backs) = frames-sent w cs in ((λ i. out i ∷ outs i), (λ i. back i ∷ backs i))

-- New requests to the ASC2 or its reports, for addresses up to 99, with a configuration that has a mode or
-- with CONTROL1, CONTROL2, CONTROL4 or CONTROL5, whose values fit into bytes, and no stuff byte of whose
-- data stands at its end or before a reserved byte: sent with noise between them and received in
-- chunks of any size, they come out of the listener as their frames, in order, and each frame is read
-- with the values that its request sends.
pub feed-asc2 :
    (w : Traffic) (chunks : List (List ℕ))
    → All (λ p. IsNoise p.0) w
    → All (λ p. IsCarried p.1) w
    → joined chunks ≡ wire (sent w)
    → (ps : List (List ℕ)) × (feed listening chunks ≡ some (ps, listening))
      × (map (λ p. asc2_bytes p.1) w ≡ map ok ps)
      × (map receive_asc2 ps ≡ map seen w)
feed-asc2 w chunks q c e =
    let (outs, backs) = frames-sent w c in
    (frames (sent w), feed-wire (sent w) chunks (sent-IsNoise w q) e, outs, backs)
