-- ===== src/Pdi/Asc2/Thru.antt =====
-- The two ways in which a request to a switch of the ASC2 tells its position (pdi/asc2_req.py).
use mathlib.Core.Path.{subst}
use py_legacy.Common.{
  ℕ, ◌≡◌, refl, ◌∙◌, Bool, true, false, not, ◌&&◌, none, some, List, ◌==◌, leb, ok, Bool-cases, inl,
  inr,
}
use py_legacy.Pdi.Lcs.{optional}
use py_legacy.Pdi.Lcs.Received.{after_ok}
use py_legacy.Pdi.Asc2.{
  Asc2Req, Asc2Action, control4, control5, build_asc2, asc2_bytes, receive_asc2, is_thru,
}
use py_legacy.Pdi.Asc2.RoundTrip.{told, blank, IsCarried, receive_asc2-asc2_bytes}

abbrev pub is_of_switch : Asc2Action → Bool
is_of_switch control4 = true
is_of_switch control5 = true
is_of_switch _ = false

built-thru : (a r : Asc2Req) → build_asc2 a ≡ ok r → r.thru ≡ r.values
unfolding build_asc2
built-thru a r h =
    let last : ok (record a { thru = a.values; original = none }) ≡ ok r =
      (after_ok (optional (λ n. leb 1 n && leb n 8) a.sub_id) _ r (
        after_ok (optional (λ n. leb n 255) a.time) _ r (
          after_ok (optional (λ n. leb n 100) a.delay) _ r
            (after_ok (optional (λ n. leb n 2) a.mode) _ r h)))) in
    let e : record a { thru = a.values; original = none } ≡ r = cc last in
    subst (λ (x : Asc2Req). x.thru ≡ x.values) e refl

told-is_thru :
    (r b : Asc2Req) (a : Asc2Action) (v : ℕ)
    → is_of_switch a ≡ true
    → r.values ≡ some v
    → is_thru (told r a b) ≡ some (not (v == 0))
told-is_thru r b control4 v h e =
    rw e (elim (Bool-cases (v == 0)) [ inl z ↦ rw z refl | inr z ↦ rw z refl ])
told-is_thru r b control5 v h e =
    rw e (elim (Bool-cases (v == 0)) [ inl z ↦ rw z refl | inr z ↦ rw z refl ])
told-is_thru r b _ v h e = absurd (cc h)

-- A request or report of CONTROL4 or CONTROL5 that is built with a value, for an address up to 99, and whose
-- value fits into a byte and is no stuff byte before a reserved one or at the end, says THRU if the value is
-- 0; and the receiver of its frame takes it for THRU if the value is not 0.
pub is_thru-asc2_bytes :
    (a r : Asc2Req) (v : ℕ)
    → build_asc2 a ≡ ok r
    → is_of_switch r.action ≡ true
    → r.values ≡ some v
    → IsCarried r
    → (frame : List ℕ) × (r' : Asc2Req) × (asc2_bytes r ≡ ok frame)
      × (receive_asc2 frame ≡ ok r')
      × (is_thru r ≡ some (v == 0))
      × (is_thru r' ≡ some (not (v == 0)))
is_thru-asc2_bytes a r v built h e c =
    let (frame, sent, got) = receive_asc2-asc2_bytes r c in
    (
      frame,
      told r r.action (blank r frame),
      sent,
      got,
      rw (built-thru a r built ∙ e) refl,
      told-is_thru r (blank r frame) r.action v h e,
    )
