-- ===== src/Protocol/Sequence/RampedSpeed/Labor.antt =====
-- What a ramp does to the labor of the engine (protocol/sequence/ramped_speed_req.py).
use py_legacy.Common.{
  ℕ, ◌≡◌, refl, ap, ◌∙◌, Bool, true, false, not, ◌&&◌, Option, none, some, List, [], ◌∷◌, ◌++◌,
  ◌==◌, ltb, Bool-cases, inl, inr, if◌then◌else◌,
}
use py_legacy.Protocol.Sequence.RampedSpeed.{
  when, ramp, increment, settle, at_speed, ramp_loop, follow, ramped, labor_delta, init_labor,
  ramped_requests, requests, goal_speed, dialog_req,
}
use py_legacy.Protocol.Sequence.Request.{
  RrSpeed, EngineState, SequencedReq, SpeedCommand, engine_labor, diesel_rpm, tower, engineer, req,
  min, SpeedArg,
}
use py_legacy.Protocol.Sequence.RampedSpeed.Speeds.{requests_known}

-- The labor that the engine has once the requests are carried out
abbrev pub labored : ℕ → SpeedCommand → ℕ → ℕ
labored l engine_labor d = d
labored l _ d = l

abbrev pub labor_after : ℕ → List SequencedReq → ℕ
labor_after l [] = l
labor_after l (r ∷ rs) = labor_after (labored l r.command r.data_of) rs

labor_after-append :
    (l : ℕ) (rs qs : List SequencedReq)
    → labor_after l (rs ++ qs) ≡ labor_after (labor_after l rs) qs
labor_after-append l [] qs = refl
labor_after-append l (r ∷ rs) qs = labor_after-append (labored l r.command r.data_of) rs qs

labor_after-rpm : (l : ℕ) (b : Bool) (d t : ℕ) → labor_after l (when b (req diesel_rpm d t)) ≡ l
labor_after-rpm l true d t = refl
labor_after-rpm l false d t = refl

labor_after-tower : (l : ℕ) (o : Option RrSpeed) (t : ℕ) → labor_after l (dialog_req tower o t) ≡ l
labor_after-tower l none t = refl
labor_after-tower l (some r) t = refl

labor_after-engineer :
    (l : ℕ) (o : Option RrSpeed) (t : ℕ) → labor_after l (dialog_req engineer o t) ≡ l
labor_after-engineer l none t = refl
labor_after-engineer l (some r) t = refl

-- A sequence for one engine
module _ (rpm_of : ℕ → ℕ) (e : EngineState) where
  abbrev init : ℕ
  init = init_labor rpm_of e

  settle-labor :
      (l goal delay c_rpm : ℕ)
      → labor_after l (settle rpm_of e goal delay c_rpm) ≡ (if e.is_legacy then init else l)
  unfolding settle
  settle-labor l goal delay c_rpm = elim (Bool-cases e.is_legacy) [
    | inl h ↦
        rw h (labor_after-rpm init (e.is_rpm && not (rpm_of goal == c_rpm)) (rpm_of goal) delay)
    | inr h ↦ rw h refl
  ]

  ramp_loop-labor :
      (l : ℕ) (rising : Bool) (goal : ℕ) (ss : List ℕ) (delay c_labor c_rpm : ℕ)
      → labor_after l (ramp_loop rpm_of e rising goal ss delay c_labor c_rpm).0
        ≡ (if e.is_legacy then init else l)
  unfolding ramp_loop
  ramp_loop-labor l rising goal [] delay c_labor c_rpm = settle-labor l goal delay c_rpm
  ramp_loop-labor l rising goal (s ∷ ss) delay c_labor c_rpm =
      labor_after-append l (at_speed rpm_of e rising goal s delay c_labor c_rpm) _
      ∙ ramp_loop-labor (labor_after l (at_speed rpm_of e rising goal s delay c_labor c_rpm)) rising
          goal ss _ _ _
      ∙ elim (Bool-cases e.is_legacy) [ inl h ↦ rw h refl | inr h ↦ rw h refl ]

  -- The labor afterwards, by the speeds in between.
  abbrev pub labor_left : ℕ → ℕ → List ℕ → ℕ
  labor_left cs goal [] = e.labor
  labor_left cs goal (s ∷ ss) = if e.is_legacy then init else labor_delta cs goal init

  follow-labor :
      (cs goal : ℕ) (ss : List ℕ)
      → labor_after e.labor (follow rpm_of e cs goal ss).0 ≡ labor_left cs goal ss
  unfolding follow
  follow-labor cs goal [] = refl
  follow-labor cs goal (s ∷ ss) =
      let slowing : Bool = e.is_legacy && (ltb goal cs && e.is_rpm) in
      let labor : ℕ = labor_delta cs goal init in
      let c_rpm : ℕ = if slowing then rpm_of goal else if e.is_ramping then 0 else e.rpm in
      let rs : List SequencedReq =
        (ramp_loop rpm_of e (ltb cs goal) goal (s ∷ ss) 100 labor c_rpm).0 in
      labor_after-append labor (when slowing (req diesel_rpm (rpm_of goal) 100)) rs
      ∙ ap (λ l. labor_after l rs) (labor_after-rpm labor slowing (rpm_of goal) 100)
      ∙ ramp_loop-labor labor (ltb cs goal) goal (s ∷ ss) 100 labor c_rpm

  ramped_requests-labor :
      (cs : ℕ) (dialog : Bool) (said : Option RrSpeed) (goal : ℕ)
      → labor_after e.labor (ramped_requests rpm_of e cs dialog said goal)
        ≡ labor_left cs (min goal e.speed_max) (ramp cs (min goal e.speed_max) (increment e))
  unfolding ramped_requests ramped
  ramped_requests-labor cs dialog said goal =
      let told = if dialog then said else none in
      let r = ramped rpm_of e cs (min goal e.speed_max) in
      let late : ℕ = if ltb r.1 2000 then 2500 else r.1 in
      labor_after-append e.labor (dialog_req tower told 0) (r.0 ++ dialog_req engineer told late)
      ∙ ap (λ l. labor_after l (r.0 ++ dialog_req engineer told late))
          (labor_after-tower e.labor told 0)
      ∙ labor_after-append e.labor r.0 (dialog_req engineer told late)
      ∙ labor_after-engineer (labor_after e.labor r.0) told late
      ∙ follow-labor cs (min goal e.speed_max) (ramp cs (min goal e.speed_max) (increment e))

-- What labor an engine has once the requests for a speed are carried out, from the labor that its state
-- has. If no speed lies in between, it is left as it is. Otherwise a Legacy engine has the labor of its
-- state again, or 12 if a ramp was under way; an engine that is not Legacy is left with that
-- which the ramp starts with, which is `labor_delta` of the whole change of speed. The conditions
-- are that one engine is addressed, and that its speed is known.
pub requests-labor_after :
    (rpm_of : ℕ → ℕ) (e : EngineState) (address : ℕ) (a : SpeedArg) (dialog : Bool) (cs : ℕ)
    → (address == 99) ≡ false
    → e.speed ≡ some cs
    → let goal = min (goal_speed (some e) a dialog) e.speed_max in
      labor_after e.labor (requests rpm_of (some e) address a dialog)
      ≡ labor_left rpm_of e cs goal (ramp cs goal (increment e))
requests-labor_after rpm_of e address a dialog cs h k =
    ap (labor_after e.labor) (requests_known rpm_of e address a dialog cs h k)
    ∙ ramped_requests-labor rpm_of e cs dialog _ (goal_speed (some e) a dialog)
