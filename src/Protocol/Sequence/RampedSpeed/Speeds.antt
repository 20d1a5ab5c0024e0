-- ===== src/Protocol/Sequence/RampedSpeed/Speeds.antt =====
-- The speeds that a ramp asks for, one after the other (protocol/sequence/ramped_speed_req.py).
use py_legacy.Common.{
  ℕ, zero, suc, ◌+◌, ◌-◌, ◌≤◌, ◌<◌, ◌≡◌, refl, sym, ap, ◌∙◌, Bool, true, false, not, ◌&&◌, Option,
  none, some, List, [], ◌∷◌, ◌++◌, ◌==◌, ltb, Bool-cases, Option-cases, inl, inr, append_assoc,
  append-nil, if◌then◌else◌, arith,
}
use mathlib.Core.Path.{subst, ap₂}
use py_legacy.Protocol.Sequence.RampedSpeed.{
  when, range_up, range_down, ramp, increment, settle, at_speed, ramp_loop, follow, ramped,
  labor_delta, init_labor, ramped_requests, requests, goal_speed, dialog_req,
}
use py_legacy.Protocol.Sequence.Request.{
  RrSpeed, EngineState, SequencedReq, SpeedCommand, absolute_speed, engine_labor, diesel_rpm, tower,
  engineer, req, min, SpeedArg, dialog_of, decode_rr_speed,
}

-- The speeds that are asked for
abbrev pub asked : SpeedCommand → ℕ → List ℕ
asked (absolute_speed t) d = d ∷ []
asked _ d = []

abbrev pub speeds_of : List SequencedReq → List ℕ
speeds_of [] = []
speeds_of (r ∷ rs) = asked r.command r.data_of ++ speeds_of rs

-- From `x` up to `goal`, in steps of at most `step`
abbrev pub IsClimb : ℕ → ℕ → List ℕ → ℕ → Type 0
IsClimb step x [] goal = x ≡ goal
IsClimb step x (s ∷ ss) goal = (x ≤ s) × (s ≤ x + step) × IsClimb step s ss goal

-- From `x` down to `goal`; the last step may be one more.
abbrev pub slack : List ℕ → ℕ
slack [] = 1
slack (s ∷ ss) = 0

abbrev pub IsDescent : ℕ → ℕ → List ℕ → ℕ → Type 0
IsDescent step x [] goal = x ≡ goal
IsDescent step x (s ∷ ss) goal = (s ≤ x) × (x ≤ s + step + slack ss) × IsDescent step s ss goal

range_up-IsClimb :
    (n x goal step : ℕ)
    → suc goal ≤ n + (x + step)
    → x ≤ goal
    → 0 < step
    → IsClimb step x (range_up n (x + step) (suc goal) step ++ goal ∷ []) goal
unfolding range_up
range_up-IsClimb zero x goal step h k p = (omega arith, omega arith, refl)
range_up-IsClimb (suc n) x goal step h k p = elim (Bool-cases (ltb (x + step) (suc goal))) [
  | inl e ↦ rw e (
    omega arith,
    omega arith,
    range_up-IsClimb n (x + step) goal step (omega arith) (ground arith) p,
  )
  | inr e ↦ rw e (omega arith, ground arith, refl)
]

range_down-IsDescent :
    (n x goal step : ℕ)
    → x - step ≤ n
    → goal ≤ x
    → 0 < step
    → IsDescent step x (range_down n (x - step) (suc goal) step ++ goal ∷ []) goal
unfolding range_down
range_down-IsDescent zero x goal step h k p = (omega arith, omega arith, refl)
range_down-IsDescent (suc n) x goal step h k p = elim (Bool-cases (ltb (suc goal) (x - step))) [
  | inl e ↦ rw e (
    omega arith,
    ground arith,
    range_down-IsDescent n (x - step) goal step (omega arith) (ground arith) p,
  )
  | inr e ↦ rw e (omega arith, ground arith, refl)
]

-- Up or down, from the speed `cs`
abbrev pub IsToward : Bool → ℕ → ℕ → List ℕ → ℕ → Type 0
IsToward true step cs ss goal = IsClimb step cs ss goal
IsToward false step cs ss goal = IsDescent step cs ss goal

abbrev pub IsGradual : ℕ → ℕ → List ℕ → ℕ → Type 0
IsGradual step cs ss goal = IsToward (ltb cs goal) step cs ss goal

increment_pos : (e : EngineState) → 0 < increment e
unfolding increment
increment_pos e = elim (Bool-cases e.is_legacy) [
  | inr l ↦ rw l (omega arith)
  | inl l ↦ rw l (elim (Option-cases e.momentum) [
    | inl n ↦ rw n (omega arith)
    | inr (m, n) ↦ rw n (ground arith)
  ])
]

ramp-IsGradual :
    (cs goal step : ℕ)
    → 0 < step
    → IsToward (ltb cs goal) step cs (ramp cs goal step ++ goal ∷ []) goal
unfolding ramp
ramp-IsGradual cs goal step p = elim (Bool-cases (ltb cs goal)) [
  | inl e ↦ rw e (range_up-IsClimb (suc goal) cs goal step (omega arith) (ground arith) p)
  | inr e ↦ rw e (range_down-IsDescent cs cs goal step (omega arith) (ground arith) p)
]

speeds_of-append : (rs qs : List SequencedReq) → speeds_of (rs ++ qs) ≡ speeds_of rs ++ speeds_of qs
speeds_of-append [] qs = refl
speeds_of-append (r ∷ rs) qs =
    ap (λ xs. asked r.command r.data_of ++ xs) (speeds_of-append rs qs)
    ∙ sym (append_assoc (asked r.command r.data_of) (speeds_of rs) (speeds_of qs))

-- What goes with a speed asks for none.
quiet-when :
    (b : Bool) (c : SpeedCommand) (d t : ℕ) → asked c d ≡ [] → speeds_of (when b (req c d t)) ≡ []
quiet-when true c d t h = rw h refl
quiet-when false c d t h = refl

quiet-dialog :
    (c : RrSpeed → SpeedCommand) (o : Option RrSpeed) (t : ℕ)
    → ((r : RrSpeed) → asked (c r) 0 ≡ [])
    → speeds_of (dialog_req c o t) ≡ []
quiet-dialog c none t h = refl
quiet-dialog c (some r) t h = rw (h r) refl

-- A sequence for one engine
module _ (rpm_of : ℕ → ℕ) (e : EngineState) where
  settle-speeds : (goal delay c_rpm : ℕ) → speeds_of (settle rpm_of e goal delay c_rpm) ≡ goal ∷ []
  unfolding settle
  settle-speeds goal delay c_rpm =
      ap (λ xs. goal ∷ xs)
        (speeds_of-append (when e.is_legacy (req engine_labor (init_labor rpm_of e) delay)) _
          ∙ ap₂ (λ xs ys. xs ++ ys)
              (quiet-when e.is_legacy engine_labor (init_labor rpm_of e) delay refl)
              (quiet-when (e.is_legacy && (e.is_rpm && not (rpm_of goal == c_rpm))) diesel_rpm
                (rpm_of goal) delay refl))

  at_speed-speeds :
      (rising : Bool) (goal speed delay c_labor c_rpm : ℕ)
      → speeds_of (at_speed rpm_of e rising goal speed delay c_labor c_rpm) ≡ speed ∷ []
  unfolding at_speed
  at_speed-speeds rising goal speed delay c_labor c_rpm =
      let labor : ℕ = labor_delta speed goal (init_labor rpm_of e) in
      let more : Bool = e.is_legacy && not (labor == c_labor) in
      let other : Bool = e.is_legacy && (e.is_rpm && (rising && not (rpm_of speed == c_rpm))) in
      ap (λ xs. speed ∷ xs)
        (speeds_of-append (when more (req engine_labor labor delay))
            (when other (req diesel_rpm (rpm_of speed) delay))
          ∙ ap₂ (λ xs ys. xs ++ ys) (quiet-when more engine_labor labor delay refl)
              (quiet-when other diesel_rpm (rpm_of speed) delay refl))

  ramp_loop-speeds :
      (rising : Bool) (goal : ℕ) (ss : List ℕ) (delay c_labor c_rpm : ℕ)
      → speeds_of (ramp_loop rpm_of e rising goal ss delay c_labor c_rpm).0 ≡ ss ++ goal ∷ []
  unfolding ramp_loop
  ramp_loop-speeds rising goal [] delay c_labor c_rpm = settle-speeds goal delay c_rpm
  ramp_loop-speeds rising goal (speed ∷ rest) delay c_labor c_rpm =
      speeds_of-append (at_speed rpm_of e rising goal speed delay c_labor c_rpm) _
      ∙ ap₂ (λ xs ys. xs ++ ys) (at_speed-speeds rising goal speed delay c_labor c_rpm)
          (ramp_loop-speeds rising goal rest _ _ _)

  follow-speeds :
      (cs goal : ℕ) (ss : List ℕ) → speeds_of (follow rpm_of e cs goal ss).0 ≡ ss ++ goal ∷ []
  unfolding follow
  follow-speeds cs goal [] = refl
  follow-speeds cs goal (s ∷ ss) =
      speeds_of-append
        (when (e.is_legacy && (ltb goal cs && e.is_rpm)) (req diesel_rpm (rpm_of goal) 100)) _
      ∙ ap₂ (λ xs ys. xs ++ ys)
          (quiet-when (e.is_legacy && (ltb goal cs && e.is_rpm)) diesel_rpm (rpm_of goal) 100 refl)
          (ramp_loop-speeds (ltb cs goal) goal (s ∷ ss) 100 _ _)

  ramped_requests-speeds :
      (cs : ℕ) (dialog : Bool) (said : Option RrSpeed) (goal : ℕ)
      → speeds_of (ramped_requests rpm_of e cs dialog said goal)
        ≡ ramp cs (min goal e.speed_max) (increment e) ++ min goal e.speed_max ∷ []
  unfolding ramped_requests ramped
  ramped_requests-speeds cs dialog said goal =
      let told = if dialog then said else none in
      speeds_of-append (dialog_req tower told 0) _
      ∙ ap₂ (λ xs ys. xs ++ ys) (quiet-dialog tower told 0 (λ r. refl))
          (speeds_of-append (ramped rpm_of e cs (min goal e.speed_max)).0 _
            ∙ ap₂ (λ xs ys. xs ++ ys) (follow-speeds cs (min goal e.speed_max) _)
                (quiet-dialog engineer told _ (λ r. refl))
            ∙ append-nil _)

pub requests_known :
    (rpm_of : ℕ → ℕ) (e : EngineState) (address : ℕ) (a : SpeedArg) (dialog : Bool) (cs : ℕ)
    → (address == 99) ≡ false
    → e.speed ≡ some cs
    → requests rpm_of (some e) address a dialog
      ≡ ramped_requests rpm_of e cs dialog
          (dialog_of (decode_rr_speed (some e) a).0)
          (goal_speed (some e) a dialog)
unfolding requests
requests_known rpm_of e address a dialog cs h k = simp (h, k)

-- An engine whose speed is known is brought from it to the speed that is asked for, its maximum at most,
-- in steps that go one way: upwards by at most the increment, downwards by at most the increment, and
-- the last by one more; the last speed that is sent is the goal. The conditions are that one
-- engine is addressed, and that its speed is known.
pub requests-IsGradual :
    (rpm_of : ℕ → ℕ) (e : EngineState) (address : ℕ) (a : SpeedArg) (dialog : Bool) (cs : ℕ)
    → (address == 99) ≡ false
    → e.speed ≡ some cs
    → IsGradual
        (increment e)
        cs
        (speeds_of (requests rpm_of (some e) address a dialog))
        (min (goal_speed (some e) a dialog) e.speed_max)
requests-IsGradual rpm_of e address a dialog cs h k =
    let goal : ℕ = min (goal_speed (some e) a dialog) e.speed_max in
    subst (λ ss. IsGradual (increment e) cs ss goal)
      (sym (
        ap speeds_of (requests_known rpm_of e address a dialog cs h k)
        ∙ ramped_requests-speeds rpm_of e cs dialog _ (goal_speed (some e) a dialog)))
      (ramp-IsGradual cs goal (increment e) (increment_pos e))
