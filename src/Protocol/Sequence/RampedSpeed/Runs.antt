-- ===== src/Protocol/Sequence/RampedSpeed/Runs.antt =====
-- Concrete runs of ramped speeds: the theorems at one engine.
use py_legacy.Common.{
  ℕ, true, false, ◌≡◌, ◌≤◌, refl, none, some, [], ◌∷◌, All, ltb, if◌then◌else◌, arith,
}
use py_legacy.Protocol.Sequence.RampedSpeed.{requests, increment, ramp, goal_speed, range_up}
use py_legacy.Protocol.Sequence.Request.{EngineState, number, min, decode_rr_speed}
use py_legacy.Protocol.Sequence.RampedSpeed.Speeds.{IsGradual, speeds_of, requests-IsGradual}
use py_legacy.Protocol.Sequence.RampedSpeed.Labor.{labor_after, requests-labor_after}
use py_legacy.Protocol.Sequence.RampedSpeed.Valid.{IsValid, requests-IsValid}

-- `TMCC2_SPEED_TO_RPM`
abbrev speed_to_rpm : ℕ → ℕ
speed_to_rpm s =
    if ltb s 4
    then 0
    else if ltb s 29
    then 1
    else if ltb s 57
    then 2
    else if ltb s 86
    then 3
    else if ltb s 114
    then 4
    else if ltb s 143
    then 5
    else if ltb s 171
    then 6
    else 7

speed_to_rpm_le : (s : ℕ) → s ≤ 199 → speed_to_rpm s ≤ 7
speed_to_rpm_le s h = ground arith

abbrev legacy_engine : EngineState
legacy_engine = record {
  is_legacy = true;
  speed = some 20;
  speed_max = 150;
  is_ramping = false;
  is_rpm = false;
  rpm = 0;
  labor = 12;
  momentum = some 4;
}

abbrev tmcc_engine : EngineState
tmcc_engine = record legacy_engine {
  is_legacy = false;
  speed = some 3;
  speed_max = 31;
  momentum = none;
}

-- A TMCC1 engine that slows down is sent a labor of Legacy, and does not get its labor back.
tmcc_labor :
    labor_after 12
      (requests speed_to_rpm (some (record tmcc_engine { speed = some 31 })) 7 (number 0) false)
    ≡ 10
unfolding requests
tmcc_labor = refl

-- The last step downwards may be one more than the increment.
tmcc_speeds :
    speeds_of
      (requests speed_to_rpm (some (record tmcc_engine { speed = some 5 })) 7 (number 2) false)
    ≡ 4 ∷ 2 ∷ []
unfolding requests
tmcc_speeds = refl

requests-IsGradual_example :
    IsGradual
      (increment legacy_engine)
      20
      (speeds_of (requests speed_to_rpm (some legacy_engine) 7 (number 30) false))
      (min (goal_speed (some legacy_engine) (number 30) false) 150)
requests-IsGradual_example =
    requests-IsGradual speed_to_rpm legacy_engine 7 (number 30) false 20 refl refl

requests-labor_after_example :
    labor_after 12 (requests speed_to_rpm (some legacy_engine) 7 (number 30) false) ≡ 12
unfolding goal_speed ramp increment range_up decode_rr_speed
requests-labor_after_example =
    requests-labor_after speed_to_rpm legacy_engine 7 (number 30) false 20 refl refl

requests-IsValid_example :
    All IsValid (requests speed_to_rpm (some legacy_engine) 7 (number 30) false)
requests-IsValid_example =
    requests-IsValid speed_to_rpm legacy_engine 7 (number 30) false 20 speed_to_rpm_le refl refl
      (omega arith) (omega arith) (omega arith)
