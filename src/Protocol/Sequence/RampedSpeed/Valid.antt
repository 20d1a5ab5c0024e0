-- ===== src/Protocol/Sequence/RampedSpeed/Valid.antt =====
-- The data of every request is in the range that its command takes (protocol/sequence/ramped_speed_req.py).
use py_legacy.Common.{
  ℕ, zero, suc, ◌+◌, ◌-◌, ◌≡◌, ◌≤◌, sym, Bool, true, false, not, ◌&&◌, Option, none, some, List, [],
  ◌∷◌, ◌++◌, ◌==◌, All, ltb, Bool-cases, inl, inr, if◌then◌else◌, arith,
}
use mathlib.Core.Path.{subst}
use py_legacy.Protocol.Sequence.RampedSpeed.{
  when, ramp, range_up, range_down, increment, settle, at_speed, ramp_loop, follow, ramped,
  speed_enum, labor_delta, init_labor, ramped_requests, requests, goal_speed, dialog_req,
}
use py_legacy.Protocol.Sequence.Request.{
  RrSpeed, stop_hold, roll, restricted, slow, medium, limited, normal, highball, EngineState,
  SequencedReq, SpeedCommand, absolute_speed, target_speed, engine_labor, diesel_rpm, tower,
  engineer, req, min, SpeedArg, number, official, dialog_of, decode_rr_speed, first_speed,
}
use py_legacy.Protocol.Sequence.RampedSpeed.Speeds.{requests_known}

-- The `d_max` of each command
abbrev pub data_max : SpeedCommand → ℕ
data_max (absolute_speed t) = if t then 31 else 199
data_max (target_speed t) = if t then 31 else 199
data_max engine_labor = 31
data_max diesel_rpm = 7
data_max _ = 0

abbrev pub IsValid : SequencedReq → Type 0
IsValid r = r.data_of ≤ data_max r.command

append-All : (rs qs : List SequencedReq) → All IsValid rs → All IsValid qs → All IsValid (rs ++ qs)
append-All [] qs h k = k
append-All (r ∷ rs) qs (p, h) k = (p, append-All rs qs h k)

when-All : (b : Bool) (r : SequencedReq) → IsValid r → All IsValid (when b r)
when-All true r h = (h, tt)
when-All false r h = tt

labor_delta_le : (cs goal labor : ℕ) → labor ≤ 31 → labor_delta cs goal labor ≤ 31
unfolding labor_delta
labor_delta_le cs goal labor h = ground arith

range_up_le : (n start goal step : ℕ) → All (λ s. s ≤ goal) (range_up n start (suc goal) step)
unfolding range_up
range_up_le zero start goal step = tt
range_up_le (suc n) start goal step = elim (Bool-cases (ltb start (suc goal))) [
  | inl e ↦ rw e (ground arith, range_up_le n (start + step) goal step)
  | inr e ↦ rw e tt
]

range_down_le :
    (n start stop step bound : ℕ)
    → start ≤ bound
    → All (λ s. s ≤ bound) (range_down n start stop step)
unfolding range_down
range_down_le zero start stop step bound h = tt
range_down_le (suc n) start stop step bound h = elim (Bool-cases (ltb stop start)) [
  | inl e ↦ rw e (h, range_down_le n (start - step) stop step bound (omega arith))
  | inr e ↦ rw e tt
]

All_le : (a b : ℕ) (xs : List ℕ) → a ≤ b → All (λ s. s ≤ a) xs → All (λ s. s ≤ b) xs
All_le a b [] h k = tt
All_le a b (x ∷ xs) h (p, k) = (omega arith, All_le a b xs h k)

ramp_le :
    (cs goal step bound : ℕ) → cs ≤ bound → goal ≤ bound → All (λ s. s ≤ bound) (ramp cs goal step)
unfolding ramp
ramp_le cs goal step bound h k = elim (Bool-cases (ltb cs goal)) [
  | inl e ↦ rw e (All_le goal bound _ k (range_up_le (suc goal) (cs + step) goal step))
  | inr e ↦ rw e (range_down_le cs (cs - step) (suc goal) step bound (omega arith))
]

dialog_req-All :
    (c : RrSpeed → SpeedCommand) (o : Option RrSpeed) (t : ℕ) → All IsValid (dialog_req c o t)
dialog_req-All c none t = tt
dialog_req-All c (some r) t = (omega arith, tt)

-- The highest speed of an engine
abbrev pub top_speed : EngineState → ℕ
top_speed e = if e.is_legacy then 199 else 31

top_speed_lem : (e : EngineState) → top_speed e ≡ (if not e.is_legacy then 31 else 199)
top_speed_lem e = ground arith

-- A sequence for one engine, whose labor and highest speeds are in range
module _ (rpm_of : ℕ → ℕ) (e : EngineState) (rpm_le : (s : ℕ) → s ≤ 199 → rpm_of s ≤ 7)
    (labor_le : e.labor ≤ 31) where
  init_le : init_labor rpm_of e ≤ 31
  init_le = elim (Bool-cases e.is_ramping) [ inl h ↦ rw h (omega arith) | inr h ↦ rw h labor_le ]

  top_le : top_speed e ≤ 199
  top_le = ground arith

  speed-IsValid : (s t : ℕ) → s ≤ top_speed e → IsValid (req (speed_enum rpm_of e) s t)
  speed-IsValid s t h = ground (arith, top_speed_lem e)

  settle-All :
      (goal delay c_rpm : ℕ) → goal ≤ top_speed e → All IsValid (settle rpm_of e goal delay c_rpm)
  unfolding settle
  settle-All goal delay c_rpm h = (
    speed-IsValid goal delay h,
    append-All (when e.is_legacy (req engine_labor (init_labor rpm_of e) delay)) _
        (when-All _ _ init_le)
        (when-All _ (req diesel_rpm (rpm_of goal) delay) (rpm_le goal (omega (arith, top_le)))),
  )

  at_speed-All :
      (rising : Bool) (goal speed delay c_labor c_rpm : ℕ)
      → speed ≤ top_speed e
      → All IsValid (at_speed rpm_of e rising goal speed delay c_labor c_rpm)
  unfolding at_speed
  at_speed-All rising goal speed delay c_labor c_rpm h =
      let labor : ℕ = labor_delta speed goal (init_labor rpm_of e) in
      (
        speed-IsValid speed delay h,
        append-All (when (e.is_legacy && not (labor == c_labor)) (req engine_labor labor delay)) _
            (when-All _ _ (labor_delta_le speed goal (init_labor rpm_of e) init_le))
            (when-All _ (req diesel_rpm (rpm_of speed) delay)
              (rpm_le speed (omega (arith, top_le)))),
      )

  ramp_loop-All :
      (rising : Bool) (goal : ℕ) (ss : List ℕ) (delay c_labor c_rpm : ℕ)
      → goal ≤ top_speed e
      → All (λ s. s ≤ top_speed e) ss
      → All IsValid (ramp_loop rpm_of e rising goal ss delay c_labor c_rpm).0
  unfolding ramp_loop
  ramp_loop-All rising goal [] delay c_labor c_rpm h k = settle-All goal delay c_rpm h
  ramp_loop-All rising goal (s ∷ ss) delay c_labor c_rpm h (p, k) =
      append-All (at_speed rpm_of e rising goal s delay c_labor c_rpm) _
        (at_speed-All rising goal s delay c_labor c_rpm p) (ramp_loop-All rising goal ss _ _ _ h k)

  follow-All :
      (cs goal : ℕ) (ss : List ℕ)
      → goal ≤ top_speed e
      → All (λ s. s ≤ top_speed e) ss
      → All IsValid (follow rpm_of e cs goal ss).0
  unfolding follow
  follow-All cs goal [] h k = (speed-IsValid goal 0 h, tt)
  follow-All cs goal (s ∷ ss) h k = (
    labor_delta_le cs goal (init_labor rpm_of e) init_le,
    append-All (when (e.is_legacy && (ltb goal cs && e.is_rpm)) (req diesel_rpm (rpm_of goal) 100))
        _ (when-All _ _ (rpm_le goal (omega (arith, top_le))))
        (ramp_loop-All (ltb cs goal) goal (s ∷ ss) 100 _ _ h k),
  )

min_le : (a b c : ℕ) → a ≤ c → min a b ≤ c
min_le a b c h = ground arith

first_speed_le : (t : Bool) (r : RrSpeed) → first_speed t r ≤ 199
unfolding first_speed
first_speed_le true stop_hold = omega arith
first_speed_le true roll = omega arith
first_speed_le true restricted = omega arith
first_speed_le true slow = omega arith
first_speed_le true medium = omega arith
first_speed_le true limited = omega arith
first_speed_le true normal = omega arith
first_speed_le true highball = omega arith
first_speed_le false stop_hold = omega arith
first_speed_le false roll = omega arith
first_speed_le false restricted = omega arith
first_speed_le false slow = omega arith
first_speed_le false medium = omega arith
first_speed_le false limited = omega arith
first_speed_le false normal = omega arith
first_speed_le false highball = omega arith

-- The number that a speed stands for
sanitized_le :
    (e : EngineState) (s : ℕ)
    → e.speed_max ≤ top_speed e
    → (if not e.is_legacy then min s 31 else if ltb 199 s then e.speed_max else s) ≤ top_speed e
sanitized_le e s h = ground arith

goal_speed_le :
    (e : EngineState) (a : SpeedArg) (dialog : Bool)
    → e.speed_max ≤ top_speed e
    → goal_speed (some e) a dialog ≤ top_speed e
unfolding goal_speed decode_rr_speed
goal_speed_le e (number n) true h = sanitized_le e n h
goal_speed_le e (number n) false h = min_le _ n (top_speed e) (sanitized_le e n h)
goal_speed_le e (official t r) true h = sanitized_le e (first_speed t r) h
goal_speed_le e (official t r) false h = sanitized_le e (first_speed t r) h

-- Every request that brings an engine from a known speed to another one carries data in the range of its
-- command: speeds up to 31 for TMCC1 and 199 for Legacy, labor up to 31 and RPM up to 7. The conditions
-- are that one engine is addressed, that the speed, the maximum and the labor that the state has are in
-- range, and that the map of the RPM gives at most 7 for speeds up to 199.
pub requests-IsValid :
    (rpm_of : ℕ → ℕ) (e : EngineState) (address : ℕ) (a : SpeedArg) (dialog : Bool) (cs : ℕ)
    → ((s : ℕ) → s ≤ 199 → rpm_of s ≤ 7)
    → (address == 99) ≡ false
    → e.speed ≡ some cs
    → cs ≤ top_speed e
    → e.speed_max ≤ top_speed e
    → e.labor ≤ 31
    → All IsValid (requests rpm_of (some e) address a dialog)
unfolding ramped_requests ramped
requests-IsValid rpm_of e address a dialog cs rpm_le h k cs_le max_le labor_le =
    let goal : ℕ = goal_speed (some e) a dialog in
    let goal_le = goal_speed_le e a dialog max_le in
    let least : ℕ = min goal e.speed_max in
    let said : Option RrSpeed = if dialog then dialog_of (decode_rr_speed (some e) a).0 else none in
    let rs = follow rpm_of e cs least (ramp cs least (increment e)) in
    subst (All IsValid) (sym (requests_known rpm_of e address a dialog cs h k)) (
      append-All (req (target_speed (not e.is_legacy)) goal 0 ∷ dialog_req tower said 0) _
        (ground (arith, top_speed_lem e, goal_le), dialog_req-All tower said 0)
        (append-All rs.0 _
          (follow-All rpm_of e rpm_le labor_le cs least (ramp cs least (increment e))
            (min_le goal e.speed_max (top_speed e) goal_le)
            (ramp_le cs least (increment e) (top_speed e) cs_le
              (min_le goal e.speed_max (top_speed e) goal_le)))
          (dialog_req-All engineer said _)))
