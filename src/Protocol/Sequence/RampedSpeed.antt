-- ===== src/Protocol/Sequence/RampedSpeed.antt =====
-- `RampedSpeedReqBase` (protocol/sequence/ramped_speed_req.py): the requests that bring an engine to a speed.
-- Delays are in milliseconds. The factors of `labor_delta` are taken in units of 1/100000: up to a
-- difference of 399 the floats round to the same numbers. All requests have the address and
-- the scope of the sequence. The map from speeds to RPM, `RangeKeyDict` of a package, is an argument.
pub mod Labor
pub mod Speeds
pub mod Valid
mod Runs
use py_legacy.Common.{
  ℕ, zero, suc, ◌+◌, ◌-◌, ◌*◌, ◌/◌, Bool, true, false, not, ◌&&◌, ◌||◌, Option, none, some, List,
  [], ◌∷◌, ◌++◌, ◌==◌, ltb, leb, if◌then◌else◌,
}
use py_legacy.Protocol.Sequence.Request.{
  EngineState, RrSpeed, SequencedReq, SpeedArg, SpeedCommand, absolute_speed, decode_rr_speed,
  dialog_of, diesel_rpm, engine_labor, engineer, first_speed, highball, is_tmcc1, limited, medium,
  min, normal, number, official, official_speed, req, restricted, roll, rr_speed, slow, stop_hold,
  target_speed, tower,
}

unfoldable pub labor_delta : ℕ → ℕ → ℕ → ℕ
labor_delta cur_speed new_speed cur_labor =
    if ltb cur_speed new_speed
    then min 31 ((9546 * (new_speed - cur_speed) - 4010) / 100000 + cur_labor)
    else if ltb new_speed cur_speed
    then cur_labor - (6030 * (cur_speed - new_speed) + 51052) / 100000
    else cur_labor

-- `range(start, stop, step)` and `range(start, stop, -step)`, of at most as many numbers as the first
-- argument says. A range that goes down stops above 0.
unfoldable pub range_up : ℕ → ℕ → ℕ → ℕ → List ℕ
range_up zero start stop step = []
range_up (suc n) start stop step =
    let rest = range_up n (start + step) stop step in if ltb start stop then start ∷ rest else []

unfoldable pub range_down : ℕ → ℕ → ℕ → ℕ → List ℕ
range_down zero start stop step = []
range_down (suc n) start stop step =
    let rest = range_down n (start - step) stop step in if ltb stop start then start ∷ rest else []

unfoldable pub ramp : ℕ → ℕ → ℕ → List ℕ
unfolding range_up range_down
ramp cs goal inc =
    if ltb cs goal
    then range_up (suc goal) (cs + inc) (suc goal) inc
    else range_down cs (cs - inc) (suc goal) inc

unfoldable pub increment : EngineState → ℕ
increment e =
    if e.is_legacy
    then elim e.momentum [ none ↦ 3 | some m ↦ if leb 6 m then 1 else if leb 4 m then 2 else 3 ]
    else 1

unfoldable pub delay_increment : EngineState → ℕ
delay_increment e = elim e.momentum [
  | none ↦ 200
  | some m ↦ 200 + m * (if e.is_legacy then 10 else 100)
]

abbrev pub when : Bool → SequencedReq → List SequencedReq
when true r = r ∷ []
when false r = []

-- A sequence for one engine
module _ (rpm_of : ℕ → ℕ) (e : EngineState) where
  abbrev pub speed_enum : SpeedCommand
  speed_enum = absolute_speed (not e.is_legacy)

  abbrev pub init_labor : ℕ
  init_labor = if e.is_ramping then 12 else e.labor

  -- After the last speed of the ramp
  unfoldable pub settle : ℕ → ℕ → ℕ → List SequencedReq
  settle goal delay c_rpm =
      req speed_enum goal delay ∷ when e.is_legacy (req engine_labor init_labor delay)
      ++ when (e.is_legacy && (e.is_rpm && not (rpm_of goal == c_rpm)))
          (req diesel_rpm (rpm_of goal) delay)

  -- One speed of the ramp, and the labor and the RPM that go with it
  unfoldable pub at_speed : Bool → ℕ → ℕ → ℕ → ℕ → ℕ → List SequencedReq
  unfolding labor_delta
  at_speed rising goal speed delay c_labor c_rpm =
      req speed_enum speed delay
        ∷ when (e.is_legacy && not (labor_delta speed goal init_labor == c_labor))
            (req engine_labor (labor_delta speed goal init_labor) delay)
      ++ when (e.is_legacy && (e.is_rpm && (rising && not (rpm_of speed == c_rpm))))
          (req diesel_rpm (rpm_of speed) delay)

  -- `for speed in ramp`, with what follows the loop, and the delay after it
  unfoldable pub ramp_loop : Bool → ℕ → List ℕ → ℕ → ℕ → ℕ → List SequencedReq × ℕ
  unfolding at_speed settle delay_increment labor_delta
  ramp_loop rising goal [] delay c_labor c_rpm = (settle goal delay c_rpm, delay)
  ramp_loop rising goal (speed ∷ rest) delay c_labor c_rpm =
      let labor = if e.is_legacy then labor_delta speed goal init_labor else c_labor in
      let rpm = if e.is_legacy && (e.is_rpm && rising) then rpm_of speed else c_rpm in
      let (rs, last) = ramp_loop rising goal rest (delay + delay_increment e) labor rpm in
      (at_speed rising goal speed delay c_labor c_rpm ++ rs, last)

  -- `if ramp`: the speeds from the current one on, or the goal at once
  unfoldable pub follow : ℕ → ℕ → List ℕ → List SequencedReq × ℕ
  unfolding ramp_loop labor_delta
  follow cs goal [] = (req speed_enum goal 0 ∷ [], 100)
  follow cs goal (speed ∷ rest) =
      let c_labor = labor_delta cs goal init_labor in
      let slowing = e.is_legacy && (ltb goal cs && e.is_rpm) in
      let c_rpm = if slowing then rpm_of goal else if e.is_ramping then 0 else e.rpm in
      let (rs, last) = ramp_loop (ltb cs goal) goal (speed ∷ rest) 100 c_labor c_rpm in
      (req engine_labor c_labor 100 ∷ when slowing (req diesel_rpm (rpm_of goal) 100) ++ rs, last)

  unfoldable pub ramped : ℕ → ℕ → List SequencedReq × ℕ
  unfolding ramp increment follow
  ramped cs goal = follow cs goal (ramp cs goal (increment e))

abbrev pub dialog_req : (RrSpeed → SpeedCommand) → Option RrSpeed → ℕ → List SequencedReq
dialog_req c none delay = []
dialog_req c (some r) delay = req (c r) 0 delay ∷ []

-- `SpeedReq`, of a speed that has dialogs
unfoldable pub speed_requests : (ℕ → ℕ) → Bool → SpeedArg → RrSpeed → ℕ → List SequencedReq
speed_requests rpm_of tmcc1 a r s =
    let t : Bool = elim a [ number n ↦ tmcc1 | official t r ↦ t ] in
    req (tower r) 0 0
      ∷ req (official_speed t r) 0 3000
      ∷ when (not tmcc1) (req diesel_rpm (rpm_of s) 4000)
    ++ req (engineer r) 0 6000 ∷ []

-- Without the speed that the engine has
unfoldable pub unramped :
    (ℕ → ℕ) → Option EngineState → ℕ → SpeedArg → Bool → Option RrSpeed → ℕ → ℕ → List SequencedReq
unfolding speed_requests
unramped rpm_of st address a dialog said s goal = elim (if dialog then said else none) [
  | some r ↦ speed_requests rpm_of (is_tmcc1 st) a r s
  | none ↦
      (if address == 99
        then req (absolute_speed true) goal 0 ∷ req (absolute_speed false) goal 0 ∷ []
        else req (absolute_speed (is_tmcc1 st)) goal 0 ∷ [])
      ++ when (address == 99 || not (is_tmcc1 st)) (req diesel_rpm (rpm_of goal) 200)
]

-- With it
unfoldable pub ramped_requests :
    (ℕ → ℕ) → EngineState → ℕ → Bool → Option RrSpeed → ℕ → List SequencedReq
unfolding ramped
ramped_requests rpm_of e cs dialog said goal =
    let (rs, last) = ramped rpm_of e cs (min goal e.speed_max) in
    let said : Option RrSpeed = if dialog then said else none in
    (req (target_speed (not e.is_legacy)) goal 0 ∷ dialog_req tower said 0)
    ++ (rs ++ dialog_req engineer said (if ltb last 2000 then 2500 else last))

-- The speed that is asked for
unfoldable pub goal_speed : Option EngineState → SpeedArg → Bool → ℕ
unfolding decode_rr_speed
goal_speed st a dialog =
    let s = (decode_rr_speed st a).1 in
    if dialog then s else elim a [ number n ↦ min s n | official t r ↦ s ]

-- `__init__`; the address 99 stands for all engines.
unfoldable pub requests : (ℕ → ℕ) → Option EngineState → ℕ → SpeedArg → Bool → List SequencedReq
unfolding goal_speed decode_rr_speed dialog_of unramped ramped_requests
requests rpm_of st address a dialog =
    let s = (decode_rr_speed st a).1 in
    let said = dialog_of (decode_rr_speed st a).0 in
    let goal = goal_speed st a dialog in
    let otherwise : List SequencedReq = unramped rpm_of st address a dialog said s goal in
    if address == 99 then otherwise else elim st [
      | none ↦ otherwise
      | some e ↦ (elim e.speed [
        | none ↦ otherwise
        | some cs ↦ ramped_requests rpm_of e cs dialog said goal
      ])
    ]
