-- ===== src/Protocol/Sequence/Request.antt =====
-- Requests of a sequence and the official speeds (protocol/sequence/sequence_req.py).
use py_legacy.Common.{ℕ, Bool, true, false, not, Option, none, some, ltb, leb, if◌then◌else◌}

pub data RrSpeed : Type 0 where
  stop_hold roll restricted slow medium limited normal highball : RrSpeed

-- `TMCC1RRSpeedsEnum`, `TMCC2RRSpeedsEnum`: where the speeds of each begin.
unfoldable pub first_speed : Bool → RrSpeed → ℕ
first_speed true stop_hold = 0
first_speed true roll = 1
first_speed true restricted = 5
first_speed true slow = 10
first_speed true medium = 15
first_speed true limited = 20
first_speed true normal = 25
first_speed true highball = 27
first_speed false stop_hold = 0
first_speed false roll = 1
first_speed false restricted = 24
first_speed false slow = 59
first_speed false medium = 92
first_speed false limited = 118
first_speed false normal = 145
first_speed false highball = 199

-- The first of the ranges that holds a speed.
unfoldable pub rr_speed : Bool → ℕ → Option RrSpeed
unfolding first_speed
rr_speed t s =
    if ltb s (first_speed t roll)
    then some stop_hold
    else if ltb s (first_speed t restricted)
    then some roll
    else if ltb s (first_speed t slow)
    then some restricted
    else if ltb s (first_speed t medium)
    then some slow
    else if ltb s (first_speed t limited)
    then some medium
    else if ltb s (first_speed t normal)
    then some limited
    else if ltb s (first_speed t highball)
    then some normal
    else if ltb s (if t then 32 else 200)
    then some highball
    else none

-- The dialogs have no name for `ROLL`.
unfoldable pub dialog_of : Option RrSpeed → Option RrSpeed
dialog_of none = none
dialog_of (some roll) = none
dialog_of (some r) = some r

-- What a speed may be given as: a number, or an official speed, which belongs to TMCC1 or to TMCC2.
pub data SpeedArg : Type 0 where
  number : ℕ → SpeedArg
  official : Bool → RrSpeed → SpeedArg

-- The state of the engine.
pub record EngineState : Type 0 where
  pub is_legacy : Bool
  pub speed : Option ℕ
  pub speed_max : ℕ
  pub is_ramping : Bool
  pub is_rpm : Bool
  pub rpm : ℕ
  pub labor : ℕ
  pub momentum : Option ℕ

pub data SpeedCommand : Type 0 where
  -- of TMCC1, or of TMCC2
  absolute_speed target_speed : Bool → SpeedCommand
  engine_labor diesel_rpm : SpeedCommand
  tower engineer : RrSpeed → SpeedCommand
  official_speed : Bool → RrSpeed → SpeedCommand

-- `SequencedReq`
pub record SequencedReq : Type 0 where
  pub command : SpeedCommand
  pub data_of : ℕ
  pub delay : ℕ

abbrev pub req : SpeedCommand → ℕ → ℕ → SequencedReq
req c d t = record { command = c; data_of = d; delay = t }

abbrev pub min : ℕ → ℕ → ℕ
min a b = if leb a b then a else b

abbrev pub is_tmcc1 : Option EngineState → Bool
is_tmcc1 none = true
is_tmcc1 (some e) = not e.is_legacy

-- `decode_rr_speed`: the official speed and the number
unfoldable pub decode_rr_speed : Option EngineState → SpeedArg → Option RrSpeed × ℕ
unfolding rr_speed first_speed
decode_rr_speed st a =
    let base : Option RrSpeed = elim a [
      | number s ↦ rr_speed (is_tmcc1 st) s
      | official t r ↦ some r
    ] in
    let s : ℕ = elim a [ number s ↦ s | official t r ↦ first_speed t r ] in
    (
      base,
      if is_tmcc1 st
          then min s 31
          else if ltb 199 s
          then elim st [ none ↦ 199 | some e ↦ e.speed_max ]
          else s,
    )
