-- ===== src/Atc/Block.antt =====
-- `Block` (atc/block.py): a block of the track holds the train in it while the next block is occupied.
-- A block is named by its number, a layout gives the block of each number. A button is None or whether it
-- is active; the buttons, the sensor track and the switch of a block are watched, and each signal of
-- theirs is a step. What the state store knows of a train is an argument. Log lines are left out.
pub mod Known
pub mod Tracked
pub mod Emergency
pub mod Elsewhere
pub mod Held
pub mod Switches
mod Runs
use py_legacy.Common.{
  ℕ, zero, suc, Bool, true, false, not, ◌&&◌, ◌||◌, Option, none, some, List, [], ◌∷◌, ◌++◌, ◌==◌,
  ltb, if◌then◌else◌, Error, type_error, attribute_error, value_error, Result, ok, raise, leb,
}
use py_legacy.Protocol.Scope.{CommandScope, engine, train, same_scope}

pub data Direction : Type 0 where
  unknown l2r r2l : Direction

abbrev pub same_direction : Direction → Direction → Bool
same_direction unknown unknown = true
same_direction l2r l2r = true
same_direction r2l r2l = true
same_direction _ _ = false

-- The state of an engine or a train, as a key of the state store.
pub record Motive : Type 0 where
  pub scope : CommandScope
  pub tmcc_id : ℕ

abbrev pub same_motive : Option Motive → Option Motive → Bool
same_motive none none = true
same_motive (some m) (some n) = same_scope m.scope n.scope && m.tmcc_id == n.tmcc_id
same_motive _ _ = false

-- What a block asks the state of a train for.
pub record MotiveView : Type 0 where
  pub speed : Option ℕ
  pub is_legacy : Bool
  pub is_tmcc : Bool

abbrev pub Motives : Type 0
Motives = Motive → MotiveView

pub record Block : Type 0 where
  pub enter_btn : Option Bool
  pub slow_btn : Option Bool
  pub stop_btn : Option Bool
  pub prev_block : Option ℕ
  pub next_block : Option ℕ
  pub current_motive : Option Motive
  pub motive_direction : Option Direction
  pub original_speed : Option ℕ
  pub thru_block : Option ℕ
  pub out_block : Option ℕ
  pub left_to_right : Bool
  pub dialog : Bool
  pub order_activated : List ℕ
  pub order_deactivated : List ℕ

abbrev pub Layout : Type 0
Layout = ℕ → Block

abbrev pub put : ℕ → Block → Layout → Layout
put i b w j = if j == i then b else w j

pub data Dialog : Type 0 where
  all_clear speed_restricted stop_hold departure_granted : Dialog

-- What a block sends: its state, a speed that is ramped to ("restricted" is None), an immediate stop of a
-- train by TMCC1 or by TMCC2, a horn or a stop of all engines, a dialog; and an exception, which
-- ends a handler.
pub data Event : Type 0 where
  broadcast_state : ℕ → Event
  ramped_speed : Motive → Option ℕ → Event
  stop_tmcc1 stop_tmcc2 : Motive → Event
  horn_all stop_all : Event
  dialog_for : Dialog → Motive → Event
  raised : Error → Event

abbrev pub direction : Block → Direction
direction b = if b.left_to_right then l2r else r2l

-- `btn.is_active is True`
abbrev pub is_active : Option Bool → Bool
is_active none = false
is_active (some b) = b

-- `self.occupied_direction == self.direction`
abbrev pub is_along : Block → Bool
is_along b = elim b.motive_direction [ none ↦ false | some d ↦ same_direction d (direction b) ]

abbrev pub is_some {ℓ} : {A : Type ℓ} → Option A → Bool
is_some none = false
is_some (some a) = true

-- `is_clear` is its negation.
unfoldable pub is_occupied : Block → Bool
is_occupied b =
    (is_some b.current_motive && is_along b)
    || (is_active b.enter_btn || (is_active b.slow_btn || is_active b.stop_btn))

-- Whether there is a next block, and it is occupied or clear.
abbrev pub next_occupied : Block → Layout → Bool
unfolding is_occupied
next_occupied b w = elim b.next_block [ none ↦ false | some n ↦ is_occupied (w n) ]

abbrev pub next_clear : Block → Layout → Bool
unfolding is_occupied
next_clear b w = elim b.next_block [ none ↦ false | some n ↦ not (is_occupied (w n)) ]

-- `if n not in order: order.append(n)`
unfoldable pub noted : ℕ → List ℕ → List ℕ
noted n [] = n ∷ []
noted n (x ∷ xs) = let rest = noted n xs in if x == n then x ∷ xs else x ∷ rest

unfoldable pub do_dialog : Dialog → Block → List Event
do_dialog d b = elim b.current_motive [
  | none ↦ []
  | some m ↦ if b.dialog then dialog_for d m ∷ [] else []
]

-- `clear_block_info`, and the part of it that a train that goes back does
unfoldable pub clear_motive : Block → Block
clear_motive b = record b { current_motive = none; motive_direction = none; original_speed = none }

unfoldable pub clear_block_info : Block → Block
unfolding clear_motive
clear_block_info b = record (clear_motive b) { order_activated = []; order_deactivated = [] }

abbrev pub restricted_speed : Bool → ℕ
restricted_speed true = 24
restricted_speed false = 5

-- `self._original_speed > restricted_speed`, with what follows; a handler broadcasts at its end, unless
-- it was left by an exception.
unfoldable pub slow_events : Motive → MotiveView → Block → List Event
unfolding do_dialog
slow_events m v b = elim v.speed [
  | none ↦ raised type_error ∷ []
  | some s ↦
      if ltb (restricted_speed v.is_legacy) s
      then do_dialog speed_restricted b ++ ramped_speed m none ∷ []
      else []
]

unfoldable pub slow_down : Motives → Block → Block × List Event
unfolding slow_events
slow_down views b = elim b.current_motive [
  | none ↦ (b, [])
  | some m ↦ (record b { original_speed = (views m).speed }, slow_events m (views m) b)
]

-- A dialog for a train that is not known is none.
unfoldable pub stop_immediate : Motives → Block → Block × List Event
unfolding do_dialog is_occupied
stop_immediate views b = elim b.current_motive [
  | some m ↦
      let stop : Event = if (views m).is_tmcc then stop_tmcc1 m else stop_tmcc2 m in
      (
        record b {
          original_speed = elim b.original_speed [ none ↦ (views m).speed | some s ↦ some s ];
        },
        do_dialog stop_hold b ++ stop ∷ [],
      )
  | none ↦ (
    b,
    if is_occupied b then if b.dialog then stop_all ∷ [] else horn_all ∷ stop_all ∷ [] else [],
  )
]

unfoldable pub resume_speed : Block → List Event
unfolding do_dialog
resume_speed b = elim b.current_motive [
  | none ↦ []
  | some m ↦ (elim b.original_speed [
    | none ↦ []
    | some s ↦ if s == 0 then [] else do_dialog departure_granted b ++ ramped_speed m (some s) ∷ []
  ])
]

abbrev pub ends_raised : List Event → Bool
ends_raised [] = false
ends_raised (raised e ∷ []) = true
ends_raised (e ∷ es) = ends_raised es

-- What a handler sends, with the broadcast at its end, unless it was left by an exception.
abbrev pub concluded : ℕ → List Event → List Event
concluded i es = if ends_raised es then es else es ++ broadcast_state i ∷ []

-- The handlers of block `i`, where `b` is the block after its button has changed.
abbrev pub finish : ℕ → Layout → Block × List Event → Layout × List Event
finish i w (b, es) = (put i b w, concluded i es)
