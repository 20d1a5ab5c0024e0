-- ===== src/Atc/Signals.antt =====
-- What happens at a block: the signals of its buttons, its sensor track and its switch, and its links
-- (atc/block.py).
use py_legacy.Common.{
  ℕ, Bool, true, false, not, ◌&&◌, ◌||◌, Option, none, some, List, [], ◌∷◌, ◌++◌, ◌==◌, ltb,
  if◌then◌else◌, attribute_error, value_error, Result, ok, raise, leb,
}
use py_legacy.Protocol.Scope.{engine, train}
use py_legacy.Atc.Block.{
  Block, Direction, Event, Layout, Motive, Motives, all_clear, broadcast_state, clear_block_info,
  clear_motive, concluded, do_dialog, finish, is_along, is_occupied, is_some, next_clear,
  next_occupied, noted, put, raised, resume_speed, same_motive, slow_down, stop_immediate,
}

unfoldable pub signal_occupied_enter : ℕ → Block → Layout → Layout × List Event
unfolding noted
signal_occupied_enter i b w =
    finish i w (record b { order_activated = noted 1 b.order_activated }, [])

unfoldable pub signal_occupied_exit : ℕ → Block → Layout → Layout × List Event
unfolding noted clear_motive
signal_occupied_exit i b w =
    let b' = record b { order_deactivated = noted 1 b.order_deactivated } in
    finish i w (if is_some b.motive_direction && not (is_along b) then clear_motive b' else b', [])

unfoldable pub signal_slow_enter : Motives → ℕ → Block → Layout → Layout × List Event
unfolding noted slow_down do_dialog
signal_slow_enter views i b w =
    let b' = record b { order_activated = noted 2 b.order_activated } in
    finish i w (
      if is_along b
      then if next_occupied b w
        then slow_down views b'
        else if next_clear b w
        then (b', do_dialog all_clear b')
        else (b', [])
      else (b', []))

unfoldable pub signal_stop_enter : Motives → ℕ → Block → Layout → Layout × List Event
unfolding noted stop_immediate do_dialog
signal_stop_enter views i b w =
    let b' = record b { order_activated = noted 3 b.order_activated } in
    finish i w (
      if is_along b
      then if next_occupied b w
        then stop_immediate views b'
        else if next_clear b w
        then (b', do_dialog all_clear b')
        else (b', [])
      else (b', []))

-- The previous block is told that this one is clear.
unfoldable pub signal_stop_exit : ℕ → Block → Layout → Layout × List Event
unfolding clear_block_info resume_speed is_occupied
signal_stop_exit i b w =
    let b' = clear_block_info b in
    let told : List Event = elim b.prev_block [
      | none ↦ []
      | some p ↦ if is_occupied b' then [] else resume_speed (put i b' w p)
    ] in
    finish i w (b', told)

-- What the sensor track tells of the train that passed it.
pub record Sighting : Type 0 where
  pub is_train : Bool
  pub is_engine : Bool
  pub last_train_id : ℕ
  pub last_engine_id : ℕ
  pub last_direction : Direction

abbrev pub sighted : Sighting → Option Motive
sighted s =
    if s.is_train && ltb 0 s.last_train_id
    then some (record { scope = train; tmcc_id = s.last_train_id })
    else if s.is_engine && ltb 0 s.last_engine_id
    then some (record { scope = engine; tmcc_id = s.last_engine_id })
    else none

unfoldable pub cache_motive : Motives → Sighting → ℕ → Block → Layout → Layout × List Event
unfolding clear_motive
cache_motive views s i b w =
    let b' : Block = elim (sighted s) [
      | none ↦ clear_motive b
      | some m ↦ record b {
        current_motive = some m;
        motive_direction = some s.last_direction;
        original_speed = (views m).speed;
      }
    ] in
    (
      put i b' w,
      if same_motive b.current_motive b'.current_motive then [] else broadcast_state i ∷ [],
    )

abbrev pub points_to : Option ℕ → ℕ → Bool
points_to none j = false
points_to (some n) j = n == j

-- The setter of `next_block`; that of `prev_block`, which it calls, finds its link in place.
unfoldable pub set_next : ℕ → ℕ → Layout → Layout
set_next i n w =
    let w' = put i (record (w i) { next_block = some n }) w in
    if points_to (w' n).prev_block i then w' else put n (record (w' n) { prev_block = some i }) w'

unfoldable pub unset_prev : ℕ → Layout → Layout
unset_prev n w = put n (record (w n) { prev_block = none }) w

-- `if btn.is_active: ... else ...`; a block without the button has no `is_active`.
abbrev pub when_active :
    Option Bool → Layout → Layout × List Event → Layout × List Event → Layout × List Event
when_active none w r r' = (w, raised attribute_error ∷ [])
when_active (some true) w r r' = r
when_active (some false) w r r' = r'

-- The rest of `respond_to_thrown_switch`, with the next block set.
unfoldable pub after_thrown : Motives → ℕ → ℕ → Layout → Layout × List Event
unfolding signal_stop_enter signal_slow_enter resume_speed is_occupied
after_thrown views i n w =
    let stop : Layout × List Event = signal_stop_enter views i (w i) w in
    let slow : Layout × List Event = signal_slow_enter views i (w i) w in
    let r : Layout × List Event =
      if is_occupied (w n)
      then when_active (w i).stop_btn w stop (when_active (w i).slow_btn w slow (w, []))
      else (w, resume_speed (w i)) in
    (r.0, concluded i r.1)

pub data Position : Type 0 where
  thru out unsure : Position

unfoldable pub respond_to_thrown_switch :
    Motives → Position → ℕ → Option ℕ → Option ℕ → Layout → Layout × List Event
unfolding set_next unset_prev after_thrown
respond_to_thrown_switch views thru i (some t) (some o) w =
    after_thrown views i t (unset_prev o (set_next i t w))
respond_to_thrown_switch views out i (some t) (some o) w =
    after_thrown views i o (unset_prev t (set_next i o w))
respond_to_thrown_switch views _ i _ _ w = (w, [])

-- `next_switch`, of a switch that stands at `p`.
unfoldable pub next_switch :
    Motives → ℕ → Option ℕ → Option ℕ → ℕ → Position → Layout → Result (Layout × List Event)
unfolding respond_to_thrown_switch
next_switch views id (some t) (some o) i p w =
    if leb 1 id && leb id 99
    then if i == t || (i == o || t == o)
      then raise attribute_error
      else ok (
          respond_to_thrown_switch views p i (some t) (some o)
            (put i (record (w i) { thru_block = some t; out_block = some o }) w))
    else raise value_error
next_switch views id _ _ i p w =
    if leb 1 id && leb id 99 then raise attribute_error else raise value_error

-- What happens at block `i`: a button is pressed or released, a train passes the sensor track, the switch
-- is thrown.
pub data Signal : Type 0 where
  enter_pressed enter_released slow_pressed slow_released stop_pressed stop_released : Signal
  sensed : Sighting → Signal
  thrown : Position → Signal

-- The handlers that `__init__` and `next_switch` set; the second assignment to `when_activated` of the
-- enter button takes the place of the first, and nothing is called on its release.
unfoldable pub handle : Motives → Signal → ℕ → Layout → Layout × List Event
unfolding signal_occupied_exit signal_slow_enter signal_stop_enter signal_stop_exit cache_motive
    respond_to_thrown_switch
handle views enter_pressed i w =
    if is_some (w i).enter_btn
    then signal_occupied_exit i (record (w i) { enter_btn = some true }) w
    else (w, [])
handle views enter_released i w =
    if is_some (w i).enter_btn
    then (put i (record (w i) { enter_btn = some false }) w, [])
    else (w, [])
handle views slow_pressed i w =
    if is_some (w i).slow_btn
    then signal_slow_enter views i (record (w i) { slow_btn = some true }) w
    else (w, [])
handle views slow_released i w =
    if is_some (w i).slow_btn
    then finish i w (record (w i) { slow_btn = some false }, [])
    else (w, [])
handle views stop_pressed i w =
    if is_some (w i).stop_btn
    then signal_stop_enter views i (record (w i) { stop_btn = some true }) w
    else (w, [])
handle views stop_released i w =
    if is_some (w i).stop_btn
    then signal_stop_exit i (record (w i) { stop_btn = some false }) w
    else (w, [])
handle views (sensed s) i w = cache_motive views s i (w i) w
handle views (thrown p) i w = respond_to_thrown_switch views p i (w i).thru_block (w i).out_block w

-- Signals at blocks, one after the other.
unfoldable pub run : Motives → List (Signal × ℕ) → Layout → Layout × List Event
unfolding handle
run views [] w = (w, [])
run views ((s, i) ∷ rest) w =
    let (w', es) = handle views s i w in let (w'', es') = run views rest w' in (w'', es ++ es')
