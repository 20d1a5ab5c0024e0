-- ===== src/Atc/Block/Runs.antt =====
-- Concrete runs of the automatic train control: the theorems at one layout.
use py_legacy.Common.{ℕ, true, false, ◌≡◌, refl, none, some, [], ◌∷◌, ◌++◌, ◌==◌, if◌then◌else◌}
use py_legacy.Protocol.Scope.{engine}
use py_legacy.Atc.Block.{
  l2r, Motive, Motives, Block, Layout, broadcast_state, ramped_speed, stop_hold, departure_granted,
  dialog_for, stop_tmcc2, noted, is_occupied,
}
use py_legacy.Atc.Setup.{new_block}
use py_legacy.Atc.Signals.{
  Sighting, thru, sensed, thrown, enter_pressed, stop_pressed, slow_pressed, stop_released,
  set_next, handle, run, signal_occupied_exit,
}
use py_legacy.Atc.Block.Tracked.{Reach, IsBuilt, built, begun, linked, signalled, Reach-is_tracked}
use py_legacy.Atc.Block.Known.{is_tracked}
use py_legacy.Atc.Block.Emergency.{calls_all, handle-calls_all}
use py_legacy.Atc.Block.Held.{run-held}
use py_legacy.Atc.Block.Switches.{links, thrown-links}

-- New blocks, and blocks with a switch that leads to block 2 or to block 3
abbrev empty_block : Block
empty_block = record {
  enter_btn = some false;
  slow_btn = some false;
  stop_btn = some false;
  prev_block = none;
  next_block = none;
  current_motive = none;
  motive_direction = none;
  original_speed = none;
  thru_block = none;
  out_block = none;
  left_to_right = true;
  dialog = true;
  order_activated = [];
  order_deactivated = [];
}

abbrev yard : Layout
yard i = empty_block

abbrev forked : Layout
forked i = record empty_block { thru_block = some 2; out_block = some 3 }

yard-IsBuilt : (i : ℕ) → IsBuilt (yard i)
unfolding new_block
yard-IsBuilt i = built 1 none false (some false) (some false) (some false) none true refl

abbrev views : Motives
views m = record { speed = some 40; is_legacy = true; is_tmcc = false }

abbrev engine_12 : Motive
engine_12 = record { scope = engine; tmcc_id = 12 }

abbrev passing : Sighting
passing = record {
  is_train = false;
  is_engine = true;
  last_train_id = 0;
  last_engine_id = 12;
  last_direction = l2r;
}

-- The train has come into block 1, and block 2 is occupied.
abbrev waiting : Layout
waiting i =
    if i == 1
    then record empty_block {
      current_motive = some engine_12;
      motive_direction = some l2r;
      next_block = some 2;
    }
    else if i == 2
    then record empty_block { prev_block = some 1; stop_btn = some true }
    else empty_block

entered-Reach : Reach views (handle views (sensed passing) 1 (set_next 1 2 yard)).0
entered-Reach =
    signalled (sensed passing) 1 (set_next 1 2 yard) (linked 1 2 yard (begun yard yard-IsBuilt))

Reach-is_tracked_example :
    is_tracked ((handle views (sensed passing) 1 (set_next 1 2 yard)).0 1) ≡ true
Reach-is_tracked_example =
    Reach-is_tracked views (handle views (sensed passing) 1 (set_next 1 2 yard)).0 entered-Reach 1

handle-calls_all_example :
    calls_all
      (handle views stop_pressed 1 (handle views (sensed passing) 1 (set_next 1 2 yard)).0).1
    ≡ false
handle-calls_all_example =
    handle-calls_all views (handle views (sensed passing) 1 (set_next 1 2 yard)).0 entered-Reach
      stop_pressed 1

run-held_example :
    (run views ((stop_pressed, 1) ∷ (slow_pressed, 3) ∷ (stop_released, 2) ∷ []) waiting).1
    ≡ (dialog_for stop_hold engine_12 ∷ stop_tmcc2 engine_12 ∷ broadcast_state 1 ∷ [])
      ++ ((run views ((slow_pressed, 3) ∷ []) (handle views stop_pressed 1 waiting).0).1
          ++ (dialog_for departure_granted engine_12
              ∷ ramped_speed engine_12 (some 40)
              ∷ broadcast_state 2
              ∷ []))
unfolding is_occupied
run-held_example =
    run-held views 1 2 ((slow_pressed, 3) ∷ []) waiting engine_12 39 refl refl refl refl refl refl
      refl refl refl refl refl refl

thrown-links_example : links ((handle views (thrown thru) 1 forked).0 2) ≡ (some 1, none)
thrown-links_example = thrown-links views thru 1 2 3 2 forked refl refl refl refl

-- A train that comes in is noted as one that goes out.
enter_pressed_run : ((handle views enter_pressed 1 yard).0 1).order_activated ≡ []
unfolding handle signal_occupied_exit
enter_pressed_run = refl

enter_pressed_deactivated : ((handle views enter_pressed 1 yard).0 1).order_deactivated ≡ 1 ∷ []
unfolding handle signal_occupied_exit noted
enter_pressed_deactivated = refl
