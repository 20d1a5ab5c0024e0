-- ===== src/Atc/Block/Held.antt =====
-- A train that is held until the next block is clear (atc/block.py).
use mathlib.Core.Path.{ap₂}
use py_legacy.Common.{
  ℕ, suc, ◌≡◌, refl, ap, ◌∙◌, Bool, true, false, Option, none, some, List, [], ◌∷◌, ◌++◌, ◌==◌,
  Bool-cases, inl, inr, if◌then◌else◌, arith,
}
use py_legacy.Atc.Block.{
  Block, Layout, Motives, Motive, Dialog, stop_hold, departure_granted, Event, broadcast_state,
  ramped_speed, stop_tmcc1, stop_tmcc2, dialog_for, put, is_some, is_active, is_along, is_occupied,
  noted, clear_motive, clear_block_info, stop_immediate, resume_speed, do_dialog, concluded,
}
use py_legacy.Atc.Signals.{
  Signal, stop_pressed, stop_released, signal_stop_enter, signal_stop_exit, handle, run,
}
use py_legacy.Atc.Block.Elsewhere.{is_elsewhere, run_elsewhere, put_here, put_other}

-- The speed that a block goes back to: the one it has noted, or that of the train.
abbrev pub held_speed : Motives → Motive → Block → Option ℕ
held_speed views m b = elim b.original_speed [ none ↦ (views m).speed | some s ↦ some s ]

-- The dialogs are for blocks that give them.
abbrev pub spoken : Bool → Dialog → Motive → List Event
spoken speaks d m = if speaks then dialog_for d m ∷ [] else []

abbrev pub stop_of : Motives → Motive → Event
stop_of views m = if (views m).is_tmcc then stop_tmcc1 m else stop_tmcc2 m

-- The block after its stop button was pressed.
abbrev pub holding : Motives → Motive → Block → Block
holding views m b = record b {
  stop_btn = some true;
  order_activated = noted 3 b.order_activated;
  original_speed = held_speed views m b;
}

concluded-stop :
    (i : ℕ) (views : Motives) (m : Motive) (d : Bool)
    → concluded i (spoken d stop_hold m ++ stop_of views m ∷ [])
      ≡ spoken d stop_hold m ++ stop_of views m ∷ broadcast_state i ∷ []
concluded-stop i views m d = elim (Bool-cases (views m).is_tmcc) [
  | inl e ↦ rw e (two d)
  | inr e ↦ rw e (one d)
]
  where
    two :
        (d : Bool)
        → concluded i (spoken d stop_hold m ++ stop_tmcc1 m ∷ [])
          ≡ spoken d stop_hold m ++ stop_tmcc1 m ∷ broadcast_state i ∷ []
    two true = refl
    two false = refl

    one :
        (d : Bool)
        → concluded i (spoken d stop_hold m ++ stop_tmcc2 m ∷ [])
          ≡ spoken d stop_hold m ++ stop_tmcc2 m ∷ broadcast_state i ∷ []
    one true = refl
    one false = refl

stop_pressed_lem :
    (views : Motives) (i n : ℕ) (w : Layout) (m : Motive)
    → is_some (w i).stop_btn ≡ true
    → (w i).current_motive ≡ some m
    → is_along (w i) ≡ true
    → (w i).next_block ≡ some n
    → is_occupied (w n) ≡ true
    → handle views stop_pressed i w ≡ (
      put i (holding views m (w i)) w,
      spoken (w i).dialog stop_hold m ++ stop_of views m ∷ broadcast_state i ∷ [],
    )
unfolding handle signal_stop_enter stop_immediate do_dialog
stop_pressed_lem views i n w m button known along next occupied =
    simp (button, known, along, next, occupied)
      (ap
        (λ es. (
          put i (record (holding views m (w i)) { current_motive = some m; next_block = some n }) w,
          es,
        ))
        (concluded-stop i views m (w i).dialog))

-- What the block before tells the train when it hears that its next block is clear.
resume_speed_lem :
    (b : Block) (m : Motive) (v : ℕ)
    → b.current_motive ≡ some m
    → b.original_speed ≡ some (suc v)
    → resume_speed b ≡ spoken b.dialog departure_granted m ++ ramped_speed m (some (suc v)) ∷ []
unfolding resume_speed do_dialog
resume_speed_lem b m v known noted_speed =
    let moving : (suc v == 0) ≡ false = ground arith in rw known (rw noted_speed (rw moving refl))

concluded-resume :
    (i : ℕ) (d : Bool) (m : Motive) (s : Option ℕ)
    → concluded i (spoken d departure_granted m ++ ramped_speed m s ∷ [])
      ≡ spoken d departure_granted m ++ ramped_speed m s ∷ broadcast_state i ∷ []
concluded-resume i true m s = refl
concluded-resume i false m s = refl

cleared-is_occupied :
    (b : Block)
    → is_active b.enter_btn ≡ false
    → is_active b.slow_btn ≡ false
    → is_occupied (clear_block_info (record b { stop_btn = some false })) ≡ false
unfolding is_occupied clear_block_info clear_motive
cleared-is_occupied b h k = ground arith

stop_released_lem :
    (views : Motives) (n i : ℕ) (w : Layout) (m : Motive) (v : ℕ)
    → is_some (w n).stop_btn ≡ true
    → is_active (w n).enter_btn ≡ false
    → is_active (w n).slow_btn ≡ false
    → (w n).prev_block ≡ some i
    → (i == n) ≡ false
    → (w i).current_motive ≡ some m
    → (w i).original_speed ≡ some (suc v)
    → (handle views stop_released n w).1
      ≡ spoken (w i).dialog departure_granted m
        ++ ramped_speed m (some (suc v)) ∷ broadcast_state n ∷ []
unfolding handle signal_stop_exit
stop_released_lem views n i w m v button entered slowed prev apart known kept =
    simp (button, prev, cleared-is_occupied (w n) entered slowed, apart)
      (ap (concluded n) (resume_speed_lem (w i) m v known kept)
        ∙ concluded-resume n (w i).dialog m (some (suc v)))

-- A train that goes along its block comes to the stop section while the next block is occupied: it is
-- stopped, and once the next block's stop section is left, with the rest of that block clear, it is
-- told to go on at the speed that it had, or that was noted when it was slowed down; in between
-- any signals come at other blocks, and what these send is sent. Both blocks send their state,
-- and nothing else is sent but the dialogs. The conditions are that both blocks have a stop
-- button, that they are linked, that the train is known, that its speed was not 0, and that no
-- switch is thrown in between.
pub run-held :
    (views : Motives) (i n : ℕ) (between : List (Signal × ℕ)) (w : Layout) (m : Motive) (v : ℕ)
    → (i == n) ≡ false
    → is_elsewhere i n between ≡ true
    → is_some (w i).stop_btn ≡ true
    → is_some (w n).stop_btn ≡ true
    → (w i).next_block ≡ some n
    → (w n).prev_block ≡ some i
    → (w i).current_motive ≡ some m
    → is_along (w i) ≡ true
    → held_speed views m (w i) ≡ some (suc v)
    → is_occupied (w n) ≡ true
    → is_active (w n).enter_btn ≡ false
    → is_active (w n).slow_btn ≡ false
    → (run views ((stop_pressed, i) ∷ (between ++ (stop_released, n) ∷ [])) w).1
      ≡ (spoken (w i).dialog stop_hold m ++ stop_of views m ∷ broadcast_state i ∷ [])
        ++ ((run views between (handle views stop_pressed i w).0).1
            ++ (spoken (w i).dialog departure_granted m
                ++ ramped_speed m (some (suc v)) ∷ broadcast_state n ∷ []))
unfolding run
run-held views i n between w m v apart calm button_i button_n next prev known along kept occupied
      entered slowed =
    ap₂ (λ xs ys. xs ++ ys) (ap (λ (r : Layout × List Event). r.1) pressed)
      (run_elsewhere views i n b (w n) stop_released _ told between
        (handle views stop_pressed i w).0
        (ap (λ (r : Layout × List Event). r.0 i) pressed ∙ put_here i b w)
        (ap (λ (r : Layout × List Event). r.0 n) pressed ∙ put_other i n b w (ground arith)) calm)
  where
    b : Block
    b = holding views m (w i)

    pressed :
        handle views stop_pressed i w
        ≡ (put i b w, spoken (w i).dialog stop_hold m ++ stop_of views m ∷ broadcast_state i ∷ [])
    pressed = stop_pressed_lem views i n w m button_i known along next occupied

    told :
        (w' : Layout)
        → w' i ≡ b
        → w' n ≡ w n
        → (handle views stop_released n w').1
          ≡ spoken (w i).dialog departure_granted m
            ++ ramped_speed m (some (suc v)) ∷ broadcast_state n ∷ []
    told w' here there =
        stop_released_lem views n i w' m v (ap (λ x. is_some x.stop_btn) there ∙ button_n)
          (ap (λ x. is_active x.enter_btn) there ∙ entered)
          (ap (λ x. is_active x.slow_btn) there ∙ slowed) (ap (λ x. x.prev_block) there ∙ prev)
          apart (ap (λ x. x.current_motive) here ∙ known) (ap (λ x. x.original_speed) here ∙ kept)
        ∙ ap
            (λ x.
              spoken x.dialog departure_granted m
              ++ ramped_speed m (some (suc v)) ∷ broadcast_state n ∷ [])
            here
