-- ===== src/Atc/Block/Emergency.antt =====
-- When a block stops all engines (atc/block.py).
use py_legacy.Common.{
  ℕ, ◌≡◌, refl, ap, ◌∙◌, Bool, true, false, ◌||◌, Option, none, some, List, [], ◌∷◌, ◌++◌, ◌==◌,
  Bool-cases, Option-cases, inl, inr, ltb, if◌then◌else◌, arith,
}
use py_legacy.Atc.Block.{
  Block, Layout, Motives, MotiveView, Motive, Dialog, speed_restricted, stop_hold, all_clear,
  departure_granted, Event, broadcast_state, ramped_speed, stop_tmcc1, stop_tmcc2, horn_all,
  stop_all, dialog_for, raised, put, is_some, is_along, is_occupied, next_occupied, next_clear,
  noted, clear_block_info, slow_down, slow_events, stop_immediate, resume_speed, do_dialog,
  ends_raised, concluded, finish, restricted_speed,
}
use py_legacy.Atc.Signals.{
  Sighting, Position, thru, out, unsure, Signal, enter_pressed, enter_released, slow_pressed,
  slow_released, stop_pressed, stop_released, sensed, thrown, signal_occupied_exit,
  signal_slow_enter, signal_stop_enter, signal_stop_exit, cache_motive, set_next, unset_prev,
  after_thrown, respond_to_thrown_switch, handle, when_active,
}
use py_legacy.Atc.Block.Tracked.{Reach, Reach-is_tracked}
use py_legacy.Atc.Block.Known.{is_tracked, IsTracked, set_next-IsTracked, unset_prev-IsTracked}

-- Whether what is sent is for all engines.
abbrev pub calls_all : List Event → Bool
calls_all [] = false
calls_all (horn_all ∷ es) = true
calls_all (stop_all ∷ es) = true
calls_all (e ∷ es) = calls_all es

calls_all-append : (es fs : List Event) → calls_all (es ++ fs) ≡ (calls_all es || calls_all fs)
calls_all-append [] fs = refl
calls_all-append (horn_all ∷ es) fs = refl
calls_all-append (stop_all ∷ es) fs = refl
calls_all-append (broadcast_state i ∷ es) fs = calls_all-append es fs
calls_all-append (ramped_speed m s ∷ es) fs = calls_all-append es fs
calls_all-append (stop_tmcc1 m ∷ es) fs = calls_all-append es fs
calls_all-append (stop_tmcc2 m ∷ es) fs = calls_all-append es fs
calls_all-append (dialog_for d m ∷ es) fs = calls_all-append es fs
calls_all-append (raised e ∷ es) fs = calls_all-append es fs

append-quiet :
    (es fs : List Event)
    → calls_all es ≡ false
    → calls_all fs ≡ false
    → calls_all (es ++ fs) ≡ false
append-quiet es fs h k = calls_all-append es fs ∙ ground arith

concluded-quiet :
    (i : ℕ) (es : List Event) → calls_all es ≡ false → calls_all (concluded i es) ≡ false
concluded-quiet i es h = elim (Bool-cases (ends_raised es)) [
  | inl e ↦ rw e h
  | inr e ↦ rw e (append-quiet es (broadcast_state i ∷ []) h refl)
]

do_dialog-quiet : (d : Dialog) (b : Block) → calls_all (do_dialog d b) ≡ false
unfolding do_dialog
do_dialog-quiet d b = elim (Option-cases b.current_motive) [
  | inl e ↦ rw e refl
  | inr (m, e) ↦ rw e (elim (Bool-cases b.dialog) [ inl f ↦ rw f refl | inr f ↦ rw f refl ])
]

slow_events-quiet :
    (m : Motive) (v : MotiveView) (b : Block) → calls_all (slow_events m v b) ≡ false
unfolding slow_events
slow_events-quiet m v b = elim (Option-cases v.speed) [
  | inl e ↦ rw e refl
  | inr (s, e) ↦ rw e (elim (Bool-cases (ltb (restricted_speed v.is_legacy) s)) [
    | inl f ↦
        rw f
          (append-quiet (do_dialog speed_restricted b) _ (do_dialog-quiet speed_restricted b) refl)
    | inr f ↦ rw f refl
  ])
]

slow_down-quiet : (views : Motives) (b : Block) → calls_all (slow_down views b).1 ≡ false
unfolding slow_down
slow_down-quiet views b = elim (Option-cases b.current_motive) [
  | inl e ↦ rw e refl
  | inr (m, e) ↦ rw e (slow_events-quiet m (views m) (record b { current_motive = some m }))
]

-- A train that goes along its block is known.
along-is_some :
    (b : Block) → is_tracked b ≡ true → is_along b ≡ true → is_some b.current_motive ≡ true
along-is_some b t h = elim (Option-cases b.motive_direction) [
  | inl e ↦ absurd (cc (rw e at h))
  | inr (d, e) ↦ ground (arith, ap is_some e)
]

-- One that is known is stopped alone.
stop_immediate-quiet :
    (views : Motives) (b : Block)
    → is_some b.current_motive ≡ true
    → calls_all (stop_immediate views b).1 ≡ false
unfolding stop_immediate
stop_immediate-quiet views b h = elim (Option-cases b.current_motive) [
  | inl e ↦ absurd (cc (rw e at h))
  | inr (m, e) ↦ rw e (
      append-quiet (do_dialog stop_hold (record b { current_motive = some m })) _
        (do_dialog-quiet stop_hold (record b { current_motive = some m }))
        (elim (Bool-cases (views m).is_tmcc) [ inl f ↦ rw f refl | inr f ↦ rw f refl ]))
]

resume_speed-quiet : (b : Block) → calls_all (resume_speed b) ≡ false
unfolding resume_speed
resume_speed-quiet b = elim (Option-cases b.current_motive) [
  | inl e ↦ rw e refl
  | inr (m, e) ↦ rw e (elim (Option-cases b.original_speed) [
    | inl f ↦ rw f refl
    | inr (s, f) ↦ rw f (elim (Bool-cases (s == 0)) [
      | inl g ↦ rw g refl
      | inr g ↦ rw g (
          append-quiet (do_dialog departure_granted (record b { current_motive = some m })) _
            (do_dialog-quiet departure_granted (record b { current_motive = some m })) refl)
    ])
  ])
]

-- What a handler sends that asks whether the next block is occupied or clear.
choice-quiet :
    (i : ℕ) (w : Layout) (along occupied clear : Bool) (b : Block) (es : List Event)
    (p : Block × List Event)
    → calls_all es ≡ false
    → (along ≡ true → calls_all p.1 ≡ false)
    → calls_all
        (finish i w
          (if along then if occupied then p else if clear then (b, es) else (b, []) else (b, []))).1
      ≡ false
choice-quiet i w true true clear b es p h k = concluded-quiet i p.1 (k refl)
choice-quiet i w true false true b es p h k = concluded-quiet i es h
choice-quiet i w true false false b es p h k = refl
choice-quiet i w false occupied clear b es p h k = refl

signal_slow_enter-quiet :
    (views : Motives) (i : ℕ) (b : Block) (w : Layout)
    → calls_all (signal_slow_enter views i b w).1 ≡ false
unfolding signal_slow_enter
signal_slow_enter-quiet views i b w =
    let b' : Block = record b { order_activated = noted 2 b.order_activated } in
    choice-quiet i w (is_along b) (next_occupied b w) (next_clear b w) b' (do_dialog all_clear b')
      (slow_down views b') (do_dialog-quiet all_clear b') (λ h. slow_down-quiet views b')

signal_stop_enter-quiet :
    (views : Motives) (i : ℕ) (b : Block) (w : Layout)
    → is_tracked b ≡ true
    → calls_all (signal_stop_enter views i b w).1 ≡ false
unfolding signal_stop_enter
signal_stop_enter-quiet views i b w t =
    let b' : Block = record b { order_activated = noted 3 b.order_activated } in
    choice-quiet i w (is_along b) (next_occupied b w) (next_clear b w) b' (do_dialog all_clear b')
      (stop_immediate views b') (do_dialog-quiet all_clear b')
      (λ h. stop_immediate-quiet views b' (along-is_some b t h))

signal_stop_exit-quiet :
    (i : ℕ) (b : Block) (w : Layout) → calls_all (signal_stop_exit i b w).1 ≡ false
unfolding signal_stop_exit
signal_stop_exit-quiet i b w = elim (Option-cases b.prev_block) [
  | inl e ↦ simp e
  | inr (p, e) ↦ elim (Bool-cases (is_occupied (clear_block_info b))) [
    | inl f ↦ simp (e, f)
    | inr f ↦
        let before : Block = put i (clear_block_info (record b { prev_block = some p })) w p in
        simp (e, f) (concluded-quiet i (resume_speed before) (resume_speed-quiet before))
  ]
]

cache_motive-quiet :
    (views : Motives) (s : Sighting) (i : ℕ) (b : Block) (w : Layout)
    → calls_all (cache_motive views s i b w).1 ≡ false
unfolding cache_motive
cache_motive-quiet views s i b w = told-quiet _
  where
    told-quiet : (same : Bool) → calls_all (if same then [] else broadcast_state i ∷ []) ≡ false
    told-quiet true = refl
    told-quiet false = refl

when_active-quiet :
    (button : Option Bool) (w : Layout) (r r' : Layout × List Event)
    → calls_all r.1 ≡ false
    → calls_all r'.1 ≡ false
    → calls_all (when_active button w r r').1 ≡ false
when_active-quiet none w r r' h k = refl
when_active-quiet (some true) w r r' h k = h
when_active-quiet (some false) w r r' h k = k

after_thrown-quiet :
    (views : Motives) (i n : ℕ) (w : Layout)
    → is_tracked (w i) ≡ true
    → calls_all (after_thrown views i n w).1 ≡ false
unfolding after_thrown
after_thrown-quiet views i n w t =
    let stop : Layout × List Event = signal_stop_enter views i (w i) w in
    let slow : Layout × List Event = signal_slow_enter views i (w i) w in
    elim (Bool-cases (is_occupied (w n))) [
      | inr e ↦ rw e (concluded-quiet i (resume_speed (w i)) (resume_speed-quiet (w i)))
      | inl e ↦ rw e (
          concluded-quiet i
            (when_active (w i).stop_btn w stop (when_active (w i).slow_btn w slow (w, []))).1
            (when_active-quiet (w i).stop_btn w stop (when_active (w i).slow_btn w slow (w, []))
              (signal_stop_enter-quiet views i (w i) w t)
              (when_active-quiet (w i).slow_btn w slow (w, [])
                (signal_slow_enter-quiet views i (w i) w) refl)))
    ]

respond-quiet :
    (views : Motives) (p : Position) (i : ℕ) (t o : Option ℕ) (w : Layout)
    → IsTracked w
    → calls_all (respond_to_thrown_switch views p i t o w).1 ≡ false
unfolding respond_to_thrown_switch
respond-quiet views thru i (some t) (some o) w h =
    let w' : Layout = set_next i t w in
    after_thrown-quiet views i t (unset_prev o w')
      (unset_prev-IsTracked o w' (set_next-IsTracked i t w h) i)
respond-quiet views out i (some t) (some o) w h =
    let w' : Layout = set_next i o w in
    after_thrown-quiet views i o (unset_prev t w')
      (unset_prev-IsTracked t w' (set_next-IsTracked i o w h) i)
respond-quiet views unsure i t o w h = refl
respond-quiet views thru i none o w h = refl
respond-quiet views thru i (some t) none w h = refl
respond-quiet views out i none o w h = refl
respond-quiet views out i (some t) none w h = refl

-- A handler of a button that may be missing.
if-quiet :
    (present : Bool) (r : Layout × List Event) (w : Layout)
    → calls_all r.1 ≡ false
    → calls_all (if present then r else (w, [])).1 ≡ false
if-quiet true r w h = h
if-quiet false r w h = refl

-- In every layout that links, switches and signals lead to, in any order, no signal makes a block stop or
-- warn all engines: the stop of all engines for a train that is not known is never sent.
pub handle-calls_all :
    (views : Motives) (w : Layout)
    → Reach views w
    → (s : Signal) (i : ℕ) → calls_all (handle views s i w).1 ≡ false
unfolding handle signal_occupied_exit
handle-calls_all views w r enter_pressed i =
    if-quiet (is_some (w i).enter_btn)
      (signal_occupied_exit i (record (w i) { enter_btn = some true }) w) w refl
handle-calls_all views w r enter_released i =
    if-quiet (is_some (w i).enter_btn) (put i (record (w i) { enter_btn = some false }) w, []) w
      refl
handle-calls_all views w r slow_pressed i =
    let b : Block = record (w i) { slow_btn = some true } in
    if-quiet (is_some (w i).slow_btn) (signal_slow_enter views i b w) w
      (signal_slow_enter-quiet views i b w)
handle-calls_all views w r slow_released i =
    if-quiet (is_some (w i).slow_btn) (finish i w (record (w i) { slow_btn = some false }, [])) w
      refl
handle-calls_all views w r stop_pressed i =
    let b : Block = record (w i) { stop_btn = some true } in
    if-quiet (is_some (w i).stop_btn) (signal_stop_enter views i b w) w
      (signal_stop_enter-quiet views i b w (Reach-is_tracked views w r i))
handle-calls_all views w r stop_released i =
    let b : Block = record (w i) { stop_btn = some false } in
    if-quiet (is_some (w i).stop_btn) (signal_stop_exit i b w) w (signal_stop_exit-quiet i b w)
handle-calls_all views w r (sensed s) i = cache_motive-quiet views s i (w i) w
handle-calls_all views w r (thrown p) i =
    respond-quiet views p i (w i).thru_block (w i).out_block w (Reach-is_tracked views w r)
