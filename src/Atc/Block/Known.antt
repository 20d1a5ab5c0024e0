-- ===== src/Atc/Block/Known.antt =====
-- What each operation does to what a block knows of its train (atc/block.py).
use py_legacy.Common.{
  ℕ, ◌≡◌, refl, sym, Bool, true, false, not, ◌||◌, Option, none, some, List, [], ◌==◌, Bool-cases,
  Option-cases, inl, inr, if◌then◌else◌, arith,
}
use mathlib.Core.Path.{subst}
use py_legacy.Atc.Block.{
  Block, Layout, Motives, Event, put, is_some, is_along, is_occupied, next_occupied, next_clear,
  noted, clear_motive, clear_block_info, slow_down, stop_immediate,
}
use py_legacy.Atc.Setup.{set_prev, set_dialog}
use py_legacy.Atc.Signals.{
  Sighting, Position, thru, out, unsure, Signal, enter_pressed, enter_released, slow_pressed,
  slow_released, stop_pressed, stop_released, sensed, thrown, sighted, signal_occupied_exit,
  signal_slow_enter, signal_stop_enter, signal_stop_exit, cache_motive, set_next, unset_prev,
  after_thrown, respond_to_thrown_switch, handle, points_to, when_active,
}

-- Unless the train is known, neither its direction nor a speed is.
abbrev pub is_tracked : Block → Bool
is_tracked b =
    is_some b.current_motive || not (is_some b.motive_direction || is_some b.original_speed)

abbrev pub IsTracked : Layout → Type 0
IsTracked w = (i : ℕ) → is_tracked (w i) ≡ true

pub put-IsTracked :
    (i : ℕ) (b : Block) (w : Layout) → is_tracked b ≡ true → IsTracked w → IsTracked (put i b w)
put-IsTracked i b w h t j = elim (Bool-cases (j == i)) [ inl e ↦ rw e h | inr e ↦ rw e (t j) ]

slow_down-is_tracked :
    (views : Motives) (b : Block) → is_tracked b ≡ true → is_tracked (slow_down views b).0 ≡ true
unfolding slow_down
slow_down-is_tracked views b h = elim (Option-cases b.current_motive) [
  | inl e ↦ rw e (rw e at h)
  | inr (m, e) ↦ rw e refl
]

stop_immediate-is_tracked :
    (views : Motives) (b : Block)
    → is_tracked b ≡ true
    → is_tracked (stop_immediate views b).0 ≡ true
unfolding stop_immediate
stop_immediate-is_tracked views b h = elim (Option-cases b.current_motive) [
  | inl e ↦ rw e (rw e at h)
  | inr (m, e) ↦ rw e refl
]

signal_occupied_exit-IsTracked :
    (i : ℕ) (b : Block) (w : Layout)
    → is_tracked b ≡ true
    → IsTracked w
    → IsTracked (signal_occupied_exit i b w).0
unfolding signal_occupied_exit clear_motive
signal_occupied_exit-IsTracked i b w h t = put-IsTracked i _ w (ground arith) t

-- The branches of a handler that asks whether the next block is occupied or clear.
choice-is_tracked :
    (along occupied clear : Bool) (b : Block) (es : List Event) (p : Block × List Event)
    → is_tracked b ≡ true
    → is_tracked p.0 ≡ true
    → is_tracked
        (if along then if occupied then p else if clear then (b, es) else (b, []) else (b, [])).0
      ≡ true
choice-is_tracked true true clear b es p h k = k
choice-is_tracked true false true b es p h k = h
choice-is_tracked true false false b es p h k = h
choice-is_tracked false occupied clear b es p h k = h

signal_slow_enter-IsTracked :
    (views : Motives) (i : ℕ) (b : Block) (w : Layout)
    → is_tracked b ≡ true
    → IsTracked w
    → IsTracked (signal_slow_enter views i b w).0
unfolding signal_slow_enter
signal_slow_enter-IsTracked views i b w h t =
    let b' : Block = record b { order_activated = noted 2 b.order_activated } in
    put-IsTracked i _ w
      (choice-is_tracked (is_along b) (next_occupied b w) (next_clear b w) b' _ _ h
        (slow_down-is_tracked views b' h))
      t

signal_stop_enter-IsTracked :
    (views : Motives) (i : ℕ) (b : Block) (w : Layout)
    → is_tracked b ≡ true
    → IsTracked w
    → IsTracked (signal_stop_enter views i b w).0
unfolding signal_stop_enter
signal_stop_enter-IsTracked views i b w h t =
    let b' : Block = record b { order_activated = noted 3 b.order_activated } in
    put-IsTracked i _ w
      (choice-is_tracked (is_along b) (next_occupied b w) (next_clear b w) b' _ _ h
        (stop_immediate-is_tracked views b' h))
      t

signal_stop_exit-IsTracked :
    (i : ℕ) (b : Block) (w : Layout) → IsTracked w → IsTracked (signal_stop_exit i b w).0
unfolding signal_stop_exit clear_block_info clear_motive
signal_stop_exit-IsTracked i b w t = put-IsTracked i _ w refl t

cache_motive-IsTracked :
    (views : Motives) (s : Sighting) (i : ℕ) (b : Block) (w : Layout)
    → IsTracked w
    → IsTracked (cache_motive views s i b w).0
unfolding cache_motive clear_motive
cache_motive-IsTracked views s i b w t = elim (Option-cases (sighted s)) [
  | inl e ↦ rw e (put-IsTracked i _ w refl t)
  | inr (m, e) ↦ rw e (put-IsTracked i _ w refl t)
]

pub set_next-IsTracked : (i n : ℕ) (w : Layout) → IsTracked w → IsTracked (set_next i n w)
unfolding set_next
set_next-IsTracked i n w t =
    let w' : Layout = put i (record (w i) { next_block = some n }) w in
    let t' : IsTracked w' = put-IsTracked i _ w (t i) t in
    elim (Bool-cases (points_to (w' n).prev_block i)) [
      | inl e ↦
          subst
            (λ x. IsTracked (if x then w' else put n (record (w' n) { prev_block = some i }) w'))
            (sym e) t'
      | inr e ↦
          subst
            (λ x. IsTracked (if x then w' else put n (record (w' n) { prev_block = some i }) w'))
            (sym e) (put-IsTracked n _ w' (t' n) t')
    ]

pub set_prev-IsTracked : (i p : ℕ) (w : Layout) → IsTracked w → IsTracked (set_prev i p w)
unfolding set_prev
set_prev-IsTracked i p w t =
    let w' : Layout = put i (record (w i) { prev_block = some p }) w in
    let t' : IsTracked w' = put-IsTracked i _ w (t i) t in
    elim (Bool-cases (points_to (w' p).next_block i)) [
      | inl e ↦
          subst
            (λ x. IsTracked (if x then w' else put p (record (w' p) { next_block = some i }) w'))
            (sym e) t'
      | inr e ↦
          subst
            (λ x. IsTracked (if x then w' else put p (record (w' p) { next_block = some i }) w'))
            (sym e) (put-IsTracked p _ w' (t' p) t')
    ]

pub set_dialog-IsTracked :
    (i : ℕ) (d : Bool) (w : Layout) → IsTracked w → IsTracked (set_dialog i d w)
unfolding set_dialog
set_dialog-IsTracked i d w t = put-IsTracked i _ w (t i) t

pub unset_prev-IsTracked : (n : ℕ) (w : Layout) → IsTracked w → IsTracked (unset_prev n w)
unfolding unset_prev
unset_prev-IsTracked n w t = put-IsTracked n _ w (t n) t

when_active-IsTracked :
    (button : Option Bool) (w : Layout) (r r' : Layout × List Event)
    → IsTracked w
    → IsTracked r.0
    → IsTracked r'.0
    → IsTracked (when_active button w r r').0
when_active-IsTracked none w r r' t h k = t
when_active-IsTracked (some true) w r r' t h k = h
when_active-IsTracked (some false) w r r' t h k = k

after_thrown-IsTracked :
    (views : Motives) (i n : ℕ) (w : Layout) → IsTracked w → IsTracked (after_thrown views i n w).0
unfolding after_thrown
after_thrown-IsTracked views i n w t =
    let stop : Layout × List Event = signal_stop_enter views i (w i) w in
    let slow : Layout × List Event = signal_slow_enter views i (w i) w in
    elim (Bool-cases (is_occupied (w n))) [
      | inr e ↦ rw e t
      | inl e ↦ rw e (
          when_active-IsTracked (w i).stop_btn w stop (when_active (w i).slow_btn w slow (w, [])) t
            (signal_stop_enter-IsTracked views i (w i) w (t i) t)
            (when_active-IsTracked (w i).slow_btn w slow (w, []) t
              (signal_slow_enter-IsTracked views i (w i) w (t i) t) t))
    ]

pub respond-IsTracked :
    (views : Motives) (p : Position) (i : ℕ) (t o : Option ℕ) (w : Layout)
    → IsTracked w
    → IsTracked (respond_to_thrown_switch views p i t o w).0
unfolding respond_to_thrown_switch
respond-IsTracked views thru i (some t) (some o) w h =
    let w' : Layout = set_next i t w in
    after_thrown-IsTracked views i t (unset_prev o w')
      (unset_prev-IsTracked o w' (set_next-IsTracked i t w h))
respond-IsTracked views out i (some t) (some o) w h =
    let w' : Layout = set_next i o w in
    after_thrown-IsTracked views i o (unset_prev t w')
      (unset_prev-IsTracked t w' (set_next-IsTracked i o w h))
respond-IsTracked views unsure i t o w h = h
respond-IsTracked views thru i none o w h = h
respond-IsTracked views thru i (some t) none w h = h
respond-IsTracked views out i none o w h = h
respond-IsTracked views out i (some t) none w h = h

pub handle-IsTracked :
    (views : Motives) (s : Signal) (i : ℕ) (w : Layout)
    → IsTracked w
    → IsTracked (handle views s i w).0
unfolding handle
handle-IsTracked views enter_pressed i w t = elim (Bool-cases (is_some (w i).enter_btn)) [
  | inl e ↦
      rw e (signal_occupied_exit-IsTracked i (record (w i) { enter_btn = some true }) w (t i) t)
  | inr e ↦ rw e t
]
handle-IsTracked views enter_released i w t = elim (Bool-cases (is_some (w i).enter_btn)) [
  | inl e ↦ rw e (put-IsTracked i _ w (t i) t)
  | inr e ↦ rw e t
]
handle-IsTracked views slow_pressed i w t = elim (Bool-cases (is_some (w i).slow_btn)) [
  | inl e ↦
      rw e (signal_slow_enter-IsTracked views i (record (w i) { slow_btn = some true }) w (t i) t)
  | inr e ↦ rw e t
]
handle-IsTracked views slow_released i w t = elim (Bool-cases (is_some (w i).slow_btn)) [
  | inl e ↦ rw e (put-IsTracked i _ w (t i) t)
  | inr e ↦ rw e t
]
handle-IsTracked views stop_pressed i w t = elim (Bool-cases (is_some (w i).stop_btn)) [
  | inl e ↦
      rw e (signal_stop_enter-IsTracked views i (record (w i) { stop_btn = some true }) w (t i) t)
  | inr e ↦ rw e t
]
handle-IsTracked views stop_released i w t = elim (Bool-cases (is_some (w i).stop_btn)) [
  | inl e ↦ rw e (signal_stop_exit-IsTracked i (record (w i) { stop_btn = some false }) w t)
  | inr e ↦ rw e t
]
handle-IsTracked views (sensed s) i w t = cache_motive-IsTracked views s i (w i) w t
handle-IsTracked views (thrown p) i w t = respond-IsTracked views p i _ _ w t
