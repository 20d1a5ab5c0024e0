-- ===== src/Atc/Block/Elsewhere.antt =====
-- What a signal at one block leaves of another one (atc/block.py).
use py_legacy.Common.{
  ℕ, ◌≡◌, refl, sym, ap, ◌∙◌, append-nil, append_assoc, Bool, true, false, not, ◌&&◌, some, List,
  [], ◌∷◌, ◌++◌, ◌==◌, ==_refl, if◌then◌else◌, arith,
}
use py_legacy.Atc.Block.{Block, Layout, Motives, Event, put, is_some, finish}
use py_legacy.Atc.Signals.{
  Signal, enter_pressed, enter_released, slow_pressed, slow_released, stop_pressed, stop_released,
  sensed, thrown, signal_occupied_exit, signal_slow_enter, signal_stop_enter, signal_stop_exit,
  cache_motive, handle, run,
}

pub put_here : (i : ℕ) (b : Block) (w : Layout) → put i b w i ≡ b
put_here i b w = rw (==_refl i) refl

pub put_other : (i j : ℕ) (b : Block) (w : Layout) → (j == i) ≡ false → put i b w j ≡ w j
put_other i j b w h = rw h refl

-- A throw of a switch relinks other blocks.
abbrev pub is_throw : Signal → Bool
is_throw (thrown p) = true
is_throw _ = false

if_other :
    (present : Bool) (r : Layout × List Event) (k : ℕ) (w : Layout)
    → r.0 k ≡ w k
    → (if present then r else (w, [])).0 k ≡ w k
if_other true r k w h = h
if_other false r k w h = refl

handle_other :
    (views : Motives) (s : Signal) (j k : ℕ) (w : Layout)
    → is_throw s ≡ false
    → (k == j) ≡ false
    → (handle views s j w).0 k ≡ w k
unfolding handle signal_occupied_exit signal_slow_enter signal_stop_enter signal_stop_exit
    cache_motive
handle_other views enter_pressed j k w t h =
    if_other (is_some (w j).enter_btn)
      (signal_occupied_exit j (record (w j) { enter_btn = some true }) w) k w (put_other j k _ w h)
handle_other views enter_released j k w t h =
    if_other (is_some (w j).enter_btn) (put j (record (w j) { enter_btn = some false }) w, []) k w
      (put_other j k _ w h)
handle_other views slow_pressed j k w t h =
    if_other (is_some (w j).slow_btn)
      (signal_slow_enter views j (record (w j) { slow_btn = some true }) w) k w
      (put_other j k _ w h)
handle_other views slow_released j k w t h =
    if_other (is_some (w j).slow_btn) (finish j w (record (w j) { slow_btn = some false }, [])) k w
      (put_other j k _ w h)
handle_other views stop_pressed j k w t h =
    if_other (is_some (w j).stop_btn)
      (signal_stop_enter views j (record (w j) { stop_btn = some true }) w) k w
      (put_other j k _ w h)
handle_other views stop_released j k w t h =
    if_other (is_some (w j).stop_btn)
      (signal_stop_exit j (record (w j) { stop_btn = some false }) w) k w (put_other j k _ w h)
handle_other views (sensed s) j k w t h = put_other j k _ w h
handle_other views (thrown p) j k w t h = absurd (cc t)

-- Signals at other blocks than `i` and `n`, and no throws
abbrev pub is_elsewhere : ℕ → ℕ → List (Signal × ℕ) → Bool
is_elsewhere i n [] = true
is_elsewhere i n ((s, j) ∷ rest) =
    not (is_throw s) && (not (i == j) && (not (n == j) && is_elsewhere i n rest))

-- What such signals and a last one send, if the last one sends `last` as long as the blocks `i` and `n`
-- are as they were.
pub run_elsewhere :
    (views : Motives) (i n : ℕ) (b c : Block) (t : Signal) (last : List Event)
    → ((w : Layout) → w i ≡ b → w n ≡ c → (handle views t n w).1 ≡ last)
    → (between : List (Signal × ℕ)) (w : Layout) → w i ≡ b
    → w n ≡ c
    → is_elsewhere i n between ≡ true
    → (run views (between ++ (t, n) ∷ []) w).1 ≡ (run views between w).1 ++ last
unfolding run
run_elsewhere views i n b c t last told [] w at_i at_n h =
    append-nil (handle views t n w).1 ∙ told w at_i at_n
run_elsewhere views i n b c t last told ((s, j) ∷ rest) w at_i at_n h =
    let w' : Layout = (handle views s j w).0 in
    let calm : is_throw s ≡ false = ground arith in
    ap (λ es. (handle views s j w).1 ++ es)
      (run_elsewhere views i n b c t last told rest w'
        (handle_other views s j i w calm (ground arith) ∙ at_i)
        (handle_other views s j n w calm (ground arith) ∙ at_n) (ground arith))
    ∙ sym (append_assoc (handle views s j w).1 (run views rest w').1 last)
