-- ===== src/Atc/Block/Switches.antt =====
-- How the blocks are linked after a switch is thrown (atc/block.py).
use py_legacy.Common.{
  ℕ, ◌≡◌, refl, sym, ap, ◌∙◌, Bool, true, false, Option, none, some, List, [], ◌==◌, Bool-cases,
  Option-cases, ==_refl, eq_of_==, inl, inr, if◌then◌else◌, arith,
}
use py_legacy.Atc.Block.{
  Block, Layout, Motives, Event, all_clear, put, is_along, is_occupied, next_occupied, next_clear,
  noted, slow_down, stop_immediate, do_dialog,
}
use py_legacy.Atc.Signals.{
  Position, thru, out, unsure, thrown, signal_slow_enter, signal_stop_enter, set_next, unset_prev,
  after_thrown, respond_to_thrown_switch, handle, when_active, points_to,
}

abbrev pub links : Block → Option ℕ × Option ℕ
links b = (b.prev_block, b.next_block)

put-links :
    (i j : ℕ) (b : Block) (w : Layout) → links b ≡ links (w i) → links (put i b w j) ≡ links (w j)
put-links i j b w h = elim (Bool-cases (j == i)) [
  | inl e ↦ rw e (h ∙ ap (λ x. links (w x)) (sym (eq_of_== j i e)))
  | inr e ↦ rw e refl
]

slow_down-links : (views : Motives) (b : Block) → links (slow_down views b).0 ≡ links b
unfolding slow_down
slow_down-links views b = elim (Option-cases b.current_motive) [
  | inl e ↦ rw e refl
  | inr (m, e) ↦ rw e refl
]

stop_immediate-links : (views : Motives) (b : Block) → links (stop_immediate views b).0 ≡ links b
unfolding stop_immediate
stop_immediate-links views b = elim (Option-cases b.current_motive) [
  | inl e ↦ rw e refl
  | inr (m, e) ↦ rw e refl
]

choice-links :
    (along occupied clear : Bool) (b : Block) (es : List Event) (p : Block × List Event)
    → links p.0 ≡ links b
    → links
        (if along then if occupied then p else if clear then (b, es) else (b, []) else (b, [])).0
      ≡ links b
choice-links true true clear b es p h = h
choice-links true false true b es p h = refl
choice-links true false false b es p h = refl
choice-links false occupied clear b es p h = refl

signal_slow_enter-links :
    (views : Motives) (i j : ℕ) (w : Layout)
    → links ((signal_slow_enter views i (w i) w).0 j) ≡ links (w j)
unfolding signal_slow_enter
signal_slow_enter-links views i j w =
    let b : Block = record (w i) { order_activated = noted 2 (w i).order_activated } in
    put-links i j _ w (
      choice-links (is_along (w i)) (next_occupied (w i) w) (next_clear (w i) w) b
        (do_dialog all_clear b) (slow_down views b) (slow_down-links views b))

signal_stop_enter-links :
    (views : Motives) (i j : ℕ) (w : Layout)
    → links ((signal_stop_enter views i (w i) w).0 j) ≡ links (w j)
unfolding signal_stop_enter
signal_stop_enter-links views i j w =
    let b : Block = record (w i) { order_activated = noted 3 (w i).order_activated } in
    put-links i j _ w (
      choice-links (is_along (w i)) (next_occupied (w i) w) (next_clear (w i) w) b
        (do_dialog all_clear b) (stop_immediate views b) (stop_immediate-links views b))

when_active-links :
    (button : Option Bool) (j : ℕ) (w : Layout) (r r' : Layout × List Event)
    → links (r.0 j) ≡ links (w j)
    → links (r'.0 j) ≡ links (w j)
    → links ((when_active button w r r').0 j) ≡ links (w j)
when_active-links none j w r r' h k = refl
when_active-links (some true) j w r r' h k = h
when_active-links (some false) j w r r' h k = k

-- What follows a throw leaves the links alone.
after_thrown-links :
    (views : Motives) (i n j : ℕ) (w : Layout)
    → links ((after_thrown views i n w).0 j) ≡ links (w j)
unfolding after_thrown
after_thrown-links views i n j w =
    let stop : Layout × List Event = signal_stop_enter views i (w i) w in
    let slow : Layout × List Event = signal_slow_enter views i (w i) w in
    elim (Bool-cases (is_occupied (w n))) [
      | inr e ↦ rw e refl
      | inl e ↦ rw e (
          when_active-links (w i).stop_btn j w stop (when_active (w i).slow_btn w slow (w, []))
            (signal_stop_enter-links views i j w)
            (when_active-links (w i).slow_btn j w slow (w, []) (signal_slow_enter-links views i j w)
              refl))
    ]

points_to_eq : (p : Option ℕ) (i : ℕ) → points_to p i ≡ true → p ≡ some i
points_to_eq none i h = absurd (cc h)
points_to_eq (some k) i h = ap some (eq_of_== k i h)

set_next_here :
    (i n : ℕ) (w : Layout)
    → (n == i) ≡ false
    → links (set_next i n w i) ≡ ((w i).prev_block, some n)
unfolding set_next
set_next_here i n w h = elim (Bool-cases (points_to (w n).prev_block i)) [
  | inl e ↦ simp (h, e, ==_refl i)
  | inr e ↦ let back : (i == n) ≡ false = ground arith in simp (h, e, back, ==_refl i)
]

set_next_there :
    (i n : ℕ) (w : Layout)
    → (n == i) ≡ false
    → links (set_next i n w n) ≡ (some i, (w n).next_block)
unfolding set_next
set_next_there i n w h = elim (Bool-cases (points_to (w n).prev_block i)) [
  | inl e ↦ simp (h, e) (ap (λ p. (p, (w n).next_block)) (points_to_eq (w n).prev_block i e))
  | inr e ↦ simp (h, e, ==_refl n)
]

set_next_other :
    (i n j : ℕ) (w : Layout)
    → (n == i) ≡ false
    → (j == i) ≡ false
    → (j == n) ≡ false
    → links (set_next i n w j) ≡ links (w j)
unfolding set_next
set_next_other i n j w h k l = elim (Bool-cases (points_to (w n).prev_block i)) [
  | inl e ↦ simp (h, e, k)
  | inr e ↦ simp (h, e, k, l)
]

unset_prev_here : (n : ℕ) (w : Layout) → links (unset_prev n w n) ≡ (none, (w n).next_block)
unfolding unset_prev
unset_prev_here n w = rw (==_refl n) refl

unset_prev_other :
    (n j : ℕ) (w : Layout) → (j == n) ≡ false → links (unset_prev n w j) ≡ links (w j)
unfolding unset_prev
unset_prev_other n j w h = rw h refl

-- The links of block `j` once `n` follows `i`, and `o` does not.
abbrev pub relinked : ℕ → ℕ → ℕ → Layout → ℕ → Option ℕ × Option ℕ
relinked i n o w j =
    if j == i
    then ((w i).prev_block, some n)
    else if j == n
    then (some i, (w n).next_block)
    else if j == o
    then (none, (w o).next_block)
    else links (w j)

relinked_lem :
    (i n o j : ℕ) (w : Layout)
    → (n == i) ≡ false
    → (o == i) ≡ false
    → (o == n) ≡ false
    → links (unset_prev o (set_next i n w) j) ≡ relinked i n o w j
relinked_lem i n o j w h k l = elim (Bool-cases (j == o)) [
  | inl e ↦
      let at_o : j ≡ o = eq_of_== j o e in
      rw at_o (
        rw (k, l, ==_refl o)
          (unset_prev_here o (set_next i n w)
            ∙ ap (λ p. (none, p.1)) (set_next_other i n o w h k l)))
  | inr e ↦ rw e (
      unset_prev_other o j (set_next i n w) e ∙ (elim (Bool-cases (j == i)) [
        | inl f ↦ rw f (ap (λ x. links (set_next i n w x)) (eq_of_== j i f) ∙ set_next_here i n w h)
        | inr f ↦ rw f (elim (Bool-cases (j == n)) [
          | inl g ↦
              rw g (ap (λ x. links (set_next i n w x)) (eq_of_== j n g) ∙ set_next_there i n w h)
          | inr g ↦ rw g (set_next_other i n j w h f g)
        ])
      ]))
]

-- The block that a switch leads to, and the other one.
abbrev pub selected : Position → Option ℕ → Option ℕ → Option (ℕ × ℕ)
selected thru (some t) (some o) = some (t, o)
selected out (some t) (some o) = some (o, t)
selected _ _ _ = none

respond-links :
    (views : Motives) (p : Position) (i n o j : ℕ) (t u : Option ℕ) (w : Layout)
    → selected p t u ≡ some (n, o)
    → links ((respond_to_thrown_switch views p i t u w).0 j)
      ≡ links (unset_prev o (set_next i n w) j)
unfolding respond_to_thrown_switch
respond-links views thru i n o j (some t) (some u) w s =
    after_thrown-links views i t j (unset_prev u (set_next i t w))
    ∙ ap
        (λ (q : Option (ℕ × ℕ)). elim q [
          | none ↦ links (w j)
          | some x ↦ links (unset_prev x.1 (set_next i x.0 w) j)
        ])
        s
respond-links views out i n o j (some t) (some u) w s =
    after_thrown-links views i u j (unset_prev t (set_next i u w))
    ∙ ap
        (λ (q : Option (ℕ × ℕ)). elim q [
          | none ↦ links (w j)
          | some x ↦ links (unset_prev x.1 (set_next i x.0 w) j)
        ])
        s
respond-links views thru i n o j none u w s = absurd (cc s)
respond-links views thru i n o j (some t) none w s = absurd (cc s)
respond-links views out i n o j none u w s = absurd (cc s)
respond-links views out i n o j (some t) none w s = absurd (cc s)
respond-links views unsure i n o j t u w s = absurd (cc s)

-- Once the switch at the end of block `i` is thrown, the block that it leads to follows `i`, and `i` is before
-- it; nothing is before the other block; and every other link of the layout, that to the block
-- before `i` included, is as it was. This holds whatever train, stop or exception the throw causes.
-- The conditions are that the switch is set and stands, and that the three blocks differ.
pub thrown-links :
    (views : Motives) (p : Position) (i n o j : ℕ) (w : Layout)
    → selected p (w i).thru_block (w i).out_block ≡ some (n, o)
    → (n == i) ≡ false
    → (o == i) ≡ false
    → (o == n) ≡ false
    → links ((handle views (thrown p) i w).0 j) ≡ relinked i n o w j
unfolding handle
thrown-links views p i n o j w s h k l =
    respond-links views p i n o j (w i).thru_block (w i).out_block w s
    ∙ relinked_lem i n o j w h k l
