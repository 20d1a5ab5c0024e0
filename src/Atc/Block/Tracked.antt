-- ===== src/Atc/Block/Tracked.antt =====
-- What a block knows of its train, in every layout that links, switches and signals lead to (atc/block.py).
use py_legacy.Common.{
  ℕ, ◌≡◌, refl, Bool, true, false, ◌&&◌, ◌||◌, Option, none, some, List, ◌==◌, Bool-cases, inl, inr,
  Result, ok, raise, attribute_error, value_error, leb, if◌then◌else◌,
}
use mathlib.Core.Path.{subst}
use py_legacy.Atc.Block.{Block, Layout, Motives, Event, put}
use py_legacy.Atc.Setup.{is_id, is_id_or_none, new_block, set_prev, set_dialog}
use py_legacy.Atc.Signals.{Position, Signal, set_next, next_switch, handle}
use py_legacy.Atc.Block.Known.{
  is_tracked, IsTracked, put-IsTracked, set_next-IsTracked, set_prev-IsTracked,
  set_dialog-IsTracked, respond-IsTracked, handle-IsTracked,
}

abbrev IsKept : Result (Layout × List Event) → Type 0
IsKept (ok r) = IsTracked r.0
IsKept (raise e) = Unit

refused-IsKept :
    (valid : Bool) → IsKept (if valid then raise attribute_error else raise value_error)
refused-IsKept true = tt
refused-IsKept false = tt

next_switch-IsKept :
    (views : Motives) (id : ℕ) (t o : Option ℕ) (i : ℕ) (p : Position) (w : Layout)
    → IsTracked w
    → IsKept (next_switch views id t o i p w)
unfolding next_switch
next_switch-IsKept views id none o i p w h = refused-IsKept (leb 1 id && leb id 99)
next_switch-IsKept views id (some t) none i p w h = refused-IsKept (leb 1 id && leb id 99)
next_switch-IsKept views id (some t) (some o) i p w h = elim (Bool-cases (leb 1 id && leb id 99)) [
  | inr e ↦ rw e tt
  | inl e ↦ rw e (elim (Bool-cases (i == t || (i == o || t == o))) [
    | inl f ↦ rw f tt
    | inr f ↦ rw f (
        respond-IsTracked views p i (some t) (some o)
          (put i (record (w i) { thru_block = some t; out_block = some o }) w)
          (put-IsTracked i _ w (h i) h))
  ])
]

-- What `__init__` gives
pub data IsBuilt (b : Block) : Type 0 where
  built :
      (id : ℕ) (sensor : Option ℕ) (in_use : Bool) (enter slow stop l : Option Bool) (d : Bool)
      → new_block id sensor in_use enter slow stop l d ≡ ok b
      → IsBuilt b

abbrev IsFresh : Result Block → Type 0
IsFresh (ok b) = is_tracked b ≡ true
IsFresh (raise e) = Unit

new_block-IsFresh :
    (id : ℕ) (sensor : Option ℕ) (in_use : Bool) (enter slow stop l : Option Bool) (d : Bool)
    → IsFresh (new_block id sensor in_use enter slow stop l d)
unfolding new_block
new_block-IsFresh id sensor in_use enter slow stop l d =
    elim (Bool-cases (is_id id && is_id_or_none sensor)) [
      | inr e ↦ rw e tt
      | inl e ↦ rw e (elim (Bool-cases in_use) [ inl f ↦ rw f tt | inr f ↦ rw f refl ])
    ]

IsBuilt-is_tracked : (b : Block) → IsBuilt b → is_tracked b ≡ true
IsBuilt-is_tracked b (built id sensor in_use enter slow stop l d h) =
    subst IsFresh h (new_block-IsFresh id sensor in_use enter slow stop l d)

-- Layouts start with new blocks; they are linked, switches are set between them, and signals come, in
-- any order and at any block.
pub data Reach (views : Motives) : Layout → Type 0 where
  begun : (w : Layout) → ((i : ℕ) → IsBuilt (w i)) → Reach views w
  linked : (i n : ℕ) (w : Layout) → Reach views w → Reach views (set_next i n w)
  linked_back : (i p : ℕ) (w : Layout) → Reach views w → Reach views (set_prev i p w)
  dialog_set : (i : ℕ) (d : Bool) (w : Layout) → Reach views w → Reach views (set_dialog i d w)
  switched :
      (id : ℕ) (t o : Option ℕ) (i : ℕ) (p : Position) (w : Layout) (r : Layout × List Event)
      → Reach views w
      → next_switch views id t o i p w ≡ ok r
      → Reach views r.0
  signalled : (s : Signal) (i : ℕ) (w : Layout) → Reach views w → Reach views (handle views s i w).0

-- In every layout that links, switches and signals lead to, in any order, a block whose train is not known
-- knows neither a direction nor a speed.
pub Reach-is_tracked :
    (views : Motives) (w : Layout) → Reach views w → (i : ℕ) → is_tracked (w i) ≡ true
Reach-is_tracked views w (begun _ f) i = IsBuilt-is_tracked (w i) (f i)
Reach-is_tracked views _ (linked i n w r) j =
    set_next-IsTracked i n w (Reach-is_tracked views w r) j
Reach-is_tracked views _ (linked_back i p w r) j =
    set_prev-IsTracked i p w (Reach-is_tracked views w r) j
Reach-is_tracked views _ (dialog_set i d w r) j =
    set_dialog-IsTracked i d w (Reach-is_tracked views w r) j
Reach-is_tracked views _ (switched id t o i p w r h e) j =
    subst IsKept e (next_switch-IsKept views id t o i p w (Reach-is_tracked views w h)) j
Reach-is_tracked views _ (signalled s i w r) j =
    handle-IsTracked views s i w (Reach-is_tracked views w r) j
