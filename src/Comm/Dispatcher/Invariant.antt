-- ===== src/Comm/Dispatcher/Invariant.antt =====
-- What holds of a dispatcher after any subscriptions and cancellations (comm/command_listener.py).
use py_legacy.Common.{
  ℕ, ◌≡◌, refl, sym, ap, ◌∙◌, true, false, not, ◌||◌, List, [], ◌∷◌, arith, if◌then◌else◌,
  Bool-cases, inl, inr, Result, ok, raise,
}
use mathlib.Core.Path.{subst}
use py_legacy.Utils.UniqueDeque.{has, discard}
use py_legacy.Comm.Dispatcher.{
  Topic, broadcast, scope_topic, address_topic, command_topic, data_topic, Channels, Dispatcher,
  same_topic, subscribers, has_channel, add_subscriber, set_subscribers, delete_channel, is_empty,
  subscribe, unsubscribe_any, unsubscribe_topic, unsubscribe,
}
use py_legacy.Comm.Dispatcher.Topics.{eq_of_same_topic, same_topic_sym}
use py_legacy.Comm.Dispatcher.Subscriptions.{
  IsDict, subscribers-add, subscribers-add_other, subscribers-set, subscribers-set_other,
  subscribers-delete_other,
}

has_channel-add :
    (s : ℕ) (t w : Topic) (cs : Channels)
    → has_channel w (add_subscriber s t cs) ≡ (has_channel w cs || same_topic w t)
unfolding has_channel add_subscriber
has_channel-add s t w [] = ground arith
has_channel-add s t w ((u, ss) ∷ rest) = elim (Bool-cases (same_topic t u)) [
  | inl e ↦ rw e (rw (ap (same_topic w) (eq_of_same_topic t u e)) (ground arith))
  | inr e ↦ rw e (ground (arith, has_channel-add s t w rest))
]

has_channel-set :
    (xs : List ℕ) (t w : Topic) (cs : Channels)
    → has_channel w (set_subscribers xs t cs) ≡ has_channel w cs
unfolding has_channel set_subscribers
has_channel-set xs t w [] = refl
has_channel-set xs t w ((u, ss) ∷ rest) = elim (Bool-cases (same_topic t u)) [
  | inl e ↦ rw e refl
  | inr e ↦ rw e (ap (λ x. same_topic w u || x) (has_channel-set xs t w rest))
]

has_channel-delete :
    (t w : Topic) (cs : Channels)
    → has_channel w cs ≡ false
    → has_channel w (delete_channel t cs) ≡ false
unfolding has_channel delete_channel
has_channel-delete t w [] h = refl
has_channel-delete t w ((u, ss) ∷ rest) h = elim (Bool-cases (same_topic t u)) [
  | inl e ↦ rw e (ground arith)
  | inr e ↦ rw e (ground (arith, has_channel-delete t w rest))
]

add_subscriber-IsDict :
    (s : ℕ) (t : Topic) (cs : Channels) → IsDict cs → IsDict (add_subscriber s t cs)
unfolding add_subscriber has_channel
add_subscriber-IsDict s t [] d = (refl, tt)
add_subscriber-IsDict s t ((u, ss) ∷ rest) (p, d) = elim (Bool-cases (same_topic t u)) [
  | inl e ↦ rw e (p, d)
  | inr e ↦ rw e (
    has_channel-add s t u rest ∙ ground (arith, same_topic_sym u t),
    add_subscriber-IsDict s t rest d,
  )
]

set_subscribers-IsDict :
    (xs : List ℕ) (t : Topic) (cs : Channels) → IsDict cs → IsDict (set_subscribers xs t cs)
unfolding set_subscribers
set_subscribers-IsDict xs t [] d = tt
set_subscribers-IsDict xs t ((u, ss) ∷ rest) (p, d) = elim (Bool-cases (same_topic t u)) [
  | inl e ↦ rw e (p, d)
  | inr e ↦ rw e (has_channel-set xs t u rest ∙ p, set_subscribers-IsDict xs t rest d)
]

delete_channel-IsDict : (t : Topic) (cs : Channels) → IsDict cs → IsDict (delete_channel t cs)
unfolding delete_channel
delete_channel-IsDict t [] d = tt
delete_channel-IsDict t ((u, ss) ∷ rest) (p, d) = elim (Bool-cases (same_topic t u)) [
  | inl e ↦ rw e d
  | inr e ↦ rw e (has_channel-delete t u rest p, delete_channel-IsDict t rest d)
]

-- The flag of broadcasts is set while somebody is subscribed to them.
abbrev pub IsWellFormed : Dispatcher → Type 0
IsWellFormed d =
    IsDict d.channels × (d.broadcasts ≡ not (is_empty (subscribers broadcast d.channels)))

added-is_empty : (s : ℕ) (ss : List ℕ) → is_empty (if has s ss then ss else s ∷ ss) ≡ false
unfolding has
added-is_empty s [] = refl
added-is_empty s (x ∷ ss) = elim (Bool-cases (has s (x ∷ ss))) [
  | inl e ↦ rw e refl
  | inr e ↦ rw e refl
]

add_other-IsWellFormed :
    (s : ℕ) (t : Topic) (d : Dispatcher)
    → same_topic broadcast t ≡ false
    → IsWellFormed d
    → IsWellFormed (record d { channels = add_subscriber s t d.channels })
add_other-IsWellFormed s t d n (p, q) = (
  add_subscriber-IsDict s t d.channels p,
  q ∙ ap (λ ss. not (is_empty ss)) (sym (subscribers-add_other s t broadcast d.channels n)),
)

pub subscribe-IsWellFormed :
    (s : ℕ) (t : Topic) (d : Dispatcher) → IsWellFormed d → IsWellFormed (subscribe s t d)
unfolding subscribe
subscribe-IsWellFormed s broadcast d (p, q) = (
  add_subscriber-IsDict s broadcast d.channels p,
  sym (ap not (ap is_empty (subscribers-add s broadcast d.channels) ∙ added-is_empty s _)),
)
subscribe-IsWellFormed s (scope_topic c) d w = add_other-IsWellFormed s _ d refl w
subscribe-IsWellFormed s (address_topic c a) d w = add_other-IsWellFormed s _ d refl w
subscribe-IsWellFormed s (command_topic c a m) d w = add_other-IsWellFormed s _ d refl w
subscribe-IsWellFormed s (data_topic c a m n) d w = add_other-IsWellFormed s _ d refl w

abbrev IsKept : Result Dispatcher → Type 0
IsKept (ok d) = IsWellFormed d
IsKept (raise e) = Unit

pub has_channel-subscribed :
    (s : ℕ) (t : Topic) (cs : Channels) → has s (subscribers t cs) ≡ true → has_channel t cs ≡ true
unfolding has subscribers has_channel
has_channel-subscribed s t [] h = absurd (cc h)
has_channel-subscribed s t ((u, ss) ∷ rest) h = elim (Bool-cases (same_topic t u)) [
  | inl e ↦ rw e refl
  | inr e ↦ rw e (has_channel-subscribed s t rest (rw e at h))
]

subscribed-is_empty : (s : ℕ) (ss : List ℕ) → has s ss ≡ true → is_empty ss ≡ false
unfolding has
subscribed-is_empty s [] h = absurd (cc h)
subscribed-is_empty s (x ∷ ss) h = refl

unsubscribe_any-IsKept : (s : ℕ) (d : Dispatcher) → IsWellFormed d → IsKept (unsubscribe_any s d)
unfolding unsubscribe_any
unsubscribe_any-IsKept s d (p, q) = elim (Bool-cases (has s (subscribers broadcast d.channels))) [
  | inl e ↦
      let left =
        subscribers-set (discard s (subscribers broadcast d.channels)) broadcast d.channels
          (has_channel-subscribed s broadcast d.channels e) in
      rw e (
        set_subscribers-IsDict _ broadcast d.channels p,
        elim (Bool-cases (is_empty (discard s (subscribers broadcast d.channels)))) [
          | inl f ↦ rw f (sym (ap (λ ss. not (is_empty ss)) left ∙ ap not f))
          | inr f ↦ rw f (
              q
              ∙ ap not (subscribed-is_empty s _ e)
              ∙ sym (ap (λ ss. not (is_empty ss)) left ∙ ap not f))
        ],
      )
  | inr e ↦ rw e tt
]

unsubscribe_topic-IsKept :
    (s : ℕ) (t : Topic) (d : Dispatcher)
    → same_topic broadcast t ≡ false
    → IsWellFormed d
    → IsKept (unsubscribe_topic s t d)
unfolding unsubscribe_topic
unsubscribe_topic-IsKept s t d n (p, q) = elim (Bool-cases (has_channel t d.channels)) [
  | inl c ↦ rw c (elim (Bool-cases (has s (subscribers t d.channels))) [
    | inl e ↦ rw e (elim (Bool-cases (is_empty (discard s (subscribers t d.channels)))) [
      | inl f ↦ rw f (
        delete_channel-IsDict t d.channels p,
        q ∙ ap (λ ss. not (is_empty ss)) (sym (subscribers-delete_other t broadcast d.channels n)),
      )
      | inr f ↦ rw f (
        set_subscribers-IsDict _ t d.channels p,
        q ∙ ap (λ ss. not (is_empty ss)) (sym (subscribers-set_other _ t broadcast d.channels n)),
      )
    ])
    | inr e ↦ rw e tt
  ])
  | inr c ↦ rw c (p, q)
]

unsubscribe-IsKept :
    (s : ℕ) (t : Topic) (d : Dispatcher) → IsWellFormed d → IsKept (unsubscribe s t d)
unfolding unsubscribe
unsubscribe-IsKept s broadcast d w = unsubscribe_any-IsKept s d w
unsubscribe-IsKept s (scope_topic c) d w = unsubscribe_topic-IsKept s (scope_topic c) d refl w
unsubscribe-IsKept s (address_topic c a) d w =
    unsubscribe_topic-IsKept s (address_topic c a) d refl w
unsubscribe-IsKept s (command_topic c a m) d w =
    unsubscribe_topic-IsKept s (command_topic c a m) d refl w
unsubscribe-IsKept s (data_topic c a m n) d w =
    unsubscribe_topic-IsKept s (data_topic c a m n) d refl w

-- A dispatcher starts with no channel; whoever runs in the process may subscribe and cancel.
abbrev pub started : Dispatcher
started = record { channels = []; broadcasts = false }

pub data Step : Dispatcher → Dispatcher → Type 0 where
  subscribes : (s : ℕ) (t : Topic) (d : Dispatcher) → Step d (subscribe s t d)
  unsubscribes : (s : ℕ) (t : Topic) (d d' : Dispatcher) → unsubscribe s t d ≡ ok d' → Step d d'

pub data Reach : Dispatcher → Type 0 where
  start : Reach started
  step : (d d' : Dispatcher) → Reach d → Step d d' → Reach d'

Step-IsWellFormed : (d d' : Dispatcher) → Step d d' → IsWellFormed d → IsWellFormed d'
Step-IsWellFormed d _ (subscribes s t _) w = subscribe-IsWellFormed s t d w
Step-IsWellFormed d d' (unsubscribes s t _ _ h) w = subst IsKept h (unsubscribe-IsKept s t d w)

-- In every state of the dispatcher that subscriptions and cancellations lead to, no topic has two
-- channels, and the flag of broadcasts is set exactly while somebody is subscribed to them.
pub Reach-IsWellFormed : (d : Dispatcher) → Reach d → IsWellFormed d
unfolding subscribers
Reach-IsWellFormed _ start = (tt, refl)
Reach-IsWellFormed d (step d₀ _ r s) = Step-IsWellFormed d₀ d s (Reach-IsWellFormed d₀ r)
