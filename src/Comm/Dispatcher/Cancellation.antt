-- ===== src/Comm/Dispatcher/Cancellation.antt =====
-- Who is subscribed after a cancellation (comm/command_listener.py).
use mathlib.Core.Path.{subst}
use py_legacy.Common.{
  ℕ, ◌≡◌, refl, ap, ◌∙◌, true, false, not, ◌&&◌, List, [], ◌∷◌, arith, ◌==◌, Bool-cases, inl, inr,
  Result, ok, raise, Result-cases,
}
use py_legacy.Utils.UniqueDeque.{has, discard}
use py_legacy.Utils.UniqueDeque.Lists.{has-discard}
use py_legacy.Comm.Dispatcher.{
  Topic, broadcast, scope_topic, address_topic, command_topic, data_topic, Channels, Dispatcher,
  same_topic, subscribers, has_channel, set_subscribers, delete_channel, is_empty, unsubscribe_any,
  unsubscribe_topic, unsubscribe,
}
use py_legacy.Comm.Dispatcher.Topics.{eq_of_same_topic}
use py_legacy.Comm.Dispatcher.Subscriptions.{
  IsDict, is_subscribed, subscribers-set, subscribers-set_other, subscribers-delete,
  subscribers-delete_other, subscribers-no_channel,
}
use py_legacy.Comm.Dispatcher.Invariant.{has_channel-subscribed, Reach, Reach-IsWellFormed}

-- One pair of a subscriber and a topic is taken off.
IsWithout : ℕ → Topic → Channels → Channels → Type 0
IsWithout s t old new =
    (s' : ℕ) (w : Topic)
    → is_subscribed s' w new ≡ (is_subscribed s' w old && not (s' == s && same_topic w t))

set_subscribers-IsWithout :
    (s : ℕ) (t : Topic) (cs : Channels)
    → has_channel t cs ≡ true
    → IsWithout s t cs (set_subscribers (discard s (subscribers t cs)) t cs)
unfolding IsWithout
set_subscribers-IsWithout s t cs h s' w = elim (Bool-cases (same_topic w t)) [
  | inl e ↦
      let p = eq_of_same_topic w t e in
      let xs = discard s (subscribers t cs) in
      ap (λ x. is_subscribed s' x (set_subscribers xs t cs)) p
      ∙ (ap (has s') (subscribers-set xs t cs h)
          ∙ (has-discard s' s (subscribers t cs) ∙ rw e (rw p (ground arith))))
  | inr e ↦
      ap (has s') (subscribers-set_other (discard s (subscribers t cs)) t w cs e)
      ∙ rw e (ground arith)
]

-- A channel with no other subscriber is deleted.
delete_channel-IsWithout :
    (s : ℕ) (t : Topic) (cs : Channels)
    → IsDict cs
    → is_empty (discard s (subscribers t cs)) ≡ true
    → IsWithout s t cs (delete_channel t cs)
unfolding IsWithout
delete_channel-IsWithout s t cs d h s' w = elim (Bool-cases (same_topic w t)) [
  | inl e ↦
      let p = eq_of_same_topic w t e in
      ap (λ x. is_subscribed s' x (delete_channel t cs)) p
      ∙ (ap (has s') (subscribers-delete t cs d)
          ∙ (none_left (discard s (subscribers t cs)) h
              ∙ (has-discard s' s (subscribers t cs) ∙ rw e (rw p (ground arith)))))
  | inr e ↦ ap (has s') (subscribers-delete_other t w cs e) ∙ rw e (ground arith)
]
  where
    none_left : (xs : List ℕ) → is_empty xs ≡ true → has s' [] ≡ has s' xs
    none_left [] h = refl
    none_left (x ∷ xs) h = absurd (cc h)

abbrev IsTakenOff : ℕ → Topic → Channels → Result Dispatcher → Type 0
IsTakenOff s t cs (ok d) = IsWithout s t cs d.channels
IsTakenOff s t cs (raise e) = is_subscribed s t cs ≡ false

unsubscribe_any-IsTakenOff :
    (s : ℕ) (d : Dispatcher) → IsTakenOff s broadcast d.channels (unsubscribe_any s d)
unfolding unsubscribe_any
unsubscribe_any-IsTakenOff s d = elim (Bool-cases (has s (subscribers broadcast d.channels))) [
  | inl e ↦ rw e (
      set_subscribers-IsWithout s broadcast d.channels
        (has_channel-subscribed s broadcast d.channels e))
  | inr e ↦ rw e e
]

unsubscribe_topic-IsTakenOff :
    (s : ℕ) (t : Topic) (d : Dispatcher)
    → IsDict d.channels
    → IsTakenOff s t d.channels (unsubscribe_topic s t d)
unfolding unsubscribe_topic IsWithout has
unsubscribe_topic-IsTakenOff s t d p = elim (Bool-cases (has_channel t d.channels)) [
  | inl c ↦ rw c (elim (Bool-cases (has s (subscribers t d.channels))) [
    | inl e ↦ rw e (elim (Bool-cases (is_empty (discard s (subscribers t d.channels)))) [
      | inl f ↦ rw f (delete_channel-IsWithout s t d.channels p f)
      | inr f ↦ rw f (set_subscribers-IsWithout s t d.channels c)
    ])
    | inr e ↦ rw e e
  ])
  | inr c ↦ rw c (λ s' w. elim (Bool-cases (same_topic w t)) [
    | inl e ↦
        let none_there = ap (has s') (subscribers-no_channel t d.channels c) in
        rw e (rw (eq_of_same_topic w t e) (none_there ∙ ground (arith, none_there)))
    | inr e ↦ rw e (ground arith)
  ])
]

unsubscribe-IsTakenOff :
    (s : ℕ) (t : Topic) (d : Dispatcher)
    → IsDict d.channels
    → IsTakenOff s t d.channels (unsubscribe s t d)
unfolding unsubscribe
unsubscribe-IsTakenOff s broadcast d p = unsubscribe_any-IsTakenOff s d
unsubscribe-IsTakenOff s (scope_topic c) d p = unsubscribe_topic-IsTakenOff s (scope_topic c) d p
unsubscribe-IsTakenOff s (address_topic c a) d p =
    unsubscribe_topic-IsTakenOff s (address_topic c a) d p
unsubscribe-IsTakenOff s (command_topic c a m) d p =
    unsubscribe_topic-IsTakenOff s (command_topic c a m) d p
unsubscribe-IsTakenOff s (data_topic c a m n) d p =
    unsubscribe_topic-IsTakenOff s (data_topic c a m n) d p

-- In any state that subscriptions lead to, a subscriber of a topic can cancel the subscription, and this
-- takes off that pair of a subscriber and a topic and no other.
pub unsubscribe-subscribed :
    (s : ℕ) (t : Topic) (d : Dispatcher)
    → Reach d
    → is_subscribed s t d.channels ≡ true
    → (d' : Dispatcher) × (unsubscribe s t d ≡ ok d')
      × ((s' : ℕ) (w : Topic)
          → is_subscribed s' w d'.channels
            ≡ (is_subscribed s' w d.channels && not (s' == s && same_topic w t)))
unfolding IsWithout
unsubscribe-subscribed s t d reached h =
    let off = unsubscribe-IsTakenOff s t d (Reach-IsWellFormed d reached).0 in
    elim (Result-cases (unsubscribe s t d)) [
      | inl (d', e) ↦ (d', e, subst (IsTakenOff s t d.channels) e off)
      | inr (x, e) ↦ absurd (cc (h, subst (IsTakenOff s t d.channels) e off))
    ]
