-- ===== src/Comm/Dispatcher/Subscriptions.antt =====
-- Who is subscribed to which topic after a change (comm/command_listener.py).
use py_legacy.Common.{
  ℕ, ◌≡◌, eq_of_==, refl, sym, ap, ◌∙◌, Bool, true, false, ◌&&◌, ◌||◌, List, [], ◌∷◌, arith, ◌==◌,
  if◌then◌else◌, Bool-cases, inl, inr,
}
use py_legacy.Utils.UniqueDeque.{has}
use py_legacy.Comm.Dispatcher.{
  Topic, Channels, same_topic, subscribers, has_channel, add_subscriber, set_subscribers,
  delete_channel,
}
use py_legacy.Comm.Dispatcher.Topics.{eq_of_same_topic, same_topic_refl}

abbrev pub is_subscribed : ℕ → Topic → Channels → Bool
is_subscribed s t cs = has s (subscribers t cs)

-- A topic is the same as another one or as a topic that is the same as that.
same_as : (t u w : Topic) → same_topic t u ≡ true → same_topic w t ≡ same_topic w u
same_as t u w h = ap (same_topic w) (eq_of_same_topic t u h)

pub subscribers-add_other :
    (s : ℕ) (t w : Topic) (cs : Channels)
    → same_topic w t ≡ false
    → subscribers w (add_subscriber s t cs) ≡ subscribers w cs
unfolding subscribers add_subscriber
subscribers-add_other s t w [] n = rw n refl
subscribers-add_other s t w ((u, ss) ∷ rest) n = elim (Bool-cases (same_topic t u)) [
  | inl e ↦ rw e (rw (sym (same_as t u w e) ∙ n) refl)
  | inr e ↦ rw e (elim (Bool-cases (same_topic w u)) [
    | inl f ↦ rw f refl
    | inr f ↦ rw f (subscribers-add_other s t w rest n)
  ])
]

pub subscribers-add :
    (s : ℕ) (t : Topic) (cs : Channels)
    → subscribers t (add_subscriber s t cs)
      ≡ (if has s (subscribers t cs) then subscribers t cs else s ∷ subscribers t cs)
unfolding subscribers add_subscriber has
subscribers-add s t [] = rw (same_topic_refl t) refl
subscribers-add s t ((u, ss) ∷ rest) = elim (Bool-cases (same_topic t u)) [
  | inl e ↦ rw e (rw e refl)
  | inr e ↦ rw e (rw e (subscribers-add s t rest))
]

pub has-added :
    (s s' : ℕ) (ss : List ℕ) → has s' (if has s ss then ss else s ∷ ss) ≡ ((s' == s) || has s' ss)
unfolding has
has-added s s' ss = elim (Bool-cases (has s ss)) [
  | inl e ↦ rw e (elim (Bool-cases (s' == s)) [
    | inl f ↦ rw f (ap (λ x. has x ss) (eq_of_== s' s f) ∙ e)
    | inr f ↦ rw f refl
  ])
  | inr e ↦ rw e refl
]

-- A subscription adds one pair of a subscriber and a topic.
pub is_subscribed-add :
    (s s' : ℕ) (t w : Topic) (cs : Channels)
    → is_subscribed s' w (add_subscriber s t cs)
      ≡ ((s' == s && same_topic w t) || is_subscribed s' w cs)
is_subscribed-add s s' t w cs = elim (Bool-cases (same_topic w t)) [
  | inl e ↦
      let p = eq_of_same_topic w t e in
      ap (λ x. has s' (subscribers x (add_subscriber s t cs))) p
      ∙ (ap (has s') (subscribers-add s t cs)
          ∙ (has-added s s' (subscribers t cs)
              ∙ (ap (λ x. (s' == s) || has s' (subscribers x cs)) (sym p) ∙ ground (arith))))
  | inr e ↦ ap (has s') (subscribers-add_other s t w cs e) ∙ ground arith
]

pub subscribers-set_other :
    (xs : List ℕ) (t w : Topic) (cs : Channels)
    → same_topic w t ≡ false
    → subscribers w (set_subscribers xs t cs) ≡ subscribers w cs
unfolding subscribers set_subscribers
subscribers-set_other xs t w [] n = refl
subscribers-set_other xs t w ((u, ss) ∷ rest) n = elim (Bool-cases (same_topic t u)) [
  | inl e ↦ rw e (rw (sym (same_as t u w e) ∙ n) refl)
  | inr e ↦ rw e (elim (Bool-cases (same_topic w u)) [
    | inl f ↦ rw f refl
    | inr f ↦ rw f (subscribers-set_other xs t w rest n)
  ])
]

pub subscribers-set :
    (xs : List ℕ) (t : Topic) (cs : Channels)
    → has_channel t cs ≡ true
    → subscribers t (set_subscribers xs t cs) ≡ xs
unfolding subscribers set_subscribers has_channel
subscribers-set xs t [] h = absurd (cc h)
subscribers-set xs t ((u, ss) ∷ rest) h = elim (Bool-cases (same_topic t u)) [
  | inl e ↦ rw e (rw e refl)
  | inr e ↦ rw e (rw e (subscribers-set xs t rest (rw e at h)))
]

pub subscribers-delete_other :
    (t w : Topic) (cs : Channels)
    → same_topic w t ≡ false
    → subscribers w (delete_channel t cs) ≡ subscribers w cs
unfolding subscribers delete_channel
subscribers-delete_other t w [] n = refl
subscribers-delete_other t w ((u, ss) ∷ rest) n = elim (Bool-cases (same_topic t u)) [
  | inl e ↦ rw e (rw (sym (same_as t u w e) ∙ n) refl)
  | inr e ↦ rw e (elim (Bool-cases (same_topic w u)) [
    | inl f ↦ rw f refl
    | inr f ↦ rw f (subscribers-delete_other t w rest n)
  ])
]

-- No topic has two channels, as no key stands in a dict twice.
abbrev pub IsDict : Channels → Type 0
IsDict [] = Unit
IsDict ((u, ss) ∷ rest) = (has_channel u rest ≡ false) × IsDict rest

pub subscribers-no_channel :
    (t : Topic) (cs : Channels) → has_channel t cs ≡ false → subscribers t cs ≡ []
unfolding subscribers has_channel
subscribers-no_channel t [] h = refl
subscribers-no_channel t ((u, ss) ∷ rest) h = elim (Bool-cases (same_topic t u)) [
  | inl e ↦ absurd (cc (rw e at h))
  | inr e ↦ rw e (subscribers-no_channel t rest (rw e at h))
]

pub subscribers-delete :
    (t : Topic) (cs : Channels) → IsDict cs → subscribers t (delete_channel t cs) ≡ []
unfolding subscribers delete_channel
subscribers-delete t [] d = refl
subscribers-delete t ((u, ss) ∷ rest) (p, d) = elim (Bool-cases (same_topic t u)) [
  | inl e ↦
      rw e
        (subscribers-no_channel t rest (ap (λ x. has_channel x rest) (eq_of_same_topic t u e) ∙ p))
  | inr e ↦ rw e (rw e (subscribers-delete t rest d))
]
