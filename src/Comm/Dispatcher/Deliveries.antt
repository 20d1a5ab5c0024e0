-- ===== src/Comm/Dispatcher/Deliveries.antt =====
-- Who is called for a request (comm/command_listener.py).
use py_legacy.Common.{
  ℕ, ◌≡◌, refl, sym, ap, ◌∙◌, Bool, true, false, not, ◌&&◌, ◌||◌, List, [], ◌∷◌, ◌++◌, arith, ◌==◌,
  if◌then◌else◌, Bool-cases, inl, inr,
}
use py_legacy.Utils.UniqueDeque.{has}
use py_legacy.Protocol.Scope.{same_scope}
use py_legacy.Common.Int.{eq_ℤ}
use py_legacy.Comm.Dispatcher.{
  Topic, broadcast, scope_topic, address_topic, command_topic, data_topic, Channels, Dispatcher,
  same_topic, subscribers, add_subscriber, subscribe, Request, Event, called, publish_to, publish,
  publish_all, publish_mobile, is_mobile, Settings, publish_topics,
}
use py_legacy.Comm.Dispatcher.Topics.{eq_of_same_topic, same_topic_sym}
use py_legacy.Comm.Dispatcher.Subscriptions.{is_subscribed, is_subscribed-add, has-added}

abbrev pub is_call : ℕ → Event → Bool
is_call s (called s' r) = s == s'
is_call s _ = false

-- Whether the subscriber is called.
unfoldable pub is_called : ℕ → List Event → Bool
is_called s [] = false
is_called s (e ∷ es) = is_call s e || is_called s es

pub is_called-append :
    (s : ℕ) (es es' : List Event) → is_called s (es ++ es') ≡ (is_called s es || is_called s es')
unfolding is_called
is_called-append s [] es' = refl
is_called-append s (e ∷ es) es' = ground (arith, is_called-append s es es')

pub is_called-publish_to :
    (s : ℕ) (ss : List ℕ) (r : Request) → is_called s (publish_to ss r) ≡ has s ss
unfolding is_called publish_to has
is_called-publish_to s [] r = refl
is_called-publish_to s (x ∷ ss) r = ap (λ b. s == x || b) (is_called-publish_to s ss r)

is_called-added :
    (s s' : ℕ) (ss : List ℕ) (r : Request)
    → is_called s' (publish_to (if has s ss then ss else s ∷ ss) r)
      ≡ (s' == s || is_called s' (publish_to ss r))
is_called-added s s' ss r =
    is_called-publish_to s' _ r
    ∙ (has-added s s' ss ∙ ap (λ b. s' == s || b) (sym (is_called-publish_to s' ss r)))

pub is_called-publish_all :
    (s s' : ℕ) (t : Topic) (cs : Channels) (r : Request)
    → is_called s' (publish_all (add_subscriber s t cs) r)
      ≡ (s' == s || is_called s' (publish_all cs r))
unfolding publish_all add_subscriber publish_to is_called
is_called-publish_all s s' t [] r = refl
is_called-publish_all s s' t ((u, ss) ∷ rest) r = elim (Bool-cases (same_topic t u)) [
  | inl e ↦ rw e (
      rw (is_called-append s' (publish_to (if has s ss then ss else s ∷ ss) r) (publish_all rest r))
        ground
        (
          arith,
          is_called-added s s' ss r,
          is_called-append s' (publish_to ss r) (publish_all rest r),
        ))
  | inr e ↦ rw e (
      ground (
        arith,
        is_called-append s' (publish_to ss r) (publish_all (add_subscriber s t rest) r),
        is_called-publish_all s s' t rest r,
        is_called-append s' (publish_to ss r) (publish_all rest r),
      ))
]

is_called-guarded :
    (s : ℕ) (b : Bool) (es es' : List Event)
    → is_called s (if b then es ++ es' else es') ≡ ((b && is_called s es) || is_called s es')
is_called-guarded s true es es' = is_called-append s es es'
is_called-guarded s false es es' = refl

pub is_called-publish_mobile :
    (s s' : ℕ) (t : Topic) (cs : Channels) (r : Request)
    → is_called s' (publish_mobile (add_subscriber s t cs) r)
      ≡ ((s' == s && is_mobile t) || is_called s' (publish_mobile cs r))
unfolding publish_mobile add_subscriber publish_to is_called
is_called-publish_mobile s s' t [] r =
    is_called-guarded s' (is_mobile t) (called s r ∷ []) [] ∙ ground arith
is_called-publish_mobile s s' t ((u, ss) ∷ rest) r = elim (Bool-cases (same_topic t u)) [
  | inl e ↦ rw e (
      rw (ap is_mobile (eq_of_same_topic t u e)) (
        ground (
          arith,
          is_called-guarded s' (is_mobile u) (publish_to (if has s ss then ss else s ∷ ss) r)
              (publish_mobile rest r),
          is_called-added s s' ss r,
          is_called-guarded s' (is_mobile u) (publish_to ss r) (publish_mobile rest r),
        )))
  | inr e ↦ rw e (
      ground (
        arith,
        is_called-guarded s' (is_mobile u) (publish_to ss r)
            (publish_mobile (add_subscriber s t rest) r),
        is_called-publish_mobile s s' t rest r,
        is_called-guarded s' (is_mobile u) (publish_to ss r) (publish_mobile rest r),
      ))
]

-- Whether a command is meant for those who have subscribed to a topic: the topic names what it is about,
-- it is a halt, which is for everybody, or it halts the engines and trains.
abbrev pub covers : Topic → Request → Bool
covers broadcast r = false
covers (scope_topic s) r = same_scope s r.scope
covers (address_topic s a) r = same_scope s r.scope && a == r.address
covers (command_topic s a c) r = same_scope s r.scope && (a == r.address && c == r.command)
covers (data_topic s a c n) r =
    same_scope s r.scope
    && (a == r.address && (c == r.command && (eq_ℤ n r.command_data && r.is_data)))

-- With the channel of broadcasts left aside.
abbrev pub addresses : Settings → Topic → Request → Bool
addresses st t r =
    if r.is_halt
    then not (st.filter_updates && r.is_filtered)
    else if r.is_system_halt
    then is_mobile t
    else covers t r

abbrev pub is_broadcast : Topic → Bool
is_broadcast broadcast = true
is_broadcast _ = false

abbrev pub concerns : Settings → Topic → Request → Bool
concerns st t r = is_broadcast t || addresses st t r

pub subscribe_channels :
    (s : ℕ) (t : Topic) (d : Dispatcher)
    → (subscribe s t d).channels ≡ add_subscriber s t d.channels
unfolding subscribe
subscribe_channels s broadcast d = refl
subscribe_channels s (scope_topic c) d = refl
subscribe_channels s (address_topic c a) d = refl
subscribe_channels s (command_topic c a m) d = refl
subscribe_channels s (data_topic c a m n) d = refl

pub is_called-publish :
    (s s' : ℕ) (t w : Topic) (d : Dispatcher) (r : Request)
    → is_called s' (publish (subscribe s t d) w r)
      ≡ ((s' == s && same_topic w t) || is_called s' (publish d w r))
unfolding publish
is_called-publish s s' t w d r =
    is_called-publish_to s' (subscribers w (subscribe s t d).channels) r
    ∙ (ap (is_subscribed s' w) (subscribe_channels s t d)
        ∙ (is_subscribed-add s s' t w d.channels
            ∙ ap (λ b. (s' == s && same_topic w t) || b)
                (sym (is_called-publish_to s' (subscribers w d.channels) r))))

-- The topics of a command, of which one covers it.
covers_lem :
    (t : Topic) (r : Request)
    → covers t r ≡ (
        (r.is_data && same_topic (data_topic r.scope r.address r.command r.command_data) t)
        || (same_topic (command_topic r.scope r.address r.command) t
            || (same_topic (address_topic r.scope r.address) t
                || same_topic (scope_topic r.scope) t)))
covers_lem broadcast r = ground arith
covers_lem (scope_topic s) r = ground (arith, same_topic_sym (scope_topic s) (scope_topic r.scope))
covers_lem (address_topic s a) r =
    ground (arith, same_topic_sym (address_topic s a) (address_topic r.scope r.address))
covers_lem (command_topic s a c) r =
    ground (arith, same_topic_sym (command_topic s a c) (command_topic r.scope r.address r.command))
covers_lem (data_topic s a c n) r = ground (
  arith,
  same_topic_sym (data_topic s a c n) (data_topic r.scope r.address r.command r.command_data),
)

pub is_called-if :
    (s : ℕ) (b : Bool) (es : List Event)
    → is_called s (if b then es else []) ≡ (b && is_called s es)
unfolding is_called
is_called-if s true es = refl
is_called-if s false es = refl

publish_topics_lem :
    (s : ℕ) (d : Dispatcher) (r : Request)
    → is_called s (publish_topics d r) ≡ (
        (r.is_data
          && is_called s (publish d (data_topic r.scope r.address r.command r.command_data) r))
        || (is_called s (publish d (command_topic r.scope r.address r.command) r)
            || (is_called s (publish d (address_topic r.scope r.address) r)
                || is_called s (publish d (scope_topic r.scope) r))))
unfolding publish_topics is_called
publish_topics_lem s d r =
    let about_data = publish d (data_topic r.scope r.address r.command r.command_data) r in
    let about_command = publish d (command_topic r.scope r.address r.command) r in
    let about_address = publish d (address_topic r.scope r.address) r in
    let about_scope = publish d (scope_topic r.scope) r in
    let with_data = if r.is_data then about_data else [] in
    is_called-append s with_data (about_command ++ (about_address ++ about_scope))
    ∙ (ap (λ b. is_called s with_data || b)
          (is_called-append s about_command (about_address ++ about_scope)
            ∙ ap (λ b. is_called s about_command || b)
                (is_called-append s about_address about_scope))
        ∙ ap
            (λ b.
              b
              || (is_called s about_command
                  || (is_called s about_address || is_called s about_scope)))
            (is_called-if s r.is_data about_data))

pub is_called-publish_topics :
    (s s' : ℕ) (t : Topic) (d : Dispatcher) (r : Request)
    → is_called s' (publish_topics (subscribe s t d) r)
      ≡ ((s' == s && covers t r) || is_called s' (publish_topics d r))
is_called-publish_topics s s' t d r = ground (
  arith,
  publish_topics_lem s' (subscribe s t d) r,
  publish_topics_lem s' d r,
  covers_lem t r,
  is_called-publish s s' t (data_topic r.scope r.address r.command r.command_data) d r,
  is_called-publish s s' t (command_topic r.scope r.address r.command) d r,
  is_called-publish s s' t (address_topic r.scope r.address) d r,
  is_called-publish s s' t (scope_topic r.scope) d r,
)
