-- ===== src/Comm/Dispatcher/Delivered.antt =====
-- The loop of `run` delivers every command that was offered (comm/command_listener.py).
use py_legacy.Common.{
  ℕ, ◌≡◌, refl, sym, ap, ◌∙◌, Bool, true, false, ◌&&◌, none, some, List, [], ◌∷◌, ◌++◌, arith, ◌==◌,
  if◌then◌else◌, Bool-cases, inl, inr, eq_of_==, ==_refl, append_assoc,
}
use py_legacy.Protocol.Scope.{engine, train}
use py_legacy.Comm.Dispatcher.{
  Topic, broadcast, Channels, Dispatcher, subscribers, subscribe, Request, Event, called,
  cancel_delayed, data_topic, command_topic, address_topic, scope_topic, command_impact,
  client_update, base_update, publish_to, publish, publish_all, publish_mobile, is_mobile, Settings,
  publish_topics, publish_request, dispatch, run,
}
use py_legacy.Comm.Dispatcher.Invariant.{Reach}
use py_legacy.Comm.Dispatcher.Deliveries.{is_called, concerns}
use py_legacy.Comm.Dispatcher.Outcome.{dispatch-subscribe}

-- Every subscriber that is called is told of the one request.
abbrev AreAbout : Request → List Event → Type 0
AreAbout r [] = Unit
AreAbout r (called s r' ∷ es) = (r' ≡ r) × AreAbout r es
AreAbout r (cancel_delayed o ∷ es) = AreAbout r es
AreAbout r (command_impact r' ∷ es) = AreAbout r es
AreAbout r (client_update r' ∷ es) = AreAbout r es
AreAbout r (base_update r' ∷ es) = AreAbout r es

append-AreAbout :
    (r : Request) (es es' : List Event) → AreAbout r es → AreAbout r es' → AreAbout r (es ++ es')
append-AreAbout r [] es' h k = k
append-AreAbout r (called s r' ∷ es) es' (p, h) k = (p, append-AreAbout r es es' h k)
append-AreAbout r (cancel_delayed o ∷ es) es' h k = append-AreAbout r es es' h k
append-AreAbout r (command_impact r' ∷ es) es' h k = append-AreAbout r es es' h k
append-AreAbout r (client_update r' ∷ es) es' h k = append-AreAbout r es es' h k
append-AreAbout r (base_update r' ∷ es) es' h k = append-AreAbout r es es' h k

if-AreAbout :
    (r : Request) (b : Bool) (es es' : List Event)
    → AreAbout r es
    → AreAbout r es'
    → AreAbout r (if b then es else es')
if-AreAbout r true es es' h k = h
if-AreAbout r false es es' h k = k

publish_to-AreAbout : (r : Request) (ss : List ℕ) → AreAbout r (publish_to ss r)
unfolding publish_to
publish_to-AreAbout r [] = tt
publish_to-AreAbout r (s ∷ ss) = (refl, publish_to-AreAbout r ss)

publish_all-AreAbout : (r : Request) (cs : Channels) → AreAbout r (publish_all cs r)
unfolding publish_all
publish_all-AreAbout r [] = tt
publish_all-AreAbout r ((t, ss) ∷ cs) =
    append-AreAbout r (publish_to ss r) (publish_all cs r) (publish_to-AreAbout r ss)
      (publish_all-AreAbout r cs)

publish_mobile-AreAbout : (r : Request) (cs : Channels) → AreAbout r (publish_mobile cs r)
unfolding publish_mobile
publish_mobile-AreAbout r [] = tt
publish_mobile-AreAbout r ((t, ss) ∷ cs) =
    let rest = publish_mobile-AreAbout r cs in
    if-AreAbout r (is_mobile t) (publish_to ss r ++ publish_mobile cs r) (publish_mobile cs r)
      (append-AreAbout r (publish_to ss r) (publish_mobile cs r) (publish_to-AreAbout r ss) rest)
      rest

publish-AreAbout : (r : Request) (d : Dispatcher) (t : Topic) → AreAbout r (publish d t r)
unfolding publish
publish-AreAbout r d t = publish_to-AreAbout r (subscribers t d.channels)

publish_topics-AreAbout : (r : Request) (d : Dispatcher) → AreAbout r (publish_topics d r)
unfolding publish_topics
publish_topics-AreAbout r d =
    let about_data = data_topic r.scope r.address r.command r.command_data in
    let about_command = command_topic r.scope r.address r.command in
    let about_address = address_topic r.scope r.address in
    append-AreAbout r (if r.is_data then publish d about_data r else []) _
      (if-AreAbout r r.is_data _ [] (publish-AreAbout r d about_data) tt)
      (append-AreAbout r (publish d about_command r) _ (publish-AreAbout r d about_command) (
        append-AreAbout r (publish d about_address r) _ (publish-AreAbout r d about_address)
          (publish-AreAbout r d (scope_topic r.scope))))

publish_request-AreAbout :
    (st : Settings) (d : Dispatcher) (r : Request) → AreAbout r (publish_request st d r)
unfolding publish_request
publish_request-AreAbout st d r =
    let all = if st.filter_updates && r.is_filtered then [] else publish_all d.channels r in
    if-AreAbout r r.is_halt (cancel_delayed none ∷ all) _
      (if-AreAbout r (st.filter_updates && r.is_filtered) [] _ tt
        (publish_all-AreAbout r d.channels))
      (if-AreAbout r r.is_system_halt
        (cancel_delayed (some engine) ∷ cancel_delayed (some train) ∷ publish_mobile d.channels r)
        (publish_topics d r) (publish_mobile-AreAbout r d.channels) (publish_topics-AreAbout r d))

dispatch-AreAbout : (st : Settings) (d : Dispatcher) (r : Request) → AreAbout r (dispatch st d r)
unfolding dispatch
dispatch-AreAbout st d r =
    let news =
      if st.filter_updates && r.is_filtered then [] else client_update r ∷ base_update r ∷ [] in
    append-AreAbout r (publish_request st d r) _ (publish_request-AreAbout st d r) (
      append-AreAbout r (if d.broadcasts then publish d broadcast r else []) _
        (if-AreAbout r d.broadcasts _ [] (publish-AreAbout r d broadcast) tt)
        (if-AreAbout r st.has_server_port (command_impact r ∷ news) []
          (if-AreAbout r (st.filter_updates && r.is_filtered) []
            (client_update r ∷ base_update r ∷ []) tt tt)
          tt))

abbrev IsDelivered : ℕ → Request → List Event → Type 0
IsDelivered s r es = (pre : List Event) × (post : List Event) × (es ≡ pre ++ called s r ∷ post)

later :
    (s : ℕ) (r : Request) (e : Event) (es : List Event)
    → IsDelivered s r es
    → IsDelivered s r (e ∷ es)
later s r e es (pre, post, h) = (e ∷ pre, post, ap (λ x. e ∷ x) h)

delivered :
    (s : ℕ) (r : Request) (es : List Event)
    → AreAbout r es
    → is_called s es ≡ true
    → IsDelivered s r es
unfolding is_called
delivered s r [] h c = absurd (cc c)
delivered s r (called s' r' ∷ es) (p, h) c = elim (Bool-cases (s == s')) [
  | inl e ↦ ([], es, λ i. called (sym (eq_of_== s s' e) i) (p i) ∷ es)
  | inr e ↦ later s r (called s' r') es (delivered s r es h (rw e at c))
]
delivered s r (cancel_delayed o ∷ es) h c = later s r _ es (delivered s r es h c)
delivered s r (command_impact r' ∷ es) h c = later s r _ es (delivered s r es h c)
delivered s r (client_update r' ∷ es) h c = later s r _ es (delivered s r es h c)
delivered s r (base_update r' ∷ es) h c = later s r _ es (delivered s r es h c)

run-append :
    (st : Settings) (d : Dispatcher) (xs ys : List Request)
    → run st d (xs ++ ys) ≡ run st d xs ++ run st d ys
unfolding run
run-append st d [] ys = refl
run-append st d (x ∷ xs) ys =
    ap (λ es. dispatch st d x ++ es) (run-append st d xs ys)
    ∙ sym (append_assoc (dispatch st d x) (run st d xs) (run st d ys))

-- In any state that subscriptions lead to, a subscriber of a topic is called with every command in the
-- queue that concerns the topic: after all that is done for the commands offered before it, and before
-- anything is done for those offered after it.
pub run-subscribe :
    (st : Settings) (s : ℕ) (t : Topic) (d : Dispatcher) (before : List Request) (r : Request)
    (after : List Request)
    → Reach d
    → concerns st t r ≡ true
    → let d' = subscribe s t d in
      (pre : List Event) × (post : List Event) × (run st d' (before ++ r ∷ after)
        ≡ run st d' before ++ ((pre ++ called s r ∷ post) ++ run st d' after))
unfolding run
run-subscribe st s t d before r after reached c =
    let d' = subscribe s t d in
    let hit = dispatch-subscribe st s s t d r reached ∙ ground (arith, c, ==_refl s) in
    let (pre, post, e) = delivered s r (dispatch st d' r) (dispatch-AreAbout st d' r) hit in
    (
      pre,
      post,
      run-append st d' before (r ∷ after)
          ∙ ap (λ es. run st d' before ++ (es ++ run st d' after)) e,
    )
