-- ===== src/Comm/Dispatcher/Outcome.antt =====
-- Who is called when a command is dispatched (comm/command_listener.py).
use py_legacy.Common.{
  ℕ, ◌≡◌, refl, sym, ap, ◌∙◌, Bool, true, false, not, ◌&&◌, ◌||◌, none, some, List, [], ◌∷◌, arith,
  ◌==◌, if◌then◌else◌,
}
use py_legacy.Utils.UniqueDeque.{has}
use py_legacy.Protocol.Scope.{engine, train}
use py_legacy.Comm.Dispatcher.{
  Topic, broadcast, scope_topic, address_topic, command_topic, data_topic, Dispatcher, same_topic,
  subscribers, is_empty, subscribe, Request, Event, cancel_delayed, command_impact, client_update,
  base_update, publish_to, publish, publish_all, publish_mobile, Settings, publish_topics,
  publish_request, dispatch,
}
use py_legacy.Comm.Dispatcher.Invariant.{
  Reach, IsWellFormed, Reach-IsWellFormed, subscribe-IsWellFormed,
}
use py_legacy.Comm.Dispatcher.Deliveries.{
  is_called, is_called-append, is_called-publish_to, is_called-if, is_called-publish,
  is_called-publish_all, is_called-publish_mobile, is_called-publish_topics, subscribe_channels,
  concerns, addresses, is_broadcast,
}

is_called-choice :
    (s : ℕ) (b : Bool) (es es' : List Event)
    → is_called s (if b then es else es') ≡ (if b then is_called s es else is_called s es')
is_called-choice s true es es' = refl
is_called-choice s false es es' = refl

publish_request_lem :
    (st : Settings) (s : ℕ) (d : Dispatcher) (r : Request)
    → is_called s (publish_request st d r) ≡ (
        if r.is_halt
        then (if st.filter_updates && r.is_filtered
            then false
            else is_called s (publish_all d.channels r))
        else if r.is_system_halt
        then is_called s (publish_mobile d.channels r)
        else is_called s (publish_topics d r))
unfolding publish_request is_called
publish_request_lem st s d r =
    let rest =
      if r.is_system_halt
      then cancel_delayed (some engine) ∷ cancel_delayed (some train) ∷ publish_mobile d.channels r
      else publish_topics d r in
    let all = if st.filter_updates && r.is_filtered then [] else publish_all d.channels r in
    is_called-choice s r.is_halt (cancel_delayed none ∷ all) rest
    ∙ (ap (λ b. if r.is_halt then b else is_called s rest)
          (is_called-choice s (st.filter_updates && r.is_filtered) [] (publish_all d.channels r))
        ∙ ap
            (λ b.
              if r.is_halt
              then (if st.filter_updates && r.is_filtered
                  then false
                  else is_called s (publish_all d.channels r))
              else b)
            (is_called-choice s r.is_system_halt _ (publish_topics d r)))

is_called-publish_request :
    (st : Settings) (s s' : ℕ) (t : Topic) (d : Dispatcher) (r : Request)
    → is_called s' (publish_request st (subscribe s t d) r)
      ≡ ((s' == s && addresses st t r) || is_called s' (publish_request st d r))
is_called-publish_request st s s' t d r = ground (
  arith,
  publish_request_lem st s' (subscribe s t d) r,
  publish_request_lem st s' d r,
  ap (λ cs. is_called s' (publish_all cs r)) (subscribe_channels s t d),
  ap (λ cs. is_called s' (publish_mobile cs r)) (subscribe_channels s t d),
  is_called-publish_all s s' t d.channels r,
  is_called-publish_mobile s s' t d.channels r,
  is_called-publish_topics s s' t d r,
)

without_broadcasts :
    (s : ℕ) (d : Dispatcher) (r : Request)
    → IsWellFormed d
    → is_called s (publish d broadcast r) ≡ (d.broadcasts && is_called s (publish d broadcast r))
unfolding publish has
without_broadcasts s d r (p, q) =
    let ss = subscribers broadcast d.channels in
    called_if_any ss ∙ ap (λ b. b && is_called s (publish_to ss r)) (sym q)
  where
    called_if_any :
        (ss : List ℕ)
        → is_called s (publish_to ss r) ≡ (not (is_empty ss) && is_called s (publish_to ss r))
    called_if_any [] = is_called-publish_to s [] r
    called_if_any (x ∷ ss) = refl

updates_lem :
    (st : Settings) (s : ℕ) (r : Request)
    → is_called s (
        if st.has_server_port
        then command_impact r
          ∷ (if st.filter_updates && r.is_filtered
              then []
              else client_update r ∷ base_update r ∷ [])
        else [])
      ≡ false
unfolding is_called
updates_lem st s r =
    is_called-if s st.has_server_port _
    ∙ ground (
      arith,
      is_called-choice s (st.filter_updates && r.is_filtered) []
          (client_update r ∷ base_update r ∷ []),
    )

dispatch_lem :
    (st : Settings) (s : ℕ) (d : Dispatcher) (r : Request)
    → IsWellFormed d
    → is_called s (dispatch st d r)
      ≡ (is_called s (publish_request st d r) || is_called s (publish d broadcast r))
unfolding dispatch
dispatch_lem st s d r w =
    let to_all = if d.broadcasts then publish d broadcast r else [] in
    is_called-append s (publish_request st d r) _
    ∙ ap (λ b. is_called s (publish_request st d r) || b)
        (is_called-append s to_all _
          ∙ ground (
            arith,
            is_called-if s d.broadcasts (publish d broadcast r),
            without_broadcasts s d r w,
            updates_lem st s r,
          ))

broadcast_same : (t : Topic) → same_topic broadcast t ≡ is_broadcast t
broadcast_same broadcast = refl
broadcast_same (scope_topic s) = refl
broadcast_same (address_topic s a) = refl
broadcast_same (command_topic s a c) = refl
broadcast_same (data_topic s a c n) = refl

-- After a subscription of one subscriber to one topic, in any state that subscriptions lead to, a command
-- is delivered to those to whom it was delivered before, and to the new subscriber if and only if the
-- command concerns the topic.
pub dispatch-subscribe :
    (st : Settings) (s s' : ℕ) (t : Topic) (d : Dispatcher) (r : Request)
    → Reach d
    → is_called s' (dispatch st (subscribe s t d) r)
      ≡ ((s' == s && concerns st t r) || is_called s' (dispatch st d r))
dispatch-subscribe st s s' t d r reached =
    let w = Reach-IsWellFormed d reached in
    ground (
      arith,
      dispatch_lem st s' (subscribe s t d) r (subscribe-IsWellFormed s t d w),
      dispatch_lem st s' d r w,
      is_called-publish_request st s s' t d r,
      is_called-publish s s' t broadcast d r,
      broadcast_same t,
    )
