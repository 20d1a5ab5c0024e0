-- ===== src/Comm/Dispatcher.antt =====
-- `Channel` and `CommandDispatcher` (comm/command_listener.py): who is told of a received command. A
-- subscriber, a command of an enum and a client are numbers, one for each. Locks are not modelled; what a
-- subscriber does, exceptions included, does not change the dispatcher. The order of a set of
-- subscribers is not determined in the source, here it is that of a list. The empty channel that a failed
-- `unsubscribe_any` makes is left out.
pub mod Topics
pub mod Subscriptions
pub mod Invariant
pub mod Deliveries
pub mod Outcome
pub mod Delivered
pub mod Cancellation
mod Runs
use py_legacy.Common.{
  ℕ, zero, suc, ◌+◌, Bool, true, false, not, ◌&&◌, ◌||◌, Option, none, some, List, [], ◌∷◌, ◌++◌,
  ◌==◌, if◌then◌else◌, Result, ok, raise, type_error, key_error, ◌>>=◌,
}
use py_legacy.Common.Int.{ℤ, eq_ℤ}
use py_legacy.Utils.UniqueDeque.{has, discard}
use py_legacy.Protocol.Scope.{CommandScope, engine, train, same_scope}

-- A key of `_channels`: `BROADCAST_TOPIC`, a scope, or a tuple that begins with one.
pub data Topic : Type 0 where
  broadcast : Topic
  scope_topic : CommandScope → Topic
  address_topic : CommandScope → ℕ → Topic
  command_topic : CommandScope → ℕ → ℕ → Topic
  data_topic : CommandScope → ℕ → ℕ → ℤ → Topic

abbrev pub same_topic : Topic → Topic → Bool
same_topic broadcast broadcast = true
same_topic (scope_topic s) (scope_topic s') = same_scope s s'
same_topic (address_topic s a) (address_topic s' a') = same_scope s s' && a == a'
same_topic (command_topic s a c) (command_topic s' a' c') = same_scope s s' && (a == a' && c == c')
same_topic (data_topic s a c d) (data_topic s' a' c' d') =
    same_scope s s' && (a == a' && (c == c' && eq_ℤ d d'))
same_topic _ _ = false

-- What a topic is asked for by `publish_all`.
abbrev pub topic_scope : Topic → Option CommandScope
topic_scope broadcast = none
topic_scope (scope_topic s) = some s
topic_scope (address_topic s a) = some s
topic_scope (command_topic s a c) = some s
topic_scope (data_topic s a c d) = some s

abbrev pub Channels : Type 0
Channels = List (Topic × List ℕ)

pub record Dispatcher : Type 0 where
  pub channels : Channels
  pub broadcasts : Bool

unfoldable pub subscribers : Topic → Channels → List ℕ
subscribers t [] = []
subscribers t ((u, ss) ∷ rest) =
    let later = subscribers t rest in if same_topic t u then ss else later

unfoldable pub has_channel : Topic → Channels → Bool
has_channel t [] = false
has_channel t ((u, ss) ∷ rest) = same_topic t u || has_channel t rest

-- `self._channels[t].subscribe(s)`, where a channel is made if there is none.
unfoldable pub add_subscriber : ℕ → Topic → Channels → Channels
unfolding has
add_subscriber s t [] = (t, s ∷ []) ∷ []
add_subscriber s t ((u, ss) ∷ rest) =
    let later = add_subscriber s t rest in
    if same_topic t u then (u, if has s ss then ss else s ∷ ss) ∷ rest else (u, ss) ∷ later

unfoldable pub set_subscribers : List ℕ → Topic → Channels → Channels
set_subscribers xs t [] = []
set_subscribers xs t ((u, ss) ∷ rest) =
    let later = set_subscribers xs t rest in
    if same_topic t u then (u, xs) ∷ rest else (u, ss) ∷ later

unfoldable pub delete_channel : Topic → Channels → Channels
delete_channel t [] = []
delete_channel t ((u, ss) ∷ rest) =
    let later = delete_channel t rest in if same_topic t u then rest else (u, ss) ∷ later

-- `_make_channel`; `is_data` tells whether the command takes data.
unfoldable pub make_channel :
    CommandScope → Option ℕ → Option ℕ → Option ℤ → (ℕ → Bool) → Result Topic
make_channel s none c d is_data = ok (scope_topic s)
make_channel s (some a) none d is_data = ok (address_topic s a)
make_channel s (some a) (some c) none is_data = ok (command_topic s a c)
make_channel s (some a) (some c) (some d) is_data =
    if is_data c then ok (data_topic s a c d) else raise type_error

unfoldable pub subscribe_any : ℕ → Dispatcher → Dispatcher
unfolding add_subscriber
subscribe_any s d = record { channels = add_subscriber s broadcast d.channels; broadcasts = true }

-- Of a channel that `_make_channel` has made.
unfoldable pub subscribe : ℕ → Topic → Dispatcher → Dispatcher
unfolding add_subscriber
subscribe s broadcast d = record {
  channels = add_subscriber s broadcast d.channels;
  broadcasts = true;
}
subscribe s t d = record d { channels = add_subscriber s t d.channels }

abbrev pub is_empty : List ℕ → Bool
is_empty [] = true
is_empty (x ∷ xs) = false

-- `set.remove` raises KeyError for a subscriber that is not there. The channel of broadcasts is made when
-- it is looked up, and stays when it is empty.
unfoldable pub unsubscribe_any : ℕ → Dispatcher → Result Dispatcher
unfolding has discard subscribers set_subscribers
unsubscribe_any s d =
    let ss = subscribers broadcast d.channels in
    if has s ss
    then ok (record {
      channels = set_subscribers (discard s ss) broadcast d.channels;
      broadcasts = if is_empty (discard s ss) then false else d.broadcasts;
    })
    else raise key_error

unfoldable pub unsubscribe_topic : ℕ → Topic → Dispatcher → Result Dispatcher
unfolding has discard subscribers has_channel set_subscribers delete_channel
unsubscribe_topic s t d =
    let ss = subscribers t d.channels in
    if has_channel t d.channels
    then if has s ss
      then ok (record d {
        channels =
            if is_empty (discard s ss)
            then delete_channel t d.channels
            else set_subscribers (discard s ss) t d.channels;
      })
      else raise key_error
    else ok d

unfoldable pub unsubscribe : ℕ → Topic → Dispatcher → Result Dispatcher
unfolding unsubscribe_any unsubscribe_topic
unsubscribe s broadcast d = unsubscribe_any s d
unsubscribe s (scope_topic c) d = unsubscribe_topic s (scope_topic c) d
unsubscribe s (address_topic c a) d = unsubscribe_topic s (address_topic c a) d
unsubscribe s (command_topic c a m) d = unsubscribe_topic s (command_topic c a m) d
unsubscribe s (data_topic c a m n) d = unsubscribe_topic s (data_topic c a m n) d

-- What the dispatcher asks a `CommandReq` for.
pub record Request : Type 0 where
  pub scope : CommandScope
  pub address : ℕ
  pub command : ℕ
  pub command_data : ℤ
  pub is_data : Bool
  pub is_halt : Bool
  pub is_system_halt : Bool
  pub is_filtered : Bool

-- What happens while a command is dispatched: a subscriber is called, delayed requests are canceled (of
-- all scopes or of one), the Base 3 is queried, the clients and the Base 3 are brought up to date.
pub data Event : Type 0 where
  called : ℕ → Request → Event
  cancel_delayed : Option CommandScope → Event
  command_impact client_update base_update : Request → Event

unfoldable pub publish_to : List ℕ → Request → List Event
publish_to [] r = []
publish_to (s ∷ ss) r = called s r ∷ publish_to ss r

unfoldable pub publish : Dispatcher → Topic → Request → List Event
unfolding subscribers publish_to
publish d t r = publish_to (subscribers t d.channels) r

unfoldable pub publish_all : Channels → Request → List Event
unfolding publish_to
publish_all [] r = []
publish_all ((t, ss) ∷ rest) r = publish_to ss r ++ publish_all rest r

-- To engines and trains
abbrev pub is_mobile : Topic → Bool
is_mobile t = elim (topic_scope t) [
  | none ↦ false
  | some s ↦ same_scope s engine || same_scope s train
]

unfoldable pub publish_mobile : Channels → Request → List Event
unfolding publish_to
publish_mobile [] r = []
publish_mobile ((t, ss) ∷ rest) r =
    let later = publish_mobile rest r in if is_mobile t then publish_to ss r ++ later else later

-- The settings of the process.
pub record Settings : Type 0 where
  pub filter_updates : Bool
  pub has_server_port : Bool

unfoldable pub publish_topics : Dispatcher → Request → List Event
unfolding publish
publish_topics d r =
    (if r.is_data then publish d (data_topic r.scope r.address r.command r.command_data) r else [])
    ++ (publish d (command_topic r.scope r.address r.command) r
        ++ (publish d (address_topic r.scope r.address) r ++ publish d (scope_topic r.scope) r))

unfoldable pub publish_request : Settings → Dispatcher → Request → List Event
unfolding publish_topics publish_all publish_mobile
publish_request s d r =
    if r.is_halt
    then cancel_delayed none
      ∷ (if s.filter_updates && r.is_filtered then [] else publish_all d.channels r)
    else if r.is_system_halt
    then cancel_delayed (some engine) ∷ cancel_delayed (some train) ∷ publish_mobile d.channels r
    else publish_topics d r

-- The body of the loop of `run`.
unfoldable pub dispatch : Settings → Dispatcher → Request → List Event
unfolding publish_request publish
dispatch s d r =
    publish_request s d r
    ++ ((if d.broadcasts then publish d broadcast r else [])
        ++ (if s.has_server_port
            then command_impact r
              ∷ (if s.filter_updates && r.is_filtered
                  then []
                  else client_update r ∷ base_update r ∷ [])
            else []))

-- `run` takes the requests in the order in which they were offered.
unfoldable pub run : Settings → Dispatcher → List Request → List Event
unfolding dispatch
run s d [] = []
run s d (r ∷ queue) = dispatch s d r ++ run s d queue
