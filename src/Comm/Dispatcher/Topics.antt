-- ===== src/Comm/Dispatcher/Topics.antt =====
-- Topics that the dispatcher takes for the same are the same (comm/command_listener.py).
use py_legacy.Common.{◌≡◌, refl, ap, true, arith, ◌==◌, eq_of_==, ==_refl, and_left, and_right}
use py_legacy.Common.Int.{ℤ, eq_ℤ, eq_of_eq_ℤ, eq_ℤ_refl}
use py_legacy.Protocol.Scope.{same_scope, same_scope_lem}
use py_legacy.Comm.Dispatcher.{
  Topic, broadcast, scope_topic, address_topic, command_topic, data_topic, same_topic,
}

pub eq_of_same_topic : (t u : Topic) → same_topic t u ≡ true → t ≡ u
eq_of_same_topic broadcast broadcast h = refl
eq_of_same_topic (scope_topic s) (scope_topic s') h = ap scope_topic (same_scope_lem s s' h)
eq_of_same_topic (address_topic s a) (address_topic s' a') h =
    let e = same_scope_lem s s' (and_left _ _ h) in
    let f = eq_of_== a a' (and_right (same_scope s s') _ h) in λ i. address_topic (e i) (f i)
eq_of_same_topic (command_topic s a c) (command_topic s' a' c') h =
    let e = same_scope_lem s s' (and_left _ _ h) in
    let rest = and_right (same_scope s s') _ h in
    let f = eq_of_== a a' (and_left _ _ rest) in
    let g = eq_of_== c c' (and_right (a == a') _ rest) in λ i. command_topic (e i) (f i) (g i)
eq_of_same_topic (data_topic s a c d) (data_topic s' a' c' d') h =
    let e = same_scope_lem s s' (and_left _ _ h) in
    let rest = and_right (same_scope s s') _ h in
    let f = eq_of_== a a' (and_left _ _ rest) in
    let rest' = and_right (a == a') _ rest in
    let g = eq_of_== c c' (and_left _ _ rest') in
    let k = eq_of_eq_ℤ d d' (and_right (c == c') _ rest') in λ i. data_topic (e i) (f i) (g i) (k i)
eq_of_same_topic _ _ h = absurd (cc h)

pub same_topic_refl : (t : Topic) → same_topic t t ≡ true
same_topic_refl broadcast = refl
same_topic_refl (scope_topic s) = ==_refl _
same_topic_refl (address_topic s a) = ground (arith)
same_topic_refl (command_topic s a c) = ground (arith)
same_topic_refl (data_topic s a c d) = ground (arith, eq_ℤ_refl d)

pub same_topic_sym : (t u : Topic) → same_topic t u ≡ same_topic u t
same_topic_sym broadcast broadcast = refl
same_topic_sym (scope_topic s) (scope_topic s') = ground arith
same_topic_sym (address_topic s a) (address_topic s' a') = ground arith
same_topic_sym (command_topic s a c) (command_topic s' a' c') = ground arith
same_topic_sym (data_topic s a c d) (data_topic s' a' c' d') = ground (arith, eq_ℤ_sym d d')
  where
    eq_ℤ_sym : (d d' : ℤ) → eq_ℤ d d' ≡ eq_ℤ d' d
    eq_ℤ_sym d d' = ground arith
same_topic_sym _ _ = refl
