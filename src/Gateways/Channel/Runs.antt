-- ===== src/Gateways/Channel/Runs.antt =====
-- What always holds of a channel of internal/gateways/channel.go in its loop, and how it recovers.
use lapuacore.Common.{
  ◌+◌, ◌<◌, ◌≤◌, ◌≡◌, ◌⊎◌, inl, inr, refl, true, false, List, [], ◌∷◌, ◌++◌, map, All, length,
  arith,
}
use lapuacore.Gateways.Channel.{
  Channel, connected, disconnected, Attempt, dial_fails, subscribe_fails, succeeds, is_success,
  Event, reconnects, Round, round_alert, round_error, round_auth, round_message, round_reconnect,
  Rounds, no_round, next_round, new_channel, connect, init_and_listen, cancel_workers,
  set_channel_status, send_signal, reset_signals, start_channel, lose_connection, reconnected,
  reconnect,
}

pub record IsServed (c : Channel) : Type 0 where
  pub running : c.is_running ≡ true
  pub signaled :
      ((c.status ≡ connected) × (c.signals ≡ 0)) ⊎ ((c.status ≡ disconnected) × (0 < c.signals))
  pub one_watched : length c.watched ≤ 1
  pub none_closed : length c.open_conns ≡ c.dialed

pub start-IsServed : IsServed (start_channel succeeds new_channel)
unfolding start_channel new_channel init_and_listen connect set_channel_status cancel_workers
start-IsServed = record {
  running = refl;
  signaled = inl (refl, refl);
  one_watched = omega arith;
  none_closed = refl;
}

pub lose_connection-IsServed : (c : Channel) → IsServed c → IsServed (lose_connection c)
unfolding lose_connection send_signal set_channel_status
lose_connection-IsServed c v = record {
  running = v.running;
  signaled = inr (refl, omega arith);
  one_watched = v.one_watched;
  none_closed = v.none_closed;
}

reconnect-IsServed : (a : Attempt) (c : Channel) → IsServed c → IsServed (reconnect a c)
unfolding reconnect reconnected set_channel_status reset_signals cancel_workers init_and_listen
    connect send_signal
reconnect-IsServed dial_fails c v = record {
  running = v.running;
  signaled = inr (refl, omega arith);
  one_watched = omega arith;
  none_closed = v.none_closed;
}
reconnect-IsServed subscribe_fails c v = record {
  running = v.running;
  signaled = inr (refl, omega arith);
  one_watched = omega arith;
  none_closed = omega (arith, v.none_closed);
}
reconnect-IsServed succeeds c v = record {
  running = v.running;
  signaled = inl (refl, refl);
  one_watched = omega arith;
  none_closed = omega (arith, v.none_closed);
}

Round-IsServed : (c c1 : Channel) (e : Event) → Round c e c1 → IsServed c → IsServed c1
Round-IsServed c _ _ (round_alert h) v = lose_connection-IsServed c v
Round-IsServed c _ _ (round_error h) v = lose_connection-IsServed c v
Round-IsServed c _ _ (round_auth h) v = lose_connection-IsServed c v
Round-IsServed c _ _ round_message v = v
Round-IsServed c _ _ (round_reconnect {a = a} h) v = reconnect-IsServed a c v

-- As long as a started channel runs, whatever it reports, receives and tries: it is either connected
-- with no signal to reconnect, or disconnected with one, so that an attempt is due; the goroutines of at
-- most one connection are watching; and no connection that was ever dialed is closed.
pub Rounds-IsServed : (c c1 : Channel) (es : List Event) → Rounds c es c1 → IsServed c → IsServed c1
Rounds-IsServed c _ _ no_round v = v
Rounds-IsServed c c1 _ (next_round r rs) v = Rounds-IsServed _ c1 _ rs (Round-IsServed c _ _ r v)

failed_once :
    (a : Attempt) (c : Channel)
    → is_success a ≡ false
    → ((reconnect a c).signals ≡ 1) × ((reconnect a c).reconnect_count ≡ c.reconnect_count + 1)
unfolding reconnect reconnected set_channel_status reset_signals cancel_workers init_and_listen
    connect send_signal
failed_once dial_fails c h = (refl, refl)
failed_once subscribe_fails c h = (refl, refl)
failed_once succeeds c h = ground arith

-- After failed attempts the next one is due, and the count has gone up by their number.
failures :
    (tries : List Attempt) (c : Channel)
    → All (λ a. is_success a ≡ false) tries
    → 0 < c.signals
    → (c1 : Channel) × Rounds c (map reconnects tries) c1
      × (0 < c1.signals)
      × (c1.reconnect_count ≡ c.reconnect_count + length tries)
failures [] c f h = (c, no_round, h, omega arith)
failures (a ∷ l) c f h =
    let (s, n) = failed_once a c f.0 in
    let (c1, r, h1, n1) = failures l (reconnect a c) f.1 (omega (arith, s)) in
    (c1, next_round (round_reconnect h) r, h1, omega (arith, n, n1))

one_more :
    (c c1 c2 : Channel) (es : List Event) (e : Event)
    → Rounds c es c1
    → Round c1 e c2
    → Rounds c (es ++ e ∷ []) c2
one_more c _ c2 _ e no_round r = next_round r no_round
one_more c c1 c2 _ e (next_round q qs) r = next_round q (one_more _ c1 c2 _ e qs r)

due : (c : Channel) → IsServed c → c.status ≡ disconnected → 0 < c.signals
due c v h = elim v.signaled [ inl (k, n) ↦ ground (arith, h, k) | inr (k, n) ↦ n ]

success :
    (c : Channel)
    → ((reconnect succeeds c).status ≡ connected)
      × ((reconnect succeeds c).signals ≡ 0)
      × ((reconnect succeeds c).reconnect_count ≡ 0)
unfolding reconnect reconnected set_channel_status reset_signals cancel_workers init_and_listen
    connect
success c = (refl, refl, refl)

-- A running channel that is disconnected can make any number of attempts that fail, one after the other
-- and each counted, and then one that succeeds: it is connected again, with no signal left and the count
-- at zero.
pub Rounds-recover :
    (c : Channel) (tries : List Attempt)
    → IsServed c
    → c.status ≡ disconnected
    → All (λ a. is_success a ≡ false) tries
    → (c1 : Channel) × (c2 : Channel) × Rounds c (map reconnects tries) c1
      × (c1.reconnect_count ≡ c.reconnect_count + length tries)
      × Rounds c (map reconnects tries ++ reconnects succeeds ∷ []) c2
      × (c2.status ≡ connected)
      × (c2.signals ≡ 0)
      × (c2.reconnect_count ≡ 0)
Rounds-recover c tries v h f =
    let (c1, r, n, k) = failures tries c f (due c v h) in
    let (x, y, z) = success c1 in
    (c1, reconnect succeeds c1, r, k, one_more c c1 _ _ _ r (round_reconnect n), x, y, z)
