-- ===== src/Gateways/Channel.antt =====
-- internal/gateways/channel.go: the life of a WebSocket channel. A connection is a number, in the order
-- of dialing. What a dial and a subscription give, and what the health checker and the author report, is
-- an argument or an event; topics are not read here.
pub mod Runs
pub mod Examples
use lapuacore.Common.{
  ℕ, ◌+◌, ◌<◌, Bool, true, false, Option, none, some, List, [], ◌∷◌, nat_beq, if◌then◌else◌,
}

pub data ChannelStatus : Type 0 where
  unknown_status connected disconnected reconnecting : ChannelStatus

-- `open_conns` are the connections that are not closed, `watched` those whose health checker and author
-- run under a context that is not canceled. `signals` is the length of `reconnectSigChan`.
pub record Channel : Type 0 where
  pub is_running : Bool
  pub status : ChannelStatus
  pub conn : Option ℕ
  pub dialed : ℕ
  pub open_conns : List ℕ
  pub watched : List ℕ
  pub reconnect_count : ℕ
  pub signals : ℕ

-- The size of `reconnectSigChan`: a send to a full channel blocks the loop, which is its only reader.
abbrev pub signal_capacity : ℕ
signal_capacity = 1000

unfoldable pub new_channel : Channel
new_channel = record {
  is_running = false;
  status = unknown_status;
  conn = none;
  dialed = 0;
  open_conns = [];
  watched = [];
  reconnect_count = 0;
  signals = 0;
}

-- How `initAndListen` ends: `Dial` fails, the subscription cannot be written, or neither.
pub data Attempt : Type 0 where
  dial_fails subscribe_fails succeeds : Attempt

abbrev pub is_success : Attempt → Bool
is_success succeeds = true
is_success _ = false

-- `initialize` with a connection, and the goroutines that are started on it.
unfoldable pub connect : Channel → Channel
connect c = record c {
  conn = some c.dialed;
  dialed = c.dialed + 1;
  open_conns = c.dialed ∷ c.open_conns;
  watched = c.dialed ∷ c.watched;
}

unfoldable pub init_and_listen : Attempt → Channel → Channel
unfolding connect
init_and_listen dial_fails c = c
init_and_listen subscribe_fails c = connect c
init_and_listen succeeds c = connect c

-- `wsCancel`.
unfoldable pub cancel_workers : Channel → Channel
cancel_workers c = record c { watched = [] }

unfoldable pub set_channel_status : ChannelStatus → Channel → Channel
set_channel_status s c = record c { status = s }

-- The send of a signal, where there is room.
unfoldable pub send_signal : Channel → Channel
send_signal c = record c { signals = c.signals + 1 }

unfoldable pub reset_signals : Channel → Channel
reset_signals c = record c { signals = 0 }

-- `Start` up to the loop, which is entered only where the attempt succeeds.
unfoldable pub start_channel : Attempt → Channel → Channel
unfolding init_and_listen cancel_workers set_channel_status
start_channel a c =
    let c1 = init_and_listen a (record c { is_running = true }) in
    if is_success a then set_channel_status connected c1 else cancel_workers c1

-- The cases of an alert, of an error and of an authentication error.
unfoldable pub lose_connection : Channel → Channel
unfolding send_signal set_channel_status
lose_connection c = set_channel_status disconnected (send_signal c)

unfoldable pub reconnected : Attempt → Channel → Channel
unfolding set_channel_status send_signal
reconnected a c =
    if is_success a
    then record (set_channel_status connected c) { reconnect_count = 0 }
    else send_signal
        (record (set_channel_status disconnected c) { reconnect_count = c.reconnect_count + 1 })

unfoldable pub reconnect : Attempt → Channel → Channel
unfolding set_channel_status reset_signals cancel_workers init_and_listen reconnected
reconnect a c =
    reconnected a
      (init_and_listen a (cancel_workers (reset_signals (set_channel_status reconnecting c))))

abbrev pub without_conn : Option ℕ → List ℕ → List ℕ
without_conn none l = l
without_conn (some n) [] = []
without_conn (some n) (m ∷ l) = if nat_beq n m then l else m ∷ without_conn (some n) l

-- The end of the context: `conn.Close` and the fields.
unfoldable pub stop_channel : Channel → Channel
unfolding cancel_workers
stop_channel c =
    cancel_workers (record c { is_running = false; open_conns = without_conn c.conn c.open_conns })

pub data Event : Type 0 where
  health_alert receive_error auth_error topic_message : Event
  reconnects : Attempt → Event

-- A round of the loop: `select` takes any case that is ready.
pub data Round : Channel → Event → Channel → Type 0 where
  round_alert :
      {c : Channel} → c.signals < signal_capacity → Round c health_alert (lose_connection c)
  round_error :
      {c : Channel} → c.signals < signal_capacity → Round c receive_error (lose_connection c)
  round_auth : {c : Channel} → c.signals < signal_capacity → Round c auth_error (lose_connection c)
  round_message : {c : Channel} → Round c topic_message c
  round_reconnect :
      {c : Channel} {a : Attempt} → 0 < c.signals → Round c (reconnects a) (reconnect a c)

pub data Rounds : Channel → List Event → Channel → Type 0 where
  no_round : {c : Channel} → Rounds c [] c
  next_round :
      {c c1 c2 : Channel} {e : Event} {es : List Event}
      → Round c e c1
      → Rounds c1 es c2
      → Rounds c (e ∷ es) c2
