-- ===== src/Gateways/HealthChecker.antt =====
-- internal/gateways/health_checker.go: pings, pongs and alerts. The clock and whether a ping is written
-- are arguments of the events; `matchPong` is part of the parameter that says what a message is.
pub mod Alerts
pub mod Examples
use lapuacore.Common.{
  ℕ, ◌-◌, Bool, true, false, Option, none, some, List, [], ◌∷◌, ◌++◌, ltb, if◌then◌else◌,
}

pub data HealthErr : Type 0 where
  failed_to_send_ping connection_timeout : HealthErr

-- A time is none where Go's is zero.
pub record HealthChecker : Type 0 where
  pub timeout_duration : ℕ
  pub last_send_ping_at : Option ℕ
  pub last_received_at : Option ℕ

unfoldable pub new_health_checker : ℕ → HealthChecker
new_health_checker timeout = record {
  timeout_duration = timeout;
  last_send_ping_at = none;
  last_received_at = none;
}

-- `isTimeout` after its first test: the time since the last pong, without one since the last ping.
unfoldable pub silent_since : Option ℕ → ℕ → ℕ
silent_since none sent = sent
silent_since (some received) sent = received

unfoldable pub is_timeout_of : ℕ → ℕ → Option ℕ → Option ℕ → Bool
unfolding silent_since
is_timeout_of now timeout none received = false
is_timeout_of now timeout (some sent) received = ltb timeout (now - silent_since received sent)

unfoldable pub is_timeout : ℕ → HealthChecker → Bool
unfolding is_timeout_of
is_timeout now h = is_timeout_of now h.timeout_duration h.last_send_ping_at h.last_received_at

-- The case of a tick, with whether the ping is written, the time that is stored and the time that
-- `isTimeout` reads. The list is what is sent to `healthAlertChan`.
unfoldable pub ping_tick : Bool → ℕ → ℕ → HealthChecker → HealthChecker × List HealthErr
unfolding is_timeout
ping_tick written sent now h =
    let h' = record h { last_send_ping_at = some sent } in
    (
      h',
      (if written then [] else failed_to_send_ping ∷ [])
          ++ (if is_timeout now h' then connection_timeout ∷ [] else []),
    )

-- `PongReceiveHandleFunc` for a checker with or without `matchPong`: whether a message goes to
-- `pongChan`.
unfoldable pub is_pong {ℓ} : {A : Type ℓ} → Option (A → Bool) → A → Bool
is_pong none msg = false
is_pong (some match_pong) msg = match_pong msg

-- The case of a pong.
unfoldable pub receive_pong : ℕ → HealthChecker → HealthChecker
receive_pong now h = record h { last_received_at = some now }

pub data HealthEvent {ℓ} (A : Type ℓ) : Type ℓ where
  ticks : Bool → ℕ → ℕ → HealthEvent A
  pongs : ℕ → HealthEvent A
  receives : ℕ → A → HealthEvent A

-- `Start`: the state that the events lead to.
unfoldable pub health_step {ℓ} :
    {A : Type ℓ} → Option (A → Bool) → HealthEvent A → HealthChecker → HealthChecker
unfolding ping_tick receive_pong
health_step match_pong (ticks written sent now) h = (ping_tick written sent now h).0
health_step match_pong (pongs now) h = receive_pong now h
health_step match_pong (receives now msg) h =
    if is_pong match_pong msg then receive_pong now h else h

unfoldable pub run_health {ℓ} :
    {A : Type ℓ} → Option (A → Bool) → List (HealthEvent A) → HealthChecker → HealthChecker
unfolding health_step
run_health match_pong [] h = h
run_health match_pong (e ∷ events) h = run_health match_pong events (health_step match_pong e h)
