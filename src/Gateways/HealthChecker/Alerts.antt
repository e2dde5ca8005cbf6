-- ===== src/Gateways/HealthChecker/Alerts.antt =====
-- Runs of the checker of internal/gateways/health_checker.go up to a tick.
use lapuacore.Common.{
  ℕ, ◌+◌, ◌-◌, ◌≤◌, ◌≡◌, refl, ap, ◌∙◌, Bool, Option, none, some, List, [], ◌∷◌, ◌++◌, ltb,
  if◌then◌else◌, arith,
}
use lapuacore.Gateways.HealthChecker.{
  HealthErr, failed_to_send_ping, connection_timeout, HealthChecker, HealthEvent, ticks, pongs,
  receives, new_health_checker, silent_since, is_timeout_of, is_timeout, ping_tick, is_pong,
  receive_pong, health_step, run_health,
}

abbrev later : Option ℕ → Option ℕ → Option ℕ
later none t = t
later (some u) t = some u

-- The time of a pong, by a frame or by a message.
unfoldable pub pong_time {ℓ} : {A : Type ℓ} → Option (A → Bool) → HealthEvent A → Option ℕ
pong_time match_pong (ticks written sent now) = none
pong_time match_pong (pongs now) = some now
pong_time match_pong (receives now msg) = if is_pong match_pong msg then some now else none

-- The time of the last pong of a list of events.
unfoldable pub last_pong {ℓ} : {A : Type ℓ} → Option (A → Bool) → List (HealthEvent A) → Option ℕ
unfolding pong_time
last_pong match_pong [] = none
last_pong match_pong (e ∷ events) = later (last_pong match_pong events) (pong_time match_pong e)

-- The alert of a silence that began with a pong.
unfoldable pub silence_alert : ℕ → ℕ → Option ℕ → List HealthErr
silence_alert timeout now none = []
silence_alert timeout now (some t) = if ltb timeout (now - t) then connection_timeout ∷ [] else []

module _ {ℓ} {A : Type ℓ} (match_pong : Option (A → Bool)) where
  step-received :
      (e : HealthEvent A) (h : HealthChecker)
      → (health_step match_pong e h).last_received_at
        ≡ later (pong_time match_pong e) h.last_received_at
  unfolding health_step ping_tick receive_pong pong_time
  step-received (ticks written sent now) h = refl
  step-received (pongs now) h = refl
  step-received (receives now msg) h = ground arith

  step-timeout :
      (e : HealthEvent A) (h : HealthChecker)
      → (health_step match_pong e h).timeout_duration ≡ h.timeout_duration
  unfolding health_step ping_tick receive_pong
  step-timeout (ticks written sent now) h = refl
  step-timeout (pongs now) h = refl
  step-timeout (receives now msg) h = ground arith

  later_assoc : (a b c : Option ℕ) → later a (later b c) ≡ later (later a b) c
  later_assoc none b c = refl
  later_assoc (some t) b c = refl

  run-received :
      (events : List (HealthEvent A)) (h : HealthChecker)
      → (run_health match_pong events h).last_received_at
        ≡ later (last_pong match_pong events) h.last_received_at
  unfolding run_health last_pong
  run-received [] h = refl
  run-received (e ∷ events) h =
      rw (run-received events (health_step match_pong e h), step-received e h)
        (later_assoc (last_pong match_pong events) (pong_time match_pong e) h.last_received_at)

  run-timeout :
      (events : List (HealthEvent A)) (h : HealthChecker)
      → (run_health match_pong events h).timeout_duration ≡ h.timeout_duration
  unfolding run_health
  run-timeout [] h = refl
  run-timeout (e ∷ events) h =
      rw (run-timeout events (health_step match_pong e h), step-timeout e h) refl

  later-none : (t : Option ℕ) → later t none ≡ t
  later-none none = refl
  later-none (some t) = refl

  -- The test of a tick, by the last pong.
  timeout-alert :
      (timeout sent now : ℕ) (pong : Option ℕ)
      → now ≤ sent + timeout
      → (if is_timeout_of now timeout (some sent) pong then connection_timeout ∷ [] else [])
        ≡ silence_alert timeout now pong
  unfolding is_timeout_of silent_since silence_alert
  timeout-alert timeout sent now none le = ground arith
  timeout-alert timeout sent now (some t) le = refl

  -- A tick after any events of a new checker, whose clock moves on by no more than the timeout from the
  -- ping to the test: it alerts of a ping that is not written, and of a timeout exactly if some pong
  -- has come and the last one is longer ago than the timeout. Without any pong no silence is too long.
  pub ping_tick-alerts :
      (timeout : ℕ) (events : List (HealthEvent A)) (written : Bool) (sent now : ℕ)
      → now ≤ sent + timeout
      → (ping_tick written sent now (run_health match_pong events (new_health_checker timeout))).1
        ≡ (if written then [] else failed_to_send_ping ∷ [])
          ++ silence_alert timeout now (last_pong match_pong events)
  unfolding ping_tick is_timeout new_health_checker
  ping_tick-alerts timeout events written sent now le =
      let h = run_health match_pong events (new_health_checker timeout) in
      let received = run-received events (new_health_checker timeout) ∙ later-none _ in
      let base = (if written then [] else failed_to_send_ping ∷ []) in
      (λ i.
        base
        ++ (if is_timeout_of now (run-timeout events (new_health_checker timeout) i) (some sent)
              (received i)
            then connection_timeout ∷ []
            else []))
      ∙ ap (λ l. base ++ l) (timeout-alert timeout sent now (last_pong match_pong events) le)
