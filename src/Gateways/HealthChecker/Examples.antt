-- ===== src/Gateways/HealthChecker/Examples.antt =====
-- What the theorem on health checkers says at concrete values.
use lapuacore.Common.{Bool, true, false, some, List, [], ◌∷◌, ◌++◌, ◌≡◌, arith}
use lapuacore.Gateways.HealthChecker.{
  failed_to_send_ping, HealthEvent, ticks, receives, new_health_checker, ping_tick, run_health,
}
use lapuacore.Gateways.HealthChecker.Alerts.{last_pong, silence_alert, ping_tick-alerts}

-- A ping, a message that is a pong, and one that is not.
abbrev events : List (HealthEvent Bool)
events = ticks true 100 100 ∷ receives 103 true ∷ receives 190 false ∷ []

ping_tick-alerts_example :
    (ping_tick false 200 201 (run_health (some (λ m. m)) events (new_health_checker 60))).1
    ≡ (failed_to_send_ping ∷ []) ++ silence_alert 60 201 (last_pong (some (λ m. m)) events)
ping_tick-alerts_example = ping_tick-alerts (some (λ m. m)) 60 events false 200 201 (omega arith)
