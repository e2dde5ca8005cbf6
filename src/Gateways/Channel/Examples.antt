-- ===== src/Gateways/Channel/Examples.antt =====
-- What the theorems on channels say at concrete values.
use lapuacore.Common.{◌≡◌, ◌+◌, refl, [], ◌∷◌, ◌++◌, map, length, arith}
use lapuacore.Gateways.Channel.{
  Channel, connected, dial_fails, subscribe_fails, succeeds, reconnects, receive_error, reconnect,
  lose_connection, Rounds, no_round, next_round, round_error, round_reconnect, start_channel,
  new_channel, send_signal, set_channel_status,
}
use lapuacore.Gateways.Channel.Runs.{
  IsServed, Rounds-IsServed, Rounds-recover, start-IsServed, lose_connection-IsServed,
}

abbrev started : Channel
started = start_channel succeeds new_channel

abbrev lost : Channel
lost = lose_connection started

-- An error and an attempt that fails.
lost-Rounds :
    Rounds started (receive_error ∷ reconnects dial_fails ∷ []) (reconnect dial_fails lost)
unfolding start_channel new_channel lose_connection send_signal set_channel_status
lost-Rounds =
    next_round (round_error (omega arith)) (next_round (round_reconnect (omega arith)) no_round)

Rounds-IsServed_example : IsServed (reconnect dial_fails lost)
Rounds-IsServed_example =
    Rounds-IsServed started (reconnect dial_fails lost) (receive_error ∷ reconnects dial_fails ∷ [])
      lost-Rounds start-IsServed

Rounds-recover_example :
    (c1 : Channel) × (c2 : Channel) × Rounds lost
      (map reconnects (dial_fails ∷ subscribe_fails ∷ []))
      c1
    × (c1.reconnect_count ≡ lost.reconnect_count + length (dial_fails ∷ subscribe_fails ∷ []))
    × Rounds lost
        (map reconnects (dial_fails ∷ subscribe_fails ∷ []) ++ reconnects succeeds ∷ [])
        c2
    × (c2.status ≡ connected)
    × (c2.signals ≡ 0)
    × (c2.reconnect_count ≡ 0)
unfolding lose_connection set_channel_status
Rounds-recover_example =
    Rounds-recover lost (dial_fails ∷ subscribe_fails ∷ [])
      (lose_connection-IsServed started start-IsServed) refl (refl, (refl, tt))
