-- ===== src/Gateways/Managers/Examples.antt =====
-- What the theorem on managers says at concrete values.
use lapuacore.Common.{
  ℕ, ◌+◌, ◌≡◌, ◌≢◌, refl, true, false, none, some, [], ◌∷◌, ◌++◌, String, string_eq,
}
use lapuacore.Gateways.Messages.{translated}
use lapuacore.Gateways.Managers.{
  Topic, CoinexEnvelope, set_topics, bybit_handle_topic_message, coinex_topic_name,
  coinex_handle_topic_message,
}
use lapuacore.Gateways.Managers.Routing.{set_topics-routes}

-- A topic that adds a number and the message.
abbrev adding : String → ℕ → Topic ℕ ℕ
adding name k = record {
  topic_name = name;
  subscribe_msg_id = "1";
  subscribe_msg = none;
  msg_handler = λ timestamp msg w. translated (w + msg + k);
}

abbrev no_symbol : String → String → String
no_symbol name symbol = name

abbrev envelope : CoinexEnvelope
envelope = record {
  method = "deals.update";
  symbol = "BTCUSDT";
  order_symbol = "";
  position_symbol = "";
}

abbrev trade : String
trade = "trade"

abbrev order : String
order = "order"

other_name : order ≢ trade
other_name e = let t : false ≡ true = (string_eq.beq_iff "order" "trade").1 e in cc

not_empty : trade ≢ ""
not_empty e = let t : false ≡ true = (string_eq.beq_iff "trade" "").1 e in cc

set_topics-routes_example :
    let set_up =
      set_topics ((adding "trade" 5 ∷ []) ++ adding "trade" 6 ∷ adding "order" 7 ∷ []) [] in
    (bybit_handle_topic_message set_up (some "trade") 0 3 100 ≡ translated 109)
    × (coinex_handle_topic_message no_symbol
          (record { topic_map = set_up; msg_id_map = [] })
          (some envelope)
          0
          3
          100
        ≡ translated 109)
unfolding coinex_topic_name
set_topics-routes_example =
    set_topics-routes (adding "trade" 5 ∷ []) (adding "order" 7 ∷ []) (adding "trade" 6) [] []
      no_symbol envelope 0 3 100 (other_name, tt) not_empty refl
