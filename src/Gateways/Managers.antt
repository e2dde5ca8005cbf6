-- ===== src/Gateways/Managers.antt =====
-- internal/gateways/exchanges/*/ws/topics/manager.go: the topics of a channel, and which of them a message
-- goes to. What JSON makes of a message is an argument, none where it is an error. A latency
-- is not measured here.
pub mod Routing
pub mod Examples
use lapuacore.Common.{
  ℕ, ◌-◌, Bool, true, false, Option, none, some, List, [], ◌∷◌, String, ◌==◌, string_eq, nat_eq,
  map, if◌then◌else◌,
}
use lapuacore.Mutex.Map.{Map, get, set, get_keys}
use lapuacore.Gateways.Messages.{Translated, translated, failed, ◌>>=◌}

-- A topic of internal/gateways/topic_manager.go; `W` is what its handler changes.
pub record Topic (M W : Type 0) : Type 0 where
  pub topic_name : String
  pub subscribe_msg_id : String
  pub subscribe_msg : Option String
  pub msg_handler : ℕ → M → W → Translated W

pub record CoinexManager (M W : Type 0) : Type 0 where
  pub topic_map : Map String (Topic M W)
  pub msg_id_map : Map String String

module _ {M W : Type 0} where
  -- `SetTopics`, the same for both exchanges.
  unfoldable pub set_topics : List (Topic M W) → Map String (Topic M W) → Map String (Topic M W)
  set_topics [] topics = topics
  set_topics (t ∷ ts) topics = set_topics ts (set t.topic_name t topics)

  unfoldable pub call_topic : Option (Topic M W) → ℕ → M → W → Translated W
  call_topic none timestamp msg w = translated w
  call_topic (some t) timestamp msg w = t.msg_handler timestamp msg w

  -- `HandleTopicMessage` of Bybit, with the topic that the message names.
  unfoldable pub bybit_handle_topic_message :
      Map String (Topic M W) → Option String → ℕ → M → W → Translated W
  unfolding call_topic
  bybit_handle_topic_message topics none timestamp msg w = failed
  bybit_handle_topic_message topics (some name) timestamp msg w =
      if name == "" then translated w else call_topic (get name topics) timestamp msg w

  -- The names in the message of `SubscribeRequests` of Bybit; without a topic there is no message.
  unfoldable pub bybit_subscribe_requests : Map String (Topic M W) → Option (List String)
  bybit_subscribe_requests [] = none
  bybit_subscribe_requests (e ∷ topics) = some (get_keys (e ∷ topics))

-- What `getTopicName` of CoinEx reads.
pub record CoinexEnvelope : Type 0 where
  pub method : String
  pub symbol : String
  pub order_symbol : String
  pub position_symbol : String

-- `sprintf` prints a name, "@" and a symbol.
unfoldable pub coinex_topic_name : (String → String → String) → CoinexEnvelope → String
coinex_topic_name sprintf msg =
    if msg.method == "bbo.update"
    then sprintf "bookTicker" msg.symbol
    else if msg.method == "depth.update"
    then sprintf "orderBook" msg.symbol
    else if msg.method == "deals.update"
    then sprintf "trade" msg.symbol
    else if msg.method == "order.update"
    then sprintf "personal.order" msg.order_symbol
    else if msg.method == "position.update"
    then sprintf "personal.position" msg.position_symbol
    else ""

module _ {M W : Type 0} where
  unfoldable pub coinex_handle_topic_message :
      (String → String → String)
      → CoinexManager M W
      → Option CoinexEnvelope
      → ℕ
      → M
      → W
      → Translated W
  unfolding call_topic
  coinex_handle_topic_message sprintf mg none timestamp msg w = failed
  coinex_handle_topic_message sprintf mg (some e) timestamp msg w =
      call_topic (get (coinex_topic_name sprintf e) mg.topic_map) timestamp msg w

  -- The loop of `SubscribeRequests` of CoinEx over the topics, in the order of the map.
  unfoldable pub subscribe_each :
      Map String (Topic M W) → Map String String → List String × Map String String
  subscribe_each [] ids = ([], ids)
  subscribe_each ((n, t) ∷ topics) ids = elim t.subscribe_msg [
    | none ↦ subscribe_each topics ids
    | some msg ↦
        let (result, ids') = subscribe_each topics (set t.subscribe_msg_id t.topic_name ids) in
        (msg ∷ result, ids')
  ]

  unfoldable pub coinex_subscribe_requests : CoinexManager M W → List String × CoinexManager M W
  unfolding subscribe_each
  coinex_subscribe_requests mg =
      let (result, ids) = subscribe_each mg.topic_map mg.msg_id_map in
      (result, record mg { msg_id_map = ids })
