-- ===== src/Gateways/Managers/Routing.antt =====
-- Messages on their way to the topics that were set, in
-- internal/gateways/exchanges/*/ws/topics/manager.go.
use lapuacore.Common.{
  ℕ, ◌≡◌, ◌≢◌, refl, ◌∙◌, some, List, [], ◌∷◌, ◌++◌, All, String, string_eq, eq_ne,
}
use lapuacore.Mutex.Map.{Map, get, set}
use lapuacore.Mutex.Map.Laws.{get-set_self, get-set_ne}
use lapuacore.Gateways.Managers.{
  Topic, CoinexEnvelope, set_topics, call_topic, bybit_handle_topic_message, coinex_topic_name,
  coinex_handle_topic_message,
}

module _ {M W : Type 0} where
  -- Topics of other names leave the topic of a name as it is.
  get-set_topics_ne :
      (n : String) (ts : List (Topic M W)) (topics : Map String (Topic M W))
      → All (λ u. u.topic_name ≢ n) ts
      → get n (set_topics ts topics) ≡ get n topics
  unfolding set_topics
  get-set_topics_ne n [] topics h = refl
  get-set_topics_ne n (t ∷ ts) topics h =
      get-set_topics_ne n ts (set t.topic_name t topics) h.1
      ∙ get-set_ne t.topic_name n t topics h.0

  get-set_topics :
      (before after : List (Topic M W)) (t : Topic M W) (topics : Map String (Topic M W))
      → All (λ u. u.topic_name ≢ t.topic_name) after
      → get t.topic_name (set_topics (before ++ t ∷ after) topics) ≡ some t
  unfolding set_topics
  get-set_topics [] after t topics h =
      get-set_topics_ne t.topic_name after (set t.topic_name t topics) h
      ∙ get-set_self t.topic_name t topics
  get-set_topics (u ∷ before) after t topics h =
      get-set_topics before after t (set u.topic_name u topics) h

  -- After `SetTopics`, on a manager with any topics, a message that names a topic goes to the handler of
  -- that topic, the last one set of its name, whatever was set before and besides: at Bybit where the
  -- name is not empty, at CoinEx where method and symbol make up the name.
  pub set_topics-routes :
      (before after : List (Topic M W)) (t : Topic M W) (topics : Map String (Topic M W))
      (ids : Map String String) (sprintf : String → String → String) (e : CoinexEnvelope)
      (timestamp : ℕ) (msg : M) (w : W)
      → All (λ u. u.topic_name ≢ t.topic_name) after
      → t.topic_name ≢ ""
      → coinex_topic_name sprintf e ≡ t.topic_name
      → let set_up = set_topics (before ++ t ∷ after) topics in
        (bybit_handle_topic_message set_up (some t.topic_name) timestamp msg w
          ≡ t.msg_handler timestamp msg w)
        × (coinex_handle_topic_message sprintf
              (record { topic_map = set_up; msg_id_map = ids })
              (some e)
              timestamp
              msg
              w
            ≡ t.msg_handler timestamp msg w)
  unfolding bybit_handle_topic_message coinex_handle_topic_message call_topic
  set_topics-routes before after t topics ids sprintf e timestamp msg w last named made = (
    rw (eq_ne t.topic_name "" named, get-set_topics before after t topics last) refl,
    rw (made, get-set_topics before after t topics last) refl,
  )
