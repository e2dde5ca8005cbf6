-- ===== src/Insights/Quote.antt =====
-- domains/insights/quote.go, and `PriceLevel` of price_level.go. The locks guard single reads and
-- writes, and `Update` holds a lock for its whole body, so that each method is one step. Callbacks are
-- closures of the strategy, by number, and `fired` holds their calls, those of the newest message first. Sequence IDs
-- and times are natural numbers.
pub mod Order
use lapuacore.Common.{
  ℕ, ◌+◌, Bool, true, false, ◌&&◌, Option, none, some, List, [], ◌∷◌, ◌++◌, ltb, if◌then◌else◌,
  is_some,
}
use lapuacore.Domains.Decimal.{Decimal}

pub record PriceLevel (D : Type 0) : Type 0 where
  pub seq_id : ℕ
  pub price : D
  pub volume : D

pub record QuoteData (D : Type 0) : Type 0 where
  pub seq_id : ℕ
  pub exec_at : ℕ
  pub event_at : ℕ
  pub arrived_at : ℕ
  pub best_ask : Option (PriceLevel D)
  pub best_bid : Option (PriceLevel D)

pub record QuoteImpl (D : Type 0) : Type 0 where
  pub tick_size : D
  pub min_order_qty : D
  pub seq_id : ℕ
  pub last_exec_at : Option ℕ
  pub last_event_at : Option ℕ
  pub last_arrived_at : Option ℕ
  pub best_ask : Option (PriceLevel D)
  pub best_bid : Option (PriceLevel D)
  pub before_best_ask : Option (PriceLevel D)
  pub before_best_bid : Option (PriceLevel D)
  pub update_callback : List ℕ
  pub fired : List ℕ

unfoldable pub new_quote : {D : Type 0} → D → D → QuoteImpl D
new_quote tick_size min_order_qty = record {
  tick_size = tick_size;
  min_order_qty = min_order_qty;
  seq_id = 0;
  last_exec_at = none;
  last_event_at = none;
  last_arrived_at = none;
  best_ask = none;
  best_bid = none;
  before_best_ask = none;
  before_best_bid = none;
  update_callback = [];
  fired = [];
}

-- `lastExecAt` may be nil.
abbrev pub is_before : ℕ → Option ℕ → Bool
is_before t none = false
is_before t (some last) = ltb t last

module _ {D : Type 0} where
  unfoldable pub is_ready : QuoteImpl D → Bool
  is_ready q =
      is_some q.best_bid
      && is_some q.best_ask
      && is_some q.before_best_bid
      && is_some q.before_best_ask
      && is_some q.last_arrived_at

  unfoldable pub set_update_callback : ℕ → QuoteImpl D → QuoteImpl D
  set_update_callback c q = record q { update_callback = q.update_callback ++ c ∷ [] }

  -- The first part of `Update`: a copy of the best levels, where there are both.
  unfoldable pub record_before : QuoteImpl D → QuoteImpl D
  record_before q =
      if is_some q.best_ask && is_some q.best_bid
      then record q { before_best_ask = q.best_ask; before_best_bid = q.best_bid }
      else q

  -- The part of `Update` behind the two tests.
  unfoldable pub apply_data : QuoteData D → QuoteImpl D → QuoteImpl D
  apply_data msg q = record q {
    seq_id = msg.seq_id;
    last_exec_at = some msg.exec_at;
    last_event_at = some msg.event_at;
    last_arrived_at = some msg.arrived_at;
    best_ask = msg.best_ask;
    best_bid = msg.best_bid;
    fired = q.update_callback ++ q.fired;
  }

  unfoldable pub update : QuoteData D → QuoteImpl D → QuoteImpl D
  unfolding record_before apply_data
  update msg q =
      let q1 = record_before q in
      if is_before msg.exec_at q1.last_exec_at
      then q1
      else if ltb msg.seq_id q1.seq_id
      then q1
      else apply_data msg q1

module _ {D : Type 0} ⦃d : Decimal D⦄ where
  unfoldable pub round_to_tick_size : D → QuoteImpl D → D
  round_to_tick_size price q = d.mul (d.truncate (d.div price q.tick_size)) q.tick_size

  unfoldable pub calc_best_price : D → QuoteImpl D → D × D
  unfolding round_to_tick_size
  calc_best_price mid q = (d.add (round_to_tick_size mid q) q.tick_size, round_to_tick_size mid q)
