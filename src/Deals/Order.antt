-- ===== src/Deals/Order.antt =====
-- domains/deals/order.go: an order, its setters and its constructors. `mu` guards single reads and
-- writes, so each method is one step; pointers to times are options.
pub mod New
pub mod Sizes
use lapuacore.Common.{
  ℕ, ◌+◌, Bool, true, false, not, ◌&&◌, ◌||◌, Option, none, some, List, [], ◌∷◌, ◌++◌, ltb, String,
  if◌then◌else◌, is_some,
}
use lapuacore.Domains.Decimal.{Decimal}
use lapuacore.Domains.Commons.{
  Side, side_none, side_buy, side_sell, OrderType, market, limit, limit_fok, limit_ioc, limit_maker,
  is_taker, is_amenable, unknown_type,
}

pub data OrderDoneReason : Type 0 where
  unknown_reason filled_reason partially_filled_and_canceled canceled_reason : OrderDoneReason
  amended_reason rejected_reason abandoned_reason : OrderDoneReason

pub data OrderStatus : Type 0 where
  unknown_status born sending pending canceling amending done : OrderStatus

pub record AmendDetail (D : Type 0) : Type 0 where
  pub price : D
  pub qty : D

-- An `OrderCallback`: a closure of the strategy, by its number, or one of the closures that the
-- dealer registers itself, the `cb` of `AmendOrder` with what it captures and that of `CancelOrder`.
pub data Callback (D : Type 0) : Type 0 where
  user : ℕ → Callback D
  amend_later : ℕ → AmendDetail D → Callback D
  cancel_later : Callback D

pub record Order (D : Type 0) : Type 0 where
  pub id : String
  pub public_id : String
  pub hide : Bool
  pub memo : String
  pub order_type : OrderType
  pub price : D
  pub qty : D
  pub side : Side
  pub sent_at : Option ℕ
  pub arrived_at : Option ℕ
  pub confirmed_at : Option ℕ
  pub last_operated_at : Option ℕ
  pub status : OrderStatus
  pub filled_at : Option ℕ
  pub avg_price : D
  pub exec_qty : D
  pub fee : D
  pub order_done_reason : Option OrderDoneReason
  pub create_callbacks : List (Callback D)
  pub amend_callbacks : List (Callback D)
  pub fill_callbacks : List (Callback D)
  pub partially_fill_callbacks : List (Callback D)
  pub cancel_callbacks : List (Callback D)
  pub create_reject_callbacks : List (Callback D)
  pub amend_reject_callbacks : List (Callback D)
  pub amend_reject_order_not_exist_callbacks : List (Callback D)
  pub cancel_reject_callbacks : List (Callback D)
  pub amending_detail : Option (AmendDetail D)
  pub amend_count : ℕ

abbrev pub limit_n_of_amend : ℕ
limit_n_of_amend = 9500

-- A nil argument leaves the field.
abbrev pub or_else : Option ℕ → Option ℕ → Option ℕ
or_else none old = old
or_else (some t) old = some t

module _ {D : Type 0} where
  unfoldable pub set_public_id : String → Order D → Order D
  set_public_id id o = record o { public_id = id }

  unfoldable pub set_memo : String → Order D → Order D
  set_memo memo o = record o { memo = memo }

  -- `setFilledAt`, `setAvgPrice`, `setExecQty` and `setFee`.
  unfoldable pub set_filled_at : Option ℕ → Order D → Order D
  set_filled_at t o = record o { filled_at = t }

  unfoldable pub set_avg_price : D → Order D → Order D
  set_avg_price p o = record o { avg_price = p }

  unfoldable pub set_exec_qty : D → Order D → Order D
  set_exec_qty q o = record o { exec_qty = q }

  unfoldable pub set_fee : D → Order D → Order D
  set_fee f o = record o { fee = f }

  unfoldable pub is_confirmed : Order D → Bool
  is_confirmed o = is_some o.confirmed_at

  unfoldable pub record_last_operated_timestamp : ℕ → Order D → Order D
  record_last_operated_timestamp now o = record o { last_operated_at = some now }

  unfoldable pub set_sent_timestamp : Option ℕ → Order D → Order D
  set_sent_timestamp t o = record o { sent_at = or_else t o.sent_at }

  unfoldable pub set_confirm_timestamps : Option ℕ → Option ℕ → Order D → Order D
  set_confirm_timestamps arrived confirmed o = record o {
    arrived_at = or_else arrived o.arrived_at;
    confirmed_at = or_else confirmed o.confirmed_at;
  }

  unfoldable pub amend : AmendDetail D → Order D → Order D
  amend detail o = record o { price = detail.price; qty = detail.qty }

  unfoldable pub set_order_done_reason : OrderDoneReason → Order D → Order D
  set_order_done_reason r o = record o { order_done_reason = some r }

  unfoldable pub set_status : OrderStatus → Order D → Order D
  set_status s o = record o { status = s }

  unfoldable pub set_amending_detail : Option (AmendDetail D) → Order D → Order D
  set_amending_detail detail o = record o { amending_detail = detail }

  unfoldable pub inc_amend_count : Order D → Order D
  inc_amend_count o = record o { amend_count = o.amend_count + 1 }

  unfoldable pub set_create_callback : Callback D → Order D → Order D
  set_create_callback c o =
      if is_taker o.order_type
      then o
      else record o { create_callbacks = o.create_callbacks ++ c ∷ [] }

  unfoldable pub set_amend_callback : Callback D → Order D → Order D
  set_amend_callback c o =
      if is_amenable o.order_type
      then record o { amend_callbacks = o.amend_callbacks ++ c ∷ [] }
      else o

  unfoldable pub replace_create_callbacks : Callback D → Order D → Order D
  replace_create_callbacks c o = record o { create_callbacks = c ∷ [] }

  unfoldable pub replace_amend_callbacks : Callback D → Order D → Order D
  replace_amend_callbacks c o = record o { amend_callbacks = c ∷ [] }

  unfoldable pub is_amend_able : Order D → Bool
  is_amend_able o = ltb o.amend_count limit_n_of_amend

  -- The setters that only append.
  unfoldable pub set_create_reject_callback : Callback D → Order D → Order D
  set_create_reject_callback c o = record o {
    create_reject_callbacks = o.create_reject_callbacks ++ c ∷ [];
  }

  unfoldable pub set_cancel_callback : Callback D → Order D → Order D
  set_cancel_callback c o = record o { cancel_callbacks = o.cancel_callbacks ++ c ∷ [] }

  unfoldable pub set_cancel_reject_callback : Callback D → Order D → Order D
  set_cancel_reject_callback c o = record o {
    cancel_reject_callbacks = o.cancel_reject_callbacks ++ c ∷ [];
  }

  unfoldable pub set_amend_reject_callback : Callback D → Order D → Order D
  set_amend_reject_callback c o = record o {
    amend_reject_callbacks = o.amend_reject_callbacks ++ c ∷ [];
  }

  unfoldable pub set_amend_reject_order_not_exist_callback : Callback D → Order D → Order D
  set_amend_reject_order_not_exist_callback c o = record o {
    amend_reject_order_not_exist_callbacks = o.amend_reject_order_not_exist_callbacks ++ c ∷ [];
  }

  unfoldable pub set_fill_callback : Callback D → Order D → Order D
  set_fill_callback c o = record o { fill_callbacks = o.fill_callbacks ++ c ∷ [] }

  unfoldable pub set_partially_fill_callback : Callback D → Order D → Order D
  set_partially_fill_callback c o = record o {
    partially_fill_callbacks = o.partially_fill_callbacks ++ c ∷ [];
  }

module _ {D : Type 0} ⦃d : Decimal D⦄ where
  abbrev pub differs : AmendDetail D → AmendDetail D → Bool
  differs a b = not (d.equal a.price b.price) || not (d.equal a.qty b.qty)

  abbrev pub current_detail : Order D → AmendDetail D
  current_detail o = record { price = o.price; qty = o.qty }

  -- While amending the code reads `amendingDetail`, which is set then; nil would be a panic.
  unfoldable pub need_while_amending : Option (AmendDetail D) → Order D → AmendDetail D → Bool
  need_while_amending none o detail = false
  need_while_amending (some ad) o detail = differs (current_detail o) detail && differs ad detail

  unfoldable pub need_by_status : OrderStatus → Order D → AmendDetail D → Bool
  unfolding need_while_amending
  need_by_status pending o detail = differs (current_detail o) detail
  need_by_status amending o detail = need_while_amending o.amending_detail o detail
  need_by_status _ o detail = false

  unfoldable pub is_need_to_amend : Order D → AmendDetail D → Bool
  unfolding need_by_status
  is_need_to_amend o detail = need_by_status o.status o detail
