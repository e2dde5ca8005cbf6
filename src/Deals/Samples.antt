-- ===== src/Deals/Samples.antt =====
-- The data of the examples: whole numbers in place of the third-party decimals, an agent that
-- accepts and one that refuses, and a few worlds.
use lapuacore.Common.{
  ℕ, ◌+◌, ◌-◌, ◌*◌, ◌/◌, refl, false, none, some, [], ◌∷◌, arith, ltb, leb, nat_beq, if◌then◌else◌,
}
use lapuacore.Domains.Decimal.{Decimal, OrderLaws}
use lapuacore.Domains.Commons.{side_buy, limit}
use lapuacore.Deals.Errors.{foreign}
use lapuacore.Deals.Order.{Order, OrderStatus, AmendDetail}
use lapuacore.Deals.Order.New.{new_order}
use lapuacore.Deals.World.{World, Agent}
use lapuacore.Deals.Dealer.{new_dealer}

-- Numbers that are never negative.
instance abbrev pub whole : Decimal ℕ
whole = record {
  zero_dec = 0;
  add = λ a b. a + b;
  sub = λ a b. a - b;
  mul = λ a b. a * b;
  div = λ a b. a / b;
  neg = λ a. 0;
  abs = λ a. a;
  truncate = λ a. a;
  equal = nat_beq;
  less_than = ltb;
  greater_than = λ a b. ltb b a;
  less_than_or_equal = leb;
  is_zero = λ a. nat_beq a 0;
  is_positive = λ a. ltb 0 a;
  is_negative = λ a. false;
}

pub whole-OrderLaws : OrderLaws whole
whole-OrderLaws = record {
  less_irrefl = λ a. ground arith;
  less_trans = λ a b c h k. ground arith;
  eq_of_less = λ a b h k. ground arith;
  greater_than_lem = λ a b. refl;
  less_than_or_equal_lem = λ a b. ground arith;
}

abbrev pub agreeing : Agent ℕ
agreeing = record { answer = λ h rs r. none }

abbrev pub refusing : Agent ℕ
refusing = record { answer = λ h rs r. some (foreign "not implemented") }

abbrev pub buy : Order ℕ
buy = new_order "a" limit 100 5 side_buy false ""

abbrev pub detail_of : ℕ → AmendDetail ℕ
detail_of price = record { price = price; qty = 5 }

-- No order, and the dealer of "BTCUSDT".
abbrev pub idle : World ℕ
idle = record {
  dealer = new_dealer 0 7 "BTCUSDT";
  heap = λ p. buy;
  next = 0;
  now = 7;
  tasks = [];
  requests = [];
  notices = [];
  position_notices = [];
}

-- One living order, at 0.
abbrev pub holding : Order ℕ → World ℕ
holding o = record idle {
  dealer = record idle.dealer { living_orders = ("a", 0) ∷ [] };
  heap = λ p. if nat_beq 0 p then o else buy;
  next = 1;
}

abbrev pub in_status : OrderStatus → Order ℕ
in_status s = record buy { status = s; amending_detail = some (detail_of 101) }
