-- ===== src/Gateways/Agents.antt =====
-- internal/gateways/exchanges/*/agent/agent.go: what the agents of both exchanges share. A method has a
-- part that the caller waits for, and a goroutine that calls a handler once with what came back. The
-- HTTP client, JSON and the texts of errors are parameters.
pub mod Bybit
pub mod Coinex
pub mod Answers
pub mod Failures
pub mod Examples
use lapuacore.Common.{ℕ, Bool, true, false, Option, none, some, String, Eq}
use lapuacore.Deals.Errors.{Err, foreign}
use lapuacore.Deals.Order.{AmendDetail}
use lapuacore.Deals.Messages.{CreateOrderResp, AmendOrderResp}
use lapuacore.Gateways.RateLimiter.{RateLimiter, consume}

-- What `httpClient.Do` and reading the body gave: no response, or a status with a body that could not
-- be read or was decoded.
pub data Body {ℓ} (B : Type ℓ) : Type ℓ where
  unreadable : String → Body B
  decoded : B → Body B

pub data Reply {ℓ} (B : Type ℓ) : Type ℓ where
  no_response : String → Reply B
  response : ℕ → Body B → Reply B

abbrev pub status_ok : ℕ
status_ok = 200

abbrev pub ret_code_ok : ℕ
ret_code_ok = 0

-- The texts that `fmt.Sprintf` makes, and `strconv`.
pub record Texts : Type 0 where
  pub do_failed : String → String
  pub bad_status : ℕ → String
  pub bad_body : String → String
  pub err_msg : ℕ → String → String
  pub format_int : ℕ → String
  pub atoi : String → Option ℕ
  pub bad_public_id : String → String
  pub parse_failed : String → String

-- The part that the caller waits for. `prepared` is what marshalling and `http.NewRequest` gave, and
-- `refused` the error for an empty quota. Without an error the goroutine is started.
module _ {G : Type 0} ⦃e : Eq G⦄ where
  abbrev pub after_quota : Err → Option Err → RateLimiter G × Bool → RateLimiter G × Option Err
  after_quota refused prepared (l, true) = (l, prepared)
  after_quota refused prepared (l, false) = (l, some refused)

  unfoldable pub start_request :
      Bool → Err → Option Err → G → ℕ → ℕ → RateLimiter G → RateLimiter G × Option Err
  start_request false refused prepared g n now l = (l, some (foreign "handler is required"))
  start_request true refused prepared g n now l = after_quota refused prepared (consume g n now l)

-- The responses that a method starts from.
abbrev pub empty_create : String → CreateOrderResp
empty_create id = record {
  order_id = id;
  public_id = "";
  arrived_at = none;
  confirmed_at = none;
  err = none;
}

-- `Detail` is nil until the amendment succeeds, and is not read before.
abbrev pub empty_amend : {D : Type 0} → String → AmendDetail D → AmendOrderResp D
empty_amend id detail = record {
  order_id = id;
  detail = detail;
  arrived_at = none;
  confirmed_at = none;
  err = none;
}
