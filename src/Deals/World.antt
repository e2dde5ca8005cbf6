-- ===== src/Deals/World.antt =====
-- What the code of domains/deals/ can see and change: the dealer, the orders behind their pointers,
-- the clock, and what has left the process. `DealerImpl` of dealer.go, `OrderMutexSlice` and
-- `OrdersMutexMap` of order.go, `Position` of position.go.
use lapuacore.Common.{ℕ, Bool, Option, List, ◌∷◌, ◌++◌, map, String, nat_beq, if◌then◌else◌}
use lapuacore.Mutex.Map.{Map}
use lapuacore.Mutex.Slice.{Slice}
use lapuacore.Deals.Errors.{Err}
use lapuacore.Deals.Order.{Order, AmendDetail, Callback}

pub record Position (D : Type 0) : Type 0 where
  pub value : D
  pub last_update_at : ℕ

-- Pointers to orders are numbers. `pos_updated_handlers` are closures of the strategy, by number.
pub record DealerImpl (D : Type 0) : Type 0 where
  pub accept_order : Bool
  pub symbol : String
  pub living_orders : Map String ℕ
  pub unrelated_orders : Map String ℕ
  pub amending_detail_map : Map String (AmendDetail D)
  pub done_orders : Slice ℕ
  pub current_position : Position D
  pub pos_updated_handlers : List ℕ

-- A call of the agent.
pub data Request (D : Type 0) : Type 0 where
  create_req : ℕ → Request D
  creates_req : List ℕ → Request D
  amend_req : ℕ → AmendDetail D → Request D
  cancel_req : ℕ → Request D
  cancels_req : List ℕ → Request D

-- `heap` holds the orders, and those from `next` on are not yet allocated. `tasks` are the
-- goroutines started by `go cb(o)` that have not run. `requests` are the calls of the agent, the
-- newest first. `notices` are the calls of `onError`, the newest first. `position_notices` are those of
-- the position handlers, the handlers of the newest message first and in their own order.
pub record World (D : Type 0) : Type 0 where
  pub dealer : DealerImpl D
  pub heap : ℕ → Order D
  pub next : ℕ
  pub now : ℕ
  pub tasks : List (Callback D × ℕ)
  pub requests : List (Request D)
  pub notices : List Err
  pub position_notices : List ℕ

-- The agent is an argument of the dealer. What it answers depends on the order, on the call, and on
-- the calls before.
pub record Agent (D : Type 0) : Type 0 where
  pub answer : (ℕ → Order D) → List (Request D) → Request D → Option Err

module _ {D : Type 0} where
  unfoldable pub update : (ℕ → Order D) → ℕ → Order D → ℕ → Order D
  update h p o q = if nat_beq p q then o else h q

  -- A setter called through the pointer.
  unfoldable pub modify : ℕ → (Order D → Order D) → World D → World D
  unfolding update
  modify p f w = record w { heap = update w.heap p (f (w.heap p)) }

  -- `for _, cb := range cbs { go cb(o) }`.
  unfoldable pub spawn : ℕ → List (Callback D) → World D → World D
  spawn p cbs w = record w { tasks = w.tasks ++ map (λ c. (c, p)) cbs }

  unfoldable pub call_agent : Agent D → Request D → World D → World D × Option Err
  call_agent agent r w = (record w { requests = r ∷ w.requests }, agent.answer w.heap w.requests r)

  -- A change of the dealer's own fields.
  abbrev pub with_dealer : (DealerImpl D → DealerImpl D) → World D → World D
  with_dealer f w = record w { dealer = f w.dealer }
