-- ===== src/Lib.antt =====
-- The library models the core of lapuacore, a Go framework for trading bots.
--
-- The program's parts. A strategy creates orders (domains/deals/order.go) and hands them to a dealer
-- (domains/deals/dealer.go), which calls the agent of an exchange. The agent's responses and the
-- messages of the private channels come back to the dealer (domains/deals/dealing_handlers.go),
-- which moves the orders between its maps of living and unrelated orders and its list of done ones.
-- The gateways (internal/gateways/) translate an exchange's words and error codes, limit the rate of
-- requests, and drop messages that they have seen. A channel of the gateways keeps a WebSocket connection
-- alive; its messages are translated and handed to the dealer and to the insights
-- (domains/insights/), which keep the market data that a strategy reads.
--
-- Which file models which part:
--   Common          shared names, Boolean tests, lists over native numbers, equality as an interface
--   Mutex/Map       mutex/map.go as an association list, one function for each method
--   Mutex/Slice     mutex/slice.go as a list with a limit, one function for each method
--   Domains/Decimal the third-party decimals, an interface whose laws are named hypotheses
--   Domains/Commons domains/commons.go: sides and order types
--   Deals/Errors, Deals/Messages  the errors and the messages that the dealer receives
--   Deals/Order     domains/deals/order.go: the order and its setters; New its constructors, Sizes sums
--   Deals/World     the state: `DealerImpl`, the orders behind their pointers, what was sent
--   Deals/Outcome   the accept, reject and abandon methods of dealing_handlers.go
--   Deals/Dealer    dealer.go: SendOrder, AmendOrder, CancelOrder, their batches, their callbacks
--   Deals/Handlers  dealing_handlers.go: the responses of the agent, and noticeError
--   Deals/Streams   dealing_handlers.go: HandleOrderData and HandlePositionData
--   Deals/Invariant the books of the dealer, each operation, and the runs of all of them
--   Deals/Final     what the same runs do to an order that is done
--   Deals/Locks     WithOpLock and WithOpeLocks of order.go, for calls that run at once
--   Deals/Deferred, Race, Notices, Positions, AmendLimit  what the operations do together
--   Gateways/Bybit, Gateways/Coinex  internal/gateways/exchanges/*/translators/: words and error codes
--   Gateways/Translations  both of them, with the dealer's noticeError
--   Gateways/RateLimiter   internal/gateways/exchanges/*/agent/rate_limiter.go, and runs of it
--   Gateways/TtlCache      internal/gateways/ttl_cache.go and dedup_topic.go, each section
--                          under the lock a step; Window and Races what goes through
--   Gateways/Messages      internal/gateways/exchanges/*/translators/ and dtos/: the messages; Bybit and
--                          Coinex the translators, Laws printing and reading
--   Gateways/Agents        internal/gateways/exchanges/*/agent/agent.go: Bybit and Coinex the requests and
--                          the responses, Answers and Failures with the dealer, Coinex/Each the batches
--   Gateways/Topics        internal/gateways/exchanges/*/ws/topics/: the MsgHandler of each topic; Fills
--                          order messages up to the dealer
--   Gateways/Managers      internal/gateways/exchanges/*/ws/topics/manager.go; Routing messages to topics
--   Gateways/Latency       internal/gateways/latency_measurer.go; Extremes one aggregate, Kept the calls
--   Gateways/Channel       internal/gateways/channel.go: a step relation of its loop, Runs its invariant
--   Gateways/Author        internal/gateways/author.go and exchanges/*/ws/author.go below it; Retries runs
--   Gateways/HealthChecker internal/gateways/health_checker.go; Alerts runs up to a tick
--   Insights/Quote, Insights/Trade  domains/insights/quote.go and trade.go
--   Insights/Tree          the third-party B-tree as an interface with laws, and ordered lists
--   Insights/Levels        domains/insights/price_level.go; Laws what is read after a change, Sums sums
--   Insights/Book          domains/insights/orderbook.go and orderbook_handlers.go; View, Snapshot
--                          and Overlay the two kinds of update, Run any messages, Best the best levels,
--                          Reads what is read from a book, Volumes its sums
--   Configs/Params, Configs/Getters configs/config.go; Configs/LastGood reloads and reads of parameters
--   Configs/Secret         configs/secret.go; Rebuilt an update against a new start
--   Configs/Watcher        configs/watcher.go; Latest any events of the files
--   Metrics/Measurements   metrics/measurements/ and metrics/translators/
--   Metrics/Exporter       metrics/exporter.go as a step relation; Metrics/Conserved its runs
--   Display         pkg/display/book_display.go: the text that Render prints; Visible what visibleLen
--                   counts, Lines and Rows the lines of a book and of the screen, Aligned the columns
--   Deals/Samples, Deals/Examples, Deals/Incidents, Mutex/Examples, Gateways/Examples,
--   Insights/Examples, and the modules Examples and Strokes further down  concrete runs
--
-- How state and operations correspond. An order is a record, a pointer to it is a number, and the
-- heap is a function from numbers to orders; a method that changes an order changes the heap. A
-- method under a lock is one step, a function from world to world. `go cb(o)` appends to the waiting
-- tasks, and running a task is a step of its own. A Go map is an association list, where a theorem
-- holds for each order of its entries. A B-tree is an abstract type, the book that it holds is
-- a function from prices to levels. A goroutine that waits for an exchange is a function of what comes back. Times are natural numbers, an optional time an Option.
-- A text that is measured is a list of runes.
-- A callback of the strategy is a number: what it does are further calls of the dealer.
--
-- Loops run over lists that are given, so that every function is total and there is no fuel.
--
-- What is not modelled: the HTTP and WebSocket clients, JSON decoding, the message receiver,
-- channel groups of internal/gateways/, and initializers/, which are I/O or wiring; reading
-- files and YAML, and the client of the metrics' database, which are third-party; logging; the panics of nil pointers, except where an agent reads a missing
-- part of an answer, but for a body `null` of Bybit. To the dealer the agent is a parameter: an answer for each call. The registry of
-- dealers by symbol in `NewDealer` is left out, a dealer stands for one symbol. Decimals, B-trees and
-- the parsing and printing of numbers are third-party code, interfaces whose laws are hypotheses.
pub mod Common
pub mod Mutex
pub mod Domains
pub mod Deals
pub mod Gateways
pub mod Insights
pub mod Configs
pub mod Metrics
pub mod Display
