-- ===== src/Lib.antt =====
-- A model of the MT5 gateway: an HTTP service (app/) in front of one MetaTrader 5 terminal.
--
-- The parts that are modelled are the way of an order, its dry run, the closing of positions, the
-- change of pending orders, the history of deals, the session with the terminal, the login, the
-- choice of a broker's address, and the hooks, routes and kill switch that stand around the
-- handlers. POST /order (app/routes/order.py) checks the body against the operator's limits
-- (app/pretrade.py), takes a reservation for the idempotency key (app/idempotency.py), normalises
-- volume and prices (app/money.py), validates them against the symbol and the quote (app/lib.py),
-- builds the trade request (app/order_requests.py), converts its expiry to the broker's clock
-- (app/order_time.py, app/time_utils.py), asks the broker to check and then to do it, looks for the
-- fill price if the answer has none, and completes or abandons the reservation. Each call of the
-- MetaTrader5 package goes through SerializedMT5 (app/mt5_connection.py). Retcodes are classified
-- by app/retcodes.py, errors answered by app/errors.py, and each order leaves a counter
-- (app/metrics.py) and a record (app/audit.py).
--
-- Every endpoint that needs the terminal is guarded by require_mt5_connection (app/decorators.py),
-- which asks MT5Connection.ensure_connection (app/mt5_connection.py) for a usable session: that one
-- reconnects behind a lock and a back-off, and reconciles (app/reconciliation.py) before it says yes.
-- Positions are closed through app/lib.py by the handlers of app/routes/position.py; pending orders
-- are cancelled and changed by app/routes/order.py. At boot app/broker_resolver.py turns the name of
-- a broker's server into the addresses to try, and app/autologin.py writes the terminal's start file
-- and its settings; a reconnect logs in with what app/autologin.py makes of the environment.
--
-- A request passes the hook of app/security.py, which asks for the key and, while the kill switch
-- (app/kill_switch.py) is on, turns trading requests away; then the guard; then its handler; and its
-- answer gets the envelope of app/responses.py. Service puts these together: its state is the store of
-- reservations, the switch and the world, and an endpoint is a route with what its handler reads. The
-- handlers of Reads are not among its routes.
--
-- Files: Retcodes for app/retcodes.py; Idempotency for app/idempotency.py, with its threads as a
-- step relation in Idempotency/Threads; Money for app/money.py; ServerTime for app/time_utils.py;
-- Host for what lies outside the repository; World for the shared state and the call boundary;
-- Errors for app/errors.py; PreTrade for app/pretrade.py; Validation and Symbols for app/lib.py;
-- OrderRequests for app/order_requests.py; Order for app/routes/order.py and app/order_time.py;
-- CloseConfirm for app/close_confirm.py; Access for app/security.py; Connection for
-- app/mt5_connection.py, with the guard in Connection/Session and app/reconciliation.py in
-- Connection/Reconcile; Positions for the closing in app/lib.py and for app/routes/position.py;
-- Pending for the pending orders of app/routes/order.py; Resolver for app/broker_resolver.py; Login for
-- app/autologin.py; History for app/routes/history.py, app/deal_window.py and app/request_limits.py;
-- Service for app/app.py, app/routes/control.py, app/kill_switch.py and app/responses.py; Reads for
-- app/routes/symbol.py, the readiness of app/routes/health.py and the list of positions.
-- Json holds request and response bodies, Flow the three ways a piece of a handler ends (a value,
-- an early return, an exception), Convert Python's float() and int(), Prelude the shared names, and
-- Tests the theorems applied to concrete inputs.
--
-- A definition has the name of the Python function it models; a long function is cut at its early
-- returns. Amounts are counts of 10^-10, clocks are read in milliseconds, and the TTL of the store
-- is counted in ticks of the clock that `begin` reads. The loops that poll for a fill or a
-- close run on fuel, one more than the timeout in milliseconds, since a round lasts a millisecond or
-- more (Order/Deadline.antt).
--
-- The MetaTrader5 package, Decimal's and int's parsers of texts, json and the hashes are parameters
-- (Host, Library), and so are pandas' comparison of a column, the files and the network. Binary
-- rounding of a double is not modelled: an amount is the decimal that its text says. A number that is
-- not finite is one of its own (Json), and reaches a request only where the code lets it
-- (Pending/Modify). The attempts to attach and the polls for a live quote are as many as the
-- configuration says. Dates are a parameter (History/Window), and so are `strip`, `lower` and the
-- splitting of a text where the login uses them. The kill switch's file is taken to be writable, and
-- what Flask does with a request outside of the repository's own functions is its matching of a path
-- to a route, which Service takes as done, and its answer to an exception, which is a parameter. Log
-- lines, the rendering of messages, the latency and the thread that refreshes the offset are left out,
-- and the writing of the session marker is modelled (Login/Marker) but is no part of an attempt to
-- attach. What a structure of the package holds under its field names is a parameter too (Reads). The
-- endpoints that only pass on what the terminal answers (the account, the list of symbols, bars, ticks,
-- liveness), the settings and the build tooling are not modelled.
pub mod Prelude
pub mod Json
pub mod Retcodes
pub mod Idempotency
pub mod Flow
pub mod Money
pub mod ServerTime
pub mod Host
pub mod World
pub mod Errors
pub mod Convert
pub mod PreTrade
pub mod Validation
pub mod OrderRequests
pub mod Symbols
pub mod Order
pub mod CloseConfirm
pub mod Access
pub mod Connection
pub mod Positions
pub mod Pending
pub mod Resolver
pub mod Login
pub mod History
pub mod Reads
pub mod Service
pub mod Tests
