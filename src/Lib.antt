-- ===== src/Lib.antt =====
-- Verification library of Broker AI, a Python package for simulated and paper trading
-- (src/broker_ai).
--
-- The program keeps a portfolio of cash and positions, checks every order against a risk policy,
-- executes it in a simulated broker that logs each transaction, and puts local broker adapters behind
-- a client that retries. A strategy or a user makes an order; the risk gateway assesses it and only
-- then calls the broker; the broker changes the portfolio and its log. An adapter reaches the paper
-- account at Alpaca over HTTP, and a worker copies that account into the database of a web server,
-- where bots propose orders that an admin decides on.
--
-- Files and the code they model:
--   Base               lists, dictionaries in insertion order, results and actions
--   Decimal            Python's decimal.Decimal in the default context: 28 digits, half to even
--   Domain/Text        str.strip, str.upper, str.lower and str.isalnum on ASCII
--   Domain/Time        timestamps with and without a time zone
--   Domain/Instrument  src/broker_ai/domain/instrument.py
--   Domain/Order, Domain/Market, Domain/Transaction
--                      src/broker_ai/domain/order.py, market.py, transaction.py
--   Domain/Position, Domain/Portfolio
--                      src/broker_ai/domain/portfolio.py: Position and Portfolio
--   Domain/Valuation   Portfolio.value of the same file
--   Brokers/Simulated  src/broker_ai/brokers/simulated.py: SimulatedBroker
--   Brokers/Models     src/broker_ai/brokers/models.py
--   Brokers/Local      src/broker_ai/brokers/local.py: submit_filled is submit_order of
--                      SimulatorBrokerAdapter, submit_waiting that of LocalPaperBrokerAdapter,
--                      list_orders and reconcile_orders their reconcile_orders
--   Brokers/Reliable   src/broker_ai/brokers/reliable.py: call is _call of ReliableBrokerClient
--   Brokers/Alpaca     src/broker_ai/brokers/alpaca.py: Json has the values of an answer, Http the
--                      calls and _request, Answers _to_broker_order and what it calls, Adapter and
--                      Recent the methods of AlpacaPaperBrokerAdapter
--   Brokers/Sync       src/broker_ai/brokers/alpaca_sync.py: sync_alpaca_paper
--   Brokers/Onboarding src/broker_ai/brokers/alpaca_onboarding.py: run_first_paper_order
--   Risk/Models, Risk/Rules, Risk/Engine, Risk/Gateway
--                      src/broker_ai/risk/models.py, rules.py, engine.py, gateway.py
--   Data               src/broker_ai/data/historical.py: bars, datasets and load_csv
--   Strategies         src/broker_ai/strategies: the contract and MovingAverageStrategy
--   Backtesting        src/broker_ai/backtesting/engine.py: run is the loop of BacktestEngine.run,
--                      run_report the whole of it, Metrics calculate_metrics
--   Settings           src/broker_ai/config/settings.py
--   Server/RateLimiter, Server/Api
--                      src/broker_ai/server/app.py: RateLimiter; Api/Proposals has the endpoints
--                      that write, Api/Access the authentication, the routes and the middleware,
--                      Api/Startup create_app and _environment_bool
--   Server/Database    src/broker_ai/server/database.py: the tables and the statements on them
--   Server/Schemas     src/broker_ai/server/schemas.py
--   Server/SyncWorker  src/broker_ai/server/sync_worker.py: begin and finish are the halves of
--                      run_once before and after its wait
--   Tests              sample data, runs and applications of the theorems
--
-- State and errors: a method that may raise is an action, a function from the state to a result
-- (ok or err with the exception's kind) and the state as the call leaves it, also when it raises.
-- Message texts are not modelled. What a clock or an ID factory returns is an argument of the call.
-- The isinstance checks are the types of the model; a UUID is a number.
--
-- Dictionaries keep the order of insertion. The loop of the rate limiter recurs on its queue, and
-- Server/RateLimiter describes all calls of a limiter as a step relation, Trace.
--
-- Decimals: a finite decimal is an integer number of units of 10^-60, so the exponent of a value,
-- which only its printing shows, is not kept. A result is rounded to 28 significant digits, half to
-- even, and at a unit of 10^-60 if it has fewer digits than that. Infinities and NaN are one value
-- that every constructor refuses. Overflow at an exponent of 999999 is not modelled.
--
-- Concurrency: the coroutines of the local adapters never wait, so a method runs in one step. A
-- time-out of the reliable client is a choice of the environment, which loses the request or the
-- answer. A retry's loop is bounded by max_attempts and is recursion on the attempts left.
--
-- The web server: a request runs in one step, but a decision is also given as the half that reads and
-- the half that writes, since requests run in threads. The tables are lists of rows in the order of
-- insertion; an INSERT that breaks a key or a reference raises, and every statement commits by itself
-- but those of the synchronisation, which are one transaction. sha256 is a function that is not
-- looked into. The lists of rows that are returned are those of the tables: the ORDER BY and LIMIT of
-- their queries are not modelled. The sync worker's calls are a step relation, Reached.
--
-- Alpaca: the HTTP client and the world behind it are a parameter, HttpClient, and so are the
-- constructors of decimals, UUIDs and times from text and the str of lists and objects, Parsers. A
-- number in a JSON body is the value whose text is sent, and a
-- URL is its host and the resource after it. An exception of the client that _request does not
-- translate is one kind.
--
-- A backtest recurs on the bars. The name-based UUIDs of uuid5 are arguments; a trading date is a day
-- number, and a time of day a number of minutes.
--
-- The operations of binary floating point, with the exceptions that they raise, are a parameter,
-- Floats, with which the volatility and the Sharpe ratio are computed as the code does. The
-- constructors of dates and numbers that load_csv calls are a parameter too.
--
-- Not modelled: the endpoints of analyses, portfolio snapshots and the sync status, migrations,
-- connections and the backup of the database, the console commands, demos, printed texts and logging.
pub mod Base
pub mod Decimal
pub mod Domain
pub mod Brokers
pub mod Risk
pub mod Data
pub mod Strategies
pub mod Backtesting
pub mod Server
pub mod Settings
mod Tests
