-- ===== src/Lib.antt =====
-- Verification of trandingnok, a spot trading system in Go: pure strategy code, a backtest, and a
-- genetic algorithm that tunes the strategy's parameters, and the server that runs instances of it.
--
-- Parts. A strategy is a pure function from price series, an account and a runtime state to trade
-- intents and a new runtime state. The backtest calls it bar by bar and carries its intents out on
-- a simulated account. The genetic algorithm scores a chromosome by backtests over four windows,
-- each against a passive baseline, and breeds a population from generation to generation. The
-- server calls the same step on live bars once a tick: it books releases itself, stores every other
-- intent as a pending execution and sends it to the user's agent, whose reports fill executions and
-- update the account rows that the next tick reads. A scheduler ticks every running instance each
-- minute. The laboratory's side of the server runs one epoch of the genetic algorithm at a time and
-- stores its winner as a challenger, which a person may promote to the champion that ticks use. The
-- agent runs beside the user: it keeps a connection to the server, carries commands out on the
-- exchange and reports.
--
-- Files and code:
--   Base             shared types: Boolean tests, lists over native numbers, int64 (wrap64)
--   Float            float64: its operations are a parameter of the model (Float/Defs), the facts of
--                    IEEE 754 that some theorems use are named laws (Float/Laws), and Float/Fixed is
--                    a concrete type where they hold, on which the examples run
--   Quant/Data       internal/quant/data.go and closes.go
--   Quant/Maths      internal/quant/math.go
--   Quant/Genome     internal/quant/genome.go: ClampChromosome is clamp_chromosome
--   Quant/Calendar   MonthKey, monthOf and daysSince (macro_engine.go, ghost_dca.go)
--   Quant/Market     internal/quant/market_state.go: ComputeMarketState
--   Quant/Macro      internal/quant/macro_engine.go: ComputeMacroDecision is the month's roll
--                    (roll_month) and the loop over the tiers (fire_tiers)
--   Quant/Micro      internal/quant/micro_engine.go: ComputeMicroDecision
--   Quant/Lot        internal/quant/lot.go: TryReleaseDeadToFloat
--   Quant/Drawdown, Quant/Dietz, Quant/Ghost   internal/quant/ghost_dca.go
--   Quant/Crucible   internal/quant/crucible.go: BuildCrucibleWindows
--   Strategy/Types   internal/strategy/step.go
--   Strategy/SigmoidDca   internal/strategies/sigmoid_dca: Step is step; Params: ParseParamPack
--   Backtest/Account, Backtest/Run   internal/adapters/backtest/adapter.go: applyIntent, and
--                    RunBacktest as one function for each part of its loop
--   Ga/Random        what the code uses of math/rand, a parameter
--   Ga/Evolvable     internal/saas/ga/sigmoid_dca_evolvable.go
--   Ga/Engine, Ga/Epoch   internal/saas/ga/engine.go: the parts of RunEpoch, and its main loop
--   Ga/Plan          buildPlan, klinesToBars and barsFrom of internal/saas/ga/engine.go
--   Saas/Store       internal/saas/store/models.go: the tables as lists of rows
--   Saas/Lifecycle   Start, Stop, Delete and markError of internal/saas/instance/manager.go
--   Saas/Ledger      handleRelease; Saas/Dispatch: intentToCommand and dispatchCommand
--   Saas/Dispatch/Envelope   the JSON form of a command
--   Saas/Candles     fetchLatestBars of internal/saas/instance/manager.go
--   Saas/Load, Saas/Tick   the ten steps of Tick, in the code's order
--   Saas/Cron        internal/saas/cron/scheduler.go: scan and the loop around it
--   Saas/DeltaReport internal/saas/ws/portfolio.go: processDeltaReport and updateBalances
--   Saas/Hub         internal/saas/ws/hub.go: the registry of connections; Saas/Hub/Handler:
--                    HandleConnection with its messages
--   Saas/Booking     what ticks and reports keep of the orders, over any sequence of both
--   Saas/Lab         the rows of genes and tasks; Lab/Service and Lab/Spawn:
--                    internal/saas/epoch/service.go; Lab/Promote and Lab/Tasks:
--                    internal/saas/api/handler_evolution.go; Lab/Challenger: RunEpoch of
--                    internal/saas/ga/engine.go around its main loop; Lab/Champion: the champion
--                    that a tick reads from the gene records and the cache
--   Agent/Exchange   internal/agent/exchange/bitget.go
--   Agent/Client     internal/agent/ws/client.go
--   Json             encoding/json: values, the reading of fields, and the numbers it writes
--   System           the server and the agent together: messages, handshake, orders
--   Examples         runs on concrete inputs
--
-- Loops are structural on their lists; the main loop of an epoch is structural on the generations
-- that are left, and the loops of breeding on the children that are missing. The wait for a fill is
-- structural on the queries that are left, at most 6 as in the code. Loops that read a connection
-- or wait for a timer are structural on what arrives before they end. An index or a draw out of
-- range, a panic in Go, is `none`.
--
-- Choices. Strings that code compares are data types with a constructor for the other strings. The
-- cache of evaluatePopulation is filled by one worker in the order of the population. sort.Slice
-- leaves the order of equal elements open; the model keeps it. A JSON text is parsed or not: fields
-- set before a parse error are not modelled. A JSON object has each key once, spelled exactly. A
-- value that is NaN or infinite cannot be written: the message is empty, which is no JSON.
-- Goroutines run in some order: the ticks of a scan one after another, what a connection is answered
-- in the order of its messages, and a race is a sequence of steps that a theorem names.
--
-- The database. A table is a list of rows, a query takes the first row that meets its condition or
-- changes those that do, and a column with a unique index refuses a value that is there. Every call
-- may fail, by an argument that gives the database's answer to each call, and then changes nothing;
-- a transaction whose body fails is rolled back. JSON blobs are written and read by parameters; of
-- an audit entry the quantity is kept. Candles, the champion rows, the cache, the clock and whether
-- an agent is connected are what a tick is given.
--
-- Not modelled: configuration files and process start-up, the making of tokens, the HTTP and WebSocket
-- transports with their deadlines, the HMAC of a request's signature, the clients of the database
-- and of the cache, and the timers and channels around the scheduler, the heartbeat and the writes
-- of the agent: they are calls of libraries with no logic of their own. The fingerprint hash is a
-- parameter of the engine, as the bits of a float64 are not there in an arbitrary value type.
pub mod Base
pub mod Float
pub mod Quant
pub mod Strategy
pub mod Backtest
pub mod Ga
pub mod Json
pub mod Saas
pub mod Agent
pub mod System
mod Examples
