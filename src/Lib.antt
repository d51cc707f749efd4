-- ===== src/Lib.antt =====
-- The currency quotes service: a client posts a request to update the rate of a currency pair, a
-- worker fetches the rate from a provider in the background, and clients read the task and the
-- latest quote. The parts meet in the database, which is the queue of the tasks: the service writes
-- tasks, the workers claim them and finalise them, and the recovery returns those that a dead worker
-- left behind.
--
-- Where things are modelled:
--   Prelude         Boolean tests, lists, texts as lists of character codes, int64 arithmetic.
--   Domain          internal/domain: Errors (errors.go, with `errors.Is` over wrapped errors), Pair
--                   (pair.go: ParsePair and Currencies), Task (task.go and quote.go).
--   Storage         migrations and internal/storage/postgres/repository.go. Schema has the rows of
--                   the three tables, Statements one function per SQL statement, World the calls of
--                   the database, Repository one function per method, composed of those calls in the
--                   order of the source.
--   Service         internal/service/service.go, over any repository and over that of Storage.
--   Provider        internal/provider: Client (frankfurter.go: one request), Texts (the wording of its
--                   errors), Retrier (retry.go: the attempts, with the backoff library as a parameter),
--                   Rates (the two together, as main.go hands them to the workers).
--   Worker          internal/worker/worker.go (Worker: one claim; Worker.Loop: Run; Worker.Reasons:
--                   what a failure tells clients; Worker.Pacing: how often a failure to claim is
--                   reported; Worker.Draining and Worker.Serving: what a worker that is left
--                   alone does to the queue) and recovery.go (Worker.Recovery), over any repository.
--   Api             internal/api: the shapes of answers and errors (dto.go, errors.go), Api.Handlers
--                   (handlers.go, over any service), Api.Binder, Api.Faults and Api.Enums (the
--                   parameters of a request, the errors of the binder and the enumerations, in
--                   contract/contract.gen.go), Api.Middleware
--                   (middleware.go), Api.Reports (what errors.go logs), Api.Router (router.go: the
--                   routes and the chain of middleware), and Api.Contract, which puts the handlers, the
--                   service and the repository together as main.go does.
--   Config          internal/config/config.go: Config.Env reads a variable, Config assembles and
--                   checks.
--   System          main.go: the processes that it starts (System.Running), over the steps that they
--                   publish in the tables (System), and the start and the stop of the program, with New
--                   and Close of repository.go (System.Startup). System.Holding follows a
--                   claim, System.Delivery and System.Latest follow a completed task to its
--                   clients, and System.Promise follows a task that waits, or whose worker is
--                   gone, from its post or its recovery to its client.
--   Tests           a database with tasks in several statuses and other inputs, on which the results
--                   below are applied.
--
-- The database. A World is the three tables, a script and a position in it. Every call of the
-- database takes one entry of the script, a Turn: what other sessions have committed before it, as
-- any function on the tables, the time, a fresh identifier, the rows that others have locked, and
-- the fate of the call: it is answered, it is refused, or its effect is committed while the answer is
-- lost. A statement that breaks a constraint is an error without effect. A transaction works on the
-- tables that it met at its begin and publishes them at its commit, so that it is one step for the
-- others; the interleavings that READ COMMITTED allows inside a transaction are not modelled. The
-- deferred rollback after a commit or an error has no effect on the tables and is no step.
-- What others do is a parameter everywhere; a theorem that needs something of it asks that it keeps
-- the invariant (Storage.Invariant) and moves the tables forward only (Storage.Progress).
--
-- The processes. What a process publishes by one statement or transaction is a Step from tables to
-- tables, with one constructor for each kind of change that the service makes; Reach is any number of
-- steps, of any processes in any order. A process, a worker, the recovery or a goroutine of the
-- server, is run among others whose commits are steps too.
--
-- Requests. A handler is a function of the context of its request and of the state of the service; it
-- leaves how it ended (a response, or a panic after or before it wrote), the header X-Request-Id and
-- the lines that are logged. The handlers answer through a Writer, the functions writeJSON,
-- writeErrorJSON and writeInternal: `writes` is what they write, and `logging` adds what they log. A
-- middleware is a function on handlers. The router library, the
-- binder library, the identifiers that are drawn, the clock and the moment when the client hangs up
-- are parameters; the client counts as gone when it left before the deadline of the request.
--
-- Numbers. Times, durations of the storage and the workers, identifiers and keys are natural numbers;
-- times have one unit. Rates in the table are counts of 10^-10, the scale of numeric(20,10); the
-- decimal library is the record Decimals, whose conversions may fail. The configuration has int64
-- durations with their wrap-around written out, and reads its variables through parsers that are
-- parameters. The loops of the worker and of the recovery run over a list of rounds or ticks of any
-- length, so that no fuel is chosen; the pauses between them have no effect on the state.
--
-- Not modelled: the signals and the logger of main.go, and what contract.gen.go has beyond the binder,
-- its errors, the routes and the enumerations: a server that answers 501, and constructors of a server
-- and a default error handler that the service does not use. An error value keeps its wording only
-- where the code tells errors apart by it, and a line of the log by what it names of the request; the
-- pauses of the retrier and of the loops, which have no effect on the state, are left out.
mod Prelude
pub mod Domain
pub mod Storage
pub mod Service
pub mod Provider
pub mod Worker
pub mod Api
pub mod System
pub mod Config
mod Tests
