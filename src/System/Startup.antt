-- ===== src/System/Startup.antt =====
-- `main` and `run` of main.go, with `New` and `Close` of internal/storage/postgres/repository.go: what
-- is opened, waited for and closed, and the status that the program exits with. The connection pool,
-- the HTTP server and the group of goroutines are parameters.
pub mod Closing
use currency_quotes_service.Prelude.{
  ℕ, zero, suc, ◌+◌, ◌==◌, ◌≡◌, refl, subst, length, count_if-append, ◌↔◌, Bool, true, false, List,
  [], ◌∷◌, ◌++◌, count_if, any, ◌&&◌, not, All, pos_part, arith,
}
use currency_quotes_service.Domain.Errors.{Error, Result, ok, err, foreign, wrapped}
use currency_quotes_service.Config.Env.{Loaded, loaded, failed}
use currency_quotes_service.Config.{Config}

pub data Event : Type 0 where
  pool_opened pool_closed started ended service_stopped : Event

-- How `ListenAndServe` ends: with http.ErrServerClosed after a shutdown, or with another error.
pub data Listening : Type 0 where
  closed : Listening
  broke : Error → Listening

-- What the program meets: `config.Load`, `pgxpool.New`, `pool.Ping`, the server and its shutdown, and
-- `Wait` of the group: on what its goroutines return, its answer and how many of them have ended by then.
pub record Surroundings : Type 0 where
  pub config : Loaded Config
  pub opening : Result (Unit {0})
  pub ping : Result (Unit {0})
  pub listening : Listening
  pub shutdown : Result (Unit {0})
  pub wait : List (Result (Unit {0})) → Result (Unit {0}) × ℕ

-- `postgres.New`.
unfoldable pub new : Result (Unit {0}) → Result (Unit {0}) → Result (Unit {0}) × List Event
new (err e) ping = (err (wrapped e), [])
new (ok _) (err e) = (err (wrapped e), pool_opened ∷ pool_closed ∷ [])
new (ok _) (ok _) = (ok tt, pool_opened ∷ [])

abbrev pub serve_result : Listening → Result (Unit {0})
serve_result closed = ok tt
serve_result (broke e) = err (wrapped e)

abbrev pub shutdown_result : Result (Unit {0}) → Result (Unit {0})
shutdown_result (ok _) = ok tt
shutdown_result (err e) = err (wrapped e)

-- `quotes.Run` and `recovery.Run` end without an error.
abbrev pub workers_ended : ℕ → List (Result (Unit {0}))
workers_ended zero = []
workers_ended (suc n) = ok tt ∷ workers_ended n

-- What the goroutines return: the server, the workers, the recovery and the shutdown.
abbrev pub goroutines : Config → Surroundings → List (Result (Unit {0}))
goroutines c s =
    serve_result s.listening ∷ workers_ended (pos_part c.worker_concurrency)
    ++ ok tt ∷ shutdown_result s.shutdown ∷ []

-- The calls of `g.Go`, one for each goroutine.
abbrev pub go_all : List (Result (Unit {0})) → List Event
go_all [] = []
go_all (r ∷ rs) = started ∷ go_all rs

abbrev pub ended_all : ℕ → List Event
ended_all zero = []
ended_all (suc n) = ended ∷ ended_all n

-- `g.Wait`, and the return of `run`.
abbrev pub waited : Result (Unit {0}) × ℕ → Result (Unit {0}) × List Event
waited (err e, n) = (err e, ended_all n)
waited (ok _, n) = (ok tt, ended_all n ++ service_stopped ∷ [])

-- The group from its first goroutine on.
abbrev pub grouped : Config → Surroundings → Result (Unit {0}) × List Event
grouped c s = let rs = goroutines c s in let (r, es) = waited (s.wait rs) in (r, go_all rs ++ es)

-- A deferred call comes after the body, however that returned.
abbrev pub deferring : Event → Result (Unit {0}) × List Event → Result (Unit {0}) × List Event
deferring e (r, es) = (r, es ++ e ∷ [])

-- `defer repo.Close()` stands before the group is made.
abbrev pub connected :
    Config → Surroundings → Result (Unit {0}) × List Event → Result (Unit {0}) × List Event
connected c s (err e, es) = (err e, es)
connected c s (ok _, es) = let (r, rest) = deferring pool_closed (grouped c s) in (r, es ++ rest)

abbrev pub configured : Loaded Config → Surroundings → Result (Unit {0}) × List Event
configured (failed x) s = (err (wrapped foreign), [])
configured (loaded c) s = connected c s (new s.opening s.ping)

-- `run`.
unfoldable pub run_service : Surroundings → Result (Unit {0}) × List Event
run_service s = configured s.config s

abbrev pub exit_status : Result (Unit {0}) → ℕ
exit_status (ok _) = 0
exit_status (err e) = 1

-- `main`.
unfoldable pub main : Surroundings → ℕ × List Event
unfolding run_service
main s = let (r, es) = run_service s in (exit_status r, es)
