-- ===== src/Config/Validity.antt =====
-- What `Load` and `HandlerTimeout` of internal/config/config.go answer.
use currency_quotes_service.Prelude.{
  ℕ, ◌+◌, ◌*◌, ◌≤◌, ◌<◌, ◌≡◌, Text, codes, ℤ, pos, pos_part, IsPositive, scale64, minus64,
  max_int64, arith,
}
use currency_quotes_service.Config.Env.{
  Environment, Parsers, Loaded, loaded, failed, duration_from_env, positive_int_from_env,
}
use currency_quotes_service.Config.{
  Config, Server, Provider, Workers, load_server, load_provider, load_workers, load, check,
  handler_timeout, in_port_range, second, default_http_read_timeout, default_http_write_timeout,
  default_shutdown_timeout, default_provider_timeout, default_provider_attempts,
  default_provider_backoff, default_worker_concurrency, default_worker_poll_interval,
  default_worker_task_timeout, default_worker_stuck_timeout, default_worker_recovery_interval,
  default_worker_max_attempts, default_idempotency_ttl,
}

-- A predicate of the value, where there is one.
abbrev pub Ensures : {A : Type 0} → (A → Type 0) → Loaded A → Type 0
Ensures P (loaded a) = P a
Ensures P (failed x) = Unit

duration-IsPositive :
    (p : Parsers) (env : Environment) (key : Text) (def : ℤ)
    → IsPositive def
    → Ensures IsPositive (duration_from_env p env key def)
unfolding duration_from_env
duration-IsPositive p env key def h = ground arith

count-IsPositive :
    (p : Parsers) (env : Environment) (key : Text) (def : ℤ)
    → IsPositive def
    → Ensures IsPositive (positive_int_from_env p env key def)
unfolding positive_int_from_env
count-IsPositive p env key def h = ground arith

abbrev ServerOk : Server → Type 0
ServerOk s =
    ((1 ≤ pos_part s.http_port) × (pos_part s.http_port ≤ 65535))
    × IsPositive s.http_read_timeout
    × IsPositive s.http_write_timeout
    × IsPositive s.shutdown_timeout

abbrev ProviderOk : Provider → Type 0
ProviderOk u =
    IsPositive u.provider_timeout × IsPositive u.provider_attempts × IsPositive u.provider_backoff

abbrev WorkersOk : Workers → Type 0
WorkersOk w =
    IsPositive w.worker_concurrency
    × IsPositive w.worker_poll_interval
    × IsPositive w.worker_task_timeout
    × IsPositive w.worker_stuck_timeout
    × IsPositive w.worker_recovery_interval
    × IsPositive w.worker_max_attempts

module _ (p : Parsers) (env : Environment) where
  server_ok : Ensures ServerOk (load_server p env)
  unfolding load_server in_port_range
  server_ok = ground (
    arith,
    duration-IsPositive p env (codes "HTTP_READ_TIMEOUT") default_http_read_timeout,
    duration-IsPositive p env (codes "HTTP_WRITE_TIMEOUT") default_http_write_timeout,
    duration-IsPositive p env (codes "SHUTDOWN_TIMEOUT") default_shutdown_timeout,
  )

  provider_ok : Ensures ProviderOk (load_provider p env)
  unfolding load_provider
  provider_ok = ground (
    arith,
    duration-IsPositive p env (codes "PROVIDER_TIMEOUT") default_provider_timeout,
    count-IsPositive p env (codes "PROVIDER_ATTEMPTS") default_provider_attempts,
    duration-IsPositive p env (codes "PROVIDER_BACKOFF") default_provider_backoff,
  )

  workers_ok : Ensures WorkersOk (load_workers p env)
  unfolding load_workers
  workers_ok = ground (
    arith,
    count-IsPositive p env (codes "WORKER_CONCURRENCY") default_worker_concurrency,
    duration-IsPositive p env (codes "WORKER_POLL_INTERVAL") default_worker_poll_interval,
    duration-IsPositive p env (codes "WORKER_TASK_TIMEOUT") default_worker_task_timeout,
    duration-IsPositive p env (codes "WORKER_STUCK_TIMEOUT") default_worker_stuck_timeout,
    duration-IsPositive p env (codes "WORKER_RECOVERY_INTERVAL") default_worker_recovery_interval,
    count-IsPositive p env (codes "WORKER_MAX_ATTEMPTS") default_worker_max_attempts,
  )

-- The ranges of the settings, and the room that a request has under the write timeout.
pub record Valid (c : Config) : Type 0 where
  pub port : (1 ≤ pos_part c.http_port) × (pos_part c.http_port ≤ 65535)
  pub read : IsPositive c.http_read_timeout
  pub write : second < pos_part c.http_write_timeout
  pub shutdown : IsPositive c.shutdown_timeout
  pub provider : ProviderOk (record {
    provider_base_url = c.provider_base_url;
    provider_timeout = c.provider_timeout;
    provider_attempts = c.provider_attempts;
    provider_backoff = c.provider_backoff;
  })
  pub concurrency : IsPositive c.worker_concurrency
  pub poll : IsPositive c.worker_poll_interval
  pub task : IsPositive c.worker_task_timeout
  pub stuck : IsPositive c.worker_stuck_timeout
  pub recovery : IsPositive c.worker_recovery_interval
  pub max_attempts : IsPositive c.worker_max_attempts
  pub ttl : IsPositive c.idempotency_ttl
  pub checked : check c ≡ loaded c

-- A configuration that `Load` answers has its port in range, every timeout, interval, lifetime and
-- count positive, more than the handler's margin of write timeout, and passes `check`.
pub load-Valid : (p : Parsers) (env : Environment) (c : Config) → load p env ≡ loaded c → Valid c
unfolding load check
load-Valid p env c e = ground (
  arith,
  server_ok p env,
  provider_ok p env,
  workers_ok p env,
  duration-IsPositive p env (codes "IDEMPOTENCY_TTL") default_idempotency_ttl,
)

-- In a configuration that `Load` answers, the staleness threshold is at least twice the deadline of
-- a task, provided that twice the deadline is an int64.
pub stuck_margin :
    (p : Parsers) (env : Environment) (c : Config)
    → load p env ≡ loaded c
    → 2 * pos_part c.worker_task_timeout ≤ max_int64
    → 2 * pos_part c.worker_task_timeout ≤ pos_part c.worker_stuck_timeout
unfolding check scale64
stuck_margin p env c e b = ground (arith, load-Valid p env c e)

-- In a configuration that `Load` answers, with a write timeout that is an int64, the deadline of a
-- handler is positive and one second under the write timeout.
pub handler_timeout-margin :
    (p : Parsers) (env : Environment) (c : Config)
    → load p env ≡ loaded c
    → pos_part c.http_write_timeout ≤ max_int64
    → IsPositive (handler_timeout c)
      × (pos_part (handler_timeout c) + second ≡ pos_part c.http_write_timeout)
unfolding handler_timeout minus64
handler_timeout-margin p env c e b = ground (arith, load-Valid p env c e)

-- A task timeout whose double is past int64 passes `check` with any staleness threshold.
pub check-overflow :
    (c : Config) (n k : ℕ)
    → second < pos_part c.http_write_timeout
    → c.worker_task_timeout ≡ pos n
    → max_int64 < 2 * n
    → n ≤ max_int64
    → c.worker_stuck_timeout ≡ pos k
    → check c ≡ loaded c
unfolding check scale64
check-overflow c n k w t big small s = ground arith
