-- ===== src/Config.antt =====
-- internal/config/config.go: the settings of the service, read from environment variables.
-- `os.LookupEnv` is a function from names to texts, and the parsers of the standard library are
-- those of `Parsers`; a duration is its count of nanoseconds, and a level its number.
pub mod Env
pub mod Validity
use currency_quotes_service.Prelude.{
  ℕ, ◌*◌, Bool, true, false, ◌||◌, Option, none, some, Text, codes, ℤ, pos, negsuc, lebℤ, ltbℤ,
  scale64, minus64, if◌then◌else◌,
}
use Env.{
  Environment, Parsers, Fault, port_out_of_range, write_timeout_too_short, stuck_timeout_too_short,
  Loaded, loaded, failed, ◌>>=◌, ◌>>◌, required_from_env, string_from_env, int_from_env,
  positive_int_from_env, duration_from_env, level_from_env,
}

abbrev pub second : ℕ
second = 1_000_000_000

abbrev pub default_http_port : ℤ
default_http_port = pos 8080

abbrev pub default_http_read_timeout : ℤ
default_http_read_timeout = pos (5 * second)

abbrev pub default_http_write_timeout : ℤ
default_http_write_timeout = pos (10 * second)

abbrev pub default_shutdown_timeout : ℤ
default_shutdown_timeout = pos (10 * second)

abbrev pub default_log_level : ℤ
default_log_level = pos 0

abbrev pub default_provider_base_url : Text
default_provider_base_url = codes "https://api.frankfurter.dev"

abbrev pub default_provider_timeout : ℤ
default_provider_timeout = pos (3 * second)

abbrev pub default_provider_attempts : ℤ
default_provider_attempts = pos 3

abbrev pub default_provider_backoff : ℤ
default_provider_backoff = pos 200_000_000

abbrev pub default_worker_concurrency : ℤ
default_worker_concurrency = pos 4

abbrev pub default_worker_poll_interval : ℤ
default_worker_poll_interval = pos second

abbrev pub default_worker_task_timeout : ℤ
default_worker_task_timeout = pos (15 * second)

abbrev pub default_worker_stuck_timeout : ℤ
default_worker_stuck_timeout = pos (60 * second)

abbrev pub default_worker_recovery_interval : ℤ
default_worker_recovery_interval = pos (30 * second)

abbrev pub default_worker_max_attempts : ℤ
default_worker_max_attempts = pos 3

abbrev pub default_idempotency_ttl : ℤ
default_idempotency_ttl = pos (3600 * second)

abbrev pub min_port : ℤ
min_port = pos 1

abbrev pub max_port : ℤ
max_port = pos 65535

abbrev pub handler_timeout_margin : ℕ
handler_timeout_margin = second

abbrev pub stuck_timeout_margin : ℕ
stuck_timeout_margin = 2

pub record Config : Type 0 where
  pub database_url : Text
  pub http_port : ℤ
  pub http_read_timeout : ℤ
  pub http_write_timeout : ℤ
  pub shutdown_timeout : ℤ
  pub log_level : ℤ
  pub provider_base_url : Text
  pub provider_timeout : ℤ
  pub provider_attempts : ℤ
  pub provider_backoff : ℤ
  pub worker_concurrency : ℤ
  pub worker_poll_interval : ℤ
  pub worker_task_timeout : ℤ
  pub worker_stuck_timeout : ℤ
  pub worker_recovery_interval : ℤ
  pub worker_max_attempts : ℤ
  pub idempotency_ttl : ℤ

-- `Config.check`; the product is that of int64.
unfoldable pub check : Config → Loaded Config
check c =
    let min_stuck = scale64 stuck_timeout_margin c.worker_task_timeout in
    if lebℤ c.http_write_timeout (pos handler_timeout_margin)
    then failed (write_timeout_too_short c.http_write_timeout)
    else if ltbℤ c.worker_stuck_timeout min_stuck
    then failed (stuck_timeout_too_short c.worker_stuck_timeout min_stuck)
    else loaded c

-- `Config.HandlerTimeout`.
unfoldable pub handler_timeout : Config → ℤ
handler_timeout c = minus64 c.http_write_timeout handler_timeout_margin

unfoldable pub in_port_range : ℤ → Loaded (Unit {0})
in_port_range port =
    if ltbℤ port min_port || ltbℤ max_port port then failed (port_out_of_range port) else loaded tt

-- What the first, the second and the third part of `Load` read, before it is put together.
pub record Server : Type 0 where
  pub database_url : Text
  pub http_port : ℤ
  pub http_read_timeout : ℤ
  pub http_write_timeout : ℤ
  pub shutdown_timeout : ℤ
  pub log_level : ℤ

pub record Provider : Type 0 where
  pub provider_base_url : Text
  pub provider_timeout : ℤ
  pub provider_attempts : ℤ
  pub provider_backoff : ℤ

pub record Workers : Type 0 where
  pub worker_concurrency : ℤ
  pub worker_poll_interval : ℤ
  pub worker_task_timeout : ℤ
  pub worker_stuck_timeout : ℤ
  pub worker_recovery_interval : ℤ
  pub worker_max_attempts : ℤ

abbrev pub assembled : Server → Provider → Workers → ℤ → Config
assembled s u w ttl = record {
  database_url = s.database_url;
  http_port = s.http_port;
  http_read_timeout = s.http_read_timeout;
  http_write_timeout = s.http_write_timeout;
  shutdown_timeout = s.shutdown_timeout;
  log_level = s.log_level;
  provider_base_url = u.provider_base_url;
  provider_timeout = u.provider_timeout;
  provider_attempts = u.provider_attempts;
  provider_backoff = u.provider_backoff;
  worker_concurrency = w.worker_concurrency;
  worker_poll_interval = w.worker_poll_interval;
  worker_task_timeout = w.worker_task_timeout;
  worker_stuck_timeout = w.worker_stuck_timeout;
  worker_recovery_interval = w.worker_recovery_interval;
  worker_max_attempts = w.worker_max_attempts;
  idempotency_ttl = ttl;
}

module _ (p : Parsers) (env : Environment) where
  unfoldable pub load_server : Loaded Server
  load_server = do
    database_url ← required_from_env env (codes "DATABASE_URL")
    port ← int_from_env p env (codes "HTTP_PORT") default_http_port
    in_port_range port
    read ← duration_from_env p env (codes "HTTP_READ_TIMEOUT") default_http_read_timeout
    write ← duration_from_env p env (codes "HTTP_WRITE_TIMEOUT") default_http_write_timeout
    shutdown ← duration_from_env p env (codes "SHUTDOWN_TIMEOUT") default_shutdown_timeout
    level ← level_from_env p env (codes "LOG_LEVEL") default_log_level
    loaded (record {
      database_url = database_url;
      http_port = port;
      http_read_timeout = read;
      http_write_timeout = write;
      shutdown_timeout = shutdown;
      log_level = level;
    })

  unfoldable pub load_provider : Loaded Provider
  load_provider = do
    timeout ← duration_from_env p env (codes "PROVIDER_TIMEOUT") default_provider_timeout
    attempts ← positive_int_from_env p env (codes "PROVIDER_ATTEMPTS") default_provider_attempts
    backoff ← duration_from_env p env (codes "PROVIDER_BACKOFF") default_provider_backoff
    loaded (record {
      provider_base_url = string_from_env env (codes "PROVIDER_BASE_URL") default_provider_base_url;
      provider_timeout = timeout;
      provider_attempts = attempts;
      provider_backoff = backoff;
    })

  unfoldable pub load_workers : Loaded Workers
  load_workers = do
    size ← positive_int_from_env p env (codes "WORKER_CONCURRENCY") default_worker_concurrency
    poll ← duration_from_env p env (codes "WORKER_POLL_INTERVAL") default_worker_poll_interval
    task ← duration_from_env p env (codes "WORKER_TASK_TIMEOUT") default_worker_task_timeout
    stuck ← duration_from_env p env (codes "WORKER_STUCK_TIMEOUT") default_worker_stuck_timeout
    recovery ←
        duration_from_env p env (codes "WORKER_RECOVERY_INTERVAL") default_worker_recovery_interval
    attempts ← positive_int_from_env p env (codes "WORKER_MAX_ATTEMPTS") default_worker_max_attempts
    loaded (record {
      worker_concurrency = size;
      worker_poll_interval = poll;
      worker_task_timeout = task;
      worker_stuck_timeout = stuck;
      worker_recovery_interval = recovery;
      worker_max_attempts = attempts;
    })

  -- `Load`: the first fault in the order of the source ends it.
  unfoldable pub load : Loaded Config
  load = do
    server ← load_server
    provider ← load_provider
    workers ← load_workers
    ttl ← duration_from_env p env (codes "IDEMPOTENCY_TTL") default_idempotency_ttl
    check (assembled server provider workers ttl)
