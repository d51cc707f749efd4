-- ===== src/Tests/Settings.antt =====
-- Settings, from an environment that sets the address of the database alone.
use currency_quotes_service.Prelude.{
  ◌*◌, ◌≡◌, refl, none, some, codes, text_eq, pos, scale64, if◌then◌else◌, arith,
}
use currency_quotes_service.Config.Env.{
  Environment, Parsers, loaded, required_from_env, string_from_env, int_from_env,
  positive_int_from_env, duration_from_env, level_from_env,
}
use currency_quotes_service.Config.{
  Config, second, load, load_server, load_provider, load_workers, in_port_range, check,
}
use currency_quotes_service.Config.Validity.{Valid, load-Valid, check-overflow}

abbrev pub no_parsers : Parsers
no_parsers = record { atoi = λ _. none; parse_duration = λ _. none; parse_level = λ _. none }

abbrev pub database_only : Environment
database_only key =
    if text_eq key (codes "DATABASE_URL") then some (codes "postgres://quotes") else none

abbrev pub defaults : Config
defaults = record {
  database_url = codes "postgres://quotes";
  http_port = pos 8080;
  http_read_timeout = pos (5 * second);
  http_write_timeout = pos (10 * second);
  shutdown_timeout = pos (10 * second);
  log_level = pos 0;
  provider_base_url = codes "https://api.frankfurter.dev";
  provider_timeout = pos (3 * second);
  provider_attempts = pos 3;
  provider_backoff = pos 200_000_000;
  worker_concurrency = pos 4;
  worker_poll_interval = pos second;
  worker_task_timeout = pos (15 * second);
  worker_stuck_timeout = pos (60 * second);
  worker_recovery_interval = pos (30 * second);
  worker_max_attempts = pos 3;
  idempotency_ttl = pos (3600 * second);
}

pub loads_defaults : load no_parsers database_only ≡ loaded defaults
unfolding load load_server load_provider load_workers in_port_range check scale64 required_from_env
    string_from_env int_from_env positive_int_from_env duration_from_env level_from_env text_eq
loads_defaults = refl

load-Valid_example : Valid defaults
load-Valid_example = load-Valid no_parsers database_only defaults loads_defaults

-- 1,300,000 hours of task deadline under a staleness threshold of one nanosecond.
abbrev endless : Config
endless = record defaults {
  worker_task_timeout = pos 4_680_000_000_000_000_000;
  worker_stuck_timeout = pos 1;
}

check-overflow_example : check endless ≡ loaded endless
check-overflow_example =
    check-overflow endless 4_680_000_000_000_000_000 1 (omega arith) refl (omega arith)
      (omega arith) refl
