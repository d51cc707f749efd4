-- ===== src/System/Promise/Posts.antt =====
-- From POST /quotes/updates to the answer of GET /quotes/updates/{id}: the handlers of internal/api, the
-- worker of internal/worker and the tables of internal/storage/postgres together.
use currency_quotes_service.Storage.World.{World}
use currency_quotes_service.Storage.Repository as Postgres
use currency_quotes_service.Storage.Repository.{insert_call}
use currency_quotes_service.Service
