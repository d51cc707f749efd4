-- ===== src/Tests/Repeats.antt =====
-- Posts that are sent twice, over the sample.
use currency_quotes_service.Prelude.{none, some, any, find?, text_eq, ◌≡◌, refl, arith}
use currency_quotes_service.Domain.Errors.{ok}
use currency_quotes_service.Storage.World.{World, execute, begin, query, commit}
use currency_quotes_service.System.{here}
use currency_quotes_service.Storage.Schema.{KeyRow, has_pair_shape, scan_task}
use currency_quotes_service.Storage.Statements.{has_key, insert_task, bind_key, select_by_key}
use currency_quotes_service.Storage.Repository.{
  create_task, task_by_key, create_task_with_key, replay_task,
}
use currency_quotes_service.Tests.Sample.{usd_eur}
use currency_quotes_service.System.Bindings.{create_task-once}
use currency_quotes_service.System.Joining.{IsOpen, create_task-joined}
use currency_quotes_service.Tests.Sample.{busy-Inv, waiting_row, start}

-- The key 4 is bound to the update 2 by the first post, and sent again 50 later.
abbrev first_post : World
first_post = (create_task 3600 usd_eur (some 4) start).1

abbrev new_key : KeyRow
new_key = record { key = 4; update_id = 2; created_at = 101 }

abbrev later_world : World
later_world = record start { db = first_post.db; at = 50 }

posts_first : create_task 3600 usd_eur (some 4) start ≡ (ok (scan_task waiting_row), first_post)
unfolding create_task task_by_key create_task_with_key execute begin query commit insert_task
    bind_key select_by_key find? any text_eq has_pair_shape
posts_first = refl

posts_second :
    create_task 3600 usd_eur (some 4) later_world
    ≡ (ok (scan_task waiting_row), (create_task 3600 usd_eur (some 4) later_world).1)
unfolding create_task task_by_key create_task_with_key execute begin query commit insert_task
    bind_key select_by_key find? any text_eq has_pair_shape replay_task
posts_second = refl

binds_key : find? (has_key 4) first_post.db.keys ≡ some new_key
unfolding create_task task_by_key create_task_with_key execute begin query commit insert_task
    bind_key select_by_key find? any text_eq has_pair_shape
binds_key = refl

create_task-once_example : (scan_task waiting_row).id ≡ (scan_task waiting_row).id
create_task-once_example =
    create_task-once 3600 4 usd_eur usd_eur start first_post later_world
      (create_task 3600 usd_eur (some 4) later_world).1 (scan_task waiting_row)
      (scan_task waiting_row) new_key here (λ n d. here) busy-Inv posts_first binds_key tt
      (omega arith) posts_second

-- The pair of the update 2, posted twice without a key.
abbrev joined_post : World
joined_post = (create_task 3600 usd_eur none start).1

abbrev after_joined : World
after_joined = record start { db = joined_post.db; at = 50 }

joins_first : create_task 3600 usd_eur none start ≡ (ok (scan_task waiting_row), joined_post)
unfolding create_task execute insert_task find? any text_eq has_pair_shape
joins_first = refl

joins_second :
    create_task 3600 usd_eur none after_joined
    ≡ (ok (scan_task waiting_row), (create_task 3600 usd_eur none after_joined).1)
unfolding create_task execute insert_task find? any text_eq has_pair_shape
joins_second = refl

joined_post-IsOpen : IsOpen 2 joined_post.db
unfolding create_task execute insert_task find? any text_eq has_pair_shape
joined_post-IsOpen = refl

create_task-joined_example : (scan_task waiting_row).id ≡ (scan_task waiting_row).id
create_task-joined_example =
    create_task-joined 3600 usd_eur start joined_post after_joined
      (create_task 3600 usd_eur none after_joined).1 (scan_task waiting_row) (scan_task waiting_row)
      (λ n d. here) busy-Inv joins_first here joined_post-IsOpen joins_second
