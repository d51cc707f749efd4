-- ===== src/System.antt =====
-- The service as a whole: the processes that main.go starts over one database. A Step is what one of
-- them publishes in the tables by one statement or transaction; Reach is any number of steps, of any
-- processes in any order.
pub mod Steps
pub mod Acts
pub mod Methods
pub mod Posting
pub mod Bindings
pub mod Joining
pub mod Recovery
pub mod Processes
pub mod Requests
pub mod Running
pub mod Settled
pub mod Clients
pub mod Safety
pub mod Startup
pub mod Delivery
pub mod Latest
pub mod Holding
pub mod Promise
use currency_quotes_service.Prelude.{ℕ, ◌≡◌, ◌≢◌, Bool, true, ◌∷◌, Option, some, Text}
use currency_quotes_service.Domain.Task.{UpdateTask}
use currency_quotes_service.Storage.Schema.{Db}
use currency_quotes_service.Storage.Statements.{
  insert_task, bind_key, claim_oldest, close_task, insert_quote, fail_held, release_held,
}
use currency_quotes_service.Storage.Invariant.{Known}
use currency_quotes_service.Storage.Recovering.{recovered}

-- From the tables `d` to the tables `d'`: a post without a key, and one that binds its key; a claim
-- that takes a task; a claim that is completed, failed or released; a pass of the recovery.
pub data Step (d d' : Db) : Type 0 where
  posts :
      (now fresh : ℕ) (pair : Text) (t : UpdateTask)
      → insert_task now fresh pair d ≡ some (t, d')
      → Step d d'
  posts_bound :
      (now fresh ttl key : ℕ) (pair : Text) (t : UpdateTask) (m : Db)
      → insert_task now fresh pair d ≡ some (t, m)
      → bind_key now ttl key t.id m ≡ some (true, d')
      → Step d d'
  takes :
      (now : ℕ) (locked : ℕ → Bool) (t : UpdateTask)
      → claim_oldest now locked d ≡ some (some t, d')
      → Step d d'
  completes :
      (now id attempts : ℕ) (pair : Text) (rate : Option ℕ) (rate_date fetched_at : ℕ)
      → Known id pair d
      → (close_task now id attempts d).0 ≢ 0
      → insert_quote id pair rate rate_date fetched_at (close_task now id attempts d).1 ≡ some d'
      → Step d d'
  fails :
      (now id attempts c : ℕ) (reason : Text)
      → d' ≡ (fail_held now id attempts (c ∷ reason) d).1
      → Step d d'
  releases : (now id attempts : ℕ) → d' ≡ (release_held now id attempts d).1 → Step d d'
  recovers :
      (now older_than max_attempts c : ℕ) (reason : Text)
      → d' ≡ recovered now older_than max_attempts (c ∷ reason) d
      → Step d d'

pub data Reach (d : Db) : Db → Type 0 where
  here : Reach d d
  next : {m d' : Db} → Reach d m → Step m d' → Reach d d'

pub Reach-trans : {d m d' : Db} → Reach d m → Reach m d' → Reach d d'
Reach-trans r here = r
Reach-trans r (next q s) = next (Reach-trans r q) s

pub Reach-Step : {d d' : Db} → Step d d' → Reach d d'
Reach-Step s = next here s

pub Reach-eq : {d d' : Db} → d' ≡ d → Reach d d'
Reach-eq {d} e = rw e here
