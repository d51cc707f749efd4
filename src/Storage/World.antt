-- ===== src/Storage/World.antt =====
-- The database as the repository meets it. Before each call the rest of the world may have committed
-- work of its own; the call then happens at a time, and is refused, answered, or carried out with
-- its answer lost. A `script` says what each call meets. Within a transaction nothing that others
-- commit is seen: its first statement locks what the later ones rely on.
pub mod Laws
use currency_quotes_service.Prelude.{ℕ, suc, Bool, true, false, Option, none, some}
use currency_quotes_service.Domain.Errors.{Error, Result, ok, err, foreign, wrapped}
use currency_quotes_service.Storage.Schema.{Db}

pub data Fate : Type 0 where
  refused answered unheard : Fate

-- What one call meets: the work of others before it, the clock of the database, the next
-- gen_random_uuid(), the rows that others have locked, and the fate of the call.
pub record Turn : Type 0 where
  pub others : Db → Db
  pub now : ℕ
  pub fresh : ℕ
  pub locked : ℕ → Bool
  pub fate : Fate

pub record World : Type 0 where
  pub db : Db
  pub script : ℕ → Turn
  pub at : ℕ

abbrev pub turn : World → Turn
turn w = w.script w.at

abbrev pub M : Type 0 → Type 0
M A = World → Result A × World

abbrev continue : {A B : Type 0} → Result A × World → (A → M B) → Result B × World
continue (ok a, w) f = f a w
continue (err e, w) f = (err e, w)

infixl 5 ◌>>=◌ ◌>>◌
abbrev pub ◌>>=◌ : {A B : Type 0} → M A → (A → M B) → M B
◌>>=◌ m f w = continue (m w) f

abbrev pub ◌>>◌ : {B : Type 0} → M (Unit {0}) → M B → M B
m >> k = m >>= λ _. k

abbrev pub give : {A : Type 0} → Result A → M A
give r w = (r, w)

abbrev pub wrapped_result : {A : Type 0} → Result A × World → Result A × World
wrapped_result (ok a, w) = (ok a, w)
wrapped_result (err e, w) = (err (wrapped e), w)

-- `fmt.Errorf("…: %w", err)` on the error of a call.
abbrev pub wrap : {A : Type 0} → M A → M A
wrap m w = wrapped_result (m w)

-- A call of one statement that commits by itself.
abbrev pub answer : {A : Type 0} → Fate → Option (A × Db) → Db → Result A × Db
answer refused r d = (err foreign, d)
answer answered none d = (err foreign, d)
answer answered (some (a, d')) d = (ok a, d')
answer unheard none d = (err foreign, d)
answer unheard (some (a, d')) d = (err foreign, d')

unfoldable pub execute : {A : Type 0} → (Turn → Db → Option (A × Db)) → M A
execute statement w =
    let t = turn w in
    let d = t.others w.db in
    let (r, d') = answer t.fate (statement t d) d in (r, record w { db = d'; at = suc w.at })

-- A transaction: the tables as it sees them, and the time at which it started.
pub record Tx : Type 0 where
  pub view : Db
  pub started : ℕ

abbrev pub open_tx : Turn → Db → Option (Tx × Db)
open_tx t d = some (record { view = d; started = t.now }, d)

-- `pool.Begin`.
unfoldable pub begin : M Tx
begin = execute open_tx

abbrev pub answer_tx : {A : Type 0} → Fate → Option (A × Db) → Tx → Result (A × Tx)
answer_tx answered (some (a, d)) tx = ok (a, record tx { view = d })
answer_tx answered none tx = err foreign
answer_tx refused r tx = err foreign
answer_tx unheard r tx = err foreign

-- A statement inside the transaction: nothing of it is published yet.
unfoldable pub query : {A : Type 0} → (Turn → Db → Option (A × Db)) → Tx → M (A × Tx)
query statement tx w =
    (answer_tx (turn w).fate (statement (turn w) tx.view) tx, record w { at = suc w.at })

abbrev pub committed : Fate → Tx → World → Result (Unit {0}) × World
committed refused tx w = (err foreign, record w { at = suc w.at })
committed answered tx w = (ok tt, record w { db = tx.view; at = suc w.at })
committed unheard tx w = (err foreign, record w { db = tx.view; at = suc w.at })

-- `tx.Commit`: an error leaves open whether the work was published.
unfoldable pub commit : Tx → M (Unit {0})
commit tx w = committed (turn w).fate tx w

abbrev pub rolled_back : Fate → Result (Unit {0})
rolled_back answered = ok tt
rolled_back refused = err foreign
rolled_back unheard = err foreign

-- `tx.Rollback`.
unfoldable pub rollback : M (Unit {0})
rollback w = (rolled_back (turn w).fate, record w { at = suc w.at })
