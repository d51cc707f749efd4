-- ===== src/Storage/World/Laws.antt =====
-- What an answered call says of the tables.
use currency_quotes_service.Prelude.{
  suc, ◌≡◌, refl, ◌∙◌, ◌⊎◌, inl, inr, ap, Option, none, some, arith,
}
use currency_quotes_service.Domain.Errors.{Error, Result, ok, err, foreign, wrapped}
use currency_quotes_service.Storage.Schema.{Db}
use currency_quotes_service.Storage.World.{
  World, Turn, Fate, refused, answered, unheard, turn, answer, execute, wrap, wrapped_result, M,
  ◌>>=◌, give,
}

answer-eq_ok :
    {A : Type 0} (f : Fate) (r : Option (A × Db)) (d d' : Db) (a : A)
    → answer f r d ≡ (ok a, d')
    → r ≡ some (a, d')
answer-eq_ok refused r d d' a e = cc
answer-eq_ok answered none d d' a e = cc
answer-eq_ok answered (some (b, d'')) d d' a e = cc
answer-eq_ok unheard none d d' a e = cc
answer-eq_ok unheard (some (b, d'')) d d' a e = cc

wrapped-eq_ok :
    {A : Type 0} (w w' : World) (r : Result A × Db) (a : A)
    → wrap (λ w. (r.0, record w { db = r.1; at = suc w.at })) w ≡ (ok a, w')
    → r ≡ (ok a, w'.db)
wrapped-eq_ok {A} w w' (ok b, d) a e =
    cc (ap (λ (x : Result A × World). x.1.db) e, ap (λ (x : Result A × World). x.0) e)
wrapped-eq_ok w w' (err b, d) a e = cc

-- A call that is answered without an error has carried its statement out on the tables as others
-- have left them.
pub call-eq_ok :
    {A : Type 0} (s : Turn → Db → Option (A × Db)) (w : World) (a : A) (w' : World)
    → wrap (execute s) w ≡ (ok a, w')
    → s (turn w) ((turn w).others w.db) ≡ some (a, w'.db)
unfolding execute
call-eq_ok s w a w' e =
    let d = (turn w).others w.db in
    answer-eq_ok (turn w).fate (s (turn w) d) d w'.db a
      (wrapped-eq_ok w w' (answer (turn w).fate (s (turn w) d) d) a e)

give-eq_ok :
    {A B : Type 0} (r : Result A × World) (f : A → Result B) (w : World) (b : B) (w' : World)
    → ((λ w. r) >>= λ a. give (f a)) w ≡ (ok b, w')
    → (a : A) × (r ≡ (ok a, w')) × (f a ≡ ok b)
give-eq_ok (ok a, v) f w b w' e = (a, ground arith, ground arith)
give-eq_ok (err x, v) f w b w' e = cc

-- A call whose answer is then checked, and which ends without an error.
pub bind-give-eq_ok :
    {A B : Type 0} (m : M A) (f : A → Result B) (w : World) (b : B) (w' : World)
    → (m >>= λ a. give (f a)) w ≡ (ok b, w')
    → (a : A) × (m w ≡ (ok a, w')) × (f a ≡ ok b)
bind-give-eq_ok m f w b w' e = give-eq_ok (m w) f w b w' e

answer-eq_err :
    {A : Type 0} (f : Fate) (r : Option (A × Db)) (d : Db) (e : Error)
    → (answer f r d).0 ≡ err e
    → e ≡ foreign
answer-eq_err refused r d e h = cc
answer-eq_err answered none d e h = cc
answer-eq_err answered (some (a, d')) d e h = cc
answer-eq_err unheard none d e h = cc
answer-eq_err unheard (some (a, d')) d e h = cc

wrapped-eq_err :
    {A : Type 0} (r : Result A × World) (e : Error)
    → (wrapped_result r).0 ≡ err e
    → (x : Error) × (r.0 ≡ err x) × (e ≡ wrapped x)
wrapped-eq_err (ok a, w) e h = cc
wrapped-eq_err (err x, w) e h = (x, refl, cc)

-- The error of a call is an error of the driver, wrapped.
pub call-eq_err :
    {A : Type 0} (s : Turn → Db → Option (A × Db)) (w : World) (e : Error)
    → (wrap (execute s) w).0 ≡ err e
    → e ≡ wrapped foreign
unfolding execute
call-eq_err s w e h =
    let d = (turn w).others w.db in
    let (x, own, shape) = wrapped-eq_err (execute s w) e h in
    shape ∙ ap wrapped (answer-eq_err (turn w).fate (s (turn w) d) d x own)

give-eq_err :
    {A B : Type 0} (r : Result A × World) (f : A → Result B) (w : World) (e : Error)
    → (((λ w. r) >>= λ a. give (f a)) w).0 ≡ err e
    → (r.0 ≡ err e) ⊎ ((a : A) × (r ≡ (ok a, r.1)) × (f a ≡ err e))
give-eq_err (ok a, v) f w e h = inr (a, refl, h)
give-eq_err (err x, v) f w e h = inl cc

-- A call whose answer is then checked, and which ends with an error.
pub bind-give-eq_err :
    {A B : Type 0} (m : M A) (f : A → Result B) (w : World) (e : Error)
    → ((m >>= λ a. give (f a)) w).0 ≡ err e
    → ((m w).0 ≡ err e) ⊎ ((a : A) × (m w ≡ (ok a, (m w).1)) × (f a ≡ err e))
bind-give-eq_err m f w e h = give-eq_err (m w) f w e h
