-- ===== src/System/Startup/Closing.antt =====
-- The start and the stop of main.go: the connection pool around the goroutines, and the status of the
-- program.
use currency_quotes_service.Prelude.{
  ℕ, zero, suc, ◌+◌, ◌==◌, ◌≡◌, refl, subst, length, count_if-append, ◌↔◌, Bool, true, false, List,
  [], ◌∷◌, ◌++◌, count_if, any, ◌&&◌, not, All, pos_part, arith,
}
use currency_quotes_service.Domain.Errors.{Result, ok, err}
use currency_quotes_service.Config.Env.{Loaded, loaded, failed}
use currency_quotes_service.Config.{Config}
use currency_quotes_service.System.Startup.{
  Event, pool_opened, pool_closed, started, ended, service_stopped, Listening, closed, broke,
  Surroundings, new, serve_result, shutdown_result, workers_ended, goroutines, go_all, ended_all,
  waited, grouped, connected, configured, run_service, exit_status, main,
}

abbrev pub is_opened : Event → Bool
is_opened pool_opened = true
is_opened _ = false

abbrev pub is_closed : Event → Bool
is_closed pool_closed = true
is_closed _ = false

abbrev pub is_started : Event → Bool
is_started started = true
is_started _ = false

abbrev pub is_ended : Event → Bool
is_ended ended = true
is_ended _ = false

abbrev pub Ends : {A : Type 0} → Result A → Type 0
Ends (ok a) = Unit
Ends (err e) = ⊥

-- The errgroup: `Wait` answers when every goroutine has ended, and without an error when none of them
-- returned one.
abbrev pub Waits : (List (Result (Unit {0})) → Result (Unit {0}) × ℕ) → Type 0
Waits wait =
    (rs : List (Result (Unit {0}))) → (Ends (wait rs).0 ↔ All Ends rs) × ((wait rs).1 ≡ length rs)

-- When the pool is closed, as many goroutines have ended as were started, and none is started later;
-- the numbers are those before the list.
unfoldable pub closes_idle : ℕ → ℕ → List Event → Bool
closes_idle n m [] = true
closes_idle n m (started ∷ es) = closes_idle (suc n) m es
closes_idle n m (ended ∷ es) = closes_idle n (suc m) es
closes_idle n m (pool_closed ∷ es) = n == m && not (any is_started es) && closes_idle n m es
closes_idle n m (pool_opened ∷ es) = closes_idle n m es
closes_idle n m (service_stopped ∷ es) = closes_idle n m es

-- The pool is closed as often as it was opened, and only after the goroutines have all ended.
pub record Tidy (es : List Event) : Type 0 where
  pub balanced : count_if is_closed es ≡ count_if is_opened es
  pub ordered : closes_idle 0 0 es ≡ true

-- Events among which the pool is not closed only add to the two numbers.
closes_idle-append :
    (n m : ℕ) (xs ys : List Event)
    → count_if is_closed xs ≡ 0
    → closes_idle n m (xs ++ ys)
      ≡ closes_idle (n + count_if is_started xs) (m + count_if is_ended xs) ys
unfolding closes_idle count_if
closes_idle-append n m [] ys h = ground arith
closes_idle-append n m (started ∷ xs) ys h = ground (arith, closes_idle-append (suc n) m xs ys)
closes_idle-append n m (ended ∷ xs) ys h = ground (arith, closes_idle-append n (suc m) xs ys)
closes_idle-append n m (pool_closed ∷ xs) ys h = ground (arith, h)
closes_idle-append n m (pool_opened ∷ xs) ys h = ground (arith, closes_idle-append n m xs ys)
closes_idle-append n m (service_stopped ∷ xs) ys h = ground (arith, closes_idle-append n m xs ys)

-- How often the goroutines start and end in a list of events, and that the pool is left alone.
record Counts (n m : ℕ) (es : List Event) : Type 0 where
  starts : count_if is_started es ≡ n
  ends : count_if is_ended es ≡ m
  closes : count_if is_closed es ≡ 0
  opens : count_if is_opened es ≡ 0

Counts-append :
    (n m n' m' a b : ℕ) (xs ys : List Event)
    → n + n' ≡ a
    → m + m' ≡ b
    → Counts n m xs
    → Counts n' m' ys
    → Counts a b (xs ++ ys)
Counts-append n m n' m' a b xs ys e f h k = record {
  starts = omega (arith, e, count_if-append is_started xs ys, h.starts, k.starts);
  ends = omega (arith, f, count_if-append is_ended xs ys, h.ends, k.ends);
  closes = omega (arith, count_if-append is_closed xs ys, h.closes, k.closes);
  opens = omega (arith, count_if-append is_opened xs ys, h.opens, k.opens);
}

Counts-go_all : (rs : List (Result (Unit {0}))) → Counts (length rs) 0 (go_all rs)
unfolding count_if
Counts-go_all [] = record { starts = refl; ends = refl; closes = refl; opens = refl }
Counts-go_all (r ∷ rs) =
    let h = Counts-go_all rs in
    record {
      starts = ground (arith, h.starts);
      ends = ground (arith, h.ends);
      closes = ground (arith, h.closes);
      opens = ground (arith, h.opens);
    }

Counts-ended_all : (n : ℕ) → Counts 0 n (ended_all n)
unfolding count_if
Counts-ended_all zero = record { starts = refl; ends = refl; closes = refl; opens = refl }
Counts-ended_all (suc n) =
    let h = Counts-ended_all n in
    record {
      starts = ground (arith, h.starts);
      ends = ground (arith, h.ends);
      closes = ground (arith, h.closes);
      opens = ground (arith, h.opens);
    }

Counts-waited : (r : Result (Unit {0})) (n : ℕ) → Counts 0 n (waited (r, n)).1
unfolding count_if
Counts-waited (err e) n = Counts-ended_all n
Counts-waited (ok _) n =
    Counts-append 0 n 0 0 0 n (ended_all n) (service_stopped ∷ []) refl (omega arith)
      (Counts-ended_all n) (record { starts = refl; ends = refl; closes = refl; opens = refl })

-- A pool around events in which as many goroutines end as start.
pool-Tidy : (n : ℕ) (es : List Event) → Counts n n es → Tidy (pool_opened ∷ es ++ pool_closed ∷ [])
unfolding count_if closes_idle any
pool-Tidy n es h = record {
  balanced = ground (
    arith,
    count_if-append is_closed es (pool_closed ∷ []),
    count_if-append is_opened es (pool_closed ∷ []),
    h.closes,
    h.opens,
  );
  ordered =
      ground (arith, closes_idle-append 0 0 es (pool_closed ∷ []), h.starts, h.ends, h.closes);
}

module _ (c : Config) (s : Surroundings) (w : Waits s.wait) where
  grouped-Counts : let n = length (goroutines c s) in Counts n n (grouped c s).1
  grouped-Counts =
      let rs = goroutines c s in
      let n = length rs in
      let ended : (s.wait rs).1 ≡ n = (w rs).1 in
      Counts-append n 0 0 n n n (go_all rs) (waited (s.wait rs)).1 (omega arith) (omega arith)
        (Counts-go_all rs)
        (subst (λ m. Counts 0 m (waited (s.wait rs)).1) ended
          (Counts-waited (s.wait rs).0 (s.wait rs).1))

  connected-Tidy : (opening ping : Result (Unit {0})) → Tidy (connected c s (new opening ping)).1
  unfolding new count_if any closes_idle
  connected-Tidy (err e) ping = record { balanced = refl; ordered = refl }
  connected-Tidy (ok _) (err e) = record { balanced = refl; ordered = refl }
  connected-Tidy (ok _) (ok _) = pool-Tidy (length (goroutines c s)) (grouped c s).1 grouped-Counts

configured-Tidy : (l : Loaded Config) (s : Surroundings) → Waits s.wait → Tidy (configured l s).1
unfolding count_if closes_idle
configured-Tidy (failed x) s w = record { balanced = refl; ordered = refl }
configured-Tidy (loaded c) s w = connected-Tidy c s w s.opening s.ping

-- The server was shut down.
abbrev pub IsClosed : Listening → Type 0
IsClosed closed = Unit
IsClosed (broke e) = ⊥

-- The program exits with 0 for these surroundings: the configuration loads, the pool opens and answers
-- a ping, the server stops listening because it was shut down, and its shutdown ends without an error.
abbrev pub IsSound : Loaded Config → Surroundings → Type 0
IsSound (failed x) s = ⊥
IsSound (loaded c) s = Ends s.opening × Ends s.ping × IsClosed s.listening × Ends s.shutdown

serve-Ends : (l : Listening) → Ends (serve_result l) ↔ IsClosed l
serve-Ends closed = ((λ h. tt), (λ h. tt))
serve-Ends (broke e) = ((λ h. h), (λ h. h))

workers-End :
    (n : ℕ) (r : Result (Unit {0}))
    → All Ends (workers_ended n ++ ok tt ∷ shutdown_result r ∷ []) ↔ Ends r
workers-End zero (ok _) = ((λ h. tt), (λ h. (tt, (tt, tt))))
workers-End zero (err e) = ((λ h. h.1.0), (λ h. absurd h))
workers-End (suc n) r = ((λ h. (workers-End n r).0 h.1), (λ h. (tt, (workers-End n r).1 h)))

waited_exit : (r : Result (Unit {0})) (n : ℕ) → (exit_status (waited (r, n)).0 ≡ 0) ↔ Ends r
waited_exit (ok _) n = ((λ h. tt), (λ h. refl))
waited_exit (err e) n = ((λ h. ground (arith, h)), (λ h. absurd h))

grouped_exit :
    (c : Config) (s : Surroundings)
    → Waits s.wait
    → (exit_status (grouped c s).0 ≡ 0) ↔ (IsClosed s.listening × Ends s.shutdown)
grouped_exit c s w =
    let rs = goroutines c s in
    let ends = waited_exit (s.wait rs).0 (s.wait rs).1 in
    let all = (w rs).0 in
    let serve = serve-Ends s.listening in
    let rest = workers-End (pos_part c.worker_concurrency) s.shutdown in
    (
      λ h. let each = all.0 (ends.0 h) in (serve.0 each.0, rest.0 each.1),
      λ h. ends.1 (all.1 (serve.1 h.0, rest.1 h.1)),
    )

connected_exit :
    (c : Config) (s : Surroundings) (opening ping : Result (Unit {0}))
    → Waits s.wait
    → (exit_status (connected c s (new opening ping)).0 ≡ 0)
      ↔ (Ends opening × Ends ping × IsClosed s.listening × Ends s.shutdown)
unfolding new
connected_exit c s (err e) ping w = ((λ h. ground (arith, h)), (λ h. absurd h.0))
connected_exit c s (ok _) (err e) w = ((λ h. ground (arith, h)), (λ h. absurd h.1))
connected_exit c s (ok _) (ok _) w =
    let (fore, back) = grouped_exit c s w in
    ((λ h. (tt, tt, (fore h).0, (fore h).1)), (λ (o, p, l, d). back (l, d)))

configured_exit :
    (l : Loaded Config) (s : Surroundings)
    → Waits s.wait
    → (exit_status (configured l s).0 ≡ 0) ↔ IsSound l s
configured_exit (failed x) s w = ((λ h. ground (arith, h)), (λ h. absurd h))
configured_exit (loaded c) s w = connected_exit c s s.opening s.ping w

-- The program closes the connection pool as often as it opened it, only when all the goroutines that it
-- started have ended, and it starts none afterwards; it exits with the status 0 exactly when the
-- configuration loads, the pool opens and answers a ping, the server stops listening because it was
-- shut down, and the shutdown ends without an error: where `Wait` of the group answers when every
-- goroutine has ended, without an error exactly when each returned without one.
pub main-Tidy :
    (s : Surroundings) → Waits s.wait → Tidy (main s).1 × ((main s).0 ≡ 0 ↔ IsSound s.config s)
unfolding main run_service
main-Tidy s w = (configured-Tidy s.config s w, configured_exit s.config s w)
