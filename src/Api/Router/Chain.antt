-- ===== src/Api/Router/Chain.antt =====
-- The chain of middleware of internal/api/router.go around any handler, one that panics among them.
use currency_quotes_service.Prelude.{
  ℕ, ◌+◌, ◌≡◌, refl, ◌⊎◌, inl, inr, Bool, true, false, List, [], ◌∷◌, ◌++◌, some, Text, arith,
  count_if, count_if-append,
}
use currency_quotes_service.Api.{
  Response, silence, answer, failure, error_code_internal_error, fixed, internal_error_message,
}
use currency_quotes_service.Api.Binder.{Request}
use currency_quotes_service.Api.Middleware.{
  Ending, returned, panicked, Line, request_line, panic_line, Context, Served, Handler, request_id,
  request_id_from, access_log, request_timeout, recover_panic, recovered, status,
}
use currency_quotes_service.Api.Router.{Arrival, background, middlewares, use_all}

-- The context that the handler at the end of the chain runs in.
abbrev pub inner : Arrival → ℕ → Context
inner a timeout = record { request_id = some a.fresh; deadline = some (a.clock.started + timeout) }

abbrev pub is_request : Line → Bool
is_request (request_line m p st d id) = true
is_request _ = false

-- A panic that net/http is to see.
abbrev pub aborts : Ending → Bool
aborts (returned x) = false
aborts (panicked abort x) = abort

abbrev pub escapes : Ending → Bool
escapes (returned x) = false
escapes (panicked abort x) = true

-- What was written by the end.
abbrev pub written : Ending → Response
written (returned x) = x
written (panicked abort x) = x

abbrev pub IsEnvelope : Response → Type 0
IsEnvelope x = x ≡ answer 500 (failure error_code_internal_error (fixed internal_error_message))

-- One line of the access log, the last one, with the identifier that the client is given and the
-- status that it is answered with.
pub record Traced (a : Arrival) (r : Request) (inside outside : Served) : Type 0 where
  pub given : outside.header ≡ some a.fresh
  pub earlier : List Line
  pub last :
      outside.lines
      ≡ earlier
        ++ request_line r.method r.path (status outside.ending) a.clock.duration a.fresh ∷ []
  pub once : count_if is_request earlier ≡ count_if is_request inside.lines

-- A panic that does not get out, before anything was written.
abbrev pub is_unanswered : Ending → Bool
is_unanswered (panicked false silence) = true
is_unanswered _ = false

-- Only a panic that abandons the response gets out; a panic that does not, before anything was written,
-- is answered with the envelope of an internal error, and in every other case what was written stands.
pub record Settled (inside outside : Ending) : Type 0 where
  pub passed : escapes outside ≡ aborts inside
  pub answered :
      (is_unanswered inside ≡ false) × (written outside ≡ written inside)
      ⊎ (is_unanswered inside ≡ true) × IsEnvelope (written outside)

recovered-Settled : (l : Line) (e : Ending) → Settled e (recovered l e).0
recovered-Settled l (returned x) = record { passed = refl; answered = inl (refl, refl) }
recovered-Settled l (panicked true x) = record { passed = refl; answered = inl (refl, refl) }
recovered-Settled l (panicked false silence) = record { passed = refl; answered = inr (refl, refl) }
recovered-Settled l (panicked false (answer st body)) = record {
  passed = refl;
  answered = inl (refl, refl);
}

requests-recovered :
    (m p id : Text) (e : Ending) → count_if is_request (recovered (panic_line m p id) e).1 ≡ 0
unfolding count_if
requests-recovered m p id (returned x) = refl
requests-recovered m p id (panicked true x) = refl
requests-recovered m p id (panicked false x) = refl

recovered-requests :
    (m p id : Text) (e : Ending) (ls : List Line)
    → count_if is_request (ls ++ (recovered (panic_line m p id) e).1) ≡ count_if is_request ls
recovered-requests m p id e ls = ground (
  arith,
  count_if-append is_request ls (recovered (panic_line m p id) e).1,
  requests-recovered m p id e,
)

module _ {S : Type 0} (a : Arrival) (timeout : ℕ) (r : Request) (next : Handler S) (s : S) where
  abbrev pub before : Served × S
  before = next (inner a timeout) s

  abbrev pub after : Served × S
  after = use_all (middlewares a timeout r) next background s

  abbrev settled : Ending × List Line
  settled = recovered (panic_line r.method r.path a.fresh) before.0.ending

  pub chain-run : after ≡ (
    record {
      ending = settled.0;
      header = some a.fresh;
      lines =
          (before.0.lines ++ settled.1)
          ++ request_line r.method r.path (status settled.0) a.clock.duration a.fresh ∷ [];
    },
    before.1,
  )
  unfolding use_all request_id request_id_from access_log request_timeout recover_panic
  chain-run = refl

  -- Around any handler, one that panics among them, the chain writes one line of the access log, with
  -- the status of the answer and the identifier that the header gives the client; it lets out a panic
  -- only to abandon the response, answers a panic that it does not let out, and before which nothing was
  -- written, with the envelope of an internal error, keeps what was written in every other case, and does
  -- nothing else to the state.
  pub chain-Traced :
      Traced a r before.0 after.0 × Settled before.0.ending after.0.ending × (after.1 ≡ before.1)
  chain-Traced = rw chain-run (
    record {
      given = refl;
      earlier = before.0.lines ++ settled.1;
      last = refl;
      once = recovered-requests r.method r.path a.fresh before.0.ending before.0.lines;
    },
    recovered-Settled (panic_line r.method r.path a.fresh) before.0.ending,
    refl,
  )
