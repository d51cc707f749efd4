-- ===== src/Api/Middleware.antt =====
-- internal/api/middleware.go. A handler is a function of the context of its request and of the state
-- of the service; what it leaves is how it ended, the header X-Request-Id and the lines of the log.
use currency_quotes_service.Prelude.{
  ℕ, ◌+◌, Bool, true, false, ◌&&◌, if◌then◌else◌, List, [], ◌∷◌, ◌++◌, Option, none, some, Text,
  ltb, leb,
}
use currency_quotes_service.Api.{
  Response, silence, answer, failure, error_code_internal_error, fixed, internal_error_message,
}
use currency_quotes_service.Api.Binder.{Request}

-- How a handler ended: it returned, or it panicked, to abandon the response (http.ErrAbortHandler)
-- or not, after it had written a response or before.
pub data Ending : Type 0 where
  returned : Response → Ending
  panicked : Bool → Response → Ending

-- The lines of the log: `request` of the access log, `panic in handler`, and those of the handlers,
-- `request failed`, `request abandoned by the client` and `write response`.
pub data Line : Type 0 where
  request_line : Text → Text → ℕ → ℕ → Text → Line
  panic_line failed_line abandoned_line : Text → Text → Text → Line
  write_line : Text → Line

-- What the middleware puts into the context of a request.
pub record Context : Type 0 where
  pub request_id : Option Text
  pub deadline : Option ℕ

pub record Served : Type 0 where
  pub ending : Ending
  pub header : Option Text
  pub lines : List Line

abbrev pub Handler : Type 0 → Type 0
Handler S = Context → S → Served × S

-- `http.Handler → http.Handler`.
abbrev pub Middleware : Type 0 → Type 0
Middleware S = Handler S → Handler S

abbrev or_empty : Option Text → Text
or_empty none = []
or_empty (some id) = id

-- `requestIDFrom`.
unfoldable pub request_id_from : Context → Text
request_id_from ctx = or_empty ctx.request_id

abbrev written_status : Response → ℕ
written_status silence = 0
written_status (answer status body) = status

-- `Status` of the wrapped writer: zero where nothing was written.
unfoldable pub status : Ending → ℕ
status (returned r) = written_status r
status (panicked abort r) = written_status r

-- The two readings of the clock of one request: when it started and how long it took.
pub record Clock : Type 0 where
  pub started : ℕ
  pub duration : ℕ

-- `context.WithTimeout`: the earlier of two deadlines.
abbrev earlier : Option ℕ → ℕ → ℕ
earlier none t = t
earlier (some u) t = if ltb u t then u else t

-- The envelope goes out only if nothing was written yet. The writer is the wrapped one of
-- `accessLog`, which knows.
abbrev pub unless_written : Response → Response
unless_written silence =
    answer 500 (failure error_code_internal_error (fixed internal_error_message))
unless_written (answer status body) = answer status body

-- The deferred function of `recoverPanic` over an ending, with its lines.
abbrev pub recovered : Line → Ending → Ending × List Line
recovered line (returned r) = (returned r, [])
recovered line (panicked true r) = (panicked true r, [])
recovered line (panicked false r) = (returned (unless_written r), line ∷ [])

module _ {S : Type 0} where
  -- `requestID`; `fresh` is what uuid.NewString answers.
  unfoldable pub request_id : Text → Middleware S
  request_id fresh next ctx s =
      let (v, s') = next (record ctx { request_id = some fresh }) s in
      (record v { header = some fresh }, s')

  -- `accessLog`: the deferred line is written however the handler ended.
  unfoldable pub access_log : Request → Clock → Middleware S
  unfolding status request_id_from
  access_log r clock next ctx s =
      let (v, s') = next ctx s in
      (
        record v {
          lines =
              v.lines
              ++ request_line r.method r.path (status v.ending) clock.duration (request_id_from ctx)
                ∷ [];
        },
        s',
      )

  -- `requestTimeout`.
  unfoldable pub request_timeout : Clock → ℕ → Middleware S
  request_timeout clock d next ctx s =
      next (record ctx { deadline = some (earlier ctx.deadline (clock.started + d)) }) s

  -- `recoverPanic`.
  unfoldable pub recover_panic : Request → Middleware S
  unfolding request_id_from
  recover_panic r next ctx s =
      let (v, s') = next ctx s in
      (
        let (e, ls) = recovered (panic_line r.method r.path (request_id_from ctx)) v.ending in
            record v { ending = e; lines = v.lines ++ ls },
        s',
      )

-- The client of a request: when it hung up, if it did, and when the handler asks.
pub record Client : Type 0 where
  pub left : Option ℕ
  pub asked : ℕ

abbrev before : ℕ → Option ℕ → Bool
before t none = true
before t (some d) = ltb t d

abbrev left_before : Option ℕ → ℕ → Option ℕ → Bool
left_before none asked deadline = false
left_before (some t) asked deadline = leb t asked && before t deadline

-- `clientGone`: the context is cancelled, which the deadline has not ended before.
unfoldable pub client_gone : Client → Context → Bool
client_gone client ctx = left_before client.left client.asked ctx.deadline
