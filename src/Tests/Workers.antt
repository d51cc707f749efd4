-- ===== src/Tests/Workers.antt =====
-- A worker over the sample.
use currency_quotes_service.Prelude.{ℕ, ◌≡◌, refl, false, List, [], ◌∷◌, codes, All, arith}
use currency_quotes_service.Domain.Errors.{ok, err, wrapped, sentinel, transient}
use currency_quotes_service.Worker.{Observed, live, process}
use currency_quotes_service.Worker.Loop.{Round}
use currency_quotes_service.Worker.Reasons.{unavailable, format_int}
use currency_quotes_service.Worker.Guarantee.{storage}
use currency_quotes_service.Worker.Calls.{Proper, traced, process_calls}
use currency_quotes_service.Worker.Serving.Rounds.{Answered}
use currency_quotes_service.Tests.Sample.{start, claim, exact}

unavailable_text : unavailable 12 ≡ codes "provider unavailable after 12 attempts"
unfolding unavailable format_int
unavailable_text = refl

abbrev fetched : Observed ℕ
fetched = record {
  fetched = ok (record { value = 196948000000; date = 90 });
  fetched_at = 95;
  after_fetch = live;
  after_finalise = live;
}

abbrev refused_fetch : Observed ℕ
refused_fetch = record fetched { fetched = err (wrapped (sentinel transient)) }

abbrev pub two_rounds : List (Round ℕ)
two_rounds =
    record { stopping = false; observed = fetched; clock = 96 }
    ∷ record { stopping = false; observed = refused_fetch; clock = 97 }
    ∷ []

-- The provider answers, then answers again.
abbrev pub answered_rounds : List (Round ℕ)
answered_rounds =
    record { stopping = false; observed = fetched; clock = 96 }
    ∷ record { stopping = false; observed = fetched; clock = 97 }
    ∷ []

pub rounds-Answered : All (λ r. Answered exact r.observed) answered_rounds
rounds-Answered = (
  (record { value = 196948000000; date = 90 }, refl, (196948000000, refl, omega arith)),
  ((record { value = 196948000000; date = 90 }, refl, (196948000000, refl, omega arith)), tt),
)

process_calls_example :
    Proper
      (storage exact)
      3
      refused_fetch
      claim
      (process (traced (storage exact)) 3 refused_fetch claim (start, [])).1.1
process_calls_example = process_calls (storage exact) 3 refused_fetch claim start
