-- ===== src/Tests/Startup.antt =====
-- A start and a stop of the program, with the default configuration.
use currency_quotes_service.Prelude.{ℕ, refl, length, All, ◌≡◌, ◌↔◌, List, [], ◌∷◌}
use currency_quotes_service.Domain.Errors.{Result, ok, err, foreign}
use currency_quotes_service.Config.Env.{loaded}
use currency_quotes_service.System.Startup.{Surroundings, closed, main}
use currency_quotes_service.System.Startup.Closing.{Waits, Ends, Tidy, IsSound, main-Tidy}
use currency_quotes_service.Tests.Settings.{defaults}

abbrev first_error : List (Result (Unit {0})) → Result (Unit {0})
first_error [] = ok tt
first_error (ok _ ∷ rs) = first_error rs
first_error (err e ∷ rs) = err e

first_error-Ends : (rs : List (Result (Unit {0}))) → Ends (first_error rs) ↔ All Ends rs
first_error-Ends [] = ((λ h. tt), (λ h. tt))
first_error-Ends (ok _ ∷ rs) =
    let (fore, back) = first_error-Ends rs in ((λ h. (tt, fore h)), (λ h. back h.1))
first_error-Ends (err e ∷ rs) = ((λ h. absurd h), (λ h. absurd h.0))

abbrev wait_all : List (Result (Unit {0})) → Result (Unit {0}) × ℕ
wait_all rs = (first_error rs, length rs)

wait_all-Waits : Waits wait_all
wait_all-Waits rs = (first_error-Ends rs, refl)

abbrev calm : Surroundings
calm = record {
  config = loaded defaults;
  opening = ok tt;
  ping = ok tt;
  listening = closed;
  shutdown = err foreign;
  wait = wait_all;
}

main-Tidy_example : Tidy (main calm).1 × ((main calm).0 ≡ 0 ↔ IsSound calm.config calm)
main-Tidy_example = main-Tidy calm wait_all-Waits
