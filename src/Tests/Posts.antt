-- ===== src/Tests/Posts.antt =====
-- Two posts to the service over the sample.
use currency_quotes_service.Prelude.{
  ℕ, ◌≡◌, false, ◌||◌, List, [], ◌∷◌, Option, none, some, Text, any,
}
use currency_quotes_service.Storage.World.{World}
use currency_quotes_service.Service.{State}
use currency_quotes_service.Service.Wakes.{answers_pending, posts, posts-wake, stored}
use currency_quotes_service.Tests.Sample.{eur_mxn, usd_eur, start, exact}

abbrev asleep : State World
asleep = record { store = start; wake = false }

abbrev two_posts : List (Text × Option ℕ)
two_posts = (usd_eur, some 4) ∷ (eur_mxn, none) ∷ []

posts-wake_example :
    let r = posts (stored exact 3600) two_posts asleep in
    r.1.wake ≡ (any answers_pending r.0 || false)
posts-wake_example = posts-wake (stored exact 3600) two_posts asleep
