-- ===== src/Frontend/Tests.antt =====
-- The front end with a random source that counts, lab1/cmd/frontend/frontend.go.
use cs426_spring2022_labs.Common.{◌≡◌, true, [], ◌∷◌, returns, length, ◌>>=◌}
use cs426_spring2022_labs.Random.Tests.{counter, counter-IsRandom}
use cs426_spring2022_labs.Injection.{Draws}
use cs426_spring2022_labs.UserService.{UserInfo, default_user_service_options, get_user}
use cs426_spring2022_labs.UserService.Database.{make_user_service_server}
use cs426_spring2022_labs.Frontend.{get_user_id, answered, fetch_user, fetch_user_lem}

abbrev draws : Draws
draws = record { failure = 0; omission = 0 }

fetch_user_lem_example :
    (user : UserInfo) × ((get_user
          (make_user_service_server counter default_user_service_options).0
          draws
          (make_user_service_server counter default_user_service_options).1
          (get_user_id length (120 ∷ 115 ∷ []) ∷ [])
        >>= λ r. fetch_user true (answered r))
      ≡ returns user)
    × (user.user_id ≡ get_user_id length (120 ∷ 115 ∷ []))
fetch_user_lem_example = fetch_user_lem length counter draws (120 ∷ 115 ∷ []) counter-IsRandom
