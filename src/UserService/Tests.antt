-- ===== src/UserService/Tests.antt =====
-- Requests to a user service with two users, lab1/user_service/server_lib/server_lib.go.
use cs426_spring2022_labs.Common.{
  ◌≤◌, ◌<◌, ◌+◌, List, ℕ, ◌≡◌, ◌≢◌, ◌↔◌, refl, some, [], ◌∷◌, map, pos, ◌≤ℤ◌, length, nat_key,
  ℕ_discrete,
}
use cs426_spring2022_labs.Common.GoMap.{get}
use cs426_spring2022_labs.Status.{ok, error, not_found}
use cs426_spring2022_labs.Lookup.{find_all}
use cs426_spring2022_labs.UserService.{
  UserInfo, UserServiceServer, default_user_service_options, answer_user,
}
use cs426_spring2022_labs.Random.Tests.{counter, counter-IsRandom}
use cs426_spring2022_labs.UserService.Database.{make_random_users}
use cs426_spring2022_labs.UserService.Database.Contents.{Holds, make_random_users_lem}
use cs426_spring2022_labs.UserService.Requests.{answer_user_iff}

abbrev user : ℕ → UserInfo
user id = record {
  user_id = id;
  email = "a@example.com";
  profile_url = "";
  username = "a";
  user_coefficients = [];
  subscribed_to = [];
  liked_videos = [];
}

abbrev two_users : UserServiceServer
two_users = record {
  options = default_user_service_options;
  users = (200000, user 200000) ∷ (200001, user 200001) ∷ [];
}

missing_user : answer_user two_users (200001 ∷ 7 ∷ []) ≡ error (not_found 7)
unfolding answer_user find_all get ℕ_discrete
missing_user = refl

abbrev ids : List ℕ
ids = 200001 ∷ []

answer_user_iff_example : (answer_user two_users ids ≡ ok (user 200001 ∷ [])) ↔ (
    (ids ≢ [])
    × (pos (length ids) ≤ℤ pos 250)
    × (map (get two_users.users) ids ≡ map some (user 200001 ∷ [])))
answer_user_iff_example = answer_user_iff two_users ids (user 200001 ∷ [])

make_random_users_lem_example :
    (user_count video_count : ℕ) × (5000 ≤ user_count)
    × (user_count < 10000)
    × (100 ≤ video_count)
    × (video_count < 600)
    × Holds user_count video_count (user_count + 200000) (make_random_users counter 42)
make_random_users_lem_example = make_random_users_lem counter counter-IsRandom 42
