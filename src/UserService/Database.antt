-- ===== src/UserService/Database.antt =====
-- lab1/user_service/server_lib/server_lib.go: the random database.
pub mod Contents
use cs426_spring2022_labs.Common.{
  ℕ, zero, suc, ◌+◌, ite, String, List, [], ◌∷◌, ◌++◌, ℕ_discrete, nat_key,
}
use cs426_spring2022_labs.Common.GoMap.{GoMap, insert}
use cs426_spring2022_labs.Random.{Source, random_coeffs}
use cs426_spring2022_labs.Injection.{Config, set_injection_config}
use cs426_spring2022_labs.UserService.{UserInfo, UserServiceOptions, UserServiceServer}

module _ {R : Type 0} (source : Source R) where
  -- A user is not subscribed to itself.
  unfoldable pub random_subscriptions : ℕ → (user_id max_users : ℕ) → List ℕ → R → R × List ℕ
  random_subscriptions zero user_id max_users subscribed_to r = (r, subscribed_to)
  random_subscriptions (suc n) user_id max_users subscribed_to r =
      let (r₁, drawn) = source.intn r max_users in
      random_subscriptions n user_id max_users
        (ite (ℕ_discrete (drawn + 200000) user_id) subscribed_to
          (subscribed_to ++ (drawn + 200000) ∷ []))
        r₁

  unfoldable pub random_likes : ℕ → (max_videos : ℕ) → List ℕ → R → R × List ℕ
  random_likes zero max_videos liked_videos r = (r, liked_videos)
  random_likes (suc n) max_videos liked_videos r =
      let (r₁, drawn) = source.intn r max_videos in
      random_likes n max_videos (liked_videos ++ (drawn + 1000) ∷ []) r₁

  unfoldable pub make_random_user : (user_id max_users max_videos : ℕ) → R → R × UserInfo
  unfolding random_subscriptions random_likes random_coeffs
  make_random_user user_id max_users max_videos r =
      let (r₁, email) = source.text "Email" r in
      let (r₂, username) = source.text "Username" r₁ in
      let (r₃, coeff_draw) = source.intn r₂ 10 in
      let (r₄, coeffs) = random_coeffs source (coeff_draw + 10) [] r₃ in
      let (r₅, subscribe_draw) = source.intn r₄ 50 in
      let (r₆, subscribed_to) =
        random_subscriptions (subscribe_draw + 10) user_id max_users [] r₅ in
      let (r₇, like_draw) = source.intn r₆ 20 in
      let (r₈, liked_videos) = random_likes (like_draw + 5) max_videos [] r₇ in
      (
        r₈,
        record {
          user_id = user_id;
          email = email;
          profile_url = source.sprintf_d "https://user-service.localhost/profile/%d" user_id;
          username = username;
          user_coefficients = coeffs;
          subscribed_to = subscribed_to;
          liked_videos = liked_videos;
        },
      )

  -- The loop of `makeRandomUsers`, with `n` users to go.
  unfoldable pub fill_users :
      (n user_id user_count video_count : ℕ) → GoMap ℕ UserInfo → R → GoMap ℕ UserInfo
  unfolding make_random_user
  fill_users zero user_id user_count video_count users r = users
  fill_users (suc n) user_id user_count video_count users r =
      let (r₁, user) = make_random_user user_id user_count video_count r in
      fill_users n (suc user_id) user_count video_count (insert users user_id user) r₁

  unfoldable pub make_random_users : R → GoMap ℕ UserInfo
  unfolding fill_users
  make_random_users r =
      let (r₁, video_draw) = source.intn r 500 in
      let (r₂, user_draw) = source.intn r₁ 5000 in
      fill_users (user_draw + 5000) 200000 (user_draw + 5000) (video_draw + 100) [] r₂

  -- The server, and the configuration of failures that it sets.
  unfoldable pub make_user_service_server : UserServiceOptions → Config × UserServiceServer
  unfolding make_random_users
  make_user_service_server options = (
    set_injection_config options.sleep_ns options.failure_rate options.response_omission_rate,
    record { options = options; users = make_random_users (source.seed options.seed) },
  )
