-- ===== src/UserService.antt =====
-- lab1/user_service/server_lib/server_lib.go: the requests that the user service answers.
pub mod Database
pub mod Requests
mod Tests
use cs426_spring2022_labs.Common.{
  ℕ, String, Option, none, some, List, [], ◌∷◌, ◌++◌, ℤ, pos, Outcome, returns, ◌>>=◌,
  if◌then◌else◌, Bool, true, false, ltb_ℤ, length, nat_key, int_key, Key,
}
use cs426_spring2022_labs.Common.GoMap.{GoMap, get}
use cs426_spring2022_labs.Status.{
  Status, Response, ok, error, injected, empty_batch, batch_too_large, not_found,
}
use cs426_spring2022_labs.Lookup.{find_all, is_empty}
use cs426_spring2022_labs.Injection.{Config, Draws, maybe_inject}

pub record UserInfo : Type 0 where
  pub user_id : ℕ
  pub email : String
  pub profile_url : String
  pub username : String
  pub user_coefficients : GoMap ℤ ℕ
  pub subscribed_to : List ℕ
  pub liked_videos : List ℕ

pub record UserServiceOptions : Type 0 where
  pub seed : ℤ
  pub sleep_ns : ℤ
  pub failure_rate : ℤ
  pub response_omission_rate : ℤ
  pub max_batch_size : ℤ

abbrev pub default_user_service_options : UserServiceOptions
default_user_service_options = record {
  seed = pos 42;
  sleep_ns = pos 0;
  failure_rate = pos 0;
  response_omission_rate = pos 0;
  max_batch_size = pos 250;
}

pub record UserServiceServer : Type 0 where
  pub options : UserServiceOptions
  pub users : GoMap ℕ UserInfo

unfoldable pub answer_user : UserServiceServer → List ℕ → Response (List UserInfo)
unfolding find_all
answer_user db user_ids =
    if is_empty user_ids
    then error empty_batch
    else if ltb_ℤ db.options.max_batch_size (pos (length user_ids))
    then error (batch_too_large db.options.max_batch_size)
    else find_all db.users user_ids []

unfoldable pub get_user :
    Config → Draws → UserServiceServer → List ℕ → Outcome (Response (List UserInfo))
unfolding answer_user
get_user config draws db user_ids = do
  should_error ← maybe_inject config draws
  returns (if should_error then error injected else answer_user db user_ids)

-- The handler `SetInjectionConfig` stores the request's configuration, nil or not.
abbrev pub set_injection_config_handler : Config → Config → Config
set_injection_config_handler old requested = requested
