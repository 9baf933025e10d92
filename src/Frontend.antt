-- ===== src/Frontend.antt =====
-- lab1/cmd/frontend/frontend.go: the user that the front end picks and fetches. `fnv64` is Go's
-- `hash/fnv`, on the bytes of a text; the user service of UserService answers.
mod Tests
use cs426_spring2022_labs.Common.{
  ℕ, String, Bool, ◌+◌, ◌≤◌, ◌<◌, ◌%◌, ◌^◌, ◌≡◌, ◌≢◌, refl, sym, ap, ◌∙◌, true, false, some, List,
  [], ◌∷◌, map, ℤ, pos, ◌≤ℤ◌, length, Outcome, returns, exits, ◌>>=◌, if◌then◌else◌, ◌==◌, nat_key,
  arith,
}
use cs426_spring2022_labs.Common.GoMap.{get}
use cs426_spring2022_labs.Status.{Response, ok, error}
use cs426_spring2022_labs.Injection.{Config, Draws, maybe_inject, set_injection_config, one_in}
use cs426_spring2022_labs.Random.{Source, IsRandom}
use cs426_spring2022_labs.UserService.{
  UserInfo, UserServiceServer, UserServiceOptions, default_user_service_options, answer_user,
  get_user,
}
use cs426_spring2022_labs.UserService.Requests.{answer_user_iff}
use cs426_spring2022_labs.UserService.Database.{make_user_service_server, make_random_users}
use cs426_spring2022_labs.UserService.Database.Contents.{make_random_users_lem}

-- What the call of `GetUser` brings: an error of gRPC's own, or what the service answers.
pub data Reply : Type 0 where
  lost : (err : String) → Reply
  answered : Response (List UserInfo) → Reply

-- `fetchUser`, with whether there is a connection, and the reply; `log.Fatalf` ends the program.
unfoldable pub fetch_user : (connected : Bool) → Reply → Outcome UserInfo
fetch_user false reply = exits
fetch_user true (lost err) = exits
fetch_user true (answered (error status)) = exits
fetch_user true (answered (ok [])) = exits
fetch_user true (answered (ok (user ∷ []))) = returns user
fetch_user true (answered (ok (user ∷ other ∷ users))) = exits

module _ (fnv64 : List ℕ → ℕ) where
  unfoldable pub get_user_id : (net_id : List ℕ) → ℕ
  get_user_id net_id = (fnv64 net_id % 5000 + 200000) % 2 ^ 64

  get_user_id_range :
      (net_id : List ℕ) → (200000 ≤ get_user_id net_id) × (get_user_id net_id < 205000)
  unfolding get_user_id
  get_user_id_range net_id = (omega arith, omega arith)

  -- Whatever the net id, whatever the random source draws and whatever the injection of failures would
  -- draw: a user service with the default options has the user that the front end picks, so that the
  -- fetch of it, if there is a connection and the answer of the service comes, does not end the program
  -- and gives a user of that id.
  pub fetch_user_lem :
      {R : Type 0} (source : Source R) (draws : Draws) (net_id : List ℕ)
      → IsRandom source
      → let (config, server) = make_user_service_server source default_user_service_options in
        (user : UserInfo) × ((get_user config draws server (get_user_id net_id ∷ []) >>= λ r.
        fetch_user true (answered r))
          ≡ returns user)
        × (user.user_id ≡ get_user_id net_id)
  unfolding make_user_service_server get_user fetch_user maybe_inject set_injection_config one_in
  fetch_user_lem source draws net_id random =
      let id = get_user_id net_id in
      let (low, high) = get_user_id_range net_id in
      let (user_count, video_count, many, _, _, _, h) =
        make_random_users_lem source random (source.seed (pos 42)) in
      let (user, found) = h.there id low (omega (arith, high, many)) in
      let server : UserServiceServer = record {
        options = default_user_service_options;
        users = make_random_users source (source.seed (pos 42));
      } in
      let q : answer_user server (id ∷ []) ≡ ok (user ∷ []) =
        (answer_user_iff server (id ∷ []) (user ∷ [])).1
          ((λ e. cc e), omega arith, ap (λ o. o ∷ []) found) in
      let (_, _, is) = h.only id user found in
      (user, ap (λ r. fetch_user true (answered r)) q, is.same_id)
