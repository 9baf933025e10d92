-- ===== src/UserService/Database/Contents.antt =====
-- What stands in the random database of lab1/user_service/server_lib/server_lib.go.
use cs426_spring2022_labs.Common.{
  ite, ℕ, zero, suc, ◌+◌, ◌<◌, ◌≤◌, ◌≡◌, subst, ◌≢◌, refl, sym, ◌∙◌, some, List, [], ◌∷◌, ◌++◌,
  ℕ_discrete, nat_key, All, All-append, arith,
}
use cs426_spring2022_labs.Common.GoMap.{GoMap, get, insert, get-insert_self, get-insert_ne}
use cs426_spring2022_labs.Random.{random_coeffs, Source, IsRandom}
use cs426_spring2022_labs.UserService.{UserInfo}
use cs426_spring2022_labs.UserService.Database.{
  fill_users, make_random_users, random_subscriptions, random_likes, make_random_user,
}

-- Another user of the database.
pub record IsOther (user_count user_id id : ℕ) : Type 0 where
  pub from_offset : 200000 ≤ id
  pub below_count : id < 200000 + user_count
  pub other : id ≢ user_id

pub record IsVideo (video_count id : ℕ) : Type 0 where
  pub from_offset : 1000 ≤ id
  pub below_count : id < 1000 + video_count

pub record IsUser (user_count video_count user_id : ℕ) (user : UserInfo) : Type 0 where
  pub same_id : user.user_id ≡ user_id
  pub subscriptions : All (IsOther user_count user_id) user.subscribed_to
  pub likes : All (IsVideo video_count) user.liked_videos

-- The users are those with the ids from the offset up to `bound`.
pub record Holds (user_count video_count bound : ℕ) (users : GoMap ℕ UserInfo) : Type 0 where
  pub there : (id : ℕ) → 200000 ≤ id → id < bound → (user : UserInfo) × (get users id ≡ some user)
  pub only :
      (id : ℕ) (user : UserInfo)
      → get users id ≡ some user
      → (200000 ≤ id) × (id < bound) × IsUser user_count video_count id user

module _ {R : Type 0} (source : Source R) (random : IsRandom source) where
  subscriptions_lem :
      (n user_id max_users : ℕ) (ids : List ℕ) (r : R)
      → 0 < max_users
      → All (IsOther max_users user_id) ids
      → All (IsOther max_users user_id) (random_subscriptions source n user_id max_users ids r).1
  unfolding random_subscriptions
  subscriptions_lem zero user_id max_users ids r p all = all
  subscriptions_lem (suc n) user_id max_users ids r p all =
      let drawn : ℕ = (source.intn r max_users).1 in
      let r₁ : R = (source.intn r max_users).0 in
      elim (ℕ_discrete (drawn + 200000) user_id)
        as (λ d.
          All (IsOther max_users user_id)
            (random_subscriptions source n user_id max_users
              (ite d ids (ids ++ (drawn + 200000) ∷ [])) r₁).1) [
                | yes e ↦ subscriptions_lem n user_id max_users ids r₁ p all
                | no ne ↦
                    subscriptions_lem n user_id max_users (ids ++ (drawn + 200000) ∷ []) r₁ p (
                      All-append (IsOther max_users user_id) ids ((drawn + 200000) ∷ []) all (
                        record {
                          from_offset = omega arith;
                          below_count = omega (arith, random.intn_below r max_users p);
                          other = ne;
                        },
                        tt,
                      ))
              ]

  likes_lem :
      (n max_videos : ℕ) (ids : List ℕ) (r : R)
      → 0 < max_videos
      → All (IsVideo max_videos) ids
      → All (IsVideo max_videos) (random_likes source n max_videos ids r).1
  unfolding random_likes
  likes_lem zero max_videos ids r p all = all
  likes_lem (suc n) max_videos ids r p all =
      let drawn : ℕ = (source.intn r max_videos).1 in
      likes_lem n max_videos (ids ++ (drawn + 1000) ∷ []) (source.intn r max_videos).0 p (
        All-append (IsVideo max_videos) ids ((drawn + 1000) ∷ []) all (
          record {
            from_offset = omega arith;
            below_count = omega (arith, random.intn_below r max_videos p);
          },
          tt,
        ))

  make_random_user-IsUser :
      (user_id max_users max_videos : ℕ) (r : R)
      → 0 < max_users
      → 0 < max_videos
      → IsUser max_users max_videos user_id
          (make_random_user source user_id max_users max_videos r).1
  unfolding make_random_user
  make_random_user-IsUser user_id max_users max_videos r p q =
      let r₂ = (source.text "Username" (source.text "Email" r).0).0 in
      let (r₃, coeff_draw) = source.intn r₂ 10 in
      let r₄ = (random_coeffs source (coeff_draw + 10) [] r₃).0 in
      let (r₅, subscribe_draw) = source.intn r₄ 50 in
      let n : ℕ = subscribe_draw + 10 in
      let r₆ = (random_subscriptions source n user_id max_users [] r₅).0 in
      let (r₇, like_draw) = source.intn r₆ 20 in
      record {
        same_id = refl;
        subscriptions = subscriptions_lem n user_id max_users [] r₅ p tt;
        likes = likes_lem (like_draw + 5) max_videos [] r₇ q tt;
      }

  Holds-insert :
      (user_count video_count bound : ℕ) (users : GoMap ℕ UserInfo) (user : UserInfo)
      → 200000 ≤ bound
      → IsUser user_count video_count bound user
      → Holds user_count video_count bound users
      → Holds user_count video_count (suc bound) (insert users bound user)
  Holds-insert user_count video_count bound users user low is h = record {
    there = λ id from below. elim (nat_key.same id bound) [
      | yes e ↦ (user, rw e (get-insert_self users bound user))
      | no ne ↦
          let (found, q) = h.there id from (omega (arith, below, ne)) in
          (found, get-insert_ne users bound id user ne ∙ q)
    ];
    only = λ id found g. elim (nat_key.same id bound) [
      | yes e ↦
          let same : user ≡ found =
            some_injective user found (sym (get-insert_self users bound user) ∙ (rw e at g)) in
          (omega (arith, e, low), omega (arith, e), rw (e, sym same) is)
      | no ne ↦
          let (from, below, u) = h.only id found (sym (get-insert_ne users bound id user ne) ∙ g) in
          (from, omega (arith, below), u)
    ];
  }
    where
      some_injective : (x y : UserInfo) → some x ≡ some y → x ≡ y
      some_injective x y e = cc e

  fill_users_lem :
      (n bound user_count video_count : ℕ) (users : GoMap ℕ UserInfo) (r : R)
      → 0 < user_count
      → 0 < video_count
      → 200000 ≤ bound
      → Holds user_count video_count bound users
      → Holds user_count video_count
          (n + bound)
          (fill_users source n bound user_count video_count users r)
  unfolding fill_users
  fill_users_lem zero bound user_count video_count users r p q low h =
      let e : bound ≡ 0 + bound = omega arith in
      subst (λ b. Holds user_count video_count b users) e h
  fill_users_lem (suc n) bound user_count video_count users r p q low h =
      let (r₁, user) = make_random_user source bound user_count video_count r in
      let e : n + suc bound ≡ suc n + bound = omega arith in
      subst
        (λ b.
          Holds user_count video_count b
            (fill_users source n (suc bound) user_count video_count (insert users bound user) r₁))
        e
        (fill_users_lem n (suc bound) user_count video_count (insert users bound user) r₁ p q
          (omega (arith, low))
          (Holds-insert user_count video_count bound users user low
            (make_random_user-IsUser bound user_count video_count r p q) h))

  -- The random database has between 5000 and 9999 users, with exactly the ids from 200000 on, each stored
  -- under its own id. A user is subscribed only to other users, and all of them are in the database; the
  -- videos it likes have the ids from 1000 on, below a bound of 100 to 599 more.
  pub make_random_users_lem :
      (r : R)
      → (user_count video_count : ℕ) × (5000 ≤ user_count)
        × (user_count < 10000)
        × (100 ≤ video_count)
        × (video_count < 600)
        × Holds user_count video_count (user_count + 200000) (make_random_users source r)
  unfolding make_random_users get
  make_random_users_lem r =
      let (r₁, video_draw) = source.intn r 500 in
      let (r₂, user_draw) = source.intn r₁ 5000 in
      let user_count : ℕ = user_draw + 5000 in
      let video_count : ℕ = video_draw + 100 in
      (
        user_count,
        video_count,
        omega arith,
        omega (arith, random.intn_below r₁ 5000 (omega arith)),
        omega arith,
        omega (arith, random.intn_below r 500 (omega arith)),
        fill_users_lem user_count 200000 user_count video_count [] r₂ (omega arith) (omega arith)
            (omega arith)
            (record {
              there = λ id from below. absurd (omega (arith, from, below));
              only = λ id user g. absurd (cc g);
            }),
      )
