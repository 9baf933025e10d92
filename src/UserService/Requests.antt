-- ===== src/UserService/Requests.antt =====
-- What `GetUser` answers, lab1/user_service/server_lib/server_lib.go.
use cs426_spring2022_labs.Common.{
  ℕ, ◌≡◌, ◌≢◌, ◌↔◌, refl, ap, sym, ◌∙◌, inl, inr, some, List, [], ◌∷◌, map, pos, ◌≤ℤ◌, ltb_ℤ,
  length, nat_key, arith, Bool-cases,
}
use cs426_spring2022_labs.Common.GoMap.{get}
use cs426_spring2022_labs.Status.{ok, error, not_found}
use cs426_spring2022_labs.UserService.{UserInfo, UserServiceServer, answer_user}
use cs426_spring2022_labs.Lookup.{
  FirstMissing, find_all_ok, find_all_found, find_all_error, not_found_injective,
}

-- The answer is a list of users exactly if the batch is not empty, is no larger than the limit, and
-- every id in it is there: then it is the users of those ids, in the order of the request.
pub answer_user_iff :
    (db : UserServiceServer) (ids : List ℕ) (us : List UserInfo)
    → (answer_user db ids ≡ ok us) ↔ (
        (ids ≢ [])
        × (pos (length ids) ≤ℤ db.options.max_batch_size)
        × (map (get db.users) ids ≡ map some us))
unfolding answer_user
answer_user_iff db [] us = ((λ h. absurd (cc h)), λ h. absurd (h.0 refl))
answer_user_iff db (id ∷ ids) us = (
  λ h. elim (Bool-cases (ltb_ℤ db.options.max_batch_size (pos (length (id ∷ ids))))) [
    | inl e ↦ absurd (cc (rw (e, answer_user) at h))
    | inr e ↦
        let (found, same, looked) =
          find_all_ok db.users (id ∷ ids) [] us (rw (e, answer_user) at h) in
        ((λ n. cc n), ground arith, looked ∙ ap (map some) (sym same))
  ],
  λ h. ground (arith, h.1, find_all_found db.users (id ∷ ids) [] us h.2),
)

-- If the answer is that an id was not found, that id is the first of the batch that is not there.
pub not_found_first :
    (db : UserServiceServer) (ids : List ℕ) (id : ℕ)
    → answer_user db ids ≡ error (not_found id)
    → FirstMissing db.users id ids
unfolding answer_user
not_found_first db [] id h = absurd (cc h)
not_found_first db (i ∷ ids) id h =
    elim (Bool-cases (ltb_ℤ db.options.max_batch_size (pos (length (i ∷ ids))))) [
      | inl e ↦ absurd (cc (rw (e, answer_user) at h))
      | inr e ↦
          let (j, same, m) =
            find_all_error db.users (i ∷ ids) [] (not_found id) (rw (e, answer_user) at h) in
          let q : id ≡ j = not_found_injective id j same in rw q m
    ]
