-- ===== src/VideoService/Requests.antt =====
-- What `GetVideo` answers, lab1/video_service/server_lib/server_lib.go.
use cs426_spring2022_labs.Common.{
  ℕ, ◌≡◌, ◌≢◌, ◌↔◌, refl, ap, sym, ◌∙◌, inl, inr, some, List, [], ◌∷◌, map, pos, ◌≤ℤ◌, ltb_ℤ, ◌==◌,
  length, nat_key, arith, Bool-cases, Distinct,
}
use cs426_spring2022_labs.Common.GoMap.{get}
use cs426_spring2022_labs.Status.{ok}
use cs426_spring2022_labs.Lookup.{find_all_ok, find_all_found}
use cs426_spring2022_labs.VideoService.{
  VideoInfo, VideoServiceServer, answer_video, deduplicate_ids,
}
use cs426_spring2022_labs.VideoService.Dedup.{deduplicate_ids-length}

-- The answer is a list of videos exactly if the batch is not empty, is no larger than the limit, holds
-- no id twice, and every id in it is there: then it is the videos of those ids, in order.
pub answer_video_iff :
    (db : VideoServiceServer) (ids : List ℕ) (vs : List VideoInfo)
    → (answer_video db ids ≡ ok vs) ↔ (
        (ids ≢ [])
        × (pos (length ids) ≤ℤ db.options.max_batch_size)
        × Distinct ids
        × (map (get db.videos) ids ≡ map some vs))
unfolding answer_video
answer_video_iff db [] vs = ((λ h. absurd (cc h)), λ h. absurd (h.0 refl))
answer_video_iff db (id ∷ ids) vs = (
  λ h. elim (Bool-cases (ltb_ℤ db.options.max_batch_size (pos (length (id ∷ ids))))) [
    | inl e ↦ absurd (cc (rw (e, answer_video) at h))
    | inr e ↦ elim (Bool-cases (length (deduplicate_ids (id ∷ ids)) == length (id ∷ ids))) [
      | inr f ↦ absurd (cc (rw (e, f, answer_video) at h))
      | inl f ↦
          let (found, same, looked) =
            find_all_ok db.videos (id ∷ ids) [] vs (rw (e, f, answer_video) at h) in
          (
            (λ n. cc n),
            ground arith,
            (deduplicate_ids-length (id ∷ ids)).0 (ground arith),
            looked ∙ ap (map some) (sym same),
          )
    ]
  ],
  λ h. ground (
    arith,
    h.1,
    (deduplicate_ids-length (id ∷ ids)).1 h.2,
    find_all_found db.videos (id ∷ ids) [] vs h.3,
  ),
)
