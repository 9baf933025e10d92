-- ===== src/VideoService/Tests.antt =====
-- Requests to a video service with two videos, lab1/video_service/server_lib/server_lib.go.
use cs426_spring2022_labs.Common.{
  ◌≤◌, ◌<◌, ◌+◌, List, ℕ, ◌≡◌, ◌≢◌, ◌↔◌, refl, some, [], ◌∷◌, map, pos, ◌≤ℤ◌, length, nat_key,
  ℕ_discrete, Distinct, In,
}
use cs426_spring2022_labs.Common.GoMap.{get, insert}
use cs426_spring2022_labs.Status.{ok, error, duplicate_ids}
use cs426_spring2022_labs.VideoService.{
  VideoInfo, VideoServiceServer, default_video_service_options, dedup_from, deduplicate_ids,
  answer_video,
}
use cs426_spring2022_labs.Random.Tests.{counter, counter-IsRandom}
use cs426_spring2022_labs.VideoService.Database.{make_random_videos}
use cs426_spring2022_labs.VideoService.Database.Contents.{Holds, make_random_videos_lem}
use cs426_spring2022_labs.VideoService.Requests.{answer_video_iff}

abbrev video : ℕ → VideoInfo
video id = record { video_id = id; title = "t"; author = "a"; url = ""; video_coefficients = [] }

abbrev two_videos : VideoServiceServer
two_videos = record {
  options = default_video_service_options;
  videos = (1000, video 1000) ∷ (1001, video 1001) ∷ [];
  top_videos = 1001 ∷ [];
}

deduplicates : deduplicate_ids (3 ∷ 1 ∷ 3 ∷ 2 ∷ 1 ∷ []) ≡ 3 ∷ 1 ∷ 2 ∷ []
unfolding deduplicate_ids dedup_from get insert ℕ_discrete
deduplicates = refl

refuses_duplicates : answer_video two_videos (1000 ∷ 1000 ∷ []) ≡ error duplicate_ids
unfolding answer_video deduplicate_ids dedup_from get insert ℕ_discrete
refuses_duplicates = refl

abbrev ids : List ℕ
ids = 1001 ∷ 1000 ∷ []

abbrev twice : List ℕ
twice = 3 ∷ 3 ∷ []

answer_video_iff_example : (answer_video two_videos ids ≡ ok (video 1001 ∷ video 1000 ∷ [])) ↔ (
    (ids ≢ [])
    × (pos (length ids) ≤ℤ pos 250)
    × Distinct ids
    × (map (get two_videos.videos) ids ≡ map some (video 1001 ∷ video 1000 ∷ [])))
answer_video_iff_example = answer_video_iff two_videos ids (video 1001 ∷ video 1000 ∷ [])

make_random_videos_lem_example :
    (video_count : ℕ) × (100 ≤ video_count)
    × (video_count < 600)
    × Holds (video_count + 1000) (make_random_videos counter 42).0
    × ((id : ℕ)
        → In id (make_random_videos counter 42).1
        → (found : VideoInfo) × (get (make_random_videos counter 42).0 id ≡ some found))
    × Distinct (make_random_videos counter 42).1
    × ((id : ℕ) × In id (make_random_videos counter 42).1)
make_random_videos_lem_example = make_random_videos_lem counter counter-IsRandom 42
