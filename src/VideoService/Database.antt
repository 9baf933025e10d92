-- ===== src/VideoService/Database.antt =====
-- lab1/video_service/server_lib/server_lib.go: the random database.
pub mod Contents
use cs426_spring2022_labs.Common.{
  ℕ, zero, suc, ◌+◌, ◌==◌, if◌then◌else◌, String, List, [], ◌∷◌, ◌++◌, nat_key,
}
use Prim.Native.String.{◌++◌ as concat}
use cs426_spring2022_labs.Common.GoMap.{GoMap, insert}
use cs426_spring2022_labs.Random.{Source, random_coeffs}
use cs426_spring2022_labs.Injection.{Config, set_injection_config}
use cs426_spring2022_labs.VideoService.{
  VideoInfo, VideoServiceOptions, VideoServiceServer, deduplicate_ids,
}

module _ {R : Type 0} (source : Source R) where
  unfoldable pub random_title : R → R × String
  random_title r =
      let (r₁, title_case) = source.intn r 4 in
      let (a₁, adjective) = source.text "AdjectiveDescriptive" r₁ in
      if title_case == 0
      then (let (r₂, vegetable) = source.text "Vegetable" a₁ in
          (r₂, concat adjective (concat " " vegetable)))
      else if title_case == 1
      then (let (r₂, animal) = source.text "Animal" a₁ in
          let (r₃, noun) = source.text "NounUncountable" r₂ in
          (r₃, concat "The " (concat adjective (concat " " (concat animal (concat "'s " noun))))))
      else if title_case == 2
      then (let (r₂, app) = source.text "AppName" r₁ in
          let (r₃, verb) = source.text "HackerVerb" r₂ in (r₃, concat app (concat ": " verb)))
      else (let (r₂, place) = source.text "AdverbPlace" a₁ in
          (r₂, concat adjective (concat " " place)))

  unfoldable pub make_random_video : (video_id : ℕ) → R → R × VideoInfo
  unfolding random_title random_coeffs
  make_random_video video_id r =
      let (r₁, title) = random_title r in
      let (r₂, author) = source.text "Name" r₁ in
      let (r₃, coeff_draw) = source.intn r₂ 10 in
      let (r₄, coeffs) = random_coeffs source (coeff_draw + 10) [] r₃ in
      (
        r₄,
        record {
          video_id = video_id;
          title = title;
          author = author;
          url = source.sprintf_d "https://video-data.localhost/blob/%d" video_id;
          video_coefficients = coeffs;
        },
      )

  -- The first loop of `makeRandomVideos`, with `n` videos to go.
  unfoldable pub fill_videos : (n video_id : ℕ) → GoMap ℕ VideoInfo → R → R × GoMap ℕ VideoInfo
  unfolding make_random_video
  fill_videos zero video_id videos r = (r, videos)
  fill_videos (suc n) video_id videos r =
      let (r₁, video) = make_random_video video_id r in
      fill_videos n (suc video_id) (insert videos video_id video) r₁

  unfoldable pub random_top_videos : (n video_count : ℕ) → List ℕ → R → List ℕ
  random_top_videos zero video_count top_videos r = top_videos
  random_top_videos (suc n) video_count top_videos r =
      let (r₁, drawn) = source.intn r video_count in
      random_top_videos n video_count (top_videos ++ (drawn + 1000) ∷ []) r₁

  unfoldable pub make_random_videos : R → GoMap ℕ VideoInfo × List ℕ
  unfolding fill_videos random_top_videos deduplicate_ids
  make_random_videos r =
      let (r₁, video_draw) = source.intn r 500 in
      let (r₂, videos) = fill_videos (video_draw + 100) 1000 [] r₁ in
      let (r₃, top_draw) = source.intn r₂ 10 in
      (videos, deduplicate_ids (random_top_videos (top_draw + 10) (video_draw + 100) [] r₃))

  -- The server, and the configuration of failures that it sets.
  unfoldable pub make_video_service_server : VideoServiceOptions → Config × VideoServiceServer
  unfolding make_random_videos
  make_video_service_server options =
      let (videos, top_videos) = make_random_videos (source.seed options.seed) in
      (
        set_injection_config options.sleep_ns options.failure_rate options.response_omission_rate,
        record { options = options; videos = videos; top_videos = top_videos },
      )
