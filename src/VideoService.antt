-- ===== src/VideoService.antt =====
-- lab1/video_service/server_lib/server_lib.go: the requests that the video service answers.
pub mod Database
pub mod Dedup
pub mod Requests
mod Tests
use cs426_spring2022_labs.Common.{
  ℕ, ◌-◌, ◌%◌, String, Option, none, some, List, [], ◌∷◌, ◌++◌, ℤ, pos, negsuc, ◌+ℤ◌, Outcome,
  returns, ◌>>=◌, if◌then◌else◌, Bool, true, false, not, ltb_ℤ, ◌==◌, length, nat_key, int_key, Key,
}
use cs426_spring2022_labs.Common.GoMap.{GoMap, get, insert}
use cs426_spring2022_labs.Status.{
  Status, Response, ok, error, injected, empty_batch, batch_too_large, duplicate_ids, not_found,
}
use cs426_spring2022_labs.Lookup.{find_all, is_empty}
use cs426_spring2022_labs.Injection.{Config, Draws, maybe_inject}

pub record VideoInfo : Type 0 where
  pub video_id : ℕ
  pub title : String
  pub author : String
  pub url : String
  pub video_coefficients : GoMap ℤ ℕ

pub record VideoServiceOptions : Type 0 where
  pub seed : ℤ
  pub ttl_seconds : ℤ
  pub sleep_ns : ℤ
  pub failure_rate : ℤ
  pub response_omission_rate : ℤ
  pub max_batch_size : ℤ

abbrev pub default_video_service_options : VideoServiceOptions
default_video_service_options = record {
  seed = pos 42;
  ttl_seconds = pos 60;
  sleep_ns = pos 0;
  failure_rate = pos 0;
  response_omission_rate = pos 0;
  max_batch_size = pos 250;
}

pub record VideoServiceServer : Type 0 where
  pub options : VideoServiceOptions
  pub videos : GoMap ℕ VideoInfo
  pub top_videos : List ℕ

-- The loop of `deduplicateIds`: `set` holds the ids that are in `deduped`.
unfoldable pub dedup_from : List ℕ → GoMap ℕ (Unit {0}) → List ℕ → List ℕ
dedup_from [] set deduped = deduped
dedup_from (id ∷ ids) set deduped = elim (get set id) [
  | none ↦ dedup_from ids (insert set id tt) (deduped ++ id ∷ [])
  | some _ ↦ dedup_from ids set deduped
]

unfoldable pub deduplicate_ids : List ℕ → List ℕ
unfolding dedup_from
deduplicate_ids ids = dedup_from ids [] []

unfoldable pub answer_video : VideoServiceServer → List ℕ → Response (List VideoInfo)
unfolding find_all deduplicate_ids
answer_video db video_ids =
    if is_empty video_ids
    then error empty_batch
    else if ltb_ℤ db.options.max_batch_size (pos (length video_ids))
    then error (batch_too_large db.options.max_batch_size)
    else if length (deduplicate_ids video_ids) == length video_ids
    then find_all db.videos video_ids []
    else error duplicate_ids

unfoldable pub get_video :
    Config → Draws → VideoServiceServer → List ℕ → Outcome (Response (List VideoInfo))
unfolding answer_video
get_video config draws db video_ids = do
  should_error ← maybe_inject config draws
  returns (if should_error then error injected else answer_video db video_ids)

pub record GetTrendingVideosResponse : Type 0 where
  pub videos : List ℕ
  pub expiration_time_s : ℕ

-- The conversion of an `int64` to `uint64`.
unfoldable pub to_uint64 : ℤ → ℕ
to_uint64 (pos n) = n % 18446744073709551616
to_uint64 (negsuc n) = 18446744073709551615 - n % 18446744073709551616

-- `now` is the time of the clock, in seconds.
unfoldable pub get_trending_videos :
    Config → Draws → (now : ℤ) → VideoServiceServer → Outcome (Response GetTrendingVideosResponse)
unfolding to_uint64
get_trending_videos config draws now db = do
  should_error ← maybe_inject config draws
  returns (
      if should_error
      then error injected
      else ok (record {
        videos = db.top_videos;
        expiration_time_s = to_uint64 (now +ℤ db.options.ttl_seconds);
      }))
