-- ===== src/VideoService/Database/Contents.antt =====
-- What stands in the random database of lab1/video_service/server_lib/server_lib.go.
use cs426_spring2022_labs.Common.{
  subst, ℕ, zero, suc, ◌+◌, ◌<◌, ◌≤◌, ◌≡◌, refl, ap, sym, ◌∙◌, inl, some, List, [], ◌∷◌, ◌++◌,
  nat_key, All, All-append, All-In, In, Distinct, length, length-append, arith,
}
use cs426_spring2022_labs.Common.GoMap.{GoMap, get, insert, get-insert_self, get-insert_ne}
use cs426_spring2022_labs.Random.{Source, IsRandom}
use cs426_spring2022_labs.VideoService.{VideoInfo}
use cs426_spring2022_labs.VideoService.Dedup.{deduplicate_ids_lem}
use cs426_spring2022_labs.VideoService.Database.{
  make_random_video, fill_videos, random_top_videos, make_random_videos,
}

-- The videos are those with the ids from the offset up to `bound`, each under its own id.
pub record Holds (bound : ℕ) (videos : GoMap ℕ VideoInfo) : Type 0 where
  pub there : (id : ℕ) → 1000 ≤ id → id < bound → (video : VideoInfo) × (get videos id ≡ some video)
  pub only :
      (id : ℕ) (video : VideoInfo)
      → get videos id ≡ some video
      → (1000 ≤ id) × (id < bound) × (video.video_id ≡ id)

Holds-insert :
    (bound : ℕ) (videos : GoMap ℕ VideoInfo) (video : VideoInfo)
    → 1000 ≤ bound
    → video.video_id ≡ bound
    → Holds bound videos
    → Holds (suc bound) (insert videos bound video)
Holds-insert bound videos video low is h = record {
  there = λ id from below. elim (nat_key.same id bound) [
    | yes e ↦ (video, rw e (get-insert_self videos bound video))
    | no ne ↦
        let (found, q) = h.there id from (omega (arith, below, ne)) in
        (found, get-insert_ne videos bound id video ne ∙ q)
  ];
  only = λ id found g. elim (nat_key.same id bound) [
    | yes e ↦
        let same : video ≡ found =
          some_injective video found (sym (get-insert_self videos bound video) ∙ (rw e at g)) in
        (
          omega (arith, e, low),
          omega (arith, e),
          sym (ap (λ (v : VideoInfo). v.video_id) same) ∙ is ∙ sym e,
        )
    | no ne ↦
        let (from, below, u) = h.only id found (sym (get-insert_ne videos bound id video ne) ∙ g) in
        (from, omega (arith, below), u)
  ];
}
  where
    some_injective : (x y : VideoInfo) → some x ≡ some y → x ≡ y
    some_injective x y e = cc e

abbrev Drawn : ℕ → ℕ → Type 0
Drawn video_count id = (1000 ≤ id) × (id < video_count + 1000)

module _ {R : Type 0} (source : Source R) (random : IsRandom source) where
  top_videos_lem :
      (n video_count : ℕ) (ids : List ℕ) (r : R)
      → 0 < video_count
      → All (Drawn video_count) ids
      → All (Drawn video_count) (random_top_videos source n video_count ids r)
  unfolding random_top_videos
  top_videos_lem zero video_count ids r p all = all
  top_videos_lem (suc n) video_count ids r p all =
      let drawn : ℕ = (source.intn r video_count).1 in
      top_videos_lem n video_count (ids ++ (drawn + 1000) ∷ []) (source.intn r video_count).0 p (
        All-append (Drawn video_count) ids ((drawn + 1000) ∷ []) all
          ((omega arith, omega (arith, random.intn_below r video_count p)), tt))

  length-random_top_videos :
      (n video_count : ℕ) (ids : List ℕ) (r : R)
      → length (random_top_videos source n video_count ids r) ≡ length ids + n
  unfolding random_top_videos
  length-random_top_videos zero video_count ids r = omega arith
  length-random_top_videos (suc n) video_count ids r =
      let drawn : ℕ = (source.intn r video_count).1 in
      omega (
        arith,
        length-append ids ((drawn + 1000) ∷ []),
        length-random_top_videos n video_count (ids ++ (drawn + 1000) ∷ [])
            (source.intn r video_count).0,
      )

  fill_videos_lem :
      (n bound : ℕ) (videos : GoMap ℕ VideoInfo) (r : R)
      → 1000 ≤ bound
      → Holds bound videos
      → Holds (n + bound) (fill_videos source n bound videos r).1
  unfolding fill_videos make_random_video
  fill_videos_lem zero bound videos r low h =
      let e : bound ≡ 0 + bound = omega arith in subst (λ b. Holds b videos) e h
  fill_videos_lem (suc n) bound videos r low h =
      let (r₁, video) = make_random_video source bound r in
      let e : n + suc bound ≡ suc n + bound = omega arith in
      subst (λ b. Holds b (fill_videos source n (suc bound) (insert videos bound video) r₁).1) e
        (fill_videos_lem n (suc bound) (insert videos bound video) r₁ (omega (arith, low))
          (Holds-insert bound videos video low refl h))

  some_member : (ids : List ℕ) → 0 < length ids → (id : ℕ) × In id ids
  some_member [] p = absurd (omega (arith, p))
  some_member (id ∷ ids) p = (id, inl refl)

  -- The random database has between 100 and 599 videos, with exactly the ids from 1000 on, each stored
  -- under its own id. The trending videos are in the database, no video is among them twice, and there
  -- is at least one.
  pub make_random_videos_lem :
      (r : R)
      → (video_count : ℕ) × (100 ≤ video_count)
        × (video_count < 600)
        × Holds (video_count + 1000) (make_random_videos source r).0
        × ((id : ℕ)
            → In id (make_random_videos source r).1
            → (video : VideoInfo) × (get (make_random_videos source r).0 id ≡ some video))
        × Distinct (make_random_videos source r).1
        × ((id : ℕ) × In id (make_random_videos source r).1)
  unfolding make_random_videos get
  make_random_videos_lem r =
      let (r₁, video_draw) = source.intn r 500 in
      let video_count : ℕ = video_draw + 100 in
      let (r₂, videos) = fill_videos source video_count 1000 [] r₁ in
      let (r₃, top_draw) = source.intn r₂ 10 in
      let n : ℕ = top_draw + 10 in
      let drawn = random_top_videos source n video_count [] r₃ in
      let (distinct, members) = deduplicate_ids_lem drawn in
      let all : All (Drawn video_count) drawn =
        top_videos_lem n video_count [] r₃ (omega arith) tt in
      let (id, there) =
        some_member drawn (omega (arith, length-random_top_videos n video_count [] r₃)) in
      let holds : Holds (video_count + 1000) videos =
        fill_videos_lem video_count 1000 [] r₁ (omega arith) (record {
          there = λ id from below. absurd (omega (arith, from, below));
          only = λ id video g. absurd (cc g);
        }) in
      (
        video_count,
        omega arith,
        omega (arith, random.intn_below r 500 (omega arith)),
        holds,
        (λ id m.
            let (from, below) = All-In (Drawn video_count) id drawn all ((members id).0 m) in
            holds.there id from below),
        distinct,
        (id, (members id).1 there),
      )
