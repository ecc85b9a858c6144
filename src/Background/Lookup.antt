-- ===== src/Background/Lookup.antt =====
-- What CHECK_VIDEOS of realtube-extension/src/background/background.ts answers.
use mathlib.Core.List
use real_tube.Prelude.{
  String, ◌==◌, eq_iff, ◌≡◌, refl, Bool, true, Option, none, some, List, [], ◌∷◌, map, keep, has,
  All, All-append, All-map, Bool-cases, inl, inr, arith,
}
use real_tube.Records.{CachedVideo, VideoResult}
use real_tube.Effects.{Result, ok, err, continue, handle, pure}
use real_tube.ObjectStore.Laws.{key_of_get}
use real_tube.Browser.{Platform, Db, World}
use real_tube.ApiClient
use real_tube.Cache
use real_tube.Cache.{video_key, find_video, found_videos}
use real_tube.Sync.{cached_of_result}
use real_tube.Background.{
  PrefixMap, add_to_prefix, group_by_prefix, collect, check_prefix, check_prefixes, check_all,
  misses_of, prefix_of,
}

module _ (asked : List String) where
  -- the video was asked for
  abbrev pub WasAsked : String → Type 0
  WasAsked id = has id asked ≡ true

  abbrev AreAsked : PrefixMap → Type 0
  AreAsked = All (λ g. All WasAsked g.1)

  add-AreAsked :
      (prefix id : String) (groups : PrefixMap)
      → WasAsked id
      → AreAsked groups
      → AreAsked (add_to_prefix prefix id groups)
  unfolding add_to_prefix
  add-AreAsked prefix id [] a h = ((a, tt), tt)
  add-AreAsked prefix id ((q, ids) ∷ groups) a (h, hs) = elim (Bool-cases (q == prefix)) [
    | inl same ↦ rw same (All-append WasAsked ids (id ∷ []) h (a, tt), hs)
    | inr other ↦ rw other (h, add-AreAsked prefix id groups a hs)
  ]

  group-AreAsked :
      (hash : String → String) (ids : List String) (groups : PrefixMap)
      → All WasAsked ids
      → AreAsked groups
      → AreAsked (group_by_prefix hash ids groups)
  unfolding group_by_prefix
  group-AreAsked hash [] groups a h = h
  group-AreAsked hash (id ∷ ids) groups (a, rest) h =
      group-AreAsked hash ids (add_to_prefix (hash id) id groups) rest
        (add-AreAsked (hash id) id groups a h)

  has-WasAsked :
      (id : String) (ids : List String) → All WasAsked ids → has id ids ≡ true → WasAsked id
  has-WasAsked id [] a h = absurd (ground (arith, h))
  has-WasAsked id (i ∷ ids) (a, rest) h = elim (Bool-cases (i == id)) [
    | inl same ↦ rw (← (eq_iff i id).0 same) a
    | inr other ↦ has-WasAsked id ids rest (ground (arith, h, other))
  ]

  abbrev Results : Result (List VideoResult) → Type 0
  Results r = (vs : List VideoResult) × (r ≡ ok vs) × All (λ v. WasAsked v.video_id) vs

  module _ (p : Platform) where
    collect-Results :
        (ids : List String) (videos results : List VideoResult) (w : World)
        → All WasAsked ids
        → All (λ v. WasAsked v.video_id) results
        → Results (collect p ids videos results w).0
    unfolding collect Cache.put_video
    collect-Results ids [] results w a h = (results, refl, h)
    collect-Results ids (video ∷ videos) results w a h =
        elim (Bool-cases (has video.video_id ids)) [
          | inl here ↦ rw here (
              collect-Results ids videos (List.◌++◌ results (video ∷ [])) _ a (
                All-append (λ v. WasAsked v.video_id) results (video ∷ []) h
                  (has-WasAsked video.video_id ids a here, tt)))
          | inr elsewhere ↦ rw elsewhere (collect-Results ids videos results w a h)
        ]

    looked_up :
        (ids : List String) (results : List VideoResult) (x : Result (List VideoResult) × World)
        → All WasAsked ids
        → All (λ v. WasAsked v.video_id) results
        → Results
            (let (r, w₁) = continue x.0 (λ videos. collect p ids videos results) x.1 in
              handle r (λ message. pure results) w₁).0
    looked_up ids results (ok videos, w) a h =
        let (vs, e, hs) = collect-Results ids videos results w a h in (vs, rw e refl, hs)
    looked_up ids results (err message, w) a h = (results, refl, h)

    check_prefixes-Results :
        (groups : PrefixMap) (results : List VideoResult) (w : World)
        → AreAsked groups
        → All (λ v. WasAsked v.video_id) results
        → Results (check_prefixes p groups results w).0
    unfolding check_prefixes check_prefix
    check_prefixes-Results [] results w a h = (results, refl, h)
    check_prefixes-Results ((prefix, ids) ∷ groups) results w (a, rest) h =
        let (vs, e, hs) =
          looked_up ids results (ApiClient.lookup_videos_by_prefix p prefix w) a h in
        rw e (check_prefixes-Results groups vs _ rest hs)

    found-WasAsked :
        (db : Db) (ids : List String)
        → All WasAsked ids
        → All (λ v. WasAsked v.video_id) (found_videos db ids)
    unfolding found_videos
    found-WasAsked db [] a = tt
    found-WasAsked db (id ∷ ids) (a, rest) =
        found (find_video db id) (key_of_get video_key id db.videos) (found-WasAsked db ids rest)
      where
        found :
            (o : Option CachedVideo)
            → ((v : CachedVideo) → o ≡ some v → v.video_id ≡ id)
            → All (λ v. WasAsked v.video_id) (found_videos db ids)
            → All
                (λ v. WasAsked v.video_id)
                (elim o [ none ↦ found_videos db ids | some video ↦ video ∷ found_videos db ids ])
        found none key h = h
        found (some v) key h = (rw (key v refl) a, h)

pub all_asked : (ids : List String) → All (WasAsked ids) ids
all_asked [] = tt
all_asked (id ∷ ids) =
    (ground (arith, eq_iff id id), All-map (λ i h. ground (arith, h)) ids (all_asked ids))

pub keep-All :
    (P : String → Type 0) (q : String → Bool) (ids : List String) → All P ids → All P (keep q ids)
keep-All P q [] h = tt
keep-All P q (id ∷ ids) (h, rest) = elim (Bool-cases (q id)) [
  | inl kept ↦ rw kept (h, keep-All P q ids rest)
  | inr dropped ↦ rw dropped (keep-All P q ids rest)
]

cached-All :
    (asked : List String) (vs : List VideoResult)
    → All (λ v. WasAsked asked v.video_id) vs
    → All (λ v. WasAsked asked v.video_id) (map cached_of_result vs)
cached-All asked [] h = tt
cached-All asked (v ∷ vs) (h, rest) = (h, cached-All asked vs rest)

-- CHECK_VIDEOS does not fail, whatever the server and the network do, and every video that it answers
-- is one of those that were asked for.
pub check_all-WasAsked :
    (p : Platform) (video_ids : List String) (w : World)
    → (vs : List CachedVideo) × ((check_all p video_ids w).0 ≡ ok vs)
      × All (λ v. WasAsked video_ids v.video_id) vs
unfolding check_all Cache.get_videos
check_all-WasAsked p video_ids w =
    let every = all_asked video_ids in
    let cached = found_videos w.db video_ids in
    let misses = misses_of cached video_ids in
    let groups = group_by_prefix (prefix_of p) misses [] in
    let named : All (λ g. All (WasAsked video_ids) g.1) groups =
      group-AreAsked video_ids (prefix_of p) misses []
        (keep-All (WasAsked video_ids) _ video_ids every) tt in
    let (results, e, h) = check_prefixes-Results video_ids p groups [] w named tt in
    (
      List.◌++◌ cached (map cached_of_result results),
      rw e refl,
      All-append (λ v. WasAsked video_ids v.video_id) cached (map cached_of_result results)
          (found-WasAsked video_ids p w.db video_ids every) (cached-All video_ids results h),
    )
