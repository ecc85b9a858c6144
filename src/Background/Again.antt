-- ===== src/Background/Again.antt =====
-- CHECK_VIDEOS of realtube-extension/src/background/background.ts, and the same message again.
use mathlib.Core.List
use mathlib.Core.Path.{subst}
use real_tube.Prelude.{
  String, ◌==◌, eq_iff, ◌≡◌, refl, sym, ap, ◌∙◌, true, false, Option, none, some, is_some, List, [],
  ◌∷◌, map, has, All, All-append, All-map, Bool-cases, inl, inr, arith,
}
use real_tube.Records.{CachedVideo, VideoResult}
use real_tube.Effects.{Result, ok, err, pure, continue, handle}
use real_tube.Browser.{Platform, World, Db, Trace, Event, requested, slept}
use real_tube.ObjectStore.{ObjectStore, get, put}
use real_tube.ObjectStore.Laws.{get-put, key_of_get}
use real_tube.ApiClient
use real_tube.Cache
use real_tube.Cache.{video_key, find_video, found_videos}
use real_tube.Sync.{cached_of_result}
use real_tube.Background.{
  PrefixMap, group_by_prefix, collect, check_prefix, check_prefixes, check_all, misses_of,
  prefix_of,
}
use real_tube.Background.Lookup.{WasAsked}
use real_tube.Background.Privacy.{OnlyLookups, IsLookup, IsMiss, check_all-OnlyLookups}
use real_tube.Background.Overlap.Handler.{same_videos}

-- the cache has a record of the video
abbrev pub IsCached : ObjectStore CachedVideo → String → Type 0
IsCached videos id = is_some (get video_key id videos) ≡ true

IsCached-put :
    (id : String) (v : CachedVideo) (videos : ObjectStore CachedVideo)
    → IsCached videos id
    → IsCached (put video_key v videos) id
IsCached-put id v videos h = elim (Bool-cases (v.video_id == id)) [
  | inl same ↦ ap is_some (get-put video_key id v videos) ∙ rw same refl
  | inr other ↦ ap is_some (get-put video_key id v videos) ∙ rw other h
]

put-IsCached :
    (v : CachedVideo) (videos : ObjectStore CachedVideo)
    → IsCached (put video_key v videos) v.video_id
put-IsCached v videos =
    ap is_some (get-put video_key v.video_id v videos)
    ∙ rw ((eq_iff v.video_id v.video_id).1 refl) refl

-- What a part of the handler does with the results so far: they, and what it adds, are cached, and
-- what was cached still is.
record Caches (w : World) (x : Result (List VideoResult) × World) : Type 0 where
  pub results : List VideoResult
  pub returns : x.0 ≡ ok results
  pub cached : All (λ v. IsCached x.1.db.videos v.video_id) results
  pub stays : (id : String) → IsCached w.db.videos id → IsCached x.1.db.videos id

abbrev AllCached : World → List VideoResult → Type 0
AllCached w results = All (λ v. IsCached w.db.videos v.video_id) results

module _ (p : Platform) where
  collect-Caches :
      (ids : List String) (videos results : List VideoResult) (w : World)
      → AllCached w results
      → Caches w (collect p ids videos results w)
  unfolding collect Cache.put_video
  collect-Caches ids [] results w h = record {
    results = results;
    returns = refl;
    cached = h;
    stays = λ id c. c;
  }
  collect-Caches ids (video ∷ videos) results w h = elim (Bool-cases (has video.video_id ids)) [
    | inl here ↦ rw here (
        let v = cached_of_result video in
        let rest = collect-Caches ids videos (List.◌++◌ results (video ∷ [])) _ (
          All-append _ results (video ∷ [])
            (All-map (λ u c. IsCached-put u.video_id v w.db.videos c) results h)
            (put-IsCached v w.db.videos, tt)) in
        record {
          results = rest.results;
          returns = rest.returns;
          cached = rest.cached;
          stays = λ id c. rest.stays id (IsCached-put id v w.db.videos c);
        })
    | inr elsewhere ↦ rw elsewhere (collect-Caches ids videos results w h)
  ]

  settled-Caches :
      (ids : List String) (results : List VideoResult) (w : World)
      (x : Result (List VideoResult) × World)
      → x.1.db.videos ≡ w.db.videos
      → AllCached w results
      → Caches w (
          let (r, w₁) = continue x.0 (λ videos. collect p ids videos results) x.1 in
          handle r (λ message. pure results) w₁)
  settled-Caches ids results w (err message, w₁) same h = record {
    results = results;
    returns = refl;
    cached = subst (λ vs. All (λ v. IsCached vs v.video_id) results) (sym same) h;
    stays = λ id c. subst (λ vs. IsCached vs id) (sym same) c;
  }
  settled-Caches ids results w (ok videos, w₁) same h =
      let rest =
        collect-Caches ids videos results w₁
          (subst (λ vs. All (λ v. IsCached vs v.video_id) results) (sym same) h) in
      rw rest.returns (record {
        results = rest.results;
        returns = refl;
        cached = rest.cached;
        stays = λ id c. rest.stays id (subst (λ vs. IsCached vs id) (sym same) c);
      })

  check_prefixes-Caches :
      (groups : PrefixMap) (results : List VideoResult) (w : World)
      → AllCached w results
      → Caches w (check_prefixes p groups results w)
  unfolding check_prefixes check_prefix
  check_prefixes-Caches [] results w h = record {
    results = results;
    returns = refl;
    cached = h;
    stays = λ id c. c;
  }
  check_prefixes-Caches ((prefix, ids) ∷ groups) results w h =
      let one =
        settled-Caches ids results w (ApiClient.lookup_videos_by_prefix p prefix w)
          (same_videos p prefix w) h in
      let rest = check_prefixes-Caches groups one.results _ one.cached in
      rw one.returns (record {
        results = rest.results;
        returns = rest.returns;
        cached = rest.cached;
        stays = λ id c. rest.stays id (one.stays id c);
      })

found-IsCached :
    (db : Db) (ids : List String) → All (λ v. IsCached db.videos v.video_id) (found_videos db ids)
unfolding found_videos
found-IsCached db [] = tt
found-IsCached db (id ∷ ids) = found (find_video db id) refl (found-IsCached db ids)
  where
    found :
        (o : Option CachedVideo)
        → find_video db id ≡ o
        → All (λ v. IsCached db.videos v.video_id) (found_videos db ids)
        → All
            (λ v. IsCached db.videos v.video_id)
            (elim o as (λ (_ : Option CachedVideo). List CachedVideo) [
              | none ↦ found_videos db ids
              | some video ↦ video ∷ found_videos db ids
            ])
    found none e h = h
    found (some v) e h = (rw (key_of_get video_key id db.videos v e) (ap is_some e), h)

records-IsCached :
    (videos : ObjectStore CachedVideo) (results : List VideoResult)
    → All (λ v. IsCached videos v.video_id) results
    → All (λ v. IsCached videos v.video_id) (map cached_of_result results)
records-IsCached videos [] h = tt
records-IsCached videos (v ∷ vs) (h, hs) = (h, records-IsCached videos vs hs)

-- what is not in the cache is not among cached videos
unanswered :
    (videos : ObjectStore CachedVideo) (id : String) (vs : List CachedVideo)
    → All (λ v. IsCached videos v.video_id) vs
    → get video_key id videos ≡ none
    → has id (map (λ v. v.video_id) vs) ≡ false
unanswered videos id [] h e = refl
unanswered videos id (v ∷ vs) (h, hs) e = elim (Bool-cases (v.video_id == id)) [
  | inl same ↦
      let there : is_some (get video_key id videos) ≡ true =
        subst (IsCached videos) ((eq_iff v.video_id id).0 same) h in
      absurd (ground (arith, there, ap is_some e))
  | inr other ↦ rw other (unanswered videos id vs hs e)
]

-- The events of a trace that may tell about some videos may tell about more.
OnlyLookups-weaken :
    (p : Platform) (P Q : String → Type 0)
    → ((id : String) → P id → Q id)
    → (t : Trace) (w : World) → OnlyLookups p P t w
    → OnlyLookups p Q t w
OnlyLookups-weaken p P Q f t w h = record {
  later = h.later;
  at = h.at;
  lookups = All-map weaken h.later h.lookups;
}
  where
    weaken : (e : Event) → IsLookup p P e → IsLookup p Q e
    weaken (slept ms) l = tt
    weaken (requested r) (base, id, told, e) = (base, id, f id told, e)

-- CHECK_VIDEOS does not fail, whatever the server and the network do. Every video that it answers is
-- in the cache afterwards, and the same message again, with no other message in between, sends only
-- lookups of the hash prefixes of videos that were asked for and not answered.
pub check_all-again :
    (p : Platform) (video_ids : List String) (w : World)
    → let w₁ = (check_all p video_ids w).1 in
      (vs : List CachedVideo) × ((check_all p video_ids w).0 ≡ ok vs)
      × All (λ v. IsCached w₁.db.videos v.video_id) vs
      × OnlyLookups p
          (λ id. WasAsked video_ids id × (has id (map (λ v. v.video_id) vs) ≡ false))
          w₁.trace
          (check_all p video_ids w₁).1
unfolding check_all Cache.get_videos
check_all-again p video_ids w =
    let cached = found_videos w.db video_ids in
    let groups = group_by_prefix (prefix_of p) (misses_of cached video_ids) [] in
    let rest = check_prefixes-Caches p groups [] w tt in
    let w₁ = (check_prefixes p groups [] w).1 in
    let vs = List.◌++◌ cached (map cached_of_result rest.results) in
    let all : All (λ v. IsCached w₁.db.videos v.video_id) vs =
      All-append _ cached (map cached_of_result rest.results)
        (All-map (λ v c. rest.stays v.video_id c) cached (found-IsCached w.db video_ids))
        (records-IsCached w₁.db.videos rest.results rest.cached) in
    rw rest.returns (
      vs,
      refl,
      all,
      OnlyLookups-weaken p (IsMiss video_ids w₁.db) _
          (λ id (asked, missing). (asked, unanswered w₁.db.videos id vs all missing)) w₁.trace _
          (check_all-OnlyLookups p video_ids w₁),
    )
