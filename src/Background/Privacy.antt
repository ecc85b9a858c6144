-- ===== src/Background/Privacy.antt =====
-- Which requests CHECK_VIDEOS of realtube-extension/src/background/background.ts sends.
use Prim.Native.String.{◌++◌}
use mathlib.Core.List
use real_tube.Prelude.{
  String, ◌==◌, eq_iff, eq_refl, ◌≡◌, refl, sym, ap, ◌∙◌, Bool, true, not, Option, none, some, List,
  [], ◌∷◌, map, keep, has, ◌=ℕ◌, Option-cases, arith, All, All-append, All-map, Bool-cases, inl,
  inr,
}
use real_tube.Prelude.Url.{encode_uri_component}
use real_tube.Records.{CachedVideo, VideoResult}
use real_tube.Effects.{pure, throw}
use real_tube.Effects.Keeps.{Keeps, Keeps-bind, Keeps-if, Keeps-pure, Keeps-throw, Keeps-catch}
use real_tube.Browser.{Endpoint, Request, Event, requested, slept, Trace, Platform, Db, World}
use real_tube.Identity
use real_tube.Identity.{substring}
use real_tube.ApiClient
use real_tube.ApiClient.{get_config, fetch_with_retry, get_request, is_ok, json}
use real_tube.ApiClient.Frame.{get_config-state}
use real_tube.ApiClient.Retry.{IsRetry, fetch_with_retry-Settled}
use real_tube.ObjectStore.Laws.{key_of_get}
use real_tube.Cache
use real_tube.Cache.{video_key, find_video, found_videos}
use real_tube.Background.Lookup.{WasAsked, all_asked}
use real_tube.Sync.{cached_of_result}
use real_tube.Background.{
  PrefixMap, add_to_prefix, group_by_prefix, collect, check_prefix, check_prefixes, check_all,
  misses_of, prefix_of,
}

module _ (p : Platform) (tellable : String → Type 0) where
  -- the first four digits of the SHA-256 of an id
  abbrev pub digest_start : String → String
  digest_start id = substring 4 (Identity.hex_of_bytes (p.digest id))

  -- a wait, or a lookup of the prefix of a video that may be told about
  abbrev pub IsLookup : Event → Type 0
  IsLookup (slept ms) = Unit
  IsLookup (requested r) =
      (base id : String) × tellable id
      × (r ≡ get_request (base ++ "/api/videos/" ++ encode_uri_component (digest_start id)))

  -- since `t`, nothing but lookups and waits
  pub record OnlyLookups (t : Trace) (w : World) : Type 0 where
    pub later : Trace
    pub at : w.trace ≡ List.◌++◌ later t
    pub lookups : All IsLookup later

  -- the prefix belongs to a video that may be told about
  abbrev IsNamed : String → Type 0
  IsNamed prefix = (id : String) × tellable id × (prefix ≡ digest_start id)

  add-IsNamed :
      (id : String) (groups : PrefixMap)
      → tellable id
      → All (λ g. IsNamed g.0) groups
      → All (λ g. IsNamed g.0) (add_to_prefix (prefix_of p id) id groups)
  unfolding add_to_prefix prefix_of Identity.hash_video_id Identity.sha256
  add-IsNamed id [] a h = ((id, a, refl), tt)
  add-IsNamed id ((q, ids) ∷ groups) a (h, rest) = elim (Bool-cases (q == prefix_of p id)) [
    | inl same ↦ rw same (h, rest)
    | inr other ↦ rw other (h, add-IsNamed id groups a rest)
  ]

  group-IsNamed :
      (ids : List String) (groups : PrefixMap)
      → All tellable ids
      → All (λ g. IsNamed g.0) groups
      → All (λ g. IsNamed g.0) (group_by_prefix (prefix_of p) ids groups)
  unfolding group_by_prefix
  group-IsNamed [] groups a h = h
  group-IsNamed (id ∷ ids) groups (a, rest) h =
      group-IsNamed ids (add_to_prefix (prefix_of p id) id groups) rest (add-IsNamed id groups a h)

  module _ (t : Trace) where
    get_config-OnlyLookups : Keeps (OnlyLookups t) get_config
    get_config-OnlyLookups = record {
      at = λ w h.
          let (url, e) = get_config-state w in
          rw e (record { later = h.later; at = h.at; lookups = h.lookups });
    }

    retry-IsLookup :
        (req : Request) → IsLookup (requested req) → (e : Event) → IsRetry req e → IsLookup e
    retry-IsLookup req h (requested r) same = rw same h
    retry-IsLookup req h (slept ms) same = tt

    fetch-OnlyLookups :
        (req : Request)
        → IsLookup (requested req)
        → Keeps (OnlyLookups t) (fetch_with_retry p Endpoint.lookup_videos req)
    fetch-OnlyLookups req told = record {
      at = λ w h.
          let settled = fetch_with_retry-Settled p Endpoint.lookup_videos req w in
          rw settled.state (record {
            later = requested req ∷ List.◌++◌ settled.earlier h.later;
            at =
                ap (λ s. requested req ∷ s)
                  (ap (List.◌++◌ settled.earlier) h.at
                    ∙ sym (List.append_assoc settled.earlier h.later t));
            lookups = (
              told,
              All-append IsLookup settled.earlier h.later
                  (All-map (retry-IsLookup req told) settled.earlier settled.same) h.lookups,
            );
          });
    }

    lookup-OnlyLookups :
        (prefix : String)
        → IsNamed prefix
        → Keeps (OnlyLookups t) (ApiClient.lookup_videos_by_prefix p prefix)
    unfolding ApiClient.lookup_videos_by_prefix
    lookup-OnlyLookups prefix (id, a, e) = Keeps-bind get_config _ get_config-OnlyLookups λ url.
        Keeps-bind
          (fetch_with_retry p Endpoint.lookup_videos
            (get_request (url ++ "/api/videos/" ++ encode_uri_component prefix)))
          _ (fetch-OnlyLookups _ (url, id, a, rw e refl))
          λ r.
            Keeps-if (r.status =ℕ 404) (pure []) _ (Keeps-pure []) (
              Keeps-if (not (is_ok r)) (throw _) (json r) (Keeps-throw _)
                (record { at = λ w h. h }))

    collect-OnlyLookups :
        (ids : List String) (videos results : List VideoResult)
        → Keeps (OnlyLookups t) (collect p ids videos results)
    unfolding collect Cache.put_video
    collect-OnlyLookups ids [] results = Keeps-pure results
    collect-OnlyLookups ids (video ∷ videos) results =
        Keeps-if (has video.video_id ids) _ _
          (Keeps-bind (Cache.put_video (cached_of_result video)) _
            (record { at = λ w h. record { later = h.later; at = h.at; lookups = h.lookups } })
            λ _. collect-OnlyLookups ids videos (List.◌++◌ results (video ∷ [])))
          (collect-OnlyLookups ids videos results)

    check_prefixes-OnlyLookups :
        (groups : PrefixMap) (results : List VideoResult)
        → All (λ g. IsNamed g.0) groups
        → Keeps (OnlyLookups t) (check_prefixes p groups results)
    unfolding check_prefixes check_prefix
    check_prefixes-OnlyLookups [] results h = Keeps-pure results
    check_prefixes-OnlyLookups ((prefix, ids) ∷ groups) results (h, rest) =
        Keeps-bind (check_prefix p prefix ids results) _
          (Keeps-catch _ _
            (Keeps-bind (ApiClient.lookup_videos_by_prefix p prefix) _ (lookup-OnlyLookups prefix h)
              λ videos. collect-OnlyLookups ids videos results)
            λ message. Keeps-pure results)
          λ more. check_prefixes-OnlyLookups groups more rest

-- a cached video that is asked for is found
found-has :
    (db : Db) (id : String) (v : CachedVideo) (ids : List String)
    → find_video db id ≡ some v
    → has id ids ≡ true
    → has id (map (λ u. u.video_id) (found_videos db ids)) ≡ true
unfolding found_videos
found-has db id v [] found asked = asked
found-has db id v (i ∷ ids) found asked = elim (Bool-cases (i == id)) [
  | inl same ↦
      here (find_video db i) (rw ((eq_iff i id).0 same) found)
        (rw (key_of_get video_key id db.videos v found) (eq_refl id))
  | inr other ↦ there (find_video db i) (found-has db id v ids found (ground (arith, asked, other)))
]
  where
    here :
        (o : Option CachedVideo)
        → o ≡ some v
        → (v.video_id == id) ≡ true
        → has id (
            map
              (λ u. u.video_id)
              (elim o [ none ↦ found_videos db ids | some u ↦ u ∷ found_videos db ids ]))
          ≡ true
    here none e key = absurd (ground (arith, e))
    here (some u) e key = ground (arith, e, key)

    there :
        (o : Option CachedVideo)
        → has id (map (λ u. u.video_id) (found_videos db ids)) ≡ true
        → has id (
            map
              (λ u. u.video_id)
              (elim o [ none ↦ found_videos db ids | some u ↦ u ∷ found_videos db ids ]))
          ≡ true
    there none rest = rest
    there (some u) rest = ground (arith, rest)

kept_by :
    (P : String → Type 0) (q : String → Bool) (ids : List String)
    → All P ids
    → All (λ id. P id × (q id ≡ true)) (keep q ids)
kept_by P q [] h = tt
kept_by P q (id ∷ ids) (h, rest) = elim (Bool-cases (q id)) [
  | inl kept ↦ rw kept ((h, kept), kept_by P q ids rest)
  | inr dropped ↦ rw dropped (kept_by P q ids rest)
]

-- the video was asked for, and is not in the cache
abbrev pub IsMiss : List String → Db → String → Type 0
IsMiss video_ids db id = WasAsked video_ids id × (find_video db id ≡ none)

miss :
    (db : Db) (video_ids : List String) (id : String)
    → WasAsked video_ids id
    → not (has id (map (λ u. u.video_id) (found_videos db video_ids))) ≡ true
    → IsMiss video_ids db id
miss db video_ids id asked missing = elim (Option-cases (find_video db id)) [
  | inl none_there ↦ (asked, none_there)
  | inr (v, found) ↦ absurd (ground (arith, missing, found-has db id v video_ids found asked))
]

misses-IsMiss :
    (db : Db) (video_ids : List String)
    → All (IsMiss video_ids db) (misses_of (found_videos db video_ids) video_ids)
misses-IsMiss db video_ids =
    All-map (λ id h. miss db video_ids id h.0 h.1) _
      (kept_by (WasAsked video_ids)
        (λ id. not (has id (map (λ v. v.video_id) (found_videos db video_ids)))) video_ids
        (all_asked video_ids))

-- While CHECK_VIDEOS is answered, the only requests are GET requests with no body, each for the first
-- four hexadecimal digits of the SHA-256 of the id of a video that was asked for and is not in the
-- cache. The trace only grows.
pub check_all-OnlyLookups :
    (p : Platform) (video_ids : List String) (w : World)
    → OnlyLookups p (IsMiss video_ids w.db) w.trace (check_all p video_ids w).1
unfolding check_all Cache.get_videos
check_all-OnlyLookups p video_ids w =
    let misses = misses_of (found_videos w.db video_ids) video_ids in
    let groups = group_by_prefix (prefix_of p) misses [] in
    (Keeps-bind (check_prefixes p groups []) _
        (check_prefixes-OnlyLookups p (IsMiss video_ids w.db) w.trace groups []
          (group-IsNamed p (IsMiss video_ids w.db) misses [] (misses-IsMiss w.db video_ids) tt))
        (λ results.
          Keeps-pure (List.◌++◌ (found_videos w.db video_ids) (map cached_of_result results)))).at
      w (record { later = []; at = refl; lookups = tt })
