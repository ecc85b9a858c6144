-- ===== src/Background/Overlap/Handler.antt =====
-- The handler of CHECK_VIDEOS as `Background` has it, one lookup after the other, and the lookups that
-- overlap come to the same.
use mathlib.Core.List
use real_tube.Prelude.{
  String, ◌≡◌, refl, sym, ap, ◌∙◌, inl, inr, Option, none, some, List, [], ◌∷◌, ◌++◌, map, has,
  Bool-cases,
}
use real_tube.Records.{CachedVideo, VideoResult}
use real_tube.Effects.{Result, ok, err, pure, continue, handle}
use real_tube.Browser.{Platform, World}
use real_tube.ObjectStore.{ObjectStore, get, put_all}
use real_tube.ApiClient
use real_tube.ApiClient.Frame.{IsFramed, lookup_videos_by_prefix-Keeps}
use real_tube.Cache
use real_tube.Cache.{video_key}
use real_tube.Sync.{cached_of_result}
use real_tube.Background.{
  PrefixMap, group_by_prefix, requested_of, collect, check_prefix, check_prefixes,
}
use real_tube.Background.Overlap.{Lookups, Run, expected, starting, AllEnded, in_order}
use real_tube.Background.Overlap.Turns.{only}
use real_tube.Background.Overlap.Results.{overlap_lem}

-- the records of the results, stored in their order
abbrev store_all : List VideoResult → ObjectStore CachedVideo → ObjectStore CachedVideo
store_all results videos = put_all video_key (map cached_of_result results) videos

store_all-++ :
    (xs ys : List VideoResult) (videos : ObjectStore CachedVideo)
    → store_all (xs ++ ys) videos ≡ store_all ys (store_all xs videos)
unfolding put_all
store_all-++ [] ys videos = refl
store_all-++ (x ∷ xs) ys videos = store_all-++ xs ys _

-- What a lookup comes to in a state: the videos, or some error.
abbrev pub ComesTo : Option (List VideoResult) → Result (List VideoResult) → Type 0
ComesTo none r = (message : String) × (r ≡ err message)
ComesTo (some videos) r = r ≡ ok videos

module _ (p : Platform) where
  collected :
      (ids : List String) (videos results : List VideoResult) (w : World)
      → ((collect p ids videos results w).0 ≡ ok (results ++ requested_of ids videos))
        × ((collect p ids videos results w).1.db.videos
            ≡ store_all (requested_of ids videos) w.db.videos)
  unfolding collect Cache.put_video put_all
  collected ids [] results w = (ap ok (sym (List.append-nil results)), refl)
  collected ids (video ∷ videos) results w = elim (Bool-cases (has video.video_id ids)) [
    | inl here ↦ rw here (
        let (e, stored) = collected ids videos (results ++ video ∷ []) _ in
        (e ∙ ap ok (List.append_assoc results (video ∷ []) (requested_of ids videos)), stored))
    | inr elsewhere ↦ rw elsewhere (collected ids videos results w)
  ]

  -- a request leaves the cache alone
  pub same_videos :
      (prefix : String) (w : World)
      → (ApiClient.lookup_videos_by_prefix p prefix w).1.db.videos ≡ w.db.videos
  same_videos prefix w = (lookup_videos_by_prefix-Keeps framed p prefix).at w refl
    where
      framed : IsFramed (λ w₁. w₁.db.videos ≡ w.db.videos)
      framed = record { at = λ w₁ url t h. h }

  module _ (answer : String → Option (List VideoResult)) where
    -- each lookup of the handler, in the state in which it is made, comes to its answer
    abbrev pub AllCome : PrefixMap → List VideoResult → World → Type 0
    AllCome [] results w = Unit
    AllCome ((prefix, ids) ∷ groups) results w =
        ComesTo (answer prefix) (ApiClient.lookup_videos_by_prefix p prefix w).0
        × AllCome groups (results ++ expected answer prefix ids)
            (check_prefix p prefix ids results w).1

    -- what the lookup of a prefix adds
    abbrev Adds :
        List VideoResult → List VideoResult → World → Result (List VideoResult) × World → Type 0
    Adds added results w x =
        (x.0 ≡ ok (results ++ added)) × (x.1.db.videos ≡ store_all added w.db.videos)

    settled :
        (o : Option (List VideoResult)) (ids : List String) (results : List VideoResult) (w : World)
        (x : Result (List VideoResult) × World)
        → ComesTo o x.0
        → x.1.db.videos ≡ w.db.videos
        → Adds
            (elim o as (λ (_ : Option (List VideoResult)). List VideoResult) [
              | none ↦ []
              | some videos ↦ requested_of ids videos
            ])
            results
            w
            (let (r, w₁) = continue x.0 (λ videos. collect p ids videos results) x.1 in
              handle r (λ message. pure results) w₁)
    unfolding put_all
    settled none ids results w (r, w₁) (message, e) same =
        rw e (ap ok (sym (List.append-nil results)), same)
    settled (some videos) ids results w (r, w₁) e same =
        let (found, stored) = collected ids videos results w₁ in
        rw e (rw found (refl, stored ∙ ap (store_all (requested_of ids videos)) same))

    check_prefix-Adds :
        (prefix : String) (ids : List String) (results : List VideoResult) (w : World)
        → ComesTo (answer prefix) (ApiClient.lookup_videos_by_prefix p prefix w).0
        → Adds (expected answer prefix ids) results w (check_prefix p prefix ids results w)
    unfolding check_prefix
    check_prefix-Adds prefix ids results w h =
        settled (answer prefix) ids results w (ApiClient.lookup_videos_by_prefix p prefix w) h
          (same_videos prefix w)

    check_prefixes-Adds :
        (groups : PrefixMap) (results : List VideoResult) (w : World)
        → AllCome groups results w
        → Adds (in_order answer groups) results w (check_prefixes p groups results w)
    unfolding check_prefixes put_all
    check_prefixes-Adds [] results w h = (ap ok (sym (List.append-nil results)), refl)
    check_prefixes-Adds ((prefix, ids) ∷ groups) results w (h, hs) =
        let (e, stored) = check_prefix-Adds prefix ids results w h in
        let (es, all_stored) =
          check_prefixes-Adds groups (results ++ expected answer prefix ids)
            (check_prefix p prefix ids results w).1 hs in
        rw e (
          es
              ∙ ap ok
                  (List.append_assoc results (expected answer prefix ids) (in_order answer groups)),
          all_stored
              ∙ ap (store_all (in_order answer groups)) stored
              ∙ sym
                  (store_all-++ (expected answer prefix ids) (in_order answer groups) w.db.videos),
        )

    -- The handler makes the lookups one after the other. However they overlap instead, where each comes
    -- to what it comes to in the handler, once all have ended each video has the same results in the
    -- same order, and the cache reads the same for each video.
    pub overlap-check_prefixes :
        (hash : String → String) (ids : List String) (w : World) (t : Lookups)
        → AllCome (group_by_prefix hash ids []) [] w
        → Run answer (starting (group_by_prefix hash ids []) w.db.videos) t
        → AllEnded t.fetches
        → (id : String)
        → (results : List VideoResult) × ((check_prefixes p (group_by_prefix hash ids []) [] w).0
            ≡ ok results)
          × (only id t.results ≡ only id results)
          × (get video_key id t.videos
              ≡ get video_key id (check_prefixes p (group_by_prefix hash ids []) [] w).1.db.videos)
    overlap-check_prefixes hash ids w t all run end id =
        let groups = group_by_prefix hash ids [] in
        let (answered, stored) = check_prefixes-Adds groups [] w all in
        let (same, reads) = overlap_lem answer hash ids w.db.videos t run end id in
        (in_order answer groups, answered, same, reads ∙ ap (get video_key id) (sym stored))
