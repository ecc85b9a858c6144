-- ===== src/Tests/Lookups.antt =====
-- Two lookups of CHECK_VIDEOS that overlap, and the fallback of the UUID, at concrete inputs.
use real_tube.Prelude.{ℕ, String, ◌≡◌, Option, none, some, refl, List, [], ◌∷◌, arith}
use real_tube.Records.{VideoResult}
use real_tube.ObjectStore.{get, put}
use real_tube.Cache.{video_key}
use real_tube.Background.{group_by_prefix, add_to_prefix, check_prefixes}
use real_tube.Background.Overlap.{
  Lookups, reading, Run, begins, goes, this, other, answered, pushed, written, starting,
}
use real_tube.Background.Overlap.Turns.{only}
use real_tube.Sync.{cached_of_result}
use real_tube.Background.Overlap.Handler.{AllCome, overlap-check_prefixes}
use real_tube.ApiClient
use real_tube.Effects.{ok}
use real_tube.Browser.{World, truthy}
use real_tube.Tests.Fixtures.{service, waiting, clip, cached_talk}
use real_tube.Identity.{uuid_template, fallback_uuid}
use real_tube.Identity.Uuid.{Matches, fallback_uuid-Matches}

abbrev sevens : ℕ → ℕ
sevens i = 7

fallback_uuid_example : Matches uuid_template (fallback_uuid sevens)
fallback_uuid_example = fallback_uuid-Matches sevens (λ i. omega arith)

-- the prefix of a hash that is the id itself
abbrev itself : String → String
itself id = id

-- the server answers every lookup with `clip`
abbrev knows_clip : String → Option (List VideoResult)
knows_clip prefix = some (clip ∷ [])

looks_up :
    (prefix : String) (w : World)
    → (ApiClient.lookup_videos_by_prefix service prefix w).0 ≡ ok (clip ∷ [])
unfolding ApiClient.lookup_videos_by_prefix ApiClient.get_config ApiClient.fetch_with_retry
    ApiClient.fetch_from ApiClient.next_attempt ApiClient.resolve_base_url
looks_up prefix w = go (truthy w.cached_base_url) refl
  where
    go :
        (o : Option String)
        → truthy w.cached_base_url ≡ o
        → (ApiClient.lookup_videos_by_prefix service prefix w).0 ≡ ok (clip ∷ [])
    go none e = rw e refl
    go (some url) e = rw e refl

all_come : AllCome service knows_clip (group_by_prefix itself ("clip" ∷ "talk" ∷ []) []) [] waiting
unfolding group_by_prefix add_to_prefix
all_come = (looks_up "clip" _, (looks_up "talk" _, tt))

abbrev clip_end : Lookups
clip_end = record {
  fetches = reading [] ∷ reading [] ∷ [];
  results = clip ∷ [];
  videos = cached_of_result clip ∷ cached_talk ∷ [];
}

-- the lookup for `talk` ends before the other is answered
one_after_all :
    Run knows_clip
      (starting (group_by_prefix itself ("clip" ∷ "talk" ∷ []) []) waiting.db.videos)
      clip_end
unfolding group_by_prefix add_to_prefix put
one_after_all =
    goes (goes (goes (goes begins (other (this answered))) (this answered)) (this pushed))
      (this written)

overlap-check_prefixes_example :
    (results : List VideoResult) × ((check_prefixes service
        (group_by_prefix itself ("clip" ∷ "talk" ∷ []) [])
        []
        waiting).0
      ≡ ok results)
    × (only "clip" clip_end.results ≡ only "clip" results)
    × (get video_key "clip" clip_end.videos
        ≡ get video_key "clip"
            (check_prefixes service
              (group_by_prefix itself ("clip" ∷ "talk" ∷ []) [])
              []
              waiting).1.db.videos)
overlap-check_prefixes_example =
    overlap-check_prefixes service knows_clip itself ("clip" ∷ "talk" ∷ []) waiting clip_end
      all_come one_after_all tt "clip"
