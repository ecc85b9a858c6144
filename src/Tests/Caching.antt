-- ===== src/Tests/Caching.antt =====
-- The syncs and the cache at concrete inputs.
use real_tube.Prelude.{◌⊎◌, String, ◌≡◌, refl, false, none, some, List, [], ◌∷◌, map, if◌then◌else◌}
use real_tube.Prelude.Digits.{show}
use real_tube.Effects.{ok, err}
use real_tube.ObjectStore
use real_tube.ObjectStore.{put}
use real_tube.ObjectStore.Laws.{last_with, or_else}
use real_tube.ObjectStore.Sorted.{get_ext}
use real_tube.ApiClient
use real_tube.Cache.{video_key, channel_key, vote_key, find_video, find_channel, find_meta}
use real_tube.Sync
use real_tube.Sync.{
  perform_delta_sync, perform_full_sync, auto_sync, is_rate_limit, no_changes, cached_of_result,
  cached_of_channel, meta_last_delta_sync, meta_last_full_sync, since_of,
}
use real_tube.Sync.Changes.{updates, removes}
use real_tube.Sync.Delta.{
  since, video_steps, channel_steps, delta_counts, in_order, removed_late, delta_sync_lem,
  delta_sync_in_order,
}
use real_tube.Sync.Full.{full_counts, full_sync_lem}
use real_tube.Sync.Schedule.{auto_sync_lem, IsDue, IsRecent}
use real_tube.Cache.Refinement.{
  Write, put_videos, delete_video, set_meta, clear_pending_votes, perform_all, view, replay,
  perform_all-replay,
}
use real_tube.Browser.{Platform, World}
use real_tube.Tests.Fixtures.{
  clip, service, refusing, waiting, changes, everything, early_vote, late_vote,
}

-- the state once the server has answered
abbrev after_delta : Platform → World
after_delta p = (ApiClient.sync_delta p (since p waiting) waiting).1

abbrev after_full : Platform → World
after_full p = (ApiClient.sync_full p waiting).1

delta_answer :
    ApiClient.sync_delta service (since service waiting) waiting ≡ (ok changes, after_delta service)
unfolding ApiClient.sync_delta ApiClient.get_config ApiClient.resolve_base_url
    ApiClient.fetch_with_retry ApiClient.fetch_from ApiClient.next_attempt
delta_answer = refl

full_answer : ApiClient.sync_full service waiting ≡ (ok everything, after_full service)
unfolding ApiClient.sync_full ApiClient.get_config ApiClient.resolve_base_url
    ApiClient.fetch_with_retry ApiClient.fetch_from ApiClient.next_attempt
full_answer = refl

full_refusal :
    ApiClient.sync_full (refusing 503) waiting
    ≡ (err "Sync full failed: 503", after_full (refusing 503))
unfolding ApiClient.sync_full ApiClient.get_config ApiClient.resolve_base_url
    ApiClient.fetch_with_retry ApiClient.fetch_from ApiClient.next_attempt show
full_refusal = refl

delta_sync_example :
    ((perform_delta_sync service waiting).0 ≡ ok (delta_counts changes))
    × ((k : String)
        → find_video (perform_delta_sync service waiting).1.db k
          ≡ or_else
              (last_with video_key k (updates (video_steps changes)))
              (if removes k (video_steps changes) then none else find_video waiting.db k))
    × ((k : String)
        → find_channel (perform_delta_sync service waiting).1.db k
          ≡ or_else
              (last_with channel_key k (updates (channel_steps changes)))
              (if removes k (channel_steps changes) then none else find_channel waiting.db k))
    × (find_meta (perform_delta_sync service waiting).1.db meta_last_delta_sync
        ≡ some "2026-01-02T00:00:00Z")
    × ((perform_delta_sync service waiting).1.db.pending_votes ≡ early_vote ∷ late_vote ∷ [])
delta_sync_example = delta_sync_lem service waiting changes (after_delta service) delta_answer

videos_in_order : removed_late video_key "clip" (video_steps changes) ≡ false
unfolding removed_late Sync.step_of_video removes
videos_in_order = refl

channels_in_order : removed_late channel_key "clip" (channel_steps changes) ≡ false
unfolding removed_late Sync.step_of_channel removes
channels_in_order = refl

delta_sync_in_order_example :
    (find_video (perform_delta_sync service waiting).1.db "clip"
      ≡ in_order video_key "clip" (video_steps changes) (find_video waiting.db "clip"))
    × (find_channel (perform_delta_sync service waiting).1.db "clip"
        ≡ in_order channel_key "clip" (channel_steps changes) (find_channel waiting.db "clip"))
delta_sync_in_order_example =
    delta_sync_in_order service waiting changes (after_delta service) "clip" delta_answer
      videos_in_order channels_in_order

full_sync_example :
    ((perform_full_sync service waiting).0 ≡ ok (full_counts service everything))
    × ((k : String)
        → find_video (perform_full_sync service waiting).1.db k
          ≡ last_with video_key k (map cached_of_result everything.videos))
    × ((k : String)
        → find_channel (perform_full_sync service waiting).1.db k
          ≡ last_with channel_key k (map cached_of_channel everything.channels))
    × (find_meta (perform_full_sync service waiting).1.db meta_last_full_sync
        ≡ some "2026-01-03T00:00:00Z")
    × (find_meta (perform_full_sync service waiting).1.db meta_last_delta_sync
        ≡ some "2026-01-03T00:00:00Z")
    × ((perform_full_sync service waiting).1.db.pending_votes ≡ early_vote ∷ late_vote ∷ [])
full_sync_example = full_sync_lem service waiting everything (after_full service) full_answer

auto_sync_example :
    (IsDue service waiting
      × (auto_sync service waiting ≡ (ok tt, (perform_full_sync service waiting).1)))
    ⊎ (IsRecent service waiting
        × (auto_sync service waiting ≡ (ok tt, (perform_delta_sync service waiting).1)))
auto_sync_example = auto_sync_lem service waiting

same_reads :
    (k : String)
    → ObjectStore.get vote_key k (put vote_key early_vote (put vote_key late_vote []))
      ≡ ObjectStore.get vote_key k (put vote_key late_vote (put vote_key early_vote []))
unfolding put
same_reads k = refl

get_ext_example :
    put vote_key early_vote (put vote_key late_vote [])
    ≡ put vote_key late_vote (put vote_key early_vote [])
unfolding put
get_ext_example =
    get_ext vote_key (put vote_key early_vote (put vote_key late_vote []))
      (put vote_key late_vote (put vote_key early_vote [])) ((refl, tt), (tt, tt))
      ((refl, tt), (tt, tt)) same_reads

abbrev writes : List Write
writes =
    put_videos (cached_of_result clip ∷ [])
    ∷ delete_video "talk"
    ∷ set_meta "lastFullSync" "2026-01-01T00:00:00Z"
    ∷ clear_pending_votes
    ∷ []

perform_all-replay_example :
    ((perform_all writes waiting).0 ≡ ok tt)
    × (view (perform_all writes waiting).1 ≡ replay writes (view waiting))
perform_all-replay_example = perform_all-replay writes waiting
