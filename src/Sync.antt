-- ===== src/Sync.antt =====
-- realtube-extension/src/background/sync.ts: delta sync, full sync, and their schedule.
pub mod Changes
pub mod Delta
pub mod Full
pub mod RateLimit
pub mod Schedule
pub mod Keeps
use real_tube.Prelude.{
  ℕ, zero, suc, ◌+◌, ◌-◌, ◌*◌, String, ◌==◌, Bool, true, false, Option, none, some, List, [], ◌∷◌,
  ◌++◌, map, length, ltb, if◌then◌else◌,
}
use text.Mathlib.Text.{find?}
use real_tube.Records.{
  Categories, CachedVideo, CachedChannel, VideoResult, VideoChange, ChannelChange, ChannelResult,
  Action, update, remove, SyncDeltaResponse, SyncFullResponse,
}
use real_tube.Effects.{ok, err, pure, throw, gets, modify, try_catch, ◌>>=◌, ◌>>◌}
use real_tube.Browser.{Platform, World, M, truthy}
use real_tube.ApiClient
use real_tube.Cache

abbrev pub delta_sync_interval_ms : ℕ
delta_sync_interval_ms = 30 * 60 * 1000

abbrev pub full_sync_interval_ms : ℕ
full_sync_interval_ms = 24 * 60 * 60 * 1000

abbrev pub meta_last_delta_sync : String
meta_last_delta_sync = "lastDeltaSync"

abbrev pub meta_last_full_sync : String
meta_last_full_sync = "lastFullSync"

-- err.message.includes("429")
unfoldable pub is_rate_limit : String → Bool
is_rate_limit message = elim (find? message "429") [ none ↦ false | some at ↦ true ]

pub record DeltaCounts : Type 0 where
  pub videos_updated : ℕ
  pub videos_removed : ℕ
  pub channels_updated : ℕ
  pub channels_removed : ℕ

pub record FullCounts : Type 0 where
  pub video_count : ℕ
  pub channel_count : ℕ

abbrev pub no_changes : DeltaCounts
no_changes = record {
  videos_updated = 0;
  videos_removed = 0;
  channels_updated = 0;
  channels_removed = 0;
}

-- What a loop over changes does with one of them.
pub data Step (V : Type 0) : Type 0 where
  deletes : String → Step V
  stores : V → Step V
  skips : Step V

video_step : String → String → Action → Option ℕ → Option Categories → Step CachedVideo
video_step timestamp video_id remove score categories = deletes video_id
video_step timestamp video_id update (some score) (some categories) = stores (record {
  video_id = video_id;
  score = score;
  categories = categories;
  channel_id = "";
  last_updated = timestamp;
})
video_step timestamp video_id update _ _ = skips

-- The tests on `action`, `score` and `categories` of a video change.
unfoldable pub step_of_video : String → VideoChange → Step CachedVideo
unfolding video_step
step_of_video timestamp c = video_step timestamp c.video_id c.action c.score c.categories

channel_step : String → String → Action → Option ℕ → Step CachedChannel
channel_step timestamp channel_id remove score = deletes channel_id
channel_step timestamp channel_id update (some score) =
    stores (record {
      channel_id = channel_id;
      score = score;
      auto_flag = false;
      last_updated = timestamp;
    })
channel_step timestamp channel_id update none = skips

-- The tests on `action` and `score` of a channel change.
unfoldable pub step_of_channel : String → ChannelChange → Step CachedChannel
unfolding channel_step
step_of_channel timestamp c = channel_step timestamp c.channel_id c.action c.score

-- A loop over changes, from the updates collected so far and the counts of updates and removals.
abbrev pub Loop : Type 0 → Type 0
Loop V = (upserts : List V) (updated removed : ℕ) → M (List V × ℕ × ℕ)

module _ {V : Type 0} (delete : String → M (Unit {0})) where
  run_step : Step V → Loop V → Loop V
  run_step (deletes id) rest upserts updated removed =
      delete id >> rest upserts updated (removed + 1)
  run_step (stores v) rest upserts updated removed = rest (upserts ++ v ∷ []) (updated + 1) removed
  run_step skips rest upserts updated removed = rest upserts updated removed

  -- Removals are applied at once, updates are collected in order.
  pub apply_changes : List (Step V) → Loop V
  apply_changes [] upserts updated removed = pure (upserts, updated, removed)
  apply_changes (step ∷ steps) upserts updated removed =
      run_step step (apply_changes steps) upserts updated removed

-- what `performDeltaSync` does with the server's answer
pub apply_delta : SyncDeltaResponse → M DeltaCounts
apply_delta delta = do
  (video_upserts, videos_updated, videos_removed) ←
      apply_changes Cache.delete_video (map (step_of_video delta.sync_timestamp) delta.videos) [] 0
        0
  Cache.put_videos video_upserts
  (channel_upserts, channels_updated, channels_removed) ←
      apply_changes Cache.delete_channel (map (step_of_channel delta.sync_timestamp) delta.channels)
        [] 0 0
  Cache.put_channels channel_upserts
  Cache.set_meta meta_last_delta_sync delta.sync_timestamp
  pure (record {
    videos_updated = videos_updated;
    videos_removed = videos_removed;
    channels_updated = channels_updated;
    channels_removed = channels_removed;
  })

abbrev pub cached_of_result : VideoResult → CachedVideo
cached_of_result v = record {
  video_id = v.video_id;
  score = v.score;
  categories = v.categories;
  channel_id = v.channel_id;
  last_updated = v.last_updated;
}

abbrev pub cached_of_channel : ChannelResult → CachedChannel
cached_of_channel c = record {
  channel_id = c.channel_id;
  score = c.score;
  auto_flag = false;
  last_updated = c.last_updated;
}

-- The answer of a `try` whose `catch` returns early for a rate limit: `none` is the early return.
abbrev pub unless_rate_limited : {A : Type 0} → M A → M (Option A)
unless_rate_limited m =
    try_catch (m >>= λ a. pure (some a))
      λ message. if is_rate_limit message then pure none else throw message

-- `text || fallback`
abbrev pub text_or : String → String → String
text_or String.[] fallback = fallback
text_or (String.◌∷◌ c s) fallback = String.◌∷◌ c s

module _ (p : Platform) where
  -- what `performFullSync` does with the server's answer
  unfoldable pub apply_full : SyncFullResponse → M FullCounts
  apply_full full = do
    Cache.clear_videos
    Cache.clear_channels
    let videos = map cached_of_result full.videos
    Cache.put_videos videos
    let channels = map cached_of_channel full.channels
    Cache.put_channels channels
    now ← gets (λ w. text_or full.generated_at (p.iso_string (p.now w.trace)))
    Cache.set_meta meta_last_full_sync now
    Cache.set_meta meta_last_delta_sync now
    pure (record { video_count = length videos; channel_count = length channels })

  -- `lastSync || new Date(0).toISOString()`
  abbrev pub since_of : Option String → String
  since_of none = p.iso_string 0
  since_of (some last_sync) = last_sync

  unfoldable pub perform_delta_sync : M DeltaCounts
  perform_delta_sync = do
    last_sync ← Cache.get_meta meta_last_delta_sync
    answer ← unless_rate_limited (ApiClient.sync_delta p (since_of (truthy last_sync)))
    elim answer [ none ↦ pure no_changes | some delta ↦ apply_delta delta ]

  unfoldable pub perform_full_sync : M FullCounts
  perform_full_sync = do
    answer ← unless_rate_limited (ApiClient.sync_full p)
    elim answer [
      | none ↦ pure (record { video_count = 0; channel_count = 0 })
      | some full ↦ apply_full full
    ]

  -- `Date.now() - new Date(lastFull).getTime() > FULL_SYNC_INTERVAL_MS`; a comparison with NaN is
  -- false, and so is one with the negative difference to a time that is still to come
  abbrev pub is_overdue : Option ℕ → ℕ → Bool
  is_overdue none now = false
  is_overdue (some last) now = ltb full_sync_interval_ms (now - last)

  abbrev pub needs_full_sync : Option String → ℕ → Bool
  needs_full_sync none now = true
  needs_full_sync (some last_full) now = is_overdue (p.date_ms last_full) now

  abbrev discard : {A : Type 0} → M A → M (Unit {0})
  discard m = m >>= λ a. pure tt

  unfoldable pub auto_sync : M (Unit {0})
  auto_sync =
      try_catch
        (do
          last_full ← Cache.get_meta meta_last_full_sync
          now ← gets (λ w. p.now w.trace)
          if needs_full_sync (truthy last_full) now
              then discard perform_full_sync
              else discard perform_delta_sync)
        λ message. pure tt

pub record SyncStatus : Type 0 where
  pub last_delta_sync : Option String
  pub last_full_sync : Option String
  pub video_count : ℕ
  pub channel_count : ℕ

unfoldable pub get_sync_status : M SyncStatus
get_sync_status = do
  last_delta_sync ← Cache.get_meta meta_last_delta_sync
  last_full_sync ← Cache.get_meta meta_last_full_sync
  video_count ← Cache.get_video_count
  channel_count ← Cache.get_channel_count
  pure (record {
    last_delta_sync = last_delta_sync;
    last_full_sync = last_full_sync;
    video_count = video_count;
    channel_count = channel_count;
  })

unfoldable pub start_sync_schedule : World → World
start_sync_schedule w = elim w.sync_timer [
  | some interval ↦ w
  | none ↦ record w { startup_sync_timer = some 5000; sync_timer = some delta_sync_interval_ms }
]

unfoldable pub stop_sync_schedule : World → World
stop_sync_schedule w = record w { sync_timer = none }
