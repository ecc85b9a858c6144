-- ===== src/Sync/Full.antt =====
-- What a full sync does to the cache: `performFullSync` of sync.ts, with any answer of the server.
use real_tube.Prelude.{
  String, ◌≡◌, refl, sym, ap, ◌∙◌, Option, Bool-cases, inl, inr, none, some, List, [], map, length,
  if◌then◌else◌,
}
use real_tube.Records.{SyncFullResponse}
use real_tube.Effects.{Result, ok, err}
use real_tube.ObjectStore.{get, put, put_all}
use real_tube.ObjectStore.Laws.{or_else, last_with, get-put, get-put_all}
use real_tube.Browser.{Db, World, Platform}
use real_tube.ApiClient
use real_tube.ApiClient.Frame.{sync_full-Keeps}
use real_tube.Cache.{
  video_key, channel_key, meta_key, find_video, find_channel, find_meta, clear_videos,
  clear_channels, set_meta,
}
use real_tube.Sync.{
  cached_of_result, cached_of_channel, text_or, apply_full, meta_last_delta_sync,
  meta_last_full_sync, FullCounts, is_rate_limit, perform_full_sync,
}
use real_tube.Sync.Delta.{put_videos_lem, put_channels_lem}

or_else-none {ℓ} : {A : Type ℓ} (o : Option A) → or_else o none ≡ o
or_else-none none = refl
or_else-none (some a) = refl

get_after_clear :
    {V : Type 0} (key : V → String) (k : String) (vs : List V)
    → get key k (put_all key vs []) ≡ last_with key k vs
unfolding get
get_after_clear key k vs = get-put_all key k vs [] ∙ or_else-none _

abbrev pub no_counts : FullCounts
no_counts = record { video_count = 0; channel_count = 0 }

module _ (p : Platform) where
  -- the timestamp of a full sync: `data.generatedAt || new Date().toISOString()`
  abbrev pub synced_at : SyncFullResponse → World → String
  synced_at full w = text_or full.generated_at (p.iso_string (p.now w.trace))

  abbrev full_db : SyncFullResponse → World → Db
  full_db full w =
      let at = synced_at full w in
      record w.db {
        videos = put_all video_key (map cached_of_result full.videos) [];
        channels = put_all channel_key (map cached_of_channel full.channels) [];
        meta =
            put meta_key (record { key = meta_last_delta_sync; value = at })
              (put meta_key (record { key = meta_last_full_sync; value = at }) w.db.meta);
      }

  abbrev pub full_counts : SyncFullResponse → FullCounts
  full_counts full = record {
    video_count = length (map cached_of_result full.videos);
    channel_count = length (map cached_of_channel full.channels);
  }

  apply_full_lem :
      (full : SyncFullResponse) (w : World)
      → apply_full p full w ≡ (ok (full_counts full), record w { db = full_db full w })
  unfolding apply_full set_meta clear_videos clear_channels
  apply_full_lem full w = simp (put_videos_lem, put_channels_lem)

  module _ (w : World) where
    abbrev full_settled : Result SyncFullResponse × World → Result FullCounts × World
    full_settled (ok full, w₁) = (ok (full_counts full), record w₁ { db = full_db full w₁ })
    full_settled (err message, w₁) =
        ((if is_rate_limit message then ok no_counts else err message), w₁)

    full_settled_lem :
        (x : Result SyncFullResponse × World)
        → ApiClient.sync_full p w ≡ x
        → perform_full_sync p w ≡ full_settled x
    unfolding perform_full_sync
    full_settled_lem (ok full, w₁) e = rw e (apply_full_lem full w₁)
    full_settled_lem (err message, w₁) e = rw e (elim (Bool-cases (is_rate_limit message)) [
      | inl limited ↦ rw limited
      | inr other ↦ rw other
    ])

    db_of_answer :
        {r : Result SyncFullResponse} {w₁ : World}
        → ApiClient.sync_full p w ≡ (r, w₁)
        → w₁.db ≡ w.db
    db_of_answer e =
        sym (ap (λ x. x.1.db) e)
        ∙ (sync_full-Keeps {P = λ w'. w'.db ≡ w.db} (record { at = λ w' url t h. h }) p).at w refl

    -- After a full sync that the server has answered, the caches of videos and channels read as the
    -- answer alone: nothing of what was cached is left. Both timestamps are that of the answer, or
    -- the present time if it has none. Pending votes are untouched.
    pub full_sync_lem :
        (full : SyncFullResponse) (w₁ : World)
        → ApiClient.sync_full p w ≡ (ok full, w₁)
        → ((perform_full_sync p w).0 ≡ ok (full_counts full))
          × ((k : String)
              → find_video (perform_full_sync p w).1.db k
                ≡ last_with video_key k (map cached_of_result full.videos))
          × ((k : String)
              → find_channel (perform_full_sync p w).1.db k
                ≡ last_with channel_key k (map cached_of_channel full.channels))
          × (find_meta (perform_full_sync p w).1.db meta_last_full_sync ≡ some (synced_at full w₁))
          × (find_meta (perform_full_sync p w).1.db meta_last_delta_sync ≡ some (synced_at full w₁))
          × ((perform_full_sync p w).1.db.pending_votes ≡ w.db.pending_votes)
    full_sync_lem full w₁ e = rw (full_settled_lem (ok full, w₁) e) (
      refl,
      λ k. get_after_clear video_key k (map cached_of_result full.videos),
      λ k. get_after_clear channel_key k (map cached_of_channel full.channels),
      simp (get-put meta_key),
      rw (get-put meta_key),
      ap (λ db. db.pending_votes) (db_of_answer e),
    )
