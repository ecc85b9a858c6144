-- ===== src/Sync/Delta.antt =====
-- What a delta sync does to the cache: `performDeltaSync` of sync.ts, with any answer of the server.

use native.Mathlib.Nat.{zero-add}
use real_tube.Prelude.{
  String, ◌==◌, ◌≡◌, refl, sym, ap, ◌∙◌, Bool, false, ◌||◌, ◌&&◌, Option, Bool-cases, inl, inr,
  none, some, List, [], ◌∷◌, map, arith, length, if◌then◌else◌,
}
use real_tube.Records.{CachedVideo, CachedChannel, SyncDeltaResponse}
use real_tube.Effects.{Result, ok, err}
use real_tube.ObjectStore.{put, put_all}
use real_tube.ObjectStore.Laws.{or_else, last_with, get-put}
use real_tube.Browser.{Db, World, Platform, truthy}
use real_tube.ApiClient
use real_tube.ApiClient.Frame.{sync_delta-Keeps}
use real_tube.Cache.{
  video_key, channel_key, meta_key, find_video, find_channel, find_meta, put_videos, put_channels,
  delete_video, delete_channel, set_meta, get_meta,
}
use real_tube.Sync.{
  Step, deletes, stores, skips, step_of_video, step_of_channel, apply_delta, meta_last_delta_sync,
  DeltaCounts, no_changes, is_rate_limit, perform_delta_sync, since_of,
}
use real_tube.Sync.Changes.{
  updates, removes, removals, after_changes, get-after_changes, Table, apply_changes_lem,
}

videos_table : Table CachedVideo
unfolding delete_video
videos_table = record {
  key = video_key;
  of = λ db. db.videos;
  with_store = λ db s. record db { videos = s };
  delete_record = delete_video;
  of-with = λ db s. refl;
  with-with = λ db s t. refl;
  with-of = λ db. refl;
  delete_record_lem = λ id w. refl;
}

channels_table : Table CachedChannel
unfolding delete_channel
channels_table = record {
  key = channel_key;
  of = λ db. db.channels;
  with_store = λ db s. record db { channels = s };
  delete_record = delete_channel;
  of-with = λ db s. refl;
  with-with = λ db s t. refl;
  with-of = λ db. refl;
  delete_record_lem = λ id w. refl;
}

pub put_videos_lem :
    (vs : List CachedVideo) (w : World)
    → put_videos vs w
      ≡ (ok tt, record w { db = record w.db { videos = put_all video_key vs w.db.videos } })
unfolding put_videos put_all
put_videos_lem [] w = refl
put_videos_lem (v ∷ vs) w = refl

pub put_channels_lem :
    (cs : List CachedChannel) (w : World)
    → put_channels cs w
      ≡ (ok tt, record w { db = record w.db { channels = put_all channel_key cs w.db.channels } })
unfolding put_channels put_all
put_channels_lem [] w = refl
put_channels_lem (v ∷ vs) w = refl

abbrev pub video_steps : SyncDeltaResponse → List (Step CachedVideo)
video_steps delta = map (step_of_video delta.sync_timestamp) delta.videos

abbrev pub channel_steps : SyncDeltaResponse → List (Step CachedChannel)
channel_steps delta = map (step_of_channel delta.sync_timestamp) delta.channels

-- the database after the changes of a delta
abbrev delta_db : SyncDeltaResponse → Db → Db
delta_db delta db = record db {
  videos = after_changes video_key (video_steps delta) db.videos;
  channels = after_changes channel_key (channel_steps delta) db.channels;
  meta = put meta_key (record { key = meta_last_delta_sync; value = delta.sync_timestamp }) db.meta;
}

abbrev pub delta_counts : SyncDeltaResponse → DeltaCounts
delta_counts delta = record {
  videos_updated = length (updates (video_steps delta));
  videos_removed = removals (video_steps delta);
  channels_updated = length (updates (channel_steps delta));
  channels_removed = removals (channel_steps delta);
}

apply_delta_lem :
    (delta : SyncDeltaResponse) (w : World)
    → apply_delta delta w ≡ (ok (delta_counts delta), record w { db = delta_db delta w.db })
unfolding apply_delta set_meta after_changes videos_table channels_table
apply_delta_lem delta w = simp (
  apply_changes_lem videos_table,
  apply_changes_lem channels_table,
  put_videos_lem,
  put_channels_lem,
  zero-add,
)

-- what is read of a key if the changes are applied one by one, in their order
abbrev read_after : {V : Type 0} → (V → String) → String → Step V → Option V → Option V
read_after key k (deletes id) o = if id == k then none else o
read_after key k (stores v) o = if key v == k then some v else o
read_after key k skips o = o

module _ {V : Type 0} (key : V → String) (k : String) where
  unfoldable pub in_order : List (Step V) → Option V → Option V
  in_order [] o = o
  in_order (st ∷ sts) o = in_order sts (read_after key k st o)

  abbrev stored_here : Step V → Bool
  stored_here (deletes id) = false
  stored_here (stores v) = key v == k
  stored_here skips = false

  -- whether the key is removed after it has been stored
  unfoldable pub removed_late : List (Step V) → Bool
  removed_late [] = false
  removed_late (st ∷ sts) = (stored_here st && removes k sts) || removed_late sts

  in_order_lem :
      (sts : List (Step V)) (o : Option V)
      → removed_late sts ≡ false
      → or_else (last_with key k (updates sts)) (if removes k sts then none else o) ≡ in_order sts o
  unfolding in_order removed_late updates removes last_with
  in_order_lem [] o h = refl
  in_order_lem (deletes id ∷ sts) o h =
      ground (arith, in_order_lem sts (if id == k then none else o) h)
  in_order_lem (stores v ∷ sts) o h =
      ground (arith, in_order_lem sts (if key v == k then some v else o))
  in_order_lem (skips ∷ sts) o h = in_order_lem sts o h

module _ (p : Platform) (w : World) where
  -- the timestamp that the delta is asked from
  abbrev pub since : String
  since = since_of p (truthy (find_meta w.db meta_last_delta_sync))

  abbrev settled : Result SyncDeltaResponse × World → Result DeltaCounts × World
  settled (ok delta, w₁) = (ok (delta_counts delta), record w₁ { db = delta_db delta w₁.db })
  settled (err message, w₁) = ((if is_rate_limit message then ok no_changes else err message), w₁)

  settled_lem :
      (x : Result SyncDeltaResponse × World)
      → ApiClient.sync_delta p since w ≡ x
      → perform_delta_sync p w ≡ settled x
  unfolding perform_delta_sync get_meta
  settled_lem (ok delta, w₁) e = rw e (apply_delta_lem delta w₁)
  settled_lem (err message, w₁) e = rw e (elim (Bool-cases (is_rate_limit message)) [
    | inl limited ↦ rw limited
    | inr other ↦ rw other
  ])

  db-sync_delta : (ApiClient.sync_delta p since w).1.db ≡ w.db
  db-sync_delta =
      (sync_delta-Keeps {P = λ w'. w'.db ≡ w.db} (record { at = λ w' url t h. h }) p since).at w
        refl

  db_of_answer :
      {r : Result SyncDeltaResponse} {w₁ : World}
      → ApiClient.sync_delta p since w ≡ (r, w₁)
      → w₁.db ≡ w.db
  db_of_answer e = sym (ap (λ x. x.1.db) e) ∙ db-sync_delta

  -- After a delta sync that the server has answered, each video and each channel reads as its last
  -- update in the answer; without one it is gone if the answer removes it, and else as before. The
  -- stored time of the last delta is the answer's timestamp. Pending votes are untouched, and the counts
  -- are those of the updates and removals in the answer.
  pub delta_sync_lem :
      (delta : SyncDeltaResponse) (w₁ : World)
      → ApiClient.sync_delta p since w ≡ (ok delta, w₁)
      → ((perform_delta_sync p w).0 ≡ ok (delta_counts delta))
        × ((k : String)
            → find_video (perform_delta_sync p w).1.db k
              ≡ or_else
                  (last_with video_key k (updates (video_steps delta)))
                  (if removes k (video_steps delta) then none else find_video w.db k))
        × ((k : String)
            → find_channel (perform_delta_sync p w).1.db k
              ≡ or_else
                  (last_with channel_key k (updates (channel_steps delta)))
                  (if removes k (channel_steps delta) then none else find_channel w.db k))
        × (find_meta (perform_delta_sync p w).1.db meta_last_delta_sync ≡ some delta.sync_timestamp)
        × ((perform_delta_sync p w).1.db.pending_votes ≡ w.db.pending_votes)
  delta_sync_lem delta w₁ e =
      rw (settled_lem (ok delta, w₁) e, ← db_of_answer e)
        (
          refl,
          λ k. get-after_changes video_key k (video_steps delta) w₁.db.videos,
          λ k. get-after_changes channel_key k (channel_steps delta) w₁.db.channels,
          rw (get-put meta_key),
          refl,
        )

  -- Where the answer removes no video or channel that it has stored before, a delta sync leaves the
  -- reads that applying the changes one by one, in their order, gives.
  pub delta_sync_in_order :
      (delta : SyncDeltaResponse) (w₁ : World) (k : String)
      → ApiClient.sync_delta p since w ≡ (ok delta, w₁)
      → removed_late video_key k (video_steps delta) ≡ false
      → removed_late channel_key k (channel_steps delta) ≡ false
      → (find_video (perform_delta_sync p w).1.db k
          ≡ in_order video_key k (video_steps delta) (find_video w.db k))
        × (find_channel (perform_delta_sync p w).1.db k
            ≡ in_order channel_key k (channel_steps delta) (find_channel w.db k))
  delta_sync_in_order delta w₁ k e hv hc =
      let (counts, videos, channels, meta, votes) = delta_sync_lem delta w₁ e in
      (
        videos k ∙ in_order_lem video_key k (video_steps delta) _ hv,
        channels k ∙ in_order_lem channel_key k (channel_steps delta) _ hc,
      )
