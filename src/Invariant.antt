-- ===== src/Invariant.antt =====
-- Invariants of the service worker: a property of the state that the calls of the API, the writes to
-- the cache and the other variables keep. `Sync.Keeps`, `OfflineQueue.Keeps` and `Background.Keeps`
-- show that every function above these keeps it too.
use real_tube.Prelude.{ℕ, String, Bool, Option, List}
use real_tube.Records.{CachedVideo, CachedChannel, PendingVote, VoteRequest}
use real_tube.Effects.Keeps.{Keeps}
use real_tube.Browser.{Platform, World}
use real_tube.ApiClient
use real_tube.Cache
use real_tube.Identity
use real_tube.OfflineQueue
use real_tube.Identity.Laws.{identified_lem, get_local_id_state, get_public_user_id_lem}

pub record IsClosed (p : Platform) (P : World → Type 0) : Type 0 where
  pub lookup_videos : (prefix : String) → Keeps P (ApiClient.lookup_videos_by_prefix p prefix)
  pub submit_vote : (v : VoteRequest) → Keeps P (ApiClient.submit_vote p v)
  pub delete_vote : (video_id user_id : String) → Keeps P (ApiClient.delete_vote p video_id user_id)
  pub sync_delta : (since : String) → Keeps P (ApiClient.sync_delta p since)
  pub sync_full : Keeps P (ApiClient.sync_full p)
  pub user_info : (user_id : String) → Keeps P (ApiClient.get_user_info p user_id)
  pub put_video : (v : CachedVideo) → Keeps P (Cache.put_video v)
  pub put_videos : (vs : List CachedVideo) → Keeps P (Cache.put_videos vs)
  pub delete_video : (id : String) → Keeps P (Cache.delete_video id)
  pub clear_videos : Keeps P Cache.clear_videos
  pub put_channels : (cs : List CachedChannel) → Keeps P (Cache.put_channels cs)
  pub delete_channel : (id : String) → Keeps P (Cache.delete_channel id)
  pub clear_channels : Keeps P Cache.clear_channels
  pub add_pending_vote : (v : PendingVote) → Keeps P (Cache.add_pending_vote v)
  pub remove_pending_vote : (id : String) → Keeps P (Cache.remove_pending_vote id)
  pub set_meta : (key value : String) → Keeps P (Cache.set_meta key value)
  pub variables :
      (w : World) (local_id user_id : Option String) (timer : Option ℕ) (flushing : Bool)
      → P w
      → P (record w {
        local_id = local_id;
        cached_public_user_id = user_id;
        flush_timer = timer;
        is_flushing = flushing;
      })

-- What the handlers of `Background` and `Sync` call: the calls of the API, the writes to the cache, and
-- the two functions of the offline queue.
pub record IsServed (p : Platform) (P : World → Type 0) : Type 0 where
  pub lookup_videos : (prefix : String) → Keeps P (ApiClient.lookup_videos_by_prefix p prefix)
  pub submit_vote : (v : VoteRequest) → Keeps P (ApiClient.submit_vote p v)
  pub delete_vote : (video_id user_id : String) → Keeps P (ApiClient.delete_vote p video_id user_id)
  pub sync_delta : (since : String) → Keeps P (ApiClient.sync_delta p since)
  pub sync_full : Keeps P (ApiClient.sync_full p)
  pub user_info : (user_id : String) → Keeps P (ApiClient.get_user_info p user_id)
  pub put_video : (v : CachedVideo) → Keeps P (Cache.put_video v)
  pub put_videos : (vs : List CachedVideo) → Keeps P (Cache.put_videos vs)
  pub delete_video : (id : String) → Keeps P (Cache.delete_video id)
  pub clear_videos : Keeps P Cache.clear_videos
  pub put_channels : (cs : List CachedChannel) → Keeps P (Cache.put_channels cs)
  pub delete_channel : (id : String) → Keeps P (Cache.delete_channel id)
  pub clear_channels : Keeps P Cache.clear_channels
  pub set_meta : (key value : String) → Keeps P (Cache.set_meta key value)
  pub ids :
      (w : World) (local_id user_id : Option String)
      → P w
      → P (record w { local_id = local_id; cached_public_user_id = user_id })
  pub enqueue_vote :
      (video_id category : String) → Keeps P (OfflineQueue.enqueue_vote p video_id category)
  pub flush_pending_votes : Keeps P (OfflineQueue.flush_pending_votes p)

module _ (p : Platform) {P : World → Type 0}
    (ids : (w : World) (local_id user_id : Option String)
      → P w
      → P (record w { local_id = local_id; cached_public_user_id = user_id })) where
  pub get_local_id-Keeps : Keeps P (Identity.get_local_id p)
  get_local_id-Keeps = record {
    at = λ w h. let (id, e) = get_local_id_state p w in rw e (ids w id w.cached_public_user_id h);
  }

  pub get_public_user_id-Keeps : Keeps P (Identity.get_public_user_id p)
  get_public_user_id-Keeps = record {
    at = λ w h.
        let (id, e) = identified_lem p w in
        rw (get_public_user_id_lem, e) (ids w id w.cached_public_user_id h);
  }
