-- ===== src/OfflineQueue/Keeps.antt =====
-- The functions of offline-queue.ts keep what the API calls and the writes to the cache keep.
use real_tube.Prelude.{
  ℕ, ◌+◌, String, Bool, true, false, Option, some, List, [], ◌∷◌, ltb, if◌then◌else◌,
}
use real_tube.Records.{PendingVote}
use real_tube.Effects.{pure, gets, ◌>>=◌, ◌>>◌}
use real_tube.Effects.Keeps.{Keeps, Keeps-bind, Keeps-if, Keeps-pure, Keeps-gets, Keeps-catch}
use real_tube.Browser.{Platform, World}
use real_tube.ApiClient
use real_tube.Cache
use real_tube.Identity
use real_tube.Invariant.{IsClosed, IsServed, get_public_user_id-Keeps}
use real_tube.OfflineQueue.{
  FlushResult, vote_request, submit_pending, flush_votes, flush_all, flush_unless,
  flush_pending_votes, enqueue_vote, schedule_flush, flush_retry_delay_ms, is_expired, finished,
  stopped, set_flushing,
}

module _ (p : Platform) {P : World → Type 0} (closed : IsClosed p P) where
  pub ids :
      (w : World) (local_id user_id : Option String)
      → P w
      → P (record w { local_id = local_id; cached_public_user_id = user_id })
  ids w local_id user_id h = closed.variables w local_id user_id w.flush_timer w.is_flushing h

  pub schedule_flush-Keeps : (ms : ℕ) → Keeps P (schedule_flush ms)
  schedule_flush-Keeps ms = record {
    at = λ w h. closed.variables w w.local_id w.cached_public_user_id (some ms) w.is_flushing h;
  }

  pub set_flushing-kept : (flag : Bool) (w : World) → P w → P (set_flushing flag w)
  set_flushing-kept flag w h =
      closed.variables w w.local_id w.cached_public_user_id w.flush_timer flag h

  submit_pending-Keeps :
      (user_id : String) (vote : PendingVote) → Keeps P (submit_pending p user_id vote)
  unfolding submit_pending
  submit_pending-Keeps user_id vote =
      Keeps-catch _ _
        (Keeps-bind (ApiClient.submit_vote p (vote_request p user_id vote)) _ (closed.submit_vote _)
          λ _.
            Keeps-bind (Cache.remove_pending_vote vote.video_id) _ (closed.remove_pending_vote _)
              λ _. Keeps-pure true)
        λ message. Keeps-pure false

  pub flush_votes-Keeps :
      (user_id : String) (now : ℕ) (votes : List PendingVote) (sent : ℕ)
      → Keeps P (flush_votes p user_id now votes sent)
  unfolding flush_votes
  flush_votes-Keeps user_id now [] sent = Keeps-pure (finished sent)
  flush_votes-Keeps user_id now (vote ∷ votes) sent =
      Keeps-if (is_expired now vote) _ _
        (Keeps-bind (Cache.remove_pending_vote vote.video_id) _ (closed.remove_pending_vote _)
          λ _. flush_votes-Keeps user_id now votes sent)
        (Keeps-bind (submit_pending p user_id vote) _ (submit_pending-Keeps user_id vote)
          λ was_sent.
            Keeps-if was_sent _ _ (flush_votes-Keeps user_id now votes (sent + 1))
              (Keeps-pure (stopped sent)))

  reported-Keeps :
      (result : FlushResult)
      → Keeps P (
          if ltb 0 result.failed
          then schedule_flush flush_retry_delay_ms >> pure result
          else pure result)
  reported-Keeps result =
      Keeps-if (ltb 0 result.failed) _ _
        (Keeps-bind (schedule_flush flush_retry_delay_ms) (λ _. pure result)
          (schedule_flush-Keeps _) λ _. Keeps-pure result)
        (Keeps-pure result)

  flush_from-Keeps :
      (user_id : String) (votes : List PendingVote)
      → Keeps P (
          gets (λ w. p.now w.trace) >>= λ now. flush_votes p user_id now votes 0 >>= λ result.
          if ltb 0 result.failed
          then schedule_flush flush_retry_delay_ms >> pure result
          else pure result)
  flush_from-Keeps user_id votes = Keeps-bind (gets (λ w. p.now w.trace)) _ (Keeps-gets _) λ now.
      Keeps-bind (flush_votes p user_id now votes 0) _ (flush_votes-Keeps user_id now votes 0)
        reported-Keeps

  flush_all-Keeps : (votes : List PendingVote) → Keeps P (flush_all p votes)
  unfolding flush_all
  flush_all-Keeps [] = Keeps-pure (finished 0)
  flush_all-Keeps (vote ∷ votes) =
      Keeps-bind (Identity.get_public_user_id p) _ (get_public_user_id-Keeps p ids)
        λ user_id. flush_from-Keeps user_id (vote ∷ votes)

  flush_unless-Keeps : (b : Bool) → Keeps P (flush_unless p b)
  unfolding flush_unless Cache.get_pending_votes
  flush_unless-Keeps true = Keeps-pure (finished 0)
  flush_unless-Keeps false = record {
    at = λ w h. set_flushing-kept false _ (
        (flush_all-Keeps w.db.pending_votes).at (set_flushing true w) (set_flushing-kept true w h));
  }

  pub flush_pending_votes-Keeps : Keeps P (flush_pending_votes p)
  unfolding flush_pending_votes
  flush_pending_votes-Keeps = record { at = λ w h. (flush_unless-Keeps w.is_flushing).at w h }

  pub enqueue_vote-Keeps : (video_id category : String) → Keeps P (enqueue_vote p video_id category)
  unfolding enqueue_vote
  enqueue_vote-Keeps video_id category =
      Keeps-bind (gets (λ w. p.now w.trace)) _ (Keeps-gets _) λ now.
        Keeps-bind
          (Cache.add_pending_vote
            (record { video_id = video_id; category = category; timestamp = now }))
          (λ _. schedule_flush 5_000) (closed.add_pending_vote _) (λ _. schedule_flush-Keeps 5_000)

  pub IsClosed-IsServed : IsServed p P
  IsClosed-IsServed = record {
    lookup_videos = closed.lookup_videos;
    submit_vote = closed.submit_vote;
    delete_vote = closed.delete_vote;
    sync_delta = closed.sync_delta;
    sync_full = closed.sync_full;
    user_info = closed.user_info;
    put_video = closed.put_video;
    put_videos = closed.put_videos;
    delete_video = closed.delete_video;
    clear_videos = closed.clear_videos;
    put_channels = closed.put_channels;
    delete_channel = closed.delete_channel;
    clear_channels = closed.clear_channels;
    set_meta = closed.set_meta;
    ids = ids;
    enqueue_vote = enqueue_vote-Keeps;
    flush_pending_votes = flush_pending_votes-Keeps;
  }
