-- ===== src/OfflineQueue.antt =====
-- realtube-extension/src/background/offline-queue.ts: votes that could not be submitted wait in
-- IndexedDB, and are flushed when the connection may be back.
pub mod Loop
pub mod Flush
pub mod Retries
pub mod Keeps
pub mod Race
use Prim.Native.String.{◌++◌}
use real_tube.Prelude.{
  ℕ, zero, suc, ◌+◌, ◌-◌, ◌*◌, ◌<◌, String, Bool, true, false, Option, none, some, List, [], ◌∷◌,
  length, ltb, if◌then◌else◌,
}
use real_tube.Records.{PendingVote, VoteRequest}
use real_tube.Effects.{ok, pure, throw, gets, modify, try_catch, finally, ◌>>=◌, ◌>>◌}
use real_tube.Browser.{Platform, World, M}
use real_tube.ApiClient
use real_tube.Cache
use real_tube.Identity

abbrev pub flush_retry_delay_ms : ℕ
flush_retry_delay_ms = 30_000

abbrev pub max_pending_age_ms : ℕ
max_pending_age_ms = 7 * 24 * 60 * 60 * 1000

pub record FlushResult : Type 0 where
  pub sent : ℕ
  pub failed : ℕ

-- A new timer takes the place of one that is set.
abbrev pub schedule_flush : ℕ → M (Unit {0})
schedule_flush delay_ms = modify (λ w. record w { flush_timer = some delay_ms })

-- `now - vote.timestamp > MAX_PENDING_AGE_MS`; the difference to a later time is negative
abbrev pub is_expired : ℕ → PendingVote → Bool
is_expired now vote = ltb max_pending_age_ms (now - vote.timestamp)

-- how the loop ended: the votes sent, and whether it stopped at a failure
abbrev pub stopped : ℕ → FlushResult
stopped sent = record { sent = sent; failed = 1 }

abbrev pub finished : ℕ → FlushResult
finished sent = record { sent = sent; failed = 0 }

abbrev pub set_flushing : Bool → World → World
set_flushing flag w = record w { is_flushing = flag }

module _ (p : Platform) where
  pub vote_request : String → PendingVote → VoteRequest
  vote_request user_id vote = record {
    video_id = vote.video_id;
    category = vote.category;
    user_id = user_id;
    user_agent = "RealTube/0.1.0 " ++ p.user_agent;
  }

  -- the body of the inner `try`: true where the vote was sent
  unfoldable pub submit_pending : String → PendingVote → M Bool
  submit_pending user_id vote =
      try_catch
        (do
          ApiClient.submit_vote p (vote_request user_id vote)
          Cache.remove_pending_vote vote.video_id
          pure true)
        λ message. pure false

  -- the loop over the pending votes; a failure leaves it
  unfoldable pub flush_votes : String → (now : ℕ) → List PendingVote → (sent : ℕ) → M FlushResult
  flush_votes user_id now [] sent = pure (finished sent)
  flush_votes user_id now (vote ∷ votes) sent =
      let rest = flush_votes user_id now votes in
      if is_expired now vote
      then Cache.remove_pending_vote vote.video_id >> rest sent
      else submit_pending user_id vote >>= λ was_sent.
          if was_sent then rest (sent + 1) else pure (stopped sent)

  -- the rest of the outer `try`, once there are votes to flush
  unfoldable pub flush_all : List PendingVote → M FlushResult
  flush_all [] = pure (finished 0)
  flush_all (vote ∷ votes) = do
    user_id ← Identity.get_public_user_id p
    now ← gets (λ w. p.now w.trace)
    result ← flush_votes user_id now (vote ∷ votes) 0
    if ltb 0 result.failed then schedule_flush flush_retry_delay_ms >> pure result else pure result

  pub flush_unless : Bool → M FlushResult
  flush_unless true = pure (finished 0)
  flush_unless false = do
    modify (set_flushing true)
    finally (set_flushing false) (do pending ← Cache.get_pending_votes; flush_all pending)

  pub flush_pending_votes : M FlushResult
  flush_pending_votes w = flush_unless w.is_flushing w

  unfoldable pub enqueue_vote : (video_id category : String) → M (Unit {0})
  enqueue_vote video_id category = do
    now ← gets (λ w. p.now w.trace)
    Cache.add_pending_vote (record { video_id = video_id; category = category; timestamp = now })
    schedule_flush 5_000

  -- the callback of the timer that `scheduleFlush` sets
  unfoldable pub on_flush_timer : M (Unit {0})
  on_flush_timer = do
    modify (λ w. record w { flush_timer = none })
    is_online ← gets (λ w. p.online w.trace)
    if is_online
        then (flush_pending_votes >>= λ result. pure tt)
        else schedule_flush flush_retry_delay_ms

  -- the listener of the event `online`
  unfoldable pub on_online : M (Unit {0})
  on_online = flush_pending_votes >>= λ result. pure tt

  -- Besides the listener, a flush at the start.
  unfoldable pub start_offline_queue_listener : M (Unit {0})
  start_offline_queue_listener = do
    is_online ← gets (λ w. p.online w.trace)
    if is_online then schedule_flush 5_000 else pure tt

unfoldable pub get_pending_vote_count : M ℕ
get_pending_vote_count = do pending ← Cache.get_pending_votes; pure (length pending)
