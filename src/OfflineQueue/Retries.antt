-- ===== src/OfflineQueue/Retries.antt =====
-- A flush of realtube-extension/src/background/offline-queue.ts, and the timer for the votes that it leaves.
use real_tube.Prelude.{
  String, Bool, ◌==◌, sym, if◌then◌else◌, ◌≡◌, refl, ◌⊎◌, inl, inr, true, false, none, some, List,
  [], ◌∷◌, ltb, arith, Bool-cases,
}
use real_tube.Records.{PendingVote}
use real_tube.Browser.{Platform, World}
use real_tube.ObjectStore.{ObjectStore, get}
use real_tube.Cache.{vote_key, find_vote}
use real_tube.Identity.Laws.{public_user_id, identified}
use real_tube.OfflineQueue.{flush_all, flush_pending_votes, flush_retry_delay_ms, set_flushing}
use real_tube.OfflineQueue.Loop.{In, flush_votes-counts, flush_votes-clears}
use real_tube.OfflineQueue.Flush.{flush_idle, flush_all_lem, flush_now}

-- the vote is gone from the queue, or the timer is set for another flush
abbrev pub IsCovered : PendingVote → World → Type 0
IsCovered v w = (find_vote w.db v.video_id ≡ none) ⊎ (w.flush_timer ≡ some flush_retry_delay_ms)

pub In-get :
    (s : ObjectStore PendingVote) (id : String) (v : PendingVote)
    → get vote_key id s ≡ some v
    → In v s
unfolding get
In-get [] id v e = absurd (ground (arith, e))
In-get (u ∷ s) id v e = found (u.video_id == id) e (In-get s id v)
  where
    found :
        (b : Bool)
        → (if b then some u else get vote_key id s) ≡ some v
        → (get vote_key id s ≡ some v → In v s)
        → In v (u ∷ s)
    found true e rest = inl (sym (cc e))
    found false e rest = inr (rest e)

module _ (p : Platform) where
  flush_all-IsCovered :
      (pending : List PendingVote) (w : World) (v : PendingVote)
      → In v pending
      → IsCovered v (flush_all p pending w).1
  flush_all-IsCovered [] w v i = absurd i
  flush_all-IsCovered (u ∷ vs) w v i =
      let (r, e, one, most) =
        flush_votes-counts p (public_user_id p w) (flush_now p w) (u ∷ vs) 0 (identified p w) in
      rw (flush_all_lem p u vs w r e) (elim (Bool-cases (ltb 0 r.failed)) [
        | inl failed ↦ rw failed (inr refl)
        | inr fine ↦ rw fine (
            inl (
              flush_votes-clears p (public_user_id p w) (flush_now p w) (u ∷ vs) 0 (identified p w)
                v r i e (ground (arith, fine))))
      ])

  -- After a flush that begins while none is running, whatever the server answers: for each vote that was
  -- in the queue, no vote for its video is in the queue any more, or the timer of the next flush is
  -- set, with the delay of a retry.
  pub flush-IsCovered :
      (w : World) (v : PendingVote)
      → w.is_flushing ≡ false
      → In v w.db.pending_votes
      → IsCovered v (flush_pending_votes p w).1
  flush-IsCovered w v idle i =
      rw (flush_idle p w idle) (flush_all-IsCovered w.db.pending_votes (set_flushing true w) v i)
