-- ===== src/OfflineQueue/Flush.antt =====
-- `flushPendingVotes` of offline-queue.ts as a whole: no vote is lost, the flag and the timer.
use real_tube.Prelude.{
  ℕ, ◌+◌, ◌≤◌, String, eq_iff, eq_refl, ◌≡◌, refl, sym, ap, ◌∙◌, ◌⊎◌, true, false, Option, none,
  some, List, [], ◌∷◌, arith, length, Bool-cases, inl, inr, if◌then◌else◌, ltb,
}
use mathlib.Core.Path.{subst}
use real_tube.Records.{PendingVote}
use real_tube.Effects.{Result, ok, err}
use real_tube.ObjectStore.{ObjectStore, get}
use real_tube.ObjectStore.Sorted.{IsSorted, IsBelow}
use real_tube.Prelude.Order.{before_irrefl, before}
use real_tube.Browser.{Platform, World}
use real_tube.ApiClient
use real_tube.ApiClient.Votes.{Accepts, submit_vote-accepted, submit_vote-err}
use real_tube.Cache.{vote_key, find_vote, get_pending_votes}
use real_tube.Identity.Laws.{public_user_id, identified, get_public_user_id_lem, identified_lem}
use real_tube.OfflineQueue.{
  is_expired, vote_request, submit_pending, flush_votes, flush_all, flush_unless,
  flush_pending_votes, FlushResult, finished, stopped, flush_retry_delay_ms, set_flushing,
}
use real_tube.OfflineQueue.Loop.{
  In, IsSettled, Fate, flush_votes-counts, flush_votes-Fate, flush_votes-timer, flush_votes-empties,
}

-- in a sorted store each record is the one that its key finds
pub get_of_In :
    (s : ObjectStore PendingVote) (v : PendingVote)
    → IsSorted vote_key s
    → In v s
    → get vote_key v.video_id s ≡ some v
unfolding get
get_of_In [] v h i = absurd i
get_of_In (u ∷ s) v (b, h) (inl at) = rw (at, eq_refl u.video_id)
get_of_In (u ∷ s) v (b, h) (inr i) =
    let rest = get_of_In s v h i in
    ground (arith, rest, eq_iff u.video_id v.video_id, below_of_In s b i, before_irrefl u.video_id)
  where
    below_of_In :
        (s : ObjectStore PendingVote)
        → IsBelow vote_key u.video_id s
        → In v s
        → before u.video_id v.video_id ≡ true
    below_of_In [] b i = absurd i
    below_of_In (x ∷ s) (l, b) (inl at) = rw at l
    below_of_In (x ∷ s) (l, b) (inr i) = below_of_In s b i

module _ (p : Platform) where
  -- the time that the loop compares with
  abbrev pub flush_now : World → ℕ
  flush_now w = p.now (identified p w).trace

  -- what the loop does, from the state in which it starts
  abbrev pub loop : List PendingVote → World → Result FlushResult × World
  loop pending w = flush_votes p (public_user_id p w) (flush_now w) pending 0 (identified p w)

  pub flush_all_lem :
      (v : PendingVote) (vs : List PendingVote) (w : World) (r : FlushResult)
      → (loop (v ∷ vs) w).0 ≡ ok r
      → flush_all p (v ∷ vs) w ≡ (
        ok r,
        if ltb 0 r.failed
            then record (loop (v ∷ vs) w).1 { flush_timer = some flush_retry_delay_ms }
            else (loop (v ∷ vs) w).1,
      )
  unfolding flush_all
  flush_all_lem v vs w r e =
      rw (get_public_user_id_lem p w)
        (rw e (elim (Bool-cases (ltb 0 r.failed)) [ inl failed ↦ rw failed | inr fine ↦ rw fine ]))

  pub flush_idle :
      (w : World)
      → w.is_flushing ≡ false
      → flush_pending_votes p w ≡ (
        (flush_all p w.db.pending_votes (set_flushing true w)).0,
        set_flushing false (flush_all p w.db.pending_votes (set_flushing true w)).1,
      )
  unfolding flush_pending_votes flush_unless get_pending_votes
  flush_idle w idle = rw idle

  db-identified : (w : World) → (identified p w).db ≡ w.db
  db-identified w = let (id, e) = identified_lem p w in ap (λ w'. w'.db) e

  trace-identified : (w : World) → (identified p w).trace ≡ w.trace
  trace-identified w = let (id, e) = identified_lem p w in ap (λ w'. w'.trace) e

  timer-identified : (w : World) → (identified p w).flush_timer ≡ w.flush_timer
  timer-identified w = let (id, e) = identified_lem p w in ap (λ w'. w'.flush_timer) e

  db-flush_all :
      (pending : List PendingVote) (w : World)
      → ((flush_all p pending w).1.db ≡ (loop pending w).1.db)
        × ((flush_all p pending w).1.trace ≡ (loop pending w).1.trace)
  db-flush_all [] w =
      unfold flush_all flush_votes in (sym (db-identified w), sym (trace-identified w))
  db-flush_all (v ∷ vs) w =
      let (r, e, one, most) =
        flush_votes-counts p (public_user_id p w) (flush_now w) (v ∷ vs) 0 (identified p w) in
      rw (flush_all_lem v vs w r e) (elim (Bool-cases (ltb 0 r.failed)) [
        | inl failed ↦ rw failed (refl, refl)
        | inr fine ↦ rw fine (refl, refl)
      ])

  -- what `flush_all` answers, with the timer that it leaves
  abbrev Concludes : ℕ → Option ℕ → Result FlushResult × World → Type 0
  Concludes n timer x =
      (r : FlushResult) × (x.0 ≡ ok r)
      × (r.sent + r.failed ≤ n)
      × (((r.failed ≡ 0) × (x.1.flush_timer ≡ timer))
          ⊎ ((r.failed ≡ 1) × (x.1.flush_timer ≡ some flush_retry_delay_ms)))

  flush_all-Concludes :
      (pending : List PendingVote) (w : World)
      → Concludes (length pending) w.flush_timer (flush_all p pending w)
  flush_all-Concludes [] w = unfold flush_all in (finished 0, refl, omega arith, inl (refl, refl))
  flush_all-Concludes (v ∷ vs) w =
      let (r, e, one, most) =
        flush_votes-counts p (public_user_id p w) (flush_now w) (v ∷ vs) 0 (identified p w) in
      rw (flush_all_lem v vs w r e) (elim (Bool-cases (ltb 0 r.failed)) [
        | inl failed ↦ rw failed (r, refl, omega arith, inr (ground arith, refl))
        | inr fine ↦ rw fine (
          r,
          refl,
          omega arith,
          inl (
            ground arith,
            flush_votes-timer p (public_user_id p w) (flush_now w) (v ∷ vs) 0 (identified p w)
                ∙ timer-identified w,
          ),
        )
      ])

  -- While a flush is running, another one does nothing and answers zero counts.
  -- Otherwise a flush does not throw, and the flag is down again when it ends. Its counts are at most
  -- the number of pending votes. Either there is no failure and the timer is as before, or there is
  -- one failure and a retry is set for 30 seconds later.
  pub flush_pending_votes_lem :
      (w : World)
      → ((w.is_flushing ≡ true) × (flush_pending_votes p w ≡ (ok (finished 0), w)))
        ⊎ (((flush_pending_votes p w).1.is_flushing ≡ false)
            × ((r : FlushResult) × ((flush_pending_votes p w).0 ≡ ok r)
                × (r.sent + r.failed ≤ length w.db.pending_votes)
                × (((r.failed ≡ 0) × ((flush_pending_votes p w).1.flush_timer ≡ w.flush_timer))
                    ⊎ ((r.failed ≡ 1)
                        × ((flush_pending_votes p w).1.flush_timer ≡ some flush_retry_delay_ms)))))
  flush_pending_votes_lem w = elim (Bool-cases w.is_flushing) [
    | inl busy ↦ inl (busy, unfold flush_pending_votes flush_unless in rw busy)
    | inr idle ↦ inr (
        rw (flush_idle w idle) (refl, flush_all-Concludes w.db.pending_votes (set_flushing true w)))
  ]

  -- the user whose votes a flush sends, and the time that it compares with
  abbrev pub sender : World → String
  sender w = public_user_id p (set_flushing true w)

  abbrev pub started_at : World → ℕ
  started_at w = flush_now (set_flushing true w)

  pub Fate-flush :
      (w : World) (k : String)
      → w.is_flushing ≡ false
      → Fate p (sender w) (started_at w) k w.db.pending_votes w.db (flush_pending_votes p w).1
  Fate-flush w k idle =
      let w₀ = set_flushing true w in
      let (same_db, same_trace) = db-flush_all w.db.pending_votes w₀ in
      rw (flush_idle w idle, same_db, same_trace)
        (subst
          (λ db.
            Fate p (sender w) (started_at w) k w.db.pending_votes db (loop w.db.pending_votes w₀).1)
          (db-identified w₀)
          (flush_votes-Fate p (sender w) (started_at w) k w.db.pending_votes 0 (identified p w₀)))

  -- No vote is lost. Where no flush is running and the queue is in order, each pending vote is still
  -- in the queue after a flush, as it was, or it is gone. If it is gone, it was more than seven days
  -- old, or it was posted to the server with the public user id and the server answered with success.
  pub flush_keeps_votes :
      (w : World) (v : PendingVote)
      → w.is_flushing ≡ false
      → IsSorted vote_key w.db.pending_votes
      → find_vote w.db v.video_id ≡ some v
      → (find_vote (flush_pending_votes p w).1.db v.video_id ≡ some v)
        ⊎ ((find_vote (flush_pending_votes p w).1.db v.video_id ≡ none)
            × IsSettled p (sender w) (started_at w) v (flush_pending_votes p w).1)
  flush_keeps_votes w v idle sorted here = elim (Fate-flush w v.video_id idle) [
    | inl kept ↦ inl (kept ∙ here)
    | inr (gone, (u, i, at, settled)) ↦
        let same : u ≡ v = cc (get_of_In w.db.pending_votes u sorted i, at, here) in
        inr (
          gone,
          subst (λ x. IsSettled p (sender w) (started_at w) x (flush_pending_votes p w).1) same
              settled,
        )
  ]

  -- Where no flush is running and the server accepts every vote, none of the pending votes is left in
  -- the queue after a flush.
  pub flush_empties :
      (w : World)
      → w.is_flushing ≡ false
      → Accepts p
      → (v : PendingVote) → In v w.db.pending_votes
      → find_vote (flush_pending_votes p w).1.db v.video_id ≡ none
  flush_empties w idle accepts v i =
      let w₀ = set_flushing true w in
      rw (flush_idle w idle, (db-flush_all w.db.pending_votes w₀).0)
        (flush_votes-empties p (sender w) (started_at w)
          (λ v w'. submit_vote-accepted p v w' accepts) w.db.pending_votes 0 (identified p w₀) v i)

  blocked :
      (pending : List PendingVote) (v : PendingVote) (vs : List PendingVote) (message : String)
      (w w₁ : World)
      → pending ≡ v ∷ vs
      → is_expired (flush_now w) v ≡ false
      → ApiClient.submit_vote p (vote_request p (public_user_id p w) v) (identified p w)
        ≡ (err message, w₁)
      → ((flush_all p pending w).0 ≡ ok (stopped 0)) × ((loop pending w) ≡ (ok (stopped 0), w₁))
  blocked pending v vs message w w₁ queue fresh fails =
      let stops : loop (v ∷ vs) w ≡ (ok (stopped 0), w₁) =
        unfold flush_votes submit_pending in rw (fresh, fails) in
      rw queue (rw (flush_all_lem v vs w (stopped 0) (ap (λ x. x.0) stops)) refl, stops)

  -- A vote that cannot be submitted blocks the votes behind it. Where no flush is running and the
  -- first pending vote is not too old, but its submission fails, a flush sends no vote: the database
  -- stays as it was and one failure is counted.
  pub flush_blocked :
      (w : World) (v : PendingVote) (vs : List PendingVote) (message : String) (w₁ : World)
      → w.is_flushing ≡ false
      → w.db.pending_votes ≡ v ∷ vs
      → is_expired (started_at w) v ≡ false
      → ApiClient.submit_vote p (vote_request p (sender w) v) (identified p (set_flushing true w))
        ≡ (err message, w₁)
      → ((flush_pending_votes p w).0 ≡ ok (stopped 0)) × ((flush_pending_votes p w).1.db ≡ w.db)
  flush_blocked w v vs message w₁ idle queue fresh fails =
      let w₀ = set_flushing true w in
      let (result, stops) = blocked w.db.pending_votes v vs message w₀ w₁ queue fresh fails in
      rw (flush_idle w idle) (
        result,
        (db-flush_all w.db.pending_votes w₀).0
            ∙ ap (λ x. x.1.db) stops
            ∙ (submit_vote-err p (vote_request p (sender w) v) (identified p w₀) fails).1
            ∙ db-identified w₀,
      )
