-- ===== src/OfflineQueue/Loop.antt =====
-- The loop of `flushPendingVotes` in offline-queue.ts: what one round does, and what holds of all.
use real_tube.Prelude.{
  ℕ, ◌+◌, ◌≤◌, String, ◌==◌, eq_iff, eq_refl, ◌≡◌, refl, sym, ap, ◌∙◌, ◌⊎◌, true, false, none, List,
  [], ◌∷◌, arith, length, Bool-cases, inl, inr, if◌then◌else◌,
}
use real_tube.Records.{PendingVote, VoteRequest, VoteResponse}
use real_tube.Effects.{Result, ok, err}
use real_tube.ObjectStore.{delete}
use real_tube.ObjectStore.Laws.{get-delete}
use real_tube.Browser.{Db, Platform, World}
use real_tube.ApiClient
use real_tube.ApiClient.Frame.{submit_vote-Keeps}
use real_tube.ApiClient.Votes.{
  Extends, Extends-trans, IsPosted, IsPosted-Extends, submit_vote-ok, submit_vote-err,
}
use real_tube.Cache.{vote_key, find_vote, remove_pending_vote}
use real_tube.OfflineQueue.{
  is_expired, vote_request, submit_pending, flush_votes, FlushResult, finished, stopped,
}

-- `v` is one of the votes
abbrev pub In : PendingVote → List PendingVote → Type 0
In v [] = ⊥
In v (u ∷ us) = (v ≡ u) ⊎ In v us

unfoldable pub removed : PendingVote → World → World
removed v w = record w {
  db = record w.db { pending_votes = delete vote_key v.video_id w.db.pending_votes };
}

module _ (p : Platform) (user_id : String) (now : ℕ) where
  -- The three ways of one round: an expired vote is dropped, a vote is sent and removed, or the
  -- submission fails and the loop stops.
  pub data Round (v : PendingVote) (vs : List PendingVote) (sent : ℕ) (w : World) : Type 0 where
    drops :
        is_expired now v ≡ true
        → flush_votes p user_id now (v ∷ vs) sent w
          ≡ flush_votes p user_id now vs sent (removed v w)
        → Round v vs sent w
    sends :
        (a : VoteResponse) (w₁ : World)
        → is_expired now v ≡ false
        → ApiClient.submit_vote p (vote_request p user_id v) w ≡ (ok a, w₁)
        → flush_votes p user_id now (v ∷ vs) sent w
          ≡ flush_votes p user_id now vs (sent + 1) (removed v w₁)
        → Round v vs sent w
    stops :
        (message : String) (w₁ : World)
        → is_expired now v ≡ false
        → ApiClient.submit_vote p (vote_request p user_id v) w ≡ (err message, w₁)
        → flush_votes p user_id now (v ∷ vs) sent w ≡ (ok (stopped sent), w₁)
        → Round v vs sent w

  fresh-Round :
      (v : PendingVote) (vs : List PendingVote) (sent : ℕ) (w : World)
      → is_expired now v ≡ false
      → (x : Result VoteResponse × World) → ApiClient.submit_vote p (vote_request p user_id v) w ≡ x
      → Round v vs sent w
  unfolding flush_votes submit_pending remove_pending_vote removed
  fresh-Round v vs sent w fresh (ok a, w₁) e = sends a w₁ fresh e (rw (fresh, e))
  fresh-Round v vs sent w fresh (err message, w₁) e = stops message w₁ fresh e (rw (fresh, e))

  pub round : (v : PendingVote) (vs : List PendingVote) (sent : ℕ) (w : World) → Round v vs sent w
  unfolding flush_votes remove_pending_vote removed
  round v vs sent w = elim (Bool-cases (is_expired now v)) [
    | inl old ↦ drops old (rw old)
    | inr fresh ↦ fresh-Round v vs sent w fresh _ refl
  ]

  -- The loop does not throw, counts at most one failure, and no more votes than it was given.
  pub flush_votes-counts :
      (vs : List PendingVote) (sent : ℕ) (w : World)
      → (r : FlushResult) × ((flush_votes p user_id now vs sent w).0 ≡ ok r)
        × (r.failed ≤ 1)
        × (r.sent + r.failed ≤ sent + length vs)
  unfolding flush_votes
  flush_votes-counts [] sent w = (finished sent, refl, omega arith, omega arith)
  flush_votes-counts (v ∷ vs) sent w = elim (round v vs sent w) [
    | drops old e ↦
        let (r, same, one, most) = flush_votes-counts vs sent (removed v w) in
        (r, ap (λ x. x.0) e ∙ same, one, omega arith)
    | sends a w₁ fresh s e ↦
        let (r, same, one, most) = flush_votes-counts vs (sent + 1) (removed v w₁) in
        (r, ap (λ x. x.0) e ∙ same, one, omega arith)
    | stops message w₁ fresh s e ↦ (stopped sent, ap (λ x. x.0) e, omega arith, omega arith)
  ]

  -- why a vote may leave the queue: it is too old, or the server has accepted it
  abbrev pub IsSettled : PendingVote → World → Type 0
  IsSettled v w = (is_expired now v ≡ true) ⊎ IsPosted p (vote_request p user_id v) w.trace

  -- What the loop does to the record of a key: it stays as it was, or it is gone, and then it was
  -- that of a vote which is settled.
  abbrev pub Fate : String → List PendingVote → Db → World → Type 0
  Fate k vs db w' =
      (find_vote w'.db k ≡ find_vote db k)
      ⊎ ((find_vote w'.db k ≡ none)
          × ((v : PendingVote) × In v vs × (v.video_id ≡ k) × IsSettled v w'))

  find_vote-removed :
      (k : String) (v : PendingVote) (w : World)
      → find_vote (removed v w).db k ≡ (if v.video_id == k then none else find_vote w.db k)
  unfolding removed
  find_vote-removed k v w = get-delete vote_key k v.video_id w.db.pending_votes

  Fate-later :
      (k : String) (v : PendingVote) (vs : List PendingVote) (w w₁ w' : World)
      → w₁.db ≡ w.db
      → IsSettled v w'
      → Fate k vs (removed v w₁).db w'
      → Fate k (v ∷ vs) w.db w'
  Fate-later k v vs w w₁ w' same settled (inr (gone, (u, i, at, s))) = inr (gone, (u, inr i, at, s))
  Fate-later k v vs w w₁ w' same settled (inl kept) = elim (Bool-cases (v.video_id == k)) [
    | inl at ↦ inr (
      kept ∙ find_vote-removed k v w₁ ∙ rw at,
      (v, inl refl, (eq_iff v.video_id k).0 at, settled),
    )
    | inr off ↦ inl (kept ∙ find_vote-removed k v w₁ ∙ rw off (ap (λ db. find_vote db k) same))
  ]

  pub flush_votes-Extends :
      (vs : List PendingVote) (sent : ℕ) (w : World)
      → Extends w.trace (flush_votes p user_id now vs sent w).1.trace
  unfolding flush_votes removed
  flush_votes-Extends [] sent w = ([], refl)
  flush_votes-Extends (v ∷ vs) sent w = elim (round v vs sent w) [
    | drops old e ↦ rw e (flush_votes-Extends vs sent (removed v w))
    | sends a w₁ fresh s e ↦ rw e (
        Extends-trans _ w₁.trace _ (submit_vote-ok p _ w s).0
          (flush_votes-Extends vs (sent + 1) (removed v w₁)))
    | stops message w₁ fresh s e ↦ rw e (submit_vote-err p _ w s).0
  ]

  -- Every key keeps its record, or its vote is settled.
  pub flush_votes-Fate :
      (k : String) (vs : List PendingVote) (sent : ℕ) (w : World)
      → Fate k vs w.db (flush_votes p user_id now vs sent w).1
  unfolding flush_votes removed
  flush_votes-Fate k [] sent w = inl refl
  flush_votes-Fate k (v ∷ vs) sent w = elim (round v vs sent w) [
    | drops old e ↦ rw e (
        Fate-later k v vs w w (flush_votes p user_id now vs sent (removed v w)).1 refl (inl old)
          (flush_votes-Fate k vs sent (removed v w)))
    | sends a w₁ fresh s e ↦
        let (grown, posted, same) = submit_vote-ok p (vote_request p user_id v) w s in
        rw e (
          Fate-later k v vs w w₁ (flush_votes p user_id now vs (sent + 1) (removed v w₁)).1 same
            (inr (
              IsPosted-Extends p (vote_request p user_id v) w₁.trace _ posted
                (flush_votes-Extends vs (sent + 1) (removed v w₁))))
            (flush_votes-Fate k vs (sent + 1) (removed v w₁)))
    | stops message w₁ fresh s e ↦
        rw e (inl (ap (λ db. find_vote db k) (submit_vote-err p (vote_request p user_id v) w s).1))
  ]

  timer_of_submit :
      (v : VoteRequest) (w : World) {r : Result VoteResponse} {w₁ : World}
      → ApiClient.submit_vote p v w ≡ (r, w₁)
      → w₁.flush_timer ≡ w.flush_timer
  timer_of_submit v w e =
      sym (ap (λ x. x.1.flush_timer) e)
      ∙ (submit_vote-Keeps {P = λ w'. w'.flush_timer ≡ w.flush_timer}
            (record { at = λ w' url t h. h }) p v).at
          w refl

  -- The loop sets no timer.
  pub flush_votes-timer :
      (vs : List PendingVote) (sent : ℕ) (w : World)
      → (flush_votes p user_id now vs sent w).1.flush_timer ≡ w.flush_timer
  unfolding flush_votes removed
  flush_votes-timer [] sent w = refl
  flush_votes-timer (v ∷ vs) sent w = elim (round v vs sent w) [
    | drops old e ↦ rw e (flush_votes-timer vs sent (removed v w))
    | sends a w₁ fresh s e ↦ rw e (
        flush_votes-timer vs (sent + 1) (removed v w₁)
        ∙ timer_of_submit (vote_request p user_id v) w s)
    | stops message w₁ fresh s e ↦ rw e (timer_of_submit (vote_request p user_id v) w s)
  ]

  stays_none :
      (k : String) (vs : List PendingVote) (sent : ℕ) (w : World)
      → find_vote w.db k ≡ none
      → find_vote (flush_votes p user_id now vs sent w).1.db k ≡ none
  stays_none k vs sent w gone = elim (flush_votes-Fate k vs sent w) [
    | inl kept ↦ kept ∙ gone
    | inr (none_left, _) ↦ none_left
  ]

  find_vote-removed_self :
      (v : PendingVote) (w : World) → find_vote (removed v w).db v.video_id ≡ none
  find_vote-removed_self v w = find_vote-removed v.video_id v w ∙ rw (eq_refl v.video_id)

  -- a loop that stops counts a failure
  no_stop : {A : Type 0} (sent : ℕ) (r : FlushResult) → ok (stopped sent) ≡ ok r → r.failed ≡ 0 → A
  no_stop sent r e fine =
      let same : stopped sent ≡ r = cc e in absurd (ground (arith, ap (λ x. x.failed) same, fine))

  -- Where the loop counts no failure, no vote of it stays in the queue.
  pub flush_votes-clears :
      (vs : List PendingVote) (sent : ℕ) (w : World) (v : PendingVote) (r : FlushResult)
      → In v vs
      → (flush_votes p user_id now vs sent w).0 ≡ ok r
      → r.failed ≡ 0
      → find_vote (flush_votes p user_id now vs sent w).1.db v.video_id ≡ none
  flush_votes-clears [] sent w v r i is_r fine = absurd i
  flush_votes-clears (u ∷ vs) sent w v r (inl at) is_r fine = elim (round u vs sent w) [
    | drops old e ↦
        rw (e, at) (stays_none u.video_id vs sent (removed u w) (find_vote-removed_self u w))
    | sends a w₁ fresh s e ↦
        rw (e, at)
          (stays_none u.video_id vs (sent + 1) (removed u w₁) (find_vote-removed_self u w₁))
    | stops message w₁ fresh s e ↦ no_stop sent r (sym (ap (λ x. x.0) e) ∙ is_r) fine
  ]
  flush_votes-clears (u ∷ vs) sent w v r (inr i) is_r fine = elim (round u vs sent w) [
    | drops old e ↦
        rw e (flush_votes-clears vs sent (removed u w) v r i (sym (ap (λ x. x.0) e) ∙ is_r) fine)
    | sends a w₁ fresh s e ↦
        rw e (
          flush_votes-clears vs (sent + 1) (removed u w₁) v r i (sym (ap (λ x. x.0) e) ∙ is_r) fine)
    | stops message w₁ fresh s e ↦ no_stop sent r (sym (ap (λ x. x.0) e) ∙ is_r) fine
  ]

  module _
      (accepts : (v : VoteRequest) (w : World)
        → (a : VoteResponse) × ((ApiClient.submit_vote p v w).0 ≡ ok a)) where
    never_stops :
        {A : Type 0} (v : VoteRequest) (w : World) {message : String} {w₁ : World}
        → ApiClient.submit_vote p v w ≡ (err message, w₁)
        → A
    never_stops v w s = let (a, fine) = accepts v w in absurd (cc (fine, ap (λ x. x.0) s))

    -- Where every submission succeeds, the loop counts no failure.
    pub flush_votes-no_failure :
        (vs : List PendingVote) (sent : ℕ) (w : World)
        → (r : FlushResult) × ((flush_votes p user_id now vs sent w).0 ≡ ok r) × (r.failed ≡ 0)
    unfolding flush_votes
    flush_votes-no_failure [] sent w = (finished sent, refl, refl)
    flush_votes-no_failure (v ∷ vs) sent w = elim (round v vs sent w) [
      | drops old e ↦ rw e (flush_votes-no_failure vs sent (removed v w))
      | sends a w₁ fresh s e ↦ rw e (flush_votes-no_failure vs (sent + 1) (removed v w₁))
      | stops message w₁ fresh s e ↦ never_stops (vote_request p user_id v) w s
    ]

    -- Where every submission succeeds, no vote of the loop stays in the queue.
    pub flush_votes-empties :
        (vs : List PendingVote) (sent : ℕ) (w : World) (v : PendingVote)
        → In v vs
        → find_vote (flush_votes p user_id now vs sent w).1.db v.video_id ≡ none
    flush_votes-empties vs sent w v i =
        let (r, e, fine) = flush_votes-no_failure vs sent w in
        flush_votes-clears vs sent w v r i e fine
