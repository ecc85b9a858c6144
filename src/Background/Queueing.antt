-- ===== src/Background/Queueing.antt =====
-- SUBMIT_VOTE of realtube-extension/src/background/background.ts: a vote reaches the server or the
-- offline queue.
use Prim.Native.String.{◌++◌}
use real_tube.Prelude.{ℕ, String, true, eq_refl, ◌≡◌, refl, ◌∙◌, ◌⊎◌, Option, none, some, inl, inr}
use real_tube.Records.{VoteRequest, VoteResponse, PendingVote}
use real_tube.Effects.{Result, ok, err, handle, continue, pure, ◌>>=◌}
use real_tube.ObjectStore.Laws.{get-put}
use real_tube.Browser.{Platform, World, truthy}
use real_tube.ApiClient
use real_tube.ApiClient.Votes.{IsPosted, submit_vote-ok}
use real_tube.Cache.{vote_key, find_vote, add_pending_vote}
use real_tube.Identity.Laws.{public_user_id, identified, get_public_user_id_lem}
use real_tube.OfflineQueue.{enqueue_vote}
use real_tube.Background.{
  MessageResponse, success, voted, queued, Sender, is_id, answered, on_message, handle_message,
  submit_vote, ensure_public_user_id, public_user_id_or_new, submit_or_queue,
}

module _ (p : Platform) where
  abbrev user_or_new : Option String → World → String
  user_or_new (some id) w = id
  user_or_new none w = public_user_id p w

  -- the public user id that a vote is submitted with
  abbrev pub user : World → String
  user w = user_or_new (truthy w.cached_public_user_id) w

  user_lem :
      (cached : Option String) (w : World)
      → (w₁ : World) × (public_user_id_or_new p cached w ≡ (ok (user_or_new cached w), w₁))
  unfolding public_user_id_or_new
  user_lem (some id) w = (w, refl)
  user_lem none w = (
    record (identified p w) { cached_public_user_id = some (public_user_id p w) },
    rw (get_public_user_id_lem p w) refl,
  )

  ensure_lem : (w : World) → (w₁ : World) × (ensure_public_user_id p w ≡ (ok (user w), w₁))
  unfolding ensure_public_user_id
  ensure_lem w = user_lem (truthy w.cached_public_user_id) w

  abbrev pub request : (video_id category user_id : String) → VoteRequest
  request video_id category user_id = record {
    video_id = video_id;
    category = category;
    user_id = user_id;
    user_agent = "RealTube/0.1.0 " ++ p.user_agent;
  }

  -- the vote was posted and accepted, or it is in the queue with a flush to come in five seconds
  abbrev Concludes : (video_id category user_id : String) → Result MessageResponse × World → Type 0
  Concludes video_id category user_id x =
      ((a : VoteResponse) × (x.0 ≡ ok (success (voted a)))
        × IsPosted p (request video_id category user_id) x.1.trace)
      ⊎ ((message : String) × (timestamp : ℕ) × (x.0 ≡ ok (success (queued message)))
          × (find_vote x.1.db video_id
              ≡ some (record { video_id = video_id; category = category; timestamp = timestamp }))
          × (x.1.flush_timer ≡ some 5_000))

  abbrev fallback : String
  fallback = "Vote saved offline, will submit when connection is restored"

  enqueued-Concludes :
      (video_id category user_id : String) (w : World)
      → Concludes video_id category user_id
          ((enqueue_vote p video_id category >>= λ _. pure (success (queued fallback))) w)
  unfolding enqueue_vote add_pending_vote
  enqueued-Concludes video_id category user_id w =
      let vote : PendingVote = record {
        video_id = video_id;
        category = category;
        timestamp = p.now w.trace;
      } in
      inr (
        fallback,
        p.now w.trace,
        refl,
        get-put vote_key video_id vote w.db.pending_votes ∙ rw (eq_refl video_id) refl,
        refl,
      )

  submitted-Concludes :
      (video_id category user_id : String) (w : World) (x : Result VoteResponse × World)
      → ApiClient.submit_vote p (request video_id category user_id) w ≡ x
      → Concludes video_id category user_id (
          let (r, w₁) = continue x.0 (λ result. pure (success (voted result))) x.1 in
          handle r
            (λ message. enqueue_vote p video_id category >>= λ _. pure (success (queued fallback)))
            w₁)
  submitted-Concludes video_id category user_id w (ok a, w₁) e =
      inl (a, refl, (submit_vote-ok p (request video_id category user_id) w e).1)
  submitted-Concludes video_id category user_id w (err message, w₁) e =
      enqueued-Concludes video_id category user_id w₁

  -- A vote is always answered with success, and it is never lost. Either it was posted to the server
  -- with the public user id of that moment and the server accepted it, or it is in the offline queue
  -- and a flush is set for five seconds later.
  pub submit_or_queue_lem :
      (video_id category : String) (w : World)
      → ((a : VoteResponse) × ((submit_or_queue p video_id category w).0 ≡ ok (success (voted a)))
          × IsPosted p
              (request video_id category (user w))
              (submit_or_queue p video_id category w).1.trace)
        ⊎ ((message : String) × (timestamp : ℕ) × ((submit_or_queue p video_id category w).0
              ≡ ok (success (queued message)))
            × (find_vote (submit_or_queue p video_id category w).1.db video_id
                ≡ some (record { video_id = video_id; category = category; timestamp = timestamp }))
            × ((submit_or_queue p video_id category w).1.flush_timer ≡ some 5_000))
  unfolding submit_or_queue
  submit_or_queue_lem video_id category w =
      let (w₁, e) = ensure_lem w in rw e (submitted-Concludes video_id category (user w) w₁ _ refl)

  -- the listener passes a vote of the extension's own pages and scripts on
  pub on_message-vote :
      (runtime_id : String) (sender : Sender) (video_id category : String) (w : World)
      → is_id sender.id runtime_id ≡ true
      → on_message p runtime_id sender (submit_vote video_id category) w
        ≡ answered (submit_or_queue p video_id category w)
  unfolding on_message handle_message
  on_message-vote runtime_id sender video_id category w own = rw own refl
