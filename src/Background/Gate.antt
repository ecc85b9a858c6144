-- ===== src/Background/Gate.antt =====
-- Who may learn the user's identity: the two tests of the listener in
-- realtube-extension/src/background/background.ts.
use real_tube.Prelude.{
  String, ◌≡◌, refl, Bool, true, false, not, ◌&&◌, if◌then◌else◌, arith, inl, inr, [], none,
}
use real_tube.Effects.{Result, ok, err, continue, pure, ◌>>=◌}
use real_tube.Browser.{Platform, World, M}
use real_tube.ApiClient
use real_tube.Cache
use real_tube.Identity
use real_tube.Sync
use real_tube.OfflineQueue
use real_tube.Background
use real_tube.Background.{
  Message, get_user_id, get_user_info, get_status, sync_delta, sync_full, get_sync_status,
  flush_pending_votes, open_popup, lookup_videos, check_videos, submit_vote, delete_vote, other,
  Sender, MessageResponse, failure, success, user_id, user_info, is_id, asks_for_user, answered,
  ensure_public_user_id, check_all, lookup_prefixes, submit_or_queue, handle_message, on_message,
}
use real_tube.Background.Queueing.{submit_or_queue_lem}

-- whether an answer carries the public user id or the user's record
abbrev pub reveals_user : MessageResponse → Bool
reveals_user (success (user_id id)) = true
reveals_user (success (user_info info)) = true
reveals_user _ = false

-- a handler that answers with `f`, once its work has settled
hides :
    {A : Type 0} (x : Result A × World) (f : A → World → MessageResponse)
    → ((a : A) (w : World) → reveals_user (f a w) ≡ false)
    → reveals_user (answered (continue x.0 (λ a w. (ok (f a w), w)) x.1)).0 ≡ false
hides (ok a, w) f h = h a w
hides (err message, w) f h = refl

deletion-hides :
    {A : Type 0} (p : Platform) (x : Result A × World) (m : A → M (Unit {0}))
    → reveals_user
        (answered (continue x.0 (λ a. m a >>= λ _. pure (success Background.nothing)) x.1)).0
      ≡ false
deletion-hides p (ok a, w) m = hides (m a w) (λ _ _. success Background.nothing) (λ _ _. refl)
deletion-hides p (err message, w) m = refl

module _ (p : Platform) where
  handler-hides :
      (message : Message) (w : World)
      → asks_for_user message ≡ false
      → reveals_user (answered (handle_message p message w)).0 ≡ false
  unfolding handle_message Sync.get_sync_status OfflineQueue.get_pending_vote_count
      Cache.get_pending_votes Cache.get_meta Cache.get_video_count Cache.get_channel_count
  handler-hides get_user_id w h = absurd (ground (arith, h))
  handler-hides get_user_info w h = absurd (ground (arith, h))
  handler-hides (check_videos ids) w h = hides (check_all p ids w) _ (λ a w. refl)
  handler-hides (lookup_videos ids) w h = hides (lookup_prefixes p _ none [] w) _ (λ a w. refl)
  handler-hides (submit_vote id category) w h = elim (submit_or_queue_lem p id category w) [
    | inl (a, e, posted) ↦ rw e refl
    | inr (message, timestamp, e, found, timer) ↦ rw e refl
  ]
  handler-hides (delete_vote id) w h =
      deletion-hides p (ensure_public_user_id p w) (λ user. ApiClient.delete_vote p id user)
  handler-hides sync_delta w h = hides (Sync.perform_delta_sync p w) _ (λ a w. refl)
  handler-hides sync_full w h = hides (Sync.perform_full_sync p w) _ (λ a w. refl)
  handler-hides get_sync_status w h = refl
  handler-hides flush_pending_votes w h =
      hides (OfflineQueue.flush_pending_votes p w) _ (λ a w. refl)
  handler-hides open_popup w h = refl
  handler-hides get_status w h = hides (Identity.get_local_id p w) _ (λ a w. refl)
  handler-hides (other type) w h = refl

  gate :
      (here asks tab : Bool) (message : Message) (w : World)
      → asks_for_user message ≡ asks
      → (here && not tab) ≡ false
      → reveals_user
          (if not here
            then (failure "Unauthorized sender", w)
            else if asks && tab
            then (failure "Not available from content scripts", w)
            else answered (handle_message p message w)).0
        ≡ false
  gate false asks tab message w e h = refl
  gate true true true message w e h = refl
  gate true false true message w e h = handler-hides message w e
  gate true asks false message w e h = absurd (ground (arith, h))

  -- Whatever the message, a sender that is another extension or a content script in a tab is never
  -- told the public user id or the user's record.
  pub on_message-hides_user :
      (runtime_id : String) (sender : Sender) (message : Message) (w : World)
      → (is_id sender.id runtime_id && not sender.tab) ≡ false
      → reveals_user (on_message p runtime_id sender message w).0 ≡ false
  unfolding on_message
  on_message-hides_user runtime_id sender message w h =
      gate (is_id sender.id runtime_id) (asks_for_user message) sender.tab message w refl h
