-- ===== src/Background/Kinds.antt =====
-- The kind of data in each answer of realtube-extension/src/background/background.ts. The pages and the
-- content scripts cast it to the type that they expect.
use real_tube.Prelude.{String, ◌≡◌, refl, Bool, true, false, not, ◌&&◌, if-both, none, []}
use real_tube.Effects.{Result, ok, err, pure, ◌>>=◌}
use real_tube.Effects.Returns.{Settles, Returns, Returns-pure, Returns-bind, Returns-catch}
use real_tube.Browser.{Platform, World, M}
use real_tube.ApiClient
use real_tube.Identity
use real_tube.Sync
use real_tube.OfflineQueue
use real_tube.Background.{
  Message, get_user_id, get_user_info, get_status, sync_delta, sync_full, get_sync_status,
  flush_pending_votes, open_popup, lookup_videos, check_videos, submit_vote, delete_vote, other,
  Answer, Sender, MessageResponse, failure, success, is_id, asks_for_user, answered,
  ensure_public_user_id, check_all, lookup_prefixes, submit_or_queue, handle_message, on_message,
}

-- whether the data of an answer is what the message asks for
abbrev pub fits : Message → Answer → Bool
fits get_user_id (Answer.user_id id) = true
fits get_user_info (Answer.user_info info) = true
fits get_status (Answer.status status) = true
fits sync_delta (Answer.delta counts) = true
fits sync_full (Answer.full counts) = true
fits get_sync_status (Answer.sync_status status) = true
fits flush_pending_votes (Answer.flushed result) = true
fits open_popup Answer.nothing = true
fits (lookup_videos ids) (Answer.video_results videos) = true
fits (check_videos ids) (Answer.cached_videos videos) = true
fits (submit_vote id category) (Answer.voted response) = true
fits (submit_vote id category) (Answer.queued message) = true
fits (delete_vote id) Answer.nothing = true
fits _ _ = false

-- A response is a failure, or its data is what the message asks for.
abbrev pub Fits : Message → MessageResponse → Type 0
Fits message (success answer) = fits message answer ≡ true
Fits message (failure error) = Unit

module _ (p : Platform) where
  -- a handler that answers with `f`, once its work is done
  answers :
      {A : Type 0} (message : Message) (run : M A) (f : A → Answer)
      → ((a : A) → fits message (f a) ≡ true)
      → Returns (Fits message) (run >>= λ a. pure (success (f a)))
  answers message run f h = Returns-bind run _ λ a. Returns-pure _ (h a)

  pub handle_message-Fits : (message : Message) → Returns (Fits message) (handle_message p message)
  unfolding handle_message submit_or_queue
  handle_message-Fits get_user_id = answers get_user_id (ensure_public_user_id p) _ (λ a. refl)
  handle_message-Fits get_user_info =
      Returns-bind (ensure_public_user_id p) _ λ user. answers get_user_info _ _ (λ a. refl)
  handle_message-Fits (check_videos ids) =
      answers (check_videos ids) (check_all p ids) _ (λ a. refl)
  handle_message-Fits (lookup_videos ids) =
      answers (lookup_videos ids) (lookup_prefixes p _ none []) _ (λ a. refl)
  handle_message-Fits (submit_vote id category) =
      Returns-catch _ _
        (Returns-bind (ensure_public_user_id p) _
          λ user. answers (submit_vote id category) _ _ (λ a. refl))
        λ message. Returns-bind (OfflineQueue.enqueue_vote p id category) _ λ _. Returns-pure _ refl
  handle_message-Fits (delete_vote id) =
      Returns-bind (ensure_public_user_id p) _
        λ user. Returns-bind (ApiClient.delete_vote p id user) _ λ _. Returns-pure _ refl
  handle_message-Fits sync_delta = answers sync_delta (Sync.perform_delta_sync p) _ (λ a. refl)
  handle_message-Fits sync_full = answers sync_full (Sync.perform_full_sync p) _ (λ a. refl)
  handle_message-Fits get_sync_status = answers get_sync_status Sync.get_sync_status _ (λ a. refl)
  handle_message-Fits flush_pending_votes =
      answers flush_pending_votes (OfflineQueue.flush_pending_votes p) _ (λ a. refl)
  handle_message-Fits open_popup = Returns-pure _ refl
  handle_message-Fits get_status = Returns-bind (Identity.get_local_id p) _ λ local_id.
      Returns-bind Sync.get_sync_status _
        λ sync. Returns-bind OfflineQueue.get_pending_vote_count _ λ pending. Returns-pure _ refl
  handle_message-Fits (other type) = Returns-pure _ tt

  answered-Fits :
      (message : Message) (x : Result MessageResponse × World)
      → Settles (Fits message) x.0
      → Fits message (answered x).0
  answered-Fits message (ok response, w) h = h
  answered-Fits message (err error, w) h = tt

  -- Whatever the message, the sender, the state, the network and the server, the response is a failure
  -- or it carries the kind of data that belongs to the message, which the receivers cast it to: the
  -- user id, the user's record, the status, the counts of a sync, the status of the syncs, the counts
  -- of a flush, the results of a lookup, cached videos, the server's answer to a vote or the note that
  -- the vote is queued, and nothing for the deletion of a vote and the opening of the popup.
  pub on_message-Fits :
      (runtime_id : String) (sender : Sender) (message : Message) (w : World)
      → Fits message (on_message p runtime_id sender message w).0
  unfolding on_message
  on_message-Fits runtime_id sender message w =
      if-both P (not (is_id sender.id runtime_id)) _ _ (λ _. tt)
        λ _.
          if-both P (asks_for_user message && sender.tab) _ _ (λ _. tt)
            λ _.
              answered-Fits message (handle_message p message w)
                ((handle_message-Fits message).at w)
    where
      P : MessageResponse × World → Type 0
      P x = Fits message x.0
