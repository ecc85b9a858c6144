-- ===== src/Popup/Reported.antt =====
-- A vote from realtube-extension/src/popup/popup.tsx through the worker and back: what the popup says
-- of it.
use real_tube.Prelude.{ℕ, suc, String, ◌≡◌, sym, ap, ◌∙◌, ◌⊎◌, inl, inr, true, Option, some}
use mathlib.Core.Path.{subst}
use real_tube.Effects.{ok}
use real_tube.Browser.{Platform, World}
use real_tube.ApiClient.Votes.{IsPosted}
use real_tube.Cache.{find_vote}
use real_tube.Background.{success, Answer, voted, queued, Sender, is_id}
use real_tube.Background.Queueing.{request, user, submit_or_queue_lem}
use real_tube.Content.VoteUi.Reported.{reply, reply-eq}
use real_tube.Content.DomUtils.{Url}
use real_tube.Popup
use real_tube.Popup.{PopupPage, VoteFeedback}

abbrev pub submitted : VoteFeedback
submitted = record { is_success = true; message = "Vote submitted" }

-- an answer with success to a vote that is under way
answered_lem :
    (parse : String → Option Url) (answer : Answer) (s : PopupPage) (others : ℕ)
    → s.votes_in_flight ≡ suc others
    → (Popup.handle parse (Popup.vote_answered (ok (success answer))) s).vote_feedback
      ≡ some submitted
unfolding Popup.handle Popup.on_vote Popup.feedback_of
answered_lem parse answer s others e =
    ap (λ n. (Popup.on_vote n (ok (success answer)) s).vote_feedback) e

module _ (p : Platform) (runtime_id : String) (sender : Sender) (video_id category : String)
    (w : World) where
  -- With any network and any server, once the worker has answered the vote of the popup, the popup says
  -- that the vote is submitted, and the vote is not lost: either the server has accepted it, or it
  -- is in the offline queue with a flush set for five seconds later, of which the popup says nothing.
  pub popup_vote_reported :
      (parse : String → Option Url) (s : PopupPage) (others : ℕ)
      → is_id sender.id runtime_id ≡ true
      → s.votes_in_flight ≡ suc others
      → let (response, w₁) = reply p runtime_id sender video_id category w in
        ((Popup.handle parse (Popup.vote_answered (ok response)) s).vote_feedback ≡ some submitted)
        × (IsPosted p (request p video_id category (user p w)) w₁.trace
            ⊎ ((timestamp : ℕ) × (find_vote w₁.db video_id
                  ≡ some
                      (record { video_id = video_id; category = category; timestamp = timestamp }))
                × (w₁.flush_timer ≡ some 5_000)))
  popup_vote_reported parse s others own flying = elim (submit_or_queue_lem p video_id category w) [
    | inl (a, e, posted) ↦
        let r = reply-eq p runtime_id sender video_id category w own (voted a) e in
        (
          says (voted a) r,
          inl (
              subst (λ x. IsPosted p (request p video_id category (user p w)) x.1.trace) (sym r)
                posted),
        )
    | inr (message, timestamp, e, found, timer) ↦
        let r = reply-eq p runtime_id sender video_id category w own (queued message) e in
        (
          says (queued message) r,
          inr (
            timestamp,
            ap (λ x. find_vote x.1.db video_id) r ∙ found,
            ap (λ x. x.1.flush_timer) r ∙ timer,
          ),
        )
  ]
    where
      says :
          (answer : Answer) {w₁ : World}
          → reply p runtime_id sender video_id category w ≡ (success answer, w₁)
          → (Popup.handle parse
              (Popup.vote_answered (ok (reply p runtime_id sender video_id category w).0))
              s).vote_feedback
            ≡ some submitted
      says answer r =
          ap (λ x. (Popup.handle parse (Popup.vote_answered (ok x.0)) s).vote_feedback) r
          ∙ answered_lem parse answer s others flying
