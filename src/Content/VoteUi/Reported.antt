-- ===== src/Content/VoteUi/Reported.antt =====
-- A vote from realtube-extension/src/content/vote-ui.ts through the worker and back: what the dropdown
-- says of it.
use real_tube.Prelude.{ℕ, String, ◌≡◌, refl, sym, ap, ◌∙◌, ◌⊎◌, inl, inr, Bool, true, Option, some}
use mathlib.Core.Path.{subst}
use real_tube.Effects.{ok}
use real_tube.Browser.{Platform, World}
use real_tube.ApiClient.Votes.{IsPosted}
use real_tube.Cache.{find_vote}
use real_tube.Background.{
  Answer, MessageResponse, success, voted, queued, Sender, is_id, answered, on_message, submit_vote,
  submit_or_queue,
}
use real_tube.Background.Queueing.{request, user, submit_or_queue_lem, on_message-vote}
use real_tube.Content.VoteUi
use real_tube.Content.VoteUi.{VoteUi, Dropdown, feedback}

shown :
    (o : Option Dropdown) (d : Dropdown) (is_success : Bool) (message : String) (s : VoteUi)
    → o ≡ some d
    → (VoteUi.feedback_in o is_success message s).dropdown ≡ some (feedback is_success message)
shown o d is_success message s e =
    subst
      (λ o.
        (VoteUi.feedback_in o is_success message s).dropdown ≡ some (feedback is_success message))
      (sym e) refl

-- what the dropdown shows once an answer has come
says :
    (answer : Answer) (s : VoteUi) (d : Dropdown)
    → s.dropdown ≡ some d
    → (VoteUi.on_response (ok (success answer)) s).dropdown
      ≡ some (feedback true (VoteUi.data_message answer))
unfolding VoteUi.on_response VoteUi.show_feedback
says answer s d e = shown s.dropdown d true (VoteUi.data_message answer) s e

module _ (p : Platform) (runtime_id : String) (sender : Sender) (video_id category : String)
    (w : World) where
  -- the worker's answer to the message of the vote, and its state after it
  abbrev pub reply : MessageResponse × World
  reply = on_message p runtime_id sender (submit_vote video_id category) w

  pub reply-eq :
      is_id sender.id runtime_id ≡ true
      → (answer : Answer) → (submit_or_queue p video_id category w).0 ≡ ok (success answer)
      → reply ≡ (success answer, (submit_or_queue p video_id category w).1)
  reply-eq own answer e =
      on_message-vote p runtime_id sender video_id category w own
      ∙ ap (λ r. answered (r, (submit_or_queue p video_id category w).1)) e

  -- The dropdown tells the user the truth about a vote. With any network and any server, once the
  -- worker has answered the message of a vote from the extension itself, a dropdown that is still
  -- there says either that the vote is submitted, and then the server has accepted it, or that it is
  -- saved offline, and then it is in the offline queue with a flush set for five seconds later.
  pub vote_reported :
      (s : VoteUi) (d : Dropdown)
      → is_id sender.id runtime_id ≡ true
      → s.dropdown ≡ some d
      → (((VoteUi.on_response (ok reply.0) s).dropdown ≡ some (feedback true "✓ Vote submitted"))
          × IsPosted p (request p video_id category (user p w)) reply.1.trace)
        ⊎ (((VoteUi.on_response (ok reply.0) s).dropdown
              ≡ some (feedback true "✓ Vote saved offline"))
            × ((timestamp : ℕ) × (find_vote reply.1.db video_id
                  ≡ some
                      (record { video_id = video_id; category = category; timestamp = timestamp }))
                × (reply.1.flush_timer ≡ some 5_000)))
  unfolding VoteUi.data_message
  vote_reported s d own there = elim (submit_or_queue_lem p video_id category w) [
    | inl (a, e, posted) ↦
        let r = reply-eq own (voted a) e in
        inl (
          ap (λ x. (VoteUi.on_response (ok x.0) s).dropdown) r ∙ says (voted a) s d there,
          subst (λ x. IsPosted p (request p video_id category (user p w)) x.1.trace) (sym r) posted,
        )
    | inr (message, timestamp, e, found, timer) ↦
        let r = reply-eq own (queued message) e in
        inr (
          ap (λ x. (VoteUi.on_response (ok x.0) s).dropdown) r ∙ says (queued message) s d there,
          (
            timestamp,
            ap (λ x. find_vote x.1.db video_id) r ∙ found,
            ap (λ x. x.1.flush_timer) r ∙ timer,
          ),
        )
  ]
