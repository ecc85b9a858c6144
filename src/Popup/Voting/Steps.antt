-- ===== src/Popup/Voting/Steps.antt =====
-- Each event of the popup in realtube-extension/src/popup/popup.tsx keeps its state in step.
use real_tube.Prelude.{
  ℕ, zero, suc, String, Bool, true, false, Option, none, some, List, [], ◌∷◌, All, is_some, if-both,
  arith, ◌≡◌, refl, sym, ap, ◌∙◌,
}
use mathlib.Core.Path.{subst}
use real_tube.Effects.{Result, ok, err}
use real_tube.Browser.{truthy}
use real_tube.Background.{Answer, Message, MessageResponse, success, failure}
use real_tube.Content.DomUtils.{Url}
use real_tube.Content.VoteUi.{Category, category_id}
use real_tube.Records.{Categories}
use real_tube.Popup.View.{render}
use real_tube.Popup.Session.{click_of, can_happen, happen, run}
use real_tube.Popup.Session.Enabled.{IsFree, vote_offered}
use real_tube.Popup
use real_tube.Popup.{PopupPage, SyncPhase, idle, delta_sent, status_sent, VoteFeedback}
use real_tube.Popup.Voting.{
  is_busy, Voted, IsAbout, IsCategoryOrNone, IsVoteFor, IsConsistent, find_in-IsAbout,
  or_keep-IsAbout, truthy-IsCategoryOrNone, answered-Voted, cleared-Voted, started-Voted,
  asked-IsVoteFor, no_votes,
}

module _ (s : PopupPage) (h : IsConsistent s) where
  vote-IsConsistent :
      (category video_id : Option String)
      → truthy s.selected ≡ category
      → truthy s.current_video_id ≡ video_id
      → is_some s.submitting ≡ false
      → is_some s.vote_feedback ≡ false
      → IsConsistent (Popup.handle_vote category video_id s)
  unfolding Popup.handle_vote
  vote-IsConsistent none video_id at_c at_id free shown = h
  vote-IsConsistent (some category) none at_c at_id free shown = h
  vote-IsConsistent (some category) (some id) at_c at_id free shown =
      if-both IsConsistent (is_some (truthy s.submitting)) s _ (λ _. h)
        λ _. record {
          voted = started-Voted s.submitting s.vote_feedback _ _ category free shown h.voted;
          syncing = h.syncing;
          selected = h.selected;
          video = h.video;
          unloaded = h.unloaded;
          votes = ((at_id, truthy-IsCategoryOrNone s.selected category h.selected at_c), h.votes);
        }

  answered-IsConsistent :
      (n : ℕ) (response : Result MessageResponse)
      → s.votes_in_flight ≡ n
      → IsConsistent (Popup.on_vote n response s)
  unfolding Popup.on_vote
  answered-IsConsistent zero response e = h
  answered-IsConsistent (suc others) response e = record {
    voted =
        answered-Voted s.submitting s.vote_feedback others s.feedback_timers
          (Popup.feedback_of response)
          (subst (λ n. Voted s.submitting s.vote_feedback n s.feedback_timers) e h.voted);
    syncing = h.syncing;
    selected = h.selected;
    video = h.video;
    unloaded = h.unloaded;
    votes = h.votes;
  }

  cleared-IsConsistent : (n : ℕ) → s.feedback_timers ≡ n → IsConsistent (Popup.clear_feedback n s)
  unfolding Popup.clear_feedback
  cleared-IsConsistent zero e = h
  cleared-IsConsistent (suc others) e = record {
    voted =
        cleared-Voted s.submitting s.vote_feedback s.votes_in_flight others
          (subst (λ n. Voted s.submitting s.vote_feedback s.votes_in_flight n) e h.voted);
    syncing = h.syncing;
    selected = h.selected;
    video = h.video;
    unloaded = h.unloaded;
    votes = h.votes;
  }

  same_video :
      (o : Option String) (answer : Answer)
      → truthy s.current_video_id ≡ o
      → IsConsistent (Popup.on_videos o answer s)
  unfolding Popup.on_videos
  same_video none answer e = h
  same_video (some id) answer e = record {
    voted = h.voted;
    syncing = h.syncing;
    selected = h.selected;
    video = subst (IsAbout (Popup.or_keep (Popup.find_in answer id) s.current_video)) (sym e) (
        or_keep-IsAbout (Popup.find_in answer id) s.current_video (some id)
          (find_in-IsAbout answer id) (subst (IsAbout s.current_video) e h.video));
    unloaded = λ loading. absurd (ground (arith, sym (ap truthy (h.unloaded loading).1) ∙ e));
    votes = h.votes;
  }

  toggled-IsConsistent : IsConsistent (Popup.handle_toggle s)
  unfolding Popup.handle_toggle
  toggled-IsConsistent = record {
    voted = h.voted;
    syncing = h.syncing;
    selected = if-both IsCategoryOrNone s.enabled none s.selected (λ _. tt) (λ _. h.selected);
    video = h.video;
    unloaded = h.unloaded;
    votes = h.votes;
  }

  select-IsConsistent : (category : Category) → IsConsistent (Popup.select (category_id category) s)
  unfolding Popup.select
  select-IsConsistent category = record {
    voted = h.voted;
    syncing = h.syncing;
    selected =
        if-both IsCategoryOrNone (Popup.is_selected s.selected (category_id category)) none _
          (λ _. tt) (λ _. (category, refl));
    video = h.video;
    unloaded = h.unloaded;
    votes = h.votes;
  }

  load-IsConsistent :
      (enabled : Option Bool) (id : Option String)
      → s.loading ≡ true
      → IsConsistent (Popup.load enabled id s)
  unfolding Popup.load
  load-IsConsistent enabled id loading = record {
    voted = h.voted;
    syncing = h.syncing;
    selected = h.selected;
    video = subst (λ v. IsAbout v (truthy id)) (sym (h.unloaded loading).0) tt;
    unloaded = λ e. absurd (ground (arith, e));
    votes = asked-IsVoteFor (truthy id) (truthy id) s.sent (
        no_votes (truthy id) s.sent
          (subst (λ v. All (IsVoteFor (truthy v)) s.sent) (h.unloaded loading).1 h.votes));
  }

  -- a state that differs in nothing that the invariant reads but the phase of a sync
  synced-IsConsistent :
      (phase : SyncPhase) (status : Option Popup.SyncStatus) (sent : List Message)
      → All (IsVoteFor (truthy s.current_video_id)) sent
      → IsConsistent (record s {
        syncing = is_busy phase;
        sync_phase = phase;
        sync_status = status;
        sent = sent;
      })
  synced-IsConsistent phase status sent votes = record {
    voted = h.voted;
    syncing = refl;
    selected = h.selected;
    video = h.video;
    unloaded = h.unloaded;
    votes = votes;
  }

  sync-IsConsistent : IsConsistent (Popup.handle_sync s)
  unfolding Popup.handle_sync
  sync-IsConsistent =
      if-both IsConsistent s.syncing s _ (λ _. h)
        (λ _. synced-IsConsistent delta_sent s.sync_status _ (tt, h.votes))

  on_sync-IsConsistent :
      (phase : SyncPhase) (response : Result MessageResponse)
      → s.sync_phase ≡ phase
      → IsConsistent (Popup.on_sync phase response s)
  unfolding Popup.on_sync
  on_sync-IsConsistent idle response e = h
  on_sync-IsConsistent status_sent response e = h
  on_sync-IsConsistent delta_sent (ok response) e = record {
    voted = h.voted;
    syncing = h.syncing ∙ ap is_busy e;
    selected = h.selected;
    video = h.video;
    unloaded = h.unloaded;
    votes = (tt, h.votes);
  }
  on_sync-IsConsistent delta_sent (err message) e =
      synced-IsConsistent idle s.sync_status s.sent h.votes

  on_status-IsConsistent :
      (phase : SyncPhase) (response : Result MessageResponse)
      → IsConsistent (Popup.on_status phase response s)
  unfolding Popup.on_status
  on_status-IsConsistent idle response = h
  on_status-IsConsistent delta_sent response = h
  on_status-IsConsistent status_sent (ok (success answer)) =
      synced-IsConsistent idle (Popup.sync_status_of answer) s.sent h.votes
  on_status-IsConsistent status_sent (ok (failure error)) =
      synced-IsConsistent idle s.sync_status s.sent h.votes
  on_status-IsConsistent status_sent (err message) =
      synced-IsConsistent idle s.sync_status s.sent h.votes

  -- what the invariant does not read
  other-IsConsistent :
      (connected : Popup.Connection) (info : Option Popup.UserInfoResponse)
      (status : Option Popup.SyncStatus)
      → IsConsistent (record s { connected = connected; user_info = info; sync_status = status })
  other-IsConsistent connected info status = record {
    voted = h.voted;
    syncing = h.syncing;
    selected = h.selected;
    video = h.video;
    unloaded = h.unloaded;
    votes = h.votes;
  }

module _ (parse : String → Option Url) where
  handle-IsConsistent :
      (event : Popup.Event) (s : PopupPage)
      → IsConsistent s
      → (event ≡ Popup.vote_clicked → IsFree s.vote_feedback s.submitting)
      → IsConsistent (Popup.handle parse event s)
  unfolding Popup.handle
  handle-IsConsistent (Popup.loaded enabled url) s h free =
      if-both IsConsistent s.loading _ s (load-IsConsistent s h enabled _) (λ _. h)
  handle-IsConsistent Popup.load_failed s h free =
      if-both IsConsistent s.loading _ s
        (λ loading. record {
          voted = h.voted;
          syncing = h.syncing;
          selected = h.selected;
          video = h.video;
          unloaded = λ e. h.unloaded loading;
          votes = h.votes;
        })
        (λ _. h)
  handle-IsConsistent (Popup.user_info_answered (ok (success answer))) s h free =
      other-IsConsistent s h _ _ s.sync_status
  handle-IsConsistent (Popup.user_info_answered (ok (failure error))) s h free = h
  handle-IsConsistent (Popup.user_info_answered (err message)) s h free =
      other-IsConsistent s h _ s.user_info s.sync_status
  handle-IsConsistent (Popup.sync_status_answered (ok (success answer))) s h free =
      other-IsConsistent s h s.connected s.user_info _
  handle-IsConsistent (Popup.sync_status_answered (ok (failure error))) s h free = h
  handle-IsConsistent (Popup.sync_status_answered (err message)) s h free = h
  handle-IsConsistent (Popup.videos_answered (ok (success answer))) s h free =
      same_video s h _ answer refl
  handle-IsConsistent (Popup.videos_answered (ok (failure error))) s h free = h
  handle-IsConsistent (Popup.videos_answered (err message)) s h free = h
  handle-IsConsistent Popup.toggle_clicked s h free = toggled-IsConsistent s h
  handle-IsConsistent (Popup.category_clicked category) s h free = select-IsConsistent s h category
  handle-IsConsistent Popup.vote_clicked s h free =
      vote-IsConsistent s h (truthy s.selected) (truthy s.current_video_id) refl refl (free refl).0
        (free refl).1
  handle-IsConsistent (Popup.vote_answered response) s h free =
      answered-IsConsistent s h _ response refl
  handle-IsConsistent Popup.feedback_due s h free = cleared-IsConsistent s h _ refl
  handle-IsConsistent Popup.sync_clicked s h free = sync-IsConsistent s h
  handle-IsConsistent (Popup.sync_answered response) s h free =
      on_sync-IsConsistent s h _ response refl
  handle-IsConsistent (Popup.status_answered response) s h free =
      on_status-IsConsistent s h _ response

  module _ (sort : Categories → Categories) (date_ms : String → Option ℕ) where
    -- a click on the button "Vote" is one that the page offers
    IsFree-if :
        (now : ℕ) (event : Popup.Event) (s : PopupPage)
        → can_happen (click_of event) (render sort now date_ms s) ≡ true
        → event ≡ Popup.vote_clicked
        → IsFree s.vote_feedback s.submitting
    IsFree-if now event s can e =
        vote_offered sort now date_ms s
          (subst (λ event. can_happen (click_of event) (render sort now date_ms s) ≡ true) e can)

    happen-IsConsistent :
        (now : ℕ) (event : Popup.Event) (s : PopupPage)
        → IsConsistent s
        → IsConsistent (happen parse sort date_ms now event s)
    unfolding happen
    happen-IsConsistent now event s h =
        if-both IsConsistent (can_happen (click_of event) (render sort now date_ms s)) _ s
          (λ can. handle-IsConsistent event s h (IsFree-if now event s can)) (λ _. h)

    -- Whatever the worker and the clock do, and whatever the user clicks of what the popup renders as
    -- enabled at the time, in whatever order: there is at most one vote whose answer is still to come,
    -- and there is one just while `submitting` names a category; there is one timeout while there is
    -- feedback on a vote and none otherwise, and no feedback while `submitting` is set; the answer to
    -- a sync is still to come just while `syncing` is set; the video in the state is that of the tab;
    -- and every vote that was sent is for the video of the tab, in one of the five categories. This
    -- holds from any state in which it holds.
    pub run-IsConsistent :
        (events : List (ℕ × Popup.Event)) (s : PopupPage)
        → IsConsistent s
        → IsConsistent (run parse sort date_ms events s)
    unfolding run
    run-IsConsistent [] s h = h
    run-IsConsistent ((now, event) ∷ events) s h =
        run-IsConsistent events _ (happen-IsConsistent now event s h)
