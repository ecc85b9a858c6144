-- ===== src/Popup/Session/Enabled.antt =====
-- When the popup of realtube-extension/src/popup/popup.tsx takes a click on its button "Vote".
use mathlib.Core.Option
use real_tube.Prelude.{
  ℕ, String, Bool, true, false, not, ◌||◌, Option, none, some, is_some, List, ◌≡◌, refl, arith,
}
use real_tube.Records.{Categories}
use real_tube.Browser.{truthy}
use real_tube.Sync.{SyncStatus}
use real_tube.Popup.{PopupPage, Connection, VoteFeedback}
use real_tube.Popup.Helpers.{TimeAgo, format_time_ago}
use real_tube.Popup.View.{
  Button, VideoInfo, Stats, Body, body, video_part, page, quick_vote, cache_info, status_bar,
  render, current_video_info, user_stats,
}
use real_tube.Popup.Session.{on_vote, offers, buttons, form_buttons, body_buttons}

-- both must hold for the button to be offered
offers-page :
    (loading enabled : Bool) (connected : Connection) (shown : Body)
    → offers on_vote (buttons (page loading (status_bar enabled connected) shown)) ≡ true
    → offers on_vote (body_buttons shown) ≡ true
unfolding page
offers-page true enabled connected shown e = absurd (ground (arith, e))
offers-page false enabled connected shown e = e

-- no vote is under way, and there is no feedback
abbrev pub IsFree : (told : Option VoteFeedback) (submitting : Option String) → Type 0
IsFree told submitting = (is_some submitting ≡ false) × (is_some told ≡ false)

offers_form :
    (told : Option VoteFeedback) (submitting selected : Option String)
    → offers on_vote (form_buttons (quick_vote told submitting selected)) ≡ true
    → IsFree told submitting
offers_form (some feedback) submitting selected e = absurd (ground (arith, e))
offers_form none submitting selected e = (enabled _ _ e, refl)
  where
    enabled : (a b : Bool) → (not (not a || b) || false) ≡ true → b ≡ false
    enabled true true e = absurd (ground (arith, e))
    enabled false true e = absurd (ground (arith, e))
    enabled a false e = refl

module _ (ago : Option String → TimeAgo) (syncing : Bool) (info : VideoInfo)
    (told : Option VoteFeedback) (submitting selected : Option String) (stats : Option Stats) where
  abbrev content : Bool → Option String → Option SyncStatus → List Button
  content enabled id status = body_buttons (
      body enabled (video_part id info (quick_vote told submitting selected)) stats
        (Option.map (cache_info ago syncing) status))

  offers-content :
      (enabled : Bool) (id : Option String) (status : Option SyncStatus)
      → offers on_vote (content enabled id status) ≡ true
      → IsFree told submitting
  unfolding body video_part
  offers-content false id status e = absurd (ground (arith, e))
  offers-content true none none e = absurd (ground (arith, e))
  offers-content true none (some status) e = absurd (ground (arith, e))
  offers-content true (some id) none e = offers_form told submitting selected e
  offers-content true (some id) (some status) e = offers_form told submitting selected e

pub vote_offered :
    (sort : Categories → Categories) (now : ℕ) (date_ms : String → Option ℕ) (s : PopupPage)
    → offers on_vote (buttons (render sort now date_ms s)) ≡ true
    → IsFree s.vote_feedback s.submitting
unfolding render
vote_offered sort now date_ms s e =
    offers-content (format_time_ago now date_ms) s.syncing (current_video_info sort s.current_video)
      s.vote_feedback s.submitting s.selected (Option.map user_stats s.user_info) s.enabled
      (truthy s.current_video_id) s.sync_status (offers-page s.loading s.enabled s.connected _ e)
