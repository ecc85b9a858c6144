-- ===== src/Tests/Widgets.antt =====
-- The vote button, the popup and the settings page at concrete inputs.
use real_tube.Prelude.{
  ℕ, Bool, ◌==◌, ◌*◌, ◌≡◌, ◌⊎◌, refl, true, false, String, Option, none, some, [], ◌∷◌, List, arith,
}
use real_tube.Records.{one}
use real_tube.Effects.{ok}
use real_tube.Background.{failure}
use real_tube.Content.DomUtils.{Url}
use real_tube.Content.VoteUi
use real_tube.Content.VoteUi.{Place, fully_ai, ai_assisted}
use real_tube.Content.VoteUi.Sound.{IsSound, run-IsSound, initial-IsSound}
use real_tube.Background.{Sender, is_id}
use real_tube.Background.Queueing.{request, user}
use real_tube.ApiClient.Votes.{IsPosted}
use real_tube.Cache.{find_vote}
use real_tube.Content.VoteUi.{VoteUi}
use real_tube.Content.VoteUi.Reported.{reply, vote_reported}
use real_tube.Tests.Fixtures.{service, waiting}
use real_tube.Options
use real_tube.Options.{Items, load_settings}
use real_tube.Options.Reload.{settled, settings_survive}
use real_tube.Options.Ttl.{IsBounded, run-IsBounded}
use real_tube.Records.{Categories}
use real_tube.Popup.Session.{run}
use real_tube.Popup
use real_tube.Popup.Reported.{submitted, popup_vote_reported}
use real_tube.Popup.Voting.{opened-IsConsistent, IsConsistent}
use real_tube.Popup.Voting.Steps.{run-IsConsistent}

-- a page with the bar of buttons below its video
abbrev has_buttons : String → Bool
has_buttons selector = selector == "#top-level-buttons-computed"

abbrev place : Place
place = record { search_v = some "clip"; pathname = "/watch"; has = has_buttons }

-- a vote is sent, the dropdown is closed and opened again, and another vote is sent before the answer
-- to the first has come
abbrev two_votes : List VoteUi.Event
two_votes =
    VoteUi.injected place
    ∷ VoteUi.button_clicked
    ∷ VoteUi.category_clicked fully_ai
    ∷ VoteUi.vote_clicked place
    ∷ VoteUi.key_pressed "Escape"
    ∷ VoteUi.button_clicked
    ∷ VoteUi.category_clicked ai_assisted
    ∷ VoteUi.vote_clicked place
    ∷ []

run-IsSound_example : IsSound (VoteUi.run two_votes VoteUi.initial)
run-IsSound_example = run-IsSound two_votes VoteUi.initial initial-IsSound

-- both votes are under way
two_votes_test :
    (VoteUi.run two_votes VoteUi.initial).in_flight
    ≡ (("clip", "ai_assisted") ∷ ("clip", "fully_ai") ∷ [])
unfolding VoteUi.run VoteUi.handle VoteUi.inject_vote_button VoteUi.open_dropdown
    VoteUi.close_dropdown VoteUi.action_bar VoteUi.select_category VoteUi.submit_vote
    VoteUi.get_video_id
two_votes_test = refl

abbrev empty : Items
empty = record {
  enabled = none;
  shorts_filter_enabled = none;
  default_action = none;
  hide_threshold = none;
  category_thresholds = none;
  badge_style = none;
  show_notifications = none;
  hash_prefix_mode = none;
  server_url = none;
  cache_ttl_minutes = none;
  debug_logging = none;
}

-- two edits, and only then the write of them
abbrev edits : List Options.Event
edits =
    Options.settings_loaded
    ∷ Options.edit_made (Options.set_cache_ttl (Options.pos (9000 * one)))
    ∷ Options.edit_made (Options.set_category_threshold "ai_visuals" 80)
    ∷ []

loaded_test : (Options.run edits (Options.opened empty)).loading ≡ false
unfolding Options.run Options.handle Options.save
loaded_test = refl

settings_survive_example :
    load_settings (settled (Options.run edits (Options.opened empty))).storage
    ≡ (Options.run edits (Options.opened empty)).settings
settings_survive_example = settings_survive empty edits loaded_test

opened-IsBounded : IsBounded (Options.opened empty)
opened-IsBounded = record { shown = (omega arith, omega arith); pending = tt; stored = tt }

run-IsBounded_example : IsBounded (Options.run edits (Options.opened empty))
run-IsBounded_example = run-IsBounded edits (Options.opened empty) opened-IsBounded

abbrev watch_page : Url
watch_page = record { hostname = "www.youtube.com"; pathname = "/watch"; search_v = some "clip" }

abbrev parse_watch : String → Option Url
parse_watch text = some watch_page

-- a vote that the worker refuses, and the timeout of its feedback
abbrev refused_vote : List (ℕ × Popup.Event)
refused_vote =
    (0, Popup.loaded none (some "https://www.youtube.com/watch?v=clip"))
    ∷ (1, Popup.category_clicked fully_ai)
    ∷ (2, Popup.vote_clicked)
    ∷ (3, Popup.vote_answered (ok (failure "Rate limited")))
    ∷ (4, Popup.feedback_due)
    ∷ []

abbrev unsorted : Categories → Categories
unsorted entries = entries

abbrev midnight : String → Option ℕ
midnight date = some 0

abbrev popup_after : List (ℕ × Popup.Event) → Popup.PopupPage
popup_after events = run parse_watch unsorted midnight events Popup.opened

run-IsConsistent_example : IsConsistent (popup_after refused_vote)
run-IsConsistent_example =
    run-IsConsistent parse_watch unsorted midnight refused_vote Popup.opened opened-IsConsistent

abbrev tab : Sender
tab = record { id = some "realtube"; tab = true }

own_test : is_id tab.id "realtube" ≡ true
unfolding is_id
own_test = refl

-- a dropdown whose vote is on its way
abbrev voting : VoteUi
voting = record VoteUi.initial {
  container = some true;
  dropdown = some (VoteUi.menu (some "fully_ai") true true);
  selected = some "fully_ai";
  is_submitting = true;
  listening = true;
}

vote_reported_example :
    (((VoteUi.on_response
          (ok (reply service "realtube" tab "clip" "fully_ai" waiting).0)
          voting).dropdown
        ≡ some (VoteUi.feedback true "✓ Vote submitted"))
      × IsPosted service
          (request service "clip" "fully_ai" (user service waiting))
          (reply service "realtube" tab "clip" "fully_ai" waiting).1.trace)
    ⊎ (((VoteUi.on_response
            (ok (reply service "realtube" tab "clip" "fully_ai" waiting).0)
            voting).dropdown
          ≡ some (VoteUi.feedback true "✓ Vote saved offline"))
        × ((timestamp : ℕ) × (find_vote
                (reply service "realtube" tab "clip" "fully_ai" waiting).1.db
                "clip"
              ≡ some (record { video_id = "clip"; category = "fully_ai"; timestamp = timestamp }))
            × ((reply service "realtube" tab "clip" "fully_ai" waiting).1.flush_timer
                ≡ some 5_000)))
vote_reported_example =
    vote_reported service "realtube" tab "clip" "fully_ai" waiting voting
      (VoteUi.menu (some "fully_ai") true true) own_test refl

-- the popup, which is no content script, and a vote of it that is under way
abbrev page : Sender
page = record { id = some "realtube"; tab = false }

abbrev submitting : Popup.PopupPage
submitting = record Popup.opened { submitting = some "fully_ai"; votes_in_flight = 1 }

popup_vote_reported_example :
    let (response, w₁) = reply service "realtube" page "clip" "fully_ai" waiting in
    ((Popup.handle parse_watch (Popup.vote_answered (ok response)) submitting).vote_feedback
      ≡ some submitted)
    × (IsPosted service (request service "clip" "fully_ai" (user service waiting)) w₁.trace
        ⊎ ((timestamp : ℕ) × (find_vote w₁.db "clip"
              ≡ some (record { video_id = "clip"; category = "fully_ai"; timestamp = timestamp }))
            × (w₁.flush_timer ≡ some 5_000)))
popup_vote_reported_example =
    popup_vote_reported service "realtube" page "clip" "fully_ai" waiting parse_watch submitting 0
      own_test refl
