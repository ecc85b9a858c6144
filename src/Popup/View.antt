-- ===== src/Popup/View.antt =====
-- What realtube-extension/src/popup/popup.tsx renders, from the status bar to the notes on the cache:
-- the numbers and the texts that depend on the state, and the buttons with what a click on each does.
--
-- Elements, class names that are always the same, and icons are left out. Numbers are whole where the
-- code rounds them; `toLocaleString` is left to the browser.

use mathlib.Core.Option
use real_tube.Prelude.{
  ℕ, ◌*◌, String, ◌==◌, Bool, true, false, not, ◌||◌, Option, none, some, List, [], ◌∷◌, map,
  is_some, if◌then◌else◌,
}
use real_tube.Records.{one, round, Categories, CachedVideo, UserInfoResponse}
use real_tube.Browser.{truthy}
use real_tube.Sync.{SyncStatus}
use real_tube.Content.VoteUi.{
  Category, fully_ai, ai_voiceover, ai_visuals, ai_thumbnails, ai_assisted, category_id,
}
use real_tube.Popup.{
  PopupPage, Connection, online, offline, unknown, VoteFeedback, Event, toggle_clicked,
  category_clicked, vote_clicked, sync_clicked,
}
use real_tube.Popup.Helpers.{score_color, score_verdict, Verdict, format_time_ago, TimeAgo}
use real_tube.Popup.Bars.{Bar, bars}

-- a button or a check box, and the event of a click on it where the popup handles it itself
pub record Button : Type 0 where
  pub label : String
  pub disabled : Bool
  pub click : Option Event

pub record StatusBar : Type 0 where
  pub connection_title : String
  pub gear : Button
  pub is_checked : Bool
  pub toggle : Button

-- `ScoreRing`: the arc is the share `filled` of `whole`
pub record Ring : Type 0 where
  pub filled : ℕ
  pub whole : ℕ
  pub color : String
  pub value : ℕ

pub data VideoInfo : Type 0 where
  no_data : VideoInfo
  video_info : Ring → Verdict → (video_id : String) → List Bar → VideoInfo

pub data VoteForm : Type 0 where
  shown_feedback : VoteFeedback → VoteForm
  form : (grid : List (Bool × Button)) → (submit : Button) → VoteForm

pub record Stats : Type 0 where
  pub trust : ℕ
  pub votes : ℕ
  pub accuracy : ℕ

pub record CacheView : Type 0 where
  pub videos_cached : ℕ
  pub channels_cached : ℕ
  pub last_sync : TimeAgo
  pub sync_now : Button

pub data Body : Type 0 where
  paused : Body
  active : (video : Option (VideoInfo × VoteForm)) → Option Stats → Option CacheView → Body

pub data PopupView : Type 0 where
  loading_view : PopupView
  popup_view : StatusBar → Body → PopupView

-- CATEGORIES
abbrev pub categories : List (Category × String)
categories =
    (fully_ai, "Fully AI")
    ∷ (ai_voiceover, "AI Voice")
    ∷ (ai_visuals, "AI Visuals")
    ∷ (ai_thumbnails, "AI Thumbnail")
    ∷ (ai_assisted, "AI Assist")
    ∷ []

abbrev connection_title : Connection → String
connection_title online = "Connected"
connection_title offline = "Offline"
connection_title unknown = "Checking..."

-- the gear opens the options page, by the browser
abbrev pub status_bar : (enabled : Bool) → Connection → StatusBar
status_bar enabled connected = record {
  connection_title = connection_title connected;
  gear = record { label = "Settings"; disabled = false; click = none };
  is_checked = enabled;
  toggle = record {
    label = if enabled then "Disable RealTube" else "Enable RealTube";
    disabled = false;
    click = some toggle_clicked;
  };
}

pub score_ring : ℕ → Ring
score_ring score = record {
  filled = score;
  whole = 100 * one;
  color = score_color score;
  value = round score;
}

pub current_video_info : (sort : Categories → Categories) → Option CachedVideo → VideoInfo
current_video_info sort none = no_data
current_video_info sort (some video) =
    video_info (score_ring video.score) (score_verdict video.score) video.video_id (bars sort video)

-- `selected === cat.id`
abbrev pub is_marked : Option String → String → Bool
is_marked none id = false
is_marked (some selected) id = selected == id

abbrev pub category_button :
    (selected submitting : Option String) → Category × String → Bool × Button
category_button selected submitting (category, label) = (
  is_marked selected (category_id category),
  record { label = label; disabled = is_some submitting; click = some (category_clicked category) },
)

abbrev pub quick_vote : Option VoteFeedback → (submitting selected : Option String) → VoteForm
quick_vote (some feedback) submitting selected = shown_feedback feedback
quick_vote none submitting selected =
    form (map (category_button selected submitting) categories) (record {
      label = if is_some (truthy submitting) then "" else "Vote";
      disabled = not (is_some (truthy selected)) || is_some submitting;
      click = some vote_clicked;
    })

abbrev pub user_stats : UserInfoResponse → Stats
user_stats info = record {
  trust = round info.trust_score;
  votes = info.total_votes;
  accuracy = round info.accuracy_rate;
}

abbrev pub cache_info : (ago : Option String → TimeAgo) → (syncing : Bool) → SyncStatus → CacheView
cache_info ago syncing status = record {
  videos_cached = status.video_count;
  channels_cached = status.channel_count;
  last_sync = ago status.last_delta_sync;
  sync_now = record {
    label = if syncing then "Syncing..." else "Sync Now";
    disabled = syncing;
    click = some sync_clicked;
  };
}

-- what stands above the footer, from the values that it is made of
unfoldable pub body :
    (enabled : Bool)
    → (video : Option (VideoInfo × VoteForm)) → Option Stats
    → Option CacheView
    → Body
body true video stats cache = active video stats cache
body false video stats cache = paused

-- `currentVideoId && ...`
unfoldable pub video_part :
    (id : Option String) → VideoInfo → VoteForm → Option (VideoInfo × VoteForm)
video_part none info vote_form = none
video_part (some id) info vote_form = some (info, vote_form)

unfoldable pub page : (loading : Bool) → StatusBar → Body → PopupView
page true bar shown = loading_view
page false bar shown = popup_view bar shown

unfoldable pub render :
    (sort : Categories → Categories) (now : ℕ) (date_ms : String → Option ℕ) → PopupPage → PopupView
render sort now date_ms s = page s.loading (status_bar s.enabled s.connected) (
    body s.enabled
      (video_part (truthy s.current_video_id) (current_video_info sort s.current_video)
        (quick_vote s.vote_feedback s.submitting s.selected))
      (Option.map user_stats s.user_info)
      (Option.map (cache_info (format_time_ago now date_ms) s.syncing) s.sync_status))
