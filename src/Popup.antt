-- ===== src/Popup.antt =====
-- realtube-extension/src/popup/popup.tsx: the popup, from its markup to the messages that it sends.
--
-- The state is that of the components `Popup` and `QuickVote`, with the requests and timeouts that
-- are under way. React runs each event on the state that the last one has left. Labels, icons and
-- the display of the statistics are left out.
pub mod Helpers
pub mod Voting
pub mod Urls
pub mod Bars
pub mod View
pub mod Reported
pub mod Session
use real_tube.Prelude.{
  ℕ, zero, suc, ◌+◌, String, ◌==◌, Bool, true, false, not, ◌&&◌, Option, none, some, List, [], ◌∷◌,
  ◌++◌, is_some, if◌then◌else◌,
}
use real_tube.Records.{CachedVideo, UserInfoResponse}
use real_tube.Effects.{Result, ok, err}
use real_tube.Browser.{truthy}
use real_tube.Sync.{SyncStatus}
use real_tube.Background.{
  Message, Answer, MessageResponse, success, failure, user_info, sync_status, cached_videos,
}
use real_tube.Content.VoteUi.{Category, category_id}
use real_tube.Popup.Helpers.{get_video_id_from_url}
use real_tube.Content.DomUtils.{Url}

pub data Connection : Type 0 where
  online offline unknown : Connection

pub record VoteFeedback : Type 0 where
  pub is_success : Bool
  pub message : String

-- what `handleSync` waits for
pub data SyncPhase : Type 0 where
  idle delta_sent status_sent : SyncPhase

pub record PopupPage : Type 0 where
  pub loading : Bool
  pub enabled : Bool
  pub connected : Connection
  pub current_video_id : Option String
  pub current_video : Option CachedVideo
  pub user_info : Option UserInfoResponse
  pub sync_status : Option SyncStatus
  pub syncing : Bool
  pub vote_feedback : Option VoteFeedback
  pub submitting : Option String
  pub selected : Option String  -- of `QuickVote`
  pub votes_in_flight : ℕ
  pub feedback_timers : ℕ
  pub sync_phase : SyncPhase
  pub stored_enabled : Option Bool  -- the last write of `enabled` to the storage
  pub sent : List Message  -- the latest first

pub data Event : Type 0 where
  -- the key `enabled` of the storage, and the URL of the tab
  loaded : Option Bool → (url : Option String) → Event
  load_failed : Event
  user_info_answered sync_status_answered videos_answered : Result MessageResponse → Event
  toggle_clicked : Event
  category_clicked : Category → Event
  vote_clicked : Event
  vote_answered : Result MessageResponse → Event
  feedback_due : Event
  sync_clicked : Event
  -- the answers to SYNC_DELTA and to GET_SYNC_STATUS after it
  sync_answered status_answered : Result MessageResponse → Event

-- `storage.enabled !== false`
abbrev not_false : Option Bool → Bool
not_false none = true
not_false (some value) = value

user_info_of : Answer → Option UserInfoResponse
user_info_of (Answer.user_info info) = some info
user_info_of _ = none

sync_status_of : Answer → Option SyncStatus
sync_status_of (Answer.sync_status status) = some status
sync_status_of _ = none

-- `videos.find((v) => v.videoId === videoId)`
pub find_video : String → List CachedVideo → Option CachedVideo
find_video id [] = none
find_video id (video ∷ videos) = if video.video_id == id then some video else find_video id videos

find_in : Answer → String → Option CachedVideo
find_in (Answer.cached_videos videos) id = find_video id videos
find_in _ id = none

-- `if (found) setCurrentVideo(found)`
or_keep {ℓ} : {A : Type ℓ} → Option A → Option A → Option A
or_keep none kept = kept
or_keep (some found) kept = some found

-- the messages of `loadData`
asked : Option String → List Message
asked none = Message.get_sync_status ∷ Message.get_user_info ∷ []
asked (some id) =
    Message.check_videos (id ∷ []) ∷ Message.get_sync_status ∷ Message.get_user_info ∷ []

id_of_tab : (parse : String → Option Url) → Option String → Option String
id_of_tab parse none = none
id_of_tab parse (some url) = get_video_id_from_url parse url

load : Option Bool → (id : Option String) → PopupPage → PopupPage
load enabled id s = record s {
  enabled = not_false enabled;
  current_video_id = id;
  loading = false;
  sent = asked (truthy id) ++ s.sent;
}

on_videos : Option String → Answer → PopupPage → PopupPage
on_videos none answer s = s
on_videos (some id) answer s = record s {
  current_video = or_keep (find_in answer id) s.current_video;
}

-- `QuickVote` is mounted while the extension is enabled, and starts without a selection.
pub handle_toggle : PopupPage → PopupPage
handle_toggle s = record s {
  enabled = not s.enabled;
  selected = if s.enabled then none else s.selected;
  stored_enabled = some (not s.enabled);
}

is_selected : Option String → String → Bool
is_selected none id = false
is_selected (some selected) id = selected == id

pub select : String → PopupPage → PopupPage
select id s = record s { selected = if is_selected s.selected id then none else some id }

pub handle_vote : (category video_id : Option String) → PopupPage → PopupPage
handle_vote none video_id s = s
handle_vote (some category) none s = s
handle_vote (some category) (some id) s = if is_some (truthy s.submitting) then s else record s {
  submitting = some category;
  vote_feedback = none;
  votes_in_flight = s.votes_in_flight + 1;
  sent = Message.submit_vote id category ∷ s.sent;
}

-- `res.error || "Vote failed"`
error_or_default : Option String → String
error_or_default none = "Vote failed"
error_or_default (some error) = error

feedback_of : Result MessageResponse → VoteFeedback
feedback_of (ok (success answer)) = record { is_success = true; message = "Vote submitted" }
feedback_of (ok (failure error)) = record {
  is_success = false;
  message = error_or_default (truthy (some error));
}
feedback_of (err message) = record { is_success = false; message = message }

-- the answer to one of the votes that are under way
on_vote : ℕ → Result MessageResponse → PopupPage → PopupPage
on_vote zero response s = s
on_vote (suc others) response s = record s {
  vote_feedback = some (feedback_of response);
  submitting = none;
  feedback_timers = s.feedback_timers + 1;
  votes_in_flight = others;
}

clear_feedback : ℕ → PopupPage → PopupPage
clear_feedback zero s = s
clear_feedback (suc others) s = record s { vote_feedback = none; feedback_timers = others }

pub handle_sync : PopupPage → PopupPage
handle_sync s =
    if s.syncing
    then s
    else record s { syncing = true; sync_phase = delta_sent; sent = Message.sync_delta ∷ s.sent }

on_sync : SyncPhase → Result MessageResponse → PopupPage → PopupPage
on_sync delta_sent (ok response) s = record s {
  sync_phase = status_sent;
  sent = Message.get_sync_status ∷ s.sent;
}
on_sync delta_sent (err message) s = record s { syncing = false; sync_phase = idle }
on_sync _ response s = s

on_status : SyncPhase → Result MessageResponse → PopupPage → PopupPage
on_status status_sent (ok (success answer)) s = record s {
  sync_status = sync_status_of answer;
  syncing = false;
  sync_phase = idle;
}
on_status status_sent _ s = record s { syncing = false; sync_phase = idle }
on_status _ response s = s

-- The handler of one event. `loadData` runs once, when the popup is opened. `Popup.Session` has the
-- conditions under which the page takes a click.
pub handle : (parse : String → Option Url) → Event → PopupPage → PopupPage
handle parse (loaded enabled url) s =
    if s.loading then load enabled (id_of_tab parse (truthy url)) s else s
handle parse load_failed s =
    if s.loading then record s { connected = offline; loading = false } else s
handle parse (user_info_answered (ok (success answer))) s = record s {
  user_info = user_info_of answer;
  connected = online;
}
handle parse (user_info_answered (ok (failure error))) s = s
handle parse (user_info_answered (err message)) s = record s { connected = offline }
handle parse (sync_status_answered (ok (success answer))) s = record s {
  sync_status = sync_status_of answer;
}
handle parse (sync_status_answered _) s = s
handle parse (videos_answered (ok (success answer))) s =
    on_videos (truthy s.current_video_id) answer s
handle parse (videos_answered _) s = s
handle parse toggle_clicked s = handle_toggle s
handle parse (category_clicked category) s = select (category_id category) s
handle parse vote_clicked s = handle_vote (truthy s.selected) (truthy s.current_video_id) s
handle parse (vote_answered response) s = on_vote s.votes_in_flight response s
handle parse feedback_due s = clear_feedback s.feedback_timers s
handle parse sync_clicked s = handle_sync s
handle parse (sync_answered response) s = on_sync s.sync_phase response s
handle parse (status_answered response) s = on_status s.sync_phase response s

abbrev pub opened : PopupPage
opened = record {
  loading = true;
  enabled = true;
  connected = unknown;
  current_video_id = none;
  current_video = none;
  user_info = none;
  sync_status = none;
  syncing = false;
  vote_feedback = none;
  submitting = none;
  selected = none;
  votes_in_flight = 0;
  feedback_timers = 0;
  sync_phase = idle;
  stored_enabled = none;
  sent = [];
}
