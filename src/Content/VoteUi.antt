-- ===== src/Content/VoteUi.antt =====
-- realtube-extension/src/content/vote-ui.ts: the vote button of a page, its dropdown, and the votes
-- that are sent from it.
--
-- The state is the variables of the module, what the dropdown shows, the timeouts that are set, and
-- the votes whose answer has not come. Class names, texts of labels and icons are left out.
pub mod Sound
pub mod Reported
use text.Mathlib.Text.{starts_with}
use real_tube.Prelude.{
  ℕ, zero, suc, ◌+◌, String, ◌==◌, Bool, true, false, not, ◌&&◌, ◌||◌, Option, none, some, List, [],
  ◌∷◌, is_some, if◌then◌else◌,
}
use real_tube.Effects.{Result, ok, err}
use real_tube.Browser.{truthy}
use real_tube.Background.{Answer, queued, MessageResponse, success, failure}
use real_tube.Content.DomUtils.{shorts_id}

-- CATEGORIES
pub data Category : Type 0 where
  fully_ai ai_voiceover ai_visuals ai_thumbnails ai_assisted : Category

abbrev pub category_id : Category → String
category_id fully_ai = "fully_ai"
category_id ai_voiceover = "ai_voiceover"
category_id ai_visuals = "ai_visuals"
category_id ai_thumbnails = "ai_thumbnails"
category_id ai_assisted = "ai_assisted"

pub data Dropdown : Type 0 where
  -- the option that is marked, whether the vote button is disabled, and whether it shows a spinner
  menu : (marked : Option String) (vote_disabled spinner : Bool) → Dropdown
  feedback : (is_success : Bool) (message : String) → Dropdown

pub record VoteUi : Type 0 where
  pub container : Option Bool  -- `containerEl`, and whether the document has it
  pub dropdown : Option Dropdown
  pub selected : Option String
  pub is_submitting : Bool
  pub listening : Bool  -- for clicks outside and for keys
  pub close_timers : ℕ
  pub inject_timers : ℕ
  pub in_flight : List (String × String)  -- the votes without an answer, by video and category
  pub sent : List (String × String)  -- all votes that were sent, the latest first

-- what the functions read of the page
pub record Place : Type 0 where
  pub search_v : Option String  -- the search parameter `v`
  pub pathname : String
  pub has : (selector : String) → Bool  -- whether `querySelector` finds an element

abbrev is_shorts_page : Place → Bool
is_shorts_page place = starts_with place.pathname "/shorts/"

-- whether the function finds an action bar
abbrev pub find_action_bar : Place → Bool
find_action_bar place =
    place.has "ytd-watch-metadata #top-level-buttons-computed"
    || place.has "#actions ytd-menu-renderer #top-level-buttons-computed"
    || place.has "#top-level-buttons-computed"

abbrev pub find_shorts_action_bar : Place → Bool
find_shorts_action_bar place =
    place.has "ytd-reel-player-overlay-renderer #actions"
    || place.has "ytd-shorts #actions"
    || place.has "#shorts-player #actions"

-- the `actionBar` of `injectVoteButton`
unfoldable pub action_bar : Place → Bool
action_bar place =
    if is_shorts_page place then find_shorts_action_bar place else find_action_bar place

unfoldable pub get_video_id : Place → Option String
get_video_id place = elim (truthy place.search_v) [
  | none ↦ shorts_id place.pathname
  | some v ↦ some v
]

unfoldable pub open_dropdown : VoteUi → VoteUi
open_dropdown s =
    if is_some s.dropdown || not (is_some s.container) || s.is_submitting
    then s
    else record s { selected = none; dropdown = some (menu none true false); listening = true }

unfoldable pub close_dropdown : VoteUi → VoteUi
close_dropdown s = record s {
  dropdown = none;
  selected = none;
  is_submitting = false;
  listening = false;
}

abbrev mark_option : String → Dropdown → Dropdown
mark_option id (menu marked vote_disabled spinner) = menu (some id) false spinner
mark_option id (feedback is_success message) = feedback is_success message

select_in : Option Dropdown → String → VoteUi → VoteUi
select_in none id s = s
select_in (some dropdown) id s =
    if s.is_submitting
    then s
    else record s { selected = some id; dropdown = some (mark_option id dropdown) }

unfoldable pub select_category : String → VoteUi → VoteUi
unfolding select_in
select_category id s = select_in s.dropdown id s

abbrev feedback_in : Option Dropdown → Bool → String → VoteUi → VoteUi
feedback_in none is_success message s = s
feedback_in (some dropdown) is_success message s = record s {
  dropdown = some (feedback is_success message);
  close_timers = s.close_timers + 1;
}

pub show_feedback : Bool → String → VoteUi → VoteUi
show_feedback is_success message s = feedback_in s.dropdown is_success message s

abbrev spin : Dropdown → Dropdown
spin (menu marked vote_disabled spinner) = menu marked true true
spin (feedback is_success message) = feedback is_success message

submit_in : Option Dropdown → Option String → (video_id : Option String) → VoteUi → VoteUi
submit_in none selected video_id s = s
submit_in (some dropdown) none video_id s = s
submit_in (some dropdown) (some category) none s =
    if s.is_submitting then s else show_feedback false "Could not find video ID" s
submit_in (some dropdown) (some category) (some id) s = if s.is_submitting then s else record s {
  is_submitting = true;
  dropdown = some (spin dropdown);
  in_flight = (id, category) ∷ s.in_flight;
  sent = (id, category) ∷ s.sent;
}

-- `submitVote` up to its message
unfoldable pub submit_vote : Place → VoteUi → VoteUi
unfolding submit_in
submit_vote place s = submit_in s.dropdown (truthy s.selected) (truthy (get_video_id place)) s

-- `response.error || "Vote failed"`
error_or_default : Option String → String
error_or_default none = "Vote failed"
error_or_default (some error) = error

data_message : Answer → String
data_message (queued message) = "✓ Vote saved offline"
data_message _ = "✓ Vote submitted"

-- what `submitVote` does with the answer
pub on_response : Result MessageResponse → VoteUi → VoteUi
on_response (ok (success answer)) s = show_feedback true (data_message answer) s
on_response (ok (failure error)) s = show_feedback false (error_or_default (truthy (some error))) s
on_response (err message) s = show_feedback false "Vote failed" s

abbrev is_in_document : Option Bool → Bool
is_in_document none = false
is_in_document (some attached) = attached

unfoldable pub inject_vote_button : Place → VoteUi → VoteUi
inject_vote_button place s =
    if is_in_document s.container || not (is_some (truthy (get_video_id place)))
    then s
    else if not (action_bar place)
    then record s { inject_timers = s.inject_timers + 1 }
    else record s { container = some true }

pub remove_vote_button : VoteUi → VoteUi
remove_vote_button s = record (close_dropdown s) { container = none }

-- what happens to the page
pub data Event : Type 0 where
  button_clicked : Event
  category_clicked : Category → Event
  vote_clicked : Place → Event
  mouse_pressed : (outside : Bool) → Event
  key_pressed : (key : String) → Event
  -- the answer to the vote at a position of those without an answer
  answered : ℕ → Result MessageResponse → Event
  close_due : Event
  inject_due : Place → Event
  injected : Place → Event
  removed : Event
  detached : Event  -- the page has dropped the element of the button

abbrev is_menu : Option Dropdown → Bool
is_menu (some (menu marked vote_disabled spinner)) = true
is_menu _ = false

abbrev can_vote : Option Dropdown → Bool
can_vote (some (menu marked vote_disabled spinner)) = not vote_disabled
can_vote _ = false

abbrev remove_at {ℓ} : {A : Type ℓ} → ℕ → List A → List A
remove_at i [] = []
remove_at zero (a ∷ rest) = rest
remove_at (suc i) (a ∷ rest) = a ∷ remove_at i rest

abbrev has_at {ℓ} : {A : Type ℓ} → ℕ → List A → Bool
has_at i [] = false
has_at zero (a ∷ rest) = true
has_at (suc i) (a ∷ rest) = has_at i rest

abbrev detach : Option Bool → Option Bool
detach none = none
detach (some attached) = some false

pub close_next : ℕ → VoteUi → VoteUi
close_next zero s = s
close_next (suc timers) s = close_dropdown (record s { close_timers = timers })

pub inject_next : ℕ → Place → VoteUi → VoteUi
inject_next zero place s = s
inject_next (suc timers) place s = inject_vote_button place (record s { inject_timers = timers })

-- One event. The elements that are clicked are there: an option only in a menu, and a disabled button
-- takes no clicks.
unfoldable pub handle : Event → VoteUi → VoteUi
handle button_clicked s =
    if is_in_document s.container
    then (if is_some s.dropdown then close_dropdown s else open_dropdown s)
    else s
handle (category_clicked category) s =
    if is_menu s.dropdown then select_category (category_id category) s else s
handle (vote_clicked place) s = if can_vote s.dropdown then submit_vote place s else s
handle (mouse_pressed outside) s =
    if s.listening && is_some s.container && outside then close_dropdown s else s
handle (key_pressed key) s = if s.listening && key == "Escape" then close_dropdown s else s
handle (answered i response) s =
    if has_at i s.in_flight
    then on_response response (record s { in_flight = remove_at i s.in_flight })
    else s
handle close_due s = close_next s.close_timers s
handle (inject_due place) s = inject_next s.inject_timers place s
handle (injected place) s = inject_vote_button place s
handle removed s = remove_vote_button s
handle detached s = record s { container = detach s.container }

unfoldable pub run : List Event → VoteUi → VoteUi
run [] s = s
run (event ∷ events) s = run events (handle event s)

abbrev pub initial : VoteUi
initial = record {
  container = none;
  dropdown = none;
  selected = none;
  is_submitting = false;
  listening = false;
  close_timers = 0;
  inject_timers = 0;
  in_flight = [];
  sent = [];
}
