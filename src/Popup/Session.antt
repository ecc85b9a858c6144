-- ===== src/Popup/Session.antt =====
-- What happens to the popup of realtube-extension/src/popup/popup.tsx: events reach its handlers, and
-- clicks only where the page that it renders has the button and the button is enabled.
pub mod Enabled
use real_tube.Prelude.{
  ℕ, String, ◌==◌, Bool, true, false, not, ◌&&◌, ◌||◌, Option, none, some, List, [], ◌∷◌, ◌++◌,
  if◌then◌else◌,
}
use real_tube.Records.{Categories}
use real_tube.Content.DomUtils.{Url}
use real_tube.Content.VoteUi.{Category, category_id}
use real_tube.Popup.{
  PopupPage, Event, toggle_clicked, category_clicked, vote_clicked, sync_clicked, handle,
}
use real_tube.Popup.View.{
  Button, VoteForm, shown_feedback, form, VideoInfo, CacheView, Body, paused, active, PopupView,
  loading_view, popup_view, render,
}

abbrev pub grid_buttons : List (Bool × Button) → List Button
grid_buttons [] = []
grid_buttons ((marked, button) ∷ rest) = button ∷ grid_buttons rest

abbrev pub form_buttons : VoteForm → List Button
form_buttons (shown_feedback feedback) = []
form_buttons (form grid submit) = submit ∷ grid_buttons grid

abbrev video_buttons : Option (VideoInfo × VoteForm) → List Button
video_buttons none = []
video_buttons (some (info, vote_form)) = form_buttons vote_form

abbrev cache_buttons : Option CacheView → List Button
cache_buttons none = []
cache_buttons (some cache) = cache.sync_now ∷ []

abbrev pub body_buttons : Body → List Button
body_buttons paused = []
body_buttons (active video stats cache) = cache_buttons cache ++ video_buttons video

-- the buttons that a view has
abbrev pub buttons : PopupView → List Button
buttons loading_view = []
buttons (popup_view bar shown) = bar.gear ∷ bar.toggle ∷ body_buttons shown

-- what the user may click
pub data Click : Type 0 where
  on_toggle on_vote on_sync : Click
  on_category : Category → Click

-- the click that an event is
abbrev pub click_of : Event → Option Click
click_of toggle_clicked = some on_toggle
click_of vote_clicked = some on_vote
click_of sync_clicked = some on_sync
click_of (category_clicked category) = some (on_category category)
click_of event = none

abbrev is_click : Click → Option Event → Bool
is_click on_toggle (some toggle_clicked) = true
is_click on_vote (some vote_clicked) = true
is_click on_sync (some sync_clicked) = true
is_click (on_category a) (some (category_clicked b)) = category_id a == category_id b
is_click click event = false

-- whether a button for the click is among the buttons and is enabled
abbrev pub offers : Click → List Button → Bool
offers click [] = false
offers click (button ∷ rest) =
    (is_click click button.click && not button.disabled) || offers click rest

-- Only a click needs a button.
abbrev pub can_happen : Option Click → PopupView → Bool
can_happen none view = true
can_happen (some click) view = offers click (buttons view)

module _ (parse : String → Option Url) (sort : Categories → Categories)
    (date_ms : String → Option ℕ) where
  -- an event at a time, on the page as it is rendered then
  unfoldable pub happen : (now : ℕ) → Event → PopupPage → PopupPage
  happen now event s =
      if can_happen (click_of event) (render sort now date_ms s) then handle parse event s else s

  unfoldable pub run : List (ℕ × Event) → PopupPage → PopupPage
  run [] s = s
  run ((now, event) ∷ events) s = run events (happen now event s)
