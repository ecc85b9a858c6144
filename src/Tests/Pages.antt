-- ===== src/Tests/Pages.antt =====
-- The content scripts at concrete inputs.
use mathlib.Core.Option
use real_tube.Prelude.{◌≡◌, refl, false, true, ◌&&◌, none, some, List, [], ◌∷◌}
use real_tube.Effects.{Result, ok}
use real_tube.Sync.{cached_of_result}
use real_tube.Background.{Message, MessageResponse, success, cached_videos, check_videos}
use real_tube.Content.Hide.{
  Page, VideoElementMap, default_threshold, videos_of, check_and_hide_videos,
}
use real_tube.Content.Hide.Flagged.{element_at, hidden_if, is_flagged, check_and_hide_videos_lem}
use real_tube.Content.DomUtils.{home, shorts}
use real_tube.Content.Session
use real_tube.Content.Session.Observers.{run-IsInStep}
use real_tube.Tests.Fixtures.{clip, cached_talk}

abbrev two_cards : Page
two_cards =
    record { display = ""; hidden_attr = none } ∷ record { display = ""; hidden_attr = none } ∷ []

abbrev cards : VideoElementMap
cards = ("talk", 0) ∷ ("clip", 1) ∷ []

abbrev answer : Message → Result MessageResponse
answer message = ok (success (cached_videos (cached_of_result clip ∷ cached_talk ∷ [])))

check_and_hide_videos_example :
    element_at 1 (check_and_hide_videos answer none cards two_cards)
    ≡ Option.map
        (hidden_if (
          is_flagged default_threshold cards 1
            (videos_of (answer (check_videos ("talk" ∷ "clip" ∷ []))))))
        (element_at 1 two_cards)
check_and_hide_videos_example = check_and_hide_videos_lem answer none cards two_cards 1

-- the extension is switched off, and then the user opens a short
abbrev switched_off : List Session.Event
switched_off =
    Session.settings_changed "sync" (some (some false)) none
    ∷ Session.navigated shorts
    ∷ Session.timed_out
    ∷ Session.timed_out
    ∷ Session.timed_out
    ∷ []

run_example : (Session.run switched_off (Session.init none none home)).observer ≡ (
    (Session.run switched_off (Session.init none none home)).listening
    && (Session.run switched_off (Session.init none none home)).enabled)
run_example = run-IsInStep none none home switched_off

-- a run that ends with the shorts watched, though the extension is off
shorts_watched_test :
    let s = Session.run switched_off (Session.init none none home) in
    (s.enabled ≡ false) × (s.shorts_observer ≡ true)
unfolding Session.run Session.init Session.handle
shorts_watched_test = (refl, refl)
