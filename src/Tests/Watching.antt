-- ===== src/Tests/Watching.antt =====
-- The ids, the scan and the Shorts of the content scripts at concrete inputs.
use Prim.Native.String.{◌++◌}
use mathlib.Core.Option
use real_tube.Prelude.{ℕ, ◌+◌, ◌*◌, ◌≡◌, refl, true, String, Option, none, some, [], ◌∷◌, List, map}
use real_tube.Records.{one}
use real_tube.Effects.{Result, ok}
use real_tube.Sync.{cached_of_result}
use real_tube.Background.{Message, MessageResponse, success, cached_videos, check_videos}
use real_tube.Content.DomUtils.{Url, Renderer, home, shorts_id, extract_all_video_ids}
use real_tube.Content.DomUtils.Ids.{IsId, shorts_id_iff}
use real_tube.Content.Hide.{Page, get_threshold, videos_of}
use real_tube.Content.Hide.Flagged.{element_at, hidden_if}
use real_tube.Content.Scan.{scan_page, scan_page_lem, is_last_flagged, last_renderer}
use real_tube.Content.Shorts
use real_tube.Content.Shorts.{Short, ShortsPage, Check}
use real_tube.Content.Shorts.Skipping.{is_over, moves, finish_check-once, overlapping_checks}
use real_tube.Tests.Fixtures.{clip}
use real_tube.Prelude.{◌↔◌}

-- every text is the address of a watch page of the video `clip`
abbrev watching : String → Option Url
watching text =
    some (record { hostname = "www.youtube.com"; pathname = "/watch"; search_v = some "clip" })

shorts_id_example : (shorts_id "/shorts/abcdefghi_-?t=1" ≡ some "abcdefghi_-") ↔ (
    (rest : String) × ("/shorts/abcdefghi_-?t=1" ≡ "/shorts/" ++ ("abcdefghi_-" ++ rest))
    × IsId 11 "abcdefghi_-")
shorts_id_example = shorts_id_iff "/shorts/abcdefghi_-?t=1" "abcdefghi_-"

abbrev card : Renderer
card = record { thumbnail = some (record { href = some "/watch?v=clip" }); title = none }

-- two renderers of the same video
abbrev cards : String → List (ℕ × Renderer)
cards selector = (0, card) ∷ (1, card) ∷ []

abbrev flagged : Message → Result MessageResponse
flagged message = ok (success (cached_videos (cached_of_result clip ∷ [])))

abbrev two : Page
two = record { display = ""; hidden_attr = none } ∷ record { display = ""; hidden_attr = none } ∷ []

scan_page_example :
    element_at 1 (scan_page true watching cards flagged none home two)
    ≡ Option.map
        (hidden_if (
          is_last_flagged (get_threshold none) (last_renderer watching cards home) 1 (
            videos_of (
              flagged
                (check_videos (map (λ e. e.0) (extract_all_video_ids watching cards home)))))))
        (element_at 1 two)
scan_page_example = scan_page_lem watching cards home flagged none two 1

abbrev short : Short
short = record {
  shorts_link = some "/shorts/clip";
  watch_link = none;
  video_id = none;
  data_video_id = none;
  skipped = none;
  element = record { display = ""; hidden_attr = none };
}

abbrev reel : ShortsPage
reel = record {
  href = "https://www.youtube.com/watch?v=clip";
  pathname = "/watch";
  renderers = short ∷ [];
  next_button = true;
  container = true;
  clicks = 0;
  scrolls = 0;
}

abbrev check : Check
check = record { id = "clip"; renderer = some 0 }

check_test : Shorts.start_check watching reel ≡ some check
unfolding Shorts.start_check
check_test = refl

over_test : is_over "clip" (50 * one) (cached_of_result clip ∷ []) ≡ true
over_test = refl

finish_check-once_example :
    Shorts.start_check watching
      (Shorts.finish_check check (50 * one) (cached_of_result clip ∷ []) reel)
    ≡ none
finish_check-once_example =
    finish_check-once watching reel check 0 (50 * one) (cached_of_result clip ∷ []) check_test refl
      over_test

overlapping_example :
    moves (
      Shorts.finish_check check
        (50 * one)
        (cached_of_result clip ∷ [])
        (Shorts.finish_check check (50 * one) (cached_of_result clip ∷ []) reel))
    ≡ moves reel + 2
overlapping_example =
    overlapping_checks check (50 * one) (cached_of_result clip ∷ []) (cached_of_result clip ∷ [])
      reel over_test over_test refl
