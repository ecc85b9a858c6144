-- ===== src/Content/Scan.antt =====
-- The scan of realtube-extension/src/content/content.ts: the ids of dom-utils.ts, hidden by hide.ts.
use mathlib.Core.Option
use real_tube.Prelude.{
  ℕ, String, ◌≡◌, refl, ap, ◌∙◌, Bool, true, false, ◌&&◌, ◌||◌, Option, none, some, List, [], ◌∷◌,
  map, leb, if◌then◌else◌,
}
use real_tube.Records.{CachedVideo}
use real_tube.ObjectStore.Laws.{or_else}
use real_tube.Effects.{Result}
use real_tube.Background.{Message, check_videos, MessageResponse}
use real_tube.Content.DomUtils
use real_tube.Content.DomUtils.{
  PageType, Renderer, Url, extract_all_video_ids, extract_video_id_from_renderer,
  get_video_renderer_selector, collect_ids,
}
use real_tube.Content.DomUtils.Found.{last_found, get-collect_ids}
use real_tube.Content.Hide.{Page, element_of, get_threshold, videos_of, check_and_hide_videos}
use real_tube.Content.Hide.Flagged.{
  element_at, hidden_if, is_at, is_flagged, check_and_hide_videos_lem,
}

-- `scanVisibleVideos`. `query` is `document.querySelectorAll`, `send` the message to the worker.
pub scan_page :
    (enabled : Bool) (parse : String → Option Url) (query : String → List (ℕ × Renderer))
    (send : Message → Result MessageResponse) (stored : Option ℕ)
    → PageType
    → Page
    → Page
scan_page enabled parse query send stored page_type page =
    if enabled
    then check_and_hide_videos send stored (extract_all_video_ids parse query page_type) page
    else page

-- whether a video whose last renderer is the element reaches the threshold
abbrev pub is_last_flagged : ℕ → (String → Option ℕ) → ℕ → List CachedVideo → Bool
is_last_flagged threshold last i [] = false
is_last_flagged threshold last i (video ∷ videos) =
    (leb threshold video.score && is_at i (last video.video_id))
    || is_last_flagged threshold last i videos

or_else-none : (o : Option ℕ) → or_else o none ≡ o
or_else-none none = refl
or_else-none (some at) = refl

module _ (parse : String → Option Url) (query : String → List (ℕ × Renderer))
    (page_type : PageType) where
  abbrev renderers : List (ℕ × Renderer)
  renderers = query (get_video_renderer_selector page_type)

  -- the last of the page's renderers that shows the video
  abbrev pub last_renderer : String → Option ℕ
  last_renderer id = last_found (extract_video_id_from_renderer parse) id renderers

  found_last :
      (id : String) → element_of id (extract_all_video_ids parse query page_type) ≡ last_renderer id
  unfolding extract_all_video_ids DomUtils.get_entry
  found_last id =
      get-collect_ids (extract_video_id_from_renderer parse) id renderers []
      ∙ or_else-none (last_renderer id)

  flagged_last :
      (threshold i : ℕ) (videos : List CachedVideo)
      → is_flagged threshold (extract_all_video_ids parse query page_type) i videos
        ≡ is_last_flagged threshold last_renderer i videos
  flagged_last threshold i [] = refl
  flagged_last threshold i (video ∷ videos) =
      rw (found_last video.video_id, flagged_last threshold i videos) refl

  -- While the script is enabled, a scan gives the mark and the style `display: none` to just each
  -- element without a mark that is the last renderer of a video in the answer whose score reaches the
  -- threshold. All other elements stay as they were.
  pub scan_page_lem :
      (send : Message → Result MessageResponse) (stored : Option ℕ) (page : Page) (i : ℕ)
      → element_at i (scan_page true parse query send stored page_type page)
        ≡ Option.map
            (hidden_if (
              is_last_flagged (get_threshold stored) last_renderer i (
                videos_of (
                  send (
                    check_videos (map (λ e. e.0) (extract_all_video_ids parse query page_type)))))))
            (element_at i page)
  unfolding scan_page
  scan_page_lem send stored page i =
      check_and_hide_videos_lem send stored (extract_all_video_ids parse query page_type) page i
      ∙ ap (λ b. Option.map (hidden_if b) (element_at i page))
          (flagged_last (get_threshold stored) i (
            videos_of
              (send (check_videos (map (λ e. e.0) (extract_all_video_ids parse query page_type))))))
