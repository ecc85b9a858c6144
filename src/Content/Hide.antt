-- ===== src/Content/Hide.antt =====
-- realtube-extension/src/content/hide.ts: hiding the elements of flagged videos.
--
-- A page is the list of its elements, and an element is named by its position in it.
pub mod Flagged
use real_tube.Prelude.{
  ℕ, zero, suc, ◌*◌, String, ◌==◌, Bool, true, false, Option, none, some, List, [], ◌∷◌, map, leb,
  is_some, length, keep, if◌then◌else◌,
}
use real_tube.Records.{one, CachedVideo}
use real_tube.Effects.{Result, ok, err}
use real_tube.Browser.{truthy}
use real_tube.Content.DomUtils.{get_entry}
use real_tube.Background.{
  Message, check_videos, Answer, cached_videos, MessageResponse, success, failure,
}

pub record Element : Type 0 where
  pub display : String  -- style.display
  pub hidden_attr : Option String  -- the attribute data-realtube-hidden

abbrev pub Page : Type 0
Page = List Element

-- A `Map` from video ids to elements, each id once.
abbrev pub VideoElementMap : Type 0
VideoElementMap = List (String × ℕ)

abbrev pub default_threshold : ℕ
default_threshold = 50 * one

-- `result.hideThreshold ?? DEFAULT_THRESHOLD`
abbrev pub get_threshold : Option ℕ → ℕ
get_threshold none = default_threshold
get_threshold (some threshold) = threshold

abbrev pub is_hidden : Element → Bool
is_hidden element = is_some (truthy element.hidden_attr)

pub hide_element : Element → Element
hide_element element =
    if is_hidden element then element else record { display = "none"; hidden_attr = some "true" }

pub unhide_element : Element → Element
unhide_element element =
    if is_hidden element then record { display = ""; hidden_attr = none } else element

-- videoElementMap.get(id)
abbrev pub element_of : String → VideoElementMap → Option ℕ
element_of id entries = get_entry id entries

hide_at : ℕ → Page → Page
hide_at at [] = []
hide_at zero (element ∷ page) = hide_element element ∷ page
hide_at (suc at) (element ∷ page) = element ∷ hide_at at page

-- `if (element) hideElement(element)`
abbrev hide_entry : Option ℕ → Page → Page
hide_entry none page = page
hide_entry (some at) page = hide_at at page

-- what the loop does with one video
hide_if_flagged : ℕ → VideoElementMap → CachedVideo → Page → Page
hide_if_flagged threshold entries video page =
    if leb threshold video.score then hide_entry (element_of video.video_id entries) page else page

-- the loop over the videos of the answer
hide_flagged : ℕ → VideoElementMap → List CachedVideo → Page → Page
hide_flagged threshold entries [] page = page
hide_flagged threshold entries (video ∷ videos) page =
    hide_flagged threshold entries videos (hide_if_flagged threshold entries video page)

-- `response.data.videos`, and none where the test on the response returns early
answered_with : Answer → List CachedVideo
answered_with (cached_videos videos) = videos
answered_with _ = []

-- the videos of the answer; a rejected `sendMessage` is logged
pub videos_of : Result MessageResponse → List CachedVideo
videos_of (ok (success answer)) = answered_with answer
videos_of (ok (failure error)) = []
videos_of (err message) = []

-- `send` is `chrome.runtime.sendMessage`, `stored` the threshold in the extension's storage.
pub check_and_hide_videos :
    (send : Message → Result MessageResponse) (stored : Option ℕ) → VideoElementMap → Page → Page
check_and_hide_videos send stored [] page = page
check_and_hide_videos send stored (entry ∷ entries) page =
    hide_flagged (get_threshold stored) (entry ∷ entries)
      (videos_of (send (check_videos (map (λ e. e.0) (entry ∷ entries))))) page

pub get_hidden_count : Page → ℕ
get_hidden_count page = length (keep is_hidden page)
