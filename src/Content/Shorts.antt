-- ===== src/Content/Shorts.antt =====
-- realtube-extension/src/content/shorts.ts: finding, hiding and skipping Shorts.
--
-- A page of Shorts is the list of its renderers, each named by its position, with the address and what
-- there is to move on by. A check of the current short waits for the worker: `start_check` is what
-- comes before, `finish_check` what comes after, and the page may have changed in between.
pub mod Skipping
use text.Mathlib.Text.{starts_with}
use real_tube.Prelude.{
  ℕ, zero, suc, ◌+◌, ◌*◌, String, ◌==◌, Bool, true, false, not, ◌&&◌, Option, none, some, List, [],
  ◌∷◌, map, leb, is_some, if◌then◌else◌,
}
use real_tube.Records.{one, CachedVideo}
use real_tube.Effects.{Result}
use real_tube.Browser.{truthy}
use real_tube.Background.{Message, check_videos, MessageResponse}
use real_tube.Content.DomUtils.{
  Url, extract_video_id_from_url, id_of_url, reels, AddedNode, collect_ids, collect_added,
}
use real_tube.Content.Hide.{Element, hide_element, get_threshold, videos_of}

pub record Short : Type 0 where
  pub shorts_link : Option String  -- the `href` of the first link to /shorts/
  pub watch_link : Option String  -- the `href` of the first link to /watch?v=
  pub video_id : Option String  -- the attribute video-id
  pub data_video_id : Option String  -- the attribute data-video-id
  pub skipped : Option String  -- the attribute data-realtube-skipped
  pub element : Element

pub record ShortsPage : Type 0 where
  pub href : String  -- window.location.href
  pub pathname : String  -- window.location.pathname
  pub renderers : List Short
  pub next_button : Bool  -- whether a button for the next video is there
  pub container : Bool  -- whether the container of the Shorts is there
  pub clicks : ℕ  -- on the button
  pub scrolls : ℕ  -- of the container

pub is_shorts_page : (pathname : String) → Bool
is_shorts_page pathname = starts_with pathname "/shorts/"

pub hide_short : Short → Short
hide_short short = record short { element = hide_element short.element }

pub skip_to_next_short : ShortsPage → ShortsPage
skip_to_next_short page =
    if page.next_button
    then record page { clicks = page.clicks + 1 }
    else if page.container
    then record page { scrolls = page.scrolls + 1 }
    else page

-- the positions of the renderers, from a first one
abbrev numbered {ℓ} : {A : Type ℓ} → ℕ → List A → List (ℕ × A)
numbered i [] = []
numbered i (a ∷ as₁) = (i, a) ∷ numbered (suc i) as₁

-- `renderer.setAttribute(SKIP_ATTR, "true")`
mark_at : ℕ → List Short → List Short
mark_at i [] = []
mark_at zero (short ∷ shorts) = record short { skipped = some "true" } ∷ shorts
mark_at (suc i) (short ∷ shorts) = short ∷ mark_at i shorts

-- `if (currentRenderer) currentRenderer.setAttribute(...)`
abbrev mark : Option ℕ → List Short → List Short
mark none shorts = shorts
mark (some i) shorts = mark_at i shorts

abbrev or_attribute : Option String → Option String → Option String
or_attribute none other = truthy other
or_attribute (some id) other = some id

-- What a check waits with: the video that was current, and its renderer.
pub record Check : Type 0 where
  pub id : String
  pub renderer : Option ℕ

module _ (parse : String → Option Url) where
  -- `if (link) { const id = extract(link.href); if (id) return id; }`, and else what follows
  try_href : Option String → Option String → Option String
  try_href none rest = rest
  try_href (some href) rest = elim (truthy (extract_video_id_from_url parse href)) [
    | none ↦ rest
    | some id ↦ some id
  ]

  pub extract_video_id_from_short : Short → Option String
  extract_video_id_from_short short =
      try_href short.shorts_link
        (try_href short.watch_link (or_attribute (truthy short.video_id) short.data_video_id))

  pub extract_shorts_video_ids : ShortsPage → List (String × ℕ)
  extract_shorts_video_ids page =
      collect_ids extract_video_id_from_short (numbered 0 page.renderers) []

  -- the callback of the observer: the new renderers, where there are any
  pub new_shorts : List (AddedNode ℕ Short) → List (String × ℕ)
  new_shorts added = collect_added extract_video_id_from_short reels added []

  pub get_current_short_video_id : ShortsPage → Option String
  get_current_short_video_id page = extract_video_id_from_url parse page.href

  is_video : String → Option String → Bool
  is_video id none = false
  is_video id (some found) = found == id

  -- the position of the first renderer of the video
  first_of : String → List Short → Option ℕ
  first_of id [] = none
  first_of id (short ∷ shorts) =
      if is_video id (extract_video_id_from_short short)
      then some 0
      else elim (first_of id shorts) [ none ↦ none | some i ↦ some (suc i) ]

  -- whether the renderer has been skipped already
  is_skipped : Option ℕ → List Short → Bool
  is_skipped none shorts = false
  is_skipped (some i) [] = false
  is_skipped (some zero) (short ∷ shorts) = is_some (truthy short.skipped)
  is_skipped (some (suc i)) (short ∷ shorts) = is_skipped (some i) shorts

  check_of : Option String → List Short → Option Check
  check_of none shorts = none
  check_of (some id) shorts =
      if is_skipped (first_of id shorts) shorts
      then none
      else some (record { id = id; renderer = first_of id shorts })

  -- `checkAndSkipCurrentShort` up to its message, `none` where it returns before
  unfoldable pub start_check : ShortsPage → Option Check
  unfolding check_of first_of is_skipped is_video extract_video_id_from_short try_href
      get_current_short_video_id extract_video_id_from_url id_of_url
  start_check page = check_of (truthy (get_current_short_video_id page)) page.renderers

-- the loop over the videos of the answer
pub finish_check : Check → (threshold : ℕ) → List CachedVideo → ShortsPage → ShortsPage
finish_check check threshold [] page = page
finish_check check threshold (video ∷ videos) page =
    let rest = finish_check check threshold videos page in
    if video.video_id == check.id && leb threshold video.score
    then skip_to_next_short (record page { renderers = mark check.renderer page.renderers })
    else rest

-- A check during which nothing else happens to the page.
pub check_and_skip_current_short :
    (parse : String → Option Url) (send : Message → Result MessageResponse) (stored : Option ℕ)
    → ShortsPage
    → ShortsPage
check_and_skip_current_short parse send stored page = elim (start_check parse page) [
  | none ↦ page
  | some check ↦
      finish_check check (get_threshold stored) (videos_of (send (check_videos (check.id ∷ []))))
        page
]

-- One round of the poll of `watchShortsNavigation`: the last address, and whether the callback runs.
pub poll : (last_url href pathname : String) → String × Bool
poll last_url href pathname =
    if href == last_url then (last_url, false) else (href, is_shorts_page pathname)
