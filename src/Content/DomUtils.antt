-- ===== src/Content/DomUtils.antt =====
-- realtube-extension/src/content/dom-utils.ts: the type of a page, and the video ids of its elements.
--
-- `new URL` is a parameter, and so is what `querySelectorAll` finds. Of an element that shows a video,
-- a renderer, only its thumbnail link and its title link are looked at.
pub mod Ids
pub mod Found
use Prim.Native.Char.{Char, code}
use Prim.Native.String.{◌++◌}
use text.Mathlib.Text.{starts_with}
use real_tube.Prelude.{
  ℕ, zero, suc, String, ◌==◌, Bool, true, false, ◌&&◌, ◌||◌, Option, none, some, List, [], ◌∷◌, leb,
  ◌=ℕ◌, if◌then◌else◌,
}
use real_tube.Browser.{truthy}

pub data PageType : Type 0 where
  home search watch shorts channel unknown : PageType

-- A parsed URL, with the first value of its search parameter `v`.
pub record Url : Type 0 where
  pub hostname : String
  pub pathname : String
  pub search_v : Option String

pub detect_page_type : String → PageType
detect_page_type path =
    if path == "/" || path == "/feed/trending" || starts_with path "/feed/"
    then home
    else if path == "/results"
    then search
    else if path == "/watch"
    then watch
    else if starts_with path "/shorts/"
    then shorts
    else if starts_with path "/@" || starts_with path "/channel/" || starts_with path "/c/"
    then channel
    else unknown

-- [a-zA-Z0-9_-]
pub is_id_char : ℕ → Bool
is_id_char c =
    (leb b'a' c && leb c b'z')
    || (leb b'A' c && leb c b'Z')
    || (leb b'0' c && leb c b'9')
    || c =ℕ b'_'
    || c =ℕ b'-'

-- what follows a prefix of the text
pub strip_prefix : (prefix : String) → String → Option String
strip_prefix String.[] s = some s
strip_prefix (String.◌∷◌ c prefix) String.[] = none
strip_prefix (String.◌∷◌ c prefix) (String.◌∷◌ d s) =
    let rest = strip_prefix prefix s in if code c =ℕ code d then rest else none

abbrev prepend : Char → Option String → Option String
prepend c none = none
prepend c (some s) = some (String.◌∷◌ c s)

-- the first `n` characters, where all of them are of an id
pub take_id : (n : ℕ) → String → Option String
take_id zero s = some ""
take_id (suc n) String.[] = none
take_id (suc n) (String.◌∷◌ c s) =
    let rest = take_id n s in if is_id_char (code c) then prepend c rest else none

abbrev id_after_prefix : Option String → Option String
id_after_prefix none = none
id_after_prefix (some rest) = take_id 11 rest

-- the group of `/^\/shorts\/([a-zA-Z0-9_-]{11})/`
pub shorts_id : (pathname : String) → Option String
shorts_id pathname = id_after_prefix (strip_prefix "/shorts/" pathname)

unfoldable pub id_of_url : Url → Option String
id_of_url url = if url.pathname == "/watch" then url.search_v else shorts_id url.pathname

-- `parse` is `new URL(url, window.location.origin)`, `none` where it throws.
unfoldable pub extract_video_id_from_url : (parse : String → Option Url) → String → Option String
extract_video_id_from_url parse url = elim (parse url) [
  | none ↦ none
  | some parsed ↦ id_of_url parsed
]

-- A link that was found, with its attribute `href`.
pub record Link : Type 0 where
  pub href : Option String

pub record Renderer : Type 0 where
  pub thumbnail : Option Link
  pub title : Option Link

-- `Map` from keys to values, in the order in which the keys were first set
pub set_entry {ℓ} : {A : Type ℓ} → String → A → List (String × A) → List (String × A)
set_entry key value [] = (key, value) ∷ []
set_entry key value ((k, v) ∷ entries) =
    if k == key then (k, value) ∷ entries else (k, v) ∷ set_entry key value entries

-- `Map.get`
unfoldable pub get_entry {ℓ} : {A : Type ℓ} → String → List (String × A) → Option A
get_entry key [] = none
get_entry key ((k, v) ∷ entries) = if k == key then some v else get_entry key entries

-- `if (id) videoMap.set(id, element)`
pub add_found {ℓ} : {A : Type ℓ} → Option String → A → List (String × A) → List (String × A)
add_found none element entries = entries
add_found (some id) element entries = set_entry id element entries

-- a loop that adds what `extract` finds in each element
pub collect_ids {ℓ} :
    {A R : Type ℓ} (extract : R → Option String)
    → List (A × R)
    → List (String × A)
    → List (String × A)
collect_ids extract [] entries = entries
collect_ids extract ((element, renderer) ∷ elements) entries =
    collect_ids extract elements (add_found (truthy (extract renderer)) element entries)

abbrev pub feed : String
feed = "ytd-rich-item-renderer"

abbrev pub search_results : String
search_results = "ytd-video-renderer"

abbrev pub sidebar : String
sidebar = "ytd-compact-video-renderer"

abbrev pub reels : String
reels = "ytd-reel-video-renderer"

abbrev pub grid : String
grid = "ytd-grid-video-renderer"

pub get_video_renderer_selector : PageType → String
get_video_renderer_selector home = feed ++ (", " ++ sidebar)
get_video_renderer_selector search = search_results
get_video_renderer_selector watch = sidebar
get_video_renderer_selector shorts = reels
get_video_renderer_selector channel = grid ++ (", " ++ feed)
get_video_renderer_selector unknown =
    feed ++ (", " ++ (search_results ++ (", " ++ (sidebar ++ (", " ++ (reels ++ (", " ++ grid)))))))

-- A node that was added to the page: whether it is an HTML element, and what it has for a selector.
-- `E` names the elements.
pub record AddedNode (E : Type 0) (R : Type 0) : Type 0 where
  pub is_html : Bool
  pub matches : String → Option (E × R)  -- the node itself, where it matches
  pub descendants : String → List (E × R)

module _ {E R : Type 0} (extract : R → Option String) where
  abbrev own : Option (E × R) → List (E × R)
  own none = []
  own (some node) = node ∷ []

  -- the loop over the added nodes of all mutations
  pub collect_added :
      (selector : String) → List (AddedNode E R) → List (String × E) → List (String × E)
  collect_added selector [] entries = entries
  collect_added selector (node ∷ nodes) entries = collect_added selector nodes (
      if node.is_html
      then collect_ids extract (node.descendants selector)
          (collect_ids extract (own (node.matches selector)) entries)
      else entries)

module _ (parse : String → Option Url) where
  extract_from_href : Option String → Option String
  extract_from_href none = none
  extract_from_href (some href) = extract_video_id_from_url parse href

  pub extract_video_id_from_link : Link → Option String
  extract_video_id_from_link link = extract_from_href (truthy link.href)

  -- `if (link) { const id = extract(link); if (id) return id; }`, and else what follows
  pub try_link : Option Link → Option String → Option String
  try_link none rest = rest
  try_link (some link) rest = elim (truthy (extract_video_id_from_link link)) [
    | none ↦ rest
    | some id ↦ some id
  ]

  pub extract_video_id_from_renderer : Renderer → Option String
  extract_video_id_from_renderer renderer =
      try_link renderer.thumbnail (try_link renderer.title none)

  module _ {E : Type 0} where
    -- `query` is `document.querySelectorAll`
    unfoldable pub extract_all_video_ids :
        (query : String → List (E × Renderer)) → PageType → List (String × E)
    extract_all_video_ids query page_type =
        collect_ids extract_video_id_from_renderer (query (get_video_renderer_selector page_type))
          []

    pub extract_video_ids_from_mutations :
        List (List (AddedNode E Renderer)) → PageType → List (String × E)
    extract_video_ids_from_mutations mutations page_type = over mutations []
      where
        over : List (List (AddedNode E Renderer)) → List (String × E) → List (String × E)
        over [] entries = entries
        over (added ∷ mutations) entries = over mutations (
            collect_added extract_video_id_from_renderer (get_video_renderer_selector page_type)
              added entries)

  -- `href` is `window.location.href`
  pub get_current_watch_video_id : (href : String) → Option String
  get_current_watch_video_id href = extract_video_id_from_url parse href
