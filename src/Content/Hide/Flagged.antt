-- ===== src/Content/Hide/Flagged.antt =====
-- Which elements `checkAndHideVideos` of realtube-extension/src/content/hide.ts hides.
use mathlib.Core.Option
use real_tube.Browser.{truthy}
use real_tube.Prelude.{
  not, is_some, if◌then◌else◌, ℕ, zero, suc, ◌≡◌, refl, ap, ◌∙◌, Bool, true, false, ◌&&◌, ◌||◌,
  Option, none, some, List, [], ◌∷◌, map, leb, ◌=ℕ◌, Bool-cases, inl, inr, arith,
}
use real_tube.Records.{CachedVideo}
use real_tube.Effects.{Result}
use real_tube.Background.{Message, check_videos, MessageResponse}
use real_tube.Content.DomUtils
use real_tube.Content.Hide.{
  Element, Page, VideoElementMap, get_threshold, is_hidden, hide_element, element_of, hide_at,
  hide_entry, hide_if_flagged, hide_flagged, videos_of, check_and_hide_videos,
}

-- the element at a position
abbrev pub element_at : ℕ → Page → Option Element
element_at i [] = none
element_at zero (element ∷ page) = some element
element_at (suc i) (element ∷ page) = element_at i page

-- An element that is flagged and has no mark is not displayed and is marked; any other stays as it is.
abbrev pub hidden_if : Bool → Element → Element
hidden_if flagged element =
    if flagged && not (is_some (truthy element.hidden_attr))
    then record { display = "none"; hidden_attr = some "true" }
    else element

abbrev pub is_at : ℕ → Option ℕ → Bool
is_at i none = false
is_at i (some j) = i =ℕ j

-- whether a video whose element stands there reaches the threshold
abbrev pub is_flagged : ℕ → VideoElementMap → ℕ → List CachedVideo → Bool
is_flagged threshold entries i [] = false
is_flagged threshold entries i (video ∷ videos) =
    (leb threshold video.score && is_at i (element_of video.video_id entries))
    || is_flagged threshold entries i videos

hidden_if-hide : (element : Element) → hide_element element ≡ hidden_if true element
unfolding hide_element
hidden_if-hide element = elim (Bool-cases (is_hidden element)) [
  | inl hidden ↦ rw hidden refl
  | inr shown ↦ rw shown refl
]

hidden_if-twice :
    (a b : Bool) (element : Element)
    → hidden_if b (hidden_if a element) ≡ hidden_if (a || b) element
hidden_if-twice false b element = refl
hidden_if-twice true b element = elim (Bool-cases (is_hidden element)) [
  | inl hidden ↦ rw hidden (ground arith)
  | inr shown ↦ rw shown (ground arith)
]

map-hidden_if-twice :
    (a b : Bool) (o : Option Element)
    → Option.map (hidden_if b) (Option.map (hidden_if a) o) ≡ Option.map (hidden_if (a || b)) o
map-hidden_if-twice a b none = refl
map-hidden_if-twice a b (some element) = ap some (hidden_if-twice a b element)

map-hidden_if-false : (o : Option Element) → o ≡ Option.map (hidden_if false) o
map-hidden_if-false none = refl
map-hidden_if-false (some element) = refl

element_at-hide_at :
    (i j : ℕ) (page : Page)
    → element_at i (hide_at j page) ≡ Option.map (hidden_if (i =ℕ j)) (element_at i page)
unfolding hide_at
element_at-hide_at i j [] = refl
element_at-hide_at zero zero (element ∷ page) = ap some (hidden_if-hide element)
element_at-hide_at zero (suc j) (element ∷ page) =
    let e : (zero =ℕ suc j) ≡ false = ground arith in rw e refl
element_at-hide_at (suc i) zero (element ∷ page) =
    let e : (suc i =ℕ zero) ≡ false = ground arith in rw e (map-hidden_if-false (element_at i page))
element_at-hide_at (suc i) (suc j) (element ∷ page) =
    let e : (suc i =ℕ suc j) ≡ (i =ℕ j) = ground arith in rw e (element_at-hide_at i j page)

element_at-hide_entry :
    (i : ℕ) (o : Option ℕ) (page : Page)
    → element_at i (hide_entry o page) ≡ Option.map (hidden_if (is_at i o)) (element_at i page)
element_at-hide_entry i none page = map-hidden_if-false (element_at i page)
element_at-hide_entry i (some at) page = element_at-hide_at i at page

element_at-hide_flagged :
    (threshold : ℕ) (entries : VideoElementMap) (i : ℕ) (videos : List CachedVideo) (page : Page)
    → element_at i (hide_flagged threshold entries videos page)
      ≡ Option.map (hidden_if (is_flagged threshold entries i videos)) (element_at i page)
unfolding hide_flagged hide_if_flagged
element_at-hide_flagged threshold entries i [] page = map-hidden_if-false (element_at i page)
element_at-hide_flagged threshold entries i (video ∷ videos) page =
    elim (Bool-cases (leb threshold video.score)) [
      | inl flagged ↦
          let at = element_of video.video_id entries in
          rw flagged (
            element_at-hide_flagged threshold entries i videos (hide_entry at page)
            ∙ ap (Option.map (hidden_if (is_flagged threshold entries i videos)))
                (element_at-hide_entry i at page)
            ∙ map-hidden_if-twice (is_at i at) _ (element_at i page))
      | inr low ↦ rw low (element_at-hide_flagged threshold entries i videos page)
    ]

is_flagged-empty :
    (threshold i : ℕ) (videos : List CachedVideo) → is_flagged threshold [] i videos ≡ false
unfolding DomUtils.get_entry
is_flagged-empty threshold i [] = refl
is_flagged-empty threshold i (video ∷ videos) = ground (arith, is_flagged-empty threshold i videos)

-- After the check, each element of the page that had no mark has the mark and the style
-- `display: none` if the answer has a video with a score at or above the threshold whose entry in the
-- map is that element; all other elements are as they were. Where the answer has no videos, since it
-- is a failure or was not received, this is all elements.
pub check_and_hide_videos_lem :
    (send : Message → Result MessageResponse) (stored : Option ℕ) (entries : VideoElementMap)
    (page : Page) (i : ℕ)
    → element_at i (check_and_hide_videos send stored entries page)
      ≡ Option.map
          (hidden_if (
            is_flagged
              (get_threshold stored)
              entries
              i
              (videos_of (send (check_videos (map (λ e. e.0) entries))))))
          (element_at i page)
unfolding check_and_hide_videos
check_and_hide_videos_lem send stored [] page i =
    rw (is_flagged-empty (get_threshold stored) i (videos_of (send (check_videos []))))
      (map-hidden_if-false (element_at i page))
check_and_hide_videos_lem send stored (entry ∷ entries) page i =
    element_at-hide_flagged (get_threshold stored) (entry ∷ entries) i _ page
