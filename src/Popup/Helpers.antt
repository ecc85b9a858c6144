-- ===== src/Popup/Helpers.antt =====
-- The helper functions of realtube-extension/src/popup/popup.tsx.
--
-- Scores stand as in `Records`. Times are in milliseconds, and `date_ms` is `new Date(s).getTime()`.
pub mod Ago
use Prim.Native.String.{◌++◌}
use text.Mathlib.Text.{starts_with}
use real_tube.Prelude.{
  ℕ, zero, suc, ◌*◌, ◌/◌, ◌-◌, String, ◌==◌, Bool, true, false, ◌||◌, Option, none, some, ltb,
  if◌then◌else◌,
}
use real_tube.Records.{one}
use real_tube.Browser.{truthy}
use real_tube.Content.DomUtils.{Url, shorts_id}

-- `text.includes(part)`
unfoldable pub includes : (part : String) → String → Bool
includes part String.[] = starts_with String.[] part
includes part (String.◌∷◌ c text) =
    let later = includes part text in starts_with (String.◌∷◌ c text) part || later

unfoldable pub id_on_youtube : Url → Option String
id_on_youtube url =
    if includes "youtube.com" url.hostname
    then (if url.pathname == "/watch" then url.search_v else shorts_id url.pathname)
    else none

-- `parse` is `new URL(url)`, `none` where it throws.
unfoldable pub get_video_id_from_url : (parse : String → Option Url) → String → Option String
get_video_id_from_url parse url = elim (parse url) [
  | none ↦ none
  | some parsed ↦ id_on_youtube parsed
]

-- what `formatTimeAgo` says; of a date that is no date, "NaNd ago"
pub data TimeAgo : Type 0 where
  never just_now nan_days : TimeAgo
  minutes hours days : ℕ → TimeAgo

-- The difference of a date that is ahead is negative, which counts as less than a minute, like 0.
ago : (now : ℕ) → Option ℕ → TimeAgo
ago now none = nan_days
ago now (some date) =
    let mins = (now - date) / 60000 in
    if ltb mins 1
    then just_now
    else if ltb mins 60
    then minutes mins
    else if ltb (mins / 60) 24
    then hours (mins / 60)
    else days (mins / 60 / 24)

time_ago : (now : ℕ) (date_ms : String → Option ℕ) → Option String → TimeAgo
time_ago now date_ms none = never
time_ago now date_ms (some date) = ago now (date_ms date)

pub format_time_ago : (now : ℕ) (date_ms : String → Option ℕ) → Option String → TimeAgo
format_time_ago now date_ms date = time_ago now date_ms (truthy date)

pub score_color : ℕ → String
score_color score =
    if ltb score (30 * one)
    then "var(--rt-success)"
    else if ltb score (60 * one)
    then "var(--rt-accent)"
    else "var(--rt-danger)"

pub record Verdict : Type 0 where
  pub text : String
  pub cls : String

pub score_verdict : ℕ → Verdict
score_verdict score =
    if ltb score (30 * one)
    then record { text = "Likely Human"; cls = "clean" }
    else if ltb score (60 * one)
    then record { text = "Suspect"; cls = "suspect" }
    else record { text = "Likely AI"; cls = "flagged" }
