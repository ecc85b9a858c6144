-- ===== src/Options/View.antt =====
-- What realtube-extension/src/options/options.tsx renders: the sections of the page, the controls in
-- them with the setting that each shows and the edit that each makes, and the notes at the end.
--
-- Elements, class names and icons are left out. A control's value, and that of a slider, stand in the
-- unit of `one`; what is moved or typed is a whole number or text.
pub mod Controls
use Prim.Native.String.{◌++◌}
use mathlib.Core.List
use mathlib.Core.Option
use real_tube.Prelude.{
  ℕ, zero, suc, ◌+◌, ◌*◌, ◌/◌, String, ◌==◌, Bool, true, false, Option, none, some, List, [], ◌∷◌,
  map, if◌then◌else◌,
}
use real_tube.Records.{one, round, UserInfoResponse}
use real_tube.Browser.{truthy}
use real_tube.Identity.{substring}
use real_tube.Options.{
  OptionsPage, Settings, Number, Edit, set_enabled, set_shorts_filter, set_notifications,
  set_debug_logging, set_default_action, set_badge_style, set_hide_threshold,
  set_category_threshold, set_server_url, set_cache_ttl, DefaultAction, hide, warn, dim, ignore,
  BadgeStyle, badge, dot, no_badge, if_defined, action_value, badge_value,
}

-- a control with its value, and the edit that a change of it to another value makes
pub data Control : Type 0 where
  toggle : (checked : Bool) (on_change : Bool → Option Edit) → Control
  select :
      (value : String) (options : List (String × String)) (on_change : String → Option Edit)
      → Control
  slider : (value : ℕ) (on_change : ℕ → Option Edit) → Control
  text_field : (value placeholder : String) (on_change : String → Option Edit) → Control
  number_field : (value : Number) (min max : ℕ) (on_change : Number → Option Edit) → Control

pub record Row : Type 0 where
  pub label : String
  pub desc : String
  pub control : Control

pub record Section : Type 0 where
  pub title : String
  pub rows : List Row

pub record CategoryInfo : Type 0 where
  pub id : String
  pub label : String
  pub desc : String

-- CATEGORIES
abbrev pub categories : List CategoryInfo
categories =
    record {
      id = "fully_ai";
      label = "Fully AI-Generated";
      desc = "Entire video is AI: visuals, audio, script";
    }
    ∷ record {
      id = "ai_voiceover";
      label = "AI Voiceover";
      desc = "Real footage with AI-generated narration";
    }
    ∷ record {
      id = "ai_visuals";
      label = "AI Visuals";
      desc = "AI-generated images/video with human voice";
    }
    ∷ record {
      id = "ai_thumbnails";
      label = "AI Thumbnails Only";
      desc = "Only thumbnail is AI-generated";
    }
    ∷ record {
      id = "ai_assisted";
      label = "AI-Assisted";
      desc = "Significant AI editing/enhancement";
    }
    ∷ []

-- the options of the selects, each with its value
abbrev pub actions : List (String × String)
actions = ("hide", "Hide") ∷ ("warn", "Warn") ∷ ("dim", "Dim") ∷ ("ignore", "Ignore") ∷ []

abbrev pub styles : List (String × String)
styles = ("badge", "Badge") ∷ ("dot", "Dot") ∷ ("none", "None") ∷ []

-- the option of a select that has the value
pub option_of : {A : Type 0} → (value_of : A → String) → List A → String → Option A
option_of value_of [] value = none
option_of value_of (a ∷ rest) value =
    if value == value_of a then some a else option_of value_of rest value

abbrev pub all_actions : List DefaultAction
all_actions = hide ∷ warn ∷ dim ∷ ignore ∷ []

abbrev pub all_styles : List BadgeStyle
all_styles = badge ∷ dot ∷ no_badge ∷ []

abbrev pub action_of : String → Option DefaultAction
action_of = option_of action_value all_actions

abbrev pub style_of : String → Option BadgeStyle
style_of = option_of badge_value all_styles

-- `s.categoryThresholds[cat.id] ?? 50`
abbrev pub threshold : Settings → String → ℕ
threshold s id = if_defined (s.category_thresholds id) (50 * one)

abbrev pub default_server : String
default_server = "https://api.realtube.example"

abbrev pub general : Settings → Section
general s = record {
  title = "General";
  rows =
      record {
        label = "Enable RealTube";
        desc = "Detect and hide AI-generated videos on YouTube";
        control = toggle s.enabled (λ v. some (set_enabled v));
      }
      ∷ record {
        label = "Default action for flagged videos";
        desc = "What happens when a video exceeds the threshold";
        control =
            select s.default_action actions (λ v. Option.map set_default_action (action_of v));
      }
      ∷ record {
        label = "Filter Shorts";
        desc = "Automatically skip flagged AI videos in YouTube Shorts";
        control = toggle s.shorts_filter_enabled (λ v. some (set_shorts_filter v));
      }
      ∷ [];
}

abbrev category_row : Settings → CategoryInfo → Row
category_row s cat = record {
  label = cat.label;
  desc = cat.desc;
  control = slider (threshold s cat.id) (λ v. some (set_category_threshold cat.id v));
}

abbrev pub category_thresholds : Settings → Section
category_thresholds s = record {
  title = "Category Thresholds";
  rows =
      record {
        label = "Global hide threshold";
        desc = "Minimum AI score to trigger the default action";
        control = slider s.hide_threshold (λ v. some (set_hide_threshold v));
      }
      ∷ map (category_row s) categories;
}

abbrev pub appearance : Settings → Section
appearance s = record {
  title = "Appearance";
  rows =
      record {
        label = "Badge style";
        desc = "Icon badge shown on flagged video thumbnails";
        control = select s.badge_style styles (λ v. Option.map set_badge_style (style_of v));
      }
      ∷ record {
        label = "Show notifications";
        desc = "Notify when new AI detections are found on the page";
        control = toggle s.show_notifications (λ v. some (set_notifications v));
      }
      ∷ [];
}

-- the toggle is disabled, and does nothing
abbrev pub privacy : Settings → Section
privacy s = record {
  title = "Privacy";
  rows =
      record {
        label = "Hash-prefix mode";
        desc = "Send only a prefix of the video hash to the server (always enabled)";
        control = toggle s.hash_prefix_mode (λ v. none);
      }
      ∷ [];
}

abbrev pub advanced : Settings → Section
advanced s = record {
  title = "Advanced";
  rows =
      record {
        label = "Server URL override";
        desc = "Leave empty to use the default server";
        control = text_field s.server_url default_server (λ v. some (set_server_url v));
      }
      ∷ record {
        label = "Cache TTL (minutes)";
        desc = "How long cached data is considered fresh";
        control = number_field s.cache_ttl_minutes 5 1440 (λ v. some (set_cache_ttl v));
      }
      ∷ record {
        label = "Debug logging";
        desc = "Log detailed messages to the browser console";
        control = toggle s.debug_logging (λ v. some (set_debug_logging v));
      }
      ∷ [];
}

abbrev pub sections : Settings → List Section
sections s = general s ∷ category_thresholds s ∷ appearance s ∷ privacy s ∷ advanced s ∷ []

pub record About : Type 0 where
  pub version : String
  pub trust_score : Option ℕ  -- "—" where it is not known
  pub user_id : String

-- `userId ? userId.substring(0, 8) + "..." : "Loading..."`
short_id : Option String → String
short_id none = "Loading..."
short_id (some id) = substring 8 id ++ "..."

pub about : OptionsPage → About
about s = record {
  version = "0.1.0";
  trust_score = Option.map (λ (u : UserInfoResponse). round u.trust_score) s.user_info;
  user_id = short_id (truthy s.user_id);
}

pub data PageView : Type 0 where
  loading_view : PageView
  page_view : List Section → About → (toast : Bool) → PageView

pub render : OptionsPage → PageView
render s =
    if s.loading then loading_view else page_view (sections s.settings) (about s) s.toast_visible
