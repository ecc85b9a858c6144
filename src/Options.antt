-- ===== src/Options.antt =====
-- realtube-extension/src/options/options.tsx: the settings page, its edits, and the delayed write of
-- them to the storage that is synchronised.
--
-- The storage has the keys of the settings and is taken to hold values of their types. The markup
-- stands as the edits that its controls make. A number that is shown stands in the unit of `one`.
pub mod Reload
pub mod Ttl
pub mod View
use real_tube.Prelude.{
  ℕ, zero, suc, ◌*◌, String, ◌==◌, Bool, true, false, ◌||◌, Option, none, some, List, [], ◌∷◌, leb,
  if◌then◌else◌,
}
use real_tube.Records.{one, UserInfoResponse}
use real_tube.Effects.{Result, ok, err}
use real_tube.Browser.{truthy}
use real_tube.Background.{Answer, user_id, user_info, MessageResponse, success, failure}

-- A JavaScript number: `negsuc n` has the absolute value `n + 1`.
pub data Number : Type 0 where
  nan : Number
  pos negsuc : ℕ → Number

-- An object with thresholds by category.
abbrev pub Thresholds : Type 0
Thresholds = String → Option ℕ

pub record Settings : Type 0 where
  pub enabled : Bool
  pub shorts_filter_enabled : Bool
  pub default_action : String
  pub hide_threshold : ℕ
  pub category_thresholds : Thresholds
  pub badge_style : String
  pub show_notifications : Bool
  pub hash_prefix_mode : Bool
  pub server_url : String
  pub cache_ttl_minutes : Number
  pub debug_logging : Bool

-- what `chrome.storage.sync` holds
pub record Items : Type 0 where
  pub enabled : Option Bool
  pub shorts_filter_enabled : Option Bool
  pub default_action : Option String
  pub hide_threshold : Option ℕ
  pub category_thresholds : Option Thresholds
  pub badge_style : Option String
  pub show_notifications : Option Bool
  pub hash_prefix_mode : Option Bool
  pub server_url : Option String
  pub cache_ttl_minutes : Option Number
  pub debug_logging : Option Bool

pub default_thresholds : Thresholds
default_thresholds id =
    if id == "fully_ai"
    then some (50 * one)
    else if id == "ai_voiceover" || id == "ai_visuals"
    then some (60 * one)
    else if id == "ai_thumbnails" || id == "ai_assisted"
    then some (70 * one)
    else none

abbrev pub default_settings : Settings
default_settings = record {
  enabled = true;
  shorts_filter_enabled = true;
  default_action = "hide";
  hide_threshold = 50 * one;
  category_thresholds = default_thresholds;
  badge_style = "badge";
  show_notifications = true;
  hash_prefix_mode = true;
  server_url = "";
  cache_ttl_minutes = pos (30 * one);
  debug_logging = false;
}

-- `item !== undefined ? item : value`
abbrev pub if_defined {ℓ} : {A : Type ℓ} → Option A → A → A
if_defined none value = value
if_defined (some item) value = item

-- `item || value`
abbrev pub or_default : Option String → String → String
or_default item value = if_defined (truthy item) value

-- the value of the later of two objects where it has one
abbrev pub later : Option ℕ → Option ℕ → Option ℕ
later none value = value
later (some item) value = some item

-- `{...thresholds, ...items}`
pub spread : Thresholds → Option Thresholds → Thresholds
spread thresholds none id = thresholds id
spread thresholds (some items) id = later (items id) (thresholds id)

pub load_settings : Items → Settings
load_settings items = record {
  enabled = if_defined items.enabled default_settings.enabled;
  shorts_filter_enabled =
      if_defined items.shorts_filter_enabled default_settings.shorts_filter_enabled;
  default_action = or_default items.default_action default_settings.default_action;
  hide_threshold = if_defined items.hide_threshold default_settings.hide_threshold;
  category_thresholds = spread default_settings.category_thresholds items.category_thresholds;
  badge_style = or_default items.badge_style default_settings.badge_style;
  show_notifications = if_defined items.show_notifications default_settings.show_notifications;
  hash_prefix_mode = if_defined items.hash_prefix_mode default_settings.hash_prefix_mode;
  server_url = or_default items.server_url default_settings.server_url;
  cache_ttl_minutes = if_defined items.cache_ttl_minutes default_settings.cache_ttl_minutes;
  debug_logging = if_defined items.debug_logging default_settings.debug_logging;
}

-- `chrome.storage.sync.set(settings)`, which gives every key a value
pub stored : Settings → Items
stored settings = record {
  enabled = some settings.enabled;
  shorts_filter_enabled = some settings.shorts_filter_enabled;
  default_action = some settings.default_action;
  hide_threshold = some settings.hide_threshold;
  category_thresholds = some settings.category_thresholds;
  badge_style = some settings.badge_style;
  show_notifications = some settings.show_notifications;
  hash_prefix_mode = some settings.hash_prefix_mode;
  server_url = some settings.server_url;
  cache_ttl_minutes = some settings.cache_ttl_minutes;
  debug_logging = some settings.debug_logging;
}

-- `Number(value) || 30`
or_thirty : Number → Number
or_thirty nan = pos (30 * one)
or_thirty (pos zero) = pos (30 * one)
or_thirty (pos (suc n)) = pos (suc n)
or_thirty (negsuc n) = negsuc n

-- `Math.min(limit, n)`
min_with : ℕ → Number → Number
min_with limit nan = nan
min_with limit (pos n) = pos (if leb limit n then limit else n)
min_with limit (negsuc n) = negsuc n

-- `Math.max(limit, n)`
max_with : ℕ → Number → Number
max_with limit nan = nan
max_with limit (pos n) = pos (if leb n limit then limit else n)
max_with limit (negsuc n) = pos limit

-- the value of a number that was typed as the lifetime of the cache
pub clamp_ttl : Number → Number
clamp_ttl typed = max_with (5 * one) (min_with (1440 * one) (or_thirty typed))

-- the options of the two selects
pub data DefaultAction : Type 0 where
  hide warn dim ignore : DefaultAction

abbrev pub action_value : DefaultAction → String
action_value hide = "hide"
action_value warn = "warn"
action_value dim = "dim"
action_value ignore = "ignore"

pub data BadgeStyle : Type 0 where
  badge dot no_badge : BadgeStyle

abbrev pub badge_value : BadgeStyle → String
badge_value badge = "badge"
badge_value dot = "dot"
badge_value no_badge = "none"

-- what the user changes; the value of a slider is a whole number
pub data Edit : Type 0 where
  set_enabled set_shorts_filter set_notifications set_debug_logging : Bool → Edit
  set_default_action : DefaultAction → Edit
  set_badge_style : BadgeStyle → Edit
  set_hide_threshold : (value : ℕ) → Edit
  set_category_threshold : (id : String) (value : ℕ) → Edit
  set_server_url : String → Edit
  set_cache_ttl : (typed : Number) → Edit

-- `{...thresholds, [id]: value}`
pub with_threshold : String → ℕ → Thresholds → Thresholds
with_threshold id value thresholds other = if other == id then some value else thresholds other

-- `{...settings, ...partial}`, with what the control of the edit gives to `save`
pub edited : Edit → Settings → Settings
edited (set_enabled v) s = record s { enabled = v }
edited (set_shorts_filter v) s = record s { shorts_filter_enabled = v }
edited (set_notifications v) s = record s { show_notifications = v }
edited (set_debug_logging v) s = record s { debug_logging = v }
edited (set_default_action action) s = record s { default_action = action_value action }
edited (set_badge_style style) s = record s { badge_style = badge_value style }
edited (set_hide_threshold value) s = record s { hide_threshold = value * one }
edited (set_category_threshold id value) s = record s {
  category_thresholds = with_threshold id (value * one) s.category_thresholds;
}
edited (set_server_url url) s = record s { server_url = url }
edited (set_cache_ttl typed) s = record s { cache_ttl_minutes = clamp_ttl typed }

pub record OptionsPage : Type 0 where
  pub loading : Bool
  pub settings : Settings
  pub user_id : Option String
  pub user_info : Option UserInfoResponse
  pub toast_visible : Bool
  pub save_timer : Option Settings  -- a pending write, with what it writes
  pub toast_timer : Bool
  pub storage : Items

pub data Event : Type 0 where
  settings_loaded : Event
  user_id_answered user_info_answered : Result MessageResponse → Event
  edit_made : Edit → Event
  save_due toast_due : Event

-- `idRes.data?.userId || null`
pub id_answer : Answer → Option String
id_answer (Answer.user_id id) = truthy (some id)
id_answer _ = none

pub info_answer : Answer → Option UserInfoResponse
info_answer (Answer.user_info info) = some info
info_answer _ = none

unfoldable pub save : Edit → OptionsPage → OptionsPage
save edit s = record s {
  settings = edited edit s.settings;
  save_timer = some (edited edit s.settings);
}

pub write : Option Settings → OptionsPage → OptionsPage
write none s = s
write (some next) s = record s {
  storage = stored next;
  save_timer = none;
  toast_visible = true;
  toast_timer = true;
}

-- One event. The controls are there once the settings are loaded.
unfoldable pub handle : Event → OptionsPage → OptionsPage
handle settings_loaded s =
    if s.loading then record s { settings = load_settings s.storage; loading = false } else s
handle (user_id_answered (ok (success answer))) s = record s { user_id = id_answer answer }
handle (user_id_answered _) s = s
handle (user_info_answered (ok (success answer))) s = record s { user_info = info_answer answer }
handle (user_info_answered _) s = s
handle (edit_made edit) s = if s.loading then s else save edit s
handle save_due s = write s.save_timer s
handle toast_due s =
    if s.toast_timer then record s { toast_visible = false; toast_timer = false } else s

unfoldable pub run : List Event → OptionsPage → OptionsPage
run [] s = s
run (event ∷ events) s = run events (handle event s)

-- the page as it is mounted
abbrev pub opened : Items → OptionsPage
opened items = record {
  loading = true;
  settings = default_settings;
  user_id = none;
  user_info = none;
  toast_visible = false;
  save_timer = none;
  toast_timer = false;
  storage = items;
}
