-- ===== src/Content/Session.antt =====
-- realtube-extension/src/content/content.ts: what the content script of a page keeps running while the
-- user navigates and changes the settings.
--
-- The state is the variables of the module and the timeouts that are set; these have the same delay, so
-- they end in their order. What is done to the page, in hide.ts, shorts.ts and vote-ui.ts, stands as a
-- list of calls, the latest first.
pub mod Observers
use real_tube.Prelude.{
  String, ◌==◌, Bool, true, false, not, ◌&&◌, Option, none, some, List, [], ◌∷◌, ◌++◌,
  if◌then◌else◌,
}
use real_tube.Content.DomUtils.{PageType, home, search, watch, shorts, channel, unknown}

pub data Call : Type 0 where
  scan_visible scan_mutations check_current_short scan_shorts inject_button remove_button : Call

-- what a timeout of INITIAL_SCAN_DELAY_MS calls
pub data Timeout : Type 0 where
  scan_later inject_later start_shorts_later : Timeout

pub record Session : Type 0 where
  pub page_type : PageType
  pub observer : Bool  -- whether the observer of the page runs
  pub shorts_observer : Bool  -- whether the observer and the URL watch of shorts run
  pub debounce : Bool  -- whether `debounceTimer` is set
  pub enabled : Bool
  pub shorts_filter_enabled : Bool
  pub listening : Bool  -- whether the listeners are set up
  pub timeouts : List Timeout  -- those that are set, the earliest first
  pub calls : List Call

-- what happens to the script
pub data Event : Type 0 where
  mutated debounced timed_out : Event
  navigated : PageType → Event
  -- `changes.enabled` and `changes.shortsFilterEnabled`, each with its new value
  settings_changed : (area : String) (enabled filter : Option (Option Bool)) → Event

-- `value !== false`
abbrev pub is_on : Option Bool → Bool
is_on none = true
is_on (some value) = value

abbrev pub is_shorts : PageType → Bool
is_shorts shorts = true
is_shorts _ = false

abbrev call : Call → Session → Session
call c s = record s { calls = c ∷ s.calls }

abbrev scan_visible_videos : Session → Session
scan_visible_videos s = if s.enabled then call scan_visible s else s

abbrev stop_observer : Session → Session
stop_observer s = record s { observer = false }

abbrev start_observer : Session → Session
start_observer s = record (stop_observer s) { observer = true }

abbrev stop_shorts_mode : Session → Session
stop_shorts_mode s = record s { shorts_observer = false }

abbrev start_shorts_mode : Session → Session
start_shorts_mode s = record (call scan_shorts (call check_current_short (stop_shorts_mode s))) {
  shorts_observer = true;
}

abbrev set_timeout : Timeout → Session → Session
set_timeout timeout s = record s { timeouts = s.timeouts ++ timeout ∷ [] }

abbrev set_timeout_if : Bool → Timeout → Session → Session
set_timeout_if test timeout s = if test then set_timeout timeout s else s

abbrev has_vote_button : PageType → Bool
has_vote_button watch = true
has_vote_button shorts = true
has_vote_button _ = false

abbrev fire : Timeout → Session → Session
fire scan_later s = scan_visible_videos s
fire inject_later s = call inject_button s
fire start_shorts_later s = start_shorts_mode s

-- the earliest timeout ends
abbrev on_timeout : List Timeout → Session → Session
on_timeout [] s = s
on_timeout (timeout ∷ timeouts) s = fire timeout (record s { timeouts = timeouts })

abbrev on_navigate : PageType → Session → Session
on_navigate page_type s =
    let s₁ = call remove_button (record s { page_type = page_type }) in
    let s₂ = set_timeout_if (has_vote_button page_type) inject_later s₁ in
    let s₃ =
      if is_shorts page_type && s₂.shorts_filter_enabled
      then set_timeout start_shorts_later s₂
      else stop_shorts_mode s₂ in
    set_timeout scan_later s₃

abbrev on_enabled_changed : Option (Option Bool) → Session → Session
on_enabled_changed none s = s
on_enabled_changed (some value) s =
    let s₁ = record s { enabled = is_on value } in
    let s₂ = start_observer (scan_visible_videos s₁) in
    if s₁.enabled
    then (if is_shorts s₂.page_type && s₂.shorts_filter_enabled then start_shorts_mode s₂ else s₂)
    else stop_shorts_mode (stop_observer s₁)

abbrev on_shorts_changed : Option (Option Bool) → Session → Session
on_shorts_changed none s = s
on_shorts_changed (some value) s =
    let s₁ = record s { shorts_filter_enabled = is_on value } in
    if s₁.enabled && is_shorts s₁.page_type
    then (if s₁.shorts_filter_enabled then start_shorts_mode s₁ else stop_shorts_mode s₁)
    else s₁

-- the handler of an event, once the listeners are set up
unfoldable pub handle : Event → Session → Session
handle mutated s = if s.enabled then record s { debounce = true } else s
handle debounced s = if s.debounce then call scan_mutations (record s { debounce = false }) else s
handle (navigated page_type) s = on_navigate page_type s
handle timed_out s = on_timeout s.timeouts s
handle (settings_changed area enabled filter) s =
    if area == "sync" then on_shorts_changed filter (on_enabled_changed enabled s) else s

-- the timeouts that the start sets
abbrev first_timeouts : PageType → (filter : Bool) → List Timeout
first_timeouts page_type filter =
    scan_later
    ∷ ((if has_vote_button page_type then inject_later ∷ [] else [])
        ++ (if is_shorts page_type && filter then start_shorts_later ∷ [] else []))

-- The start, with the settings as they are stored. A script that starts disabled sets up nothing.
unfoldable pub init : (enabled filter : Option Bool) → PageType → Session
init enabled filter page_type =
    if is_on enabled
    then record {
      page_type = page_type;
      observer = true;
      shorts_observer = false;
      debounce = false;
      enabled = true;
      shorts_filter_enabled = is_on filter;
      listening = true;
      timeouts = first_timeouts page_type (is_on filter);
      calls = [];
    }
    else record {
      page_type = unknown;
      observer = false;
      shorts_observer = false;
      debounce = false;
      enabled = false;
      shorts_filter_enabled = true;
      listening = false;
      timeouts = [];
      calls = [];
    }

-- The events one after the other; without its listeners, a script sees none.
unfoldable pub run : List Event → Session → Session
run [] s = s
run (event ∷ events) s = run events (if s.listening then handle event s else s)
