-- ===== src/Options/Reload.antt =====
-- What a settings page of realtube-extension/src/options/options.tsx shows when it is opened again.
use std.Path.{fun_ext}
use real_tube.Prelude.{
  ℕ, String, ◌==◌, Bool, ◌≡◌, refl, sym, ◌∙◌, if-both, true, false, Option, none, some,
  if◌then◌else◌, List, [], ◌∷◌, arith,
}
use mathlib.Core.Path.{subst}
use real_tube.Effects.{ok, err}
use real_tube.Background.{success, failure}
use real_tube.Options
use real_tube.Options.{
  OptionsPage, Settings, Items, Thresholds, default_thresholds, or_default, spread, with_threshold,
  load_settings, stored, Edit, edited,
}

-- Settings that are read again as they are stored.
pub record IsKept (s : Settings) : Type 0 where
  pub action : or_default (some s.default_action) "hide" ≡ s.default_action
  pub style : or_default (some s.badge_style) "badge" ≡ s.badge_style
  pub thresholds : spread default_thresholds (some s.category_thresholds) ≡ s.category_thresholds

or_default_twice :
    (item : Option String) (value : String)
    → or_default (some value) value ≡ value
    → or_default (some (or_default item value)) value ≡ or_default item value
or_default_twice none value e = e
or_default_twice (some String.[]) value e = e
or_default_twice (some (String.◌∷◌ c t)) value e = refl

url_kept : (url : String) → or_default (some url) "" ≡ url
url_kept String.[] = refl
url_kept (String.◌∷◌ c t) = refl

later_twice :
    (item value : Option ℕ)
    → Options.later (Options.later item value) value ≡ Options.later item value
later_twice none none = refl
later_twice none (some v) = refl
later_twice (some i) value = refl

later_same : (value : Option ℕ) → Options.later value value ≡ value
later_same none = refl
later_same (some v) = refl

spread_twice :
    (thresholds : Thresholds) (items : Option Thresholds)
    → spread thresholds (some (spread thresholds items)) ≡ spread thresholds items
unfolding spread
spread_twice thresholds none = fun_ext λ id. later_same (thresholds id)
spread_twice thresholds (some items) = fun_ext λ id. later_twice (items id) (thresholds id)

later-if :
    (b : Bool) (value : ℕ) (item default : Option ℕ)
    → Options.later item default ≡ item
    → Options.later (if b then some value else item) default ≡ (if b then some value else item)
later-if true value item default h = refl
later-if false value item default h = h

spread-with_threshold :
    (thresholds items : Thresholds) (id : String) (value : ℕ)
    → spread thresholds (some items) ≡ items
    → spread thresholds (some (with_threshold id value items)) ≡ with_threshold id value items
unfolding spread with_threshold
spread-with_threshold thresholds items id value h =
    fun_ext λ other. later-if (other == id) value (items other) (thresholds other) λ i. h i other

load_settings-IsKept : (items : Items) → IsKept (load_settings items)
unfolding load_settings
load_settings-IsKept items = record {
  action = or_default_twice items.default_action "hide" refl;
  style = or_default_twice items.badge_style "badge" refl;
  thresholds = spread_twice default_thresholds items.category_thresholds;
}

edited-IsKept : (edit : Edit) (s : Settings) → IsKept s → IsKept (edited edit s)
unfolding edited
edited-IsKept (Options.set_enabled v) s h = record {
  action = h.action;
  style = h.style;
  thresholds = h.thresholds;
}
edited-IsKept (Options.set_shorts_filter v) s h = record {
  action = h.action;
  style = h.style;
  thresholds = h.thresholds;
}
edited-IsKept (Options.set_notifications v) s h = record {
  action = h.action;
  style = h.style;
  thresholds = h.thresholds;
}
edited-IsKept (Options.set_debug_logging v) s h = record {
  action = h.action;
  style = h.style;
  thresholds = h.thresholds;
}
edited-IsKept (Options.set_default_action action) s h = record {
  action = filled action;
  style = h.style;
  thresholds = h.thresholds;
}
  where
    filled :
        (action : Options.DefaultAction)
        → or_default (some (Options.action_value action)) "hide" ≡ Options.action_value action
    filled Options.hide = refl
    filled Options.warn = refl
    filled Options.dim = refl
    filled Options.ignore = refl
edited-IsKept (Options.set_badge_style style) s h = record {
  action = h.action;
  style = filled style;
  thresholds = h.thresholds;
}
  where
    filled :
        (style : Options.BadgeStyle)
        → or_default (some (Options.badge_value style)) "badge" ≡ Options.badge_value style
    filled Options.badge = refl
    filled Options.dot = refl
    filled Options.no_badge = refl
edited-IsKept (Options.set_hide_threshold value) s h = record {
  action = h.action;
  style = h.style;
  thresholds = h.thresholds;
}
edited-IsKept (Options.set_category_threshold id value) s h = record {
  action = h.action;
  style = h.style;
  thresholds = spread-with_threshold default_thresholds s.category_thresholds id _ h.thresholds;
}
edited-IsKept (Options.set_server_url url) s h = record {
  action = h.action;
  style = h.style;
  thresholds = h.thresholds;
}
edited-IsKept (Options.set_cache_ttl typed) s h = record {
  action = h.action;
  style = h.style;
  thresholds = h.thresholds;
}

load_settings-stored : (s : Settings) → IsKept s → load_settings (stored s) ≡ s
unfolding load_settings stored
load_settings-stored s h = λ i. record s {
  default_action = h.action i;
  badge_style = h.style i;
  category_thresholds = h.thresholds i;
  server_url = url_kept s.server_url i;
}

-- A loaded page's settings are those of the storage, or a pending write holds them.
abbrev pub IsPending : Option Settings → Settings → Items → Type 0
IsPending none settings items = load_settings items ≡ settings
IsPending (some next) settings items = next ≡ settings

abbrev pub IsCurrent : (loading : Bool) → Option Settings → Settings → Items → Type 0
IsCurrent true save_timer settings items = save_timer ≡ none
IsCurrent false save_timer settings items = IsPending save_timer settings items × IsKept settings

abbrev pub IsSaved : OptionsPage → Type 0
IsSaved s = IsCurrent s.loading s.save_timer s.settings s.storage

written :
    (loading : Bool) (next settings : Settings) (items : Items)
    → IsCurrent loading (some next) settings items
    → IsCurrent loading none settings (stored next)
written true next settings items h = refl
written false next settings items (same, kept) =
    (load_settings-stored next (subst IsKept (sym same) kept) ∙ same, kept)

loaded :
    (loading : Bool) (timer : Option Settings) (settings : Settings) (items : Items)
    → loading ≡ true
    → IsCurrent loading timer settings items
    → IsCurrent false timer (load_settings items) items
loaded true timer settings items e none_set = (
  subst (λ t. IsPending t (load_settings items) items) (sym none_set) refl,
  load_settings-IsKept items,
)
loaded false timer settings items e h = absurd (ground (arith, e))

changed :
    (loading : Bool) (timer : Option Settings) (edit : Edit) (settings : Settings) (items : Items)
    → loading ≡ false
    → IsCurrent loading timer settings items
    → IsCurrent loading (some (edited edit settings)) (edited edit settings) items
changed true timer edit settings items e h = absurd (ground (arith, e))
changed false timer edit settings items e (pending, kept) = (refl, edited-IsKept edit settings kept)

write-IsSaved :
    (timer : Option Settings) (s : OptionsPage)
    → IsCurrent s.loading timer s.settings s.storage
    → IsSaved s
    → IsSaved (Options.write timer s)
unfolding Options.write
write-IsSaved none s e h = h
write-IsSaved (some next) s e h = written s.loading next s.settings s.storage e

handle-IsSaved :
    (event : Options.Event) (s : OptionsPage) → IsSaved s → IsSaved (Options.handle event s)
unfolding Options.handle Options.save
handle-IsSaved Options.settings_loaded s h =
    if-both IsSaved s.loading _ s (λ e. loaded s.loading s.save_timer s.settings s.storage e h)
      (λ _. h)
handle-IsSaved (Options.user_id_answered (ok (success answer))) s h = h
handle-IsSaved (Options.user_id_answered (ok (failure error))) s h = h
handle-IsSaved (Options.user_id_answered (err message)) s h = h
handle-IsSaved (Options.user_info_answered (ok (success answer))) s h = h
handle-IsSaved (Options.user_info_answered (ok (failure error))) s h = h
handle-IsSaved (Options.user_info_answered (err message)) s h = h
handle-IsSaved (Options.edit_made edit) s h =
    if-both IsSaved s.loading s _ (λ _. h)
      (λ e. changed s.loading s.save_timer edit s.settings s.storage e h)
handle-IsSaved Options.save_due s h = write-IsSaved s.save_timer s h h
handle-IsSaved Options.toast_due s h = if-both IsSaved s.toast_timer _ s (λ _. h) (λ _. h)

run-IsSaved :
    (events : List Options.Event) (s : OptionsPage) → IsSaved s → IsSaved (Options.run events s)
unfolding Options.run
run-IsSaved [] s h = h
run-IsSaved (event ∷ events) s h = run-IsSaved events _ (handle-IsSaved event s h)

-- the page once its pending write, where there is one, is done
abbrev pub settled : OptionsPage → OptionsPage
settled s = Options.handle Options.save_due s

read_back :
    (timer : Option Settings) (s : OptionsPage)
    → s.save_timer ≡ timer
    → s.loading ≡ false
    → IsSaved s
    → load_settings (Options.write timer s).storage ≡ s.settings
unfolding Options.write
read_back timer s at e h = go timer s.loading at e h
  where
    go :
        (timer : Option Settings) (loading : Bool)
        → s.save_timer ≡ timer
        → loading ≡ false
        → IsCurrent loading s.save_timer s.settings s.storage
        → load_settings (Options.write timer s).storage ≡ s.settings
    go timer true at e h = absurd (ground (arith, e))
    go none false at e (pending, kept) = subst (λ t. IsPending t s.settings s.storage) at pending
    go (some next) false at e (pending, kept) =
        let same = subst (λ t. IsPending t s.settings s.storage) at pending in
        load_settings-stored next (subst IsKept (sym same) kept) ∙ same

module _ (items : Items) (events : List Options.Event) where
  -- A settings page that was opened over any storage, after any events: once its pending write is
  -- done, a page that is opened anew loads just the settings that this one shows. The page has to
  -- be loaded, and nothing else writes to the storage meanwhile.
  pub settings_survive :
      let s = Options.run events (Options.opened items) in
      s.loading ≡ false → load_settings (settled s).storage ≡ s.settings
  unfolding Options.handle
  settings_survive e = read_back _ _ refl e (run-IsSaved events (Options.opened items) refl)
