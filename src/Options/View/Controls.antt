-- ===== src/Options/View/Controls.antt =====
-- Each control of the settings page edits the setting that it shows, and no other.
use real_tube.Prelude.{
  ℕ, zero, suc, ◌*◌, String, ◌==◌, eq_iff, Bool, true, false, Option, none, some, List, [], ◌∷◌,
  map, ◌≡◌, refl, sym, ap, ◌∙◌, ◌⊎◌, arith, if◌then◌else◌, inl, inr,
}
use mathlib.Core.Path.{subst}
use mathlib.Core.List
use mathlib.Core.Option
use real_tube.Records.{one}
use real_tube.Options.{
  Settings, Number, Edit, set_enabled, set_shorts_filter, set_notifications, set_debug_logging,
  set_default_action, set_badge_style, set_hide_threshold, set_category_threshold, set_server_url,
  set_cache_ttl, edited, clamp_ttl, action_value, badge_value, with_threshold,
}
use real_tube.Options.View.{
  Control, toggle, select, slider, text_field, number_field, Row, Section, sections, actions,
  styles, all_actions, all_styles, threshold, default_server, option_of,
}

-- what the user does to a control, and what a control shows
pub data Input : Type 0 where
  checked : Bool → Input
  picked typed : String → Input
  slid : ℕ → Input
  counted : Number → Input

-- the edit that an input to a control makes
abbrev pub react : Control → Input → Option Edit
react (toggle v on_change) (checked w) = on_change w
react (select v options on_change) (picked w) = on_change w
react (slider v on_change) (slid n) = on_change n
react (text_field v placeholder on_change) (typed w) = on_change w
react (number_field v min max on_change) (counted n) = on_change n
react _ _ = none

abbrev pub shown : Control → Input
shown (toggle v on_change) = checked v
shown (select v options on_change) = picked v
shown (slider v on_change) = slid v
shown (text_field v placeholder on_change) = typed v
shown (number_field v min max on_change) = counted v

-- What a control shows after an input: the input itself, in the unit of `one` for a slider and within
-- its bounds for the lifetime of the cache.
abbrev pub taken : Input → Input
taken (slid n) = slid (n * one)
taken (counted n) = counted (clamp_ttl n)
taken (checked v) = checked v
taken (picked v) = picked v
taken (typed v) = typed v

abbrev controls_of : List Section → List Control
controls_of [] = []
controls_of (section ∷ rest) =
    List.◌++◌ (map (λ (row : Row). row.control) section.rows) (controls_of rest)

-- the controls of the page, from the top
abbrev pub controls : Settings → List Control
controls s = controls_of (sections s)

abbrev pub react_at : ℕ → Input → List Control → Option Edit
react_at i input [] = none
react_at zero input (control ∷ rest) = react control input
react_at (suc i) input (control ∷ rest) = react_at i input rest

abbrev pub set_at {ℓ} : {A : Type ℓ} → ℕ → A → List A → List A
set_at i a [] = []
set_at zero a (x ∷ xs) = a ∷ xs
set_at (suc i) a (x ∷ xs) = x ∷ set_at i a xs

pick :
    {A : Type 0} (b : Bool) (x : A) (rest : Option A) (a : A)
    → (if b then some x else rest) ≡ some a
    → ((b ≡ true) × (x ≡ a)) ⊎ (rest ≡ some a)
pick true x rest a e = inl (refl, cc e)
pick false x rest a e = inr e

option_of-some :
    {A : Type 0} (value_of : A → String) (options : List A) (value : String) (a : A)
    → option_of value_of options value ≡ some a
    → value ≡ value_of a
unfolding option_of
option_of-some value_of [] value a e = absurd (ground (arith, e))
option_of-some value_of (x ∷ rest) value a e = elim (pick (value == value_of x) x _ a e) [
  | inl (is, same) ↦ (eq_iff value (value_of x)).0 is ∙ ap value_of same
  | inr later ↦ option_of-some value_of rest value a later
]

-- What holds of each edit that a control makes: one rule for each sort of control.
module _ (P : Input → Edit → Type 0) where
  by_toggle :
      (v : Bool) (f : Bool → Edit)
      → ((w : Bool) → P (checked w) (f w))
      → (input : Input) (edit : Edit) → react (toggle v (λ w. some (f w))) input ≡ some edit
      → P input edit
  by_toggle v f h (checked w) edit e =
      let same : f w ≡ edit = cc e in subst (P (checked w)) same (h w)
  by_toggle v f h (picked w) edit e = absurd (ground (arith, e))
  by_toggle v f h (typed w) edit e = absurd (ground (arith, e))
  by_toggle v f h (slid w) edit e = absurd (ground (arith, e))
  by_toggle v f h (counted w) edit e = absurd (ground (arith, e))

  by_slider :
      (v : ℕ) (f : ℕ → Edit)
      → ((w : ℕ) → P (slid w) (f w))
      → (input : Input) (edit : Edit) → react (slider v (λ w. some (f w))) input ≡ some edit
      → P input edit
  by_slider v f h (checked w) edit e = absurd (ground (arith, e))
  by_slider v f h (picked w) edit e = absurd (ground (arith, e))
  by_slider v f h (typed w) edit e = absurd (ground (arith, e))
  by_slider v f h (slid w) edit e = let same : f w ≡ edit = cc e in subst (P (slid w)) same (h w)
  by_slider v f h (counted w) edit e = absurd (ground (arith, e))

  by_text :
      (v hint : String) (f : String → Edit)
      → ((w : String) → P (typed w) (f w))
      → (input : Input) (edit : Edit)
      → react (text_field v hint (λ w. some (f w))) input ≡ some edit
      → P input edit
  by_text v hint f h (checked w) edit e = absurd (ground (arith, e))
  by_text v hint f h (picked w) edit e = absurd (ground (arith, e))
  by_text v hint f h (typed w) edit e =
      let same : f w ≡ edit = cc e in subst (P (typed w)) same (h w)
  by_text v hint f h (slid w) edit e = absurd (ground (arith, e))
  by_text v hint f h (counted w) edit e = absurd (ground (arith, e))

  by_number :
      (v : Number) (min max : ℕ) (f : Number → Edit)
      → ((w : Number) → P (counted w) (f w))
      → (input : Input) (edit : Edit)
      → react (number_field v min max (λ w. some (f w))) input ≡ some edit
      → P input edit
  by_number v min max f h (checked w) edit e = absurd (ground (arith, e))
  by_number v min max f h (picked w) edit e = absurd (ground (arith, e))
  by_number v min max f h (typed w) edit e = absurd (ground (arith, e))
  by_number v min max f h (slid w) edit e = absurd (ground (arith, e))
  by_number v min max f h (counted w) edit e =
      let same : f w ≡ edit = cc e in subst (P (counted w)) same (h w)

  chosen :
      {A : Type 0} (value_of : A → String) (options : List A) (f : A → Edit) (w : String)
      (edit : Edit)
      → ((a : A) → P (picked (value_of a)) (f a))
      → Option.map f (option_of value_of options w) ≡ some edit
      → P (picked w) edit
  chosen {A} value_of options f w edit h e = go (option_of value_of options w) refl e
    where
      go :
          (o : Option A)
          → option_of value_of options w ≡ o
          → Option.map f o ≡ some edit
          → P (picked w) edit
      go none at e = absurd (ground (arith, e))
      go (some a) at e =
          let same : f a ≡ edit = cc e in
          subst (P (picked w)) same
            (subst (λ w. P (picked w) (f a)) (sym (option_of-some value_of options w a at)) (h a))

  by_select :
      {A : Type 0} (v : String) (labels : List (String × String)) (value_of : A → String)
      (options : List A) (f : A → Edit)
      → ((a : A) → P (picked (value_of a)) (f a))
      → (input : Input) (edit : Edit)
      → react (select v labels (λ w. Option.map f (option_of value_of options w))) input ≡ some edit
      → P input edit
  by_select v labels value_of options f h (checked w) edit e = absurd (ground (arith, e))
  by_select v labels value_of options f h (picked w) edit e = chosen value_of options f w edit h e
  by_select v labels value_of options f h (typed w) edit e = absurd (ground (arith, e))
  by_select v labels value_of options f h (slid w) edit e = absurd (ground (arith, e))
  by_select v labels value_of options f h (counted w) edit e = absurd (ground (arith, e))

  by_nothing :
      (v : Bool) (input : Input) (edit : Edit)
      → react (toggle v (λ w. none)) input ≡ some edit
      → P input edit
  by_nothing v (checked w) edit e = absurd (ground (arith, e))
  by_nothing v (picked w) edit e = absurd (ground (arith, e))
  by_nothing v (typed w) edit e = absurd (ground (arith, e))
  by_nothing v (slid w) edit e = absurd (ground (arith, e))
  by_nothing v (counted w) edit e = absurd (ground (arith, e))

-- the page shows the input at the control of that position, and all others show what they showed
abbrev Edits : Settings → ℕ → Input → Edit → Type 0
Edits s i input edit =
    map shown (controls (edited edit s)) ≡ set_at i (taken input) (map shown (controls s))

-- the edits that a control makes, wherever it stands, have the property of its position
abbrev AtEach : (ℕ → Input → Edit → Type 0) → List Control → Type 0
AtEach P [] = Unit
AtEach P (control ∷ rest) =
    ((input : Input) (edit : Edit) → react control input ≡ some edit → P 0 input edit)
    × AtEach (λ i. P (suc i)) rest

at_position :
    (P : ℕ → Input → Edit → Type 0) (controls : List Control) (i : ℕ) (input : Input) (edit : Edit)
    → AtEach P controls
    → react_at i input controls ≡ some edit
    → P i input edit
at_position P [] i input edit h e = absurd (ground (arith, e))
at_position P (control ∷ rest) zero input edit (h, hs) e = h input edit e
at_position P (control ∷ rest) (suc i) input edit (h, hs) e =
    at_position (λ i. P (suc i)) rest i input edit hs e

controls-Edits : (s : Settings) → AtEach (Edits s) (controls s)
unfolding edited with_threshold
controls-Edits s = (
  by_toggle (Edits s 0) s.enabled set_enabled (λ w. refl),
  (
    by_select (Edits s 1) s.default_action actions action_value all_actions set_default_action
        (λ a. refl),
    (
      by_toggle (Edits s 2) s.shorts_filter_enabled set_shorts_filter (λ w. refl),
      (
        by_slider (Edits s 3) s.hide_threshold set_hide_threshold (λ w. refl),
        (
          by_slider (Edits s 4) (threshold s "fully_ai") (set_category_threshold "fully_ai")
              (λ w. refl),
          (
            by_slider (Edits s 5) (threshold s "ai_voiceover")
                (set_category_threshold "ai_voiceover") (λ w. refl),
            (
              by_slider (Edits s 6) (threshold s "ai_visuals") (set_category_threshold "ai_visuals")
                  (λ w. refl),
              (
                by_slider (Edits s 7) (threshold s "ai_thumbnails")
                    (set_category_threshold "ai_thumbnails") (λ w. refl),
                (
                  by_slider (Edits s 8) (threshold s "ai_assisted")
                      (set_category_threshold "ai_assisted") (λ w. refl),
                  (
                    by_select (Edits s 9) s.badge_style styles badge_value all_styles
                        set_badge_style (λ a. refl),
                    (
                      by_toggle (Edits s 10) s.show_notifications set_notifications (λ w. refl),
                      (
                        by_nothing (Edits s 11) s.hash_prefix_mode,
                        (
                          by_text (Edits s 12) s.server_url default_server set_server_url
                              (λ w. refl),
                          (
                            by_number (Edits s 13) s.cache_ttl_minutes 5 1440 set_cache_ttl
                                (λ w. refl),
                            (
                              by_toggle (Edits s 14) s.debug_logging set_debug_logging (λ w. refl),
                              tt,
                            ),
                          ),
                        ),
                      ),
                    ),
                  ),
                ),
              ),
            ),
          ),
        ),
      ),
    ),
  ),
)

-- A change of any control of the settings page changes what this control shows, to the value that was
-- put in (the lifetime of the cache to that value within its bounds), and what no other control
-- shows. Positions count the controls from the top; the privacy toggle takes no change.
pub react_at-edited :
    (s : Settings) (i : ℕ) (input : Input) (edit : Edit)
    → react_at i input (controls s) ≡ some edit
    → map shown (controls (edited edit s)) ≡ set_at i (taken input) (map shown (controls s))
react_at-edited s i input edit e =
    at_position (Edits s) (controls s) i input edit (controls-Edits s) e
