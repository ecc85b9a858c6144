-- ===== src/Tests/Views.antt =====
-- The page of the settings at concrete inputs.
use real_tube.Prelude.{◌≡◌, refl, map}
use real_tube.Options.{default_settings, edited, set_hide_threshold}
use real_tube.Options.View.Controls.{slid, shown, taken, controls, set_at, react_at-edited}

-- the fourth control is the slider of the threshold
react_at-edited_example :
    map shown (controls (edited (set_hide_threshold 70) default_settings))
    ≡ set_at 3 (taken (slid 70)) (map shown (controls default_settings))
react_at-edited_example = react_at-edited default_settings 3 (slid 70) (set_hide_threshold 70) refl
