-- ===== src/Popup/Urls.antt =====
-- The video id that the popup takes from the URL of a tab, beside the ids that the content scripts of
-- realtube-extension/src/content/{dom-utils,vote-ui}.ts take from the same page.
use real_tube.Prelude.{String, Option, none, some}
use real_tube.Browser.{truthy}
use real_tube.Content.VoteUi
use real_tube.Content.VoteUi.{Place}

abbrev of_vote_ui : (v sid : Option String) → Option String
of_vote_ui v sid = elim (truthy v) [ none ↦ sid | some id ↦ some id ]
