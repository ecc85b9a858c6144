-- ===== src/Content/VoteUi/Sound.antt =====
-- What always holds of the dropdown in realtube-extension/src/content/vote-ui.ts.
use real_tube.Prelude.{
  ℕ, zero, suc, String, ◌≡◌, refl, sym, Bool, true, false, not, ◌||◌, Option, none, some, List, [],
  ◌∷◌, is_some, All, arith, if-both, Bool-cases, inl, inr,
}
use mathlib.Core.Path.{subst}
use real_tube.Effects.{Result, ok, err}
use real_tube.Browser.{truthy}
use real_tube.Background.{MessageResponse, success, failure}
use real_tube.Content.VoteUi
use real_tube.Content.VoteUi.{VoteUi, Dropdown, menu, feedback, Category, category_id}

-- A menu marks the selected category; its vote button is disabled while there is none or `is_submitting`
-- is set, and has a spinner just while `is_submitting` is set.
abbrev pub Shows : Dropdown → Option String → Bool → Type 0
Shows (menu marked vote_disabled spinner) selected is_submitting =
    (marked ≡ selected)
    × (vote_disabled ≡ (not (is_some selected) || is_submitting))
    × (spinner ≡ is_submitting)
Shows (feedback is_success message) selected is_submitting = Unit

-- Without a dropdown nothing is selected, `is_submitting` is false and no listener is set up; with one
-- there are listeners and a container.
abbrev pub Fits :
    Option Dropdown
    → (container : Option Bool) → (selected : Option String) → (is_submitting listening : Bool)
    → Type 0
Fits none container selected is_submitting listening =
    (selected ≡ none) × (is_submitting ≡ false) × (listening ≡ false)
Fits (some dropdown) container selected is_submitting listening =
    (listening ≡ true) × (is_some container ≡ true) × Shows dropdown selected is_submitting

abbrev pub IsCategory : String → Type 0
IsCategory id = (category : Category) × (id ≡ category_id category)

abbrev pub IsCategoryOrNone : Option String → Type 0
IsCategoryOrNone none = Unit
IsCategoryOrNone (some id) = IsCategory id

pub record IsSound (s : VoteUi) : Type 0 where
  pub fits : Fits s.dropdown s.container s.selected s.is_submitting s.listening
  pub selected : IsCategoryOrNone s.selected
  pub sent : All (λ vote. IsCategory vote.1) s.sent

close-IsSound : (s : VoteUi) → IsSound s → IsSound (VoteUi.close_dropdown s)
unfolding VoteUi.close_dropdown
close-IsSound s h = record { fits = (refl, refl, refl); selected = tt; sent = h.sent }

open-IsSound : (s : VoteUi) → IsSound s → IsSound (VoteUi.open_dropdown s)
unfolding VoteUi.open_dropdown
open-IsSound s h =
    elim (Bool-cases (is_some s.dropdown || not (is_some s.container) || s.is_submitting)) [
      | inl stays ↦ rw stays h
      | inr opens ↦ rw opens (record {
        fits = (refl, ground arith, (refl, ground arith, ground arith));
        selected = tt;
        sent = h.sent;
      })
    ]

module _ (s : VoteUi) (h : IsSound s) where
  dropdown_at :
      (d : Option Dropdown)
      → s.dropdown ≡ d
      → Fits d s.container s.selected s.is_submitting s.listening
  dropdown_at d e = subst (λ d. Fits d s.container s.selected s.is_submitting s.listening) e h.fits

  select-IsSound :
      (d : Option Dropdown) (category : Category)
      → s.dropdown ≡ d
      → IsSound (VoteUi.select_in d (category_id category) s)
  unfolding VoteUi.select_in
  select-IsSound none category e = h
  select-IsSound (some (menu marked disabled spinner)) category e =
      if-both IsSound s.is_submitting s _ (λ _. h)
        λ idle.
          let (listens, there, (same, dis, spin)) = dropdown_at _ e in
          record {
            fits = (listens, there, (refl, sym idle, spin));
            selected = (category, refl);
            sent = h.sent;
          }
  select-IsSound (some (feedback is_success message)) category e =
      if-both IsSound s.is_submitting s _ (λ _. h)
        λ idle.
          let (listens, there, shown) = dropdown_at _ e in
          (record { fits = (listens, there, tt); selected = (category, refl); sent = h.sent })

  feedback-IsSound :
      (d : Option Dropdown) (is_success : Bool) (message : String)
      → s.dropdown ≡ d
      → IsSound (VoteUi.feedback_in d is_success message s)
  feedback-IsSound none is_success message e = h
  feedback-IsSound (some d) is_success message e =
      let (listens, there, shown) = dropdown_at _ e in
      record { fits = (listens, there, tt); selected = h.selected; sent = h.sent }

  shown-IsSound :
      (is_success : Bool) (message : String) → IsSound (VoteUi.show_feedback is_success message s)
  unfolding VoteUi.show_feedback
  shown-IsSound is_success message = feedback-IsSound s.dropdown is_success message refl

  response-IsSound : (response : Result MessageResponse) → IsSound (VoteUi.on_response response s)
  unfolding VoteUi.on_response
  response-IsSound (ok (success answer)) = shown-IsSound true _
  response-IsSound (ok (failure error)) = shown-IsSound false _
  response-IsSound (err message) = shown-IsSound false _

  inject-IsSound : (place : VoteUi.Place) → IsSound (VoteUi.inject_vote_button place s)
  unfolding VoteUi.inject_vote_button
  inject-IsSound place =
      elim (Bool-cases
        (VoteUi.is_in_document s.container || not (is_some (truthy (VoteUi.get_video_id place))))) [
          | inl stays ↦ rw stays h
          | inr fresh ↦ elim (Bool-cases (VoteUi.action_bar place)) [
            | inl bar ↦
                rw (fresh, bar)
                  (record {
                    fits = contained s.dropdown h.fits;
                    selected = h.selected;
                    sent = h.sent;
                  })
            | inr no_bar ↦
                rw (fresh, no_bar) (record { fits = h.fits; selected = h.selected; sent = h.sent })
          ]
        ]
    where
      contained :
          (d : Option Dropdown)
          → Fits d s.container s.selected s.is_submitting s.listening
          → Fits d (some true) s.selected s.is_submitting s.listening
      contained none f = f
      contained (some d) (listens, there, shown) = (listens, refl, shown)

  remove-IsSound : IsSound (VoteUi.remove_vote_button s)
  unfolding VoteUi.remove_vote_button VoteUi.close_dropdown
  remove-IsSound = record { fits = (refl, refl, refl); selected = tt; sent = h.sent }

  detach-IsSound : IsSound (record s { container = VoteUi.detach s.container })
  detach-IsSound = record {
    fits = dropped s.dropdown s.container h.fits;
    selected = h.selected;
    sent = h.sent;
  }
    where
      dropped :
          (d : Option Dropdown) (c : Option Bool)
          → Fits d c s.selected s.is_submitting s.listening
          → Fits d (VoteUi.detach c) s.selected s.is_submitting s.listening
      dropped none c f = f
      dropped (some d) none f = f
      dropped (some d) (some attached) (listens, there, shown) = (listens, refl, shown)

  truthy-IsCategory :
      (o : Option String) (id : String)
      → IsCategoryOrNone o
      → truthy o ≡ some id
      → (o ≡ some id) × IsCategory id
  truthy-IsCategory none id c e = absurd (ground (arith, e))
  truthy-IsCategory (some String.[]) id c e = absurd (ground (arith, e))
  truthy-IsCategory (some (String.◌∷◌ x xs)) id c e =
      let same : String.◌∷◌ x xs ≡ id = cc e in (e, subst IsCategory same c)

  submit-IsSound :
      (d : Option Dropdown) (selected video_id : Option String)
      → s.dropdown ≡ d
      → truthy s.selected ≡ selected
      → IsSound (VoteUi.submit_in d selected video_id s)
  unfolding VoteUi.submit_in
  submit-IsSound none selected video_id e at = h
  submit-IsSound (some d) none video_id e at = h
  submit-IsSound (some d) (some category) none e at =
      if-both IsSound s.is_submitting s _ (λ _. h) (λ idle. shown-IsSound false _)
  submit-IsSound (some (feedback is_success message)) (some category) (some id) e at =
      if-both IsSound s.is_submitting s _ (λ _. h)
        λ idle.
          let (listens, there, shown) = dropdown_at _ e in
          let (same, is_category) = truthy-IsCategory s.selected category h.selected at in
          (record {
            fits = (listens, there, tt);
            selected = h.selected;
            sent = (is_category, h.sent);
          })
  submit-IsSound (some (menu marked disabled spinner)) (some category) (some id) e at =
      if-both IsSound s.is_submitting s _ (λ _. h)
        λ idle.
          let (listens, there, (same_mark, dis, spin)) = dropdown_at _ e in
          let (same, is_category) = truthy-IsCategory s.selected category h.selected at in
          (record {
            fits = (
              listens,
              there,
              (same_mark, ground (arith, Bool-cases (is_some s.selected)), refl),
            );
            selected = h.selected;
            sent = (is_category, h.sent);
          })

  vote-IsSound : (place : VoteUi.Place) → IsSound (VoteUi.submit_vote place s)
  unfolding VoteUi.submit_vote
  vote-IsSound place = submit-IsSound s.dropdown _ _ refl refl

  category-IsSound :
      (category : Category) → IsSound (VoteUi.select_category (category_id category) s)
  unfolding VoteUi.select_category
  category-IsSound category = select-IsSound s.dropdown category refl

closing-IsSound : (n : ℕ) (s : VoteUi) → IsSound s → IsSound (VoteUi.close_next n s)
unfolding VoteUi.close_next
closing-IsSound zero s h = h
closing-IsSound (suc timers) s h =
    close-IsSound _ (record { fits = h.fits; selected = h.selected; sent = h.sent })

injecting-IsSound :
    (n : ℕ) (place : VoteUi.Place) (s : VoteUi) → IsSound s → IsSound (VoteUi.inject_next n place s)
unfolding VoteUi.inject_next
injecting-IsSound zero place s h = h
injecting-IsSound (suc timers) place s h =
    inject-IsSound _ (record { fits = h.fits; selected = h.selected; sent = h.sent }) place

handle-IsSound : (event : VoteUi.Event) (s : VoteUi) → IsSound s → IsSound (VoteUi.handle event s)
unfolding VoteUi.handle
handle-IsSound VoteUi.button_clicked s h =
    if-both IsSound (VoteUi.is_in_document s.container) _ s
      (λ _.
        if-both IsSound (is_some s.dropdown) _ _ (λ _. close-IsSound s h) (λ _. open-IsSound s h))
      (λ _. h)
handle-IsSound (VoteUi.category_clicked category) s h =
    if-both IsSound _ _ s (λ _. category-IsSound s h category) (λ _. h)
handle-IsSound (VoteUi.vote_clicked place) s h =
    if-both IsSound _ _ s (λ _. vote-IsSound s h place) (λ _. h)
handle-IsSound (VoteUi.mouse_pressed outside) s h =
    if-both IsSound _ _ s (λ _. close-IsSound s h) (λ _. h)
handle-IsSound (VoteUi.key_pressed key) s h =
    if-both IsSound _ _ s (λ _. close-IsSound s h) (λ _. h)
handle-IsSound (VoteUi.answered i response) s h =
    if-both IsSound (VoteUi.has_at i s.in_flight) _ s
      (λ _.
        response-IsSound (record s { in_flight = VoteUi.remove_at i s.in_flight })
          (record { fits = h.fits; selected = h.selected; sent = h.sent }) response)
      (λ _. h)
handle-IsSound VoteUi.close_due s h = closing-IsSound s.close_timers s h
handle-IsSound (VoteUi.inject_due place) s h = injecting-IsSound s.inject_timers place s h
handle-IsSound (VoteUi.injected place) s h = inject-IsSound s h place
handle-IsSound VoteUi.removed s h = remove-IsSound s h
handle-IsSound VoteUi.detached s h = detach-IsSound s h

-- Whatever happens to the page and in whatever order, from any sound state: a menu marks the
-- selected category, its vote button is disabled just while there is none or the variable
-- `is_submitting` is set, there are listeners for clicks and keys just while there is a dropdown,
-- without one nothing is selected and `is_submitting` is false, and every vote that was sent has one
-- of the five categories. The variable is false also while a vote is on its way whose dropdown has been
-- closed.
pub run-IsSound :
    (events : List VoteUi.Event) (s : VoteUi) → IsSound s → IsSound (VoteUi.run events s)
unfolding VoteUi.run
run-IsSound [] s h = h
run-IsSound (event ∷ events) s h = run-IsSound events _ (handle-IsSound event s h)

pub initial-IsSound : IsSound VoteUi.initial
initial-IsSound = record { fits = (refl, refl, refl); selected = tt; sent = tt }
