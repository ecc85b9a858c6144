-- ===== src/Content/Session/Observers.antt =====
-- When the observer of realtube-extension/src/content/content.ts runs.
use real_tube.Prelude.{
  ◌==◌, ◌≡◌, refl, sym, ap, Bool, true, false, ◌&&◌, Option, none, some, List, [], ◌∷◌,
  if◌then◌else◌, Bool-cases, inl, inr,
}
use real_tube.Content.DomUtils.{PageType}
use real_tube.Content.Session

-- the observer runs just while a script that listens is enabled
abbrev pub IsInStep : Session.Session → Type 0
IsInStep s = s.observer ≡ (s.listening && s.enabled)

-- what the observer depends on
record Kept (s t : Session.Session) : Type 0 where
  pub observer : t.observer ≡ s.observer
  pub enabled : t.enabled ≡ s.enabled
  pub listening : t.listening ≡ s.listening

Kept-if : (s t u : Session.Session) (b : Bool) → Kept s t → Kept s u → Kept s (if b then t else u)
Kept-if s t u true kt ku = kt
Kept-if s t u false kt ku = ku

Kept-IsInStep : (s t : Session.Session) → Kept s t → IsInStep s → IsInStep t
Kept-IsInStep s t k h = rw (k.observer, k.enabled, k.listening) h

same-Kept : (s : Session.Session) → Kept s s
same-Kept s = record { observer = refl; enabled = refl; listening = refl }

shorts-Kept :
    (change : Option (Option Bool)) (s : Session.Session)
    → Kept s (Session.on_shorts_changed change s)
shorts-Kept none s = same-Kept s
shorts-Kept (some value) s =
    let s₁ : Session.Session = record s { shorts_filter_enabled = Session.is_on value } in
    let k : Kept s s₁ = record { observer = refl; enabled = refl; listening = refl } in
    Kept-if s _ s₁ (s₁.enabled && Session.is_shorts s₁.page_type)
      (Kept-if s (Session.start_shorts_mode s₁) (Session.stop_shorts_mode s₁)
        s₁.shorts_filter_enabled (record { observer = refl; enabled = refl; listening = refl })
        (record { observer = refl; enabled = refl; listening = refl }))
      k

navigate-Kept :
    (page_type : PageType) (s : Session.Session) → Kept s (Session.on_navigate page_type s)
navigate-Kept page_type s =
    let s₁ : Session.Session =
      Session.call Session.remove_button (record s { page_type = page_type }) in
    let k₁ : Kept s s₁ = record { observer = refl; enabled = refl; listening = refl } in
    let k₂ =
      Kept-if s (Session.set_timeout Session.inject_later s₁) s₁ (Session.has_vote_button page_type)
        (record { observer = refl; enabled = refl; listening = refl }) k₁ in
    let s₂ = Session.set_timeout_if (Session.has_vote_button page_type) Session.inject_later s₁ in
    let k₃ =
      Kept-if s (Session.set_timeout Session.start_shorts_later s₂) (Session.stop_shorts_mode s₂)
        (Session.is_shorts page_type && s₂.shorts_filter_enabled)
        (record { observer = k₂.observer; enabled = k₂.enabled; listening = k₂.listening })
        (record { observer = k₂.observer; enabled = k₂.enabled; listening = k₂.listening }) in
    record { observer = k₃.observer; enabled = k₃.enabled; listening = k₃.listening }

fire-Kept :
    (timeout : Session.Timeout) (s t : Session.Session) → Kept s t → Kept s (Session.fire timeout t)
fire-Kept Session.scan_later s t k =
    Kept-if s (Session.call Session.scan_visible t) t t.enabled
      (record { observer = k.observer; enabled = k.enabled; listening = k.listening }) k
fire-Kept Session.inject_later s t k = record {
  observer = k.observer;
  enabled = k.enabled;
  listening = k.listening;
}
fire-Kept Session.start_shorts_later s t k = record {
  observer = k.observer;
  enabled = k.enabled;
  listening = k.listening;
}

timeout-Kept :
    (timeouts : List Session.Timeout) (s : Session.Session) → Kept s (Session.on_timeout timeouts s)
timeout-Kept [] s = same-Kept s
timeout-Kept (timeout ∷ timeouts) s =
    fire-Kept timeout s (record s { timeouts = timeouts })
      (record { observer = refl; enabled = refl; listening = refl })

enabled-IsInStep :
    (change : Option (Option Bool)) (s : Session.Session)
    → s.listening ≡ true
    → IsInStep s
    → IsInStep (Session.on_enabled_changed change s)
enabled-IsInStep none s l h = h
enabled-IsInStep (some value) s l h = elim (Bool-cases (Session.is_on value)) [
  | inl on ↦ rw on (
      Kept-IsInStep (record s { enabled = true; observer = true }) _
        (Kept-if (record s { enabled = true; observer = true }) _ _ _
          (record { observer = refl; enabled = refl; listening = refl })
          (record { observer = refl; enabled = refl; listening = refl }))
        (sym (ap (λ b. b && true) l)))
  | inr off ↦ rw off (sym (ap (λ b. b && false) l))
]

handle-IsInStep :
    (event : Session.Event) (s : Session.Session)
    → s.listening ≡ true
    → IsInStep s
    → IsInStep (Session.handle event s)
unfolding Session.handle
handle-IsInStep Session.mutated s l h =
    Kept-IsInStep s _
      (Kept-if s _ s s.enabled (record { observer = refl; enabled = refl; listening = refl })
        (same-Kept s))
      h
handle-IsInStep Session.debounced s l h =
    Kept-IsInStep s _
      (Kept-if s _ s s.debounce (record { observer = refl; enabled = refl; listening = refl })
        (same-Kept s))
      h
handle-IsInStep (Session.navigated page_type) s l h =
    Kept-IsInStep s _ (navigate-Kept page_type s) h
handle-IsInStep Session.timed_out s l h = Kept-IsInStep s _ (timeout-Kept s.timeouts s) h
handle-IsInStep (Session.settings_changed area enabled filter) s l h =
    elim (Bool-cases (area == "sync")) [
      | inl synced ↦ rw synced (
          Kept-IsInStep (Session.on_enabled_changed enabled s) _
            (shorts-Kept filter (Session.on_enabled_changed enabled s))
            (enabled-IsInStep enabled s l h))
      | inr other ↦ rw other h
    ]

heard :
    (t s : Session.Session) (b : Bool)
    → (b ≡ true → IsInStep t)
    → IsInStep s
    → IsInStep (if b then t else s)
heard t s true ht hs = ht refl
heard t s false ht hs = hs

run-keeps :
    (events : List Session.Event) (s : Session.Session)
    → IsInStep s
    → IsInStep (Session.run events s)
unfolding Session.run
run-keeps [] s h = h
run-keeps (event ∷ events) s h =
    run-keeps events (if s.listening then Session.handle event s else s)
      (heard (Session.handle event s) s s.listening (λ l. handle-IsInStep event s l h) h)

-- Whatever the settings at the start, and whatever happens afterwards in whatever order, the observer
-- of the page runs just while the script has its listeners and is enabled.
pub run-IsInStep :
    (enabled filter : Option Bool) (page_type : PageType) (events : List Session.Event)
    → IsInStep (Session.run events (Session.init enabled filter page_type))
unfolding Session.init
run-IsInStep enabled filter page_type events = elim (Bool-cases (Session.is_on enabled)) [
  | inl on ↦ rw on (run-keeps events _ refl)
  | inr off ↦ rw off (run-keeps events _ refl)
]
