-- ===== src/Options/Ttl.antt =====
-- The lifetime of the cache as realtube-extension/src/options/options.tsx takes it from its input.
use real_tube.Prelude.{
  ℕ, zero, suc, ◌*◌, ◌≤◌, if-both, if◌then◌else◌, Option, none, some, List, [], ◌∷◌, leb, arith,
}
use real_tube.Records.{one}
use real_tube.Effects.{ok, err}
use real_tube.Background.{success, failure}
use real_tube.Options
use real_tube.Options.{
  OptionsPage, Number, nan, pos, negsuc, clamp_ttl, Settings, Items, load_settings, stored, Edit,
  edited,
}

-- five minutes to one day
abbrev pub IsLifetime : Number → Type 0
IsLifetime nan = ⊥
IsLifetime (pos n) = (5 * one ≤ n) × (n ≤ 1440 * one)
IsLifetime (negsuc n) = ⊥

at_least : (n : ℕ) → n ≤ 1440 * one → IsLifetime (Options.max_with (5 * one) (pos n))
unfolding Options.max_with
at_least n le =
    if-both (λ m. (5 * one ≤ m) × (m ≤ 1440 * one)) (leb n (5 * one)) _ n
      (λ _. (omega arith, omega arith)) (λ e. (ground (arith, e), le))

at_most : (n : ℕ) → (if leb (1440 * one) n then 1440 * one else n) ≤ 1440 * one
at_most n =
    if-both (λ m. m ≤ 1440 * one) (leb (1440 * one) n) _ n (λ _. omega arith)
      (λ e. ground (arith, e))

clamped : (n : ℕ) → IsLifetime (Options.max_with (5 * one) (Options.min_with (1440 * one) (pos n)))
unfolding Options.min_with
clamped n = at_least _ (at_most n)

below : (n : ℕ) → IsLifetime (Options.max_with (5 * one) (Options.min_with (1440 * one) (negsuc n)))
unfolding Options.max_with Options.min_with
below n = (omega arith, omega arith)

clamp_ttl-IsLifetime : (typed : Number) → IsLifetime (clamp_ttl typed)
unfolding clamp_ttl Options.or_thirty
clamp_ttl-IsLifetime nan = clamped _
clamp_ttl-IsLifetime (pos zero) = clamped _
clamp_ttl-IsLifetime (pos (suc n)) = clamped (suc n)
clamp_ttl-IsLifetime (negsuc n) = below n

abbrev pub IsLifetimeOrUnset : Option Number → Type 0
IsLifetimeOrUnset none = Unit
IsLifetimeOrUnset (some n) = IsLifetime n

abbrev IsLifetimePending : Option Settings → Type 0
IsLifetimePending none = Unit
IsLifetimePending (some next) = IsLifetime next.cache_ttl_minutes

pub record IsBounded (s : OptionsPage) : Type 0 where
  pub shown : IsLifetime s.settings.cache_ttl_minutes
  pub pending : IsLifetimePending s.save_timer
  pub stored : IsLifetimeOrUnset s.storage.cache_ttl_minutes

loaded-IsLifetime :
    (items : Items)
    → IsLifetimeOrUnset items.cache_ttl_minutes
    → IsLifetime (load_settings items).cache_ttl_minutes
unfolding load_settings
loaded-IsLifetime items h = go items.cache_ttl_minutes h
  where
    go :
        (o : Option Number)
        → IsLifetimeOrUnset o
        → IsLifetime (Options.if_defined o (pos (30 * one)))
    go none h = (omega arith, omega arith)
    go (some n) h = h

edited-IsLifetime :
    (edit : Edit) (s : Settings)
    → IsLifetime s.cache_ttl_minutes
    → IsLifetime (edited edit s).cache_ttl_minutes
unfolding edited
edited-IsLifetime (Options.set_cache_ttl typed) s h = clamp_ttl-IsLifetime typed
edited-IsLifetime (Options.set_enabled v) s h = h
edited-IsLifetime (Options.set_shorts_filter v) s h = h
edited-IsLifetime (Options.set_notifications v) s h = h
edited-IsLifetime (Options.set_debug_logging v) s h = h
edited-IsLifetime (Options.set_default_action action) s h = h
edited-IsLifetime (Options.set_badge_style style) s h = h
edited-IsLifetime (Options.set_hide_threshold value) s h = h
edited-IsLifetime (Options.set_category_threshold id value) s h = h
edited-IsLifetime (Options.set_server_url url) s h = h

write-IsBounded :
    (timer : Option Settings) (s : OptionsPage)
    → IsLifetimePending timer
    → IsBounded s
    → IsBounded (Options.write timer s)
unfolding Options.write stored
write-IsBounded none s p h = h
write-IsBounded (some next) s p h = record { shown = h.shown; pending = tt; stored = p }

handle-IsBounded :
    (event : Options.Event) (s : OptionsPage) → IsBounded s → IsBounded (Options.handle event s)
unfolding Options.handle Options.save
handle-IsBounded Options.settings_loaded s h =
    if-both IsBounded s.loading _ s
      (λ _. record {
        shown = loaded-IsLifetime s.storage h.stored;
        pending = h.pending;
        stored = h.stored;
      })
      (λ _. h)
handle-IsBounded (Options.user_id_answered (ok (success answer))) s h = record {
  shown = h.shown;
  pending = h.pending;
  stored = h.stored;
}
handle-IsBounded (Options.user_id_answered (ok (failure error))) s h = h
handle-IsBounded (Options.user_id_answered (err message)) s h = h
handle-IsBounded (Options.user_info_answered (ok (success answer))) s h = record {
  shown = h.shown;
  pending = h.pending;
  stored = h.stored;
}
handle-IsBounded (Options.user_info_answered (ok (failure error))) s h = h
handle-IsBounded (Options.user_info_answered (err message)) s h = h
handle-IsBounded (Options.edit_made edit) s h =
    if-both IsBounded s.loading s _ (λ _. h)
      λ _.
        let ttl = edited-IsLifetime edit s.settings h.shown in
        record { shown = ttl; pending = ttl; stored = h.stored }
handle-IsBounded Options.save_due s h = write-IsBounded s.save_timer s h.pending h
handle-IsBounded Options.toast_due s h =
    if-both IsBounded s.toast_timer _ s
      (λ _. record { shown = h.shown; pending = h.pending; stored = h.stored }) (λ _. h)

-- Whatever the user types as the lifetime of the cache (nothing, a negative number, any number) and
-- in whatever order the events come, the lifetime that is shown, the one that is about to be written
-- and the one that is stored stay between 5 and 1440 minutes, if they are so at first.
pub run-IsBounded :
    (events : List Options.Event) (s : OptionsPage) → IsBounded s → IsBounded (Options.run events s)
unfolding Options.run
run-IsBounded [] s h = h
run-IsBounded (event ∷ events) s h = run-IsBounded events _ (handle-IsBounded event s h)
