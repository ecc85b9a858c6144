-- ===== src/Background/Worker/Runs.antt =====
-- What every run of the worker keeps.
use real_tube.Prelude.{
  ℕ, String, Bool, true, false, Option, none, some, is_some, List, [], ◌∷◌, if-both,
}
use real_tube.Records.{PendingVote}
use real_tube.Effects.{pure, gets, modify, ◌>>=◌}
use real_tube.Effects.Keeps.{Keeps, Keeps-bind, Keeps-if, Keeps-pure, Keeps-gets, Keeps-catch}
use real_tube.Browser.{Platform, World, M, truthy}
use real_tube.ApiClient.{on_storage_changed}
use real_tube.Cache
use real_tube.Sync
use real_tube.OfflineQueue
use real_tube.Background
use real_tube.Background.{start}
use real_tube.Background.Worker.{
  Happening, message_came, flush_timer_fired, startup_timer_fired, interval_ticked, came_online,
  server_url_stored, loaded, flush_begun, flush_went_on, flush_over, fresh, spent, begin_with,
  begin_unless, finish, step, run,
}
use real_tube.Background.Secure.{IsSecure-IsClosed}
use real_tube.ApiClient.BaseUrl.{IsSecure}
use real_tube.Invariant.{IsClosed, IsServed, get_public_user_id-Keeps}
use real_tube.Sync.Keeps.{perform_delta_sync-Keeps, perform_full_sync-Keeps}
use real_tube.OfflineQueue.{flush_retry_delay_ms}
use real_tube.OfflineQueue.Keeps.{
  ids, set_flushing-kept, flush_votes-Keeps, schedule_flush-Keeps, IsClosed-IsServed,
}
use real_tube.Background.Keeps.{on_message-kept, ensure_public_user_id-Keeps}

-- `P` does not depend on the timers of the sync, and it stands the loss of the cached base URL.
record Lasts (P : World → Type 0) : Type 0 where
  pub timers :
      (w : World) (startup interval : Option ℕ)
      → P w
      → P (record w { startup_sync_timer = startup; sync_timer = interval })
  pub server_url :
      (w : World) (stored : Option String)
      → P w
      → P (record w { server_url = stored; cached_base_url = none })

module _ (p : Platform) {P : World → Type 0} (served : IsServed p P) where
  discarded-Keeps : {A : Type 0} (m : M A) → Keeps P m → Keeps P (m >>= λ a. pure tt)
  discarded-Keeps m kept = Keeps-bind m _ kept λ a. Keeps-pure tt

  pub auto_sync-Keeps : Keeps P (Sync.auto_sync p)
  unfolding Sync.auto_sync Cache.get_meta
  auto_sync-Keeps =
      Keeps-catch _ _
        (Keeps-bind (Cache.get_meta Sync.meta_last_full_sync) _ (Keeps-gets _) λ last_full.
          Keeps-bind (gets (λ w. p.now w.trace)) _ (Keeps-gets _) λ now.
            Keeps-if (Sync.needs_full_sync p (truthy last_full) now) _ _
              (discarded-Keeps (Sync.perform_full_sync p) (perform_full_sync-Keeps p served))
              (discarded-Keeps (Sync.perform_delta_sync p) (perform_delta_sync-Keeps p served)))
        λ message. Keeps-pure tt

  pub flushed-Keeps : Keeps P (OfflineQueue.flush_pending_votes p >>= λ result. pure tt)
  flushed-Keeps = discarded-Keeps (OfflineQueue.flush_pending_votes p) served.flush_pending_votes

module _ (p : Platform) (runtime_id : String) {P : World → Type 0} (closed : IsClosed p P)
    (lasts : Lasts P) where
  served : IsServed p P
  served = IsClosed-IsServed p closed

  on_flush_timer-Keeps : Keeps P (OfflineQueue.on_flush_timer p)
  unfolding OfflineQueue.on_flush_timer
  on_flush_timer-Keeps =
      Keeps-bind (modify (λ w. record w { flush_timer = none })) _
        (record {
          at = λ w h. closed.variables w w.local_id w.cached_public_user_id none w.is_flushing h;
        })
        λ _. Keeps-bind (gets (λ w. p.online w.trace)) _ (Keeps-gets _) λ is_online.
          Keeps-if is_online _ _ (flushed-Keeps p served)
            (schedule_flush-Keeps p closed OfflineQueue.flush_retry_delay_ms)

  schedule-kept : (w : World) → P w → P (Sync.start_sync_schedule w)
  unfolding Sync.start_sync_schedule
  schedule-kept w h = scheduled w.sync_timer
    where
      scheduled :
          (timer : Option ℕ)
          → P (elim timer as (λ (_ : Option ℕ). World) [
            | some interval ↦ w
            | none ↦ record w {
              startup_sync_timer = some 5000;
              sync_timer = some Sync.delta_sync_interval_ms;
            }
          ])
      scheduled (some interval) = h
      scheduled none = lasts.timers w (some 5000) (some Sync.delta_sync_interval_ms) h

  start-Keeps : Keeps P (start p)
  unfolding start OfflineQueue.start_offline_queue_listener
  start-Keeps =
      Keeps-bind (Background.ensure_public_user_id p) _ (ensure_public_user_id-Keeps p served)
        λ user.
          Keeps-bind (modify Sync.start_sync_schedule) _ (record { at = schedule-kept })
            λ _. Keeps-bind (gets (λ w. p.online w.trace)) _ (Keeps-gets _) λ is_online.
              Keeps-if is_online _ _ (schedule_flush-Keeps p closed 5_000) (Keeps-pure tt)

  fresh-kept : (w : World) → P w → P (fresh w)
  fresh-kept w h =
      lasts.timers _ none none
        (lasts.server_url _ w.server_url (closed.variables w w.local_id none none false h))

  spent-kept : (by_timer : Bool) (w : World) → P w → P (spent p runtime_id by_timer w)
  spent-kept true w h = closed.variables w w.local_id w.cached_public_user_id none w.is_flushing h
  spent-kept false w h = h

  begin_with-kept :
      (pending : List PendingVote) (w : World) → P w → P (begin_with p runtime_id pending w)
  begin_with-kept [] w h = h
  begin_with-kept (vote ∷ votes) w h =
      (get_public_user_id-Keeps p (ids p closed)).at _ (set_flushing-kept p closed true w h)

  begin-kept : (busy : Bool) (w : World) → P w → P (begin_unless p runtime_id busy w)
  begin-kept true w h = h
  begin-kept false w h = begin_with-kept w.db.pending_votes w h

  finish-kept : (is_retried : Bool) (w : World) → P w → P (finish p runtime_id is_retried w)
  finish-kept true w h =
      closed.variables w w.local_id w.cached_public_user_id (some flush_retry_delay_ms) false h
  finish-kept false w h = set_flushing-kept p closed false w h

  step-kept : (happening : Happening) (w : World) → P w → P (step p runtime_id happening w)
  unfolding step on_storage_changed OfflineQueue.on_online
  step-kept (message_came sender message) w h =
      on_message-kept p served runtime_id sender message w h
  step-kept flush_timer_fired w h =
      if-both P (is_some w.flush_timer) _ w (λ _. on_flush_timer-Keeps.at w h) (λ _. h)
  step-kept startup_timer_fired w h =
      if-both P (is_some w.startup_sync_timer) _ w
        (λ _. (auto_sync-Keeps p served).at _ (lasts.timers w none w.sync_timer h)) (λ _. h)
  step-kept interval_ticked w h =
      if-both P (is_some w.sync_timer) _ w (λ _. (auto_sync-Keeps p served).at w h) (λ _. h)
  step-kept came_online w h = (flushed-Keeps p served).at w h
  step-kept (server_url_stored url) w h = lasts.server_url w url h
  step-kept loaded w h = start-Keeps.at (fresh w) (fresh-kept w h)
  step-kept (flush_begun by_timer) w h = begin-kept w.is_flushing _ (spent-kept by_timer w h)
  step-kept (flush_went_on user_id now vote) w h =
      if-both P w.is_flushing _ w
        (λ _. (flush_votes-Keeps p closed user_id now (vote ∷ []) 0).at w h) (λ _. h)
  step-kept (flush_over is_retried) w h =
      if-both P w.is_flushing _ w (λ _. finish-kept is_retried w h) (λ _. h)

  run-kept : (happenings : List Happening) (w : World) → P w → P (run p runtime_id happenings w)
  unfolding run
  run-kept [] w h = h
  run-kept (happening ∷ rest) w h = run-kept rest _ (step-kept happening w h)

IsSecure-Lasts : Lasts IsSecure
IsSecure-Lasts = record {
  timers = λ w startup interval h. record { cached = h.cached; requests = h.requests };
  server_url = λ w stored h. record { cached = tt; requests = h.requests };
}

-- Where the cached base URL, if there is one, is accepted (it begins with `https://` or
-- `http://localhost`) and every request so far went to an accepted URL, this still holds after any run
-- of the worker, also where other steps come between the rounds of a flush, and whatever the server's
-- URL in the settings is changed to on the way.
pub run-IsSecure :
    (p : Platform) (runtime_id : String) (happenings : List Happening) (w : World)
    → IsSecure w
    → IsSecure (run p runtime_id happenings w)
run-IsSecure p runtime_id = run-kept p runtime_id (IsSecure-IsClosed p) IsSecure-Lasts
