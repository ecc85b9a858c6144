-- ===== src/Background/Worker.antt =====
-- The worker of realtube-extension/src/background as a whole: what wakes it, and what it does then.
--
-- The browser stops the worker when it has nothing to do and loads it again later. What its modules
-- keep in variables is gone then; IndexedDB and the storage of the extension stay.
--
-- A flush may be a step of its own, or go on in steps with others in between: its start, a round of its
-- loop for one vote, and its end. The steps do not fix which votes the rounds are for, nor how many there
-- are, so they cover every flush that the code makes, and more.
pub mod Runs
pub mod Flushes
use real_tube.Prelude.{
  ℕ, String, Bool, true, false, Option, none, some, is_some, List, [], ◌∷◌, if◌then◌else◌, if-both,
}
use real_tube.Effects.{pure, gets, ◌>>=◌, ◌>>◌}
use real_tube.Effects.Keeps.{Keeps, Keeps-bind, Keeps-if, Keeps-pure, Keeps-gets, Keeps-catch}
use real_tube.Browser.{Platform, World}
use real_tube.ApiClient
use real_tube.ApiClient.{on_storage_changed}
use real_tube.Cache
use real_tube.Sync
use real_tube.OfflineQueue
use real_tube.OfflineQueue.{set_flushing, flush_retry_delay_ms}
use real_tube.Records.{PendingVote}
use real_tube.Identity
use real_tube.Background.{Sender, Message, on_message, start}
use real_tube.Invariant.{IsClosed}
use real_tube.Sync.Keeps.{perform_delta_sync-Keeps, perform_full_sync-Keeps}
use real_tube.OfflineQueue.Keeps.{flush_pending_votes-Keeps, schedule_flush-Keeps}
use real_tube.Background.Keeps.{on_message-kept, ensure_public_user_id-Keeps}

pub data Happening : Type 0 where
  message_came : Sender → Message → Happening
  flush_timer_fired startup_timer_fired interval_ticked came_online : Happening
  -- a write of `serverUrl` to the storage
  server_url_stored : Option String → Happening
  loaded : Happening
  -- a flush that the timer, a message or the event `online` starts, up to its loop
  flush_begun : (by_timer : Bool) → Happening
  -- one round of the loop of a flush
  flush_went_on : (user_id : String) (now : ℕ) (vote : PendingVote) → Happening
  flush_over : (is_retried : Bool) → Happening

-- the variables of the modules as they are at first
abbrev pub fresh : World → World
fresh w = record w {
  cached_base_url = none;
  cached_public_user_id = none;
  flush_timer = none;
  is_flushing = false;
  startup_sync_timer = none;
  sync_timer = none;
}

module _ (p : Platform) (runtime_id : String) where
  abbrev on_startup_timer : World → World
  on_startup_timer w = (Sync.auto_sync p (record w { startup_sync_timer = none })).1

  -- The timer is gone once it has fired.
  abbrev spent : Bool → World → World
  spent by_timer w = if by_timer then record w { flush_timer = none } else w

  -- `flushPendingVotes` up to its loop
  abbrev begin_with : List PendingVote → World → World
  begin_with [] w = w
  begin_with (vote ∷ votes) w = (Identity.get_public_user_id p (set_flushing true w)).1

  abbrev begin_unless : Bool → World → World
  begin_unless true w = w
  begin_unless false w = begin_with w.db.pending_votes w

  -- the loop for one vote
  abbrev go_on : String → ℕ → PendingVote → World → World
  go_on user_id now vote w = (OfflineQueue.flush_votes p user_id now (vote ∷ []) 0 w).1

  abbrev finish : Bool → World → World
  finish is_retried w =
      set_flushing false
        (if is_retried then record w { flush_timer = some flush_retry_delay_ms } else w)

  -- A timer fires where it is set, and a flush goes on where it has begun.
  pub step : Happening → World → World
  step (message_came sender message) w = (on_message p runtime_id sender message w).1
  step flush_timer_fired w =
      if is_some w.flush_timer then (OfflineQueue.on_flush_timer p w).1 else w
  step startup_timer_fired w = if is_some w.startup_sync_timer then on_startup_timer w else w
  step interval_ticked w = if is_some w.sync_timer then (Sync.auto_sync p w).1 else w
  step came_online w = (OfflineQueue.on_online p w).1
  step (server_url_stored url) w = on_storage_changed "sync" true (record w { server_url = url })
  step loaded w = (start p (fresh w)).1
  step (flush_begun by_timer) w = begin_unless w.is_flushing (spent by_timer w)
  step (flush_went_on user_id now vote) w = if w.is_flushing then go_on user_id now vote w else w
  step (flush_over is_retried) w = if w.is_flushing then finish is_retried w else w

  pub run : List Happening → World → World
  run [] w = w
  run (h ∷ hs) w = run hs (step h w)
