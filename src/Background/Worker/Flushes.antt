-- ===== src/Background/Worker/Flushes.antt =====
-- A flush of realtube-extension/src/background/offline-queue.ts as steps of the worker.
use real_tube.Prelude.{ℕ, String, ◌≡◌, true, List, All}
use real_tube.Records.{PendingVote}
use real_tube.Browser.{Platform, World}
use real_tube.ApiClient
use real_tube.OfflineQueue
use real_tube.OfflineQueue.{flush_votes}
use real_tube.Background.Worker.{Happening, flush_begun, flush_went_on, flush_over, run}

-- a step of a flush
abbrev pub IsFlushStep : Happening → Type 0
IsFlushStep (flush_begun by_timer) = Unit
IsFlushStep (flush_went_on user_id now vote) = Unit
IsFlushStep (flush_over is_retried) = Unit
IsFlushStep _ = ⊥

module _ (p : Platform) (runtime_id : String) where
  module _ (user_id : String) (now : ℕ) where
    -- steps that leave the state of the loop, with the flag still up
    abbrev Steps : List PendingVote → ℕ → World → Type 0
    Steps vs sent w =
        (hs : List Happening) × All IsFlushStep hs
        × (run p runtime_id hs w ≡ (flush_votes p user_id now vs sent w).1)
        × ((flush_votes p user_id now vs sent w).1.is_flushing ≡ true)
