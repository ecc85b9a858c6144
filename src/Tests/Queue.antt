-- ===== src/Tests/Queue.antt =====
-- The offline queue at concrete inputs.
use real_tube.Prelude.{◌+◌, ◌≤◌, ◌≡◌, refl, ◌⊎◌, inl, inr, true, false, none, some, [], ◌∷◌}
use real_tube.Effects.{ok}
use real_tube.ObjectStore
use real_tube.ObjectStore.Sorted.{IsSorted}
use real_tube.ApiClient.Votes.{Accepts}
use real_tube.Cache.{vote_key, find_vote}
use real_tube.OfflineQueue.{flush_pending_votes, FlushResult, finished, flush_retry_delay_ms}
use real_tube.OfflineQueue.Loop.{IsSettled}
use real_tube.OfflineQueue.Flush.{
  flush_keeps_votes, flush_pending_votes_lem, flush_empties, sender, started_at,
}
use real_tube.Records.{PendingVote}
use real_tube.OfflineQueue.Race.{
  Queue, Reach, here, later, starts, submits, is_accepted, queues, without, Stays, reach-Stays,
}
use real_tube.OfflineQueue.Race.{is_refused}
use real_tube.OfflineQueue.Race.Timer.{IsAwaited, reach-IsAwaited, vote_forgotten}
use real_tube.OfflineQueue.Retries.{IsCovered, flush-IsCovered}
use real_tube.Background.Worker
use real_tube.Tests.Fixtures.{service, refusing, waiting, early_vote, late_vote}

waiting-IsSorted : IsSorted vote_key waiting.db.pending_votes
waiting-IsSorted = ((refl, tt), (tt, tt))

early_vote_here : find_vote waiting.db "clip" ≡ some early_vote
unfolding ObjectStore.get
early_vote_here = refl

service-Accepts : Accepts service
service-Accepts t req = (_, _, refl, refl, refl)

flush_keeps_votes_example :
    (find_vote (flush_pending_votes service waiting).1.db "clip" ≡ some early_vote)
    ⊎ ((find_vote (flush_pending_votes service waiting).1.db "clip" ≡ none)
        × IsSettled service
            (sender service waiting)
            (started_at service waiting)
            early_vote
            (flush_pending_votes service waiting).1)
flush_keeps_votes_example =
    flush_keeps_votes service waiting early_vote refl waiting-IsSorted early_vote_here

flush_pending_votes_example :
    ((false ≡ true) × (flush_pending_votes service waiting ≡ (ok (finished 0), waiting)))
    ⊎ (((flush_pending_votes service waiting).1.is_flushing ≡ false)
        × ((r : FlushResult) × ((flush_pending_votes service waiting).0 ≡ ok r)
            × (r.sent + r.failed ≤ 2)
            × (((r.failed ≡ 0) × ((flush_pending_votes service waiting).1.flush_timer ≡ none))
                ⊎ ((r.failed ≡ 1)
                    × ((flush_pending_votes service waiting).1.flush_timer
                        ≡ some flush_retry_delay_ms)))))
flush_pending_votes_example = flush_pending_votes_lem service waiting

flush_empties_example : find_vote (flush_pending_votes service waiting).1.db "talk" ≡ none
flush_empties_example =
    flush_empties service waiting refl service-Accepts late_vote (inr (inl refl))

abbrev queue : Queue
queue = record {
  store = early_vote ∷ late_vote ∷ [];
  is_flushing = false;
  now = 0;
  rest = [];
  in_flight = [];
  queued = [];
  settled = [];
  enqueuing = 0;
  timer = true;
  missed = false;
}

-- another category for the video of `early_vote`
abbrev newer_vote : PendingVote
newer_vote = record { video_id = "clip"; category = "ai_assisted"; timestamp = 1_700_000_000_000 }

abbrev more_vote : PendingVote
more_vote = record { video_id = "more"; category = "fully_ai"; timestamp = 1_700_000_000_000 }

abbrev flushing : Queue
flushing = record queue {
  is_flushing = true;
  now = 1_700_000_000_000;
  rest = late_vote ∷ [];
  in_flight = early_vote ∷ [];
}

early_submitted : Reach queue flushing
early_submitted =
    later (later here (starts 1_700_000_000_000 true refl (inl refl)))
      (submits early_vote _ refl refl refl refl)

abbrev accepted : Queue
accepted = record flushing {
  store = without early_vote flushing.store;
  in_flight = [];
  settled = early_vote ∷ [];
}

late_vote_here : find_vote waiting.db "talk" ≡ some late_vote
unfolding ObjectStore.get
late_vote_here = refl

reach-Stays_example : Stays late_vote accepted.store accepted.settled
reach-Stays_example =
    reach-Stays late_vote queue accepted refl refl waiting-IsSorted late_vote_here
      (later early_submitted (is_accepted early_vote refl)) tt

-- A vote that is queued for the video while an older one is submitted is removed with it, though the
-- server has not seen it.
abbrev lost : Queue
lost = record flushing {
  store = without early_vote (ObjectStore.put vote_key newer_vote flushing.store);
  in_flight = [];
  queued = newer_vote ∷ [];
  enqueuing = 1;
  settled = early_vote ∷ [];
}

newer_vote_lost :
    Reach queue lost
    × (ObjectStore.get vote_key "clip" lost.store ≡ none)
    × (lost.settled ≡ early_vote ∷ [])
unfolding ObjectStore.get ObjectStore.put ObjectStore.delete
newer_vote_lost =
    (later (later early_submitted (queues newer_vote)) (is_accepted early_vote refl), refl, refl)

abbrev last_flight : Queue
last_flight = record flushing { rest = [] }

vote_forgotten_example :
    (t : Queue) × Reach last_flight t
    × (ObjectStore.get vote_key "more" t.store ≡ some more_vote)
    × (t.is_flushing ≡ false)
    × (t.timer ≡ false)
    × (t.enqueuing ≡ 0)
vote_forgotten_example = vote_forgotten last_flight more_vote early_vote refl refl refl refl refl

-- a flush by the timer whose first vote is refused
abbrev refused : Queue
refused = record flushing { is_flushing = false; rest = []; in_flight = [] }

reach-IsAwaited_example : (ObjectStore.get vote_key "talk" refused.store ≡ none) ⊎ IsAwaited refused
reach-IsAwaited_example =
    reach-IsAwaited "talk" queue refused refl (later early_submitted (is_refused early_vote refl))
      refl

flush-IsCovered_example : IsCovered late_vote (flush_pending_votes (refusing 500) waiting).1
flush-IsCovered_example = flush-IsCovered (refusing 500) waiting late_vote refl (inr (inl refl))
