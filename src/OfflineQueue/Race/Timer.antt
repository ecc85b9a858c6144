-- ===== src/OfflineQueue/Race/Timer.antt =====
-- Whether a flush of realtube-extension/src/background/offline-queue.ts is still to come for each vote
-- in the queue, when votes are queued and timers fire while another flush waits for the server.
use real_tube.Prelude.{
  suc, String, ◌==◌, eq_iff, ◌<◌, ◌≡◌, refl, ap, ◌∙◌, ◌⊎◌, inl, inr, true, false, none, some, List,
  [], ◌∷◌, arith, Bool-cases, Option-cases,
}
use mathlib.Core.Path.{subst}
use real_tube.Records.{PendingVote}
use real_tube.ObjectStore.{get}
use real_tube.ObjectStore.Laws.{get-put, get-delete, key_of_get}
use real_tube.Cache.{vote_key}
use real_tube.OfflineQueue.Loop.{In}
use real_tube.OfflineQueue.Retries.{In-get}
use real_tube.OfflineQueue.Race.{
  Queue, without, Turn, queues, schedules, starts, misses, drops, submits, is_accepted, is_refused,
  ends, Reach, here, later,
}

-- one of the votes is for the video
abbrev Has : String → List PendingVote → Type 0
Has id votes = (v : PendingVote) × In v votes × (v.video_id ≡ id)

-- The timer is set or is about to be, or it has fired during the latest flush.
abbrev pub IsAwaited : Queue → Type 0
IsAwaited s = (s.timer ≡ true) ⊎ ((0 < s.enqueuing) ⊎ (s.missed ≡ true))

-- there is no vote for the video, the running flush has still to come to it, or a timer is set
abbrev IsCovered : String → Queue → Type 0
IsCovered id s =
    (get vote_key id s.store ≡ none)
    ⊎ (((s.is_flushing ≡ true) × (Has id s.rest ⊎ Has id s.in_flight)) ⊎ IsAwaited s)

-- what a turn does that takes a vote out of the store and off the list of the loop
gone_without :
    (id : String) (u : PendingVote) (s : Queue)
    → u.video_id ≡ id
    → get vote_key id (without u s.store) ≡ none
gone_without id u s same =
    get-delete vote_key id u.video_id s.store ∙ rw ((eq_iff u.video_id id).1 same) refl

stays_gone :
    (id : String) (u : PendingVote) (s : Queue)
    → get vote_key id s.store ≡ none
    → get vote_key id (without u s.store) ≡ none
stays_gone id u s gone =
    get-delete vote_key id u.video_id s.store
    ∙ elim (Bool-cases (u.video_id == id)) [ inl same ↦ rw same refl | inr off ↦ rw off gone ]

Has-first :
    (id : String) (u : PendingVote) (votes us : List PendingVote)
    → votes ≡ u ∷ us
    → Has id votes
    → (u.video_id ≡ id) ⊎ Has id us
Has-first id u votes us e (v, i, key) = split (subst (In v) e i)
  where
    split : In v (u ∷ us) → (u.video_id ≡ id) ⊎ Has id us
    split (inl same) = inl (subst (λ x. x.video_id ≡ id) same key)
    split (inr i) = inr (v, i, key)

Has-none : (id : String) (votes : List PendingVote) → votes ≡ [] → Has id votes → ⊥
Has-none id votes e (v, i, key) = subst (In v) e i

turn-IsCovered : (id : String) (s t : Queue) → Turn s t → IsCovered id s → IsCovered id t
turn-IsCovered id s _ (queues u) h = inr (inr (inr (inl (omega arith))))
turn-IsCovered id s _ (schedules others wait) h = inr (inr (inl refl))
turn-IsCovered id s _ (starts now timer idle by) h = elim (Option-cases (get vote_key id s.store)) [
  | inl gone ↦ inl gone
  | inr (v, found) ↦
      inr (inl (refl, inl (v, In-get s.store id v found, key_of_get vote_key id s.store v found)))
]
turn-IsCovered id s _ (misses busy set) h = inr (inr (inr (inr refl)))
turn-IsCovered id s _ (drops u us busy free at old) (inl gone) = inl (stays_gone id u s gone)
turn-IsCovered id s _ (drops u us busy free at old) (inr (inr awaited)) = inr (inr awaited)
turn-IsCovered id s _ (drops u us busy free at old) (inr (inl (b, inr flying))) =
    absurd (Has-none id s.in_flight free flying)
turn-IsCovered id s _ (drops u us busy free at old) (inr (inl (b, inl rest))) =
    elim (Has-first id u s.rest us at rest) [
      | inl same ↦ inl (gone_without id u s same)
      | inr after ↦ inr (inl (b, inl after))
    ]
turn-IsCovered id s _ (submits u us busy free at fresh) (inl gone) = inl gone
turn-IsCovered id s _ (submits u us busy free at fresh) (inr (inr awaited)) = inr (inr awaited)
turn-IsCovered id s _ (submits u us busy free at fresh) (inr (inl (b, inr flying))) =
    absurd (Has-none id s.in_flight free flying)
turn-IsCovered id s _ (submits u us busy free at fresh) (inr (inl (b, inl rest))) =
    elim (Has-first id u s.rest us at rest) [
      | inl same ↦ inr (inl (b, inr (u, inl refl, same)))
      | inr after ↦ inr (inl (b, inl after))
    ]
turn-IsCovered id s _ (is_accepted u at) (inl gone) = inl (stays_gone id u s gone)
turn-IsCovered id s _ (is_accepted u at) (inr (inr awaited)) = inr (inr awaited)
turn-IsCovered id s _ (is_accepted u at) (inr (inl (b, inl rest))) = inr (inl (b, inl rest))
turn-IsCovered id s _ (is_accepted u at) (inr (inl (b, inr flying))) =
    elim (Has-first id u s.in_flight [] at flying) [
      | inl same ↦ inl (gone_without id u s same)
      | inr after ↦ absurd (Has-none id [] refl after)
    ]
turn-IsCovered id s _ (is_refused u at) h = inr (inr (inl refl))
turn-IsCovered id s _ (ends busy free at) (inl gone) = inl gone
turn-IsCovered id s _ (ends busy free at) (inr (inr awaited)) = inr (inr awaited)
turn-IsCovered id s _ (ends busy free at) (inr (inl (b, inl rest))) =
    absurd (Has-none id s.rest at rest)
turn-IsCovered id s _ (ends busy free at) (inr (inl (b, inr flying))) =
    absurd (Has-none id s.in_flight free flying)

reach-IsCovered : (id : String) (s t : Queue) → Reach s t → IsCovered id s → IsCovered id t
reach-IsCovered id s _ here h = h
reach-IsCovered id s u (later {t} reach turn) h =
    turn-IsCovered id t u turn (reach-IsCovered id s t reach h)

-- A vote in the queue waits for a flush, whatever votes are queued, timers fire and flushes start, go on
-- and end in between, from a state with the timer set: while no flush is running there is no vote for the
-- video in the queue, or the timer of a flush is set, or a vote that was just stored is about to set
-- it, or the timer has fired during the latest flush, where it was spent for nothing.
pub reach-IsAwaited :
    (id : String) (s t : Queue)
    → s.timer ≡ true
    → Reach s t
    → t.is_flushing ≡ false
    → (get vote_key id t.store ≡ none) ⊎ IsAwaited t
reach-IsAwaited id s t set reach idle = elim (reach-IsCovered id s t reach (inr (inr (inl set)))) [
  | inl gone ↦ inl gone
  | inr (inl (busy, listed)) ↦ absurd (ground (arith, busy, idle))
  | inr (inr awaited) ↦ inr awaited
]

-- A vote can be forgotten. Where the server is about to accept the last vote of a running flush, and
-- another video's vote is stored and sets the timer, which fires before the answer has come, then the
-- flush ends with the new vote in the queue, no flush running, and no timer set.
pub vote_forgotten :
    (s : Queue) (v u : PendingVote)
    → s.is_flushing ≡ true
    → s.in_flight ≡ u ∷ []
    → s.rest ≡ []
    → s.enqueuing ≡ 0
    → (u.video_id == v.video_id) ≡ false
    → (t : Queue) × Reach s t
      × (get vote_key v.video_id t.store ≡ some v)
      × (t.is_flushing ≡ false)
      × (t.timer ≡ false)
      × (t.enqueuing ≡ 0)
vote_forgotten s v u busy flying at none_waits other = (
  _,
  later
      (later
        (later (later (later here (queues v)) (schedules 0 (ap suc none_waits))) (misses busy refl))
        (is_accepted u flying))
      (ends busy refl at),
  get-delete vote_key v.video_id u.video_id _
      ∙ rw other
          (get-put vote_key v.video_id v s.store ∙ rw ((eq_iff v.video_id v.video_id).1 refl) refl),
  refl,
  refl,
  refl,
)
