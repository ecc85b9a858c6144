-- ===== src/OfflineQueue/Race.antt =====
-- Votes that are queued while `flushPendingVotes` of
-- realtube-extension/src/background/offline-queue.ts waits for the server: its loop and SUBMIT_VOTE as
-- steps that come in any order.
--
-- What happens between two waits is one step, since the worker has one thread. The reading of the
-- queue at the start of a flush and the removal of a vote are transactions, which run in the order in
-- which they are made. `enqueueVote` sets the timer of a flush only after its vote is stored. A timer
-- that fires while a flush is running is spent: `flushPendingVotes` returns at once then.
-- One that fires while the browser is offline is set again at once, which is no step here.
pub mod Timer
use real_tube.Prelude.{
  ℕ, suc, ◌==◌, eq_iff, ◌≡◌, refl, sym, ◌∙◌, ◌⊎◌, Bool, true, false, none, some, List, [], ◌∷◌, All,
  arith, Bool-cases, inl, inr,
}
use mathlib.Core.Path.{subst}
use real_tube.Records.{PendingVote}
use real_tube.ObjectStore.{ObjectStore, get, put, delete}
use real_tube.ObjectStore.Laws.{get-put, get-delete}
use real_tube.ObjectStore.Sorted.{IsSorted, put-IsSorted, delete-IsSorted}
use real_tube.Cache.{vote_key}
use real_tube.OfflineQueue.{is_expired}
use real_tube.OfflineQueue.Loop.{In}
use real_tube.OfflineQueue.Flush.{get_of_In}

pub record Queue : Type 0 where
  pub store : ObjectStore PendingVote
  pub is_flushing : Bool
  pub now : ℕ  -- the time at which the flush has started
  pub rest : List PendingVote  -- what the loop has still to do
  pub in_flight : List PendingVote  -- the vote that is submitted, where there is one
  pub queued : List PendingVote  -- all votes that were queued, the latest first
  pub settled : List PendingVote  -- the votes that were accepted, or dropped as too old
  pub enqueuing : ℕ  -- the votes that are stored and have not yet set the timer
  pub timer : Bool  -- whether the timer of a flush is set
  -- whether the timer has fired during a flush, since the last one started
  pub missed : Bool

abbrev pub without : PendingVote → ObjectStore PendingVote → ObjectStore PendingVote
without v store = delete vote_key v.video_id store

pub data Turn (s : Queue) : Queue → Type 0 where
  -- a SUBMIT_VOTE has failed, and `enqueueVote` stores its vote
  queues :
      (v : PendingVote)
      → Turn s (record s {
        store = put vote_key v s.store;
        queued = v ∷ s.queued;
        enqueuing = suc s.enqueuing;
      })
  -- `enqueueVote` goes on after its write
  schedules :
      (others : ℕ)
      → s.enqueuing ≡ suc others
      → Turn s (record s { enqueuing = others; timer = true })
  -- a flush by the event `online` or by a message, with the timer as it is, or by the timer
  starts :
      (now : ℕ) (timer : Bool)
      → s.is_flushing ≡ false
      → (timer ≡ s.timer) ⊎ ((s.timer ≡ true) × (timer ≡ false))
      → Turn s (record s {
        is_flushing = true;
        now = now;
        rest = s.store;
        in_flight = [];
        timer = timer;
        missed = false;
      })
  -- the timer fires while a flush is running
  misses :
      s.is_flushing ≡ true → s.timer ≡ true → Turn s (record s { timer = false; missed = true })
  drops :
      (v : PendingVote) (vs : List PendingVote)
      → s.is_flushing ≡ true
      → s.in_flight ≡ []
      → s.rest ≡ v ∷ vs
      → is_expired s.now v ≡ true
      → Turn s (record s { store = without v s.store; rest = vs; settled = v ∷ s.settled })
  submits :
      (v : PendingVote) (vs : List PendingVote)
      → s.is_flushing ≡ true
      → s.in_flight ≡ []
      → s.rest ≡ v ∷ vs
      → is_expired s.now v ≡ false
      → Turn s (record s { rest = vs; in_flight = v ∷ [] })
  is_accepted :
      (v : PendingVote)
      → s.in_flight ≡ v ∷ []
      → Turn s (record s { store = without v s.store; in_flight = []; settled = v ∷ s.settled })
  -- the loop stops, and the timer is set for a later flush
  is_refused :
      (v : PendingVote)
      → s.in_flight ≡ v ∷ []
      → Turn s (record s { is_flushing = false; rest = []; in_flight = []; timer = true })
  ends :
      s.is_flushing ≡ true
      → s.in_flight ≡ []
      → s.rest ≡ []
      → Turn s (record s { is_flushing = false })

-- the states that come after a state
pub data Reach (s : Queue) : Queue → Type 0 where
  here : Reach s s
  later : {t u : Queue} → Reach s t → Turn t u → Reach s u

-- of the votes for the same video, only the vote itself
abbrev pub Only : PendingVote → List PendingVote → Type 0
Only v votes = All (λ u. u.video_id ≡ v.video_id → v ≡ u) votes

-- no vote for the same video
abbrev pub Avoids : PendingVote → List PendingVote → Type 0
Avoids v votes = All (λ u. u.video_id ≡ v.video_id → ⊥) votes

-- The vote is queued, or it is not and it is settled.
abbrev pub Stays : PendingVote → ObjectStore PendingVote → List PendingVote → Type 0
Stays v store settled =
    (get vote_key v.video_id store ≡ some v)
    ⊎ ((get vote_key v.video_id store ≡ none) × In v settled)

record IsSafe (v : PendingVote) (s : Queue) : Type 0 where
  pub stays : Stays v s.store s.settled
  pub sorted : IsSorted vote_key s.store
  pub rest : Only v s.rest
  pub flying : Only v s.in_flight

Stays-put :
    (v u : PendingVote) (store : ObjectStore PendingVote) (settled : List PendingVote)
    → (u.video_id ≡ v.video_id → ⊥)
    → Stays v store settled
    → Stays v (put vote_key u store) settled
Stays-put v u store settled other h = elim (Bool-cases (u.video_id == v.video_id)) [
  | inl same ↦ absurd (other ((eq_iff u.video_id v.video_id).0 same))
  | inr off ↦
      let e = get-put vote_key v.video_id u store ∙ rw off refl in
      elim h [ inl kept ↦ inl (e ∙ kept) | inr (gone, settled) ↦ inr (e ∙ gone, settled) ]
]

Stays-without :
    (v u : PendingVote) (store : ObjectStore PendingVote) (settled : List PendingVote)
    → (u.video_id ≡ v.video_id → v ≡ u)
    → Stays v store settled
    → Stays v (without u store) (u ∷ settled)
Stays-without v u store settled only h = elim (Bool-cases (u.video_id == v.video_id)) [
  | inl same ↦ inr (
    get-delete vote_key v.video_id u.video_id store ∙ rw same refl,
    inl (only ((eq_iff u.video_id v.video_id).0 same)),
  )
  | inr off ↦
      let e = get-delete vote_key v.video_id u.video_id store ∙ rw off refl in
      elim h [ inl kept ↦ inl (e ∙ kept) | inr (gone, settled) ↦ inr (e ∙ gone, inr settled) ]
]

-- the queue itself has no other vote for the video
Only-store :
    (v : PendingVote) (store votes : ObjectStore PendingVote) (settled : List PendingVote)
    → IsSorted vote_key store
    → Stays v store settled
    → ((u : PendingVote) → In u votes → In u store)
    → Only v votes
Only-store v store [] settled sorted h sub = tt
Only-store v store (u ∷ us) settled sorted h sub = (
  λ same. first (get_of_In store u sorted (sub u (inl refl))) same h,
  Only-store v store us settled sorted h (λ x i. sub x (inr i)),
)
  where
    first :
        get vote_key u.video_id store ≡ some u
        → u.video_id ≡ v.video_id
        → Stays v store settled
        → v ≡ u
    first found same (inl kept) =
        let e : some v ≡ some u =
          sym kept ∙ subst (λ k. get vote_key k store ≡ some u) same found in
        cc e
    first found same (inr (gone, i)) =
        let e : none ≡ some u = sym gone ∙ subst (λ k. get vote_key k store ≡ some u) same found in
        absurd (ground (arith, e))

-- what a submission or a round takes off the front
Only-first :
    (v u : PendingVote) (votes rest : List PendingVote)
    → votes ≡ u ∷ rest
    → Only v votes
    → Only v (u ∷ rest)
Only-first v u votes rest e h = subst (Only v) e h

turn-IsSafe :
    (v : PendingVote) (s t : Queue) → Turn s t → Avoids v t.queued → IsSafe v s → IsSafe v t
turn-IsSafe v s _ (queues u) (other, avoids) h = record {
  stays = Stays-put v u s.store s.settled other h.stays;
  sorted = put-IsSorted vote_key u s.store h.sorted;
  rest = h.rest;
  flying = h.flying;
}
turn-IsSafe v s _ (schedules others some_wait) avoids h = record {
  stays = h.stays;
  sorted = h.sorted;
  rest = h.rest;
  flying = h.flying;
}
turn-IsSafe v s _ (starts now timer idle by) avoids h = record {
  stays = h.stays;
  sorted = h.sorted;
  rest = Only-store v s.store s.store s.settled h.sorted h.stays (λ u i. i);
  flying = tt;
}
turn-IsSafe v s _ (misses busy set) avoids h = record {
  stays = h.stays;
  sorted = h.sorted;
  rest = h.rest;
  flying = h.flying;
}
turn-IsSafe v s _ (drops u us busy free at old) avoids h =
    let (only, rest) = Only-first v u s.rest us at h.rest in
    record {
      stays = Stays-without v u s.store s.settled only h.stays;
      sorted = delete-IsSorted vote_key u.video_id s.store h.sorted;
      rest = rest;
      flying = h.flying;
    }
turn-IsSafe v s _ (submits u us busy free at fresh) avoids h =
    let (only, rest) = Only-first v u s.rest us at h.rest in
    record { stays = h.stays; sorted = h.sorted; rest = rest; flying = (only, tt) }
turn-IsSafe v s _ (is_accepted u at) avoids h =
    let (only, none_left) = Only-first v u s.in_flight [] at h.flying in
    record {
      stays = Stays-without v u s.store s.settled only h.stays;
      sorted = delete-IsSorted vote_key u.video_id s.store h.sorted;
      rest = h.rest;
      flying = tt;
    }
turn-IsSafe v s _ (is_refused u at) avoids h = record {
  stays = h.stays;
  sorted = h.sorted;
  rest = tt;
  flying = tt;
}
turn-IsSafe v s _ (ends busy free at) avoids h = record {
  stays = h.stays;
  sorted = h.sorted;
  rest = h.rest;
  flying = h.flying;
}

-- a step only adds to the votes that were queued
turn-Avoids : (v : PendingVote) (s t : Queue) → Turn s t → Avoids v t.queued → Avoids v s.queued
turn-Avoids v s _ (queues u) (other, avoids) = avoids
turn-Avoids v s _ (schedules others some_wait) avoids = avoids
turn-Avoids v s _ (starts now timer idle by) avoids = avoids
turn-Avoids v s _ (misses busy set) avoids = avoids
turn-Avoids v s _ (drops u us busy free at old) avoids = avoids
turn-Avoids v s _ (submits u us busy free at fresh) avoids = avoids
turn-Avoids v s _ (is_accepted u at) avoids = avoids
turn-Avoids v s _ (is_refused u at) avoids = avoids
turn-Avoids v s _ (ends busy free at) avoids = avoids

reach-IsSafe :
    (v : PendingVote) (s t : Queue) → Reach s t → Avoids v t.queued → IsSafe v s → IsSafe v t
reach-IsSafe v s _ here avoids h = h
reach-IsSafe v s u (later {t} reach step) avoids h =
    turn-IsSafe v t u step avoids (reach-IsSafe v s t reach (turn-Avoids v t u step avoids) h)

-- A vote that is pending before a flush is never lost, however votes for other videos are queued and
-- flushes start, wait, drop, submit, fail and end in between: it is pending still, or it is not and
-- it was accepted by the server or dropped as too old. No vote for the same video may be queued
-- from then on, and the store has to be in the order of its keys.
pub reach-Stays :
    (v : PendingVote) (s t : Queue)
    → s.rest ≡ []
    → s.in_flight ≡ []
    → IsSorted vote_key s.store
    → get vote_key v.video_id s.store ≡ some v
    → Reach s t
    → Avoids v t.queued
    → Stays v t.store t.settled
reach-Stays v s t idle free sorted pending reach avoids =
    (reach-IsSafe v s t reach avoids (record {
      stays = inl pending;
      sorted = sorted;
      rest = subst (Only v) (sym idle) tt;
      flying = subst (Only v) (sym free) tt;
    })).stays
