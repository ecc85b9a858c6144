-- ===== src/Cache/Refinement.antt =====
-- The cache of realtube-extension/src/background/cache.ts as its callers see it: maps from keys to
-- records, without the order of the stores.
use std.Path.{fun_ext}
use real_tube.Prelude.{
  String, ◌==◌, ◌≡◌, refl, ap, ◌∙◌, Bool, true, false, Option, none, some, List, [], ◌∷◌,
  if◌then◌else◌,
}
use mathlib.Core.Option
use real_tube.Records.{CachedVideo, CachedChannel, PendingVote, CacheMeta}
use real_tube.Effects.{Result, ok, err, pure, continue, ◌>>◌}
use real_tube.ObjectStore
use real_tube.ObjectStore.{ObjectStore}
use real_tube.ObjectStore.Laws.{get-put, get-delete}
use real_tube.Browser.{World, M}
use real_tube.Cache
use real_tube.Cache.{video_key, channel_key, vote_key, meta_key}

abbrev pub Reads : Type 0 → Type 0
Reads A = String → Option A

pub record View : Type 0 where
  pub video : Reads CachedVideo
  pub channel : Reads CachedChannel
  pub meta : Reads String
  pub pending : Reads PendingVote

-- the transactions that write
pub data Write : Type 0 where
  put_video : CachedVideo → Write
  put_videos : List CachedVideo → Write
  delete_video : String → Write
  clear_videos : Write
  put_channel : CachedChannel → Write
  put_channels : List CachedChannel → Write
  delete_channel : String → Write
  clear_channels : Write
  add_pending_vote : PendingVote → Write
  remove_pending_vote : String → Write
  clear_pending_votes : Write
  set_meta : (key value : String) → Write

pub perform : Write → M (Unit {0})
perform (put_video v) = Cache.put_video v
perform (put_videos vs) = Cache.put_videos vs
perform (delete_video id) = Cache.delete_video id
perform clear_videos = Cache.clear_videos
perform (put_channel c) = Cache.put_channel c
perform (put_channels cs) = Cache.put_channels cs
perform (delete_channel id) = Cache.delete_channel id
perform clear_channels = Cache.clear_channels
perform (add_pending_vote v) = Cache.add_pending_vote v
perform (remove_pending_vote id) = Cache.remove_pending_vote id
perform clear_pending_votes = Cache.clear_pending_votes
perform (set_meta key value) = Cache.set_meta key value

pub perform_all : List Write → M (Unit {0})
perform_all [] = pure tt
perform_all (write ∷ writes) = perform write >> perform_all writes

-- a map with one key set or removed, and with a list of records set one after the other
abbrev pub assign : {A : Type 0} → String → Option A → Reads A → Reads A
assign key value reads k = if key == k then value else reads k

pub assign_all : {V : Type 0} → (V → String) → List V → Reads V → Reads V
assign_all key [] reads = reads
assign_all key (v ∷ vs) reads = assign_all key vs (assign (key v) (some v) reads)

abbrev pub nothing : {A : Type 0} → Reads A
nothing k = none

-- what a write means
pub meaning : Write → View → View
meaning (put_video v) view = record view { video = assign v.video_id (some v) view.video }
meaning (put_videos vs) view = record view { video = assign_all video_key vs view.video }
meaning (delete_video id) view = record view { video = assign id none view.video }
meaning clear_videos view = record view { video = nothing }
meaning (put_channel c) view = record view { channel = assign c.channel_id (some c) view.channel }
meaning (put_channels cs) view = record view { channel = assign_all channel_key cs view.channel }
meaning (delete_channel id) view = record view { channel = assign id none view.channel }
meaning clear_channels view = record view { channel = nothing }
meaning (add_pending_vote v) view = record view {
  pending = assign v.video_id (some v) view.pending;
}
meaning (remove_pending_vote id) view = record view { pending = assign id none view.pending }
meaning clear_pending_votes view = record view { pending = nothing }
meaning (set_meta key value) view = record view { meta = assign key (some value) view.meta }

pub replay : List Write → View → View
replay [] view = view
replay (write ∷ writes) view = replay writes (meaning write view)

abbrev answer : {A : Type 0} → Result (Option A) × World → Option A
answer (ok found, w) = found
answer (err message, w) = none

-- the answer of `getPendingVotes`, looked up by the video
abbrev pending_of : Result (List PendingVote) × World → String → Option PendingVote
pending_of (ok votes, w) id = ObjectStore.get vote_key id votes
pending_of (err message, w) id = none

-- what the reads of the cache answer
pub view : World → View
unfolding Cache.get_video Cache.get_channel Cache.get_meta Cache.get_pending_votes
view w = record {
  video = λ id. answer (Cache.get_video id w);
  channel = λ id. answer (Cache.get_channel id w);
  meta = λ key. answer (Cache.get_meta key w);
  pending = pending_of (Cache.get_pending_votes w);
}

abbrev reads_of : {V : Type 0} → (V → String) → ObjectStore V → Reads V
reads_of key store k = ObjectStore.get key k store

put-reads :
    {V : Type 0} (key : V → String) (v : V) (store : ObjectStore V)
    → reads_of key (ObjectStore.put key v store) ≡ assign (key v) (some v) (reads_of key store)
put-reads key v store = fun_ext λ k. get-put key k v store

delete-reads :
    {V : Type 0} (key : V → String) (id : String) (store : ObjectStore V)
    → reads_of key (ObjectStore.delete key id store) ≡ assign id none (reads_of key store)
delete-reads key id store = fun_ext λ k. get-delete key k id store

put_all-reads :
    {V : Type 0} (key : V → String) (vs : List V) (store : ObjectStore V)
    → reads_of key (ObjectStore.put_all key vs store) ≡ assign_all key vs (reads_of key store)
unfolding ObjectStore.put_all assign_all
put_all-reads key [] store = refl
put_all-reads key (v ∷ vs) store =
    put_all-reads key vs (ObjectStore.put key v store)
    ∙ ap (assign_all key vs) (put-reads key v store)

-- the reads after a put of a list, for which there is no transaction where the list is empty
clear-reads : {V : Type 0} (key : V → String) → reads_of key [] ≡ nothing
unfolding ObjectStore.get
clear-reads key = refl

map-if :
    (b : Bool) (t u : Option CacheMeta)
    → Option.map (λ m. m.value) (if b then t else u)
      ≡ (if b then Option.map (λ m. m.value) t else Option.map (λ m. m.value) u)
map-if true t u = refl
map-if false t u = refl

meta-reads :
    (key value : String) (store : ObjectStore CacheMeta)
    → (λ k.
        Option.map
          (λ m. m.value)
          (ObjectStore.get meta_key k
            (ObjectStore.put meta_key (record { key = key; value = value }) store)))
      ≡ assign key (some value) (λ k. Option.map (λ m. m.value) (ObjectStore.get meta_key k store))
meta-reads key value store = fun_ext λ k.
    ap (Option.map (λ m. m.value)) (get-put meta_key k (record { key = key; value = value }) store)
    ∙ map-if (key == k) _ _

perform-meaning : (write : Write) (w : World) → view (perform write w).1 ≡ meaning write (view w)
unfolding view perform meaning assign_all Cache.put_video Cache.put_videos Cache.delete_video
    Cache.clear_videos Cache.put_channel Cache.put_channels Cache.delete_channel
    Cache.clear_channels Cache.add_pending_vote Cache.remove_pending_vote Cache.clear_pending_votes
    Cache.set_meta
perform-meaning (put_video v) w =
    λ i. record (view w) { video = put-reads video_key v w.db.videos i }
perform-meaning (put_videos []) w = refl
perform-meaning (put_videos (v ∷ vs)) w =
    λ i. record (view w) { video = put_all-reads video_key (v ∷ vs) w.db.videos i }
perform-meaning (delete_video id) w =
    λ i. record (view w) { video = delete-reads video_key id w.db.videos i }
perform-meaning clear_videos w = λ i. record (view w) { video = clear-reads video_key i }
perform-meaning (put_channel c) w =
    λ i. record (view w) { channel = put-reads channel_key c w.db.channels i }
perform-meaning (put_channels []) w = refl
perform-meaning (put_channels (c ∷ cs)) w =
    λ i. record (view w) { channel = put_all-reads channel_key (c ∷ cs) w.db.channels i }
perform-meaning (delete_channel id) w =
    λ i. record (view w) { channel = delete-reads channel_key id w.db.channels i }
perform-meaning clear_channels w = λ i. record (view w) { channel = clear-reads channel_key i }
perform-meaning (add_pending_vote v) w =
    λ i. record (view w) { pending = put-reads vote_key v w.db.pending_votes i }
perform-meaning (remove_pending_vote id) w =
    λ i. record (view w) { pending = delete-reads vote_key id w.db.pending_votes i }
perform-meaning clear_pending_votes w = λ i. record (view w) { pending = clear-reads vote_key i }
perform-meaning (set_meta key value) w =
    λ i. record (view w) { meta = meta-reads key value w.db.meta i }

-- no write fails
perform-ok : (write : Write) (w : World) → (perform write w).0 ≡ ok tt
unfolding perform Cache.put_video Cache.put_videos Cache.delete_video Cache.clear_videos
    Cache.put_channel Cache.put_channels Cache.delete_channel Cache.clear_channels
    Cache.add_pending_vote Cache.remove_pending_vote Cache.clear_pending_votes Cache.set_meta
perform-ok (put_videos []) w = refl
perform-ok (put_videos (v ∷ vs)) w = refl
perform-ok (put_channels []) w = refl
perform-ok (put_channels (v ∷ vs)) w = refl
perform-ok _ w = refl

perform_all-step :
    (write : Write) (writes : List Write) (w : World)
    → perform_all (write ∷ writes) w ≡ perform_all writes (perform write w).1
unfolding perform_all
perform_all-step write writes w =
    ap (λ answer. continue answer (λ _. perform_all writes) (perform write w).1)
      (perform-ok write w)

-- The cache implements four maps: any sequence of its writing transactions, from any state, succeeds,
-- and afterwards the reads of videos, channels, metadata and pending votes answer what the maps hold
-- when each write sets, removes or clears the keys that it names, in the same order.
pub perform_all-replay :
    (writes : List Write) (w : World)
    → ((perform_all writes w).0 ≡ ok tt) × (view (perform_all writes w).1 ≡ replay writes (view w))
unfolding perform_all replay
perform_all-replay [] w = (refl, refl)
perform_all-replay (write ∷ writes) w =
    let step = perform_all-step write writes w in
    let (succeeds, reads) = perform_all-replay writes (perform write w).1 in
    (
      ap (λ x. x.0) step ∙ succeeds,
      ap (λ x. view x.1) step ∙ reads ∙ ap (replay writes) (perform-meaning write w),
    )
