-- ===== src/Cache.antt =====
-- realtube-extension/src/background/cache.ts: the four object stores. Each function runs one
-- transaction. Requests to IndexedDB are taken to succeed, and so is the opening of the database.
pub mod Refinement
use real_tube.Prelude.{ℕ, String, Option, none, some, List, [], ◌∷◌}
use mathlib.Core.Option
use real_tube.Records.{CachedVideo, CachedChannel, PendingVote, CacheMeta}
use real_tube.Effects.{pure, gets, modify}
use real_tube.ObjectStore
use real_tube.Browser.{Db, M}

-- the key paths of the stores
abbrev pub video_key : CachedVideo → String
video_key v = v.video_id

abbrev pub channel_key : CachedChannel → String
channel_key c = c.channel_id

abbrev pub vote_key : PendingVote → String
vote_key v = v.video_id

abbrev pub meta_key : CacheMeta → String
meta_key m = m.key

-- a read-only transaction, and one that writes
abbrev read : {A : Type 0} → (Db → A) → M A
read f = gets (λ w. f w.db)

abbrev write : (Db → Db) → M (Unit {0})
write f = modify (λ w. record w { db = f w.db })

abbrev pub find_video : Db → String → Option CachedVideo
find_video db video_id = ObjectStore.get video_key video_id db.videos

abbrev pub find_channel : Db → String → Option CachedChannel
find_channel db channel_id = ObjectStore.get channel_key channel_id db.channels

abbrev pub find_vote : Db → String → Option PendingVote
find_vote db video_id = ObjectStore.get vote_key video_id db.pending_votes

abbrev pub find_meta : Db → String → Option String
find_meta db key = Option.map (λ m. m.value) (ObjectStore.get meta_key key db.meta)

-- video operations
unfoldable pub get_video : String → M (Option CachedVideo)
get_video video_id = read (λ db. find_video db video_id)

unfoldable pub found_videos : Db → List String → List CachedVideo
found_videos db [] = []
found_videos db (id ∷ ids) =
    let rest = found_videos db ids in
    elim (find_video db id) [ none ↦ rest | some video ↦ video ∷ rest ]

unfoldable pub get_videos : List String → M (List CachedVideo)
unfolding found_videos
get_videos video_ids = read (λ db. found_videos db video_ids)

unfoldable pub put_video : CachedVideo → M (Unit {0})
put_video video = write (λ db. record db { videos = ObjectStore.put video_key video db.videos })

-- no transaction is opened for an empty list
unfoldable pub put_videos : List CachedVideo → M (Unit {0})
put_videos [] = pure tt
put_videos (v ∷ vs) =
    write (λ db. record db { videos = ObjectStore.put_all video_key (v ∷ vs) db.videos })

unfoldable pub delete_video : String → M (Unit {0})
delete_video video_id =
    write (λ db. record db { videos = ObjectStore.delete video_key video_id db.videos })

unfoldable pub clear_videos : M (Unit {0})
clear_videos = write (λ db. record db { videos = ObjectStore.clear db.videos })

unfoldable pub get_video_count : M ℕ
get_video_count = read (λ db. ObjectStore.count db.videos)

-- channel operations
unfoldable pub get_channel : String → M (Option CachedChannel)
get_channel channel_id = read (λ db. find_channel db channel_id)

unfoldable pub put_channel : CachedChannel → M (Unit {0})
put_channel channel =
    write (λ db. record db { channels = ObjectStore.put channel_key channel db.channels })

unfoldable pub put_channels : List CachedChannel → M (Unit {0})
put_channels [] = pure tt
put_channels (c ∷ cs) =
    write (λ db. record db { channels = ObjectStore.put_all channel_key (c ∷ cs) db.channels })

unfoldable pub delete_channel : String → M (Unit {0})
delete_channel channel_id =
    write (λ db. record db { channels = ObjectStore.delete channel_key channel_id db.channels })

unfoldable pub clear_channels : M (Unit {0})
clear_channels = write (λ db. record db { channels = ObjectStore.clear db.channels })

unfoldable pub get_channel_count : M ℕ
get_channel_count = read (λ db. ObjectStore.count db.channels)

-- pending vote operations
unfoldable pub add_pending_vote : PendingVote → M (Unit {0})
add_pending_vote vote =
    write (λ db. record db { pending_votes = ObjectStore.put vote_key vote db.pending_votes })

unfoldable pub get_pending_votes : M (List PendingVote)
get_pending_votes = read (λ db. ObjectStore.get_all db.pending_votes)

unfoldable pub remove_pending_vote : String → M (Unit {0})
remove_pending_vote video_id =
    write
      (λ db. record db { pending_votes = ObjectStore.delete vote_key video_id db.pending_votes })

unfoldable pub clear_pending_votes : M (Unit {0})
clear_pending_votes = write (λ db. record db { pending_votes = ObjectStore.clear db.pending_votes })

-- meta operations
unfoldable pub get_meta : String → M (Option String)
get_meta key = read (λ db. find_meta db key)

unfoldable pub set_meta : (key value : String) → M (Unit {0})
set_meta key value = write (λ db. record db {
  meta = ObjectStore.put meta_key (record { key = key; value = value }) db.meta;
})
