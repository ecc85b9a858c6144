-- ===== src/Background/Overlap/Stored.antt =====
-- What the cache reads for a video once the results of the lookups are stored depends on the results for
-- this video alone.

use real_tube.Prelude.{
  String, ◌==◌, ◌≡◌, refl, sym, ap, ◌∙◌, Bool, true, false, Option, none, some, List, [], ◌∷◌, ◌++◌,
  map, if◌then◌else◌,
}
use real_tube.Records.{CachedVideo, VideoResult}
use real_tube.ObjectStore.{ObjectStore, get, put_all}
use real_tube.ObjectStore.Laws.{last_with, or_else, get-put, get-put_all}
use real_tube.Cache.{video_key}
use real_tube.Sync.{cached_of_result}
use real_tube.Background.Overlap.{Act, nothing, pushes, writes, written_by, stored_by}
use real_tube.Background.Overlap.Turns.{only}

-- The record that is read for a video, once the results are stored one after the other.
abbrev pub stored : String → List VideoResult → ObjectStore CachedVideo → Option CachedVideo
stored id results videos =
    get video_key id (put_all video_key (map cached_of_result results) videos)

abbrev last_for : String → List VideoResult → Option CachedVideo
last_for id results = last_with video_key id (map cached_of_result results)

or_else-none : (a : Option CachedVideo) → or_else a none ≡ a
or_else-none none = refl
or_else-none (some a) = refl

or_else_last :
    (a : Option CachedVideo) (v : CachedVideo) (b : Option CachedVideo)
    → or_else (or_else a (some v)) b ≡ or_else a (some v)
or_else_last none v b = refl
or_else_last (some a) v b = refl

last_for-pick :
    (id : String) (v : VideoResult) (vs : List VideoResult) (b : Bool)
    → (v.video_id == id) ≡ b
    → last_for id (if b then v ∷ vs else vs)
      ≡ or_else (last_for id vs) (if b then some (cached_of_result v) else none)
unfolding last_with
last_for-pick id v vs true e =
    ap (λ b. or_else (last_for id vs) (if b then some (cached_of_result v) else none)) e
last_for-pick id v vs false e = sym (or_else-none (last_for id vs))

-- the last result for a video is the last of those that are for it
last_for-only :
    (id : String) (results : List VideoResult) → last_for id results ≡ last_for id (only id results)
unfolding last_with
last_for-only id [] = refl
last_for-only id (v ∷ vs) =
    ap (λ o. or_else o (if v.video_id == id then some (cached_of_result v) else none))
      (last_for-only id vs)
    ∙ sym (last_for-pick id v (only id vs) (v.video_id == id) refl)

last_for-written :
    (id : String) (v : VideoResult) (vs : List VideoResult) (kept : Option CachedVideo) (b : Bool)
    → (v.video_id == id) ≡ b
    → or_else (last_for id vs) (if b then some (cached_of_result v) else kept)
      ≡ or_else (last_for id ((if b then v ∷ [] else []) ++ vs)) kept
unfolding last_with
last_for-written id v vs kept true e = sym (
    ap
      (λ b. or_else (or_else (last_for id vs) (if b then some (cached_of_result v) else none)) kept)
      e
    ∙ or_else_last (last_for id vs) (cached_of_result v) kept)
last_for-written id v vs kept false e = refl

stored-eq :
    (id : String) (results : List VideoResult) (videos : ObjectStore CachedVideo)
    → stored id results videos ≡ or_else (last_for id (only id results)) (get video_key id videos)
stored-eq id results videos =
    get-put_all video_key id (map cached_of_result results) videos
    ∙ ap (λ o. or_else o (get video_key id videos)) (last_for-only id results)

stored_again :
    (id : String) (results other : List VideoResult) (videos : ObjectStore CachedVideo)
    → only id results ≡ other
    → stored id results videos ≡ or_else (last_for id other) (get video_key id videos)
stored_again id results other videos e =
    stored-eq id results videos ∙ ap (λ vs. or_else (last_for id vs) (get video_key id videos)) e

-- A step leaves what is read once the rest is stored.
pub stored_next :
    (id : String) (act : Act) (fs gs : List VideoResult) (videos : ObjectStore CachedVideo)
    → only id fs ≡ only id (written_by act) ++ only id gs
    → stored id gs (stored_by act videos) ≡ stored id fs videos
stored_next id nothing fs gs videos e = stored-eq id gs videos ∙ sym (stored_again id fs _ videos e)
stored_next id (pushes v) fs gs videos e =
    stored-eq id gs videos ∙ sym (stored_again id fs _ videos e)
stored_next id (writes v) fs gs videos e =
    stored-eq id gs (stored_by (writes v) videos)
    ∙ ap (or_else (last_for id (only id gs))) (get-put video_key id (cached_of_result v) videos)
    ∙ last_for-written id v (only id gs) (get video_key id videos) (v.video_id == id) refl
    ∙ sym (stored_again id fs _ videos e)
