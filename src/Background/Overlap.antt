-- ===== src/Background/Overlap.antt =====
-- The lookups of CHECK_VIDEOS in realtube-extension/src/background/background.ts, which run at the same
-- time, as steps that come in any order.
--
-- What happens between two waits is one step. A lookup waits for the server, and then for each of the
-- records that it writes. `answer` names what the lookup of a prefix comes to, `none` where it throws;
-- each prefix is looked up once.
pub mod Turns
pub mod Stored
pub mod Start
pub mod Results
pub mod Handler
use real_tube.Prelude.{String, Option, none, some, List, [], ◌∷◌, ◌++◌, map}
use real_tube.Records.{CachedVideo, VideoResult}
use real_tube.ObjectStore.{ObjectStore, put}
use real_tube.Cache.{video_key}
use real_tube.Sync.{cached_of_result}
use real_tube.Background.{PrefixMap, requested_of}

-- how far a lookup is
pub data Fetch : Type 0 where
  -- it waits for the answer
  waiting : (prefix : String) (ids : List String) → Fetch
  -- the results that it has still to go through
  reading : List VideoResult → Fetch
  -- it waits for the write of a result
  writing : VideoResult → List VideoResult → Fetch

-- what a step does to what the lookups share
pub data Act : Type 0 where
  nothing : Act
  pushes writes : VideoResult → Act

pub record Lookups : Type 0 where
  pub fetches : List Fetch
  pub results : List VideoResult  -- `apiResults`
  pub videos : ObjectStore CachedVideo

-- the results of a lookup that were asked for
abbrev pub expected :
    (answer : String → Option (List VideoResult)) → String → List String → List VideoResult
expected answer prefix ids = elim (answer prefix) [
  | none ↦ []
  | some videos ↦ requested_of ids videos
]

-- one step of a lookup
pub data Progress (answer : String → Option (List VideoResult)) : Fetch → Act → Fetch → Type 0 where
  answered :
      {prefix : String} {ids : List String}
      → Progress answer (waiting prefix ids) nothing (reading (expected answer prefix ids))
  pushed :
      {v : VideoResult} {vs : List VideoResult}
      → Progress answer (reading (v ∷ vs)) (pushes v) (writing v vs)
  written :
      {v : VideoResult} {vs : List VideoResult}
      → Progress answer (writing v vs) (writes v) (reading vs)

-- one step of one of the lookups
pub data OneOf (answer : String → Option (List VideoResult))
    : List Fetch → Act → List Fetch → Type 0 where
  this :
      {f g : Fetch} {act : Act} {fs : List Fetch}
      → Progress answer f act g
      → OneOf answer (f ∷ fs) act (g ∷ fs)
  other :
      {f : Fetch} {act : Act} {fs gs : List Fetch}
      → OneOf answer fs act gs
      → OneOf answer (f ∷ fs) act (f ∷ gs)

-- what is pushed and written by a step
abbrev pub pushed_by : Act → List VideoResult
pushed_by (pushes v) = v ∷ []
pushed_by _ = []

abbrev pub written_by : Act → List VideoResult
written_by (writes v) = v ∷ []
written_by _ = []

abbrev pub stored_by : Act → ObjectStore CachedVideo → ObjectStore CachedVideo
stored_by (writes v) videos = put video_key (cached_of_result v) videos
stored_by _ videos = videos

abbrev pub after : Lookups → Act → List Fetch → Lookups
after s act fetches = record {
  fetches = fetches;
  results = s.results ++ pushed_by act;
  videos = stored_by act s.videos;
}

-- the states that come after a state
pub data Run (answer : String → Option (List VideoResult)) (s : Lookups) : Lookups → Type 0 where
  begins : Run answer s s
  goes :
      {t : Lookups} {act : Act} {fetches : List Fetch}
      → Run answer s t
      → OneOf answer t.fetches act fetches
      → Run answer s (after t act fetches)

abbrev pub start_of : String × List String → Fetch
start_of (prefix, ids) = waiting prefix ids

abbrev pub starting : PrefixMap → ObjectStore CachedVideo → Lookups
starting groups videos = record { fetches = map start_of groups; results = []; videos = videos }

-- every lookup has ended
abbrev pub AllEnded : List Fetch → Type 0
AllEnded [] = Unit
AllEnded (reading [] ∷ fs) = AllEnded fs
AllEnded (_ ∷ fs) = ⊥

-- the results of all lookups, one lookup after the other
abbrev pub in_order : (answer : String → Option (List VideoResult)) → PrefixMap → List VideoResult
in_order answer [] = []
in_order answer ((prefix, ids) ∷ groups) = expected answer prefix ids ++ in_order answer groups
