-- ===== src/Browser.antt =====
-- What the service worker runs on: the browser's services and the server as a record of functions,
-- and the state that the modules of realtube-extension/src/background share (IndexedDB, the
-- extension's storage, the variables of each module).
--
-- `trace` records the requests and the waits so far, the latest first. The services may depend on
-- it, so that the clock, the network and the server change over time in any way.
use real_tube.Prelude.{ℕ, String, Bool, false, Option, none, some, List, []}
use real_tube.Records.{
  CachedVideo, CachedChannel, PendingVote, CacheMeta, VoteRequest, VoteResponse, VideoResult,
  SyncDeltaResponse, SyncFullResponse, UserInfoResponse,
}
use real_tube.Effects.{Result, Exec}
use real_tube.ObjectStore.{ObjectStore}

-- The endpoints that the extension calls, with what each answers as JSON.
pub data Endpoint : Type 0 where
  lookup_videos submit_vote delete_vote sync_delta sync_full user_info : Endpoint

abbrev pub Payload : Endpoint → Type 0
Payload lookup_videos = List VideoResult
Payload submit_vote = VoteResponse
Payload delete_vote = Unit {0}
Payload sync_delta = SyncDeltaResponse
Payload sync_full = SyncFullResponse
Payload user_info = UserInfoResponse

pub data Method : Type 0 where
  get post delete : Method

-- what `JSON.stringify` is given
pub data Body : Type 0 where
  empty : Body
  vote : VoteRequest → Body
  vote_deletion : (video_id user_id : String) → Body

pub record Request : Type 0 where
  pub method : Method
  pub url : String
  pub body : Body

pub record Response (A : Type 0) : Type 0 where
  pub status : ℕ
  pub retry_after : Option String  -- the header
  pub json : Result A  -- what `response.json()` gives
  pub error_message : Option String  -- `error.message` of a JSON body

-- A `fetch` resolves with a response or rejects with an error.
pub data Outcome (A : Type 0) : Type 0 where
  responded : Response A → Outcome A
  rejected : String → Outcome A

pub data Event : Type 0 where
  requested : Request → Event
  slept : ℕ → Event

abbrev pub Trace : Type 0
Trace = List Event

pub record Platform : Type 0 where
  pub fetch : (e : Endpoint) → Trace → Request → Outcome (Payload e)
  pub now : Trace → ℕ  -- Date.now(), in milliseconds
  pub online : Trace → Bool  -- navigator.onLine
  pub date_ms : String → Option ℕ  -- new Date(s).getTime(), `none` for NaN
  pub iso_string : ℕ → String  -- new Date(ms).toISOString()
  pub digest : String → List ℕ  -- the bytes of the SHA-256 digest of the text's UTF-8
  pub random_uuid : Trace → Option String  -- crypto.randomUUID(), `none` where it is missing
  pub random_nibble : Trace → ℕ → ℕ  -- (Math.random() * 16) | 0, the i-th time
  pub user_agent : String  -- navigator.userAgent

-- The object stores of the database `realtube`.
pub record Db : Type 0 where
  pub videos : ObjectStore CachedVideo
  pub channels : ObjectStore CachedChannel
  pub pending_votes : ObjectStore PendingVote
  pub meta : ObjectStore CacheMeta

pub record World : Type 0 where
  pub db : Db
  pub local_id : Option String  -- chrome.storage.local, `realtube_local_id`
  pub server_url : Option String  -- chrome.storage.sync, `serverUrl`
  pub cached_base_url : Option String  -- api-client.ts
  pub cached_public_user_id : Option String  -- background.ts
  pub flush_timer : Option ℕ  -- offline-queue.ts, with the timer's delay
  pub is_flushing : Bool  -- offline-queue.ts
  pub startup_sync_timer : Option ℕ  -- sync.ts
  pub sync_timer : Option ℕ  -- sync.ts
  pub trace : Trace

abbrev pub M : Type 0 → Type 0
M A = Exec World A

abbrev pub empty_db : Db
empty_db = record { videos = []; channels = []; pending_votes = []; meta = [] }

-- A worker that has just been loaded, over what the browser has stored.
abbrev pub started : Db → Option String → Option String → World
started db local_id server_url = record {
  db = db;
  local_id = local_id;
  server_url = server_url;
  cached_base_url = none;
  cached_public_user_id = none;
  flush_timer = none;
  is_flushing = false;
  startup_sync_timer = none;
  sync_timer = none;
  trace = [];
}

-- A string as JavaScript tests it: the empty string counts as missing.
abbrev pub truthy : Option String → Option String
truthy none = none
truthy (some String.[]) = none
truthy (some (String.◌∷◌ c t)) = some (String.◌∷◌ c t)
