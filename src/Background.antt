-- ===== src/Background.antt =====
-- realtube-extension/src/background/background.ts: the messages of the extension's pages and content
-- scripts, and how the service worker answers them.
pub mod Keeps
pub mod Secure
pub mod Kinds
pub mod Gate
pub mod Lookup
pub mod Privacy
pub mod Overlap
pub mod Again
pub mod Worker
pub mod Grouping
pub mod Queueing
use Prim.Native.String.{◌++◌}
use real_tube.Prelude.{
  ℕ, zero, suc, ◌+◌, String, ◌==◌, Bool, true, false, not, ◌&&◌, ◌||◌, Option, none, some, List, [],
  ◌∷◌, map, keep, has, if◌then◌else◌,
}
use mathlib.Core.List
use real_tube.Records.{CachedVideo, VideoResult, VoteRequest, VoteResponse, UserInfoResponse}
use real_tube.Effects.{Result, ok, err, pure, throw, gets, modify, try_catch, ◌>>=◌, ◌>>◌}
use real_tube.Browser.{Platform, World, M, truthy}
use real_tube.ApiClient
use real_tube.Cache
use real_tube.Identity
use real_tube.Sync
use real_tube.Sync.{DeltaCounts, FullCounts, SyncStatus, cached_of_result}
use real_tube.OfflineQueue
use real_tube.OfflineQueue.{FlushResult}

pub data Message : Type 0 where
  get_user_id get_user_info get_status sync_delta sync_full get_sync_status : Message
  flush_pending_votes open_popup : Message
  lookup_videos check_videos : (video_ids : List String) → Message
  submit_vote : (video_id category : String) → Message
  delete_vote : (video_id : String) → Message
  other : (type : String) → Message

pub record Status : Type 0 where
  pub version : String
  pub has_local_id : Bool
  pub pending_vote_count : ℕ
  pub sync : SyncStatus

-- the field `data` of an answer
pub data Answer : Type 0 where
  nothing : Answer
  user_id : String → Answer
  user_info : UserInfoResponse → Answer
  cached_videos : List CachedVideo → Answer
  video_results : List VideoResult → Answer
  voted : VoteResponse → Answer
  queued : (message : String) → Answer
  delta : DeltaCounts → Answer
  full : FullCounts → Answer
  sync_status : SyncStatus → Answer
  flushed : FlushResult → Answer
  status : Status → Answer

pub data MessageResponse : Type 0 where
  success : Answer → MessageResponse
  failure : (error : String) → MessageResponse

-- A `Map` from hash prefixes to video ids, in the order of insertion.
abbrev pub PrefixMap : Type 0
PrefixMap = List (String × List String)

-- `if (!prefixMap.has(prefix)) prefixMap.set(prefix, []); prefixMap.get(prefix)!.push(videoId)`
unfoldable pub add_to_prefix : String → String → PrefixMap → PrefixMap
add_to_prefix prefix id [] = (prefix, id ∷ []) ∷ []
add_to_prefix prefix id ((q, ids) ∷ groups) =
    if q == prefix
    then (q, List.◌++◌ ids (id ∷ [])) ∷ groups
    else (q, ids) ∷ add_to_prefix prefix id groups

-- the loop over the video ids that fills the map; `hash` is the prefix of an id's hash
unfoldable pub group_by_prefix : (hash : String → String) → List String → PrefixMap → PrefixMap
group_by_prefix hash [] groups = groups
group_by_prefix hash (id ∷ ids) groups =
    group_by_prefix hash ids (add_to_prefix (hash id) id groups)

-- the results of one lookup that were asked for
abbrev pub requested_of : List String → List VideoResult → List VideoResult
requested_of ids videos = keep (λ v. has v.video_id ids) videos

-- `videoIds.filter((id) => !cachedIds.has(id))`
abbrev pub misses_of : List CachedVideo → List String → List String
misses_of cached video_ids = keep (λ id. not (has id (map (λ v. v.video_id) cached))) video_ids

pub record Sender : Type 0 where
  pub id : Option String
  pub tab : Bool  -- whether the message comes from a content script in a tab

abbrev pub asks_for_user : Message → Bool
asks_for_user get_user_id = true
asks_for_user get_user_info = true
asks_for_user _ = false

unfoldable pub is_id : Option String → String → Bool
is_id none id = false
is_id (some sender) id = sender == id

-- `.then(sendResponse).catch(...)`
abbrev pub answered : Result MessageResponse × World → MessageResponse × World
answered (ok response, w) = (response, w)
answered (err message, w) = (failure message, w)

-- an asynchronous call whose failure is looked at later
abbrev settled : {A : Type 0} → M A → M (Result A)
settled m w = let (r, w') = m w in (ok r, w')

module _ (p : Platform) where
  public_user_id_or_new : Option String → M String
  public_user_id_or_new (some id) = pure id
  public_user_id_or_new none = do
    id ← Identity.get_public_user_id p
    modify (λ w. record w { cached_public_user_id = some id })
    pure id

  pub ensure_public_user_id : M String
  ensure_public_user_id w = public_user_id_or_new (truthy w.cached_public_user_id) w

  -- the loop over the videos of one lookup in CHECK_VIDEOS, with the results so far
  pub collect : (ids : List String) → List VideoResult → List VideoResult → M (List VideoResult)
  collect ids [] results = pure results
  collect ids (video ∷ videos) results =
      let rest = collect ids videos in
      if has video.video_id ids
      then Cache.put_video (cached_of_result video) >> rest (List.◌++◌ results (video ∷ []))
      else rest results

  -- One lookup of CHECK_VIDEOS. A failure is logged, and keeps the results so far: nothing after the
  -- request throws, so those are the results before it.
  pub check_prefix : String → List String → List VideoResult → M (List VideoResult)
  check_prefix prefix ids results =
      try_catch (do videos ← ApiClient.lookup_videos_by_prefix p prefix; collect ids videos results)
        λ message. pure results

  -- The lookups of CHECK_VIDEOS. They run at the same time; here one is done before the next starts.
  pub check_prefixes : PrefixMap → List VideoResult → M (List VideoResult)
  check_prefixes [] results = pure results
  check_prefixes ((prefix, ids) ∷ groups) results = do
    more ← check_prefix prefix ids results
    check_prefixes groups more

  pub prefix_of : String → String
  prefix_of video_id = Identity.hash_video_id p video_id 4

  pub check_all : List String → M (List CachedVideo)
  check_all video_ids = do
    cached ← Cache.get_videos video_ids
    results ← check_prefixes (group_by_prefix prefix_of (misses_of cached video_ids) []) []
    pure (List.◌++◌ cached (map cached_of_result results))

  -- What one lookup of LOOKUP_VIDEOS adds. `Promise.all` rejects with the first failure, but the other
  -- lookups go on; `rest` is the lookups that follow.
  after_lookup :
      (rest : Option String → List VideoResult → M (List VideoResult)) (ids : List String)
      → Option String
      → List VideoResult
      → Result (List VideoResult)
      → M (List VideoResult)
  after_lookup rest ids failed results (ok videos) =
      rest failed (List.◌++◌ results (requested_of ids videos))
  after_lookup rest ids none results (err message) = rest (some message) results
  after_lookup rest ids (some first) results (err message) = rest (some first) results

  -- The lookups of LOOKUP_VIDEOS, with the first failure and the results so far.
  pub lookup_prefixes : PrefixMap → Option String → List VideoResult → M (List VideoResult)
  lookup_prefixes [] none results = pure results
  lookup_prefixes [] (some first) results = throw first
  lookup_prefixes ((prefix, ids) ∷ groups) failed results = do
    answer ← settled (ApiClient.lookup_videos_by_prefix p prefix)
    after_lookup (lookup_prefixes groups) ids failed results answer

  pub submit_or_queue : (video_id category : String) → M MessageResponse
  submit_or_queue video_id category =
      try_catch
        (do
          user ← ensure_public_user_id
          result ← ApiClient.submit_vote p (record {
            video_id = video_id;
            category = category;
            user_id = user;
            user_agent = "RealTube/0.1.0 " ++ p.user_agent;
          })
          pure (success (voted result)))
        λ message. do
          OfflineQueue.enqueue_vote p video_id category
          pure (success (queued "Vote saved offline, will submit when connection is restored"))

  pub handle_message : Message → M MessageResponse
  handle_message get_user_id = do user ← ensure_public_user_id; pure (success (user_id user))
  handle_message get_user_info = do
    user ← ensure_public_user_id
    info ← ApiClient.get_user_info p user
    pure (success (user_info info))
  handle_message (check_videos video_ids) = do
    videos ← check_all video_ids
    pure (success (cached_videos videos))
  handle_message (lookup_videos video_ids) = do
    videos ← lookup_prefixes (group_by_prefix prefix_of video_ids []) none []
    pure (success (video_results videos))
  handle_message (submit_vote video_id category) = submit_or_queue video_id category
  handle_message (delete_vote video_id) = do
    user ← ensure_public_user_id
    ApiClient.delete_vote p video_id user
    pure (success nothing)
  handle_message sync_delta = do result ← Sync.perform_delta_sync p; pure (success (delta result))
  handle_message sync_full = do result ← Sync.perform_full_sync p; pure (success (full result))
  handle_message get_sync_status = do
    result ← Sync.get_sync_status
    pure (success (sync_status result))
  handle_message flush_pending_votes = do
    result ← OfflineQueue.flush_pending_votes p
    pure (success (flushed result))
  handle_message open_popup = pure (success nothing)
  handle_message get_status = do
    local_id ← Identity.get_local_id p
    sync ← Sync.get_sync_status
    pending ← OfflineQueue.get_pending_vote_count
    pure (
        success (
          status (record {
            version = "0.1.0";
            has_local_id = not (local_id == "");
            pending_vote_count = pending;
            sync = sync;
          })))
  handle_message (other type) = pure (failure ("Unknown message type: " ++ type))

  -- The listener of `chrome.runtime.onMessage`, with the answer that it sends.
  pub on_message : (runtime_id : String) → Sender → Message → World → MessageResponse × World
  on_message runtime_id sender message w =
      if not (is_id sender.id runtime_id)
      then (failure "Unauthorized sender", w)
      else if asks_for_user message && sender.tab
      then (failure "Not available from content scripts", w)
      else answered (handle_message message w)

  -- what the worker does when it is loaded
  pub start : M (Unit {0})
  start = do
    user ← ensure_public_user_id
    modify Sync.start_sync_schedule
    OfflineQueue.start_offline_queue_listener p
