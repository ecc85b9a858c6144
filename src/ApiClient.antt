-- ===== src/ApiClient.antt =====
-- realtube-extension/src/background/api-client.ts: the base URL, `fetch` with retries, and a function
-- for each endpoint.
pub mod BaseUrl
pub mod Retry
pub mod Rounds
pub mod Frame
pub mod Votes
use Prim.Native.String.{◌++◌}
use text.Mathlib.Text.{starts_with}
use real_tube.Prelude.{
  ℕ, zero, suc, ◌+◌, ◌*◌, ◌^◌, String, ◌==◌, Bool, true, false, not, ◌&&◌, ◌||◌, Option, none, some,
  List, [], ◌∷◌, ltb, leb, ◌=ℕ◌, if◌then◌else◌,
}
use real_tube.Prelude.Digits.{show, parse_delay}
use real_tube.Prelude.Url.{encode_uri_component}
use real_tube.Records.{
  VoteRequest, VoteResponse, VideoResult, SyncDeltaResponse, SyncFullResponse, UserInfoResponse,
}
use real_tube.Effects.{Result, ok, err, pure, throw, gets, modify, ◌>>=◌, ◌>>◌}
use real_tube.Browser.{
  Endpoint, lookup_videos, user_info, Payload, Method, Body, empty, vote, vote_deletion, Request,
  Response, Outcome, responded, rejected, Event, requested, slept, Platform, World, M, truthy,
}

abbrev pub default_base_url : String
default_base_url = "http://localhost:8080"

abbrev pub max_retries : ℕ
max_retries = 3

abbrev pub base_delay_ms : ℕ
base_delay_ms = 1000

-- `/^http:\/\/localhost(:\d+)?/`: the group may match nothing, and nothing follows it
pub matches_localhost : String → Bool
matches_localhost url = starts_with url "http://localhost"

unfoldable pub is_accepted : String → Bool
unfolding matches_localhost
is_accepted url = starts_with url "https://" || matches_localhost url

-- `items.serverUrl || DEFAULT_BASE_URL`
abbrev pub configured : Option String → String
configured none = default_base_url
configured (some url) = url

chosen_url : Option String → String
chosen_url stored =
    let url = configured (truthy stored) in if is_accepted url then url else default_base_url

unfoldable pub resolve_base_url : Option String → M String
unfolding chosen_url
resolve_base_url (some url) w = (ok url, w)
resolve_base_url none w =
    let url = chosen_url w.server_url in (ok url, record w { cached_base_url = some url })

unfoldable pub get_config : M String
unfolding resolve_base_url
get_config w = resolve_base_url (truthy w.cached_base_url) w

-- The listener of `chrome.storage.onChanged`: a change of `serverUrl` in the area `sync` empties the
-- cache of the base URL.
unfoldable pub on_storage_changed : (area : String) (server_url_changed : Bool) → World → World
on_storage_changed area server_url_changed w =
    if area == "sync" && server_url_changed then record w { cached_base_url = none } else w

abbrev pub sleep : ℕ → M (Unit {0})
sleep ms = modify (λ w. record w { trace = slept ms ∷ w.trace })

-- the delay after a 429: `parseInt(retryAfter, 10) * 1000`, or the back-off
abbrev pub delay_after : Option String → ℕ → ℕ
delay_after none attempt = base_delay_ms * 2 ^ attempt
delay_after (some header) attempt = parse_delay header * 1000

module _ (p : Platform) where
  abbrev pub fetch : (e : Endpoint) → Request → M (Outcome (Payload e))
  fetch e req w =
      let trace = requested req ∷ w.trace in (ok (p.fetch e trace req), record w { trace = trace })

  -- one round of the loop, after its `fetch` has settled; `again` is the rest of the loop
  unfoldable pub next_attempt :
      {A : Type 0} (attempt retries : ℕ) → Outcome A → M (Response A) → M (Response A)
  next_attempt attempt retries (responded r) again =
      if r.status =ℕ 429 && ltb attempt retries
      then sleep (delay_after (truthy r.retry_after) attempt) >> again
      else pure r
  next_attempt attempt retries (rejected message) again =
      if ltb attempt retries then sleep (base_delay_ms * 2 ^ attempt) >> again else throw message

  -- the loop, with the rounds that are left
  unfoldable pub fetch_from :
      (rounds attempt retries : ℕ) (e : Endpoint) → Request → M (Response (Payload e))
  fetch_from zero attempt retries e req = throw "fetchWithRetry exhausted retries"
  fetch_from (suc rounds) attempt retries e req = do
    outcome ← fetch e req
    next_attempt attempt retries outcome (fetch_from rounds (attempt + 1) retries e req)

  unfoldable pub fetch_with_retry : (e : Endpoint) → Request → M (Response (Payload e))
  fetch_with_retry e req = fetch_from (suc max_retries) 0 max_retries e req

abbrev pub is_ok : {A : Type 0} → Response A → Bool
is_ok r = leb 200 r.status && ltb r.status 300

-- `response.json()`
abbrev pub json : {A : Type 0} → Response A → M A
json r w = (r.json, w)

-- `body?.error?.message || fallback`
abbrev pub message_or : Option String → String → String
message_or none fallback = fallback
message_or (some message) fallback = message

abbrev pub get_request : String → Request
get_request url = record { method = Method.get; url = url; body = empty }

module _ (p : Platform) where
  unfoldable pub lookup_videos_by_prefix : String → M (List VideoResult)
  lookup_videos_by_prefix hash_prefix = do
    base_url ← get_config
    let url = base_url ++ "/api/videos/" ++ encode_uri_component hash_prefix
    response ← fetch_with_retry p lookup_videos (get_request url)
    if response.status =ℕ 404
        then pure []
        else if not (is_ok response)
        then throw ("API error: " ++ show response.status)
        else json response

  unfoldable pub submit_vote : VoteRequest → M VoteResponse
  submit_vote request = do
    base_url ← get_config
    response ←
        fetch_with_retry p Endpoint.submit_vote
          (record { method = Method.post; url = base_url ++ "/api/votes"; body = vote request })
    if not (is_ok response)
        then throw
            (message_or (truthy response.error_message) ("Vote failed: " ++ show response.status))
        else json response

  unfoldable pub delete_vote : (video_id user_id : String) → M (Unit {0})
  delete_vote video_id user_id = do
    base_url ← get_config
    response ← fetch_with_retry p Endpoint.delete_vote (record {
      method = Method.delete;
      url = base_url ++ "/api/votes";
      body = vote_deletion video_id user_id;
    })
    if not (is_ok response)
        then throw (
            message_or (truthy response.error_message)
              ("Delete vote failed: " ++ show response.status))
        else pure tt

  unfoldable pub sync_delta : String → M SyncDeltaResponse
  sync_delta since = do
    base_url ← get_config
    let url = base_url ++ "/api/sync/delta?since=" ++ encode_uri_component since
    response ← fetch_with_retry p Endpoint.sync_delta (get_request url)
    if not (is_ok response)
        then throw ("Sync delta failed: " ++ show response.status)
        else json response

  unfoldable pub sync_full : M SyncFullResponse
  sync_full = do
    base_url ← get_config
    let url = base_url ++ "/api/sync/full"
    response ← fetch_with_retry p Endpoint.sync_full (get_request url)
    if not (is_ok response)
        then throw ("Sync full failed: " ++ show response.status)
        else json response

  unfoldable pub get_user_info : String → M UserInfoResponse
  get_user_info user_id = do
    base_url ← get_config
    let url = base_url ++ "/api/users/" ++ encode_uri_component user_id
    response ← fetch_with_retry p user_info (get_request url)
    if not (is_ok response)
        then throw ("User info failed: " ++ show response.status)
        else json response
