-- ===== src/ApiClient/Frame.antt =====
-- The functions of api-client.ts change nothing but the cached base URL and the trace.
use real_tube.Prelude.{String, ◌≡◌, refl, Bool, not, Option, none, some, [], ◌=ℕ◌, if◌then◌else◌}
use real_tube.Records.{VoteRequest}
use real_tube.Effects.{pure, throw, ◌>>=◌}
use real_tube.Effects.Keeps.{Keeps, Keeps-bind, Keeps-if, Keeps-pure, Keeps-throw}
use real_tube.Browser.{Endpoint, Payload, Request, Response, Trace, Platform, World, M, truthy}
use real_tube.ApiClient.{
  resolve_base_url, get_config, fetch_with_retry, json, is_ok, lookup_videos_by_prefix, submit_vote,
  delete_vote, sync_delta, sync_full, get_user_info,
}
use real_tube.ApiClient.Retry.{fetch_with_retry-Settled}

resolve_base_url-state :
    (cached : Option String) (w : World)
    → (url : Option String) × ((resolve_base_url cached w).1 ≡ record w { cached_base_url = url })
unfolding resolve_base_url
resolve_base_url-state (some url) w = (w.cached_base_url, refl)
resolve_base_url-state none w = (_, refl)

pub get_config-state :
    (w : World) → (url : Option String) × ((get_config w).1 ≡ record w { cached_base_url = url })
unfolding get_config
get_config-state w = resolve_base_url-state (truthy w.cached_base_url) w

-- `P` does not look at what the API client writes.
pub record IsFramed (P : World → Type 0) : Type 0 where
  pub at :
      (w : World) (url : Option String) (t : Trace)
      → P w
      → P (record w { cached_base_url = url; trace = t })

module _ {P : World → Type 0} (framed : IsFramed P) where
  resolve_base_url-Keeps : (url : Option String) (w : World) → P w → P (resolve_base_url url w).1
  unfolding resolve_base_url
  resolve_base_url-Keeps (some url) w h = h
  resolve_base_url-Keeps none w h = framed.at w _ w.trace h

  get_config-Keeps : Keeps P get_config
  unfolding get_config
  get_config-Keeps = record { at = λ w h. resolve_base_url-Keeps (truthy w.cached_base_url) w h }

  module _ (p : Platform) where
    fetch_with_retry-Keeps : (e : Endpoint) (req : Request) → Keeps P (fetch_with_retry p e req)
    fetch_with_retry-Keeps e req = record {
      at = λ w h.
          let settled = fetch_with_retry-Settled p e req w in
          rw settled.state (framed.at w w.cached_base_url _ h);
    }

    call-Keeps :
        {A : Type 0} (e : Endpoint) (req : String → Request) (read : Response (Payload e) → M A)
        → ((r : Response (Payload e)) → Keeps P (read r))
        → Keeps P (get_config >>= λ url. fetch_with_retry p e (req url) >>= read)
    call-Keeps e req read kr =
        Keeps-bind get_config (λ url. fetch_with_retry p e (req url) >>= read) get_config-Keeps
          λ url.
            Keeps-bind (fetch_with_retry p e (req url)) read (fetch_with_retry-Keeps e (req url)) kr

    json-Keeps : {A : Type 0} (r : Response A) → Keeps P (json r)
    json-Keeps r = record { at = λ w h. h }

    checked-Keeps :
        {A : Type 0} (failed : Bool) (message : String) (m : M A)
        → Keeps P m
        → Keeps P (if failed then throw message else m)
    checked-Keeps failed message m k = Keeps-if failed (throw message) m (Keeps-throw message) k

    pub lookup_videos_by_prefix-Keeps : (s : String) → Keeps P (lookup_videos_by_prefix p s)
    unfolding lookup_videos_by_prefix
    lookup_videos_by_prefix-Keeps s = call-Keeps Endpoint.lookup_videos _ _ λ r.
        Keeps-if (r.status =ℕ 404) (pure []) _ (Keeps-pure [])
          (checked-Keeps (not (is_ok r)) _ _ (json-Keeps r))

    pub submit_vote-Keeps : (v : VoteRequest) → Keeps P (submit_vote p v)
    unfolding submit_vote
    submit_vote-Keeps v =
        call-Keeps Endpoint.submit_vote _ _ λ r. checked-Keeps (not (is_ok r)) _ _ (json-Keeps r)

    pub delete_vote-Keeps : (video_id user_id : String) → Keeps P (delete_vote p video_id user_id)
    unfolding delete_vote
    delete_vote-Keeps video_id user_id =
        call-Keeps Endpoint.delete_vote _ _ λ r. checked-Keeps (not (is_ok r)) _ _ (Keeps-pure tt)

    pub sync_delta-Keeps : (since : String) → Keeps P (sync_delta p since)
    unfolding sync_delta
    sync_delta-Keeps since =
        call-Keeps Endpoint.sync_delta _ _ λ r. checked-Keeps (not (is_ok r)) _ _ (json-Keeps r)

    pub sync_full-Keeps : Keeps P (sync_full p)
    unfolding sync_full
    sync_full-Keeps =
        call-Keeps Endpoint.sync_full _ _ λ r. checked-Keeps (not (is_ok r)) _ _ (json-Keeps r)

    pub get_user_info-Keeps : (user_id : String) → Keeps P (get_user_info p user_id)
    unfolding get_user_info
    get_user_info-Keeps user_id =
        call-Keeps Endpoint.user_info _ _ λ r. checked-Keeps (not (is_ok r)) _ _ (json-Keeps r)
