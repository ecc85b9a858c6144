-- ===== src/ApiClient/BaseUrl.antt =====
-- Which server the extension talks to: the check on the configured URL in `getConfig`, and the
-- invariant that every request goes to an accepted base URL.
use Prim.Native.String.{◌++◌}
use text.Mathlib.Text.{starts_with}
use text.Mathlib.TextEquality.{starts_with_iff}
use text.Mathlib.TextLemmas.{append_assoc}
use text.Mathlib.TextPositions.{starts_with_of_prefix}
use real_tube.Prelude.{
  ℕ, zero, suc, ◌+◌, String, ◌≡◌, refl, not, sym, ap, ◌∙◌, Bool, true, ◌&&◌, ltb, ◌=ℕ◌, Option,
  none, some, [], arith, All, Bool-cases, inl, inr, if◌then◌else◌,
}
use real_tube.Effects.{ok, pure, throw, ◌>>=◌}
use real_tube.Records.{VoteRequest}
use real_tube.Prelude.Url.{encode_uri_component}
use real_tube.Effects.Keeps.{Keeps, Keeps-bind, Keeps-if, Keeps-pure, Keeps-throw}
use real_tube.Browser.{
  Endpoint, lookup_videos, user_info, Payload, Method, vote, vote_deletion, Request, Response,
  Outcome, responded, rejected, Event, requested, slept, Platform, World, M, truthy,
}
use real_tube.ApiClient.{
  default_base_url, is_accepted, configured, chosen_url, resolve_base_url, get_config, sleep,
  next_attempt, fetch_from, fetch_with_retry, json, is_ok, get_request, max_retries,
  lookup_videos_by_prefix, submit_vote, delete_vote, sync_delta, sync_full, get_user_info,
}

-- A URL of an accepted server: `https`, or `http` on a host whose name begins with localhost.
abbrev pub IsAccepted : String → Type 0
IsAccepted url = is_accepted url ≡ true

starts_with-extend : (s t u : String) → starts_with s u ≡ true → starts_with (s ++ t) u ≡ true
starts_with-extend s t u h =
    let (rest, e) = (starts_with_iff s u).0 h in
    starts_with_of_prefix u (s ++ t) (rest ++ t, sym (append_assoc u rest t) ∙ ap (λ v. v ++ t) e)

pub IsAccepted-append : (base path : String) → IsAccepted base → IsAccepted (base ++ path)
unfolding is_accepted
IsAccepted-append base path h = ground (
  arith,
  starts_with-extend base path "https://",
  starts_with-extend base path "http://localhost",
)

abbrev GoesToAccepted : Event → Type 0
GoesToAccepted (requested r) = IsAccepted r.url
GoesToAccepted (slept ms) = Unit

abbrev IsAcceptedOrEmpty : Option String → Type 0
IsAcceptedOrEmpty none = Unit
IsAcceptedOrEmpty (some url) = IsAccepted url

-- The cached base URL is accepted, and so is the URL of every request so far.
pub record IsSecure (w : World) : Type 0 where
  pub cached : IsAcceptedOrEmpty w.cached_base_url
  pub requests : All GoesToAccepted w.trace

IsAcceptedOrEmpty-truthy :
    (stored : Option String) → IsAcceptedOrEmpty stored → IsAcceptedOrEmpty (truthy stored)
IsAcceptedOrEmpty-truthy none h = tt
IsAcceptedOrEmpty-truthy (some String.[]) h = tt
IsAcceptedOrEmpty-truthy (some (String.◌∷◌ c s)) h = h

default-IsAccepted : IsAccepted default_base_url
unfolding is_accepted
default-IsAccepted = refl

chosen_url-IsAccepted : (stored : Option String) → IsAccepted (chosen_url stored)
unfolding chosen_url
chosen_url-IsAccepted stored = elim (Bool-cases (is_accepted (configured (truthy stored)))) [
  | inl accepted ↦ rw accepted accepted
  | inr refused ↦ rw refused default-IsAccepted
]

resolve_base_url-IsSecure :
    (cached : Option String) (w : World)
    → IsAcceptedOrEmpty cached
    → IsSecure w
    → (url : String) × ((resolve_base_url cached w).0 ≡ ok url)
      × IsAccepted url
      × IsSecure (resolve_base_url cached w).1
unfolding resolve_base_url
resolve_base_url-IsSecure (some url) w a h = (url, refl, a, h)
resolve_base_url-IsSecure none w a h = (
  chosen_url w.server_url,
  refl,
  chosen_url-IsAccepted w.server_url,
  record { cached = chosen_url-IsAccepted w.server_url; requests = h.requests },
)

pub get_config-IsSecure :
    (w : World)
    → IsSecure w
    → (url : String) × ((get_config w).0 ≡ ok url) × IsAccepted url × IsSecure (get_config w).1
unfolding get_config
get_config-IsSecure w h =
    resolve_base_url-IsSecure (truthy w.cached_base_url) w
      (IsAcceptedOrEmpty-truthy w.cached_base_url h.cached) h

-- What follows `getConfig` may use that the base URL is accepted.
pub Keeps-get_config :
    {A : Type 0} (f : String → M A)
    → ((url : String) → IsAccepted url → Keeps IsSecure (f url))
    → Keeps IsSecure (get_config >>= f)
Keeps-get_config f kf = record {
  at = λ w h.
      let (url, e, a, h') = get_config-IsSecure w h in rw e ((kf url a).at (get_config w).1 h');
}

sleep-IsSecure : (ms : ℕ) → Keeps IsSecure (sleep ms)
sleep-IsSecure ms = record { at = λ w h. record { cached = h.cached; requests = (tt, h.requests) } }

module _ (p : Platform) where
  next_attempt-IsSecure :
      {A : Type 0} (attempt retries : ℕ) (o : Outcome A) (again : M (Response A))
      → Keeps IsSecure again
      → Keeps IsSecure (next_attempt p attempt retries o again)
  unfolding next_attempt
  next_attempt-IsSecure attempt retries (responded r) again k =
      Keeps-if (r.status =ℕ 429 && ltb attempt retries) _ _
        (Keeps-bind (sleep _) (λ _. again) (sleep-IsSecure _) (λ _. k)) (Keeps-pure r)
  next_attempt-IsSecure attempt retries (rejected message) again k =
      Keeps-if (ltb attempt retries) _ _
        (Keeps-bind (sleep _) (λ _. again) (sleep-IsSecure _) (λ _. k)) (Keeps-throw message)

  fetch_from-IsSecure :
      (rounds attempt retries : ℕ) (e : Endpoint) (req : Request)
      → IsAccepted req.url
      → Keeps IsSecure (fetch_from p rounds attempt retries e req)
  unfolding fetch_from
  fetch_from-IsSecure zero attempt retries e req a = Keeps-throw _
  fetch_from-IsSecure (suc rounds) attempt retries e req a = record {
    at = λ w h.
        (next_attempt-IsSecure attempt retries _ _
            (fetch_from-IsSecure rounds (attempt + 1) retries e req a)).at
          _ (record { cached = h.cached; requests = (a, h.requests) });
  }

  fetch_with_retry-IsSecure :
      (e : Endpoint) (req : Request)
      → IsAccepted req.url
      → Keeps IsSecure (fetch_with_retry p e req)
  unfolding fetch_with_retry
  fetch_with_retry-IsSecure e req a = fetch_from-IsSecure (suc max_retries) 0 max_retries e req a

  -- an endpoint: a request below the base URL, and a reading of the response
  call-IsSecure :
      {A : Type 0} (e : Endpoint) (req : String → Request) (path : String)
      → ((url : String) → (req url).url ≡ url ++ path)
      → (read : Response (Payload e) → M A) → ((r : Response (Payload e)) → Keeps IsSecure (read r))
      → Keeps IsSecure (get_config >>= λ url. fetch_with_retry p e (req url) >>= read)
  call-IsSecure e req path at_path read kr =
      Keeps-get_config (λ url. fetch_with_retry p e (req url) >>= read)
        λ url a.
          Keeps-bind (fetch_with_retry p e (req url)) read
            (fetch_with_retry-IsSecure e (req url)
              (rw (at_path url) (IsAccepted-append url path a)))
            kr

  json-IsSecure : {A : Type 0} (r : Response A) → Keeps IsSecure (json r)
  json-IsSecure r = record { at = λ w h. h }

  checked-IsSecure :
      {A : Type 0} (failed : Bool) (message : String) (m : M A)
      → Keeps IsSecure m
      → Keeps IsSecure (if failed then throw message else m)
  checked-IsSecure failed message m k = Keeps-if failed (throw message) m (Keeps-throw message) k

  pub lookup_videos_by_prefix-IsSecure :
      (prefix : String) → Keeps IsSecure (lookup_videos_by_prefix p prefix)
  unfolding lookup_videos_by_prefix
  lookup_videos_by_prefix-IsSecure prefix =
      call-IsSecure lookup_videos
        (λ url. get_request (url ++ ("/api/videos/" ++ encode_uri_component prefix)))
        ("/api/videos/" ++ encode_uri_component prefix) (λ url. refl) _
        λ r.
          Keeps-if (r.status =ℕ 404) (pure []) _ (Keeps-pure [])
            (checked-IsSecure (not (is_ok r)) _ _ (json-IsSecure r))

  pub submit_vote-IsSecure : (v : VoteRequest) → Keeps IsSecure (submit_vote p v)
  unfolding submit_vote
  submit_vote-IsSecure v =
      call-IsSecure Endpoint.submit_vote
        (λ url. record { method = Method.post; url = url ++ "/api/votes"; body = vote v })
        "/api/votes" (λ url. refl) _ λ r. checked-IsSecure (not (is_ok r)) _ _ (json-IsSecure r)

  pub delete_vote-IsSecure :
      (video_id user_id : String) → Keeps IsSecure (delete_vote p video_id user_id)
  unfolding delete_vote
  delete_vote-IsSecure video_id user_id =
      call-IsSecure Endpoint.delete_vote
        (λ url. record {
          method = Method.delete;
          url = url ++ "/api/votes";
          body = vote_deletion video_id user_id;
        })
        "/api/votes" (λ url. refl) _ λ r. checked-IsSecure (not (is_ok r)) _ _ (Keeps-pure tt)

  pub sync_delta-IsSecure : (since : String) → Keeps IsSecure (sync_delta p since)
  unfolding sync_delta
  sync_delta-IsSecure since =
      call-IsSecure Endpoint.sync_delta
        (λ url. get_request (url ++ ("/api/sync/delta?since=" ++ encode_uri_component since)))
        ("/api/sync/delta?since=" ++ encode_uri_component since) (λ url. refl) _
        λ r. checked-IsSecure (not (is_ok r)) _ _ (json-IsSecure r)

  pub sync_full-IsSecure : Keeps IsSecure (sync_full p)
  unfolding sync_full
  sync_full-IsSecure =
      call-IsSecure Endpoint.sync_full (λ url. get_request (url ++ "/api/sync/full"))
        "/api/sync/full" (λ url. refl) _ λ r. checked-IsSecure (not (is_ok r)) _ _ (json-IsSecure r)

  pub get_user_info-IsSecure : (user_id : String) → Keeps IsSecure (get_user_info p user_id)
  unfolding get_user_info
  get_user_info-IsSecure user_id =
      call-IsSecure user_info
        (λ url. get_request (url ++ ("/api/users/" ++ encode_uri_component user_id)))
        ("/api/users/" ++ encode_uri_component user_id) (λ url. refl) _
        λ r. checked-IsSecure (not (is_ok r)) _ _ (json-IsSecure r)
