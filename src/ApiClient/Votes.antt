-- ===== src/ApiClient/Votes.antt =====
-- What a submitted vote leaves in the trace: `submitVote` of api-client.ts.
use Prim.Native.String.{◌++◌}
use mathlib.Core.List
use real_tube.Prelude.{
  String, ◌≡◌, refl, sym, ap, ◌∙◌, true, not, Option, none, some, [], ◌∷◌, Bool-cases, inl, inr,
  if◌then◌else◌,
}
use real_tube.Prelude.Digits.{show}
use mathlib.Core.Path.{subst}
use real_tube.Records.{VoteRequest, VoteResponse}
use real_tube.Effects.{Result, ok, err, throw, continue, ◌>>=◌}
use real_tube.Browser.{
  Endpoint, Method, vote, Request, Response, Outcome, responded, rejected, requested, Trace,
  Platform, World, M, truthy,
}
use real_tube.ApiClient.{
  get_config, resolve_base_url, fetch_with_retry, submit_vote, is_ok, json, message_or,
}
use real_tube.ApiClient.Retry.{Settled, fetch_with_retry-Settled, settle}
use real_tube.ApiClient.Frame.{submit_vote-Keeps}

-- `t` is `s` with later events in front.
abbrev pub Extends : Trace → Trace → Type 0
Extends s t = (later : Trace) × (t ≡ List.◌++◌ later s)

pub Extends-trans : (s t u : Trace) → Extends s t → Extends t u → Extends s u
Extends-trans s t u (a, p) (b, q) =
    (List.◌++◌ b a, q ∙ ap (List.◌++◌ b) p ∙ sym (List.append_assoc b a s))

abbrev pub vote_post : String → VoteRequest → Request
vote_post url v = record { method = Method.post; url = url; body = vote v }

-- At some moment of the trace the vote was posted, and the server answered with success.
pub record IsPosted (p : Platform) (v : VoteRequest) (t : Trace) : Type 0 where
  pub url : String
  pub moment : Trace
  pub response : Response VoteResponse
  pub reached : Extends (requested (vote_post url v) ∷ moment) t
  pub answered :
      p.fetch Endpoint.submit_vote (requested (vote_post url v) ∷ moment) (vote_post url v)
      ≡ responded response
  pub succeeded : is_ok response ≡ true

-- At every moment the server answers a vote with success and a body that can be read.
abbrev pub Accepts : Platform → Type 0
Accepts p =
    (t : Trace) (req : Request)
    → (r : Response VoteResponse) × (a : VoteResponse) × (p.fetch Endpoint.submit_vote t req
        ≡ responded r)
      × (is_ok r ≡ true)
      × (r.json ≡ ok a)

module _ (p : Platform) (v : VoteRequest) where
  pub IsPosted-Extends : (s t : Trace) → IsPosted p v s → Extends s t → IsPosted p v t
  IsPosted-Extends s t h e = record {
    url = h.url;
    moment = h.moment;
    response = h.response;
    reached = Extends-trans _ s t h.reached e;
    answered = h.answered;
    succeeded = h.succeeded;
  }

  -- how `submitVote` reads the response
  read_vote : Response VoteResponse → M VoteResponse
  read_vote r =
      if not (is_ok r)
      then throw (message_or (truthy r.error_message) ("Vote failed: " ++ show r.status))
      else json r

  -- what a finished call says: the trace has grown, and a success was posted
  abbrev Concludes : Trace → Result VoteResponse × World → Type 0
  Concludes t (ok a, w₁) = Extends t w₁.trace × IsPosted p v w₁.trace
  Concludes t (err message, w₁) = Extends t w₁.trace

  Concludes-answer :
      (t : Trace) (r : Result VoteResponse) (w₁ : World)
      → Extends t w₁.trace
      → IsPosted p v w₁.trace
      → Concludes t (r, w₁)
  Concludes-answer t (ok a) w₁ e h = (e, h)
  Concludes-answer t (err message) w₁ e h = e

  read-Concludes :
      (url : String) (w : World) (earlier : Trace) (o : Outcome VoteResponse)
      → let t = requested (vote_post url v) ∷ List.◌++◌ earlier w.trace in
        p.fetch Endpoint.submit_vote t (vote_post url v) ≡ o
        → Concludes w.trace (continue (settle o) read_vote (record w { trace = t }))
  unfolding read_vote
  read-Concludes url w earlier (rejected message) e = (requested (vote_post url v) ∷ earlier, refl)
  read-Concludes url w earlier (responded r) e = elim (Bool-cases (is_ok r)) [
    | inl success ↦ rw success (
        Concludes-answer w.trace r.json _ (requested (vote_post url v) ∷ earlier, refl)
          (record {
            url = url;
            moment = List.◌++◌ earlier w.trace;
            response = r;
            reached = ([], refl);
            answered = e;
            succeeded = success;
          }))
    | inr failure ↦ rw failure (requested (vote_post url v) ∷ earlier, refl)
  ]

  call-Concludes :
      (url : String) (w : World) (x : Result (Response VoteResponse) × World)
      → Settled p Endpoint.submit_vote (vote_post url v) 4 w x
      → Concludes w.trace (continue x.0 read_vote x.1)
  call-Concludes url w x h = rw (h.answer, h.state) (read-Concludes url w h.earlier _ refl)

  resolved-Concludes :
      (cached : Option String) (w : World)
      → Concludes w.trace (
          continue
            (resolve_base_url cached w).0
            (λ base_url.
              fetch_with_retry p Endpoint.submit_vote (vote_post (base_url ++ "/api/votes") v)
              >>= read_vote)
            (resolve_base_url cached w).1)
  unfolding resolve_base_url
  resolved-Concludes (some url) w =
      call-Concludes (url ++ "/api/votes") w _
        (fetch_with_retry-Settled p Endpoint.submit_vote (vote_post (url ++ "/api/votes") v) w)
  resolved-Concludes none w =
      call-Concludes _ _ _ (fetch_with_retry-Settled p Endpoint.submit_vote _ _)

  submit_vote-Concludes : (w : World) → Concludes w.trace (submit_vote p v w)
  unfolding submit_vote get_config read_vote
  submit_vote-Concludes w = resolved-Concludes (truthy w.cached_base_url) w

  db_of_submit :
      (w : World) {r : Result VoteResponse} {w₁ : World}
      → submit_vote p v w ≡ (r, w₁)
      → w₁.db ≡ w.db
  db_of_submit w e =
      sym (ap (λ x. x.1.db) e)
      ∙ (submit_vote-Keeps {P = λ w'. w'.db ≡ w.db} (record { at = λ w' url t h. h }) p v).at w refl

  pub submit_vote-ok :
      (w : World) {w₁ : World} {a : VoteResponse}
      → submit_vote p v w ≡ (ok a, w₁)
      → Extends w.trace w₁.trace × IsPosted p v w₁.trace × (w₁.db ≡ w.db)
  submit_vote-ok w e =
      let (grown, posted) = subst (Concludes w.trace) e (submit_vote-Concludes w) in
      (grown, posted, db_of_submit w e)

  pub submit_vote-err :
      (w : World) {w₁ : World} {message : String}
      → submit_vote p v w ≡ (err message, w₁)
      → Extends w.trace w₁.trace × (w₁.db ≡ w.db)
  submit_vote-err w e = (subst (Concludes w.trace) e (submit_vote-Concludes w), db_of_submit w e)

  -- what an accepted submission answers
  read-accepted :
      (url : String) (w : World) (x : Result (Response VoteResponse) × World)
      → Accepts p
      → Settled p Endpoint.submit_vote (vote_post url v) 4 w x
      → (a : VoteResponse) × ((continue x.0 read_vote x.1).0 ≡ ok a)
  unfolding read_vote
  read-accepted url w x accepts h =
      let (r, a, e, success, body) =
        accepts (requested (vote_post url v) ∷ List.◌++◌ h.earlier w.trace) (vote_post url v) in
      (a, rw (h.answer, e, success, body) refl)

  resolved-accepted :
      (cached : Option String) (w : World)
      → Accepts p
      → (a : VoteResponse) × ((continue
            (resolve_base_url cached w).0
            (λ base_url.
              fetch_with_retry p Endpoint.submit_vote (vote_post (base_url ++ "/api/votes") v)
              >>= read_vote)
            (resolve_base_url cached w).1).0
          ≡ ok a)
  unfolding resolve_base_url
  resolved-accepted (some url) w accepts =
      read-accepted (url ++ "/api/votes") w _ accepts
        (fetch_with_retry-Settled p Endpoint.submit_vote (vote_post (url ++ "/api/votes") v) w)
  resolved-accepted none w accepts =
      read-accepted _ _ _ accepts (fetch_with_retry-Settled p Endpoint.submit_vote _ _)

  pub submit_vote-accepted :
      (w : World) → Accepts p → (a : VoteResponse) × ((submit_vote p v w).0 ≡ ok a)
  unfolding submit_vote get_config read_vote
  submit_vote-accepted w accepts = resolved-accepted (truthy w.cached_base_url) w accepts
