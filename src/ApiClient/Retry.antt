-- ===== src/ApiClient/Retry.antt =====
-- What `fetchWithRetry` does with any server and any network: how often it asks, which answer it
-- gives back, and how long it waits.
use real_tube.Prelude.{
  ℕ, zero, suc, ◌+◌, ◌*◌, ◌^◌, ◌≤◌, ◌<◌, ◌≡◌, refl, sym, ap, ◌⊎◌, Bool, true, false, ◌&&◌, none, [],
  ◌∷◌, ◌++◌, arith, All, All-append, Bool-cases, inl, inr, ltb, ◌=ℕ◌,
}
use mathlib.Core.List.{append_assoc}
use native.Mathlib.Nat.{pow-suc, pow-le-pow_right}
use native.Mathlib.Numerals.{add-one}
use real_tube.Effects.{Result, ok, err}
use real_tube.Browser.{
  Endpoint, Payload, Request, Response, Outcome, responded, rejected, Event, requested, slept,
  Trace, Platform, World, M, truthy,
}
use real_tube.ApiClient.{base_delay_ms, delay_after, next_attempt, fetch_from, fetch_with_retry}

-- A rejected `fetch` or a 429: what the loop tries again.
abbrev pub is_transient : {A : Type 0} → Outcome A → Bool
is_transient (responded r) = r.status =ℕ 429
is_transient (rejected message) = true

-- How an outcome is passed on to the caller.
abbrev pub settle : {A : Type 0} → Outcome A → Result (Response A)
settle (responded r) = ok r
settle (rejected message) = err message

abbrev pub requests : Trace → ℕ
requests [] = 0
requests (requested r ∷ t) = suc (requests t)
requests (slept ms ∷ t) = requests t

abbrev pub waited : Trace → ℕ
waited [] = 0
waited (requested r ∷ t) = waited t
waited (slept ms ∷ t) = ms + waited t

abbrev pub IsRetry : Request → Event → Type 0
IsRetry req (requested r) = r ≡ req
IsRetry req (slept ms) = Unit

-- The loop ended after at most `limit` requests, all of them `req`: `earlier` is what happened
-- before the last one. The answer is the last outcome, and nothing but the trace has changed. If
-- that outcome is one to try again, then `limit` requests have been made.
pub record Settled (p : Platform) (e : Endpoint) (req : Request) (limit : ℕ) (w : World)
    (x : Result (Response (Payload e)) × World) : Type 0 where
  pub earlier : Trace
  pub state : x.1 ≡ record w { trace = requested req ∷ earlier ++ w.trace }
  pub answer : x.0 ≡ settle (p.fetch e (requested req ∷ earlier ++ w.trace) req)
  pub same : All (IsRetry req) earlier
  pub at_most : requests earlier < limit
  pub persists :
      (is_transient (p.fetch e (requested req ∷ earlier ++ w.trace) req) ≡ false)
      ⊎ (suc (requests earlier) ≡ limit)

requests-append : (s t : Trace) → requests (s ++ t) ≡ requests s + requests t
requests-append [] t = omega arith
requests-append (requested r ∷ s) t = omega (arith, requests-append s t)
requests-append (slept ms ∷ s) t = requests-append s t

longer :
    {B : Bool} {n m limit : ℕ}
    → (B ≡ false) ⊎ (suc n ≡ limit)
    → m ≡ n + 1
    → (B ≡ false) ⊎ (suc m ≡ suc limit)
longer (inl settled) e = inl settled
longer (inr all_made) e = inr (omega arith)

module _ (p : Platform) (e : Endpoint) (req : Request) where
  -- One more round before the others.
  Settled-again :
      (limit ms : ℕ) (w : World) (x : Result (Response (Payload e)) × World)
      → Settled p e req limit (record w { trace = slept ms ∷ requested req ∷ w.trace }) x
      → Settled p e req (suc limit) w x
  Settled-again limit ms w x h =
      let assoc : h.earlier ++ slept ms ∷ requested req ∷ w.trace
          ≡ (h.earlier ++ slept ms ∷ requested req ∷ []) ++ w.trace =
        sym (append_assoc h.earlier _ _) in
      record {
        earlier = h.earlier ++ slept ms ∷ requested req ∷ [];
        state = rw (← assoc) h.state;
        answer = rw (← assoc) h.answer;
        same = All-append (IsRetry req) h.earlier _ h.same (tt, (refl, tt));
        at_most =
            omega (arith, h.at_most, requests-append h.earlier (slept ms ∷ requested req ∷ []));
        persists =
            rw (← assoc)
              (longer h.persists (requests-append h.earlier (slept ms ∷ requested req ∷ [])));
      }

  Settled-now :
      (limit : ℕ) (w : World) (x : Result (Response (Payload e)) × World)
      → x ≡ (
        settle (p.fetch e (requested req ∷ w.trace) req),
        record w { trace = requested req ∷ w.trace },
      )
      → 0 < limit
      → (is_transient (p.fetch e (requested req ∷ w.trace) req) ≡ false) ⊎ (1 ≡ limit)
      → Settled p e req limit w x
  Settled-now limit w x same pos last = record {
    earlier = [];
    state = ap (λ y. y.1) same;
    answer = ap (λ y. y.0) same;
    same = tt;
    at_most = pos;
    persists = last;
  }

  abbrev after_request : World → World
  after_request w = record w { trace = requested req ∷ w.trace }

  abbrev after_wait : ℕ → World → World
  after_wait ms w = record w { trace = slept ms ∷ requested req ∷ w.trace }

  module _ (rounds attempt retries : ℕ) (w : World) (again : M (Response (Payload e)))
      (left : attempt + rounds ≡ retries)
      (ih : (ms : ℕ)
        → 0 < rounds
        → Settled p e req rounds (after_wait ms w) (again (after_wait ms w))) where
    next_attempt-Settled :
        (o : Outcome (Payload e))
        → p.fetch e (requested req ∷ w.trace) req ≡ o
        → Settled p e req (suc rounds) w (next_attempt p attempt retries o again (after_request w))
    unfolding next_attempt
    next_attempt-Settled (responded r) e₁ = elim (Bool-cases (r.status =ℕ 429)) [
      | inr fine ↦ rw fine (Settled-now (suc rounds) w _ (rw e₁) (omega arith) (rw e₁ (inl fine)))
      | inl busy ↦ elim (Bool-cases (ltb attempt retries)) [
        | inl more ↦
            rw (busy, more)
              (Settled-again rounds _ w _
                (ih (delay_after (truthy r.retry_after) attempt) (ground arith)))
        | inr last ↦
            rw (busy, last)
              (Settled-now (suc rounds) w _ (rw e₁) (omega arith) (inr (ground arith)))
      ]
    ]
    next_attempt-Settled (rejected message) e₁ = elim (Bool-cases (ltb attempt retries)) [
      | inl more ↦
          rw more (Settled-again rounds _ w _ (ih (base_delay_ms * 2 ^ attempt) (ground arith)))
      | inr last ↦ rw last (Settled-now (suc rounds) w _ (rw e₁) (omega arith) (inr (ground arith)))
    ]

  fetch_from-Settled :
      (rounds attempt retries : ℕ) (w : World)
      → attempt + rounds ≡ retries
      → Settled p e req (suc rounds) w (fetch_from p (suc rounds) attempt retries e req w)
  unfolding fetch_from
  fetch_from-Settled zero attempt retries w left =
      next_attempt-Settled zero attempt retries w _ left (λ ms h. absurd (omega arith))
        (p.fetch e (requested req ∷ w.trace) req) refl
  fetch_from-Settled (suc rounds) attempt retries w left =
      next_attempt-Settled (suc rounds) attempt retries w _ left
        (λ ms _. fetch_from-Settled rounds (attempt + 1) retries (after_wait ms w) (omega arith))
        (p.fetch e (requested req ∷ w.trace) req) refl

  -- Whatever the server and the network do, `fetchWithRetry` makes between one and four requests,
  -- all of them the same, and changes nothing but the trace. It returns or throws the last outcome.
  -- If that is a 429 or a failed `fetch`, all four requests have been made.
  pub fetch_with_retry-Settled : (w : World) → Settled p e req 4 w (fetch_with_retry p e req w)
  unfolding fetch_with_retry
  fetch_with_retry-Settled w = fetch_from-Settled 3 0 3 w refl

-- no response carries the header `Retry-After`
abbrev pub NoRetryAfter : Platform → Endpoint → Request → Type 0
NoRetryAfter p e req =
    (t : Trace) (r : Response (Payload e))
    → p.fetch e t req ≡ responded r
    → truthy r.retry_after ≡ none

double_pow : (n : ℕ) → 2 ^ (n + 1) ≡ 2 ^ n * 2
double_pow n = rw add-one (pow-suc 2 n)

module _ {A : Type 0} (attempt retries : ℕ) (le : attempt ≤ retries) (m : M A) (w : World)
    (ih : waited (m (record w { trace = slept (base_delay_ms * 2 ^ attempt) ∷ w.trace })).1.trace
        + 1000 * 2 ^ (attempt + 1)
      ≤ base_delay_ms * 2 ^ attempt + waited w.trace + 1000 * 2 ^ retries) where
  wait_more :
      waited (m (record w { trace = slept (base_delay_ms * 2 ^ attempt) ∷ w.trace })).1.trace
        + 1000 * 2 ^ attempt
      ≤ waited w.trace + 1000 * 2 ^ retries
  wait_more = omega (arith, double_pow attempt)

no_wait : (a n m : ℕ) → n ≤ m → a + 1000 * 2 ^ n ≤ a + 1000 * 2 ^ m
no_wait a n m le = omega (arith, pow-le-pow_right {n = 2} (omega arith) le)

module _ (p : Platform) (e : Endpoint) (req : Request) (plain : NoRetryAfter p e req) where
  module _ (attempt retries : ℕ) (le : attempt ≤ retries) (again : M (Response (Payload e)))
      (w : World)
      (ih : attempt < retries
        → waited
              (again (record w { trace = slept (base_delay_ms * 2 ^ attempt) ∷ w.trace })).1.trace
            + 1000 * 2 ^ (attempt + 1)
          ≤ base_delay_ms * 2 ^ attempt + waited w.trace + 1000 * 2 ^ retries) where
    next_attempt-waited :
        (o : Outcome (Payload e))
        → p.fetch e w.trace req ≡ o
        → waited (next_attempt p attempt retries o again w).1.trace + 1000 * 2 ^ attempt
          ≤ waited w.trace + 1000 * 2 ^ retries
    unfolding next_attempt
    next_attempt-waited (responded r) e₁ =
        elim (Bool-cases (r.status =ℕ 429 && ltb attempt retries)) [
          | inr done ↦ rw done (no_wait _ attempt retries le)
          | inl more ↦
              rw (more, plain w.trace r e₁)
                (wait_more attempt retries le again w (ih (ground arith)))
        ]
    next_attempt-waited (rejected message) e₁ = elim (Bool-cases (ltb attempt retries)) [
      | inr done ↦ rw done (no_wait _ attempt retries le)
      | inl more ↦ rw more (wait_more attempt retries le again w (ih (ground arith)))
    ]

  fetch_from-waited :
      (rounds attempt retries : ℕ) (w : World)
      → attempt + rounds ≡ retries
      → waited (fetch_from p (suc rounds) attempt retries e req w).1.trace + 1000 * 2 ^ attempt
        ≤ waited w.trace + 1000 * 2 ^ retries
  unfolding fetch_from
  fetch_from-waited zero attempt retries w left =
      next_attempt-waited attempt retries (omega arith) _
        (record w { trace = requested req ∷ w.trace }) (λ h. absurd (omega arith))
        (p.fetch e (requested req ∷ w.trace) req) refl
  fetch_from-waited (suc rounds) attempt retries w left =
      next_attempt-waited attempt retries (omega arith) _
        (record w { trace = requested req ∷ w.trace })
        (λ h. fetch_from-waited rounds (attempt + 1) retries _ (omega arith))
        (p.fetch e (requested req ∷ w.trace) req) refl

  -- Where no response carries a `Retry-After` header, a call waits for at most seven seconds in all.
  pub waited-fetch_with_retry :
      (w : World) → waited (fetch_with_retry p e req w).1.trace ≤ waited w.trace + 7000
  unfolding fetch_with_retry
  waited-fetch_with_retry w = omega (arith, fetch_from-waited 3 0 3 w refl)
