-- ===== src/ApiClient/Rounds.antt =====
-- The loop of `fetchWithRetry` in realtube-extension/src/background/api-client.ts ends by itself.
use real_tube.Prelude.{
  ℕ, zero, suc, ◌+◌, ◌≤◌, ◌<◌, ◌≡◌, refl, ap, ◌∙◌, Bool, true, false, arith, ltb, ◌=ℕ◌, ◌&&◌,
  if◌then◌else◌,
}
use real_tube.Browser.{
  Endpoint, Request, Response, Outcome, responded, rejected, Platform, World, M,
}
use real_tube.ApiClient.{next_attempt, fetch_from, fetch_with_retry}

-- a step that is taken under a test alone
if-cong :
    {X : Type 0} (b : Bool) (m m' n : M X) (w : World)
    → (b ≡ true → m w ≡ m' w)
    → (if b then m else n) w ≡ (if b then m' else n) w
if-cong true m m' n w h = h refl
if-cong false m m' n w h = refl

module _ (p : Platform) where
  -- The round after this one matters only where there may be one.
  next_attempt-cong :
      {A : Type 0} (attempt retries : ℕ) (outcome : Outcome A) (again again' : M (Response A))
      → (ltb attempt retries ≡ true → (w : World) → again w ≡ again' w)
      → (w : World)
      → next_attempt p attempt retries outcome again w
        ≡ next_attempt p attempt retries outcome again' w
  unfolding next_attempt
  next_attempt-cong attempt retries (responded r) again again' h w =
      if-cong (r.status =ℕ 429 && ltb attempt retries) _ _ _ w λ e. h (ground (arith, e)) _
  next_attempt-cong attempt retries (rejected message) again again' h w =
      if-cong (ltb attempt retries) _ _ _ w λ e. h e _

  module _ (retries : ℕ) (e : Endpoint) (req : Request) where
    -- with a round for every attempt up to `retries`, further rounds change nothing
    pub fetch_from_ends :
        (rounds attempt more : ℕ)
        → attempt ≤ retries
        → retries < rounds + attempt
        → (w : World)
        → fetch_from p (rounds + more) attempt retries e req w
          ≡ fetch_from p rounds attempt retries e req w
    unfolding fetch_from
    fetch_from_ends zero attempt more at enough w = absurd (omega (arith, at, enough))
    fetch_from_ends (suc rounds) attempt more at enough w =
        let one_more : suc rounds + more ≡ suc (rounds + more) = omega arith in
        ap (λ n. fetch_from p n attempt retries e req w) one_more
        ∙ next_attempt-cong attempt retries _ _ _
            (λ again.
              fetch_from_ends rounds (attempt + 1) more (ground (arith, again))
                (omega (arith, enough)))
            _

-- The four rounds of `fetchWithRetry` are enough: with any number of further rounds a call gives the
-- same answer and leaves the same state, whatever the server and the network do.
pub fetch_with_retry-ends :
    (p : Platform) (e : Endpoint) (req : Request) (more : ℕ) (w : World)
    → fetch_from p (4 + more) 0 3 e req w ≡ fetch_with_retry p e req w
unfolding fetch_with_retry
fetch_with_retry-ends p e req more w =
    fetch_from_ends p 3 e req 4 0 more (omega arith) (omega arith) w
