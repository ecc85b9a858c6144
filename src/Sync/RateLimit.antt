-- ===== src/Sync/RateLimit.antt =====
-- `err.message.includes("429")` of sync.ts, on the messages that api-client.ts throws.
use Prim.Native.String.{◌++◌}
use real_tube.Prelude.{
  ℕ, ◌<◌, ◌≡◌, refl, Bool, true, false, ◌&&◌, arith, ◌=ℕ◌, all_below, all_below_sound,
}
use real_tube.Prelude.Digits.{show}
use real_tube.Sync.{is_rate_limit}

abbrev same : Bool → Bool → Bool
same true b = b
same false true = false
same false false = true

agrees : ℕ → Bool
agrees status =
    same (is_rate_limit ("Sync delta failed: " ++ show status)) (status =ℕ 429)
    && same (is_rate_limit ("Sync full failed: " ++ show status)) (status =ℕ 429)

table : all_below 1000 agrees ≡ true
unfolding agrees is_rate_limit show
table = refl

-- Of the errors that a sync throws for an HTTP status of at most three digits, those for status 429
-- count as a rate limit, and no others.
pub is_rate_limit_lem :
    (status : ℕ)
    → status < 1000
    → (is_rate_limit ("Sync delta failed: " ++ show status) ≡ (status =ℕ 429))
      × (is_rate_limit ("Sync full failed: " ++ show status) ≡ (status =ℕ 429))
unfolding agrees
is_rate_limit_lem status h = ground (arith, all_below_sound 1000 agrees status table h)
