-- ===== src/Popup/Helpers/Ago.antt =====
-- What `formatTimeAgo` of realtube-extension/src/popup/popup.tsx says of a time that has passed.
use real_tube.Prelude.{
  ℕ, ◌+◌, ◌*◌, ◌/◌, ◌-◌, ◌≤◌, ◌<◌, ◌≡◌, if-both, ltb, Option, some, String, arith,
}
use real_tube.Browser.{truthy}
use real_tube.Popup.Helpers.{
  TimeAgo, never, just_now, nan_days, minutes, hours, days, ago, time_ago, format_time_ago,
}

-- What each text says of the milliseconds that have passed: the number that is shown is that of the
-- whole units, and the unit is the largest of which there is one.
abbrev pub Says : TimeAgo → (elapsed : ℕ) → Type 0
Says never elapsed = ⊥
Says nan_days elapsed = ⊥
Says just_now elapsed = elapsed < 60000
Says (minutes n) elapsed = (1 ≤ n) × (n < 60) × (n * 60000 ≤ elapsed) × (elapsed < (n + 1) * 60000)
Says (hours n) elapsed =
    (1 ≤ n) × (n < 24) × (n * 3600000 ≤ elapsed) × (elapsed < (n + 1) * 3600000)
Says (days n) elapsed = (1 ≤ n) × (n * 86400000 ≤ elapsed) × (elapsed < (n + 1) * 86400000)

ago-Says : (now date : ℕ) → Says (ago now (some date)) (now - date)
unfolding ago
ago-Says now date =
    let P : TimeAgo → Type 0 = λ t. Says t (now - date) in
    let mins = (now - date) / 60000 in
    if-both P (ltb mins 1) _ _ (λ e. ground (arith, e))
      λ e₁.
        if-both P (ltb mins 60) _ _
          (λ e. (ground (arith, e₁), ground (arith, e), omega arith, omega arith))
          λ e₂.
            if-both P (ltb (mins / 60) 24) _ _
              (λ e. (ground (arith, e₂), ground (arith, e), omega arith, omega arith))
              λ e₃. (ground (arith, e₃), omega arith, omega arith)

-- Of a date that is read as a time, the text says how long it is ago: less than a minute (also for
-- a date that is ahead), or the whole minutes below sixty, the whole hours below twenty-four or the
-- whole days that have passed, and of these the largest unit of which there is at least one.
pub format_time_ago_lem :
    (now : ℕ) (date_ms : String → Option ℕ) (iso_date : Option String) (date : String) (ms : ℕ)
    → truthy iso_date ≡ some date
    → date_ms date ≡ some ms
    → Says (format_time_ago now date_ms iso_date) (now - ms)
unfolding format_time_ago time_ago
format_time_ago_lem now date_ms iso_date date ms given read = rw (given, read) (ago-Says now ms)
