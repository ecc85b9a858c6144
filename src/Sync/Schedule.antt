-- ===== src/Sync/Schedule.antt =====
-- Which sync the schedule of realtube-extension/src/background/sync.ts runs, by the age of the last full
-- sync, and that it survives every failure.
use real_tube.Prelude.{
  ℕ, ◌-◌, ◌<◌, ◌≤◌, String, ◌≡◌, refl, ◌⊎◌, inl, inr, Bool, true, false, none, some, ltb, arith,
  Bool-cases, Option-cases,
}
use real_tube.Effects.{Result, ok, err, handle, continue, pure}
use real_tube.Browser.{World, Platform, truthy}
use real_tube.Cache.{find_meta, get_meta}
use real_tube.Sync.{
  auto_sync, needs_full_sync, perform_full_sync, perform_delta_sync, meta_last_full_sync,
}

-- a day
abbrev pub day_ms : ℕ
day_ms = 86_400_000

module _ (p : Platform) (w : World) where
  -- There is no date of a full sync, or it is more than a day ago.
  abbrev pub IsDue : Type 0
  IsDue =
      (truthy (find_meta w.db "lastFullSync") ≡ none)
      ⊎ ((date : String) × (time : ℕ) × (truthy (find_meta w.db "lastFullSync") ≡ some date)
          × (p.date_ms date ≡ some time)
          × (day_ms < p.now w.trace - time))

  -- There is a date of a full sync, and it is no time at all or at most a day ago.
  abbrev pub IsRecent : Type 0
  IsRecent =
      (date : String) × (truthy (find_meta w.db "lastFullSync") ≡ some date)
      × ((p.date_ms date ≡ none)
          ⊎ ((time : ℕ) × (p.date_ms date ≡ some time) × (p.now w.trace - time ≤ day_ms)))

  caught :
      {A : Type 0} (x : Result A × World)
      → handle
          (continue x.0 (λ a. pure tt) x.1).0
          (λ message. pure tt)
          (continue x.0 (λ a. pure (tt {0})) x.1).1
        ≡ (ok tt, x.1)
  caught (ok a, w') = refl
  caught (err message, w') = refl

  abbrev needs_full : Bool
  needs_full = needs_full_sync p (truthy (find_meta w.db meta_last_full_sync)) (p.now w.trace)

  runs_full : needs_full ≡ true → auto_sync p w ≡ (ok tt, (perform_full_sync p w).1)
  unfolding auto_sync get_meta
  runs_full due = rw due (caught (perform_full_sync p w))

  runs_delta : needs_full ≡ false → auto_sync p w ≡ (ok tt, (perform_delta_sync p w).1)
  unfolding auto_sync get_meta
  runs_delta recent = rw recent (caught (perform_delta_sync p w))

  -- The schedule throws nothing, whatever the syncs do. It runs a full sync and nothing else where no
  -- date of the last full sync is stored or it is more than a day ago, and a delta sync and nothing
  -- else where the date is at most a day ago or cannot be read as a time; and one of these is so.
  pub auto_sync_lem :
      (IsDue × (auto_sync p w ≡ (ok tt, (perform_full_sync p w).1)))
      ⊎ (IsRecent × (auto_sync p w ≡ (ok tt, (perform_delta_sync p w).1)))
  auto_sync_lem = elim (Option-cases (truthy (find_meta w.db "lastFullSync"))) [
    | inl missing ↦ inl (inl missing, runs_full (rw missing refl))
    | inr (date, found) ↦ elim (Option-cases (p.date_ms date)) [
      | inl unread ↦ inr ((date, found, inl unread), runs_delta (rw (found, unread) refl))
      | inr (time, read) ↦ elim (Bool-cases (ltb day_ms (p.now w.trace - time))) [
        | inl old ↦
            inl
              (inr (date, time, found, read, ground (arith, old)), runs_full (rw (found, read) old))
        | inr young ↦ inr (
          (date, found, inr (time, read, ground (arith, young))),
          runs_delta (rw (found, read) young),
        )
      ]
    ]
  ]
