-- ===== src/Sync/Keeps.antt =====
-- The functions of sync.ts keep what the API calls and the writes to the cache keep.
use real_tube.Prelude.{ℕ, ◌+◌, String, Option, none, some, List, [], ◌∷◌, ◌++◌, map, length}
use real_tube.Records.{SyncDeltaResponse, SyncFullResponse}
use real_tube.Effects.{pure, throw, ◌>>=◌, ◌>>◌}
use real_tube.Effects.Keeps.{
  Keeps, Keeps-bind, Keeps-if, Keeps-pure, Keeps-throw, Keeps-catch, Keeps-option,
}
use real_tube.Browser.{Platform, World, M, truthy}
use real_tube.ApiClient
use real_tube.Cache
use real_tube.Invariant.{IsServed}
use real_tube.Sync.{
  Step, Loop, deletes, stores, skips, run_step, apply_changes, apply_delta, apply_full,
  is_rate_limit, unless_rate_limited, perform_delta_sync, perform_full_sync, text_or,
  cached_of_result, cached_of_channel, no_changes, since_of, meta_last_full_sync,
  meta_last_delta_sync, get_sync_status, FullCounts,
}

module _ (p : Platform) {P : World → Type 0} (served : IsServed p P) where
  run_step-Keeps :
      {V : Type 0} (delete : String → M (Unit {0}))
      → ((id : String) → Keeps P (delete id))
      → (st : Step V) (rest : Loop V) → ((ups : List V) (u r : ℕ) → Keeps P (rest ups u r))
      → (ups : List V) (u r : ℕ) → Keeps P (run_step delete st rest ups u r)
  unfolding run_step
  run_step-Keeps delete kd (deletes id) rest kr ups u r =
      Keeps-bind (delete id) (λ _. rest ups u (r + 1)) (kd id) (λ _. kr ups u (r + 1))
  run_step-Keeps delete kd (stores v) rest kr ups u r = kr (ups ++ v ∷ []) (u + 1) r
  run_step-Keeps delete kd skips rest kr ups u r = kr ups u r

  apply_changes-Keeps :
      {V : Type 0} (delete : String → M (Unit {0}))
      → ((id : String) → Keeps P (delete id))
      → (sts : List (Step V)) (ups : List V) (u r : ℕ) → Keeps P (apply_changes delete sts ups u r)
  unfolding apply_changes
  apply_changes-Keeps delete kd [] ups u r = Keeps-pure _
  apply_changes-Keeps delete kd (st ∷ sts) ups u r =
      run_step-Keeps delete kd st (apply_changes delete sts) (apply_changes-Keeps delete kd sts) ups
        u r

  apply_delta-Keeps : (delta : SyncDeltaResponse) → Keeps P (apply_delta delta)
  unfolding apply_delta
  apply_delta-Keeps delta =
      Keeps-bind _ _ (apply_changes-Keeps Cache.delete_video served.delete_video _ [] 0 0) λ x.
        Keeps-bind (Cache.put_videos x.0) _ (served.put_videos x.0) λ _.
          Keeps-bind _ _ (apply_changes-Keeps Cache.delete_channel served.delete_channel _ [] 0 0)
            λ y.
              Keeps-bind (Cache.put_channels y.0) _ (served.put_channels y.0)
                λ _. Keeps-bind (Cache.set_meta _ _) _ (served.set_meta _ _) (λ _. Keeps-pure _)

  mark_full-Keeps :
      (now : String) (counts : FullCounts)
      → Keeps P (
          Cache.set_meta meta_last_full_sync now
          >> (Cache.set_meta meta_last_delta_sync now >> pure counts))
  mark_full-Keeps now counts =
      Keeps-bind (Cache.set_meta meta_last_full_sync now) _
        (served.set_meta meta_last_full_sync now)
        λ _.
          Keeps-bind (Cache.set_meta meta_last_delta_sync now) _
            (served.set_meta meta_last_delta_sync now) λ _. Keeps-pure counts

  apply_full-Keeps : (full : SyncFullResponse) → Keeps P (apply_full p full)
  unfolding apply_full
  apply_full-Keeps full = Keeps-bind Cache.clear_videos _ served.clear_videos λ _.
      Keeps-bind Cache.clear_channels _ served.clear_channels λ _.
        Keeps-bind (Cache.put_videos (map cached_of_result full.videos)) _ (served.put_videos _)
          λ _.
            Keeps-bind (Cache.put_channels (map cached_of_channel full.channels)) _
              (served.put_channels _)
              λ _. record {
                at = λ w h.
                    (mark_full-Keeps (text_or full.generated_at (p.iso_string (p.now w.trace)))
                        (record {
                          video_count = length (map cached_of_result full.videos);
                          channel_count = length (map cached_of_channel full.channels);
                        })).at
                      w h;
              }

  unless_rate_limited-Keeps : {A : Type 0} (m : M A) → Keeps P m → Keeps P (unless_rate_limited m)
  unless_rate_limited-Keeps m k =
      Keeps-catch (m >>= λ a. pure (some a)) _ (Keeps-bind m _ k (λ a. Keeps-pure _)) λ message.
        Keeps-if (is_rate_limit message) (pure none) (throw message) (Keeps-pure none)
          (Keeps-throw message)

  delta_from-Keeps :
      (last : Option String)
      → Keeps P (
          unless_rate_limited (ApiClient.sync_delta p (since_of p (truthy last))) >>= λ answer.
          elim answer [ none ↦ pure no_changes | some delta ↦ apply_delta delta ])
  delta_from-Keeps last =
      Keeps-bind (unless_rate_limited (ApiClient.sync_delta p (since_of p (truthy last)))) _
        (unless_rate_limited-Keeps _ (served.sync_delta _))
        λ answer.
          Keeps-option answer (pure no_changes) apply_delta (Keeps-pure no_changes)
            apply_delta-Keeps

  pub perform_delta_sync-Keeps : Keeps P (perform_delta_sync p)
  unfolding perform_delta_sync Cache.get_meta
  perform_delta_sync-Keeps = record {
    at = λ w h. (delta_from-Keeps (Cache.find_meta w.db meta_last_delta_sync)).at w h;
  }

  pub perform_full_sync-Keeps : Keeps P (perform_full_sync p)
  unfolding perform_full_sync
  perform_full_sync-Keeps =
      Keeps-bind (unless_rate_limited (ApiClient.sync_full p)) _
        (unless_rate_limited-Keeps _ served.sync_full)
        λ answer.
          Keeps-option answer (pure (record { video_count = 0; channel_count = 0 })) (apply_full p)
            (Keeps-pure _) apply_full-Keeps

  pub get_sync_status-Keeps : Keeps P get_sync_status
  unfolding get_sync_status Cache.get_meta Cache.get_video_count Cache.get_channel_count
  get_sync_status-Keeps = record { at = λ w h. h }
