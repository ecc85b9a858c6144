-- ===== src/Tests/Messages.antt =====
-- The messages and the identity at concrete inputs.
use real_tube.Prelude.{
  ℕ, String, ◌≡◌, refl, ◌⊎◌, ◌&&◌, false, true, some, List, [], ◌∷◌, has, map, All,
}
use real_tube.Records.{CachedVideo, VoteResponse}
use real_tube.Effects.{ok}
use real_tube.ApiClient
use real_tube.ApiClient.BaseUrl.{IsSecure, IsAccepted}
use real_tube.ApiClient.Votes.{IsPosted}
use real_tube.Cache.{find_vote}
use real_tube.Background
use real_tube.Background.{
  success, voted, queued, Sender, on_message, submit_or_queue, group_by_prefix, check_all,
  get_user_id,
}
use real_tube.Background.Kinds.{Fits, on_message-Fits}
use real_tube.Background.Worker
use real_tube.Background.Worker.{
  Happening, message_came, flush_timer_fired, startup_timer_fired, server_url_stored, loaded,
  flush_begun, flush_went_on, flush_over,
}
use real_tube.Background.Worker.Runs.{run-IsSecure}
use real_tube.Background.Gate.{reveals_user, on_message-hides_user}
use real_tube.Background.Queueing.{user, request, submit_or_queue_lem}
use real_tube.Background.Again.{IsCached, check_all-again}
use real_tube.Background.Lookup.{WasAsked, check_all-WasAsked}
use real_tube.Background.Privacy.{IsMiss, OnlyLookups, check_all-OnlyLookups}
use real_tube.Tests.Fixtures.{service, waiting, early_vote}

abbrev content_script : Sender
content_script = record { id = some "realtube"; tab = true }

accepted : IsAccepted "https://realtube.example"
unfolding ApiClient.is_accepted
accepted = refl

waiting-IsSecure : IsSecure waiting
waiting-IsSecure = record { cached = accepted; requests = tt }

on_message-Fits_example :
    Fits
      (Background.submit_vote "clip" "fully_ai")
      (on_message service "realtube" content_script
        (Background.submit_vote "clip" "fully_ai")
        waiting).0
on_message-Fits_example =
    on_message-Fits service "realtube" content_script (Background.submit_vote "clip" "fully_ai")
      waiting

gated : (Background.is_id (some "realtube") "realtube" && false) ≡ false
unfolding Background.is_id
gated = refl

submit_or_queue_example :
    ((a : VoteResponse) × ((submit_or_queue service "clip" "deepfake" waiting).0
        ≡ ok (success (voted a)))
      × IsPosted service
          (request service "clip" "deepfake" (user service waiting))
          (submit_or_queue service "clip" "deepfake" waiting).1.trace)
    ⊎ ((message : String) × (timestamp : ℕ) × ((submit_or_queue service "clip" "deepfake" waiting).0
          ≡ ok (success (queued message)))
        × (find_vote (submit_or_queue service "clip" "deepfake" waiting).1.db "clip"
            ≡ some (record { video_id = "clip"; category = "deepfake"; timestamp = timestamp }))
        × ((submit_or_queue service "clip" "deepfake" waiting).1.flush_timer ≡ some 5_000))
submit_or_queue_example = submit_or_queue_lem service "clip" "deepfake" waiting

on_message-hides_user_example :
    reveals_user (on_message service "realtube" content_script get_user_id waiting).0 ≡ false
on_message-hides_user_example =
    on_message-hides_user service "realtube" content_script get_user_id waiting gated

check_all-WasAsked_example :
    (vs : List CachedVideo) × ((check_all service ("clip" ∷ "talk" ∷ []) waiting).0 ≡ ok vs)
    × All (λ v. WasAsked ("clip" ∷ "talk" ∷ []) v.video_id) vs
check_all-WasAsked_example = check_all-WasAsked service ("clip" ∷ "talk" ∷ []) waiting

check_all-OnlyLookups_example :
    OnlyLookups service
      (IsMiss ("clip" ∷ "talk" ∷ []) waiting.db)
      []
      (check_all service ("clip" ∷ "talk" ∷ []) waiting).1
check_all-OnlyLookups_example = check_all-OnlyLookups service ("clip" ∷ "talk" ∷ []) waiting

check_all-again_example :
    let w₁ = (check_all service ("clip" ∷ "talk" ∷ []) waiting).1 in
    (vs : List CachedVideo) × ((check_all service ("clip" ∷ "talk" ∷ []) waiting).0 ≡ ok vs)
    × All (λ v. IsCached w₁.db.videos v.video_id) vs
    × OnlyLookups service
        (λ id. WasAsked ("clip" ∷ "talk" ∷ []) id × (has id (map (λ v. v.video_id) vs) ≡ false))
        w₁.trace
        (check_all service ("clip" ∷ "talk" ∷ []) w₁).1
check_all-again_example = check_all-again service ("clip" ∷ "talk" ∷ []) waiting

-- the settings name another server, a vote comes in, the worker is loaded again, and another vote comes
-- in while a flush waits for the server
abbrev busy_day : List Happening
busy_day =
    server_url_stored (some "http://attacker.example")
    ∷ message_came content_script (Background.submit_vote "clip" "fully_ai")
    ∷ loaded
    ∷ flush_begun true
    ∷ message_came content_script (Background.submit_vote "talk" "fully_ai")
    ∷ flush_timer_fired
    ∷ flush_went_on "user" 0 early_vote
    ∷ flush_over false
    ∷ flush_timer_fired
    ∷ startup_timer_fired
    ∷ []

run-IsSecure_example : IsSecure (Worker.run service "realtube" busy_day waiting)
run-IsSecure_example = run-IsSecure service "realtube" busy_day waiting waiting-IsSecure
