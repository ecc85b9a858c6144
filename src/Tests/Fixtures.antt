-- ===== src/Tests/Fixtures.antt =====
-- Services and states for the examples.
use real_tube.Prelude.{ℕ, ◌*◌, true, false, none, some, [], ◌∷◌}
use real_tube.Records.{
  one, CachedVideo, PendingVote, VideoResult, update, remove, SyncDeltaResponse, SyncFullResponse,
}
use real_tube.Effects.{ok, err}
use real_tube.Browser.{Endpoint, Payload, Outcome, responded, Platform, World}

-- a response with status 200
abbrev pub fine : {A : Type 0} → A → Outcome A
fine body =
    responded (record { status = 200; retry_after = none; json = ok body; error_message = none })

-- a response that refuses the request
abbrev pub refused : {A : Type 0} → ℕ → Outcome A
refused status = responded (record {
  status = status;
  retry_after = none;
  json = err "Unexpected token";
  error_message = none;
})

abbrev pub clip : VideoResult
clip = record {
  video_id = "clip";
  score = 85 * one;
  categories = [];
  total_votes = 4;
  locked = false;
  channel_id = "studio";
  channel_score = 40 * one;
  last_updated = "2026-01-01T00:00:00Z";
}

abbrev pub changes : SyncDeltaResponse
changes = record {
  videos =
      record { video_id = "clip"; score = some (90 * one); categories = some []; action = update }
      ∷ record { video_id = "talk"; score = none; categories = none; action = remove }
      ∷ [];
  channels = record { channel_id = "studio"; score = some (55 * one); action = update } ∷ [];
  sync_timestamp = "2026-01-02T00:00:00Z";
}

abbrev pub everything : SyncFullResponse
everything = record {
  videos = clip ∷ [];
  channels =
      record {
        channel_id = "studio";
        score = 40 * one;
        total_videos = 3;
        flagged_videos = 1;
        last_updated = "2026-01-01T00:00:00Z";
      }
      ∷ [];
  generated_at = "2026-01-03T00:00:00Z";
}

-- a server that answers every request with success
abbrev pub healthy : (e : Endpoint) → Outcome (Payload e)
healthy Endpoint.lookup_videos = fine (clip ∷ [])
healthy Endpoint.submit_vote =
    fine (record { success = true; new_score = 10 * one; user_trust = one })
healthy Endpoint.delete_vote = fine tt
healthy Endpoint.sync_delta = fine changes
healthy Endpoint.sync_full = fine everything
healthy Endpoint.user_info = fine (record {
  user_id = "u";
  trust_score = one;
  total_votes = 2;
  accuracy_rate = one;
  account_age = 30;
  is_vip = false;
})

abbrev pub with_server : ((e : Endpoint) → Outcome (Payload e)) → Platform
with_server server = record {
  fetch = λ e t req. server e;
  now = λ t. 1_700_000_000_000;
  online = λ t. true;
  date_ms = λ s. some 1_600_000_000_000;
  iso_string = λ ms. "1970-01-01T00:00:00.000Z";
  digest = λ s. 0xab ∷ 0xcd ∷ 0x01 ∷ [];
  random_uuid = λ t. some "0f8fad5b-d9cb-469f-a165-70867728950e";
  random_nibble = λ t i. 7;
  user_agent = "Mozilla/5.0";
}

abbrev pub service : Platform
service = with_server healthy

-- a server that refuses every request with the same status
abbrev pub refusing : ℕ → Platform
refusing status = with_server (λ e. refused status)

abbrev pub early_vote : PendingVote
early_vote = record { video_id = "clip"; category = "ai_generated"; timestamp = 1_699_999_000_000 }

abbrev pub late_vote : PendingVote
late_vote = record { video_id = "talk"; category = "deepfake"; timestamp = 1_699_999_500_000 }

abbrev pub cached_talk : CachedVideo
cached_talk = record {
  video_id = "talk";
  score = 20 * one;
  categories = [];
  channel_id = "";
  last_updated = "2025-12-01T00:00:00Z";
}

-- a worker that has read its settings, with a cached video and two votes in the queue
abbrev pub waiting : World
waiting = record {
  db = record {
    videos = cached_talk ∷ [];
    channels = [];
    pending_votes = early_vote ∷ late_vote ∷ [];
    meta = [];
  };
  local_id = some "0f8fad5b-d9cb-469f-a165-70867728950e";
  server_url = some "https://realtube.example";
  cached_base_url = some "https://realtube.example";
  cached_public_user_id = none;
  flush_timer = none;
  is_flushing = false;
  startup_sync_timer = none;
  sync_timer = none;
  trace = [];
}
