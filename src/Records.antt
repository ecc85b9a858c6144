-- ===== src/Records.antt =====
-- The interfaces of realtube-extension/src/background/{cache,api-client,background}.ts: what is
-- cached, what is sent to the server and what it answers.
--
-- A score is a finite double that is not negative. It stands as a whole number of the smallest
-- positive double, 2^-1074, of which every such double is a multiple. So `50` is `50 * one`.
use real_tube.Prelude.{ℕ, ◌^◌, ◌+◌, ◌/◌, String, Bool, Option, List}

abbrev pub one : ℕ
one = 2 ^ 1074

-- `Math.round`
pub round : ℕ → ℕ
round n = (n + n + one) / (one + one)

pub record CategoryTally : Type 0 where
  pub votes : ℕ
  pub weighted_score : ℕ

abbrev pub Categories : Type 0
Categories = List (String × CategoryTally)

pub record CachedVideo : Type 0 where
  pub video_id : String
  pub score : ℕ
  pub categories : Categories
  pub channel_id : String
  pub last_updated : String

pub record CachedChannel : Type 0 where
  pub channel_id : String
  pub score : ℕ
  pub auto_flag : Bool
  pub last_updated : String

pub record PendingVote : Type 0 where
  pub video_id : String
  pub category : String
  pub timestamp : ℕ

pub record CacheMeta : Type 0 where
  pub key : String
  pub value : String

pub record VoteRequest : Type 0 where
  pub video_id : String
  pub category : String
  pub user_id : String
  pub user_agent : String

pub record VoteResponse : Type 0 where
  pub success : Bool
  pub new_score : ℕ
  pub user_trust : ℕ

pub record VideoResult : Type 0 where
  pub video_id : String
  pub score : ℕ
  pub categories : Categories
  pub total_votes : ℕ
  pub locked : Bool
  pub channel_id : String
  pub channel_score : ℕ
  pub last_updated : String

-- the `action` of a delta entry
pub data Action : Type 0 where
  update remove : Action

pub record VideoChange : Type 0 where
  pub video_id : String
  pub score : Option ℕ
  pub categories : Option Categories
  pub action : Action

pub record ChannelChange : Type 0 where
  pub channel_id : String
  pub score : Option ℕ
  pub action : Action

pub record SyncDeltaResponse : Type 0 where
  pub videos : List VideoChange
  pub channels : List ChannelChange
  pub sync_timestamp : String

pub record ChannelResult : Type 0 where
  pub channel_id : String
  pub score : ℕ
  pub total_videos : ℕ
  pub flagged_videos : ℕ
  pub last_updated : String

pub record SyncFullResponse : Type 0 where
  pub videos : List VideoResult
  pub channels : List ChannelResult
  pub generated_at : String

pub record UserInfoResponse : Type 0 where
  pub user_id : String
  pub trust_score : ℕ
  pub total_votes : ℕ
  pub accuracy_rate : ℕ
  pub account_age : ℕ
  pub is_vip : Bool
