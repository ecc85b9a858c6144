-- ===== src/Background/Secure.antt =====
-- The server that the service worker talks to: realtube-extension/src/background/background.ts over
-- the check of the base URL in realtube-extension/src/background/api-client.ts.
use real_tube.Prelude.{String, List, [], ◌∷◌}
use real_tube.Records.{CachedVideo, CachedChannel, PendingVote}
use real_tube.Effects.{modify}
use real_tube.Effects.Keeps.{Keeps, Keeps-pure}
use real_tube.Browser.{Platform, Db}
use real_tube.Cache
use real_tube.ApiClient.BaseUrl
use real_tube.ApiClient.BaseUrl.{IsSecure}
use real_tube.Invariant.{IsClosed}

write-IsSecure : (f : Db → Db) → Keeps IsSecure (modify (λ w. record w { db = f w.db }))
write-IsSecure f = record { at = λ w h. record { cached = h.cached; requests = h.requests } }

put_video-IsSecure : (v : CachedVideo) → Keeps IsSecure (Cache.put_video v)
unfolding Cache.put_video
put_video-IsSecure v = write-IsSecure _

put_videos-IsSecure : (vs : List CachedVideo) → Keeps IsSecure (Cache.put_videos vs)
unfolding Cache.put_videos
put_videos-IsSecure [] = Keeps-pure tt
put_videos-IsSecure (v ∷ vs) = write-IsSecure _

delete_video-IsSecure : (id : String) → Keeps IsSecure (Cache.delete_video id)
unfolding Cache.delete_video
delete_video-IsSecure id = write-IsSecure _

clear_videos-IsSecure : Keeps IsSecure Cache.clear_videos
unfolding Cache.clear_videos
clear_videos-IsSecure = write-IsSecure _

put_channels-IsSecure : (cs : List CachedChannel) → Keeps IsSecure (Cache.put_channels cs)
unfolding Cache.put_channels
put_channels-IsSecure [] = Keeps-pure tt
put_channels-IsSecure (c ∷ cs) = write-IsSecure _

delete_channel-IsSecure : (id : String) → Keeps IsSecure (Cache.delete_channel id)
unfolding Cache.delete_channel
delete_channel-IsSecure id = write-IsSecure _

clear_channels-IsSecure : Keeps IsSecure Cache.clear_channels
unfolding Cache.clear_channels
clear_channels-IsSecure = write-IsSecure _

add_pending_vote-IsSecure : (v : PendingVote) → Keeps IsSecure (Cache.add_pending_vote v)
unfolding Cache.add_pending_vote
add_pending_vote-IsSecure v = write-IsSecure _

remove_pending_vote-IsSecure : (id : String) → Keeps IsSecure (Cache.remove_pending_vote id)
unfolding Cache.remove_pending_vote
remove_pending_vote-IsSecure id = write-IsSecure _

set_meta-IsSecure : (key value : String) → Keeps IsSecure (Cache.set_meta key value)
unfolding Cache.set_meta
set_meta-IsSecure key value = write-IsSecure _

pub IsSecure-IsClosed : (p : Platform) → IsClosed p IsSecure
IsSecure-IsClosed p = record {
  lookup_videos = BaseUrl.lookup_videos_by_prefix-IsSecure p;
  submit_vote = BaseUrl.submit_vote-IsSecure p;
  delete_vote = BaseUrl.delete_vote-IsSecure p;
  sync_delta = BaseUrl.sync_delta-IsSecure p;
  sync_full = BaseUrl.sync_full-IsSecure p;
  user_info = BaseUrl.get_user_info-IsSecure p;
  put_video = put_video-IsSecure;
  put_videos = put_videos-IsSecure;
  delete_video = delete_video-IsSecure;
  clear_videos = clear_videos-IsSecure;
  put_channels = put_channels-IsSecure;
  delete_channel = delete_channel-IsSecure;
  clear_channels = clear_channels-IsSecure;
  add_pending_vote = add_pending_vote-IsSecure;
  remove_pending_vote = remove_pending_vote-IsSecure;
  set_meta = set_meta-IsSecure;
  variables = λ w id user timer flag h. record { cached = h.cached; requests = h.requests };
}
