-- ===== src/Background/Keeps.antt =====
-- Every handler of background.ts keeps what the API calls and the writes to the cache keep.
use real_tube.Prelude.{
  String, Bool, true, false, ◌&&◌, not, Option, none, some, List, [], ◌∷◌, has, if◌then◌else◌,
}
use mathlib.Core.List
use real_tube.Records.{VideoResult}
use real_tube.Effects.{Result, ok, err, pure, ◌>>=◌}
use real_tube.Effects.Keeps.{Keeps, Keeps-bind, Keeps-if, Keeps-pure, Keeps-throw, Keeps-catch}
use real_tube.Browser.{Platform, World, M, truthy}
use real_tube.ApiClient
use real_tube.Cache
use real_tube.Identity
use real_tube.Invariant.{IsServed, get_local_id-Keeps, get_public_user_id-Keeps}
use real_tube.Sync
use real_tube.Sync.{cached_of_result}
use real_tube.Sync.Keeps.{perform_delta_sync-Keeps, perform_full_sync-Keeps}
use real_tube.OfflineQueue
use real_tube.Background.{
  Message, get_user_id, get_user_info, get_status, sync_delta, sync_full, get_sync_status,
  flush_pending_votes, open_popup, lookup_videos, check_videos, submit_vote, delete_vote, other,
  PrefixMap, Sender, is_id, asks_for_user, MessageResponse, failure, answered, collect,
  check_prefix, check_prefixes, check_all, settled, after_lookup, lookup_prefixes,
  public_user_id_or_new, ensure_public_user_id, submit_or_queue, handle_message, on_message,
}

module _ (p : Platform) {P : World → Type 0} (served : IsServed p P) where
  public_user_id_or_new-Keeps : (id : Option String) → Keeps P (public_user_id_or_new p id)
  unfolding public_user_id_or_new
  public_user_id_or_new-Keeps (some id) = Keeps-pure id
  public_user_id_or_new-Keeps none =
      Keeps-bind (Identity.get_public_user_id p) _ (get_public_user_id-Keeps p served.ids)
        λ id. record { at = λ w h. served.ids w w.local_id (some id) h }

  pub ensure_public_user_id-Keeps : Keeps P (ensure_public_user_id p)
  unfolding ensure_public_user_id
  ensure_public_user_id-Keeps = record {
    at = λ w h. (public_user_id_or_new-Keeps (truthy w.cached_public_user_id)).at w h;
  }

  collect-Keeps :
      (ids : List String) (videos results : List VideoResult)
      → Keeps P (collect p ids videos results)
  unfolding collect
  collect-Keeps ids [] results = Keeps-pure results
  collect-Keeps ids (video ∷ videos) results =
      Keeps-if (has video.video_id ids) _ _
        (Keeps-bind (Cache.put_video (cached_of_result video)) _ (served.put_video _)
          λ _. collect-Keeps ids videos (List.◌++◌ results (video ∷ [])))
        (collect-Keeps ids videos results)

  check_prefix-Keeps :
      (prefix : String) (ids : List String) (results : List VideoResult)
      → Keeps P (check_prefix p prefix ids results)
  unfolding check_prefix
  check_prefix-Keeps prefix ids results =
      Keeps-catch _ _
        (Keeps-bind (ApiClient.lookup_videos_by_prefix p prefix) _ (served.lookup_videos prefix)
          λ videos. collect-Keeps ids videos results)
        λ message. Keeps-pure results

  check_prefixes-Keeps :
      (groups : PrefixMap) (results : List VideoResult) → Keeps P (check_prefixes p groups results)
  unfolding check_prefixes
  check_prefixes-Keeps [] results = Keeps-pure results
  check_prefixes-Keeps ((prefix, ids) ∷ groups) results =
      Keeps-bind (check_prefix p prefix ids results) _ (check_prefix-Keeps prefix ids results)
        (check_prefixes-Keeps groups)

  check_groups-Keeps :
      {A : Type 0} (groups : PrefixMap) (f : List VideoResult → A)
      → Keeps P (check_prefixes p groups [] >>= λ results. pure (f results))
  check_groups-Keeps groups f =
      Keeps-bind (check_prefixes p groups []) _ (check_prefixes-Keeps groups [])
        λ results. Keeps-pure (f results)

  check_all-Keeps : (video_ids : List String) → Keeps P (check_all p video_ids)
  unfolding check_all Cache.get_videos
  check_all-Keeps video_ids = record { at = λ w h. (check_groups-Keeps _ _).at w h }

  after_lookup-Keeps :
      (rest : Option String → List VideoResult → M (List VideoResult)) (ids : List String)
      (failed : Option String) (results : List VideoResult) (answer : Result (List VideoResult))
      → ((failed : Option String) (results : List VideoResult) → Keeps P (rest failed results))
      → Keeps P (after_lookup p rest ids failed results answer)
  unfolding after_lookup
  after_lookup-Keeps rest ids failed results (ok videos) k = k failed _
  after_lookup-Keeps rest ids none results (err message) k = k (some message) results
  after_lookup-Keeps rest ids (some first) results (err message) k = k (some first) results

  lookup_prefixes-Keeps :
      (groups : PrefixMap) (failed : Option String) (results : List VideoResult)
      → Keeps P (lookup_prefixes p groups failed results)
  unfolding lookup_prefixes
  lookup_prefixes-Keeps [] none results = Keeps-pure results
  lookup_prefixes-Keeps [] (some first) results = Keeps-throw first
  lookup_prefixes-Keeps ((prefix, ids) ∷ groups) failed results =
      Keeps-bind (settled (ApiClient.lookup_videos_by_prefix p prefix)) _
        (record { at = λ w h. (served.lookup_videos prefix).at w h })
        λ answer.
          after_lookup-Keeps (lookup_prefixes p groups) ids failed results answer
            (lookup_prefixes-Keeps groups)

  submit_or_queue-Keeps :
      (video_id category : String) → Keeps P (submit_or_queue p video_id category)
  unfolding submit_or_queue
  submit_or_queue-Keeps video_id category =
      Keeps-catch _ _
        (Keeps-bind (ensure_public_user_id p) _ ensure_public_user_id-Keeps λ user.
          Keeps-bind (ApiClient.submit_vote p _) _ (served.submit_vote _) λ result. Keeps-pure _)
        λ message.
          Keeps-bind (OfflineQueue.enqueue_vote p video_id category) _
            (served.enqueue_vote video_id category) λ _. Keeps-pure _

  answered_by :
      {A : Type 0} (m : M A) (f : A → MessageResponse) → Keeps P m → Keeps P (m >>= λ a. pure (f a))
  answered_by m f k = Keeps-bind m (λ a. pure (f a)) k λ a. Keeps-pure (f a)

  handle_message-Keeps : (message : Message) → Keeps P (handle_message p message)
  unfolding handle_message Sync.get_sync_status OfflineQueue.get_pending_vote_count
      Cache.get_pending_votes Cache.get_meta Cache.get_video_count Cache.get_channel_count
  handle_message-Keeps get_user_id =
      answered_by (ensure_public_user_id p) _ ensure_public_user_id-Keeps
  handle_message-Keeps get_user_info =
      Keeps-bind (ensure_public_user_id p) _ ensure_public_user_id-Keeps
        λ user. answered_by (ApiClient.get_user_info p user) _ (served.user_info user)
  handle_message-Keeps (check_videos video_ids) =
      answered_by (check_all p video_ids) _ (check_all-Keeps video_ids)
  handle_message-Keeps (lookup_videos video_ids) =
      answered_by (lookup_prefixes p _ none []) _ (lookup_prefixes-Keeps _ none [])
  handle_message-Keeps (submit_vote video_id category) = submit_or_queue-Keeps video_id category
  handle_message-Keeps (delete_vote video_id) =
      Keeps-bind (ensure_public_user_id p) _ ensure_public_user_id-Keeps λ user.
        answered_by (ApiClient.delete_vote p video_id user) _ (served.delete_vote video_id user)
  handle_message-Keeps sync_delta =
      answered_by (Sync.perform_delta_sync p) _ (perform_delta_sync-Keeps p served)
  handle_message-Keeps sync_full =
      answered_by (Sync.perform_full_sync p) _ (perform_full_sync-Keeps p served)
  handle_message-Keeps get_sync_status = record { at = λ w h. h }
  handle_message-Keeps flush_pending_votes =
      answered_by (OfflineQueue.flush_pending_votes p) _ served.flush_pending_votes
  handle_message-Keeps open_popup = Keeps-pure _
  handle_message-Keeps get_status =
      Keeps-bind (Identity.get_local_id p) _ (get_local_id-Keeps p served.ids)
        λ local_id. record { at = λ w h. h }
  handle_message-Keeps (other type) = Keeps-pure _

  answered-kept : (o : Result MessageResponse × World) → P o.1 → P (answered o).1
  answered-kept (ok response, w) h = h
  answered-kept (err message, w) h = h

  pub on_message-kept :
      (runtime_id : String) (sender : Sender) (message : Message) (w : World)
      → P w
      → P (on_message p runtime_id sender message w).1
  unfolding on_message
  on_message-kept runtime_id sender message w h =
      gate (not (is_id sender.id runtime_id)) (asks_for_user message && sender.tab)
    where
      gate :
          (b c : Bool)
          → P
              (if b
                then (failure "Unauthorized sender", w)
                else if c
                then (failure "Not available from content scripts", w)
                else answered (handle_message p message w)).1
      gate true c = h
      gate false true = h
      gate false false =
          answered-kept (handle_message p message w) ((handle_message-Keeps message).at w h)
