-- ===== src/Popup/Voting.antt =====
-- What always holds of the state of the popup in realtube-extension/src/popup/popup.tsx.
pub mod Steps
use real_tube.Prelude.{
  ℕ, zero, suc, ◌+◌, String, ◌==◌, Bool, true, false, not, ◌&&◌, Option, none, some, List, [], ◌∷◌,
  ◌++◌, All, is_some, if◌then◌else◌, if-both, eq_iff, arith, ◌≡◌, refl, sym, ap, ◌∙◌, Bool-cases,
  inl, inr,
}
use mathlib.Core.Path.{subst}
use real_tube.Records.{CachedVideo}
use real_tube.Effects.{Result, ok, err}
use real_tube.Browser.{truthy}
use real_tube.Background.{Answer, Message, MessageResponse, success, failure}
use real_tube.Content.DomUtils.{Url}
use real_tube.Content.VoteUi.{Category, category_id}
use real_tube.Popup
use real_tube.Popup.{PopupPage, SyncPhase, idle, delta_sent, status_sent, VoteFeedback}

abbrev one_if : Bool → ℕ
one_if true = 1
one_if false = 0

abbrev is_busy : SyncPhase → Bool
is_busy idle = false
is_busy delta_sent = true
is_busy status_sent = true

-- The votes under way are one or none, one just while `submitting` is set; a timeout is set just while
-- there is feedback, and there is none while `submitting` is set.
abbrev pub Voted :
    (submitting : Option String)
    → (feedback : Option VoteFeedback) → (in_flight timers : ℕ) → Type 0
Voted submitting feedback in_flight timers =
    (in_flight ≡ one_if (is_some submitting))
    × (timers ≡ one_if (is_some feedback))
    × ((is_some submitting && is_some feedback) ≡ false)

abbrev pub IsAbout : Option CachedVideo → Option String → Type 0
IsAbout none id = Unit
IsAbout (some video) id = id ≡ some video.video_id

abbrev pub IsCategoryOrNone : Option String → Type 0
IsCategoryOrNone none = Unit
IsCategoryOrNone (some id) = (category : Category) × (id ≡ category_id category)

-- A vote is for the given video, in one of the five categories.
abbrev pub IsVoteFor : Option String → Message → Type 0
IsVoteFor id (Message.submit_vote video_id category) =
    (id ≡ some video_id) × IsCategoryOrNone (some category)
IsVoteFor id _ = Unit

pub record IsConsistent (s : PopupPage) : Type 0 where
  pub voted : Voted s.submitting s.vote_feedback s.votes_in_flight s.feedback_timers
  pub syncing : s.syncing ≡ is_busy s.sync_phase
  pub selected : IsCategoryOrNone s.selected
  pub video : IsAbout s.current_video (truthy s.current_video_id)
  pub unloaded : s.loading ≡ true → (s.current_video ≡ none) × (s.current_video_id ≡ none)
  pub votes : All (IsVoteFor (truthy s.current_video_id)) s.sent

find_video-IsAbout :
    (id : String) (videos : List CachedVideo) → IsAbout (Popup.find_video id videos) (some id)
unfolding Popup.find_video
find_video-IsAbout id [] = tt
find_video-IsAbout id (video ∷ videos) =
    if-both (λ found. IsAbout found (some id)) (video.video_id == id) _ _
      (λ e. ap some (sym ((eq_iff video.video_id id).0 e))) (λ _. find_video-IsAbout id videos)

find_in-IsAbout : (answer : Answer) (id : String) → IsAbout (Popup.find_in answer id) (some id)
unfolding Popup.find_in
find_in-IsAbout (Answer.cached_videos videos) id = find_video-IsAbout id videos
find_in-IsAbout _ id = tt

or_keep-IsAbout :
    (found kept : Option CachedVideo) (id : Option String)
    → IsAbout found id
    → IsAbout kept id
    → IsAbout (Popup.or_keep found kept) id
unfolding Popup.or_keep
or_keep-IsAbout none kept id f k = k
or_keep-IsAbout (some found) kept id f k = f

truthy-IsCategoryOrNone :
    (o : Option String) (id : String)
    → IsCategoryOrNone o
    → truthy o ≡ some id
    → IsCategoryOrNone (some id)
truthy-IsCategoryOrNone none id c e = absurd (ground (arith, e))
truthy-IsCategoryOrNone (some String.[]) id c e = absurd (ground (arith, e))
truthy-IsCategoryOrNone (some (String.◌∷◌ x xs)) id c e =
    let same : String.◌∷◌ x xs ≡ id = cc e in subst (λ id. IsCategoryOrNone (some id)) same c

answered-Voted :
    (submitting : Option String) (feedback : Option VoteFeedback) (others timers : ℕ)
    (f : VoteFeedback)
    → Voted submitting feedback (suc others) timers
    → Voted none (some f) others (timers + 1)
answered-Voted none feedback others timers f (n, t, e) = absurd (ground (arith, n))
answered-Voted (some c) none others timers f (n, t, e) = (omega arith, omega arith, refl)
answered-Voted (some c) (some g) others timers f (n, t, e) = absurd (ground (arith, e))

cleared-Voted :
    (submitting : Option String) (feedback : Option VoteFeedback) (in_flight others : ℕ)
    → Voted submitting feedback in_flight (suc others)
    → Voted submitting none in_flight others
cleared-Voted submitting none in_flight others (n, t, e) = absurd (ground (arith, t))
cleared-Voted none (some g) in_flight others (n, t, e) = (n, omega arith, refl)
cleared-Voted (some c) (some g) in_flight others (n, t, e) = absurd (ground (arith, e))

started-Voted :
    (submitting : Option String) (feedback : Option VoteFeedback) (in_flight timers : ℕ)
    (category : String)
    → is_some submitting ≡ false
    → is_some feedback ≡ false
    → Voted submitting feedback in_flight timers
    → Voted (some category) none (in_flight + 1) timers
started-Voted none none in_flight timers category free shown (n, t, e) = (omega arith, t, refl)
started-Voted none (some g) in_flight timers category free shown (n, t, e) =
    absurd (ground (arith, shown))
started-Voted (some c) feedback in_flight timers category free shown (n, t, e) =
    absurd (ground (arith, free))

asked-IsVoteFor :
    (id video_id : Option String) (sent : List Message)
    → All (IsVoteFor id) sent
    → All (IsVoteFor id) (Popup.asked video_id ++ sent)
unfolding Popup.asked
asked-IsVoteFor id none sent h = (tt, (tt, h))
asked-IsVoteFor id (some v) sent h = (tt, (tt, (tt, h)))

-- Without a video there are no votes.
no_votes :
    (id : Option String) (sent : List Message) → All (IsVoteFor none) sent → All (IsVoteFor id) sent
no_votes id [] h = tt
no_votes id (message ∷ sent) (v, h) = (other message v, no_votes id sent h)
  where
    other : (message : Message) → IsVoteFor none message → IsVoteFor id message
    other (Message.submit_vote video_id category) (e, c) = absurd (ground (arith, e))
    other _ v = v

pub opened-IsConsistent : IsConsistent Popup.opened
opened-IsConsistent = record {
  voted = (refl, refl, refl);
  syncing = refl;
  selected = tt;
  video = tt;
  unloaded = λ loading. (refl, refl);
  votes = tt;
}
