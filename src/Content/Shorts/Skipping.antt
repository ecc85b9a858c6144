-- ===== src/Content/Shorts/Skipping.antt =====
-- When realtube-extension/src/content/shorts.ts skips a short.
use real_tube.Prelude.{
  ℕ, zero, suc, ◌+◌, String, ◌==◌, ◌≡◌, refl, sym, ap, ◌∙◌, Bool, true, false, ◌&&◌, ◌||◌, Option,
  none, some, List, [], ◌∷◌, leb, arith, if◌then◌else◌, Bool-cases, inl, inr,
}
use real_tube.Records.{CachedVideo}
use real_tube.Content.DomUtils.{Url}
use real_tube.Content.Shorts.{
  Short, ShortsPage, Check, mark, mark_at, first_of, is_skipped, check_of,
  extract_video_id_from_short, skip_to_next_short, finish_check, start_check,
  get_current_short_video_id,
}

-- whether the answer has the video with a score that reaches the threshold
abbrev pub is_over : String → ℕ → List CachedVideo → Bool
is_over id threshold [] = false
is_over id threshold (video ∷ videos) =
    (video.video_id == id && leb threshold video.score) || is_over id threshold videos

-- the page after its current short has been skipped
abbrev pub skipped : Check → ShortsPage → ShortsPage
skipped check page =
    skip_to_next_short (record page { renderers = mark check.renderer page.renderers })

finish_check_lem :
    (check : Check) (threshold : ℕ) (videos : List CachedVideo) (page : ShortsPage)
    → finish_check check threshold videos page
      ≡ (if is_over check.id threshold videos then skipped check page else page)
unfolding finish_check
finish_check_lem check threshold [] page = refl
finish_check_lem check threshold (video ∷ videos) page =
    elim (Bool-cases (video.video_id == check.id && leb threshold video.score)) [
      | inl over ↦ rw over refl
      | inr under ↦ rw under (finish_check_lem check threshold videos page)
    ]

-- what a skip leaves of the page
record Same (page after : ShortsPage) (renderers : List Short) : Type 0 where
  pub href : after.href ≡ page.href
  pub shown : after.renderers ≡ renderers

skip-Same : (page : ShortsPage) → Same page (skip_to_next_short page) page.renderers
unfolding skip_to_next_short
skip-Same page = elim (Bool-cases page.next_button) [
  | inl button ↦ rw button (record { href = refl; shown = refl })
  | inr no_button ↦ elim (Bool-cases page.container) [
    | inl container ↦ rw (no_button, container) (record { href = refl; shown = refl })
    | inr nothing ↦ rw (no_button, nothing) (record { href = refl; shown = refl })
  ]
]

module _ (parse : String → Option Url) where
  first_of-mark :
      (id : String) (i : ℕ) (shorts : List Short)
      → first_of parse id (mark_at i shorts) ≡ first_of parse id shorts
  unfolding first_of mark_at extract_video_id_from_short
  first_of-mark id i [] = refl
  first_of-mark id zero (short ∷ shorts) = refl
  first_of-mark id (suc i) (short ∷ shorts) = rw (first_of-mark id i shorts) refl

  is_skipped-mark :
      (id : String) (i : ℕ) (shorts : List Short)
      → first_of parse id shorts ≡ some i
      → is_skipped parse (some i) (mark_at i shorts) ≡ true
  unfolding is_skipped mark_at first_of
  is_skipped-mark id i [] e = absurd (ground (arith, e))
  is_skipped-mark id zero (short ∷ shorts) e = refl
  is_skipped-mark id (suc i) (short ∷ shorts) e = is_skipped-mark id i shorts (ground (arith, e))

  check_of-some :
      (id : Option String) (shorts : List Short) (check : Check)
      → check_of parse id shorts ≡ some check
      → (id ≡ some check.id) × (check.renderer ≡ first_of parse check.id shorts)
  unfolding check_of
  check_of-some none shorts check e = absurd (ground (arith, e))
  check_of-some (some id) shorts check e =
      elim (Bool-cases (is_skipped parse (first_of parse id shorts) shorts)) [
        | inl done ↦
            let e' : none ≡ some check = sym (rw done refl) ∙ e in absurd (ground (arith, e'))
        | inr fresh ↦
            let e' : some (record { id = id; renderer = first_of parse id shorts }) ≡ some check =
              sym (rw fresh refl) ∙ e in
            let same : record { id = id; renderer = first_of parse id shorts } ≡ check = cc e' in
            (
              ap (λ c. some c.id) same,
              sym (ap (λ c. c.renderer) same) ∙ ap (λ c. first_of parse c.id shorts) same,
            )
      ]

  check_of-mark :
      (id : String) (i : ℕ) (shorts : List Short)
      → first_of parse id shorts ≡ some i
      → check_of parse (some id) (mark_at i shorts) ≡ none
  unfolding check_of
  check_of-mark id i shorts e =
      rw (first_of-mark id i shorts, e, is_skipped-mark id i shorts e) refl

  skipped_once :
      (page : ShortsPage) (check : Check) (i : ℕ)
      → start_check parse page ≡ some check
      → check.renderer ≡ some i
      → start_check parse (skipped check page) ≡ none
  unfolding start_check get_current_short_video_id
  skipped_once page check i started at =
      let (current, renderer) = check_of-some _ page.renderers check started in
      let left = skip-Same (record page { renderers = mark check.renderer page.renderers }) in
      rw (left.href, left.shown, current, at)
        (check_of-mark check.id i page.renderers (sym renderer ∙ at))

  -- A short that a check has skipped is not checked again while the page stays the same: where the check
  -- has found the renderer of the current short, and the answer gives its video a score at or above
  -- the threshold, another check that starts once the first has ended, on the page as that one
  -- leaves it, ends before it asks the worker. This says nothing of checks that overlap, nor of a
  -- short whose renderer was not found.
  pub finish_check-once :
      (page : ShortsPage) (check : Check) (i threshold : ℕ) (videos : List CachedVideo)
      → start_check parse page ≡ some check
      → check.renderer ≡ some i
      → is_over check.id threshold videos ≡ true
      → start_check parse (finish_check check threshold videos page) ≡ none
  finish_check-once page check i threshold videos started at over =
      rw (finish_check_lem check threshold videos page, over) (skipped_once page check i started at)

-- how often the page has moved on
abbrev pub moves : ShortsPage → ℕ
moves page = page.clicks + page.scrolls

moves-skip :
    (page : ShortsPage)
    → moves (skip_to_next_short page)
      ≡ moves page + (if page.next_button || page.container then 1 else 0)
unfolding skip_to_next_short
moves-skip page = ground arith

-- A check moves the page on by one short where the answer gives its video a score at or above the
-- threshold and the page has a button or a container to move on by. In no other case does it move.
pub moves-finish_check :
    (check : Check) (threshold : ℕ) (videos : List CachedVideo) (page : ShortsPage)
    → moves (finish_check check threshold videos page)
      ≡ moves page
        + (if is_over check.id threshold videos && (page.next_button || page.container)
            then 1
            else 0)
moves-finish_check check threshold videos page =
    rw (finish_check_lem check threshold videos page)
      (elim (Bool-cases (is_over check.id threshold videos)) [
        | inl over ↦
            rw over (moves-skip (record page { renderers = mark check.renderer page.renderers }))
        | inr under ↦ rw under (omega arith)
      ])

abbrev can_move : ShortsPage → Bool
can_move page = page.next_button || page.container

can_move-skip : (page : ShortsPage) → can_move (skip_to_next_short page) ≡ can_move page
unfolding skip_to_next_short
can_move-skip page = ground arith

can_move-finish_check :
    (check : Check) (threshold : ℕ) (videos : List CachedVideo) (page : ShortsPage)
    → can_move (finish_check check threshold videos page) ≡ can_move page
can_move-finish_check check threshold videos page =
    rw (finish_check_lem check threshold videos page)
      (elim (Bool-cases (is_over check.id threshold videos)) [
        | inl over ↦
            rw over (can_move-skip (record page { renderers = mark check.renderer page.renderers }))
        | inr under ↦ rw under refl
      ])

-- Two checks of one short that overlap skip twice. Where both have found that the short is to be
-- checked before the first of their answers has come, and both answers give its video a score at or
-- above the threshold, the page moves on by two, if it has a button or a container to move on by.
pub overlapping_checks :
    (check : Check) (threshold : ℕ) (first second : List CachedVideo) (page : ShortsPage)
    → is_over check.id threshold first ≡ true
    → is_over check.id threshold second ≡ true
    → (page.next_button || page.container) ≡ true
    → moves (finish_check check threshold second (finish_check check threshold first page))
      ≡ moves page + 2
overlapping_checks check threshold first second page over over' movable =
    let page' = finish_check check threshold first page in
    let movable' : can_move page' ≡ true =
      can_move-finish_check check threshold first page ∙ movable in
    ground (
      arith,
      moves-finish_check check threshold second page',
      moves-finish_check check threshold first page,
      over,
      over',
      movable,
      movable',
    )
