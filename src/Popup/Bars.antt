-- ===== src/Popup/Bars.antt =====
-- The bars of `CurrentVideoInfo` in realtube-extension/src/popup/popup.tsx, one for each category of a
-- video.
--
-- `sort` is `sort((a, b) => b[1].weightedScore - a[1].weightedScore)` on the entries. A width is a share
-- of a whole, which the code takes times 100 as a percentage.
use real_tube.Prelude.{
  ℕ, ◌≤◌, ◌<◌, ◌≡◌, refl, String, ◌==◌, List, [], ◌∷◌, map, All, leb, arith, if◌then◌else◌,
}
use real_tube.Records.{one, Categories, CategoryTally, CachedVideo}

pub record Bar : Type 0 where
  pub label : String
  pub share : ℕ
  pub whole : ℕ
  pub votes : ℕ

-- `CATEGORY_LABELS[id] || id`, of an id that is no name which every object inherits
pub label_of : String → String
label_of id =
    if id == "fully_ai"
    then "Fully AI"
    else if id == "ai_voiceover"
    then "AI Voice"
    else if id == "ai_visuals"
    then "AI Visuals"
    else if id == "ai_thumbnails"
    then "AI Thumbnail"
    else if id == "ai_assisted"
    then "AI Assist"
    else id

abbrev max : ℕ → ℕ → ℕ
max a b = if leb a b then b else a

-- `Math.max(...scores)` of scores that are not negative, where there are any
max_of : Categories → ℕ
max_of [] = 0
max_of ((id, tally) ∷ entries) = max tally.weighted_score (max_of entries)

-- `catEntries.length > 0 ? Math.max(...) : 1`
abbrev max_score : Categories → ℕ
max_score [] = one
max_score (entry ∷ entries) = max_of (entry ∷ entries)

bar : (whole : ℕ) → String × CategoryTally → Bar
bar whole (id, tally) = record {
  label = label_of id;
  share = tally.weighted_score;
  whole = whole;
  votes = tally.votes;
}

pub bars : (sort : Categories → Categories) → CachedVideo → List Bar
bars sort video =
    let entries = sort video.categories in map (bar (max (max_score entries) one)) entries

-- each entry has at least the score of the next one
abbrev pub IsFalling : Categories → Type 0
IsFalling [] = Unit
IsFalling (a ∷ []) = Unit
IsFalling (a ∷ b ∷ entries) = (b.1.weighted_score ≤ a.1.weighted_score) × IsFalling (b ∷ entries)

-- each bar is at least as wide as the next one, of the same whole
abbrev pub IsNarrowing : List Bar → Type 0
IsNarrowing [] = Unit
IsNarrowing (a ∷ []) = Unit
IsNarrowing (a ∷ b ∷ bars) = (b.share ≤ a.share) × (a.whole ≡ b.whole) × IsNarrowing (b ∷ bars)

-- a bar fits into its track, and its whole is not 0
abbrev pub Fits : Bar → Type 0
Fits bar = (bar.share ≤ bar.whole) × (0 < bar.whole)

bars-Fits :
    (entries : Categories) (whole : ℕ)
    → max_of entries ≤ whole
    → 0 < whole
    → All Fits (map (bar whole) entries)
unfolding max_of bar
bars-Fits [] whole le pos = tt
bars-Fits ((id, tally) ∷ entries) whole le pos =
    ((ground (arith, le), pos), bars-Fits entries whole (ground (arith, le)) pos)

bars-IsNarrowing :
    (entries : Categories) (whole : ℕ) → IsFalling entries → IsNarrowing (map (bar whole) entries)
unfolding bar
bars-IsNarrowing [] whole h = tt
bars-IsNarrowing (a ∷ []) whole h = tt
bars-IsNarrowing (a ∷ b ∷ entries) whole (le, h) =
    (le, refl, bars-IsNarrowing (b ∷ entries) whole h)

max_above : (a b : ℕ) → (a ≤ max a b) × (b ≤ max a b)
max_above a b = ground arith

score_le : (entries : Categories) → max_of entries ≤ max_score entries
unfolding max_of
score_le [] = omega arith
score_le (entry ∷ entries) = omega arith

one_pos : 0 < one
one_pos = omega arith

-- Every bar fits into its track, whose whole is never 0, and where the entries are sorted by falling
-- score each bar is at least as wide as the one below it.
pub bars_lem :
    (sort : Categories → Categories) (video : CachedVideo)
    → IsFalling (sort video.categories)
    → All Fits (bars sort video) × IsNarrowing (bars sort video)
unfolding bars
bars_lem sort video falling =
    let entries = sort video.categories in
    let (above, one_above) = max_above (max_score entries) one in
    (
      bars-Fits entries _ (omega (arith, score_le entries, above))
          (omega (arith, one_pos, one_above)),
      bars-IsNarrowing entries _ falling,
    )
