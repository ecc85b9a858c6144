-- ===== src/Background/Overlap/Start.antt =====
-- At the start no two lookups of CHECK_VIDEOS have results for the same video, since each video is in
-- the group of its own hash prefix.

use mathlib.Core.Path.{subst}
use real_tube.Prelude.{
  String, ◌==◌, eq_iff, ◌≡◌, refl, sym, ap, ◌∙◌, ◌⊎◌, inl, inr, true, false, Option, none, some,
  List, [], ◌∷◌, ◌++◌, map, has, All, arith, Bool-cases, if-both,
}
use real_tube.Records.{VideoResult}
use real_tube.Background.{PrefixMap, requested_of}
use real_tube.Background.Grouping.{IsMap, Hashed}
use real_tube.Background.Overlap.{Fetch, waiting, expected, start_of, in_order}
use real_tube.Background.Overlap.Turns.{only, only-++, left, Apart}

-- what is not in a list that all hash to a prefix has another hash, and the other way round
absent :
    (hash : String → String) (id prefix : String) (ids : List String)
    → All (λ i. hash i ≡ prefix) ids
    → (hash id == prefix) ≡ false
    → has id ids ≡ false
absent hash id prefix [] h e = refl
absent hash id prefix (i ∷ ids) (same, h) e = elim (Bool-cases (i == id)) [
  | inl here ↦
      let also : (hash id == prefix) ≡ true =
        (eq_iff (hash id) prefix).1 (sym (ap hash ((eq_iff i id).0 here)) ∙ same) in
      absurd (ground (arith, also, e))
  | inr off ↦ rw off (absent hash id prefix ids h e)
]

-- a lookup has no results for what it was not asked for
none_of :
    (answer : String → Option (List VideoResult)) (id prefix : String) (ids : List String)
    → has id ids ≡ false
    → only id (expected answer prefix ids) ≡ []
none_of answer id prefix ids h = go (answer prefix)
  where
    kept : (videos : List VideoResult) → only id (requested_of ids videos) ≡ []
    kept [] = refl
    kept (v ∷ videos) =
        if-both (λ xs. only id xs ≡ []) (has v.video_id ids) (v ∷ requested_of ids videos) _
          (λ inside.
            if-both (λ xs. xs ≡ []) (v.video_id == id) (v ∷ only id (requested_of ids videos)) _
              (λ same. absurd (
                ground
                  (arith, h, subst (λ i. has i ids ≡ true) ((eq_iff v.video_id id).0 same) inside)))
              (λ _. kept videos))
          (λ _. kept videos)

    go :
        (o : Option (List VideoResult))
        → only id (elim o as (λ (_ : Option (List VideoResult)). List VideoResult) [
          | none ↦ []
          | some videos ↦ requested_of ids videos
        ])
          ≡ []
    go none = refl
    go (some videos) = kept videos

none_in :
    (answer : String → Option (List VideoResult)) (hash : String → String) (id : String)
    (groups : PrefixMap)
    → Hashed hash groups
    → has (hash id) (map (λ g. g.0) groups) ≡ false
    → only id (in_order answer groups) ≡ []
none_in answer hash id [] h e = refl
none_in answer hash id ((prefix, ids) ∷ groups) (h, hs) e =
    let off : (hash id == prefix) ≡ false =
      ground (arith, e, eq_iff prefix (hash id), eq_iff (hash id) prefix) in
    let later : has (hash id) (map (λ g. g.0) groups) ≡ false = ground (arith, e) in
    only-++ id (expected answer prefix ids) (in_order answer groups)
    ∙ ap (λ xs. xs ++ only id (in_order answer groups))
        (none_of answer id prefix ids (absent hash id prefix ids h off))
    ∙ none_in answer hash id groups hs later

-- What a lookup that waits has left is what it is expected to answer.
module _ (answer : String → Option (List VideoResult)) (rest : Fetch → List VideoResult)
    (all : (prefix : String) (ids : List String)
      → rest (waiting prefix ids) ≡ expected answer prefix ids) where
  -- at the start everything is left, one lookup after the other
  pub started : (groups : PrefixMap) → left rest (map start_of groups) ≡ in_order answer groups
  started [] = refl
  started ((prefix, ids) ∷ groups) =
      ap (λ xs. xs ++ left rest (map start_of groups)) (all prefix ids)
      ∙ ap (λ xs. expected answer prefix ids ++ xs) (started groups)

  pub starting-Apart :
      (hash : String → String) (groups : PrefixMap)
      → IsMap groups
      → Hashed hash groups
      → Apart rest (map start_of groups)
  starting-Apart hash [] m h = tt
  starting-Apart hash ((prefix, ids) ∷ groups) (fresh, m) (h, hs) =
      (apart, starting-Apart hash groups m hs)
    where
      apart :
          (id : String)
          → (only id (rest (waiting prefix ids)) ≡ [])
            ⊎ (only id (left rest (map start_of groups)) ≡ [])
      apart id = elim (Bool-cases (hash id == prefix)) [
        | inl same ↦ inr (
            ap (only id) (started groups)
            ∙ none_in answer hash id groups hs (
                subst (λ q. has q (map (λ g. g.0) groups) ≡ false)
                  (sym ((eq_iff (hash id) prefix).0 same)) fresh))
        | inr off ↦ inl (
            ap (only id) (all prefix ids)
            ∙ none_of answer id prefix ids (absent hash id prefix ids h off))
      ]
