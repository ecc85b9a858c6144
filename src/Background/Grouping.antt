-- ===== src/Background/Grouping.antt =====
-- The map from hash prefixes to video ids that CHECK_VIDEOS and LOOKUP_VIDEOS of
-- realtube-extension/src/background/background.ts build.
use real_tube.Prelude.{
  String, ◌==◌, eq_iff, ◌≡◌, refl, sym, ap, ◌∙◌, false, ◌||◌, List, [], ◌∷◌, map, ◌++◌, keep, has,
  All, All-append, if◌then◌else◌, Bool-cases, inl, inr, arith,
}
use mathlib.Core.List
use real_tube.Background.{PrefixMap, add_to_prefix, group_by_prefix}

-- `prefixMap.get(prefix)`, and no ids where it has none
abbrev pub ids_of : String → PrefixMap → List String
ids_of prefix [] = []
ids_of prefix ((q, ids) ∷ groups) = if q == prefix then ids else ids_of prefix groups

-- no prefix stands in the map twice
abbrev pub IsMap : PrefixMap → Type 0
IsMap [] = Unit
IsMap ((q, ids) ∷ groups) = (has q (map (λ g. g.0) groups) ≡ false) × IsMap groups

ids_of-add :
    (q prefix id : String) (groups : PrefixMap)
    → ids_of q (add_to_prefix prefix id groups)
      ≡ ids_of q groups ++ (if prefix == q then id ∷ [] else [])
unfolding add_to_prefix
ids_of-add q prefix id [] = ground arith
ids_of-add q prefix id ((r, ids) ∷ groups) = elim (Bool-cases (r == prefix)) [
  | inl same ↦
      let also : (prefix == q) ≡ (r == q) =
        ground (arith, same, eq_iff r prefix, eq_iff r q, eq_iff prefix q) in
      rw (same, also)
        (elim (Bool-cases (r == q)) [
          | inl here ↦ rw here refl
          | inr elsewhere ↦ rw elsewhere (sym (List.append-nil (ids_of q groups)))
        ])
  | inr other ↦ rw other (elim (Bool-cases (r == q)) [
    | inl here ↦
        let apart : (prefix == q) ≡ false =
          ground (arith, here, other, eq_iff r prefix, eq_iff r q, eq_iff prefix q) in
        rw (here, apart) (sym (List.append-nil ids))
    | inr elsewhere ↦ rw elsewhere (ids_of-add q prefix id groups)
  ])
]

has-add :
    (r prefix id : String) (groups : PrefixMap)
    → has r (map (λ g. g.0) (add_to_prefix prefix id groups))
      ≡ (has r (map (λ g. g.0) groups) || prefix == r)
unfolding add_to_prefix
has-add r prefix id [] = ground arith
has-add r prefix id ((q, ids) ∷ groups) = elim (Bool-cases (q == prefix)) [
  | inl same ↦ rw same (ground (arith, same, eq_iff q prefix, eq_iff q r, eq_iff prefix r))
  | inr other ↦ rw other (ground (arith, has-add r prefix id groups))
]

IsMap-add :
    (prefix id : String) (groups : PrefixMap)
    → IsMap groups
    → IsMap (add_to_prefix prefix id groups)
unfolding add_to_prefix
IsMap-add prefix id [] h = (refl, tt)
IsMap-add prefix id ((q, ids) ∷ groups) (fresh, h) = elim (Bool-cases (q == prefix)) [
  | inl same ↦ rw same (fresh, h)
  | inr other ↦ rw other (
    ground (arith, fresh, other, has-add q prefix id groups, eq_iff q prefix, eq_iff prefix q),
    IsMap-add prefix id groups h,
  )
]

group-grows :
    (hash : String → String) (q : String) (ids : List String) (groups : PrefixMap)
    → IsMap groups
    → IsMap (group_by_prefix hash ids groups)
      × (ids_of q (group_by_prefix hash ids groups)
          ≡ ids_of q groups ++ keep (λ id. hash id == q) ids)
unfolding group_by_prefix
group-grows hash q [] groups h = (h, sym (List.append-nil _))
group-grows hash q (id ∷ ids) groups h =
    let (one, rest) =
      group-grows hash q ids (add_to_prefix (hash id) id groups)
        (IsMap-add (hash id) id groups h) in
    (
      one,
      rest
          ∙ rw (ids_of-add q (hash id) id groups) (elim (Bool-cases (hash id == q)) [
            | inl same ↦ rw same (List.append_assoc (ids_of q groups) (id ∷ []) _)
            | inr other ↦
                rw other (ap (λ xs. xs ++ keep (λ id. hash id == q) ids) (List.append-nil _))
          ]),
    )

-- the ids of each group have the hash that the group stands under
abbrev pub Hashed : (hash : String → String) → PrefixMap → Type 0
Hashed hash groups = All (λ g. All (λ id. hash id ≡ g.0) g.1) groups

add-Hashed :
    (hash : String → String) (id : String) (groups : PrefixMap)
    → Hashed hash groups
    → Hashed hash (add_to_prefix (hash id) id groups)
unfolding add_to_prefix
add-Hashed hash id [] h = ((refl, tt), tt)
add-Hashed hash id ((q, ids) ∷ groups) (h, hs) = elim (Bool-cases (q == hash id)) [
  | inl same ↦
      rw same
        (All-append (λ i. hash i ≡ q) ids (id ∷ []) h (sym ((eq_iff q (hash id)).0 same), tt), hs)
  | inr other ↦ rw other (h, add-Hashed hash id groups hs)
]

pub group-Hashed :
    (hash : String → String) (ids : List String) (groups : PrefixMap)
    → Hashed hash groups
    → Hashed hash (group_by_prefix hash ids groups)
unfolding group_by_prefix
group-Hashed hash [] groups h = h
group-Hashed hash (id ∷ ids) groups h =
    group-Hashed hash ids (add_to_prefix (hash id) id groups) (add-Hashed hash id groups h)

-- The map of the requested ids has each prefix once, and for a prefix it holds just the ids whose
-- hash has that prefix, in the order of the request.
pub group_by_prefix_lem :
    (hash : String → String) (ids : List String)
    → IsMap (group_by_prefix hash ids [])
      × ((q : String) → ids_of q (group_by_prefix hash ids []) ≡ keep (λ id. hash id == q) ids)
group_by_prefix_lem hash ids =
    ((group-grows hash "" ids [] tt).0, λ q. (group-grows hash q ids [] tt).1)
