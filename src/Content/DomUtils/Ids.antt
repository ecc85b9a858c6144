-- ===== src/Content/DomUtils/Ids.antt =====
-- The ids that `extractVideoIdFromUrl` of realtube-extension/src/content/dom-utils.ts finds in a path.
use Prim.Native.Char.{code}
use Prim.Native.String.{◌++◌}
use real_tube.Prelude.{
  ℕ, zero, suc, String, ◌≡◌, refl, sym, ap, ◌∙◌, ◌↔◌, true, none, some, ◌=ℕ◌, =ℕ_iff, arith,
  Bool-cases, Option-cases, inl, inr,
}
use mathlib.Core.Path.{subst}
use text.Mathlib.TextEquality.{Char-path}
use text.Mathlib.TextLemmas.{nil-append, cons-append}
use real_tube.Content.DomUtils.{is_id_char, strip_prefix, take_id, shorts_id}

-- `n` characters, each of them a letter, a digit, `_` or `-`
abbrev pub IsId : ℕ → String → Type 0
IsId zero String.[] = Unit
IsId zero (String.◌∷◌ c s) = ⊥
IsId (suc n) String.[] = ⊥
IsId (suc n) (String.◌∷◌ c s) = (is_id_char (code c) ≡ true) × IsId n s

take_id-append : (n : ℕ) (id rest : String) → IsId n id → take_id n (id ++ rest) ≡ some id
unfolding take_id
take_id-append zero String.[] rest h = refl
take_id-append zero (String.◌∷◌ c id) rest h = absurd h
take_id-append (suc n) String.[] rest h = absurd h
take_id-append (suc n) (String.◌∷◌ c id) rest (h, hs) =
    rw (cons-append c id rest) (rw (h, take_id-append n id rest hs) refl)

-- the text begins with the id
abbrev Begins : ℕ → String → String → Type 0
Begins n s id = (rest : String) × (s ≡ id ++ rest) × IsId n id

take_id-some : (n : ℕ) (s id : String) → take_id n s ≡ some id → Begins n s id
unfolding take_id
take_id-some zero s id e =
    let same : "" ≡ id = cc e in subst (Begins zero s) same (s, sym (nil-append s), tt)
take_id-some (suc n) String.[] id e = absurd (ground (arith, e))
take_id-some (suc n) (String.◌∷◌ c s) id e = elim (Bool-cases (is_id_char (code c))) [
  | inr no_id ↦ let e' : none ≡ some id = (sym (rw no_id refl)) ∙ e in absurd (ground (arith, e'))
  | inl is_id ↦ elim (Option-cases (take_id n s)) [
    | inl short ↦
        let e' : none ≡ some id = sym (rw (is_id, short) refl) ∙ e in absurd (ground (arith, e'))
    | inr (more, found) ↦
        let e' : some (String.◌∷◌ c more) ≡ some id = sym (rw (is_id, found) refl) ∙ e in
        let same : String.◌∷◌ c more ≡ id = cc e' in
        let (rest, at, h) = take_id-some n s more found in
        subst (Begins (suc n) (String.◌∷◌ c s)) same
          (rest, ap (λ t. String.◌∷◌ c t) at ∙ sym (cons-append c more rest), (is_id, h))
  ]
]

strip_prefix-append : (prefix s : String) → strip_prefix prefix (prefix ++ s) ≡ some s
unfolding strip_prefix
strip_prefix-append String.[] s = ap some (nil-append s)
strip_prefix-append (String.◌∷◌ c prefix) s =
    rw (cons-append c prefix s)
      (rw ((=ℕ_iff (code c) (code c)).1 refl) (strip_prefix-append prefix s))

strip_prefix-some :
    (prefix s rest : String) → strip_prefix prefix s ≡ some rest → s ≡ prefix ++ rest
unfolding strip_prefix
strip_prefix-some String.[] s rest e = cc (e, nil-append rest)
strip_prefix-some (String.◌∷◌ c prefix) String.[] rest e = absurd (ground (arith, e))
strip_prefix-some (String.◌∷◌ c prefix) (String.◌∷◌ d s) rest e =
    elim (Bool-cases (code c =ℕ code d)) [
      | inr other ↦
          let e' : none ≡ some rest = sym (rw other refl) ∙ e in absurd (ground (arith, e'))
      | inl same ↦
          let at = strip_prefix-some prefix s rest (sym (rw same refl) ∙ e) in
          ap (λ t. String.◌∷◌ d t) at
          ∙ sym (
              ap (λ x. String.◌∷◌ x (prefix ++ rest))
                (Char-path c d ((=ℕ_iff (code c) (code d)).0 same)))
          ∙ sym (cons-append c prefix rest)
    ]

-- The id of a Shorts path is found just where the path is `/shorts/`, the id and any rest, and the id
-- has eleven characters, each a letter, a digit, `_` or `-`.
pub shorts_id_iff :
    (path id : String)
    → (shorts_id path ≡ some id)
      ↔ ((rest : String) × (path ≡ "/shorts/" ++ (id ++ rest)) × IsId 11 id)
unfolding shorts_id
shorts_id_iff path id = (λ e. found e, λ (rest, at, h). made rest at h)
  where
    made :
        (rest : String) → path ≡ "/shorts/" ++ (id ++ rest) → IsId 11 id → shorts_id path ≡ some id
    made rest at h =
        rw (at, strip_prefix-append "/shorts/" (id ++ rest)) (take_id-append 11 id rest h)

    found :
        shorts_id path ≡ some id
        → (rest : String) × (path ≡ "/shorts/" ++ (id ++ rest)) × IsId 11 id
    found e = elim (Option-cases (strip_prefix "/shorts/" path)) [
      | inl apart ↦ let e' : none ≡ some id = sym (rw apart refl) ∙ e in absurd (ground (arith, e'))
      | inr (after, at) ↦
          let (rest, here, h) = take_id-some 11 after id (sym (rw at refl) ∙ e) in
          (rest, strip_prefix-some "/shorts/" path after at ∙ ap (λ s. "/shorts/" ++ s) here, h)
    ]

pub shorts_id-watch : shorts_id "/watch" ≡ none
unfolding shorts_id strip_prefix
shorts_id-watch = refl
