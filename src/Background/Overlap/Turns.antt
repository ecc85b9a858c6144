-- ===== src/Background/Overlap/Turns.antt =====
-- What the lookups have still to do, by video: a step takes from it just what it does.
use mathlib.Core.List
use real_tube.Prelude.{
  String, ◌==◌, ◌≡◌, refl, sym, ap, ◌∙◌, ◌⊎◌, inl, inr, Option, List, [], ◌∷◌, ◌++◌, keep, arith,
  Bool-cases,
}
use real_tube.Records.{VideoResult}
use real_tube.Background.Overlap.{
  Fetch, waiting, reading, writing, Act, Progress, answered, pushed, written, OneOf, this, other,
  expected, pushed_by, written_by,
}

-- the results for a video
abbrev pub only : String → List VideoResult → List VideoResult
only id results = keep (λ v. v.video_id == id) results

pub only-++ :
    (id : String) (xs ys : List VideoResult) → only id (xs ++ ys) ≡ only id xs ++ only id ys
only-++ id [] ys = refl
only-++ id (x ∷ xs) ys = elim (Bool-cases (x.video_id == id)) [
  | inl same ↦ rw same (ap (λ rest. x ∷ rest) (only-++ id xs ys))
  | inr off ↦ rw off (only-++ id xs ys)
]

module _ (answer : String → Option (List VideoResult)) where
  -- what a lookup has still to push, and to write
  abbrev pub to_push : Fetch → List VideoResult
  to_push (waiting prefix ids) = expected answer prefix ids
  to_push (reading vs) = vs
  to_push (writing v vs) = vs

  abbrev pub to_write : Fetch → List VideoResult
  to_write (waiting prefix ids) = expected answer prefix ids
  to_write (reading vs) = vs
  to_write (writing v vs) = v ∷ vs

  pub pushes_next :
      (f g : Fetch) (act : Act) → Progress answer f act g → to_push f ≡ pushed_by act ++ to_push g
  pushes_next f g act answered = refl
  pushes_next f g act pushed = refl
  pushes_next f g act written = refl

  pub writes_next :
      (f g : Fetch) (act : Act)
      → Progress answer f act g
      → to_write f ≡ written_by act ++ to_write g
  writes_next f g act answered = refl
  writes_next f g act pushed = refl
  writes_next f g act written = refl

empty_parts : {A : Type 0} (xs ys : List A) → xs ++ ys ≡ [] → (xs ≡ []) × (ys ≡ [])
empty_parts [] ys e = (refl, e)
empty_parts (x ∷ xs) ys e = absurd (ground (arith, e))

-- What is left, as `rest` counts it.
module _ (rest : Fetch → List VideoResult) where
  abbrev pub left : List Fetch → List VideoResult
  left [] = []
  left (f ∷ fs) = rest f ++ left fs

  -- no two lookups have results for the same video
  abbrev pub Apart : List Fetch → Type 0
  Apart [] = Unit
  Apart (f ∷ fs) = ((id : String) → (only id (rest f) ≡ []) ⊎ (only id (left fs) ≡ [])) × Apart fs

-- A step takes away what it emits.
module _ (answer : String → Option (List VideoResult)) (rest : Fetch → List VideoResult)
    (emit : Act → List VideoResult)
    (next : (f g : Fetch) (act : Act) → Progress answer f act g → rest f ≡ emit act ++ rest g) where
  only_next :
      (id : String) {f g : Fetch} {act : Act}
      → Progress answer f act g
      → only id (rest f) ≡ only id (emit act) ++ only id (rest g)
  only_next id {f} {g} {act} p = ap (only id) (next f g act p) ∙ only-++ id (emit act) (rest g)

  pub left_next :
      (id : String) {fs gs : List Fetch} {act : Act}
      → OneOf answer fs act gs
      → Apart rest fs
      → only id (left rest fs) ≡ only id (emit act) ++ only id (left rest gs)
  left_next id (this {f} {g} {act} {fs} p) (apart, h) =
      only-++ id (rest f) (left rest fs)
      ∙ ap (λ xs. xs ++ only id (left rest fs)) (only_next id p)
      ∙ List.append_assoc (only id (emit act)) (only id (rest g)) (only id (left rest fs))
      ∙ ap (λ xs. only id (emit act) ++ xs) (sym (only-++ id (rest g) (left rest fs)))
  left_next id (other {f} {act} {fs} {gs} p) (apart, h) =
      only-++ id (rest f) (left rest fs) ∙ elim (apart id) [
        | inl no_f ↦
            ap (λ xs. xs ++ only id (left rest fs)) no_f
            ∙ left_next id p h
            ∙ ap (λ xs. only id (emit act) ++ xs)
                (ap (λ xs. xs ++ only id (left rest gs)) (sym no_f)
                  ∙ sym (only-++ id (rest f) (left rest gs)))
        | inr no_fs ↦
            let (no_act, no_gs) =
              empty_parts (only id (emit act)) (only id (left rest gs))
                (sym (left_next id p h) ∙ no_fs) in
            ap (λ xs. only id (rest f) ++ xs) (no_fs ∙ sym no_gs)
            ∙ sym (only-++ id (rest f) (left rest gs))
            ∙ ap (λ xs. xs ++ only id (rest f ++ left rest gs)) (sym no_act)
      ]

  pub Apart-next :
      {fs gs : List Fetch} {act : Act} → OneOf answer fs act gs → Apart rest fs → Apart rest gs
  Apart-next (this {f} {g} {act} {fs} p) (apart, h) = (
    λ id. elim (apart id) [
      | inl no_f ↦
          inl
            ((empty_parts (only id (emit act)) (only id (rest g)) (sym (only_next id p) ∙ no_f)).1)
      | inr no_fs ↦ inr no_fs
    ],
    h,
  )
  Apart-next (other {f} {act} {fs} {gs} p) (apart, h) = (
    λ id. elim (apart id) [
      | inl no_f ↦ inl no_f
      | inr no_fs ↦ inr (
          (empty_parts (only id (emit act)) (only id (left rest gs))
            (sym (left_next id p h) ∙ no_fs)).1)
    ],
    Apart-next p h,
  )
