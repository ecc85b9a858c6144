-- ===== src/Prelude/Order.antt =====
-- The order of texts by their characters' numbers, with the laws that sorted keys need.
use Prim.Native.Nat.{ℕ, compare as compare_ℕ, Ordering}
use Prim.Native.Char.{Char, code}
use Prim.Native.String.compare
use Prim.Native.String.{String, [], ◌∷◌, compare, then}
use mathlib.Core.Path.{◌≡◌, refl}
use mathlib.Core.Logic.{◌⊎◌, inl, inr}
use mathlib.Core.Bool.{Bool, true, false}
use native.Mathlib.Omega.{arith}
use text.Mathlib.Text.{is_lt}
use text.Mathlib.TextEquality.{path_by_compare}
use text.Mathlib.TextPositions.{compare_refl}

abbrev pub before : String → String → Bool
before s t = is_lt (compare s t)

then_trans :
    (m n k : ℕ) (o p q : Ordering)
    → (is_lt o ≡ true → is_lt p ≡ true → is_lt q ≡ true)
    → is_lt (then (compare_ℕ m n) o) ≡ true
    → is_lt (then (compare_ℕ n k) p) ≡ true
    → is_lt (then (compare_ℕ m k) q) ≡ true
then_trans m n k o p q ih h₁ h₂ = ground arith

gt_is_not_lt : is_lt Ordering.gt ≡ true → ⊥
gt_is_not_lt h = cc

pub before_trans : (s t u : String) → before s t ≡ true → before t u ≡ true → before s u ≡ true
before_trans [] [] u h k = k
before_trans (c ∷ s) [] u h k = absurd (gt_is_not_lt (rw compare.cons-nil at h))
before_trans [] (d ∷ t) [] h k = rw compare.cons-nil at k
before_trans [] (d ∷ t) (e ∷ u) h k = rw compare.nil-cons refl
before_trans (c ∷ s) (d ∷ t) [] h k = absurd (gt_is_not_lt (rw compare.cons-nil at k))
before_trans (c ∷ s) (d ∷ t) (e ∷ u) h k = rw compare.cons-cons (
    then_trans (code c) (code d) (code e) (compare s t) (compare t u) (compare s u)
      (before_trans s t u) (rw compare.cons-cons at h) (rw compare.cons-cons at k))

pub before_irrefl : (s : String) → before s s ≡ false
before_irrefl s = rw compare_refl

then_total :
    (c d : Char) (s t : String)
    → (is_lt (compare s t) ≡ true) ⊎ (compare s t ≡ Ordering.eq) ⊎ (is_lt (compare t s) ≡ true)
    → (is_lt (then (compare_ℕ (code c) (code d)) (compare s t)) ≡ true)
      ⊎ (then (compare_ℕ (code c) (code d)) (compare s t) ≡ Ordering.eq)
      ⊎ (is_lt (then (compare_ℕ (code d) (code c)) (compare t s)) ≡ true)
then_total c d s t h = ground arith

compare_cases :
    (s t : String)
    → (is_lt (compare s t) ≡ true) ⊎ (compare s t ≡ Ordering.eq) ⊎ (is_lt (compare t s) ≡ true)
compare_cases [] [] = inr (inl compare.nil-nil)
compare_cases [] (d ∷ t) = inl (rw compare.nil-cons refl)
compare_cases (c ∷ s) [] = inr (inr (rw compare.nil-cons refl))
compare_cases (c ∷ s) (d ∷ t) = simp compare.cons-cons (then_total c d s t (compare_cases s t))

-- Of two different texts one stands before the other.
pub before_total : (s t : String) → (s ≡ t → ⊥) → before s t ≡ false → before t s ≡ true
before_total s t ne h = elim (compare_cases s t) [
  | inl l ↦ cc
  | inr (inl e) ↦ absurd (ne (path_by_compare s t e))
  | inr (inr g) ↦ g
]
