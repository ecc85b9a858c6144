-- ===== src/ObjectStore/Sorted.antt =====
-- The order of the keys is kept, and a sorted store is determined by its reads.
use real_tube.Prelude.{
  suc, String, ◌==◌, eq_iff, eq_refl, ◌≡◌, refl, ap, true, none, List, [], ◌∷◌, arith, is_some,
  if◌then◌else◌, Bool-cases, inl, inr,
}
use real_tube.Prelude.Order.{before, before_trans, before_irrefl, before_total}
use real_tube.ObjectStore.{count, ObjectStore, get, put, delete, put_all}

module _ {ℓ} {V : Type ℓ} (key : V → String) where
  -- every key of the store comes after `k`
  abbrev pub IsBelow : String → ObjectStore V → Type 0
  IsBelow k [] = Unit
  IsBelow k (v ∷ s) = (before k (key v) ≡ true) × IsBelow k s

  abbrev pub IsSorted : ObjectStore V → Type 0
  IsSorted [] = Unit
  IsSorted (v ∷ s) = IsBelow (key v) s × IsSorted s

  IsBelow-trans : (j k : String) (s : ObjectStore V) → before j k ≡ true → IsBelow k s → IsBelow j s
  IsBelow-trans j k [] h b = tt
  IsBelow-trans j k (v ∷ s) h (l, b) = (before_trans j k (key v) h l, IsBelow-trans j k s h b)

  IsBelow-put :
      (k : String) (v : V) (s : ObjectStore V)
      → before k (key v) ≡ true
      → IsBelow k s
      → IsBelow k (put key v s)
  unfolding put
  IsBelow-put k v [] h b = (h, tt)
  IsBelow-put k v (u ∷ s) h (l, b) = ground (arith, IsBelow-put k v s h b)

  IsBelow-delete : (k j : String) (s : ObjectStore V) → IsBelow k s → IsBelow k (delete key j s)
  unfolding delete
  IsBelow-delete k j [] b = tt
  IsBelow-delete k j (u ∷ s) (l, b) = ground (arith, IsBelow-delete k j s b)

  pub put-IsSorted : (v : V) (s : ObjectStore V) → IsSorted s → IsSorted (put key v s)
  unfolding put
  put-IsSorted v [] h = (tt, tt)
  put-IsSorted v (u ∷ s) (b, h) = ground (
    arith,
    eq_iff (key u) (key v),
    before_total (key v) (key u),
    put-IsSorted v s h,
    IsBelow-put (key u) v s,
    IsBelow-trans (key v) (key u) s,
  )

  pub delete-IsSorted : (k : String) (s : ObjectStore V) → IsSorted s → IsSorted (delete key k s)
  unfolding delete
  delete-IsSorted k [] h = tt
  delete-IsSorted k (u ∷ s) (b, h) =
      ground (arith, delete-IsSorted k s h, IsBelow-delete (key u) k s b)

  pub put_all-IsSorted :
      (vs : List V) (s : ObjectStore V) → IsSorted s → IsSorted (put_all key vs s)
  unfolding put_all
  put_all-IsSorted [] s h = h
  put_all-IsSorted (v ∷ vs) s h = put_all-IsSorted vs (put key v s) (put-IsSorted v s h)

  get_of_IsBelow : (k : String) (s : ObjectStore V) → IsBelow k s → get key k s ≡ none
  unfolding get
  get_of_IsBelow k [] b = refl
  get_of_IsBelow k (v ∷ s) (l, b) =
      ground (arith, eq_iff (key v) k, before_irrefl k, get_of_IsBelow k s b)

  -- A sorted store counts one record more after a write of a new key, and no more after a
  -- replacement.
  pub count-put :
      (v : V) (s : ObjectStore V)
      → IsSorted s
      → count (put key v s) ≡ (if is_some (get key (key v) s) then count s else suc (count s))
  unfolding get put
  count-put v [] h = refl
  count-put v (u ∷ s) (b, h) = ground (
    arith,
    count-put v s h,
    eq_iff (key u) (key v),
    get_of_IsBelow (key v) s,
    IsBelow-trans (key v) (key u) s,
  )

  -- the reads of the tails agree where those of the whole stores do
  get-tail :
      (u v : V) (s t : ObjectStore V)
      → key u ≡ key v
      → IsBelow (key u) s
      → IsBelow (key v) t
      → (k : String) → get key k (u ∷ s) ≡ get key k (v ∷ t)
      → get key k s ≡ get key k t
  unfolding get
  get-tail u v s t e bs bt k same = elim (Bool-cases (key u == k)) [
    | inl at ↦ ground (arith, eq_iff (key u) k, get_of_IsBelow k s, get_of_IsBelow k t)
    | inr off ↦ ground (arith, eq_iff (key u) k, eq_iff (key v) k)
  ]

  same_head :
      (u v : V) (s t : ObjectStore V)
      → IsBelow (key u) s
      → IsBelow (key v) t
      → get key (key u) (u ∷ s) ≡ get key (key u) (v ∷ t)
      → get key (key v) (u ∷ s) ≡ get key (key v) (v ∷ t)
      → u ≡ v
  unfolding get
  same_head u v s t bs bt at_u at_v = ground (
    arith,
    eq_refl (key u),
    eq_refl (key v),
    eq_iff (key u) (key v),
    eq_iff (key v) (key u),
    before_total (key u) (key v),
    get_of_IsBelow (key u) t,
    get_of_IsBelow (key v) s,
    IsBelow-trans (key u) (key v) t,
    IsBelow-trans (key v) (key u) s,
  )

  -- Two sorted stores that answer every read alike are the same store.
  pub get_ext :
      (s t : ObjectStore V)
      → IsSorted s
      → IsSorted t
      → ((k : String) → get key k s ≡ get key k t)
      → s ≡ t
  get_ext [] [] hs ht same = refl
  get_ext [] (v ∷ t) hs ht same = unfold get in ground (arith, same (key v), eq_refl (key v))
  get_ext (u ∷ s) [] hs ht same = unfold get in ground (arith, same (key u), eq_refl (key u))
  get_ext (u ∷ s) (v ∷ t) (bs, hs) (bt, ht) same =
      let e = same_head u v s t bs bt (same (key u)) (same (key v)) in
      cc (e, get_ext s t hs ht (λ k. get-tail u v s t (ap key e) bs bt k (same k)))
