-- ===== src/ObjectStore/Laws.antt =====
-- What a read returns after writes: a store is a finite map from keys to records.
use real_tube.Prelude.{
  String, ◌==◌, eq_iff, ◌≡◌, refl, Option, none, some, List, [], ◌∷◌, arith, if◌then◌else◌,
}
use real_tube.ObjectStore.{ObjectStore, get, put, delete, put_all}

-- the second answer where the first is missing
abbrev pub or_else {ℓ} : {A : Type ℓ} → Option A → Option A → Option A
or_else (some a) o = some a
or_else none o = o

module _ {ℓ} {V : Type ℓ} (key : V → String) where
  -- the last of the records with the key
  unfoldable pub last_with : String → List V → Option V
  last_with k [] = none
  last_with k (v ∷ vs) = or_else (last_with k vs) (if key v == k then some v else none)

  pub get-put :
      (k : String) (v : V) (s : ObjectStore V)
      → get key k (put key v s) ≡ (if key v == k then some v else get key k s)
  unfolding get put
  get-put k v [] = refl
  get-put k v (u ∷ s) =
      ground (arith, eq_iff (key u) (key v), eq_iff (key u) k, eq_iff (key v) k, get-put k v s)

  pub get-delete :
      (k j : String) (s : ObjectStore V)
      → get key k (delete key j s) ≡ (if j == k then none else get key k s)
  unfolding get delete
  get-delete k j [] = ground arith
  get-delete k j (u ∷ s) =
      ground (arith, eq_iff (key u) j, eq_iff (key u) k, eq_iff j k, get-delete k j s)

  pub get-put_all :
      (k : String) (vs : List V) (s : ObjectStore V)
      → get key k (put_all key vs s) ≡ or_else (last_with k vs) (get key k s)
  unfolding put_all last_with
  get-put_all k [] s = refl
  get-put_all k (v ∷ vs) s = ground (arith, get-put_all k vs (put key v s), get-put k v s)

  -- A record that is found has the key that was asked for.
  pub key_of_get : (k : String) (s : ObjectStore V) (v : V) → get key k s ≡ some v → key v ≡ k
  unfolding get
  key_of_get k [] v h = cc
  key_of_get k (u ∷ s) v h = ground (arith, eq_iff (key u) k, key_of_get k s v)
