-- ===== src/ObjectStore.antt =====
-- An IndexedDB object store with a key path, as cache.ts creates them: the records in ascending
-- order of their keys, at most one for each key. `key` is the key path. Keys are compared by code
-- point, which is the order of IndexedDB but for characters outside the basic plane.
pub mod Laws
pub mod Sorted
use real_tube.Prelude.{ℕ, String, ◌==◌, Option, none, some, List, [], ◌∷◌, length, if◌then◌else◌}
use real_tube.Prelude.Order.{before}

abbrev pub ObjectStore {ℓ} : Type ℓ → Type ℓ
ObjectStore V = List V

module _ {ℓ} {V : Type ℓ} (key : V → String) where
  -- store.get(k)
  unfoldable pub get : String → ObjectStore V → Option V
  get k [] = none
  get k (v ∷ s) = if key v == k then some v else get k s

  -- store.put(v): replaces the record of the same key
  unfoldable pub put : V → ObjectStore V → ObjectStore V
  put v [] = v ∷ []
  put v (u ∷ s) =
      if key u == key v then v ∷ s else if before (key v) (key u) then v ∷ u ∷ s else u ∷ put v s

  -- store.delete(k)
  unfoldable pub delete : String → ObjectStore V → ObjectStore V
  delete k [] = []
  delete k (v ∷ s) = let rest = delete k s in if key v == k then rest else v ∷ rest

  -- a loop of `put` in one transaction
  unfoldable pub put_all : List V → ObjectStore V → ObjectStore V
  put_all [] s = s
  put_all (v ∷ vs) s = put_all vs (put v s)

-- store.clear()
abbrev pub clear {ℓ} : {V : Type ℓ} → ObjectStore V → ObjectStore V
clear s = []

-- store.count()
abbrev pub count {ℓ} : {V : Type ℓ} → ObjectStore V → ℕ
count s = length s

-- store.getAll()
abbrev pub get_all {ℓ} : {V : Type ℓ} → ObjectStore V → List V
get_all s = s
