-- ===== src/Content/DomUtils/Found.antt =====
-- The maps from video ids to elements that realtube-extension/src/content/dom-utils.ts builds.
use real_tube.Prelude.{
  String, ◌==◌, eq_iff, ◌≡◌, refl, ◌∙◌, Option, none, some, List, [], ◌∷◌, arith, if◌then◌else◌,
}
use real_tube.ObjectStore.Laws.{or_else}
use real_tube.Browser.{truthy}
use real_tube.Content.DomUtils.{set_entry, get_entry, add_found, collect_ids}

module _ {ℓ} {A : Type ℓ} where
  -- the element, where the id that was found is the key
  abbrev found_as : String → Option String → A → Option A
  found_as key none element = none
  found_as key (some id) element = if id == key then some element else none

  get-set_entry :
      (key k : String) (v : A) (entries : List (String × A))
      → get_entry key (set_entry k v entries) ≡ (if k == key then some v else get_entry key entries)
  unfolding get_entry set_entry
  get-set_entry key k v [] = refl
  get-set_entry key k v ((j, u) ∷ entries) =
      ground (arith, eq_iff j k, eq_iff j key, eq_iff k key, get-set_entry key k v entries)

  get-add_found :
      (key : String) (id : Option String) (v : A) (entries : List (String × A))
      → get_entry key (add_found id v entries) ≡ or_else (found_as key id v) (get_entry key entries)
  unfolding add_found
  get-add_found key none v entries = refl
  get-add_found key (some id) v entries = get-set_entry key id v entries ∙ ground arith

module _ {ℓ} {A R : Type ℓ} (extract : R → Option String) where
  -- the last element in which the id is found
  unfoldable pub last_found : String → List (A × R) → Option A
  last_found key [] = none
  last_found key ((element, renderer) ∷ elements) =
      or_else (last_found key elements) (found_as key (truthy (extract renderer)) element)

  pub get-collect_ids :
      (key : String) (elements : List (A × R)) (entries : List (String × A))
      → get_entry key (collect_ids extract elements entries)
        ≡ or_else (last_found key elements) (get_entry key entries)
  unfolding collect_ids last_found
  get-collect_ids key [] entries = refl
  get-collect_ids key ((element, renderer) ∷ elements) entries =
      get-collect_ids key elements (add_found (truthy (extract renderer)) element entries)
      ∙ ground (arith, get-add_found key (truthy (extract renderer)) element entries)
