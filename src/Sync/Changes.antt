-- ===== src/Sync/Changes.antt =====
-- The loops of `performDeltaSync` over the changes that the server sends, for videos and channels
-- alike: what they collect, count and delete.
use mathlib.Core.List.{append-nil, append_assoc}
use native.Mathlib.Nat.{add-zero, zero-add, add_assoc}
use real_tube.Prelude.{
  ℕ, suc, ◌+◌, String, ◌==◌, ◌≡◌, refl, ◌∙◌, Bool, false, ◌||◌, Option, none, List, [], ◌∷◌, ◌++◌,
  arith, length, if◌then◌else◌,
}
use real_tube.Effects.{ok}
use real_tube.ObjectStore.{ObjectStore, get, delete, put_all}
use real_tube.ObjectStore.Laws.{or_else, last_with, get-delete, get-put_all}
use real_tube.Browser.{Db, World, M}
use real_tube.Sync.{Step, deletes, stores, skips, Loop, run_step, apply_changes}

if_twice {ℓ} :
    {A : Type ℓ} (a b : Bool) (o : Option A)
    → (if b then none else (if a then none else o)) ≡ (if a || b then none else o)
if_twice a b o = ground arith

one_add : (n : ℕ) → 1 + n ≡ suc n
one_add n = omega arith

module _ {V : Type 0} where
  abbrev onto : Step V → List V → List V
  onto (deletes id) rest = rest
  onto (stores v) rest = v ∷ rest
  onto skips rest = rest

  -- the records that are stored, in order
  unfoldable pub updates : List (Step V) → List V
  updates [] = []
  updates (st ∷ sts) = onto st (updates sts)

  abbrev is_removal_of : String → Step V → Bool
  is_removal_of k (deletes id) = id == k
  is_removal_of k (stores v) = false
  is_removal_of k skips = false

  -- whether some change deletes the key
  unfoldable pub removes : String → List (Step V) → Bool
  removes k [] = false
  removes k (st ∷ sts) = is_removal_of k st || removes k sts

  abbrev removals_in : Step V → ℕ
  removals_in (deletes id) = 1
  removals_in (stores v) = 0
  removals_in skips = 0

  unfoldable pub removals : List (Step V) → ℕ
  removals [] = 0
  removals (st ∷ sts) = removals_in st + removals sts

module _ {V : Type 0} (key : V → String) where
  abbrev delete_by : Step V → ObjectStore V → ObjectStore V
  delete_by (deletes id) s = delete key id s
  delete_by (stores v) s = s
  delete_by skips s = s

  unfoldable pub delete_removed : List (Step V) → ObjectStore V → ObjectStore V
  delete_removed [] s = s
  delete_removed (st ∷ sts) s = delete_removed sts (delete_by st s)

  -- What a store holds after the changes: the removals first, then the updates.
  unfoldable pub after_changes : List (Step V) → ObjectStore V → ObjectStore V
  after_changes sts s = put_all key (updates sts) (delete_removed sts s)

  get-delete_by :
      (k : String) (st : Step V) (s : ObjectStore V)
      → get key k (delete_by st s) ≡ (if is_removal_of k st then none else get key k s)
  get-delete_by k (deletes id) s = get-delete key k id s
  get-delete_by k (stores v) s = refl
  get-delete_by k skips s = refl

  get-delete_removed :
      (k : String) (sts : List (Step V)) (s : ObjectStore V)
      → get key k (delete_removed sts s) ≡ (if removes k sts then none else get key k s)
  unfolding delete_removed removes
  get-delete_removed k [] s = refl
  get-delete_removed k (st ∷ sts) s =
      get-delete_removed k sts (delete_by st s)
      ∙ rw (get-delete_by k st s) (if_twice (is_removal_of k st) (removes k sts) _)

  pub get-after_changes :
      (k : String) (sts : List (Step V)) (s : ObjectStore V)
      → get key k (after_changes sts s)
        ≡ or_else (last_with key k (updates sts)) (if removes k sts then none else get key k s)
  unfolding after_changes
  get-after_changes k sts s =
      get-put_all key k (updates sts) (delete_removed sts s) ∙ rw (get-delete_removed k sts s)

-- A store of the database: where it stands, and the deletion of a record of it.
pub record Table (V : Type 0) : Type 0 where
  pub key : V → String
  pub of : Db → ObjectStore V
  pub with_store : Db → ObjectStore V → Db
  pub delete_record : String → M (Unit {0})
  pub of-with : (db : Db) (s : ObjectStore V) → of (with_store db s) ≡ s
  pub with-with : (db : Db) (s t : ObjectStore V) → with_store (with_store db s) t ≡ with_store db t
  pub with-of : (db : Db) → with_store db (of db) ≡ db
  pub delete_record_lem :
      (id : String) (w : World)
      → delete_record id w ≡ (ok tt, record w { db = with_store w.db (delete key id (of w.db)) })

module _ {V : Type 0} (t : Table V) where
  abbrev changed : World → (ObjectStore V → ObjectStore V) → World
  changed w f = record w { db = t.with_store w.db (f (t.of w.db)) }

  run_step_lem :
      (rest : Loop V) (vs : List V) (n : ℕ) (after : ObjectStore V → ObjectStore V)
      → ((ups : List V) (u r : ℕ) (w : World)
          → rest ups u r w ≡ (ok (ups ++ vs, u + length vs, r + n), changed w after))
      → (st : Step V) (ups : List V) (u r : ℕ) (w : World)
      → run_step t.delete_record st rest ups u r w ≡ (
        ok (ups ++ onto st vs, u + length (onto st vs), r + (removals_in st + n)),
        changed w (λ s. after (delete_by t.key st s)),
      )
  unfolding run_step
  run_step_lem rest vs n after ih (deletes id) ups u r w =
      rw (t.delete_record_lem id w)
        (ih ups u (r + 1) (changed w (delete t.key id)) ∙ simp (add_assoc, t.of-with, t.with-with))
  run_step_lem rest vs n after ih (stores v) ups u r w =
      ih (ups ++ v ∷ []) (u + 1) r w ∙ simp (append_assoc, add_assoc, one_add, zero-add)
  run_step_lem rest vs n after ih skips ups u r w = ih ups u r w ∙ rw zero-add

  pub apply_changes_lem :
      (sts : List (Step V)) (ups : List V) (u r : ℕ) (w : World)
      → apply_changes t.delete_record sts ups u r w ≡ (
        ok (ups ++ updates sts, u + length (updates sts), r + removals sts),
        changed w (delete_removed t.key sts),
      )
  unfolding apply_changes delete_removed updates removals
  apply_changes_lem [] ups u r w = simp (append-nil, add-zero, t.with-of)
  apply_changes_lem (st ∷ sts) ups u r w =
      run_step_lem (apply_changes t.delete_record sts) (updates sts) (removals sts)
        (delete_removed t.key sts) (apply_changes_lem sts) st ups u r w
