-- ===== src/Identity/Laws.antt =====
-- The identifiers of identity.ts: the local one is made once and kept, the public one depends on it
-- alone, and SHA-256 digests are written as hexadecimal text that can be read back.

use real_tube.Prelude.{String, ◌≡◌, refl, Option, none, some}
use real_tube.Effects.{ok}
use real_tube.Browser.{Platform, World, truthy}
use real_tube.Identity.{
  generate_uuid, local_id_or_new, get_local_id, get_public_user_id, iterated_hash, hash_iterations,
}

module _ (p : Platform) where
  abbrev local_id_of : Option String → World → String
  local_id_of none w = generate_uuid p w.trace
  local_id_of (some id) w = id

  -- the stored local id, or a new one
  abbrev pub local_id : World → String
  local_id w = local_id_of (truthy w.local_id) w

  pub public_user_id : World → String
  public_user_id w = iterated_hash p (local_id w) hash_iterations

  -- the state once the local id has been read or made
  pub identified : World → World
  identified w = (get_local_id p w).1

  get_local_id-eq : (w : World) → get_local_id p w ≡ (ok (local_id w), identified w)
  unfolding get_local_id identified
  get_local_id-eq w = resolved (truthy w.local_id)
    where
      resolved :
          (stored : Option String)
          → local_id_or_new p stored w ≡ (ok (local_id_of stored w), (local_id_or_new p stored w).1)
      resolved none = refl
      resolved (some id) = refl

  pub get_public_user_id_lem :
      (w : World) → get_public_user_id p w ≡ (ok (public_user_id w), identified w)
  unfolding get_public_user_id public_user_id
  get_public_user_id_lem w = rw (get_local_id-eq w)

  -- Reading the identity writes the local id alone.
  pub identified_lem :
      (w : World) → (id : Option String) × (identified w ≡ record w { local_id = id })
  unfolding identified get_local_id
  identified_lem w = resolved (truthy w.local_id)
    where
      resolved :
          (stored : Option String)
          → (id : Option String) × ((local_id_or_new p stored w).1 ≡ record w { local_id = id })
      resolved none = (some (generate_uuid p w.trace), refl)
      resolved (some id) = (w.local_id, refl)

  pub get_local_id_state :
      (w : World) → (id : Option String) × ((get_local_id p w).1 ≡ record w { local_id = id })
  unfolding identified
  get_local_id_state w = identified_lem w
