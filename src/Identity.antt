-- ===== src/Identity.antt =====
-- realtube-extension/src/background/identity.ts: the local UUID, and identifiers derived by SHA-256.
pub mod Laws
pub mod Hex
pub mod Uuid
use Prim.Native.Char.{code}
use Prim.Native.Nat.{bit_and, bit_or}
use Prim.Native.String.{[], ◌∷◌, ◌++◌, char_at, count}
use real_tube.Prelude.{
  ℕ, zero, suc, ◌+◌, ◌-◌, ◌/◌, ◌%◌, String, Bool, Option, none, some, List, ltb, ◌=ℕ◌,
  if◌then◌else◌,
}
use mathlib.Core.List
use real_tube.Effects.{ok, pure, ◌>>=◌}
use real_tube.Browser.{Platform, World, M, Trace, truthy}

abbrev pub hash_iterations : ℕ
hash_iterations = 5000

-- the digit of a number below 16
abbrev pub hex_digit : ℕ → String
hex_digit n = char_at "0123456789abcdef" n ∷ []

-- `v.toString(16)` of a number below 256
unfoldable pub to_hex : ℕ → String
to_hex n = if ltb n 16 then hex_digit n else hex_digit (n / 16) ++ hex_digit (n % 16)

repeat : ℕ → String → String
repeat zero s = ""
repeat (suc n) s = s ++ repeat n s

-- `s.padStart(width, fill)` for a fill of one character
unfoldable pub pad_start : ℕ → String → String → String
unfolding repeat
pad_start width fill s = repeat (width - count s) fill ++ s

unfoldable pub hex_of_bytes : List ℕ → String
unfolding to_hex pad_start
hex_of_bytes List.[] = ""
hex_of_bytes (List.◌∷◌ b bytes) = pad_start 2 "0" (to_hex b) ++ hex_of_bytes bytes

-- The fallback of `generateUUID`: `draw i` is the number from 0 to 15 that is drawn for the i-th
-- letter x or y of the template.
fill_template : (draw : ℕ → ℕ) → ℕ → String → String
unfolding to_hex
fill_template draw i [] = []
fill_template draw i (c ∷ s) =
    let rest_next = fill_template draw (suc i) s in
    let rest = fill_template draw i s in
    if code c =ℕ b'x'
    then to_hex (draw i) ++ rest_next
    else if code c =ℕ b'y'
    then to_hex (bit_or (bit_and (draw i) 0x3) 0x8) ++ rest_next
    else c ∷ rest

abbrev pub uuid_template : String
uuid_template = "xxxxxxxx-xxxx-4xxx-yxxx-xxxxxxxxxxxx"

unfoldable pub fallback_uuid : (ℕ → ℕ) → String
unfolding fill_template
fallback_uuid draw = fill_template draw 0 uuid_template

-- `s.substring(0, n)`, of a text in the basic plane
unfoldable pub substring : ℕ → String → String
substring zero s = []
substring (suc n) [] = []
substring (suc n) (c ∷ s) = c ∷ substring n s

module _ (p : Platform) where
  uuid_or_fallback : Trace → Option String → String
  uuid_or_fallback t none = fallback_uuid (p.random_nibble t)
  uuid_or_fallback t (some uuid) = uuid

  unfoldable pub generate_uuid : Trace → String
  unfolding uuid_or_fallback
  generate_uuid t = uuid_or_fallback t (p.random_uuid t)

  unfoldable pub sha256 : String → String
  unfolding hex_of_bytes
  sha256 input = hex_of_bytes (p.digest input)

  unfoldable pub iterated_hash : String → ℕ → String
  iterated_hash input zero = input
  iterated_hash input (suc n) = iterated_hash (sha256 input) n

  local_id_or_new : Option String → M String
  local_id_or_new (some id) w = (ok id, w)
  local_id_or_new none w =
      let id = generate_uuid w.trace in (ok id, record w { local_id = some id })

  unfoldable pub get_local_id : M String
  unfolding local_id_or_new
  get_local_id w = local_id_or_new (truthy w.local_id) w

  unfoldable pub get_public_user_id : M String
  get_public_user_id = do local_id ← get_local_id; pure (iterated_hash local_id hash_iterations)

  unfoldable pub hash_video_id : String → ℕ → String
  hash_video_id video_id prefix_length = substring prefix_length (sha256 video_id)
