-- ===== src/Prelude/Url.antt =====
-- `encodeURIComponent`, over the code points of a text.
use Prim.Native.Char.{code}
use Prim.Native.String.{String, [], ◌∷◌, ◌++◌, char_at}
use mathlib.Core.Bool.{Bool, ◌&&◌, ◌||◌}
use mathlib.Core.Path.{◌≡◌, refl}
use Prim.Native.Nat.{ℕ, ◌+◌, ◌/◌, ◌%◌}
use real_tube.Prelude.Tests.{ltb, leb, ◌=ℕ◌, if◌then◌else◌}

-- A-Z a-z 0-9 - _ . ! ~ * ' ( )
is_unreserved : ℕ → Bool
is_unreserved c =
    (leb b'A' c && leb c b'Z')
    || (leb b'a' c && leb c b'z')
    || (leb b'0' c && leb c b'9')
    || c =ℕ b'-'
    || c =ℕ b'_'
    || c =ℕ b'.'
    || c =ℕ b'!'
    || c =ℕ b'~'
    || c =ℕ b'*'
    || c =ℕ 39
    || c =ℕ b'('
    || c =ℕ b')'

escaped : ℕ → String
escaped byte =
    "%" ++ (char_at "0123456789ABCDEF" (byte / 16) ∷ char_at "0123456789ABCDEF" (byte % 16) ∷ [])

-- the bytes of the character's UTF-8, each escaped
escaped_utf8 : ℕ → String
unfolding escaped
escaped_utf8 c =
    if ltb c 128
    then escaped c
    else if ltb c 2048
    then escaped (192 + c / 64) ++ escaped (128 + c % 64)
    else if ltb c 65536
    then escaped (224 + c / 4096) ++ (escaped (128 + c / 64 % 64) ++ escaped (128 + c % 64))
    else escaped (240 + c / 262144)
      ++ (escaped (128 + c / 4096 % 64) ++ (escaped (128 + c / 64 % 64) ++ escaped (128 + c % 64)))

unfoldable pub encode_uri_component : String → String
unfolding is_unreserved escaped_utf8
encode_uri_component [] = ""
encode_uri_component (c ∷ s) =
    let rest = encode_uri_component s in
    if is_unreserved (code c) then c ∷ rest else escaped_utf8 (code c) ++ rest

encode_uri_component_example :
    encode_uri_component "2026-02-01T00:00:00Z é" ≡ "2026-02-01T00%3A00%3A00Z%20%C3%A9"
unfolding encode_uri_component
encode_uri_component_example = refl
