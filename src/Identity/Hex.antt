-- ===== src/Identity/Hex.antt =====
-- The hexadecimal text of a digest, as `sha256` of realtube-extension/src/background/identity.ts
-- writes it.
use Prim.Native.Char.{Char, code}
use Prim.Native.String.{[], ◌∷◌, ◌++◌}
use text.Mathlib.TextLemmas.{nil-append, cons-append}
use real_tube.Prelude.{
  ℕ, ◌+◌, ◌-◌, ◌*◌, ◌<◌, String, ◌≡◌, refl, ap, ◌∙◌, Bool, true, false, ◌&&◌, Option, none, some,
  List, leb, All, all_below, all_below_sound, arith, if◌then◌else◌,
}
use real_tube.Identity.{to_hex, pad_start, hex_of_bytes}

-- the value of a hexadecimal digit
abbrev digit : Char → Option ℕ
digit c =
    if leb b'0' (code c) && leb (code c) b'9'
    then some (code c - b'0')
    else if leb b'a' (code c) && leb (code c) b'f'
    then some (code c - 87)
    else none

abbrev byte : Option ℕ → Option ℕ → Option (List ℕ) → Option (List ℕ)
byte (some high) (some low) (some bytes) = some (List.◌∷◌ (high * 16 + low) bytes)
byte _ _ _ = none

-- reads two digits for each byte
pub bytes_of_hex : String → Option (List ℕ)
bytes_of_hex [] = some List.[]
bytes_of_hex (c ∷ []) = none
bytes_of_hex (c ∷ (d ∷ s)) = let rest = bytes_of_hex s in byte (digit c) (digit d) rest

abbrev is_byte : Option (List ℕ) → ℕ → Bool
is_byte (some (List.◌∷◌ b List.[])) n = leb b n && leb n b
is_byte _ n = false

-- the text of one byte
abbrev byte_text : ℕ → String
byte_text b = pad_start 2 "0" (to_hex b)

abbrev reads_back : ℕ → Bool
reads_back b = is_byte (bytes_of_hex (byte_text b)) b

table : all_below 256 reads_back ≡ true
unfolding bytes_of_hex pad_start to_hex
table = refl

one_byte : (o : Option (List ℕ)) (b : ℕ) → is_byte o b ≡ true → o ≡ some (List.◌∷◌ b List.[])
one_byte none b e = absurd (ground (arith, e))
one_byte (some List.[]) b e = absurd (ground (arith, e))
one_byte (some (List.◌∷◌ n List.[])) b e = let same : n ≡ b = ground (arith, e) in cc same
one_byte (some (List.◌∷◌ n (List.◌∷◌ m bytes))) b e = absurd (ground (arith, e))

bytes_of_byte_text : (b : ℕ) → b < 256 → bytes_of_hex (byte_text b) ≡ some (List.◌∷◌ b List.[])
bytes_of_byte_text b lt = one_byte _ b (all_below_sound 256 reads_back b table lt)

byte-nil : (high low : Option ℕ) (rest : Option (List ℕ)) → byte high low rest ≡ some List.[] → ⊥
byte-nil none low rest e = absurd (ground (arith, e))
byte-nil (some h) none rest e = absurd (ground (arith, e))
byte-nil (some h) (some l) none e = absurd (ground (arith, e))
byte-nil (some h) (some l) (some bytes) e = absurd (ground (arith, e))

byte-one :
    (high low : Option ℕ) (rest : Option (List ℕ)) (b : ℕ) (bytes : List ℕ)
    → byte high low rest ≡ some (List.◌∷◌ b List.[])
    → (rest ≡ some List.[]) × (byte high low (some bytes) ≡ some (List.◌∷◌ b bytes))
byte-one none low rest b bytes e = absurd (ground (arith, e))
byte-one (some h) none rest b bytes e = absurd (ground (arith, e))
byte-one (some h) (some l) none b bytes e = absurd (ground (arith, e))
byte-one (some h) (some l) (some tail) b bytes e = (cc e, cc e)

bytes_of_hex-nil : (s : String) → bytes_of_hex s ≡ some List.[] → s ≡ []
unfolding bytes_of_hex
bytes_of_hex-nil [] e = refl
bytes_of_hex-nil (c ∷ []) e = absurd (ground (arith, e))
bytes_of_hex-nil (c ∷ (d ∷ s)) e = absurd (byte-nil (digit c) (digit d) _ e)

bytes_of_hex-append :
    (t rest : String) (b : ℕ) (bytes : List ℕ)
    → bytes_of_hex t ≡ some (List.◌∷◌ b List.[])
    → bytes_of_hex rest ≡ some bytes
    → bytes_of_hex (t ++ rest) ≡ some (List.◌∷◌ b bytes)
unfolding bytes_of_hex
bytes_of_hex-append [] rest b bytes e r = absurd (ground (arith, e))
bytes_of_hex-append (c ∷ []) rest b bytes e r = absurd (ground (arith, e))
bytes_of_hex-append (c ∷ (d ∷ s)) rest b bytes e r =
    let (empty, read) = byte-one (digit c) (digit d) (bytes_of_hex s) b bytes e in
    ap (λ s. bytes_of_hex ((c ∷ (d ∷ s)) ++ rest)) (bytes_of_hex-nil s empty)
    ∙ ap bytes_of_hex (
        cons-append c (d ∷ []) rest
        ∙ ap (λ s. c ∷ s) (cons-append d [] rest ∙ ap (λ s. d ∷ s) (nil-append rest)))
    ∙ ap (byte (digit c) (digit d)) r
    ∙ read

-- The hexadecimal text of a digest can be read back: of any bytes, two digits each give the bytes
-- again.
pub bytes_of_hex-hex_of_bytes :
    (bytes : List ℕ) → All (λ b. b < 256) bytes → bytes_of_hex (hex_of_bytes bytes) ≡ some bytes
unfolding hex_of_bytes bytes_of_hex
bytes_of_hex-hex_of_bytes List.[] h = refl
bytes_of_hex-hex_of_bytes (List.◌∷◌ b bytes) (lt, h) =
    bytes_of_hex-append (byte_text b) (hex_of_bytes bytes) b bytes (bytes_of_byte_text b lt)
      (bytes_of_hex-hex_of_bytes bytes h)
