-- ===== src/Identity/Uuid.antt =====
-- The text that the fallback of `generateUUID` in identity.ts makes.
use Prim.Native.Char.{Char, code}
use Prim.Native.Nat.{bit_and, bit_or}
use Prim.Native.String.{[], ◌∷◌, ◌++◌, char_at}
use text.Mathlib.TextLemmas.{nil-append, cons-append}
use real_tube.Prelude.{
  ℕ, suc, ◌<◌, String, Bool, true, false, ◌≡◌, refl, ◌=ℕ◌, ◌||◌, ◌&&◌, ltb, leb, if◌then◌else◌,
  arith, if-both, all_below_sound,
}
use real_tube.Identity.{fill_template, to_hex, uuid_template, fallback_uuid}

-- a digit of lower case, by its code
abbrev pub is_hex : ℕ → Bool
is_hex n = (leb b'0' n && leb n b'9') || (leb b'a' n && leb n b'f')

-- 8, 9, a or b
abbrev pub is_variant : ℕ → Bool
is_variant n = n =ℕ b'8' || n =ℕ b'9' || n =ℕ b'a' || n =ℕ b'b'

-- a character where the template has the first one
abbrev pub fits_template : ℕ → ℕ → Bool
fits_template c d = if c =ℕ b'x' then is_hex d else if c =ℕ b'y' then is_variant d else (d =ℕ c)

-- The text has the length of the template, a digit for each x, one of 8, 9, a and b for each y, and what
-- the template has elsewhere.
abbrev pub Matches : (template text : String) → Type 0
Matches [] [] = Unit
Matches [] (d ∷ text) = ⊥
Matches (c ∷ template) [] = ⊥
Matches (c ∷ template) (d ∷ text) = (fits_template (code c) (code d) ≡ true) × Matches template text

abbrev hex_fits : ℕ → Bool
hex_fits n = is_hex (code (char_at "0123456789abcdef" n))

-- the number of a y, whatever is drawn
abbrev variant : ℕ → ℕ
variant n = bit_or (bit_and n 0x3) 0x8

abbrev variant_fits : ℕ → Bool
variant_fits n = ltb (variant n) 16 && is_variant (code (char_at "0123456789abcdef" (variant n)))

eq_self : (n : ℕ) → (n =ℕ n) ≡ true
eq_self n = ground arith

if_true : (b c d : Bool) → b ≡ true → c ≡ true → (if b then c else d) ≡ true
if_true true c d h e = e
if_true false c d h e = absurd (ground (arith, h))

if_false : (b c d : Bool) → b ≡ false → d ≡ true → (if b then c else d) ≡ true
if_false false c d h e = e
if_false true c d h e = absurd (ground (arith, h))

to_hex-Matches :
    (c : Char) (template rest : String) (n : ℕ)
    → n < 16
    → fits_template (code c) (code (char_at "0123456789abcdef" n)) ≡ true
    → Matches template rest
    → Matches (c ∷ template) (to_hex n ++ rest)
unfolding to_hex
to_hex-Matches c template rest n lt fits h =
    let small : ltb n 16 ≡ true = ground (arith, lt) in
    rw (small, cons-append (char_at "0123456789abcdef" n) [] rest, nil-append rest) (fits, h)

fill_template-Matches :
    (draw : ℕ → ℕ) (i : ℕ) (template : String)
    → ((i : ℕ) → draw i < 16)
    → Matches template (fill_template draw i template)
unfolding fill_template
fill_template-Matches draw i [] below = tt
fill_template-Matches draw i (c ∷ template) below =
    let rest_next = fill_template draw (suc i) template in
    let hs = fill_template-Matches draw (suc i) template below in
    if-both (Matches (c ∷ template)) (code c =ℕ b'x') (to_hex (draw i) ++ rest_next) _
      (λ is_x.
        to_hex-Matches c template rest_next (draw i) (below i)
          (if_true _ _ _ is_x (all_below_sound 16 hex_fits (draw i) refl (below i))) hs)
      λ not_x.
        if-both (Matches (c ∷ template)) (code c =ℕ b'y') (to_hex (variant (draw i)) ++ rest_next) _
          (λ is_y.
            let fits = all_below_sound 16 variant_fits (draw i) refl (below i) in
            to_hex-Matches c template rest_next (variant (draw i)) (ground (arith, fits))
              (if_false _ _ _ not_x (if_true _ _ _ is_y (ground (arith, fits)))) hs)
          λ not_y. (
            if_false _ _ _ not_x (if_false _ _ _ not_y (eq_self (code c))),
            fill_template-Matches draw i template below,
          )

-- The UUID of the fallback has the form of version 4: 36 characters, hyphens at their places, the
-- version digit 4, a variant digit of 8, 9, a and b, and 30 hexadecimal digits of lower case, whatever
-- numbers below 16 are drawn.
pub fallback_uuid-Matches :
    (draw : ℕ → ℕ) → ((i : ℕ) → draw i < 16) → Matches uuid_template (fallback_uuid draw)
unfolding fallback_uuid
fallback_uuid-Matches draw below = fill_template-Matches draw 0 uuid_template below
