-- ===== src/Prelude/Digits.antt =====
-- Numbers as text: decimal digits (a number in a template string), pairs of hexadecimal digits, and
-- `parseInt(s, 10)`.
use Prim.Native.Char.{code}
use Prim.Native.String.{[], ◌∷◌, char_at}
use mathlib.Core.Bool.{Bool, ◌&&◌, ◌||◌}
use mathlib.Core.Path.{◌≡◌, refl}
use Prim.Native.Nat.{ℕ, zero, suc, ◌+◌, ◌-◌, ◌*◌, ◌/◌, ◌%◌}
use Prim.Native.String.{String}
use real_tube.Prelude.Tests.{leb, ◌=ℕ◌, if◌then◌else◌}

digits_onto : ℕ → ℕ → String → String
digits_onto zero n acc = acc
digits_onto (suc fuel) n acc =
    let longer = char_at "0123456789" (n % 10) ∷ acc in
    let rest = digits_onto fuel (n / 10) longer in if n / 10 =ℕ 0 then longer else rest

-- String(n); a number has no more decimal digits than its value and one
unfoldable pub show : ℕ → String
unfolding digits_onto
show n = digits_onto (suc n) n ""

show_example : show 1429 ≡ "1429"
unfolding show
show_example = refl

abbrev pub is_digit : ℕ → Bool
is_digit c = leb b'0' c && leb c b'9'

-- white space of ECMAScript below 128
is_space : ℕ → Bool
is_space c = (leb 9 c && leb c 13) || c =ℕ 32

digits_value : ℕ → String → ℕ
digits_value n [] = n
digits_value n (c ∷ s) =
    let rest = digits_value (n * 10 + (code c - b'0')) s in if is_digit (code c) then rest else n

signed_value : String → ℕ
signed_value [] = 0
signed_value (c ∷ s) =
    if code c =ℕ b'-'
    then 0
    else if code c =ℕ b'+'
    then digits_value 0 s
    else digits_value 0 (c ∷ s)

-- `parseInt(s, 10)` where it is used as a delay: a timer takes 0 for a negative delay and for NaN.
unfoldable pub parse_delay : String → ℕ
unfolding is_space digits_value signed_value
parse_delay [] = 0
parse_delay (c ∷ s) =
    let rest = parse_delay s in if is_space (code c) then rest else signed_value (c ∷ s)

parse_delay_example : parse_delay " 12s" ≡ 12
unfolding parse_delay
parse_delay_example = refl
