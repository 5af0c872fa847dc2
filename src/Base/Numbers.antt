-- ===== src/Base/Numbers.antt =====
-- What the program uses of Go's package strconv: ParseUint in base 10 and Atoi.
use Prim.Native.Nat.{ℕ, zero, suc, ◌+◌, ◌-◌, ◌*◌, ◌/◌, ◌%◌, ◌^◌, ◌<◌}
use mathlib.Core.Path.{◌≡◌, refl}
use mathlib.Core.Bool.{Bool, true, false, ◌&&◌}
use mathlib.Core.Option.{Option, none, some}
use mathlib.Core.List.{[], ◌∷◌}
use native.Mathlib.Omega.{arith}
use fce_extension_scaffold.Base.Tests.{leb, ltb, ◌==◌, if◌then◌else◌}
use fce_extension_scaffold.Base.Lists.{All}
use fce_extension_scaffold.Base.Text.{Bytes, is_empty, show_nat, digits_from}
use fce_extension_scaffold.Base.Int.{ℤ, pos, negsuc}
use fce_extension_scaffold.Base.Strings.Trim.{IsGraphic}

abbrev pub is_digit : ℕ → Bool
is_digit b = leb b'0' b && leb b b'9'

-- The number of a text of digits, after the number that the digits before it make.
unfoldable pub parse_digits : ℕ → Bytes → Option ℕ
parse_digits acc [] = some acc
parse_digits acc (b ∷ bs) =
    let more = parse_digits (acc * 10 + (b - 48)) bs in if is_digit b then more else none

abbrev pub below : ℕ → Option ℕ → Option ℕ
below limit none = none
below limit (some n) = if ltb n limit then some n else none

-- `strconv.ParseUint(s, 10, 64)`, with `none` for an error.
unfoldable pub parse_uint : Bytes → Option ℕ
parse_uint s = if is_empty s then none else below (2 ^ 64) (parse_digits 0 s)

parse_digits-digits_from :
    (f n : ℕ) (acc : Bytes) → n < f → parse_digits 0 (digits_from f n acc) ≡ parse_digits n acc
unfolding parse_digits digits_from
parse_digits-digits_from zero n acc h = absurd (omega arith)
parse_digits-digits_from (suc f) n acc h =
    ground (arith, parse_digits-digits_from f (n / 10) ((48 + n % 10) ∷ acc))

digits_from-nonempty : (f n b : ℕ) (acc : Bytes) → is_empty (digits_from f n (b ∷ acc)) ≡ false
unfolding digits_from
digits_from-nonempty zero n b acc = refl
digits_from-nonempty (suc f) n b acc =
    ground (arith, digits_from-nonempty f (n / 10) (48 + n % 10) (b ∷ acc))

show_nat-nonempty : (n : ℕ) → is_empty (show_nat n) ≡ false
unfolding show_nat digits_from
show_nat-nonempty n = ground (arith, digits_from-nonempty n (n / 10) (48 + n % 10) [])

parse_digits-show_nat : (n : ℕ) → parse_digits 0 (show_nat n) ≡ some n
unfolding show_nat parse_digits
parse_digits-show_nat n = parse_digits-digits_from (suc n) n [] (omega arith)

-- What is printed is read back.
pub parse_uint-show_nat : (n : ℕ) → n < 2 ^ 64 → parse_uint (show_nat n) ≡ some n
unfolding parse_uint
parse_uint-show_nat n h = rw (show_nat-nonempty n, parse_digits-show_nat n) (ground arith)

digits_from-IsGraphic :
    (f n : ℕ) (acc : Bytes) → All IsGraphic acc → All IsGraphic (digits_from f n acc)
unfolding digits_from
digits_from-IsGraphic zero n acc h = h
digits_from-IsGraphic (suc f) n acc h =
    ground (arith, digits_from-IsGraphic f (n / 10) ((48 + n % 10) ∷ acc) (omega arith, h))

pub show_nat-IsGraphic : (n : ℕ) → All IsGraphic (show_nat n)
unfolding show_nat
show_nat-IsGraphic n = digits_from-IsGraphic (suc n) n [] tt

pub parse_uint-lt : (s : Bytes) (n : ℕ) → parse_uint s ≡ some n → n < 2 ^ 64
unfolding parse_uint
parse_uint-lt s n h = below_lt (is_empty s) (parse_digits 0 s) h
  where
    below_lt :
        (b : Bool) (o : Option ℕ) → (if b then none else below (2 ^ 64) o) ≡ some n → n < 2 ^ 64
    below_lt true o h = cc
    below_lt false none h = cc
    below_lt false (some m) h = ground arith

-- An int64 from its sign and its magnitude.
abbrev pub signed_int : Bool → Option ℕ → Option ℤ
signed_int negative none = none
signed_int false (some n) = if ltb n (2 ^ 63) then some (pos n) else none
signed_int true (some zero) = some (pos 0)
signed_int true (some (suc n)) = if ltb n (2 ^ 63) then some (negsuc n) else none

unfoldable pub magnitude : Bytes → Option ℕ
magnitude s = if is_empty s then none else parse_digits 0 s

-- `strconv.Atoi`, with `none` for an error.
unfoldable pub atoi : Bytes → Option ℤ
unfolding magnitude
atoi [] = none
atoi (b ∷ bs) =
    if b == b'-'
    then signed_int true (magnitude bs)
    else if b == b'+'
    then signed_int false (magnitude bs)
    else signed_int false (magnitude (b ∷ bs))
