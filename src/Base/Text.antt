-- ===== src/Base/Text.antt =====
-- Go strings and byte slices: lists of bytes. A literal is written as a text and encoded in UTF-8.
use Prim.Native.Nat.{ℕ, zero, suc, ◌+◌, ◌/◌, ◌%◌}
use Prim.Native.Char.{code}
use Prim.Native.String.{String}
use mathlib.Core.Path.{◌≡◌, refl, sym, ap, ◌∙◌}
use mathlib.Core.Logic.{◌↔◌, ◌⊎◌, ◌≢◌, inl, inr}
use mathlib.Core.Bool.{Bool, true, false, ◌&&◌}
use mathlib.Core.List.{List, [], ◌∷◌, ◌++◌}
use native.Mathlib.Omega.{arith}
use fce_extension_scaffold.Base.Tests.{ltb, ◌==◌, if◌then◌else◌}

abbrev pub Bytes : Type 0
Bytes = List ℕ

-- The UTF-8 bytes of a code point, as a Go string literal holds them.
utf8 : ℕ → Bytes
utf8 c =
    if ltb c 128
    then c ∷ []
    else if ltb c 2048
    then (192 + c / 64) ∷ (128 + c % 64) ∷ []
    else if ltb c 65536
    then (224 + c / 4096) ∷ (128 + c / 64 % 64) ∷ (128 + c % 64) ∷ []
    else (240 + c / 262144) ∷ (128 + c / 4096 % 64) ∷ (128 + c / 64 % 64) ∷ (128 + c % 64) ∷ []

unfoldable pub str : String → Bytes
unfolding utf8
str String.[] = []
str (String.◌∷◌ c s) = utf8 (code c) ++ str s

abbrev pub is_empty : Bytes → Bool
is_empty [] = true
is_empty (b ∷ bs) = false

-- `==` on strings.
unfoldable pub beq : Bytes → Bytes → Bool
beq [] [] = true
beq [] (c ∷ cs) = false
beq (b ∷ bs) [] = false
beq (b ∷ bs) (c ∷ cs) = (b == c) && beq bs cs

beq_sound : (x y : Bytes) → beq x y ≡ true → x ≡ y
unfolding beq
beq_sound [] [] h = refl
beq_sound [] (c ∷ cs) h = cc
beq_sound (b ∷ bs) [] h = cc
beq_sound (b ∷ bs) (c ∷ cs) h = ground (arith, beq_sound bs cs)

pub beq_refl : (x : Bytes) → beq x x ≡ true
unfolding beq
beq_refl [] = refl
beq_refl (b ∷ bs) = ground (arith, beq_refl bs)

pub beq_iff : (x y : Bytes) → (beq x y ≡ true) ↔ (x ≡ y)
beq_iff x y = (beq_sound x y, λ e. ap (beq x) (sym e) ∙ beq_refl x)

-- `%d` of a number that is not negative. Each round takes one digit, so the number is fuel enough.
unfoldable pub digits_from : ℕ → ℕ → Bytes → Bytes
digits_from zero n acc = acc
digits_from (suc f) n acc =
    let rest = digits_from f (n / 10) ((48 + n % 10) ∷ acc) in
    if ltb n 10 then (48 + n) ∷ acc else rest

unfoldable pub show_nat : ℕ → Bytes
unfolding digits_from
show_nat n = digits_from (suc n) n []

show_nat_test : show_nat 1907 ≡ str "1907"
unfolding show_nat str
show_nat_test = refl

str_test : str "a—b" ≡ 97 ∷ 226 ∷ 128 ∷ 148 ∷ 98 ∷ []
unfolding str
str_test = refl

pub empty-cases : (x : Bytes) → (x ≡ []) ⊎ (x ≢ [])
empty-cases [] = inl refl
empty-cases (b ∷ bs) = inr (λ e. cc)
