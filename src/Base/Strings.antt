-- ===== src/Base/Strings.antt =====
-- What the program uses of Go's packages strings and bufio: TrimSpace, SplitN, HasPrefix, Scanner.
pub mod Trim
pub mod Scan
use Prim.Native.Nat.{ℕ, zero, suc, ◌+◌}
use mathlib.Core.Path.{◌≡◌, refl}
use mathlib.Core.Bool.{Bool, true, false, ◌&&◌, ◌||◌}
use mathlib.Core.Option.{Option, none, some}
use mathlib.Core.List.{List, [], ◌∷◌, reverse}
use fce_extension_scaffold.Base.Tests.{leb, ◌==◌, if◌then◌else◌}
use fce_extension_scaffold.Base.Lists.{length}
use fce_extension_scaffold.Base.Text.{Bytes, str}

-- The one-byte characters of unicode.IsSpace.
abbrev pub is_ascii_space : ℕ → Bool
is_ascii_space b = (b == 32) || (leb 9 b && leb b 13)

-- U+0085 and U+00A0.
space2 : ℕ → ℕ → Bool
space2 a b = (a == 194) && ((b == 133) || (b == 160))

-- U+1680, U+2000 to U+200A, U+2028, U+2029, U+202F, U+205F and U+3000.
space3 : ℕ → ℕ → ℕ → Bool
space3 a b c =
    ((a == 225) && (b == 154) && (c == 128))
    || ((a == 226)
        && (b == 128)
        && ((leb 128 c && leb c 138) || (c == 168) || (c == 169) || (c == 175)))
    || ((a == 226) && (b == 129) && (c == 159))
    || ((a == 227) && (b == 128) && (c == 128))

-- The number of bytes of the white space that a text begins with, 0 if it begins with none.
space_size : Bytes → ℕ
unfolding space2 space3
space_size [] = 0
space_size (a ∷ []) = if is_ascii_space a then 1 else 0
space_size (a ∷ b ∷ []) = if is_ascii_space a then 1 else if space2 a b then 2 else 0
space_size (a ∷ b ∷ c ∷ rest) =
    if is_ascii_space a then 1 else if space2 a b then 2 else if space3 a b c then 3 else 0

-- The same of a text that is written backwards.
space_size_back : Bytes → ℕ
unfolding space2 space3
space_size_back [] = 0
space_size_back (a ∷ []) = if is_ascii_space a then 1 else 0
space_size_back (a ∷ b ∷ []) = if is_ascii_space a then 1 else if space2 b a then 2 else 0
space_size_back (a ∷ b ∷ c ∷ rest) =
    if is_ascii_space a then 1 else if space2 b a then 2 else if space3 c b a then 3 else 0

-- Drops white space from the front, `skip` more bytes of it first.
trim_from : (Bytes → ℕ) → ℕ → Bytes → Bytes
trim_from size skip [] = []
trim_from size (suc k) (b ∷ bs) = trim_from size k bs
trim_from size zero (b ∷ bs) = elim (size (b ∷ bs)) [ zero ↦ b ∷ bs | suc k ↦ trim_from size k bs ]

unfoldable pub trim_space : Bytes → Bytes
unfolding trim_from space_size space_size_back
trim_space s = reverse (trim_from space_size_back 0 (reverse (trim_from space_size 0 s)))

-- `strings.SplitN(s, "=", 2)`: `none` where there is one part only.
unfoldable pub split_eq : Bytes → Option (Bytes × Bytes)
split_eq [] = none
split_eq (b ∷ bs) =
    if b == b'='
    then some ([], bs)
    else elim (split_eq bs) [ none ↦ none | some (k, v) ↦ some (b ∷ k, v) ]

-- `strings.HasPrefix(s, "#")`.
abbrev pub starts_with_hash : Bytes → Bool
starts_with_hash [] = false
starts_with_hash (b ∷ bs) = b == b'#'

-- A line without the carriage return at its end; the line is given backwards.
drop_return : Bytes → Bytes
drop_return [] = []
drop_return (b ∷ bs) = if b == 13 then reverse bs else reverse (b ∷ bs)

-- bufio.Scanner over lines, with the line so far (backwards). A line that fills the buffer of
-- `buffer` bytes before its newline stops the scan, with what was read until then.
scan_from : ℕ → Bytes → Bytes → List Bytes
scan_from buffer [] [] = []
scan_from buffer (c ∷ cur) [] = drop_return (c ∷ cur) ∷ []
scan_from buffer cur (b ∷ bs) =
    let line = drop_return cur ∷ scan_from buffer [] bs in
    let more = scan_from buffer (b ∷ cur) bs in
    if b == 10 then line else if leb buffer (length cur + 1) then [] else more

-- bufio.MaxScanTokenSize.
abbrev pub max_scan_token_size : ℕ
max_scan_token_size = 65536

unfoldable pub scan_lines : Bytes → List Bytes
unfolding scan_from drop_return
scan_lines s = scan_from max_scan_token_size [] s

-- `strings.Split` at a separator of one byte.
split_from : ℕ → Bytes → Bytes → List Bytes
split_from sep cur [] = reverse cur ∷ []
split_from sep cur (b ∷ bs) =
    let part = reverse cur ∷ split_from sep [] bs in
    let more = split_from sep (b ∷ cur) bs in if b == sep then part else more

unfoldable pub split_at : ℕ → Bytes → List Bytes
unfolding split_from
split_at sep s = split_from sep [] s

trim_space_test : trim_space (str " \tname \r") ≡ str "name"
unfolding trim_space str
trim_space_test = refl

scan_lines_test : scan_lines (str "ab\r\n\ncd") ≡ str "ab" ∷ [] ∷ str "cd" ∷ []
unfolding scan_lines str
scan_lines_test = refl

split_eq_test : split_eq (str "key=a=b") ≡ some (str "key", str "a=b")
unfolding split_eq str
split_eq_test = refl

-- `strings.HasPrefix(s, prefix)`, the prefix first.
unfoldable pub has_prefix : Bytes → Bytes → Bool
has_prefix [] s = true
has_prefix (p ∷ ps) [] = false
has_prefix (p ∷ ps) (b ∷ bs) = (p == b) && has_prefix ps bs

-- `strings.Contains(s, part)`, the part first.
unfoldable pub contains_text : Bytes → Bytes → Bool
unfolding has_prefix
contains_text part [] = has_prefix part []
contains_text part (b ∷ bs) = has_prefix part (b ∷ bs) || contains_text part bs
