-- ===== src/Prelude/Text/Lines.antt =====
-- The parts of the standard library that cut a text into lines and read a number from it.
use Prim.Native.Nat.{ℕ, ◌+◌, ◌*◌, ◌-◌}
use mathlib.Core.Bool.{Bool, true, false, ◌&&◌, ◌||◌}
use mathlib.Core.List.{List, [], ◌∷◌}
use cdn_uring.Prelude.Tests.{ltb, leb, ◌==◌, if◌then◌else◌}
use cdn_uring.Prelude.Int.{ℤ, pos, negsuc, negated}
use cdn_uring.Prelude.Result.{Result, ok, fault, out_of_range, bad_number}
use cdn_uring.Prelude.Text.Search.{Text, to_string}

abbrev into_line : ℕ → List Text → List Text
into_line c [] = (c ∷ []) ∷ []
into_line c (line ∷ lines) = (c ∷ line) ∷ lines

-- The lines that `std::getline` gives one after the other.
unfoldable pub lines_of : Text → List Text
lines_of [] = []
lines_of (c ∷ s) = let rest = lines_of s in if c == 10 then [] ∷ rest else into_line c rest

abbrev pub is_digit : ℕ → Bool
is_digit c = leb b'0' c && leb c b'9'

-- The number that the digits at the start of a text stand for, after the digits of `n`.
unfoldable pub digits_from : ℕ → Text → ℕ
digits_from n [] = n
digits_from n (c ∷ s) = elim (is_digit c) [ true ↦ digits_from (10 * n + (c - 48)) s | false ↦ n ]

-- `std::stoi` on a text that begins with a digit; no text with a blank or a sign in front is read here.
unfoldable pub stoi : Text → Result ℕ
stoi [] = fault bad_number
stoi (c ∷ s) =
    if is_digit c
    then (let n = digits_from 0 (c ∷ s) in if ltb 2147483647 n then fault out_of_range else ok n)
    else fault bad_number

abbrev pub is_blank : ℕ → Bool
is_blank c = c == 32 || leb 9 c && leb c 13

unfoldable pub skip_blanks : Text → Text
skip_blanks [] = []
skip_blanks (c ∷ s) = let rest = skip_blanks s in if is_blank c then rest else c ∷ s

-- The digits behind a sign, where the number may be as large as `limit`.
unfoldable pub unsigned_int : ℕ → Text → Result ℕ
unsigned_int limit [] = fault bad_number
unsigned_int limit (c ∷ s) =
    if is_digit c
    then (let n = digits_from 0 (c ∷ s) in if ltb limit n then fault out_of_range else ok n)
    else fault bad_number

abbrev negate : Result ℕ → Result ℤ
negate (ok n) = ok (negated n)
negate (fault e) = fault e

abbrev keep : Result ℕ → Result ℤ
keep (ok n) = ok (pos n)
keep (fault e) = fault e

unfoldable pub signed_int : Text → Result ℤ
signed_int [] = fault bad_number
signed_int (c ∷ s) =
    if c == b'-'
    then negate (unsigned_int 2147483648 s)
    else if c == b'+'
    then keep (unsigned_int 2147483647 s)
    else keep (unsigned_int 2147483647 (c ∷ s))

-- `std::stoi`, with blanks and a sign in front of the digits.
unfoldable pub stoi_signed : Text → Result ℤ
stoi_signed s = signed_int (skip_blanks s)

-- `std::remove` of a character.
unfoldable pub without : ℕ → Text → Text
without x [] = []
without x (c ∷ s) = let rest = without x s in if c == x then rest else c ∷ rest

-- An `int` as a stream prints it.
unfoldable pub print_int : ℤ → Text
print_int (pos n) = to_string n
print_int (negsuc n) = b'-' ∷ to_string (n + 1)
