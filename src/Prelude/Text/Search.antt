-- ===== src/Prelude/Text/Search.antt =====
-- Searching, cutting and comparing byte strings.
use Prim.Native.Char.{code}
use Prim.Native.String.{String}
use Prim.Native.Nat.{ℕ, zero, suc, ◌+◌, ◌-◌, ◌/◌, ◌%◌, ◌^◌}
use mathlib.Core.Bool.{Bool, true, false, ◌&&◌}
use mathlib.Core.Option.{Option, none, some}
use mathlib.Core.Option
use mathlib.Core.List.{List, [], ◌∷◌}
use cdn_uring.Prelude.Tests.{ltb, leb, ◌==◌, if◌then◌else◌}
use cdn_uring.Prelude.Lists.{length, drop}
use cdn_uring.Prelude.Result.{Result, ok, fault, out_of_range}

abbrev pub Text : Type 0
Text = List ℕ

-- The bytes of a literal.
abbrev pub codes : String → Text
codes String.[] = []
codes (String.◌∷◌ c s) = code c ∷ codes s

-- `std::string(const char *)`: up to the first NUL.
unfoldable pub c_str : Text → Text
c_str [] = []
c_str (c ∷ s) = if c == 0 then [] else c ∷ c_str s

-- Whether `pat` stands at the start of `s`, characters compared by `eq`.
unfoldable pub matches : (ℕ → ℕ → Bool) → Text → Text → Bool
matches eq [] s = true
matches eq (p ∷ pat) [] = false
matches eq (p ∷ pat) (c ∷ s) = eq c p && matches eq pat s

-- `std::search`: the first place where `pat` stands.
unfoldable pub search_by : (ℕ → ℕ → Bool) → Text → Text → Option ℕ
search_by eq pat [] = if matches eq pat [] then some 0 else none
search_by eq pat (c ∷ s) =
    if matches eq pat (c ∷ s) then some 0 else Option.map suc (search_by eq pat s)

-- `std::string::find`; `none` is `npos`.
abbrev pub find : Text → Text → Option ℕ
find s pat = search_by ◌==◌ pat s

abbrev pub npos : ℕ
npos = 2 ^ 64 - 1

-- The position as the number that `find` returns.
abbrev pub pos_of : Option ℕ → ℕ
pos_of none = npos
pos_of (some i) = i

-- `size_t` addition.
abbrev pub add_size : ℕ → ℕ → ℕ
add_size a b = (a + b) % 2 ^ 64

-- `s.substr(pos)`, which throws past the end; `s.substr(0, n)` is `take n s`.
unfoldable pub substr : Text → ℕ → Result Text
substr s pos = if leb pos (length s) then ok (drop pos s) else fault out_of_range

-- `std::toupper` and `tolower` of the C locale.
unfoldable pub to_upper : ℕ → ℕ
to_upper c = if leb b'a' c && leb c b'z' then c - 32 else c

unfoldable pub to_lower : ℕ → ℕ
to_lower c = if leb b'A' c && leb c b'Z' then c + 32 else c

unfoldable pub text_eq : Text → Text → Bool
text_eq [] [] = true
text_eq [] (y ∷ ys) = false
text_eq (x ∷ xs) [] = false
text_eq (x ∷ xs) (y ∷ ys) = x == y && text_eq xs ys

abbrev pub is_empty : Text → Bool
is_empty [] = true
is_empty (c ∷ s) = false

-- `std::to_string` of an unsigned number: the digits, with one round of fuel for each.
unfoldable pub digits_of : ℕ → ℕ → Text → Text
digits_of zero n acc = acc
digits_of (suc f) n acc =
    let rest = digits_of f (n / 10) ((48 + n % 10) ∷ acc) in
    if ltb n 10 then (48 + n) ∷ acc else rest

-- Twenty digits hold every number below 2 ^ 64.
unfoldable pub to_string : ℕ → Text
unfolding digits_of
to_string n = digits_of 20 n []
