-- ===== src/Headers.antt =====
-- src/Utils.cpp: the lines of an HTTP header, looked up without regard to case.
pub mod RoundTrip
mod Tests
use Prim.Native.Nat.{ℕ, ◌+◌, ◌-◌, ◌%◌}
use cdn_uring.Prelude.{
  ◌==◌, leb, ltb, Bool, false, Option, none, some, [], ◌++◌, take, length, drop, if◌then◌else◌,
}
use cdn_uring.Prelude.Text.{Text, codes, search_by, find, pos_of, substr, to_upper, text_eq}
use cdn_uring.Prelude.Result.{Result, ok, ◌>>=◌}

abbrev pub crlf : Text
crlf = codes "\r\n"

-- `my_equal`.
unfoldable pub ci_equal : ℕ → ℕ → Bool
ci_equal c d = to_upper c == to_upper d

-- A place as an `int` of 32 bits; `none` is a negative one.
unfoldable pub to_int : ℕ → Option ℕ
to_int n = let low = n % 4294967296 in if ltb low 2147483648 then some low else none

-- `ci_find_substr`; `none` is -1, or a place that the `int` makes negative.
unfoldable pub ci_find_substr : Text → Text → Option ℕ
ci_find_substr s pat = elim (search_by ci_equal pat s) [ none ↦ none | some n ↦ to_int n ]

-- What is searched for: the tag at the start of a line.
abbrev pub tag_line : Text → Text
tag_line to_search = crlf ++ (to_search ++ codes ":")

-- `second.substr(second.find("\r\n"))`, which throws if the text holds no line end.
unfoldable pub from_line_end : Text → Result Text
from_line_end second = substr second (pos_of (find second crlf))

-- `Utils::ReplaceHeaderTag`.
unfoldable pub replace_header_tag : Text → Text → Text → Result Text
replace_header_tag header to_search replaced = elim (ci_find_substr header (tag_line to_search)) [
  | none ↦ ok (header ++ (tag_line to_search ++ (codes " " ++ (replaced ++ crlf))))
  | some pos ↦ do
    second ← substr header (pos + 2)
    rest ← from_line_end second
    ok (take pos header ++ (tag_line to_search ++ (codes " " ++ (replaced ++ rest))))
]

-- `Utils::RemoveHeaderTag`.
unfoldable pub remove_header_tag : Text → Text → Result Text
remove_header_tag header to_search = elim (ci_find_substr header (tag_line to_search)) [
  | none ↦ ok header
  | some pos ↦ do
    second ← substr header (pos + 2)
    rest ← from_line_end second
    ok (take pos header ++ rest)
]

-- `second.substr(0, second.find("\r\n"))`.
unfoldable pub up_to_line_end : Text → Text
up_to_line_end second = elim (find second crlf) [ none ↦ second | some n ↦ take n second ]

-- `Utils::GetHeaderTag`; the text is empty if the header has no such line.
unfoldable pub get_header_tag : Text → Text → Result Text
get_header_tag header to_search = elim (ci_find_substr header (tag_line to_search)) [
  | none ↦ ok []
  | some pos ↦ do second ← substr header (pos + 4 + length to_search); ok (up_to_line_end second)
]

-- `Utils::EndsWith`, for strings that are not null: the tail of `str` as long as `suffix` is `suffix`.
unfoldable pub ends_with : Text → Text → Bool
ends_with str suffix =
    if leb (length suffix) (length str)
    then text_eq (drop (length str - length suffix) str) suffix
    else false
