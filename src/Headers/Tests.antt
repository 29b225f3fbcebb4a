-- ===== src/Headers/Tests.antt =====
-- src/Utils.cpp: the header functions on small headers.
use cdn_uring.Prelude.{ℕ, zero, suc, ◌<◌, ◌≡◌, refl, false, drop, arith}
use cdn_uring.Prelude.Text.{Text, codes, search_by, matches, substr, to_upper}
use cdn_uring.Prelude.Result.{ok}
use cdn_uring.Headers.{
  ci_equal, tag_line, ci_find_substr, to_int, from_line_end, replace_header_tag, remove_header_tag,
  get_header_tag,
}
use cdn_uring.Headers.RoundTrip.{get_header_tag-replace_header_tag, remove_header_tag-line}

abbrev before : Text
before = codes "GET\r\nconnection: keep\r\nA: b\r\n"

abbrev after : Text
after = codes "GET\r\nConnection: close\r\nA: b\r\n"

replaced : replace_header_tag before (codes "Connection") (codes "close") ≡ ok after
unfolding replace_header_tag ci_find_substr to_int from_line_end search_by matches substr ci_equal
    to_upper
replaced = refl

get_header_tag-replace_header_tag_example :
    get_header_tag after (codes "Connection") ≡ ok (codes "close")
get_header_tag-replace_header_tag_example =
    get_header_tag-replace_header_tag (codes "Connection") (codes "close") before after
      (omega arith) (omega arith) (omega arith) replaced

no_line_before :
    (j : ℕ) → j < 1 → matches ci_equal (tag_line (codes "Host")) (drop j (codes "G")) ≡ false
unfolding matches ci_equal to_upper
no_line_before zero lt = refl
no_line_before (suc j) lt = absurd (omega arith)

remove_header_tag-line_example :
    remove_header_tag (codes "G\r\nHost: a\r\nB: c\r\n") (codes "Host") ≡ ok (codes "G\r\nB: c\r\n")
remove_header_tag-line_example =
    remove_header_tag-line (codes "Host") (codes " a") (codes "G") (codes "B: c\r\n") (omega arith)
      (omega arith) (omega arith) no_line_before
