-- ===== src/Server/Tests.antt =====
-- src/Server.cpp at a concrete request.
use cdn_uring.Prelude.{
  ℕ, zero, suc, ◌==◌, ◌≡◌, refl, Bool, true, false, some, [], ◌∷◌, ◌++◌, length, arith,
  if◌then◌else◌,
}
use cdn_uring.Prelude.Text.{Text, codes, matches}
use cdn_uring.Prelude.Text.First.{NoneBefore}
use cdn_uring.Prelude.Result.{ok}
use cdn_uring.Headers.{crlf}
use cdn_uring.Server.Parse.{fetch_header}
use cdn_uring.Server.Cut.{empty_line, IsRequest, fetch_header-cuts}

-- No match of `pat` before place `i` of `s`, which has at least `i` characters.
abbrev clear_before : Text → Text → ℕ → Bool
clear_before pat s zero = true
clear_before pat [] (suc i) = false
clear_before pat (c ∷ s) (suc i) =
    let rest = clear_before pat s i in if matches ◌==◌ pat (c ∷ s) then false else rest

clear_before-NoneBefore :
    (pat s : Text) (i : ℕ) → clear_before pat s i ≡ true → NoneBefore ◌==◌ pat s i
clear_before-NoneBefore pat s zero e j lt = absurd (omega arith)
clear_before-NoneBefore pat [] (suc i) e j lt = cc
clear_before-NoneBefore pat (c ∷ s) (suc i) e zero lt = ground arith
clear_before-NoneBefore pat (c ∷ s) (suc i) e (suc j) lt =
    clear_before-NoneBefore pat s i (ground arith) j (omega arith)

abbrev header : Text
header = codes "GET /a\r\nAccept: b\r\nHost: c\r\nRange: d"

request : IsRequest (codes "GET /a") (codes "Accept: b\r\n") (codes "c") (codes "Range: d\r\n")
unfolding matches
request = record {
  plain_command = omega arith;
  plain_before = omega arith;
  plain_host = omega arith;
  plain_after = omega arith;
  command_end = clear_before-NoneBefore crlf _ 6 refl;
  host_first = clear_before-NoneBefore (codes "Host: ") _ 11 refl;
  host_end = clear_before-NoneBefore crlf _ 1 refl;
}

fetch_header-cuts_example :
    fetch_header (header ++ (empty_line ++ codes "body")) 100
    ≡ ok (some (codes "GET /a", codes "Accept: b\r\nRange: d\r\n"))
unfolding matches
fetch_header-cuts_example =
    fetch_header-cuts (codes "GET /a") (codes "Accept: b\r\n") (codes "c") (codes "Range: d\r\n")
      request header (codes "body") 100 refl
      (clear_before-NoneBefore empty_line (header ++ (empty_line ++ codes "body")) (length header)
        refl)
      (omega arith) (omega arith)
