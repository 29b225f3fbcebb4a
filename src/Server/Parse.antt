-- ===== src/Server/Parse.antt =====
-- src/Server.cpp: `Server::FetchHeader`, and the cutting of the request line.
use cdn_uring.Prelude.{
  ℕ, zero, suc, ◌+◌, ◌==◌, Bool, ◌&&◌, Option, none, some, [], ◌∷◌, ◌++◌, length, take, drop,
  get_or, leb, ltb, if◌then◌else◌,
}
use cdn_uring.Prelude.Text.{Text, codes, c_str, find, pos_of, add_size, substr}
use cdn_uring.Prelude.Result.{Result, ok, fault, overflow, ◌>>=◌}
use cdn_uring.Headers.{crlf}

-- Four bytes at `offset` that end the header; past the text the buffer holds zeros.
unfoldable pub ends_header : Text → Bool
ends_header s =
    get_or s 0 0 == 13 && (get_or s 1 0 == 10 && (get_or s 2 0 == 13 && get_or s 3 0 == 10))

-- The scan for the end of the header: `n` rounds are left, the text starts at `offset`. On success
-- the offset is past the first line end of the two.
unfoldable pub scan : ℕ → Text → ℕ → ℕ
unfolding ends_header
scan zero s offset = offset
scan (suc n) s offset =
    let next = scan n (drop 1 s) (offset + 1) in if ends_header s then offset + 2 else next

-- `strcpy` into a block of `cap` bytes.
abbrev pub strcpy : ℕ → Text → Result Text
strcpy cap s = if ltb (length (c_str s)) cap then ok (c_str s) else fault overflow

abbrev pub host_line : Text
host_line = codes "Host: "

-- The command, and the header with its host line taken out. The blocks behind both have `dest_sz`
-- bytes.
unfoldable pub cut_header : ℕ → Text → Result (Text × Text)
cut_header dest_sz header_raw = do
  let line_end = pos_of (find header_raw crlf)
  content ← substr header_raw (add_size line_end 2)
  let host = pos_of (find content host_line)
  from_host ← substr content (add_size host 6)
  let host_end = pos_of (find from_host crlf)
  after_host ← substr from_host (add_size host_end 2)
  command ← strcpy dest_sz (take line_end header_raw)
  header ← strcpy dest_sz (take host content ++ after_host)
  ok (command, header)

-- `Server::FetchHeader`: `none` is the status 1 of a request that is malformed.
unfoldable pub fetch_header : Text → ℕ → Result (Option (Text × Text))
fetch_header src dest_sz =
    let offset = scan dest_sz src 0 in
    if leb dest_sz offset
    then ok none
    else (cut_header dest_sz (take offset (c_str src)) >>= λ cut. ok (some cut))

-- `strtok_r` with a blank as the delimiter: skip blanks, then take up to the next one. The result is
-- the token and what is left; `none` is a null pointer.
skip_blanks : Text → Text
skip_blanks [] = []
skip_blanks (c ∷ s) = let rest = skip_blanks s in if c == 32 then rest else c ∷ s

split_blank : Text → Text × Text
split_blank [] = ([], [])
split_blank (c ∷ s) = let rest = split_blank s in if c == 32 then ([], s) else (c ∷ rest.0, rest.1)

token : Text → Option (Text × Text)
unfolding split_blank
token [] = none
token (c ∷ s) = some (split_blank (c ∷ s))

unfoldable pub strtok : Text → Option (Text × Text)
unfolding token skip_blanks
strtok s = token (skip_blanks s)
