-- ===== src/Http/Parse.antt =====
-- src/Http.cpp: what is read from the header of the origin, and the header that it is sent.
use cdn_uring.Prelude.{
  ℕ, zero, suc, ◌+◌, ◌==◌, Bool, true, false, [], ◌∷◌, ◌++◌, length, take, drop, leb, if◌then◌else◌,
}
use cdn_uring.Prelude.Text.{Text, codes, c_str, text_eq}
use cdn_uring.Prelude.Result.{Result, ok, fault, past_end, ◌>>=◌}
use cdn_uring.Event
use cdn_uring.Headers.{get_header_tag, replace_header_tag, crlf}
use cdn_uring.World.{Iovec}

-- `std::string` of the block, which must hold a NUL among the bytes that were put there: what is behind
-- them was never written, or is not the block's.
unfoldable pub string_of : Iovec → Result Text
string_of block =
    if leb (length block.base) (length (c_str block.base))
    then fault past_end
    else ok (c_str block.base)

-- `Http::GetResourceType`.
unfoldable pub get_resource_type : Iovec → Result ℕ
get_resource_type block = do
  header ← string_of block
  connection ← get_header_tag header (codes "Connection")
  ok (if text_eq connection (codes "close") then Event.resource_cache else Event.resource_streaming)

-- `pat` against the bytes that follow, one after the other; a byte past the block is undefined.
unfoldable pub expect : Text → Text → Result Bool
expect [] s = ok true
expect (p ∷ pat) [] = fault past_end
expect (p ∷ pat) (c ∷ s) = let rest = expect pat s in if c == p then rest else ok false

abbrev pub header_end : Text
header_end = codes "\r\n\r\n"

-- `Http::FetchHeaderLength`: `n` rounds are left, and `s` is what follows at `offset`.
unfoldable pub fetch_header_length : ℕ → Text → ℕ → Result ℕ
fetch_header_length zero s offset = ok offset
fetch_header_length (suc n) s offset =
    let rest = fetch_header_length n (drop 1 s) (offset + 1) in
    (expect header_end s >>= λ found. if found then ok (offset + 4) else rest)

-- `Http::GetExternalHeader`: the client's header, as it is sent to the origin.
unfoldable pub get_external_header : Bool → Iovec → Result Text
get_external_header astra_mode block = do
  header ← string_of block
  replaced ←
      (if astra_mode
        then ok header
        else replace_header_tag header (codes "Connection") (codes "close"))
  ok (replaced ++ crlf)

-- `Http::ProcessExternalHeader`: the header that goes to the clients.
unfoldable pub process_external_header : ℕ → Text → Text
process_external_header header_length base = c_str (take header_length base)
