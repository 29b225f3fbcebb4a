-- ===== src/Hls/Channel.antt =====
-- src/HLSStream.cpp, `ProcessChannel`: the list of the playlists of a channel has come.
use cdn_uring.Prelude.{
  ℕ, zero, suc, ◌+◌, ◌==◌, ◌^◌, Bool, true, false, Option, none, some, List, [], ◌∷◌, ◌++◌, length,
  take, drop, ltb, if◌then◌else◌,
}
use cdn_uring.Prelude.Text.{Text, codes, find}
use cdn_uring.Prelude.Text.Lines.{lines_of}
use cdn_uring.Prelude.Result.{Result, ok, fault, past_end, out_of_range, endless}
use cdn_uring.Http.Parse.{string_of}
use cdn_uring.Hls.Files.{create_playlist, request_file}
use cdn_uring.Hls.Header.{update_header}
use cdn_uring.Hls.State.{segment_inner_playlist_tag}
use cdn_uring.Hls.Tracks.{starts_with}
use cdn_uring.Stream.Registry.{is_some}
use cdn_uring.World.{Iovec, Mux, Env}
use cdn_uring.World.Monad.{
  M, pure, skip, fail, run_result, mux_at, put_mux, element, block_of, ◌>>=◌, ◌>>◌,
}

-- The first address behind a line `#EXT-X-STREAM-INF`; `awaits` tells whether that line was the last one.
unfoldable pub find_stream : Bool → List Text → Option Text
find_stream awaits [] = none
find_stream true (line ∷ lines) =
    let rest = find_stream false lines in if starts_with "http" line then some line else rest
find_stream false (line ∷ lines) = find_stream (starts_with "#EXT-X-STREAM-INF:" line) lines

-- `url.replace(url.begin(), url.begin() + 7, "/")`.
unfoldable pub local_url : Text → Result Text
local_url url = if ltb (length url) 7 then fault past_end else ok (codes "/" ++ drop 7 url)

-- `path.substr(path.find("/", 1))`.
unfoldable pub path_of : Text → Result Text
path_of url = elim (find (drop 1 url) (codes "/")) [
  | none ↦ fault out_of_range
  | some i ↦ ok (drop (i + 1) url)
]

-- The playlist that a user asks for is made if it is not there.
unfoldable pub create_missing : Env → Mux → ℕ → M (Unit {0})
create_missing env mux id w =
    (if is_some (w.playlists id) then skip else create_playlist env id mux.resource_id mux.url) w

-- The playlist that a list names: the one whose answer this is, or the one of its path.
unfoldable pub request_playlist : Env → Mux → ℕ → Text → M (Unit {0})
request_playlist env mux parent_id found = do
  url ← run_result (local_url found)
  path ← run_result (path_of url)
  if parent_id == 0
      then (do
        create_missing env mux (env.hash path)
        request_file env (env.hash path) url segment_inner_playlist_tag 100)
      else request_file env parent_id url segment_inner_playlist_tag 100

unfoldable pub request_found : Env → Mux → ℕ → Option Text → M (Unit {0})
request_found env mux parent_id none = skip
request_found env mux parent_id (some url) = request_playlist env mux parent_id url

-- `Settings::Proxy` becomes `Settings::BaseUrl` again and again, at most `rounds` times.
unfoldable pub replace_all : Text → Text → ℕ → Text → Result Text
replace_all proxy base_url zero content = elim (find content proxy) [
  | none ↦ ok content
  | some i ↦ fault endless
]
replace_all proxy base_url (suc rounds) content = elim (find content proxy) [
  | none ↦ ok content
  | some i ↦
      replace_all proxy base_url rounds
        (take i content ++ (base_url ++ drop (i + length proxy) content))
]

-- A position is an `int`, so a text for which the loop ends has room for no more rounds.
abbrev pub most_rounds : ℕ
most_rounds = 2 ^ 31

-- The new buffer; one whose text does not name the proxy is left as it was allocated.
unfoldable pub rewrite : Env → ℕ → Text → M (Option Iovec)
rewrite env id content = elim (find content env.proxy) [
  | none ↦ pure none
  | some i ↦ do
    replaced ← run_result (replace_all env.proxy env.base_url most_rounds content)
    mux ← mux_at id
    updated ← run_result (update_header mux (length replaced))
    put_mux id updated
    pure (some (block_of replaced))
]

unfoldable pub process_buffer : Env → Mux → ℕ → Iovec → M (Option Iovec)
process_buffer env mux parent_id v = if v.len == 0 then pure none else (do
  content ← run_result (string_of v)
  request_found env mux parent_id (find_stream false (lines_of content))
  rewrite env mux.resource_id content)

unfoldable pub process_buffers : Env → Mux → ℕ → List Iovec → ℕ → M (List (Option Iovec))
process_buffers env mux parent_id buffer zero = pure []
process_buffers env mux parent_id [] (suc size) = fail past_end
process_buffers env mux parent_id (v ∷ buffer) (suc size) = do
  new ← process_buffer env mux parent_id v
  rest ← process_buffers env mux parent_id buffer size
  pure (new ∷ rest)

-- `HLSStream::ProcessChannel`; what it fills is `none` where it is not written.
unfoldable pub process_channel : Env → Mux → ℕ → List Iovec → ℕ → M (List (Option Iovec))
process_channel env mux parent_id buffer size = do
  channel ← element mux.requests 0
  process_buffers env mux parent_id buffer size
