-- ===== src/Hls/Files.antt =====
-- src/HLSStream.cpp: asking for a file, and the resources that go with it.
use cdn_uring.Prelude.{ℕ, true, List, [], ◌∷◌, ◌++◌, if◌then◌else◌}
use cdn_uring.Prelude.Int.{pos}
use cdn_uring.Prelude.Text.{Text, codes, c_str}
use cdn_uring.Prelude.Result.{ok}
use cdn_uring.Event
use cdn_uring.Request.{create_request, stream_request, release_request}
use cdn_uring.Stream.Join.{nop}
use cdn_uring.Stream.Registry.{create_mux, exists_resource, release_resource}
use cdn_uring.Hls.State.{segment_playlist_tag, max_fetches}
use cdn_uring.Hls.Store.{insert_mux, playlist_at, insert_playlist, erase_playlist, erase_segment}
use cdn_uring.World.{Ptr, Request, Env}
use cdn_uring.World.Monad.{insert, c_block, M, skip, allocate, mux_at, set_iov, ◌>>=◌, ◌>>◌}

-- `HLSStream::CreateSegment`.
unfoldable pub create_segment : ℕ → ℕ → M (Unit {0})
create_segment resource_id parent w =
    ok (tt, record w { segments = insert w.segments resource_id parent })

abbrev pub file_header : Text
file_header =
    codes
      "User-Agent: Lavf/60.3.100\r\nConnection: keep-alive\r\nRanges: bytes=0-\r\nIcy-MetaData: 1\r\nAccept: */*\r\n"

-- The request that the resolver gets for a file.
unfoldable pub file_request : ℕ → Text → Request
unfolding create_request
file_request resource_id url =
    set_iov
      (set_iov (record (create_request 5 Event.dns_fetchaaaa) { resource_id = resource_id }) 2
        (c_block url))
      3 (c_block file_header)

-- `HLSStream::RequestFile`. The resource gets a request of its own, so that it is not without a client.
unfoldable pub request_file : Env → ℕ → Text → ℕ → ℕ → M (Unit {0})
request_file env parent_id url tag msecs = do
  let resource_id = env.hash (c_str url)
  create_segment resource_id parent_id
  inner ← allocate (file_request resource_id url)
  stream ←
      allocate (record (stream_request (file_request resource_id url)) { is_processing = true })
  insert_mux resource_id (record (create_mux env resource_id []) {
    tag = tag;
    in_memory = true;
    requests = stream ∷ [];
  })
  nop inner msecs

-- `Utils::ReleaseRequest` of each request of a resource.
unfoldable pub release_all : List Ptr → M (Unit {0})
release_all [] = skip
release_all (c ∷ requests) = release_request c >> release_all requests

-- `HLSStream::RemoveSegment`.
unfoldable pub remove_segment : ℕ → M (Unit {0})
remove_segment resource_id = do
  mux ← mux_at resource_id
  release_all mux.requests
  release_resource resource_id
  erase_segment resource_id

-- `HLSStream::RemovePlaylist`: its channel goes too.
unfoldable pub remove_playlist : ℕ → M (Unit {0})
remove_playlist resource_id = do
  playlist ← playlist_at resource_id
  found ← exists_resource playlist.channel_id
  (if found
      then (do
        channel_mux ← mux_at playlist.channel_id
        release_all channel_mux.requests
        release_resource channel_mux.resource_id)
      else skip)
  erase_playlist resource_id

abbrev pub playlist_header : Text
playlist_header =
    codes "HTTP/1.1 200 OK\r\nServer: Astra\r\nCache-Control: no-cache\r\nContent-Length: 0\r\n"
    ++ codes "Access-Control-Allow-Origin: *\r\nAccess-Control-Allow-Methods: GET\r\n"
    ++ codes "Access-Control-Allow-Credentials: true\r\n"
    ++ codes "Content-Type: application/vnd.apple.mpegURL\r\nConnection: close\r\n\r\n"

-- `HLSStream::CreatePlaylist`.
unfoldable pub create_playlist : Env → ℕ → ℕ → Text → M (Unit {0})
create_playlist env resource_id channel_id channel_url = do
  insert_playlist resource_id (record {
    resource_id = resource_id;
    channel_id = channel_id;
    remaining_fetches = max_fetches;
    last_stamp = pos 0;
    url = channel_url;
    track_urls = [];
    track_uids = [];
    track_stamps = [];
    track_sequence = [];
  })
  insert_mux resource_id (record (create_mux env resource_id []) {
    tag = segment_playlist_tag;
    type = Event.resource_cache;
    transfer_mode = Event.wait_until_complete;
    in_memory = true;
    header = c_block playlist_header;
  })
