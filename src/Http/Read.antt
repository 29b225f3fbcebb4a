-- ===== src/Http/Read.antt =====
-- src/Http.cpp: an answer of the origin goes to the clients of the resource or to its file.
use cdn_uring.Prelude.{ℕ, ◌-◌, ◌==◌, take, drop, ltb, if◌then◌else◌}
use cdn_uring.Prelude.Int.{ℤ, pos, negsuc, is_neg}
use cdn_uring.Prelude.Text.{Text}
use cdn_uring.Event
use cdn_uring.World.{Iovec, Ptr, Request, Env}
use cdn_uring.World.Monad.{M, pure, skip, run_result, deref, store, element, set_iov, ◌>>=◌, ◌>>◌}
use cdn_uring.Stream.Write.{clear}
use cdn_uring.Stream.Notify.{
  set_streaming_resource, notify_stream, close_stream, release_error_all_waiting_request,
  drop_result,
}
use cdn_uring.Cache.Buffer.{generate_node, append_buffer, close_buffer}
use cdn_uring.Http.Parse.{get_resource_type, fetch_header_length, process_external_header}
use cdn_uring.Http.Client.{Client}

-- The end of the connection, while the header is awaited: an error is passed on to the clients.
unfoldable pub end_header : ℕ → ℤ → M (Unit {0})
end_header resource_id readed =
    if is_neg readed
    then release_error_all_waiting_request resource_id 502
    else close_stream resource_id

-- The bytes that were read after the header.
abbrev pub behind_header : ℕ → ℕ → Text → Text
behind_header header_length readed base = take (readed - header_length) (drop header_length base)

-- A file: its header and what came of its content.
unfoldable pub begin_file : Env → Ptr → ℕ → ℕ → Text → ℕ → Text → M (Unit {0})
begin_file env p resource_id header_length new_header readed base = do
  _ ← generate_node env p new_header
  if ltb header_length readed
      then drop_result (append_buffer env resource_id (behind_header header_length readed base))
      else skip

-- A stream: the same.
unfoldable pub begin_stream : Env → ℕ → ℕ → Text → ℕ → Text → M (Unit {0})
begin_stream env resource_id header_length new_header readed base = do
  set_streaming_resource env resource_id new_header
  if ltb header_length readed
      then drop_result (notify_stream env resource_id (behind_header header_length readed base))
      else skip

abbrev pub with_length : Iovec → ℕ → Iovec
with_length block n = record block { len = n }

-- The header is there: `readed` bytes of the buffer are filled.
unfoldable pub read_header : Client → Env → Ptr → ℕ → M ℕ
read_header client env p readed = do
  http ← deref p
  block ← element http.iov 0
  type ← run_result (get_resource_type block)
  header_length ← run_result (fetch_header_length readed block.base 0)
  let new_header = process_external_header header_length block.base
  let is_file = type == Event.resource_cache
  let seen = if is_file then header_length else readed
  store p (set_iov http 0 (with_length block seen))
  if is_file
      then begin_file env p http.resource_id header_length new_header readed block.base
      else begin_stream env http.resource_id header_length new_header readed block.base
  http ← deref p
  store p (record http { pivot = type; event_type = Event.http_read_content })
  client.post_request env p
  pure 0

-- What is done with an answer: `end` for a closed or broken connection, `go` for bytes.
unfoldable pub on_answer : Client → Ptr → ℤ → M (Unit {0}) → (ℕ → M ℕ) → M ℕ
on_answer client p (negsuc n) end go = do end; client.release_socket p; pure 1
on_answer client p (pos n) end go =
    if n == 0 then (do end; client.release_socket p; pure 1) else go n

-- `Http::HandleReadHeaderRequest`.
unfoldable pub handle_read_header_request : Client → Env → Ptr → ℤ → M ℕ
handle_read_header_request client env p response = do
  readed ← client.pre_request p response
  http ← deref p
  on_answer client p readed (end_header http.resource_id readed) (read_header client env p)

-- The end of the connection, while content is awaited.
unfoldable pub end_content : Env → Request → ℤ → M (Unit {0})
end_content env http readed =
    if is_neg readed
    then release_error_all_waiting_request http.resource_id 502
    else if http.pivot == Event.resource_cache
    then close_buffer env http.resource_id
    else if http.pivot == Event.resource_streaming
    then close_stream http.resource_id
    else skip

-- Content goes to the file or to the clients; 1 if there are no clients any more.
unfoldable pub pass_content : Env → Request → Text → M ℕ
pass_content env http content =
    if http.pivot == Event.resource_cache
    then (append_buffer env http.resource_id content >>= λ _. pure 0)
    else if http.pivot == Event.resource_streaming
    then notify_stream env http.resource_id content
    else pure 0

-- The buffer is cleared, and the next read is asked for.
unfoldable pub read_on : Client → Env → Ptr → M ℕ
read_on client env p = do
  http ← deref p
  block ← element http.iov 0
  cleared ← clear env block
  store p (set_iov http 0 cleared)
  client.post_request env p
  pure 0

unfoldable pub read_content : Client → Env → Ptr → ℕ → M ℕ
read_content client env p readed = do
  http ← deref p
  block ← element http.iov 0
  passed ← pass_content env http (take readed block.base)
  if passed == 1 then (client.release_socket p >> pure 1) else read_on client env p

-- `Http::HandleReadData`.
unfoldable pub handle_read_data : Client → Env → Ptr → ℤ → M ℕ
handle_read_data client env p response = do
  http ← deref p
  readed ← client.pre_request p response
  on_answer client p readed (end_content env http readed) (read_content client env p)
