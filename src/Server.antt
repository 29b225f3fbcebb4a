-- ===== src/Server.antt =====
-- src/Server.cpp: reading the client's request, and writing to the client's socket.
pub mod Parse
pub mod Cut
pub mod Submit
mod Tests
use cdn_uring.Prelude.{
  ℕ, ◌==◌, ◌&&◌, ltb, Bool, true, false, Option, none, some, [], ◌∷◌, ◌++◌, length, if◌then◌else◌,
  leb, map, replicate,
}
use cdn_uring.Prelude.Int.{ℤ, is_socket_closed}
use cdn_uring.Prelude.Text.{Text, codes, is_empty, c_str, to_lower, text_eq}
use cdn_uring.Prelude.Result.{past_end, null}
use cdn_uring.Event
use cdn_uring.World.{Ptr, Request, Env, prep_write, prep_nop, prep_read}
use cdn_uring.World.Monad.{
  M, pure, skip, fail, lift, run_result, deref, store, allocate, submit, close_fd, bytes_of,
  set_iov, element, block_of, blank_block, ◌>>=◌, ◌>>◌,
}
use cdn_uring.Request.{http_entry_request, http_error_request, release_request}
use Parse.{scan, fetch_header, strtok}

abbrev pub read_sz : ℕ
read_sz = 8192

-- The answers `http_304_content` to `http_504_content`. For any other status the code reads a pointer
-- that was never set: `none`.
unfoldable pub status_content : ℕ → Option Text
status_content status_code =
    if status_code == 304
    then some (codes "HTTP/1.0 304 Not Modified\r\nContent-type: text/plain\r\n\r\n")
    else if status_code == 400
    then some (codes "HTTP/1.0 400 Bad Request\r\nContent-type: text/plain\r\n\r\nBad Request \r\n")
    else if status_code == 405
    then some (
        codes
          "HTTP/1.0 405 Method Not Allowed\r\nContent-type: text/plain\r\n\r\nMethod Not Allowed \r\n")
    else if status_code == 412
    then some (codes "HTTP/1.0 412 Precondition Failed\r\nContent-type: text/plain\r\n\r\n")
    else if status_code == 502
    then some (codes "HTTP/1.0 502 Bad Gateway\r\nContent-type: text/plain\r\n\r\nBad Gateway \r\n")
    else if status_code == 504
    then some (
        codes
          "HTTP/1.0 504 Gateway Timeout\r\nContent-type: text/plain\r\n\r\nGateway Timeout \r\n")
    else none

-- `Server::AddReadRequest`.
unfoldable pub add_read_request : ℤ → M (Unit {0})
unfolding http_entry_request
add_read_request client_socket = do
  req ← allocate (record (set_iov http_entry_request 0 (blank_block read_sz)) {
    event_type = Event.server_read;
    client_socket = client_socket;
  })
  submit (prep_read client_socket read_sz 0 req)

-- `Server::AddHttpErrorRequest`.
unfoldable pub add_http_error_request : ℤ → ℕ → M (Unit {0})
unfolding http_error_request
add_http_error_request client_socket status_code = do
  content ← lift null (status_content status_code)
  req ← allocate (record (set_iov http_error_request 0 (block_of content)) {
    event_type = Event.server_write_complete;
    client_socket = client_socket;
  })
  submit (prep_write client_socket content 0 req)

-- The branch of `Server::HandleRead` for a request that is complete: 405 for any method but GET.
unfoldable pub accept_get : Env → Ptr → Request → Option (Text × Text) → Text → M Bool
accept_get env p entry none header = fail null
accept_get env p entry (some (path, _)) header = do
  let tmp = if is_empty env.proxy then path else env.proxy ++ path
  let located = set_iov entry 1 (block_of (tmp ++ (0 ∷ [])))
  let filled = set_iov located 2 (block_of (header ++ (0 ∷ [])))
  store p (record filled { resource_id = env.hash path })
  pure true

unfoldable pub accept_method : Env → Ptr → Request → Option (Text × Text) → Text → M Bool
accept_method env p entry none header = fail null
accept_method env p entry (some (method, rest)) header =
    if text_eq (map to_lower method) (codes "get")
    then accept_get env p entry (strtok rest) header
    else do add_http_error_request entry.client_socket 405; pure false

unfoldable pub accept_header : Env → Ptr → Request → Option (Text × Text) → M Bool
accept_header env p entry none = do add_http_error_request entry.client_socket 400; pure false
accept_header env p entry (some (http_command, header)) =
    accept_method env p entry (strtok http_command) header

-- `Server::HandleRead`. If there is an empty line early enough, the buffer must hold a NUL, or the C string
-- runs past its end.
unfoldable pub handle_read : Env → Ptr → M Bool
handle_read env p = do
  entry ← deref p
  src ← element entry.iov 0
  if ltb (scan 1024 src.base 0) 1024 && leb read_sz (length (c_str src.base))
      then fail past_end
      else skip
  fetched ← run_result (fetch_header src.base 1024)
  accept_header env p entry fetched

-- `Server::AddWriteRequest`.
unfoldable pub add_write_request : Ptr → ℕ → M (Unit {0})
add_write_request p event_type = do
  stream ← deref p
  buffer ← element stream.iov 0
  store p (record stream { event_type = event_type; is_processing = true })
  submit (prep_write stream.client_socket (bytes_of buffer) 0 p)

-- `Server::AddWriteHeaderRequest`.
unfoldable pub add_write_header_request : Ptr → M (Unit {0})
add_write_header_request p = do
  stream ← deref p
  buffer ← element stream.iov 0
  store p (record stream { event_type = Event.server_write_header; is_processing = true })
  submit (prep_write stream.client_socket (bytes_of buffer) 0 p)

-- `Server::AddCloseRequest`.
unfoldable pub add_close_request : Ptr → M (Unit {0})
add_close_request p = do
  request ← deref p
  store p (record request { event_type = Event.server_close })
  submit (prep_nop p)

-- `Server::HandleWrite`.
unfoldable pub handle_write : Ptr → ℤ → M (Unit {0})
handle_write p response = do
  request ← deref p
  if is_socket_closed response then skip else close_fd request.client_socket
  release_request p

-- `Server::HandleWriteStream`: 1 if the client has gone.
unfoldable pub handle_write_stream : ℤ → ℕ
handle_write_stream response = if is_socket_closed response then 1 else 0

-- `Server::HandleClose`.
unfoldable pub handle_close : Ptr → M (Unit {0})
handle_close p = do request ← deref p; close_fd request.client_socket; release_request p
