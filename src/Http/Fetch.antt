-- ===== src/Http/Fetch.antt =====
-- src/HttpClient.cpp, `HandleFetchRequest`: connecting to the origin and asking it for the resource;
-- and `Http::Retry`.
use cdn_uring.Prelude.{
  ℕ, ◌==◌, Bool, true, false, none, some, ◌++◌, length, take, drop, replicate, ltb, if◌then◌else◌,
}
use cdn_uring.Prelude.Int.{ℤ, pos, negsuc, is_neg}
use cdn_uring.Prelude.Text.{Text, codes, find, substr}
use cdn_uring.Prelude.Result.{Result, ok, fault}
use cdn_uring.Event
use cdn_uring.World.{Iovec, Ptr, Request, Env, prep_read, prep_timeout}
use cdn_uring.World.Monad.{
  M, pure, run_result, deref, allocate, submit, close_fd, element, bytes_of, set_iov, block_of,
  ◌>>=◌, ◌>>◌,
}
use cdn_uring.Request.{http_external_request}
use cdn_uring.Stream.Notify.{release_error_all_waiting_request}
use cdn_uring.Http.Parse.{string_of, get_external_header}

-- What the system answers to `socket`, to `connect` (with `errno == EAGAIN`) and to `send`.
pub record Dial : Type 0 where
  pub socket : ℤ
  pub connect : ℤ
  pub is_again : Bool
  pub send : Text → ℤ

-- `connect` is called for a socket above 0 only.
unfoldable pub is_connected : Dial → ℤ
is_connected dial = elim dial.socket [
  | pos fd ↦ if ltb 0 fd then dial.connect else negsuc 0
  | negsuc n ↦ negsuc 0
]

-- The host and the query of a path, which begins with one character that is not part of the host.
unfoldable pub split_host : Text → Text × Text
split_host url = elim (find url (codes "/")) [
  | none ↦ (url, codes "/")
  | some i ↦ (take i url, drop i url)
]

unfoldable pub split_url : Text → Result (Text × Text)
split_url path = elim (substr path 1) [ ok url ↦ ok (split_host url) | fault e ↦ fault e ]

-- The first lines of the request.
unfoldable pub request_lines : Text → Text → Text
request_lines host query =
    codes "GET " ++ (query ++ (codes " HTTP/1.1\r\nHost: " ++ (host ++ codes "\r\n")))

unfoldable pub was_sent : ℤ → ℕ → Bool
was_sent (pos n) size = n == size
was_sent (negsuc n) size = false

-- The request for the origin's answer, which begins with its header.
unfoldable pub await_header : Env → Request → Iovec → Iovec → ℤ → M Bool
unfolding http_external_request
await_header env inner url address sock = do
  let buffer : Iovec = record {
    len = env.http_buffer_size;
    cap = env.http_buffer_size;
    base = replicate env.http_buffer_size 0;
  }
  let http = set_iov (http_external_request inner) 0 buffer
  let http = set_iov http 1 (block_of (bytes_of url))
  let http = set_iov http 2 (block_of (bytes_of address))
  p ← allocate (record http {
    event_type = Event.http_read_header;
    client_socket = sock;
    pivot = Event.resource_undefined;
  })
  submit (prep_read sock env.http_buffer_size 0 p)
  pure true

abbrev pub give_up : ℕ → M Bool
give_up resource_id = do release_error_all_waiting_request resource_id 502; pure true

-- The connection is there: send the request.
unfoldable pub ask_origin : Env → Dial → Request → Text × Text → M Bool
ask_origin env dial inner (host, query) = do
  url ← element inner.iov 2
  header ← element inner.iov 3
  address ← element inner.iov 4
  external ← run_result (get_external_header false header)
  let request_data = request_lines host query ++ external
  if was_sent (dial.send request_data) (length request_data)
      then await_header env inner url address dial.socket
      else give_up inner.resource_id

-- `Http::Retry`.
unfoldable pub retry : Ptr → M (Unit {0})
retry p = submit (prep_timeout 200 p)

-- No connection: close the socket, and try again later or give up.
unfoldable pub refuse : Dial → Ptr → Request → M Bool
refuse dial p inner = do
  close_fd dial.socket
  if dial.is_again then (retry p >> pure false) else give_up inner.resource_id

-- `HttpClient::HandleFetchRequest`: whether the request `p` may be freed.
unfoldable pub handle_fetch_request : Env → Dial → Ptr → M Bool
handle_fetch_request env dial p = do
  inner ← deref p
  path ← element inner.iov 2
  url ← run_result (string_of path)
  parts ← run_result (split_url url)
  if is_neg dial.socket
      then give_up inner.resource_id
      else if is_neg (is_connected dial)
      then refuse dial p inner
      else ask_origin env dial inner parts
