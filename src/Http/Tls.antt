-- ===== src/Http/Tls.antt =====
-- src/HttpsClient.cpp: the connection over TLS.
use cdn_uring.Prelude.{
  ℕ, zero, suc, ◌==◌, Bool, true, false, not, ◌++◌, length, take, drop, replicate, leb, ltb,
  if◌then◌else◌,
}
use cdn_uring.Prelude.Int.{ℤ, pos, negsuc, is_neg}
use cdn_uring.Prelude.Text.{Text, codes, find, substr, pos_of}
use cdn_uring.Prelude.Result.{endless, overflow}
use cdn_uring.Event
use cdn_uring.Http.Client.{Client}
use cdn_uring.Http.Fetch.{Dial, is_connected}
use cdn_uring.Http.Parse.{string_of, get_external_header}
use cdn_uring.Request.{https_external_request, release_request}
use cdn_uring.Stream.Notify.{release_error_all_waiting_request}
use cdn_uring.World.{Iovec, Ptr, Request, Env, prep_nop}
use cdn_uring.World.Monad.{
  M, pure, skip, fail, run_result, deref, store, allocate, submit, close_fd, element, set_iov,
  ◌>>=◌, ◌>>◌,
}

-- What the TLS library answers: whether a context and a session are made, to `SSL_connect`, to
-- `SSL_write`, to `SSL_read` of a request with the bytes that it reads, and to `SSL_get_error`.
pub record Tls : Type 0 where
  pub ctx_new : Bool
  pub session_new : Bool
  pub connect : ℤ
  pub write : Text → ℤ
  pub read : Ptr → ℤ
  pub bytes : Ptr → Text
  pub get_error : ℤ → ℕ

abbrev pub ssl_error_none : ℕ
ssl_error_none = 0

abbrev pub ssl_error_syscall : ℕ
ssl_error_syscall = 5

abbrev pub ssl_error_zero_return : ℕ
ssl_error_zero_return = 6

-- `HttpsClient::CloseSSL`. The session and the context are the library's, and no longer used.
unfoldable pub close_ssl : ℤ → M (Unit {0})
close_ssl (pos fd) = if ltb 0 fd then close_fd (pos fd) else skip
close_ssl (negsuc n) = skip

-- `HttpsClient::ReleaseSocket`.
unfoldable pub release_tls_socket : Ptr → M (Unit {0})
release_tls_socket p = do http ← deref p; close_ssl http.client_socket; release_request p

-- `HttpsClient::ProcessError`, which calls itself with the code of the error as the new answer: `n`
-- calls at most.
unfoldable pub process_error : Tls → ℕ → ℤ → M Bool
process_error tls zero last_error = fail endless
process_error tls (suc n) last_error =
    let again = process_error tls n (pos (tls.get_error last_error)) in
    if tls.get_error last_error == ssl_error_none
    then pure true
    else if tls.get_error last_error == ssl_error_zero_return
    then pure true
    else if tls.get_error last_error == ssl_error_syscall
    then again
    else pure false

-- Bytes that are read into a block, over those that were there.
unfoldable pub read_into : Iovec → Text → M Iovec
read_into block bytes =
    if leb (length bytes) block.cap
    then pure (record block { base = bytes ++ drop (length bytes) block.base })
    else fail overflow

abbrev pub is_below_one : ℤ → Bool
is_below_one (pos n) = n == 0
is_below_one (negsuc n) = true

-- What `PreRequest` makes of the answer of `SSL_read`.
unfoldable pub judge : Tls → ℤ → M ℤ
judge tls readed =
    if is_below_one readed
    then (do going ← process_error tls 2 readed; pure (if going then readed else negsuc 0))
    else pure readed

-- `HttpsClient::PreRequest`.
unfoldable pub pre_tls_request : Tls → Ptr → ℤ → M ℤ
pre_tls_request tls p response = do
  http ← deref p
  block ← element http.iov 0
  filled ← read_into block (tls.bytes p)
  store p (set_iov http 0 filled)
  judge tls (tls.read p)

-- `HttpsClient::PostRequest`: the socket is read without waiting for it.
unfoldable pub post_tls_request : Env → Ptr → M (Unit {0})
post_tls_request env p = submit (prep_nop p)

-- The connection over TLS.
abbrev pub tls_client : Tls → Client
tls_client tls = record {
  pre_request = pre_tls_request tls;
  post_request = post_tls_request;
  release_socket = release_tls_socket;
}

-- All failures end the same way, and the request is not freed.
unfoldable pub give_up_tls : ℕ → M Bool
give_up_tls resource_id = do release_error_all_waiting_request resource_id 502; pure false

unfoldable pub drop_tls : ℤ → ℕ → M Bool
drop_tls sock resource_id = do close_ssl sock; give_up_tls resource_id

abbrev pub tls_request_lines : Text → Text → Text
tls_request_lines host query =
    codes "GET " ++ (query ++ (codes " HTTP/1.2\r\nHost: " ++ (host ++ codes "\r\n")))

-- The request for the origin's answer.
unfoldable pub await_tls_header : Env → Request → ℤ → M Bool
unfolding https_external_request
await_tls_header env inner sock = do
  let buffer : Iovec = record {
    len = env.http_buffer_size;
    cap = env.http_buffer_size;
    base = replicate env.http_buffer_size 0;
  }
  p ← allocate (record (set_iov (https_external_request inner) 0 buffer) {
    event_type = Event.http_read_header;
    client_socket = sock;
    pivot = Event.resource_undefined;
  })
  submit (prep_nop p)
  pure true

-- The session is there: send the request.
unfoldable pub ask_tls_origin : Env → Dial → Tls → Request → Text → Text → M Bool
ask_tls_origin env dial tls inner host query = do
  header ← element inner.iov 3
  external ← run_result (get_external_header false header)
  if is_neg (tls.write (tls_request_lines host query ++ external))
      then drop_tls dial.socket inner.resource_id
      else await_tls_header env inner dial.socket

-- The context and the session are there: connect.
unfoldable pub dial_tls : Env → Dial → Tls → Request → Text → Text → M Bool
dial_tls env dial tls inner host query =
    if is_neg dial.socket
    then give_up_tls inner.resource_id
    else if is_neg (is_connected dial)
    then drop_tls dial.socket inner.resource_id
    else if is_below_one tls.connect
    then drop_tls dial.socket inner.resource_id
    else ask_tls_origin env dial tls inner host query

-- `HttpsClient::HandleFetchRequest`.
unfoldable pub handle_tls_fetch_request : Env → Dial → Tls → Ptr → M Bool
handle_tls_fetch_request env dial tls p = do
  inner ← deref p
  path ← element inner.iov 2
  text ← run_result (string_of path)
  url ← run_result (substr text 1)
  let slash = pos_of (find url (codes "/"))
  query ← run_result (substr url slash)
  if not (tls.ctx_new)
      then give_up_tls inner.resource_id
      else if not (tls.session_new)
      then drop_tls (negsuc 0) inner.resource_id
      else dial_tls env dial tls inner (take slash url) query
