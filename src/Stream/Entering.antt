-- ===== src/Stream/Entering.antt =====
-- src/Stream.cpp, `HandleExistsResource`: a client asks for a resource.
use cdn_uring.Prelude.{
  ◌+◌, ◌≤◌, ◌<◌, ◌≡◌, refl, Bool, true, false, not, ◌==◌, ◌&&◌, ◌||◌, some, [], ◌∷◌, ◌++◌, length,
  get_or, arith, if◌then◌else◌, Bool-cases, inl, inr,
}
use cdn_uring.Prelude.Text.{Text, codes, c_str, is_empty, text_eq}
use cdn_uring.Prelude.Result.{ok}
use cdn_uring.Event
use cdn_uring.Headers.{get_header_tag}
use cdn_uring.World.{Ptr, Request, Mux, Env, World}
use cdn_uring.World.Monad.{update, allocate, put_mux, block_of, ◌>>=◌}
use cdn_uring.World.Laws.{deref-ok, mux_at-ok, element-ok, update_self}
use cdn_uring.Request.{no_iovec, stream_request, create_request}
use cdn_uring.Server.{status_content}
use cdn_uring.Stream.Registry.{exists_resource}
use cdn_uring.Stream.Write.{add_write_headers}
use cdn_uring.Stream.Join.{
  join, check_none_match, check_match, enter_existing, handle_exists_resource,
}
use cdn_uring.Stream.Each.{round}
use cdn_uring.Stream.Headers.{headed, header_write, is_held_back, add_write_headers-eq}
use cdn_uring.Stream.Failing.{error_sent, add_http_error_request-ok}

-- The answers of the conditional requests of RFC 9110.
pub data Verdict : Type 0 where
  precondition_failed not_modified admitted : Verdict

-- `If-Match` comes first, and then `If-None-Match`; a tag that the request does not name, or names as
-- empty, does not count.
abbrev pub judge : Text → Text → Text → Verdict
judge etag if_match if_none_match =
    if not (is_empty if_match) && not (text_eq if_match etag)
    then precondition_failed
    else if not (is_empty if_none_match) && text_eq if_none_match etag
    then not_modified
    else admitted

abbrev pub text_412 : Text
text_412 = codes "HTTP/1.0 412 Precondition Failed\r\nContent-type: text/plain\r\n\r\n"

abbrev pub text_304 : Text
text_304 = codes "HTTP/1.0 304 Not Modified\r\nContent-type: text/plain\r\n\r\n"

known_412 : status_content 412 ≡ some text_412
unfolding status_content
known_412 = refl

known_304 : status_content 304 ≡ some text_304
unfolding status_content
known_304 = refl

-- The resource with one client more, at the end.
abbrev pub with_client : Mux → Ptr → Mux
with_client mux p = record mux { requests = mux.requests ++ (p ∷ []) }

-- The new client, before anything is sent to it.
abbrev pub enrolled : Request → Mux → World → World
enrolled entry mux w = record w {
  heap = update w.heap w.next (some (stream_request entry));
  next = w.next + 1;
  resources = update w.resources entry.resource_id (some (with_client mux w.next));
}

-- Whether the new client has to wait even for the header.
abbrev pub is_quiet : Mux → Bool
is_quiet mux = (mux.type == Event.resource_undefined) || is_held_back mux

abbrev pub entered : Env → Text → Request → Mux → World → World
entered env header entry mux w =
    if is_quiet mux
    then enrolled entry mux w
    else round (headed env header) (header_write header) w.next (enrolled entry mux w)

abbrev pub outcome : Env → Text → Request → Mux → World → Verdict → World
outcome env header entry mux w precondition_failed = error_sent entry.client_socket text_412 w
outcome env header entry mux w not_modified = error_sent entry.client_socket text_304 w
outcome env header entry mux w admitted = entered env header entry mux w

add_write_headers-held :
    (env : Env) (p : Ptr) (mux : Mux) (w : World)
    → is_held_back mux ≡ true
    → add_write_headers env p mux w ≡ ok (tt, w)
unfolding add_write_headers
add_write_headers-held env p mux w held = rw held

stream_request-buffer : (entry : Request) → 0 < length (stream_request entry).iov
unfolding stream_request create_request
stream_request-buffer entry = omega arith

stream_request-idle : (entry : Request) → (stream_request entry).is_processing ≡ false
unfolding stream_request create_request
stream_request-idle entry = refl

module _ (env : Env) (header : Text) (entry : Request) (mux : Mux) (w : World)
    (shown : mux.header ≡ block_of header) (fits : length header ≤ env.http_buffer_size) where
  join-eq : join env entry mux w ≡ ok (tt, entered env header entry mux w)
  unfolding join allocate put_mux
  join-eq = elim (Bool-cases (mux.type == Event.resource_undefined)) [
    | inl unknown ↦ rw unknown
    | inr known ↦ rw known (elim (Bool-cases (is_held_back mux)) [
      | inl held ↦
          rw held
            (add_write_headers-held env w.next (with_client mux w.next) (enrolled entry mux w) held)
      | inr free ↦ rw free (
          add_write_headers-eq env header (with_client mux w.next) shown fits free w.next
            (stream_request entry) (enrolled entry mux w) (update_self w.heap w.next _)
            (stream_request-buffer entry) (stream_request-idle entry))
    ])
  ]

  -- A client asks for a resource that is there, and its header can be read: the result is true, so the
  -- origin is not asked again. A client that asks for another version is refused with 412, one that has
  -- this version with 304, and they do not join; any other joins the resource once, behind the clients
  -- that were there, and is sent the header if that is known and need not wait.
  pub handle_exists_resource-outcome :
      (p : Ptr) (if_match if_none_match : Text)
      → w.heap p ≡ some entry
      → 2 < length entry.iov
      → w.resources entry.resource_id ≡ some mux
      → get_header_tag (c_str (get_or entry.iov 2 no_iovec).base) (codes "If-Match") ≡ ok if_match
      → get_header_tag (c_str (get_or entry.iov 2 no_iovec).base) (codes "If-None-Match")
        ≡ ok if_none_match
      → handle_exists_resource env p w
        ≡ ok (true, outcome env header entry mux w (judge mux.etag if_match if_none_match))
  unfolding handle_exists_resource exists_resource enter_existing check_match check_none_match
  handle_exists_resource-outcome p m n live parts found e e' =
      rw (deref-ok w p live, ◌>>=◌)
        (rw found (
          rw (mux_at-ok w entry.resource_id found, ◌>>=◌)
            (rw (element-ok w entry.iov 2 no_iovec parts, ◌>>=◌)
              (rw e (elim (Bool-cases (not (is_empty m) && not (text_eq m mux.etag))) [
                | inl other ↦ rw other (
                    rw (
                      add_http_error_request-ok entry.client_socket 412 text_412 w known_412,
                      ◌>>=◌,
                    ))
                | inr same ↦
                    rw (same, e')
                      (elim (Bool-cases (not (is_empty n) && text_eq n mux.etag)) [
                        | inl has ↦ rw has (
                            rw (
                              add_http_error_request-ok entry.client_socket 304 text_304 w
                                  known_304,
                              ◌>>=◌,
                            ))
                        | inr new ↦ rw new (rw (join-eq, ◌>>=◌))
                      ])
              ])))))
