-- ===== src/Stream/Join.antt =====
-- src/Stream.cpp: a new client, and the resources whose time is over; with two of src/Helpers.cpp.
use cdn_uring.Prelude.{
  ℕ, ◌+◌, ◌==◌, Bool, true, false, not, ◌&&◌, List, [], ◌∷◌, ◌++◌, ltb, if◌then◌else◌,
}
use cdn_uring.Prelude.Text.{Text, codes, c_str, is_empty, text_eq, to_string}
use cdn_uring.Prelude.Result.{ok}
use cdn_uring.Event
use cdn_uring.Headers.{get_header_tag}
use cdn_uring.World.{Ptr, Request, Mux, Env, prep_timeout, prep_nop}
use cdn_uring.World.Monad.{
  M, pure, skip, run_result, deref, allocate, mux_at, put_mux, submit, remove_file, element, ◌>>=◌,
  ◌>>◌,
}
use cdn_uring.Request.{stream_request}
use cdn_uring.Server.{add_http_error_request}
use cdn_uring.Stream.Registry.{create_mux, exists_resource, release_resource}
use cdn_uring.Stream.Write.{add_write_headers}

-- A client joins the requests of a resource; it gets the header, if that is known.
unfoldable pub join : Env → Request → Mux → M (Unit {0})
join env entry mux = do
  stream ← allocate (stream_request entry)
  let mux' : Mux = record mux { requests = mux.requests ++ (stream ∷ []) }
  put_mux entry.resource_id mux'
  if not (mux.type == Event.resource_undefined) then add_write_headers env stream mux' else skip

-- `If-None-Match`: 304 if the client has this very version.
unfoldable pub check_none_match : Env → Request → Mux → Text → M Bool
check_none_match env entry mux etag =
    if not (is_empty etag) && text_eq etag mux.etag
    then (add_http_error_request entry.client_socket 304 >> pure true)
    else (join env entry mux >> pure true)

-- `If-Match`: 412 if the client asks for another version.
unfoldable pub check_match : Env → Request → Mux → Text → Text → M Bool
check_match env entry mux header_data etag =
    if not (is_empty etag) && not (text_eq etag mux.etag)
    then (add_http_error_request entry.client_socket 412 >> pure true)
    else (run_result (get_header_tag header_data (codes "If-None-Match"))
        >>= check_none_match env entry mux)

unfoldable pub enter_existing : Env → Request → M Bool
enter_existing env entry = do
  mux ← mux_at entry.resource_id
  head ← element entry.iov 2
  let header_data = c_str head.base
  etag ← run_result (get_header_tag header_data (codes "If-Match"))
  check_match env entry mux header_data etag

unfoldable pub enter_new : Env → Request → M Bool
enter_new env entry = do
  stream ← allocate (stream_request entry)
  url ← element entry.iov 1
  put_mux entry.resource_id
      (record (create_mux env entry.resource_id (c_str url.base)) { requests = stream ∷ [] })
  pure false

-- `Stream::HandleExistsResource`: whether the resource was there before.
unfoldable pub handle_exists_resource : Env → Ptr → M Bool
handle_exists_resource env p = do
  entry ← deref p
  found ← exists_resource entry.resource_id
  if found then enter_existing env entry else enter_new env entry

-- `Helpers::Nop`.
unfoldable pub nop : Ptr → ℕ → M (Unit {0})
nop p timeout = if ltb 0 timeout then submit (prep_timeout timeout p) else submit (prep_nop p)

-- `Helpers::CleanCache`.
unfoldable pub clean_cache : Env → ℕ → M (Unit {0})
clean_cache env resource_id = do
  let path = env.cache_dir ++ to_string resource_id
  remove_file path
  remove_file (path ++ codes "_h")

-- `resource_ttl_.insert`: the map is kept in the order of its keys, and an entry that is there stays.
unfoldable pub insert_ttl : ℕ → ℕ → List (ℕ × ℕ) → List (ℕ × ℕ)
insert_ttl t id [] = (t, id) ∷ []
insert_ttl t id ((u, j) ∷ ttl) =
    let rest = insert_ttl t id ttl in
    if ltb t u then (t, id) ∷ (u, j) ∷ ttl else if t == u then (u, j) ∷ ttl else (u, j) ∷ rest

-- `Stream::AddResourceTTL`.
unfoldable pub add_resource_ttl : ℕ → ℕ → ℕ → M (Unit {0})
add_resource_ttl now resource_id ttl w =
    ok (tt, record w { resource_ttl = insert_ttl (now + ttl) resource_id w.resource_ttl })

unfoldable pub set_ttl : List (ℕ × ℕ) → M (Unit {0})
set_ttl ttl w = ok (tt, record w { resource_ttl = ttl })

-- The loop of `HandleCleanup`: the entries up to `now` are freed, the earliest first.
unfoldable pub clean_expired : Env → ℕ → List (ℕ × ℕ) → M (Unit {0})
clean_expired env now [] = skip
clean_expired env now ((t, id) ∷ rest) =
    let further = clean_expired env now rest in
    if ltb now t
    then skip
    else (release_resource id >> (clean_cache env id >> (set_ttl rest >> further)))

-- `Stream::HandleCleanup`, which runs again after a second.
unfoldable pub handle_cleanup : Env → ℕ → Ptr → M (Unit {0})
handle_cleanup env now request w = (do clean_expired env now w.resource_ttl; nop request 1000) w
