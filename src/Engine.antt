-- ===== src/Engine.antt =====
-- src/Engine.cpp: the main loop, which hands each completion to the handler of its event type.
pub mod Idle
pub mod Leave
pub mod History
mod Tests
use cdn_uring.Prelude.{ℕ, ◌==◌, Bool, true, false, if◌then◌else◌}
use cdn_uring.Prelude.Int.{ℤ}
use cdn_uring.Event
use cdn_uring.Dns.State.{Net}
use cdn_uring.Dns.Fetch.{add_fetch_aaaa_request, handle_verify_udp, add_verify_udp_request}
use cdn_uring.World.{Ptr, Request, Env, prep_accept}
use cdn_uring.World.Monad.{M, pure, skip, deref, store, allocate, submit, ◌>>=◌, ◌>>◌}
use cdn_uring.Request.{create_request, release_request}
use cdn_uring.Server.{
  add_read_request, handle_read, handle_write, handle_write_stream, handle_close,
}
use cdn_uring.Stream.Registry.{remove_request}
use cdn_uring.Stream.Write.{
  handle_write_headers, handle_copy_cache_request, handle_read_cache_request, process_next,
}
use cdn_uring.Stream.Join.{handle_exists_resource, handle_cleanup}
use cdn_uring.Cache.Files.{
  add_exists_request, handle_exists, add_read_header_request, handle_read_header,
  handle_write_header,
}
use cdn_uring.Cache.Buffer.{handle_write_content}
use cdn_uring.Http.Client.{Client}
use cdn_uring.Http.Read.{handle_read_header_request, handle_read_data}

-- What the loop needs of src/Dns.cpp.
pub record Resolver : Type 0 where
  pub add_fetch_aaaa_request : Ptr → M (Unit {0})
  pub handle_verify_udp : M (Unit {0})
  pub add_verify_udp_request : Ptr → M (Unit {0})

-- src/Dns.cpp is the resolver.
abbrev pub dns_resolver : Net → Bool → Resolver
dns_resolver net is_https = record {
  add_fetch_aaaa_request = add_fetch_aaaa_request net is_https;
  handle_verify_udp = handle_verify_udp net;
  add_verify_udp_request = add_verify_udp_request;
}

-- What a completion is handled with: the settings, the kind of connection with its fetch, the resolver,
-- and the time in milliseconds.
pub record Engine : Type 0 where
  pub env : Env
  pub client : Client
  pub fetch : Ptr → Bool → M Bool
  pub dns : Resolver
  pub now : ℕ

abbrev ignore : {A : Type 0} → M A → M (Unit {0})
ignore m = m >>= λ _. skip

-- `Engine::AddAcceptRequest`.
unfoldable pub add_accept_request : M (Unit {0})
unfolding create_request
add_accept_request = do req ← allocate (create_request 0 Event.accept); submit (prep_accept req)

unfoldable pub on_accept : Ptr → ℤ → M (Unit {0})
on_accept p response = do release_request p; add_accept_request; add_read_request response

-- The resource that a client asks for is looked for in the cache, if nobody else has it yet.
unfoldable pub look_up : Env → Ptr → M (Unit {0})
look_up env p = do
  found ← handle_exists_resource env p
  if found then skip else add_exists_request env p

unfoldable pub on_server_read : Env → Ptr → M (Unit {0})
on_server_read env p = do
  is_valid ← handle_read env p
  if is_valid then look_up env p else skip
  release_request p

unfoldable pub on_write_partial : Env → Ptr → ℤ → M (Unit {0})
on_write_partial env p response =
    if handle_write_stream response == 1
    then (do request ← deref p; _ ← remove_request p request.resource_id; release_request p)
    else ignore (process_next env p)

unfoldable pub on_cache_exists : Engine → Ptr → M (Unit {0})
on_cache_exists engine p = do
  found ← handle_exists p
  if found
      then (add_read_header_request engine.env p >> release_request p)
      else engine.dns.add_fetch_aaaa_request p

unfoldable pub on_read_content : Ptr → ℤ → M (Unit {0})
on_read_content p response = do
  going ← handle_read_cache_request p response
  request ← deref p
  if going then skip else ignore (remove_request p request.resource_id)

unfoldable pub on_fetch : Engine → Ptr → Bool → M (Unit {0})
on_fetch engine p ipv4 = do done ← engine.fetch p ipv4; if done then release_request p else skip

unfoldable pub on_verify : Engine → Ptr → M (Unit {0})
on_verify engine p = do engine.dns.handle_verify_udp; engine.dns.add_verify_udp_request p

-- The `switch` of the loop, for the event types of the server and the streams.
unfoldable pub on_server_event : Engine → ℕ → Ptr → ℤ → M (Unit {0}) → M (Unit {0})
on_server_event engine type p response other =
    if type == Event.accept
    then on_accept p response
    else if type == Event.server_read
    then on_server_read engine.env p
    else if type == Event.server_write_complete
    then handle_write p response
    else if type == Event.server_write_partial
    then on_write_partial engine.env p response
    else if type == Event.server_close
    then handle_close p
    else if type == Event.server_write_header
    then handle_write_headers engine.env p
    else other

-- For those of the cache.
unfoldable pub on_cache_event : Engine → ℕ → Ptr → ℤ → M (Unit {0}) → M (Unit {0})
on_cache_event engine type p response other =
    if type == Event.cache_exists
    then on_cache_exists engine p
    else if type == Event.cache_read_header
    then ignore (handle_read_header engine.env p)
    else if type == Event.cache_read_content
    then on_read_content p response
    else if type == Event.cache_copy_content
    then ignore (handle_copy_cache_request engine.env p)
    else if type == Event.cache_write_header
    then ignore (handle_write_header p)
    else if type == Event.cache_write_content
    then ignore (handle_write_content engine.env p)
    else other

-- For the others; an event of no known type is dropped.
unfoldable pub on_other_event : Engine → ℕ → Ptr → ℤ → M (Unit {0})
on_other_event engine type p response =
    if type == Event.dns_verify
    then on_verify engine p
    else if type == Event.dns_fetchaaaa
    then engine.dns.add_fetch_aaaa_request p
    else if type == Event.http_fetch
    then on_fetch engine p false
    else if type == Event.http_fetch_ipv4
    then on_fetch engine p true
    else if type == Event.http_read_header
    then ignore (handle_read_header_request engine.client engine.env p response)
    else if type == Event.http_read_content
    then ignore (handle_read_data engine.client engine.env p response)
    else if type == Event.stream_next
    then ignore (process_next engine.env p)
    else if type == Event.cache_clean
    then handle_cleanup engine.env engine.now p
    else skip

-- One round of the loop of `Engine::Run`: the completion of the request at `p`.
unfoldable pub run_once : Engine → Ptr → ℤ → M (Unit {0})
run_once engine p response = do
  request ← deref p
  store p (record request { is_processing = false })
  on_server_event engine request.event_type p response (
      on_cache_event engine request.event_type p response
        (on_other_event engine request.event_type p response))
