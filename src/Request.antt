-- ===== src/Request.antt =====
-- The constructors of `struct Request` in src/Utils.cpp, and `ReleaseRequest`.
use cdn_uring.Prelude.{ℕ, false, [], ◌∷◌, replicate}
use cdn_uring.Prelude.Int.{pos}
use cdn_uring.World.{Iovec, Ptr, Request, Env}
use cdn_uring.World.Monad.{M, release}

abbrev pub no_iovec : Iovec
no_iovec = record { len = 0; cap = 0; base = [] }

-- `Utils::CreateRequest`. The fields that it leaves unset are read as 0.
unfoldable pub create_request : ℕ → ℕ → Request
create_request iovec_count event_type = record {
  event_type = event_type;
  client_socket = pos 0;
  auxiliar = pos 0;
  resource_id = 0;
  pivot = 0;
  debug = false;
  is_processing = false;
  iov = replicate iovec_count no_iovec;
}

unfoldable pub http_entry_request : Request
unfolding create_request
http_entry_request = create_request 3 0

unfoldable pub http_error_request : Request
unfolding create_request
http_error_request = create_request 1 100

unfoldable pub http_external_request : Request → Request
unfolding create_request
http_external_request cache = record (create_request 3 0) { resource_id = cache.resource_id }

unfoldable pub https_external_request : Request → Request
unfolding create_request
https_external_request inner = record (create_request 5 0) { resource_id = inner.resource_id }

unfoldable pub stream_request : Request → Request
unfolding create_request
stream_request entry = record (create_request 1 0) {
  resource_id = entry.resource_id;
  client_socket = entry.client_socket;
}

unfoldable pub inner_request : Request → Request
unfolding create_request
inner_request entry = record (create_request 5 0) { resource_id = entry.resource_id }

-- The buffer is as large as `HttpBufferSize`, zeroed, with its length set.
unfoldable pub cache_request : Env → Request → Request
unfolding create_request
cache_request env entry = record (create_request 1 0) {
  resource_id = entry.resource_id;
  iov =
      record {
        len = env.http_buffer_size;
        cap = env.http_buffer_size;
        base = replicate env.http_buffer_size 0;
      }
      ∷ [];
}

-- `Utils::ReleaseRequest`: the buffers go with the request.
abbrev pub release_request : Ptr → M (Unit {0})
release_request p = release p
