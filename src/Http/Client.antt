-- ===== src/Http/Client.antt =====
-- src/Http.hpp: what `Http` needs of a connection, and src/HttpClient.cpp, which provides it.
use cdn_uring.Prelude.Int.{ℤ}
use cdn_uring.World.{Ptr, Env, prep_read}
use cdn_uring.World.Monad.{M, pure, deref, submit, close_fd, ◌>>=◌, ◌>>◌}
use cdn_uring.Request.{release_request}

-- The virtual functions of `Http` that a kind of connection overrides: what is done with the kernel's
-- answer before and after `Http` looks at it, and how the connection ends.
pub record Client : Type 0 where
  pub pre_request : Ptr → ℤ → M ℤ
  pub post_request : Env → Ptr → M (Unit {0})
  pub release_socket : Ptr → M (Unit {0})

-- `HttpClient::PreRequest`.
abbrev pub pre_request : Ptr → ℤ → M ℤ
pre_request http readed = pure readed

-- `HttpClient::PostRequest`.
unfoldable pub post_request : Env → Ptr → M (Unit {0})
post_request env p = do
  http ← deref p
  submit (prep_read http.client_socket env.http_buffer_size 0 p)

-- `HttpClient::ReleaseSocket`.
unfoldable pub release_socket : Ptr → M (Unit {0})
release_socket p = do http ← deref p; close_fd http.client_socket; release_request p

-- The connection without TLS.
abbrev pub http_client : Client
http_client = record {
  pre_request = pre_request;
  post_request = post_request;
  release_socket = release_socket;
}
