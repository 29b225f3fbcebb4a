-- ===== src/World.antt =====
-- The state that the handlers share: the heap of requests, the maps of `Stream` and `Cache`, and
-- what has been handed to the ring; with the monad in which the handlers run.
pub mod Monad
pub mod Laws
use cdn_uring.Prelude.{ℕ, Bool, Option, none, some, List}
use cdn_uring.Prelude.Text.{Text}
use cdn_uring.Prelude.Int.{ℤ}
use cdn_uring.Dns.State.{DnsState}
use cdn_uring.Hls.State.{SegmentPlaylist}
use cdn_uring.Astra.State.{Playlist}

-- `struct iovec`: the length, the size of the block behind the pointer (0 if none is allocated),
-- and the bytes that were put there.
pub record Iovec : Type 0 where
  pub len : ℕ
  pub cap : ℕ
  pub base : Text

-- A request is named by its address.
abbrev pub Ptr : Type 0
Ptr = ℕ

-- `struct Request` (src/Request.hpp); `iovec_count` is the length of `iov`.
pub record Request : Type 0 where
  pub event_type : ℕ
  pub client_socket : ℤ
  pub auxiliar : ℤ
  pub resource_id : ℕ
  pub pivot : ℕ
  pub debug : Bool
  pub is_processing : Bool
  pub iov : List Iovec

-- `struct Mux` (src/Mux.hpp): a resource and the requests that wait for it.
pub record Mux : Type 0 where
  pub resource_id : ℕ
  pub requests : List Ptr
  pub header : Iovec
  pub pivot : ℕ
  pub type : ℕ
  pub tag : ℕ
  pub transfer_mode : ℕ
  pub is_completed : Bool
  pub in_memory : Bool
  pub path : Text
  pub url : Text
  pub etag : Text
  pub buffer : List Iovec

-- `struct Node` (src/Mux.hpp): what the cache still has to write of a resource.
pub record Node : Type 0 where
  pub pivot : ℕ
  pub size : ℕ
  pub cache : Ptr
  pub buffer : List Iovec

-- What is handed to the ring, with the request that comes back as its user data.
pub data Sqe : Type 0 where
  prep_write : ℤ → Text → ℕ → Ptr → Sqe
  prep_read : ℤ → ℕ → ℕ → Ptr → Sqe
  prep_statx : Text → Ptr → Sqe
  prep_timeout : ℕ → Ptr → Sqe
  prep_nop : Ptr → Sqe
  prep_accept : Ptr → Sqe

-- `resources`, `resource_ttl` and `nodes` are the maps of `Stream` and `Cache`; `heap` holds the live
-- requests; `submitted` is newest first; `closed` and `removed` are the descriptors closed and the
-- files removed; `opens` counts the calls of `open`; `dns` is the state of the resolver; `playlists`
-- and `segments` are the maps of `HLSStream`, `reproductions` is that of `AstraHttpClient`.
pub record World : Type 0 where
  pub heap : Ptr → Option Request
  pub next : Ptr
  pub resources : ℕ → Option Mux
  pub resource_ttl : List (ℕ × ℕ)
  pub nodes : ℕ → Option Node
  pub submitted : List Sqe
  pub closed : List ℤ
  pub removed : List Text
  pub opens : ℕ
  pub dns : DnsState
  pub playlists : ℕ → Option SegmentPlaylist
  pub segments : ℕ → Option ℕ
  pub reproductions : ℕ → Option Playlist

-- The settings that the handlers read, and the operating system: what each `open` returns.
pub record Env : Type 0 where
  pub http_buffer_size : ℕ
  pub streaming_buffer_size : ℕ
  pub cache_buffer_size : ℕ
  pub cache_dir : Text
  pub proxy : Text
  pub base_url : Text
  pub open_read : ℕ → Text → ℤ
  pub open_write : ℕ → Text → ℤ
  pub hash : Text → ℕ
