-- ===== src/Cache/Files.antt =====
-- src/Cache.cpp: looking a resource up on the disk, and reading and writing its header file.
use cdn_uring.Prelude.{
  ℕ, ◌+◌, ◌*◌, ◌==◌, Bool, true, false, not, [], ◌∷◌, ◌++◌, length, take, drop, replicate, leb, ltb,
  if◌then◌else◌,
}
use cdn_uring.Prelude.Int.{ℤ, pos, negsuc, is_neg}
use cdn_uring.Prelude.Text.{Text, codes, c_str, to_string}
use cdn_uring.Prelude.Result.{past_end}
use cdn_uring.Event
use cdn_uring.World.{Iovec, Ptr, Env, prep_statx, prep_read, prep_write}
use cdn_uring.World.Monad.{
  M, pure, skip, fail, deref, store, allocate, submit, close_fd, open_read, open_write, element,
  bytes_of, set_iov, block_of, ◌>>=◌, ◌>>◌,
}
use cdn_uring.Request.{inner_request, cache_request, release_request}
use cdn_uring.Stream.Notify.{set_cache_resource}

-- `Cache::GetCachePath`.
abbrev pub get_cache_path : Env → ℕ → Text
get_cache_path env resource_id = env.cache_dir ++ to_string resource_id

abbrev pub header_suffix : Text
header_suffix = codes "_h"

-- `Helpers::CloseFD`.
unfoldable pub close_open_fd : ℤ → M (Unit {0})
close_open_fd (pos fd) = if ltb 0 fd then close_fd (pos fd) else skip
close_open_fd (negsuc fd) = skip

-- The size of `struct statx`, and where `stx_ino` stands in it.
abbrev pub statx_size : ℕ
statx_size = 256

abbrev pub ino_offset : ℕ
ino_offset = 32

-- The block for the status, filled with 0xbf, which the kernel overwrites if the file is there.
abbrev pub statx_block : Iovec
statx_block = record { len = statx_size; cap = statx_size; base = replicate statx_size 191 }

-- `Cache::AddExistsRequest`.
unfoldable pub add_exists_request : Env → Ptr → M (Unit {0})
unfolding inner_request
add_exists_request env p = do
  entry ← deref p
  url ← element entry.iov 1
  header ← element entry.iov 2
  let path = get_cache_path env entry.resource_id
  let inner = set_iov (inner_request entry) 0 statx_block
  let inner = set_iov inner 1 (block_of (path ++ (0 ∷ [])))
  let inner = set_iov inner 2 (block_of (bytes_of url))
  let inner = set_iov inner 3 (block_of (bytes_of header))
  inner ← allocate (record inner { event_type = Event.cache_exists })
  submit (prep_statx path inner)

-- A number in the byte order of the machine, the least byte first.
unfoldable pub number_of : Text → ℕ
number_of [] = 0
number_of (b ∷ bytes) = b + 256 * number_of bytes

abbrev pub invalid_file : ℕ
invalid_file = 13816973012072644543

unfoldable pub stx_ino : Iovec → ℕ
stx_ino stx = number_of (take 8 (drop ino_offset stx.base))

-- `Cache::HandleExists`.
unfoldable pub handle_exists : Ptr → M Bool
handle_exists p = do
  inner ← deref p
  stx ← element inner.iov 0
  pure (not (stx_ino stx == invalid_file))

-- The header file is open as `fd`: read it into a request of its own.
unfoldable pub read_header : Env → Ptr → ℤ → M (Unit {0})
unfolding cache_request
read_header env p fd = do
  inner ← deref p
  cache ← allocate (record (cache_request env inner) {
    event_type = Event.cache_read_header;
    client_socket = fd;
  })
  submit (prep_read fd env.http_buffer_size 0 cache)

-- `Cache::AddReadHeaderRequest`. `Stream::AbortStream`, for a file that does not open, does nothing.
unfoldable pub add_read_header_request : Env → Ptr → M (Unit {0})
add_read_header_request env p = do
  inner ← deref p
  fd ← open_read env (get_cache_path env inner.resource_id ++ header_suffix)
  if is_neg fd then skip else read_header env p fd

-- `Cache::HandleReadHeader`. The buffer must hold a NUL, or the C string runs past its end.
unfoldable pub handle_read_header : Env → Ptr → M ℕ
handle_read_header env p = do
  cache ← deref p
  block ← element cache.iov 0
  let header_data = c_str block.base
  if leb block.cap (length header_data) then fail past_end else skip
  set_cache_resource env cache.resource_id header_data (get_cache_path env cache.resource_id) true
  close_open_fd cache.client_socket
  release_request p
  pure 0

-- The header file is open as `fd`: write the buffer of the request to it.
unfoldable pub write_header : Ptr → ℤ → M Bool
write_header p fd = do
  header ← deref p
  block ← element header.iov 0
  store p (record header { client_socket = fd; event_type = Event.cache_write_header })
  submit (prep_write fd (bytes_of block) 0 p)
  pure true

-- `Cache::AddWriteHeaderRequest`.
unfoldable pub add_write_header_file_request : Env → Ptr → Text → M Bool
add_write_header_file_request env p path = do
  fd ← open_write env (path ++ header_suffix)
  if is_neg fd then pure false else write_header p fd

-- `Cache::HandleWriteHeader`.
unfoldable pub handle_write_header : Ptr → M Bool
handle_write_header p = do
  cache ← deref p
  close_open_fd cache.client_socket
  release_request p
  pure true
