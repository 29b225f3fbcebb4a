-- ===== src/Stream/Write.antt =====
-- src/Stream.cpp: what is written to one client, its header first.
use cdn_uring.Prelude.{
  ℕ, ◌+◌, ◌%◌, ◌^◌, ◌==◌, Bool, true, not, ◌&&◌, ◌||◌, [], ◌∷◌, replicate, ltb, if◌then◌else◌,
}
use cdn_uring.Prelude.Int.{ℤ, is_neg, is_zero, to_unsigned}
use cdn_uring.Prelude.Result.{overflow}
use cdn_uring.Event
use cdn_uring.World.{Iovec, Ptr, Request, Mux, Env, prep_read}
use cdn_uring.World.Monad.{
  M, pure, skip, fail, deref, store, mux_at, submit, close_fd, open_read, element, fill, bytes_of,
  set_iov, blank_block, ◌>>=◌, ◌>>◌,
}
use cdn_uring.Server.{add_write_request, add_write_header_request, add_close_request}
use cdn_uring.Stream.Registry.{exists_resource, get_resource, remove_request}

-- `Stream::AddWriteHeaders`: nothing yet for a resource whose header has to wait for its content.
unfoldable pub add_write_headers : Env → Ptr → Mux → M (Unit {0})
add_write_headers env p mux =
    if not mux.is_completed && not (mux.transfer_mode == Event.header_soon_as_possible)
    then skip
    else do
      stream ← deref p
      buffer ← fill (blank_block env.http_buffer_size) (bytes_of mux.header)
      store p (set_iov stream 0 buffer)
      add_write_header_request p

-- The mark of a slot that holds nothing to send.
abbrev pub is_vacant : ℕ → Bool
is_vacant size = (size == Event.empty_buffer) || (size == 0)

-- A client that has nothing to read is done, if all the content is in memory.
unfoldable pub finish_if_completed : Ptr → ℕ → Mux → M ℕ
finish_if_completed p resource_id mux =
    if mux.in_memory && mux.is_completed
    then (do add_close_request p; _ ← remove_request p resource_id; pure 1)
    else pure 1

-- Copy the chunk of a slot to the client's buffer, step to the next slot and write.
unfoldable pub send_slot : Env → Ptr → Request → Iovec → M ℕ
send_slot env p stream slot = do
  block ← element stream.iov 0
  buffer ← fill block (bytes_of slot)
  let next = (stream.pivot + 1) % env.streaming_buffer_size
  store p (record (set_iov stream 0 buffer) { pivot = next })
  add_write_request p Event.server_write_partial
  pure 0

unfoldable pub add_write_from_mux : Env → Ptr → Request → Mux → M ℕ
add_write_from_mux env p stream mux = do
  slot ← element mux.buffer stream.pivot
  if is_vacant slot.len
      then finish_if_completed p stream.resource_id mux
      else send_slot env p stream slot

-- `Stream::AddWriteStreamRequest`: the next chunk for one client; 1 if nothing is sent.
unfoldable pub add_write_stream_request : Env → Ptr → M ℕ
add_write_stream_request env p = do
  stream ← deref p
  found ← exists_resource stream.resource_id
  if not found then pure 1 else (mux_at stream.resource_id >>= add_write_from_mux env p stream)

-- Read the file from its start, into the client's buffer.
unfoldable pub read_cache_file : Env → Ptr → ℤ → M ℕ
read_cache_file env p fd = do
  stream ← deref p
  block ← element stream.iov 0
  let block' = if block.len == 0 then blank_block env.http_buffer_size else block
  store p (record (set_iov stream 0 block') {
    event_type = Event.cache_read_content;
    auxiliar = fd;
    is_processing = true;
  })
  submit (prep_read fd env.http_buffer_size 0 p)
  pure 0

-- `Stream::AddWriteFromCacheRequest`: 1 if the file cannot be opened.
unfoldable pub add_write_from_cache_request : Env → Ptr → Mux → M ℕ
add_write_from_cache_request env p mux = do
  fd ← open_read env mux.path
  if is_neg fd then pure 1 else read_cache_file env p fd

-- `memset` of the whole buffer to zero.
unfoldable pub clear : Env → Iovec → M Iovec
clear env block =
    if ltb block.cap env.http_buffer_size
    then fail overflow
    else pure (record block { base = replicate env.http_buffer_size 0 })

-- Where a client starts: at the place of the first one that waits.
unfoldable pub start_pivot : Mux → M ℕ
start_pivot mux = elim mux.requests [
  | [] ↦ pure mux.pivot
  | first ∷ rest ↦ (deref first >>= λ r. pure r.pivot)
]

-- The content of a resource of each type; `stream` has its pivot and its cleared buffer.
unfoldable pub start_content : Env → Ptr → Request → Mux → M ℕ
start_content env p stream mux =
    if mux.type == Event.resource_cache
    then (if not mux.in_memory
        then (store p stream >> add_write_from_cache_request env p mux)
        else (store p (record stream { pivot = 0 }) >> add_write_stream_request env p))
    else if mux.type == Event.resource_streaming
    then (store p stream >> add_write_stream_request env p)
    else (store p stream >> pure 0)

-- `Stream::HandleWriteHeaders`: the header is out, the content follows.
unfoldable pub handle_write_headers : Env → Ptr → M (Unit {0})
handle_write_headers env p = do
  stream ← deref p
  mux ← mux_at stream.resource_id
  start ← start_pivot mux
  block ← element stream.iov 0
  block' ← clear env block
  _ ← start_content env p (record (set_iov stream 0 block') { pivot = start }) mux
  skip

-- `Stream::HandleCopyCacheRequest`: read on from the file behind `auxiliar`.
unfoldable pub handle_copy_cache_request : Env → Ptr → M ℕ
handle_copy_cache_request env p = do
  stream ← deref p
  store p (record stream { event_type = Event.cache_read_content; is_processing = true })
  submit (prep_read stream.auxiliar env.http_buffer_size stream.pivot p)
  pure 0

-- The file is at its end: close it and the client, once the resource is complete.
unfoldable pub end_of_cache_file : Ptr → Request → Mux → M Bool
end_of_cache_file p stream mux =
    if mux.is_completed
    then (do
      close_fd stream.auxiliar
      _ ← remove_request p stream.resource_id
      add_close_request p
      pure true)
    else pure true

-- Pass on the bytes that stand in the buffer. A negative count becomes a huge length, as in C++.
unfoldable pub pass_on : Ptr → Request → ℤ → M Bool
pass_on p stream readed = do
  block ← element stream.iov 0
  let block' : Iovec = record block { len = to_unsigned 64 readed }
  let next = (stream.pivot + to_unsigned 32 readed) % 2 ^ 32
  store p (record (set_iov stream 0 block') { pivot = next })
  add_write_request p Event.cache_copy_content
  pure true

-- `Stream::HandleReadCacheRequest`: `readed` bytes of the file stand in the buffer.
unfoldable pub handle_read_cache_request : Ptr → ℤ → M Bool
handle_read_cache_request p readed = do
  stream ← deref p
  if is_zero readed
      then (mux_at stream.resource_id >>= end_of_cache_file p stream)
      else pass_on p stream readed

-- `Stream::ProcessNext`: go on after a write, but only for a resource that is in memory.
unfoldable pub process_next : Env → Ptr → M ℕ
process_next env p = do
  stream ← deref p
  mux ← get_resource stream.resource_id
  if mux.in_memory then add_write_stream_request env p else pure 0
