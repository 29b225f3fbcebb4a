-- ===== src/Stream/Notify.antt =====
-- src/Stream.cpp: what goes to all requests of a resource.
use cdn_uring.Prelude.{
  ℕ, zero, suc, ◌+◌, ◌%◌, ◌^◌, ◌==◌, Bool, true, not, Option, none, some, List, [], ◌∷◌, length,
  set, if◌then◌else◌,
}
use cdn_uring.Prelude.Text.{Text}
use cdn_uring.Prelude.Result.{dangling, past_end}
use cdn_uring.Event
use cdn_uring.Headers.{get_header_tag}
use cdn_uring.World.{Iovec, Ptr, Mux, Env}
use cdn_uring.World.Monad.{
  M, pure, skip, lift, run_result, deref, mux_at, put_mux, element, fill, bytes_of, block_of,
  blank_block, ◌>>=◌, ◌>>◌,
}
use cdn_uring.Prelude.Text.{codes}
use cdn_uring.Request.{release_request}
use cdn_uring.Server.{add_http_error_request, add_close_request}
use cdn_uring.Stream.Registry.{exists_resource, release_resource}
use cdn_uring.Stream.Write.{add_write_headers, add_write_stream_request, handle_copy_cache_request}

-- The resource behind a pointer that the code holds.
unfoldable pub live_mux : ℕ → M Mux
live_mux resource_id w = lift dangling (w.resources resource_id) w

-- `for (struct Request *const c : mux->requests)`: the number of rounds is fixed at the start, and
-- round `i` reads element `i` of the vector as it is then. It is undefined if the resource was freed,
-- or if the vector has become shorter than that.
unfoldable pub each_request : ℕ → (Ptr → M (Unit {0})) → ℕ → ℕ → M (Unit {0})
unfolding live_mux
each_request resource_id body zero i = skip
each_request resource_id body (suc n) i = do
  mux ← live_mux resource_id
  c ← element mux.requests i
  body c
  each_request resource_id body n (i + 1)

-- `if (!c->is_processing) …`.
unfoldable pub unless_processing : Ptr → M (Unit {0}) → M (Unit {0})
unless_processing p action = do c ← deref p; if not c.is_processing then action else skip

-- The loop over the requests of a resource that are not being written to.
abbrev pub each_idle : ℕ → Mux → (Ptr → M (Unit {0})) → M (Unit {0})
each_idle resource_id mux action =
    each_request resource_id (λ c. unless_processing c (action c)) (length mux.requests) 0

-- `Stream::SetCacheResource`.
unfoldable pub set_cache_resource : Env → ℕ → Text → Text → Bool → M (Unit {0})
set_cache_resource env resource_id header_data path is_completed = do
  mux ← mux_at resource_id
  etag ← run_result (get_header_tag header_data (codes "ETag"))
  let mux' : Mux = record mux {
    type = Event.resource_cache;
    path = path;
    is_completed = is_completed;
    etag = etag;
    header = block_of header_data;
  }
  put_mux resource_id mux'
  each_idle resource_id mux' (λ c. add_write_headers env c mux')

-- `Stream::SetStreamingResource`.
unfoldable pub set_streaming_resource : Env → ℕ → Text → M (Unit {0})
set_streaming_resource env resource_id header_data = do
  mux ← mux_at resource_id
  let mux' : Mux = record mux { type = Event.resource_streaming; header = block_of header_data }
  put_mux resource_id mux'
  each_idle resource_id mux' (λ c. add_write_headers env c mux')

-- A slot of a ring: the block is allocated the first time that the slot is used.
unfoldable pub slot_block : Env → Iovec → Iovec
slot_block env slot = if slot.len == 0 then blank_block env.http_buffer_size else slot

-- The slot after the newest one is marked as empty, if it was ever used.
abbrev pub vacate : Iovec → Iovec
vacate slot = if slot.len == 0 then slot else record slot { len = Event.empty_buffer }

-- Put a chunk into the ring of `n` slots at `pivot`: the new slots. The new pivot is
-- `(pivot + 1) % n`.
unfoldable pub put_chunk : Env → ℕ → List Iovec → ℕ → Text → M (List Iovec)
put_chunk env n buffer pivot chunk = do
  slot ← element buffer pivot
  filled ← fill (slot_block env slot) chunk
  let buffer' : List Iovec = set buffer pivot filled
  let next = (pivot + 1) % n
  following ← element buffer' next
  pure (set buffer' next (vacate following))

abbrev pub drop_result : {A : Type 0} → M A → M (Unit {0})
drop_result m = m >>= λ _. skip

-- The branch of `NotifyStream` for a resource with listeners.
unfoldable pub notify_listeners : Env → ℕ → Mux → Text → M ℕ
notify_listeners env resource_id mux chunk = do
  buffer ← put_chunk env env.streaming_buffer_size mux.buffer mux.pivot chunk
  let mux' : Mux = record mux {
    buffer = buffer;
    pivot = (mux.pivot + 1) % env.streaming_buffer_size;
  }
  put_mux resource_id mux'
  each_idle resource_id mux' (λ c. drop_result (add_write_stream_request env c))
  pure 0

unfoldable pub notify_mux : Env → ℕ → Mux → Text → M ℕ
notify_mux env resource_id mux chunk = elim mux.requests [
  | [] ↦ (release_resource resource_id >> pure 1)
  | first ∷ rest ↦ notify_listeners env resource_id mux chunk
]

-- `Stream::NotifyStream`: a chunk from the origin; 1 if nobody listens.
unfoldable pub notify_stream : Env → ℕ → Text → M ℕ
notify_stream env resource_id chunk = do
  found ← exists_resource resource_id
  if not found then pure 1 else (mux_at resource_id >>= λ mux. notify_mux env resource_id mux chunk)

-- An error is sent to the client, and the request is freed.
unfoldable pub fail_client : ℕ → Ptr → M (Unit {0})
fail_client status_code p = do
  c ← deref p
  add_http_error_request c.client_socket status_code
  release_request p

-- `Stream::ReleaseErrorAllWaitingRequest`.
unfoldable pub release_error_all_waiting_request : ℕ → ℕ → M (Unit {0})
unfolding fail_client
release_error_all_waiting_request resource_id status_code = do
  mux ← mux_at resource_id
  each_request resource_id (fail_client status_code) (length mux.requests) 0
  release_resource resource_id

-- `Stream::CloseStream`.
unfoldable pub close_stream : ℕ → M (Unit {0})
close_stream resource_id = do
  mux ← mux_at resource_id
  each_request resource_id add_close_request (length mux.requests) 0
  release_resource resource_id

-- The copies of the first `size` buffers, each in a block of its own.
unfoldable pub copy_buffers : List Iovec → List Iovec → ℕ → Option (List Iovec)
copy_buffers to from zero = some to
copy_buffers [] from (suc size) = none
copy_buffers (slot ∷ to) [] (suc size) = none
copy_buffers (slot ∷ to) (v ∷ from) (suc size) = elim (copy_buffers to from size) [
  | none ↦ none
  | some rest ↦ some (block_of (bytes_of v) ∷ rest)
]

-- What `NotifyCacheCompleted` does to the resource: the content goes into its buffers, if it is held
-- in memory.
unfoldable pub complete_mux : Mux → List Iovec → ℕ → M Mux
complete_mux mux buffer size =
    if mux.in_memory
    then (do
      copied ← lift past_end (copy_buffers mux.buffer buffer size)
      pure (record mux {
        is_completed = true;
        buffer = copied;
        pivot = (mux.pivot + size) % 2 ^ 32;
      }))
    else pure (record mux { is_completed = true })

unfoldable pub go_on : Env → Mux → Ptr → M (Unit {0})
go_on env mux c =
    if mux.transfer_mode == Event.wait_until_complete
    then add_write_headers env c mux
    else if mux.in_memory
    then drop_result (add_write_stream_request env c)
    else drop_result (handle_copy_cache_request env c)

unfoldable pub notify_completed : Env → ℕ → List Iovec → ℕ → M ℕ
notify_completed env resource_id buffer size = do
  mux ← mux_at resource_id
  mux' ← complete_mux mux buffer size
  put_mux resource_id mux'
  each_idle resource_id mux' (go_on env mux')
  pure 0

-- `Stream::NotifyCacheCompleted`.
unfoldable pub notify_cache_completed : Env → ℕ → List Iovec → ℕ → M ℕ
notify_cache_completed env resource_id buffer size = do
  found ← exists_resource resource_id
  if not found then pure 1 else notify_completed env resource_id buffer size
