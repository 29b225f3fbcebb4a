-- ===== src/Cache/Buffer.antt =====
-- src/Cache.cpp: the ring of chunks that wait to be written to the file of a resource.
use cdn_uring.Prelude.{
  ℕ, ◌+◌, ◌%◌, ◌==◌, Bool, true, false, not, ◌||◌, List, [], ◌∷◌, replicate, set, if◌then◌else◌,
}
use cdn_uring.Prelude.Int.{ℤ, is_neg}
use cdn_uring.Prelude.Text.{Text}
use cdn_uring.Event
use cdn_uring.World.{Iovec, Ptr, Request, Node, Env, prep_write}
use cdn_uring.World.Monad.{
  M, pure, skip, deref, store, allocate, submit, node_at, put_node, erase_node, open_write, element,
  fill, bytes_of, set_iov, blank_block, ◌>>=◌, ◌>>◌,
}
use cdn_uring.Request.{cache_request, release_request, no_iovec}
use cdn_uring.Stream.Registry.{get_resource, is_some}
use cdn_uring.Stream.Write.{is_vacant}
use cdn_uring.Stream.Notify.{put_chunk, set_cache_resource, notify_cache_completed}
use cdn_uring.Stream.Join.{nop}
use cdn_uring.Cache.Files.{get_cache_path, close_open_fd, add_write_header_file_request}

-- `Cache::CreateNode`, for the request that writes the file.
unfoldable pub create_node : Env → Ptr → Node
create_node env cache = record {
  pivot = 0;
  size = 0;
  cache = cache;
  buffer = replicate env.cache_buffer_size no_iovec;
}

-- The loop of `ReleaseBuffer` over the slots from `i` on: the first one that is marked.
unfoldable pub marked_at : ℕ → List Iovec → ℕ
marked_at i [] = 0
marked_at i (slot ∷ buffer) =
    let later = marked_at (i + 1) buffer in
    if (slot.len == Event.empty_buffer) || (slot.len == Event.end_buffer) then i else later

-- `Cache::ReleaseBuffer`.
unfoldable pub release_buffer : Env → ℕ → M (Unit {0})
release_buffer env resource_id = do
  node ← node_at resource_id
  _ ← notify_cache_completed env resource_id node.buffer (marked_at 0 node.buffer)
  cache ← deref node.cache
  close_open_fd cache.client_socket
  erase_node resource_id

-- Write the chunk that stands in the request's buffer, at the offset that the node has come to.
unfoldable pub write_content : Ptr → Request → Text → ℕ → M ℕ
write_content p cache bytes offset = do
  store p (record cache { is_processing = true; event_type = Event.cache_write_content })
  submit (prep_write cache.client_socket bytes offset p)
  pure 0

-- Take the chunk of a slot, and write it unless the resource is held in memory.
unfoldable pub take_slot : Env → Ptr → Request → Node → Iovec → M ℕ
take_slot env p cache node slot = do
  block ← element cache.iov 0
  buffer ← fill block (bytes_of slot)
  let next = (cache.pivot + 1) % env.cache_buffer_size
  let cache' : Request = record (set_iov cache 0 buffer) { pivot = next }
  let size = node.size + slot.len
  store p cache'
  put_node cache.resource_id (record node { size = size })
  mux ← get_resource cache.resource_id
  if mux.in_memory then pure 0 else write_content p cache' (bytes_of buffer) size

unfoldable pub write_next : Env → Ptr → Request → Node → M ℕ
write_next env p cache node = do
  slot ← element node.buffer cache.pivot
  if is_vacant slot.len
      then pure 1
      else if slot.len == Event.end_buffer
      then (release_buffer env cache.resource_id >> pure 0)
      else take_slot env p cache node slot

-- `nodes_.find(id) != nodes_.end()`.
unfoldable pub exists_node : ℕ → M Bool
exists_node resource_id w = pure (is_some (w.nodes resource_id)) w

-- `Cache::HandleWrite`: 1 if there is nothing to write.
unfoldable pub handle_write_content : Env → Ptr → M ℕ
handle_write_content env p = do
  cache ← deref p
  found ← exists_node cache.resource_id
  if not found then pure 1 else (node_at cache.resource_id >>= write_next env p cache)

-- `Cache::AppendBuffer`.
unfoldable pub append_buffer : Env → ℕ → Text → M Bool
append_buffer env resource_id chunk = do
  node ← node_at resource_id
  buffer ← put_chunk env env.cache_buffer_size node.buffer node.pivot chunk
  let next = (node.pivot + 1) % env.cache_buffer_size
  put_node resource_id (record node { buffer = buffer; pivot = next })
  cache ← deref node.cache
  if cache.is_processing
      then pure true
      else (handle_write_content env node.cache >>= λ _. pure true)

-- `nodes_.insert`: a node that is there stays.
unfoldable pub insert_node : ℕ → Node → M (Unit {0})
insert_node resource_id node = do
  found ← exists_node resource_id
  if found then skip else put_node resource_id node

-- The part of `GenerateNode` after the file is open, or no file is needed.
unfoldable pub generate_open : Env → Request → Text → Text → Ptr → Bool → M Bool
unfolding cache_request
generate_open env http header_buffer path cache in_memory = do
  let request = cache_request env http
  filled ← fill (blank_block env.http_buffer_size) header_buffer
  header ← allocate (set_iov request 0 filled)
  set_cache_resource env http.resource_id header_buffer path false
  if in_memory then skip else (add_write_header_file_request env header path >>= λ _. skip)
  insert_node http.resource_id (create_node env cache)
  pure true

-- The content file is open as `fd`, or is not.
unfoldable pub generate_file : Env → Request → Text → Ptr → ℤ → M Bool
unfolding cache_request
generate_file env http header_buffer cache fd =
    if is_neg fd then (release_request cache >> pure false) else (do
      store cache (record (cache_request env http) { client_socket = fd })
      generate_open env http header_buffer (get_cache_path env http.resource_id) cache false)

-- `Cache::GenerateNode`: false if the file cannot be opened.
unfoldable pub generate_node : Env → Ptr → Text → M Bool
unfolding cache_request
generate_node env p header_buffer = do
  http ← deref p
  mux ← get_resource http.resource_id
  cache ← allocate (cache_request env http)
  if mux.in_memory
      then generate_open env http header_buffer [] cache true
      else (open_write env (get_cache_path env http.resource_id)
          >>= generate_file env http header_buffer cache)

-- The slot that marks the end; a slot that was never used gets a block of one byte.
abbrev pub end_slot : Iovec → Iovec
end_slot slot = record (if slot.len == 0 then blank_block 1 else slot) { len = Event.end_buffer }

-- The writer of a resource in memory looks at its ring again in 100 ms.
unfoldable pub wake_writer : Ptr → M (Unit {0})
wake_writer p = do
  cache ← deref p
  store p (record cache { event_type = Event.cache_write_content })
  nop p 100

-- `Cache::CloseBuffer`.
unfoldable pub close_buffer : Env → ℕ → M (Unit {0})
close_buffer env resource_id = do
  node ← node_at resource_id
  slot ← element node.buffer node.pivot
  put_node resource_id (record node { buffer = set node.buffer node.pivot (end_slot slot) })
  mux ← get_resource resource_id
  if mux.in_memory then wake_writer node.cache else skip
