-- ===== src/Hls/Notify.antt =====
-- src/HLSStream.cpp: what `HLSStream` does in place of `Stream`.
use cdn_uring.Prelude.{
  ℕ, ◌==◌, Bool, true, Option, none, some, List, [], ◌∷◌, replicate, if◌then◌else◌,
}
use cdn_uring.Prelude.Int.{pos}
use cdn_uring.Prelude.Text.{codes, c_str}
use cdn_uring.Prelude.Result.{Result, ok, fault, dangling, uninitialised}
use cdn_uring.Event
use cdn_uring.Headers.{ends_with}
use cdn_uring.Hls.Channel.{process_channel}
use cdn_uring.Hls.Client.{generate_segment_client_list}
use cdn_uring.Hls.Files.{remove_segment}
use cdn_uring.Hls.Segment.{process_segment_list}
use cdn_uring.Hls.State as Tag
use cdn_uring.Hls.Store.{playlist_at, put_playlist, segment_at}
use cdn_uring.Stream.Join.{handle_exists_resource, add_resource_ttl}
use cdn_uring.Stream.Notify.{notify_cache_completed}
use cdn_uring.World.{Iovec, Ptr, Mux, Env}
use cdn_uring.World.Monad.{
  M, pure, skip, lift, run_result, deref, mux_at, put_mux, element, ◌>>=◌, ◌>>◌,
}

-- A new resource, by its path.
unfoldable pub tagged : List ℕ → Mux → Mux
tagged path mux =
    if ends_with path (codes "/playlist.m3u8")
    then record mux { tag = Tag.channel_list_tag }
    else if ends_with path (codes "/index.m3u8")
    then record mux {
      tag = Tag.channel_tag;
      transfer_mode = Event.wait_until_complete;
      in_memory = true;
    }
    else if ends_with path (codes ".m3u8")
    then record mux { tag = Tag.segment_playlist_tag; in_memory = true }
    else record mux { tag = Tag.segment_tag }

-- A playlist that is asked for is fetched further, and a client of one that is complete gets its tracks.
unfoldable pub keep_playlist : ℕ → ℕ → Mux → M (Unit {0})
keep_playlist now resource_id mux =
    if mux.tag == Tag.segment_playlist_tag
    then (do
      playlist ← playlist_at resource_id
      put_playlist resource_id (record playlist { remaining_fetches = Tag.max_fetches })
      if mux.is_completed then generate_segment_client_list (pos now) resource_id mux else skip)
    else skip

-- `HLSStream::HandleExistsResource`.
unfoldable pub handle_hls_exists_resource : Env → ℕ → Ptr → M Bool
handle_hls_exists_resource env now p = do
  exists ← handle_exists_resource env p
  entry ← deref p
  mux ← mux_at entry.resource_id
  (if exists
      then keep_playlist now entry.resource_id mux
      else (do url ← element entry.iov 1; put_mux entry.resource_id (tagged (c_str url.base) mux)))
  pure exists

-- The buffers that `ProcessChannel` has filled; reading one that it has not is undefined.
unfoldable pub all_written : List (Option Iovec) → Result (List Iovec)
all_written [] = ok []
all_written (none ∷ buffers) = fault uninitialised
all_written (some v ∷ buffers) = elim (all_written buffers) [
  | ok rest ↦ ok (v ∷ rest)
  | fault e ↦ fault e
]

-- `Stream::NotifyCacheCompleted` of the new buffers, which are freed then.
unfoldable pub complete_with : Env → ℕ → List (Option Iovec) → ℕ → M ℕ
complete_with env resource_id buffers size = do
  new_buffer ← run_result (all_written buffers)
  notify_cache_completed env resource_id new_buffer size

unfoldable pub complete_inner : Env → ℕ → Mux → List Iovec → ℕ → M ℕ
complete_inner env resource_id mux buffer size = do
  parent_id ← segment_at resource_id
  new_buffer ← process_channel env mux parent_id buffer size
  remove_segment resource_id
  complete_with env resource_id new_buffer size

-- The rest of the function, from the new buffers on, by the tag of `mux`.
unfoldable pub complete_by_tag : Env → Mux → ℕ → List Iovec → ℕ → M ℕ
complete_by_tag env mux resource_id buffer size =
    if mux.tag == Tag.channel_tag
    then (process_channel env mux 0 buffer size >>= λ new_buffer.
        complete_with env resource_id new_buffer size)
    else if mux.tag == Tag.channel_inner_tag
    then complete_inner env resource_id mux buffer size
    else complete_with env resource_id (replicate size none) size

-- A read through a pointer to a resource, which must not have been freed. No resource is made between
-- `RemoveSegment` and this read, so the pointer's resource is there just if its number is.
unfoldable pub held_mux : ℕ → M Mux
held_mux resource_id w = lift dangling (w.resources resource_id) w

-- The tracks of a playlist have come: its clients get them, and the function goes on with the playlist, but
-- by the tag of the resource of the tracks, which `mux` still points to.
unfoldable pub complete_segments : Env → ℕ → ℕ → List Iovec → ℕ → M ℕ
complete_segments env now resource_id buffer size = do
  parent_id ← segment_at resource_id
  proceed ← process_segment_list env (pos now) parent_id buffer size
  remove_segment resource_id
  if proceed
      then (do
        mux ← mux_at parent_id
        generate_segment_client_list (pos now) parent_id mux
        held ← held_mux resource_id
        complete_by_tag env held parent_id buffer 0)
      else pure 1

-- `HLSStream::NotifyCacheCompleted`, at the time `now`.
unfoldable pub notify_hls_cache_completed : Env → ℕ → ℕ → List Iovec → ℕ → M ℕ
notify_hls_cache_completed env now resource_id buffer size = do
  mux ← mux_at resource_id
  if mux.tag == Tag.segment_tag
      then (add_resource_ttl now resource_id Tag.timeout_track
          >> notify_cache_completed env resource_id buffer size)
      else if mux.tag == Tag.segment_inner_playlist_tag
      then complete_segments env now resource_id buffer size
      else complete_by_tag env mux resource_id buffer size
