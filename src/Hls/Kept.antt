-- ===== src/Hls/Kept.antt =====
-- src/HLSStream.cpp, `ProcessSegmentList`: the playlists stay as they should be.
use cdn_uring.Prelude.{
  ℕ, ◌==◌, ◌≡◌, refl, Bool, true, false, Option, none, some, List, if◌then◌else◌,
}
use cdn_uring.Prelude.Int.{ℤ}
use cdn_uring.Prelude.Result.{missing_key, Result, ok, fault}
use cdn_uring.Stream.Registry.{exists_resource, release_resource}
use cdn_uring.Prelude.Holds.{Holds}
use cdn_uring.Hls.Aligned.{IsAligned, scan_buffers-Keeps, settle-IsAligned}
use cdn_uring.Hls.Files.{request_file, release_all, remove_playlist}
use cdn_uring.Hls.State.{SegmentPlaylist, channel_inner_tag}
use cdn_uring.Hls.Store.{playlist_at, put_playlist}
use cdn_uring.Hls.Segment.{start_scan, settle, fetch_again, process_segment_list}
use cdn_uring.Hls.Preserve.{
  AllAligned, Preserves, Preserves-bind, Preserves-if, lift-Preserves, mux_at-Preserves,
  skip-Preserves, release_all-Preserves, release_resource-Preserves, request_file-Preserves,
  put_playlist-Preserves, erase_playlist-Preserves,
}
use cdn_uring.Hls.Tracks.{Scan, scan_buffers}
use cdn_uring.World.{Iovec, World, Env}
use cdn_uring.World.Monad.{M, pure, skip, lift, run_result, mux_at, ◌>>=◌, ◌>>◌}

release_channel : ℕ → M (Unit {0})
release_channel channel_id = do
  channel_mux ← mux_at channel_id
  release_all channel_mux.requests
  release_resource channel_mux.resource_id

release_channel-Preserves : (channel_id : ℕ) → Preserves (release_channel channel_id)
unfolding release_channel
release_channel-Preserves channel_id =
    Preserves-bind (mux_at channel_id) _ (mux_at-Preserves channel_id) λ mux.
      Preserves-bind (release_all mux.requests) _ (release_all-Preserves mux.requests)
        λ _. release_resource-Preserves mux.resource_id

remove_playlist-Preserves : (id : ℕ) → Preserves (remove_playlist id)
unfolding remove_playlist exists_resource playlist_at release_channel
remove_playlist-Preserves id =
    Preserves-bind (playlist_at id) _ (λ w h. lift-Preserves missing_key (w.playlists id) w h)
      λ playlist.
        Preserves-bind (exists_resource playlist.channel_id) _ (λ w h. h)
          λ found.
            Preserves-bind (if found then release_channel playlist.channel_id else skip) _
              (Preserves-if found (release_channel playlist.channel_id) skip
                (release_channel-Preserves playlist.channel_id) skip-Preserves)
              λ _. erase_playlist-Preserves id

module _ (env : Env) (ticks : ℤ) (parent_id : ℕ) (buffer : List Iovec) (size : ℕ) where
  fetch_again-Preserves :
      (playlist : SegmentPlaylist)
      → IsAligned playlist
      → Preserves (fetch_again env ticks parent_id buffer size playlist)
  unfolding fetch_again
  fetch_again-Preserves playlist aligned w h =
      go (scan_buffers env buffer size (start_scan ticks playlist))
        (scan_buffers-Keeps env buffer size (start_scan ticks playlist) started)
    where
      started : IsAligned (start_scan ticks playlist).playlist
      started = record {
        urls = aligned.urls;
        stamps = aligned.stamps;
        numbers = aligned.numbers;
        distinct = aligned.distinct;
      }

      ask : Scan → M (Unit {0})
      ask scan =
          request_file env playlist.resource_id playlist.url channel_inner_tag
            (if scan.found then 2500 else 500)

      after : Scan → M Bool
      after scan = do put_playlist parent_id (settle scan); ask scan; pure true

      go :
          (r : Result Scan)
          → Holds (λ scan. IsAligned scan.playlist) r
          → Holds (λ x. AllAligned x.1) ((run_result r >>= after) w)
      go (ok scan) k =
          Preserves-bind (put_playlist parent_id (settle scan)) _
            (put_playlist-Preserves parent_id (settle scan) (settle-IsAligned scan k))
            (λ _.
              Preserves-bind (ask scan) _
                (request_file-Preserves env playlist.resource_id playlist.url channel_inner_tag
                  (if scan.found then 2500 else 500))
                λ _ w' h'. h')
            w h
      go (fault e) k = tt

  -- If all playlists have as many times, numbers and identifiers as addresses, and no identifier twice,
  -- they still have after an answer of the origin, whatever the answer is, unless the process ends.
  pub process_segment_list-AllAligned :
      (w : World)
      → AllAligned w
      → Holds (λ r. AllAligned r.1) (process_segment_list env ticks parent_id buffer size w)
  unfolding process_segment_list playlist_at
  process_segment_list-AllAligned w h = go (w.playlists parent_id) refl
    where
      next : SegmentPlaylist → M Bool
      next playlist =
          if playlist.remaining_fetches == 0
          then (remove_playlist parent_id >> pure false)
          else fetch_again env ticks parent_id buffer size playlist

      go :
          (o : Option SegmentPlaylist)
          → w.playlists parent_id ≡ o
          → Holds (λ x. AllAligned x.1) ((lift missing_key o >>= next) w)
      go none e = tt
      go (some playlist) e =
          Preserves-if (playlist.remaining_fetches == 0) (remove_playlist parent_id >> pure false)
            (fetch_again env ticks parent_id buffer size playlist)
            (Preserves-bind (remove_playlist parent_id) _ (remove_playlist-Preserves parent_id)
              λ _ w' h'. h')
            (fetch_again-Preserves playlist (h parent_id playlist e)) w h
