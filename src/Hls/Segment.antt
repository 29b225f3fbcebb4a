-- ===== src/Hls/Segment.antt =====
-- src/HLSStream.cpp, `ProcessSegmentList`: the answer with the tracks of a playlist has come.
use cdn_uring.Prelude.{ℕ, ◌-◌, ◌==◌, Bool, true, false, none, List, if◌then◌else◌}
use cdn_uring.Prelude.Int.{ℤ, pos, is_zero, same_int, ◌+ℤ◌}
use cdn_uring.Hls.Files.{remove_playlist, request_file}
use cdn_uring.Hls.State.{SegmentPlaylist, track_delta, channel_inner_tag}
use cdn_uring.Hls.Store.{playlist_at, put_playlist}
use cdn_uring.Hls.Tracks.{Scan, scan_buffers, clean_tracks}
use cdn_uring.World.{Iovec, Env}
use cdn_uring.World.Monad.{M, pure, run_result, ◌>>=◌, ◌>>◌}

-- What the loop starts with: one more fetch is made, and the next track follows the last one.
abbrev pub start_scan : ℤ → SegmentPlaylist → Scan
start_scan ticks playlist = record {
  playlist = record playlist { remaining_fetches = playlist.remaining_fetches - 1 };
  last_stamp =
      if is_zero playlist.last_stamp then ticks +ℤ pos track_delta else playlist.last_stamp;
  sequence = pos 0;
  found = false;
  extinf = none;
}

-- Old tracks go if the time has moved on.
unfoldable pub settle : Scan → SegmentPlaylist
settle scan =
    if same_int scan.playlist.last_stamp scan.last_stamp
    then scan.playlist
    else clean_tracks (record scan.playlist { last_stamp = scan.last_stamp })

-- The channel is fetched again, sooner if there was no track.
unfoldable pub fetch_again : Env → ℤ → ℕ → List Iovec → ℕ → SegmentPlaylist → M Bool
fetch_again env ticks parent_id buffer size playlist = do
  scan ← run_result (scan_buffers env buffer size (start_scan ticks playlist))
  put_playlist parent_id (settle scan)
  request_file env playlist.resource_id playlist.url channel_inner_tag
      (if scan.found then 2500 else 500)
  pure true

-- `HLSStream::ProcessSegmentList`.
unfoldable pub process_segment_list : Env → ℤ → ℕ → List Iovec → ℕ → M Bool
process_segment_list env ticks parent_id buffer size = do
  playlist ← playlist_at parent_id
  if playlist.remaining_fetches == 0
      then (remove_playlist parent_id >> pure false)
      else fetch_again env ticks parent_id buffer size playlist
