-- ===== src/Hls/Extend.antt =====
-- src/HLSStream.cpp, `ProcessSegmentList`: a playlist follows that of the origin.
use cdn_uring.Prelude.{ℕ, ◌-◌, ◌==◌, ◌≡◌, false, some, List, length, drop, if◌then◌else◌}
use cdn_uring.Prelude.Int.{ℤ, pos, negsuc, is_zero, same_int, ◌+ℤ◌}
use cdn_uring.Prelude.Text.{Text}
use cdn_uring.Prelude.Text.Lines.{lines_of}
use cdn_uring.Prelude.Result.{ok}
use cdn_uring.Http.Parse.{string_of}
use cdn_uring.Hls.State.{SegmentPlaylist, track_delta}
use cdn_uring.Hls.Store.{playlist_at}
use cdn_uring.Hls.Tracks.{Scan}
use cdn_uring.Hls.Window.{Track, IsWindow, extended, end_of, last_number, found_after, scan_of}
use cdn_uring.World.{Iovec, World, Env}
use cdn_uring.World.Monad as Monad
use cdn_uring.World.Monad.{M}

-- The last ten tracks.
abbrev pub last_ten : SegmentPlaylist → SegmentPlaylist
last_ten playlist = record playlist {
  track_urls = drop (length playlist.track_urls - 10) playlist.track_urls;
  track_uids = drop (length playlist.track_urls - 10) playlist.track_uids;
  track_stamps = drop (length playlist.track_urls - 10) playlist.track_stamps;
  track_sequence = drop (length playlist.track_urls - 10) playlist.track_sequence;
}

-- When the first new track starts.
abbrev pub next_stamp : ℤ → SegmentPlaylist → ℤ
next_stamp ticks playlist =
    if is_zero playlist.last_stamp then ticks +ℤ pos track_delta else playlist.last_stamp

pub playlist_at-ok :
    (w : World) (id : ℕ) {playlist : SegmentPlaylist}
    → w.playlists id ≡ some playlist
    → playlist_at id w ≡ ok (playlist, w)
unfolding playlist_at
playlist_at-ok w id e = rw e

module _ (env : Env) (ticks : ℤ) (id : ℕ) (v : Iovec) (content : Text) (playlist : SegmentPlaylist)
    (number : ℤ) (old new : List Track) (filled : (v.len == 0) ≡ false)
    (text : string_of v ≡ ok content)
    (window : IsWindow env playlist number old new (lines_of content))
    (moved : same_int playlist.last_stamp (end_of (next_stamp ticks playlist) new) ≡ false) where
  -- The number behind which the new tracks are counted.
  abbrev before_new : ℤ
  before_new = last_number (number +ℤ negsuc 0) old

  -- What becomes of the playlist.
  abbrev followed : SegmentPlaylist
  followed = last_ten (record (extended env (next_stamp ticks playlist) before_new new playlist) {
    remaining_fetches = playlist.remaining_fetches - 1;
    last_stamp = end_of (next_stamp ticks playlist) new;
  })

  fetched : SegmentPlaylist
  fetched = record playlist { remaining_fetches = playlist.remaining_fetches - 1 }

  scanned : Scan
  scanned =
      scan_of (extended env (next_stamp ticks playlist) before_new new fetched)
        (end_of (next_stamp ticks playlist) new) (last_number before_new new)
        (found_after new (found_after old false))
