-- ===== src/Hls/State.antt =====
-- src/HLSStream.hpp: the playlists, and the tags of their resources.
use cdn_uring.Prelude.{ℕ, List}
use cdn_uring.Prelude.Int.{ℤ}
use cdn_uring.Prelude.Text.{Text}

-- `HLSStream::SegmentPlaylist`; times are in milliseconds, and may be negative as `long` is.
pub record SegmentPlaylist : Type 0 where
  pub resource_id : ℕ
  pub channel_id : ℕ
  pub remaining_fetches : ℕ
  pub last_stamp : ℤ
  pub url : Text
  pub track_urls : List Text
  pub track_uids : List ℕ
  pub track_stamps : List ℤ
  pub track_sequence : List ℤ

-- `CHANNEL_LIST_TAG` and the other tags, `REMAINING_FETCHES`, `MAX_TRACKS_PER_PLAYLIST`,
-- `TIMEOUT_TRACK` and `TRACK_DELTA`.
abbrev pub channel_list_tag : ℕ
channel_list_tag = 1

abbrev pub channel_tag : ℕ
channel_tag = 2

abbrev pub segment_playlist_tag : ℕ
segment_playlist_tag = 3

abbrev pub segment_tag : ℕ
segment_tag = 4

abbrev pub channel_inner_tag : ℕ
channel_inner_tag = 5

abbrev pub segment_inner_playlist_tag : ℕ
segment_inner_playlist_tag = 6

abbrev pub max_fetches : ℕ
max_fetches = 10

abbrev pub max_tracks_per_playlist : ℕ
max_tracks_per_playlist = 4

abbrev pub timeout_track : ℕ
timeout_track = 15000

abbrev pub track_delta : ℕ
track_delta = 150
