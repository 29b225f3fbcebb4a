-- ===== src/Astra/Content.antt =====
-- src/AstraHttpClient.cpp: the lists that the origin sends.
use cdn_uring.Prelude.{Option, none, some, List, [], ◌∷◌, ◌++◌, if◌then◌else◌}
use cdn_uring.Prelude.Text.{Text, text_eq}
use cdn_uring.Prelude.Text.Lines.{stoi_signed}
use cdn_uring.Prelude.Result.{Result, ok, ◌>>=◌}
use cdn_uring.Astra.State.{Playlist}
use cdn_uring.Hls.Channel.{local_url}
use cdn_uring.Hls.Tracks.{starts_with, duration_digits}

-- A track behind those that wait, unless it was the last one that was asked for. The playlist is there,
-- so the code's second look for it finds it.
unfoldable pub queue_track : Text → Text → Playlist → Result Playlist
queue_track line found playlist = do
  url ← local_url found
  if text_eq url playlist.last_track then ok playlist else (do
    seconds ← stoi_signed (duration_digits line)
    ok (record playlist {
      tracks = playlist.tracks ++ (url ∷ []);
      tracks_duration = playlist.tracks_duration ++ (seconds ∷ []);
    }))

-- The loop over the lines: `extinf` is the line `#EXTINF` whose address comes next.
unfoldable pub queue_tracks : Option Text → List Text → Playlist → Result Playlist
queue_tracks extinf [] playlist = ok playlist
queue_tracks (some info) (line ∷ lines) playlist =
    if starts_with "http" line
    then (queue_track info line playlist >>= queue_tracks none lines)
    else queue_tracks none lines playlist
queue_tracks none (line ∷ lines) playlist =
    queue_tracks (if starts_with "#EXTINF:" line then some line else none) lines playlist
