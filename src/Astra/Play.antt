-- ===== src/Astra/Play.antt =====
-- src/AstraHttpClient.cpp: which track comes next, and when.
use cdn_uring.Prelude.{ℕ, Bool, true, false, none, some, List, [], ◌∷◌, if◌then◌else◌}
use cdn_uring.Prelude.Int.{ℤ, pos, negsuc, is_neg, is_zero, minus, ◌+ℤ◌}
use cdn_uring.Prelude.Text.{Text, codes, is_empty}
use cdn_uring.Prelude.Result.{missing_key, past_end, ok}
use cdn_uring.Event
use cdn_uring.Astra.State.{Playlist}
use cdn_uring.Request.{inner_request}
use cdn_uring.Stream.Join.{nop}
use cdn_uring.Stream.Registry.{is_some}
use cdn_uring.World.{Request}
use cdn_uring.World.Monad.{
  insert, c_block, M, pure, skip, fail, lift, allocate, set_iov, update, ◌>>=◌, ◌>>◌,
}

-- `playlist_.at(id)`, a write through that pointer, and `erase`.
unfoldable pub reproduction_at : ℕ → M Playlist
reproduction_at id w = lift missing_key (w.reproductions id) w

unfoldable pub put_reproduction : ℕ → Playlist → M (Unit {0})
put_reproduction id playlist w =
    ok (tt, record w { reproductions = update w.reproductions id (some playlist) })

-- `AstraHttpClient::ExistsPlaylist`.
unfoldable pub exists_playlist : ℕ → M Bool
exists_playlist id w = ok (is_some (w.reproductions id), w)

-- `AstraHttpClient::CreatePlaylist`: nothing is waited for before the first track.
unfoldable pub create_reproduction : ℕ → M (Unit {0})
create_reproduction id w = ok (
  tt,
  record w {
    reproductions = insert w.reproductions id (record {
      url = [];
      last_track = [];
      tracks = [];
      tracks_duration = pos 0 ∷ [];
      start_time = 0;
    });
  },
)

-- `AstraHttpClient::ReleasePlaylist`.
unfoldable pub release_playlist : ℕ → M (Unit {0})
release_playlist id = do
  playlist ← reproduction_at id
  (λ w. ok (tt, record w { reproductions = update w.reproductions id none }))

abbrev pub track_header : Text
track_header =
    codes
      "User-Agent: Lavf/60.3.100\r\nRange: bytes=0-\r\nConnection: keep-alive\r\nIcy-MetaData: 1\r\nAccept: */*\r\n"

abbrev pub list_header : Text
list_header =
    codes "User-Agent: Lavf/60.3.100\r\nConnection: close\r\nIcy-MetaData: 1\r\nAccept: */*\r\n"

-- The request that the resolver gets for `url`.
unfoldable pub fetch_request : Request → Text → Text → Request
unfolding inner_request
fetch_request http url header =
    record (set_iov (set_iov (inner_request http) 2 (c_block url)) 3 (c_block header)) {
      event_type = Event.dns_fetchaaaa;
    }

unfoldable pub request_url : Request → Text → Text → ℕ → M (Unit {0})
request_url http url header msecs =
    if is_empty url
    then skip
    else (allocate (fetch_request http url header) >>= λ inner. nop inner msecs)

abbrev pub above_zero : ℤ → ℕ
above_zero (pos n) = n
above_zero (negsuc n) = 0

-- `AstraHttpClient::RequestTrack`; a delay that is not above 0 is none.
unfoldable pub request_track : Request → Text → ℤ → M (Unit {0})
request_track http url msecs = request_url http url track_header (above_zero msecs)

-- `AstraHttpClient::RequestPlaylist`.
unfoldable pub request_list : Request → Text → M (Unit {0})
request_list http url = request_url http url list_header 0

-- `TIMEOUT_DELTA`.
abbrev pub timeout_delta : ℕ
timeout_delta = 150

-- How long to wait for the next track, if the one before it takes `duration` and started at `start`. The
-- clock counts whole milliseconds.
unfoldable pub delay_of : ℕ → ℕ → ℤ → ℤ
delay_of now start duration =
    let left = duration +ℤ minus start now in
    if is_zero duration then pos 0 else if is_neg left then pos 0 else left +ℤ minus 0 timeout_delta

-- `AstraHttpClient::GetTimeout`: the first duration is taken off.
unfoldable pub get_timeout : ℕ → ℕ → M ℤ
get_timeout now id = do
  playlist ← reproduction_at id
  elim playlist.tracks_duration [
    | [] ↦ fail past_end
    | duration ∷ rest ↦ do
      put_reproduction id (record playlist { tracks_duration = rest })
      pure (delay_of now playlist.start_time duration)
  ]

-- The first track is taken off, and asked for.
unfoldable pub play : ℕ → Request → Playlist → List Text → M Bool
play now http playlist [] = pure false
play now http playlist (url ∷ rest) = do
  put_reproduction http.resource_id (record playlist { tracks = rest; last_track = url })
  timeout ← get_timeout now http.resource_id
  request_track http url timeout
  pure true

-- `AstraHttpClient::PlayNextTrack`.
unfoldable pub play_next_track : ℕ → Request → M Bool
play_next_track now http = do
  found ← exists_playlist http.resource_id
  if found
      then (do playlist ← reproduction_at http.resource_id; play now http playlist playlist.tracks)
      else pure false
