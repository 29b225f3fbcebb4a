-- ===== src/Astra/Read.antt =====
-- src/AstraHttpClient.cpp: an answer of the origin is a list of playlists, a list of tracks, or a track.
use cdn_uring.Prelude.{
  ℕ, zero, suc, ◌==◌, Bool, true, false, not, Option, none, some, [], ◌∷◌, take, if◌then◌else◌,
}
use cdn_uring.Prelude.Int.{ℤ, pos, negsuc, same_int}
use cdn_uring.Prelude.Text.{Text, codes, is_empty, substr}
use cdn_uring.Prelude.Text.Lines.{lines_of, stoi_signed}
use cdn_uring.Event
use cdn_uring.Astra.Play.{
  reproduction_at, put_reproduction, exists_playlist, create_reproduction, release_playlist,
  request_track, request_list, play_next_track,
}
use cdn_uring.Astra.Content.{queue_tracks}
use cdn_uring.Headers.{ends_with, replace_header_tag}
use cdn_uring.Hls.Channel.{find_stream, local_url}
use cdn_uring.Http.Client.{release_socket}
use cdn_uring.Http.Parse.{string_of, fetch_header_length, process_external_header}
use cdn_uring.Http.Read.{with_length, read_on}
use cdn_uring.Http.Client.{http_client}
use cdn_uring.Stream.Notify.{
  set_streaming_resource, notify_stream, release_error_all_waiting_request,
}
use cdn_uring.Stream.Registry.{exists_resource}
use cdn_uring.World.{Ptr, Request, Mux, Env}
use cdn_uring.World.Monad.{
  M, pure, skip, run_result, deref, store, mux_at, element, set_iov, ◌>>=◌, ◌>>◌,
}

-- `HTTP_TYPE_INDEX`, `HTTP_TYPE_CONTENT` and `HTTP_TYPE_TS`.
abbrev pub http_type_index : ℕ
http_type_index = 1

abbrev pub http_type_content : ℕ
http_type_content = 2

abbrev pub http_type_ts : ℕ
http_type_ts = 3

-- `Http::GetStatusCode`.
unfoldable pub get_status_code : Text → M ℤ
get_status_code header = do
  rest ← run_result (substr header 9)
  run_result (stoi_signed (take 3 rest))

-- The first playlist of a list: it is kept if there is none yet, and asked for.
unfoldable pub take_list : Request → Option Text → M Bool
take_list http none = pure false
take_list http (some found) = do
  url ← run_result (local_url found)
  exists ← exists_playlist http.resource_id
  if not exists then pure false else (do
    playlist ← reproduction_at http.resource_id
    (if is_empty playlist.url
        then put_reproduction http.resource_id (record playlist { url = url })
        else skip)
    request_track http url (pos 0)
    pure true)

-- `AstraHttpClient::ProcessPlaylist`.
unfoldable pub process_playlist : Request → M Bool
process_playlist http = do
  block ← element http.iov 0
  content ← run_result (string_of block)
  take_list http (find_stream false (lines_of content))

-- `AstraHttpClient::ProcessReproduction`.
unfoldable pub process_reproduction : ℕ → Request → M Bool
process_reproduction now http = do
  block ← element http.iov 0
  content ← run_result (string_of block)
  playlist ← reproduction_at http.resource_id
  queued ← run_result (queue_tracks none (lines_of content) playlist)
  put_reproduction http.resource_id queued
  elim queued.tracks [ [] ↦ pure false | url ∷ rest ↦ play_next_track now http ]

unfoldable pub hang_up_if : Ptr → Bool → M Bool
hang_up_if p false = pure false
hang_up_if p true = do release_socket p; pure true

-- `AstraHttpClient::VerifyContent`: whether the answer was a list, which ends the connection.
unfoldable pub verify_content : ℕ → Ptr → M Bool
verify_content now p = do
  http ← deref p
  if http.pivot == http_type_index
      then (process_playlist http >>= hang_up_if p)
      else if http.pivot == http_type_content
      then (process_reproduction now http >>= hang_up_if p)
      else pure false

-- The header of a stream that has none yet.
unfoldable pub begin_reproduction : Env → ℕ → Mux → Text → M (Unit {0})
begin_reproduction env resource_id resource header =
    if resource.type == Event.resource_undefined
    then (do
      typed ← run_result (replace_header_tag header (codes "Content-Type") (codes "video/MPEG"))
      alive ← run_result (replace_header_tag typed (codes "Connection") (codes "keep-alive"))
      set_streaming_resource env resource_id alive)
    else skip

-- What kind of answer it is, by the address that was asked for.
unfoldable pub classify : ℕ → ℕ → Text → M ℕ
classify now resource_id url =
    if ends_with url (codes "/index.m3u8")
    then (do
      exists ← exists_playlist resource_id
      if exists then skip else create_reproduction resource_id
      pure http_type_index)
    else if ends_with url (codes ".ts")
    then (do
      playlist ← reproduction_at resource_id
      put_reproduction resource_id (record playlist { start_time = now })
      pure http_type_ts)
    else pure http_type_content

-- The connection is read further, unless it was a list.
unfoldable pub read_more : Env → Ptr → Bool → M ℕ
read_more env p true = pure 0
read_more env p false = do
  http ← deref p
  store p (record http { event_type = Event.http_read_content })
  read_on http_client env p

-- The header is there, with the status 200.
unfoldable pub accept_answer : Env → ℕ → Ptr → Mux → Text → M ℕ
accept_answer env now p resource header = do
  http ← deref p
  begin_reproduction env http.resource_id resource header
  path ← element http.iov 1
  url ← run_result (string_of path)
  type ← classify now http.resource_id url
  http ← deref p
  store p (record http { pivot = type })
  is_list ← verify_content now p
  read_more env p is_list

-- A status below 0 has no text, as 0 has none.
abbrev pub status_number : ℤ → ℕ
status_number (pos status) = status
status_number (negsuc n) = 0

-- The origin has no such thing.
unfoldable pub reject_answer : ℤ → Ptr → ℕ → M ℕ
reject_answer status p resource_id = do
  release_error_all_waiting_request resource_id (status_number status)
  release_socket p
  pure 1

unfoldable pub read_astra_header : Env → ℕ → Ptr → Mux → ℕ → M ℕ
read_astra_header env now p resource readed = do
  http ← deref p
  block ← element http.iov 0
  header_length ← run_result (fetch_header_length readed block.base 0)
  store p (set_iov http 0 (with_length block header_length))
  let header = process_external_header header_length block.base
  status ← get_status_code header
  if same_int status (pos 200)
      then accept_answer env now p resource header
      else reject_answer status p http.resource_id

abbrev pub hang_up : Ptr → M ℕ
hang_up p = do release_socket p; pure 1

unfoldable pub on_astra_header : Env → ℕ → Ptr → Mux → ℤ → M ℕ
on_astra_header env now p resource (pos zero) = hang_up p
on_astra_header env now p resource (negsuc n) = hang_up p
on_astra_header env now p resource (pos (suc n)) = read_astra_header env now p resource (suc n)

-- `AstraHttpClient::HandleReadHeaderRequest`.
unfoldable pub handle_astra_read_header_request : Env → ℕ → Ptr → ℤ → M ℕ
handle_astra_read_header_request env now p response = do
  http ← deref p
  exists ← exists_resource http.resource_id
  if exists
      then (do
        resource ← mux_at http.resource_id
        readed ← http_client.pre_request p response
        on_astra_header env now p resource readed)
      else hang_up p

-- The end of a track: the next one is asked for, or the list, unless nobody needs it.
unfoldable pub end_track : ℕ → Request → M (Unit {0})
end_track now http = do
  playing ← play_next_track now http
  exists ← exists_playlist http.resource_id
  if playing
      then skip
      else if exists
      then (reproduction_at http.resource_id >>= λ playlist. request_list http playlist.url)
      else skip

-- A part of a track goes to the clients.
unfoldable pub pass_track : Env → Ptr → ℕ → M ℕ
pass_track env p readed = do
  http ← deref p
  block ← element http.iov 0
  passed ← notify_stream env http.resource_id (take readed block.base)
  if passed == 1
      then (do release_playlist http.resource_id; hang_up p)
      else read_on http_client env p

unfoldable pub on_astra_data : Env → ℕ → Ptr → Request → ℤ → M ℕ
on_astra_data env now p http (negsuc n) = do
  release_error_all_waiting_request http.resource_id 502
  hang_up p
on_astra_data env now p http (pos zero) = do end_track now http; hang_up p
on_astra_data env now p http (pos (suc n)) = do
  is_list ← verify_content now p
  if is_list then pure 0 else pass_track env p (suc n)

-- `AstraHttpClient::HandleReadData`.
unfoldable pub handle_astra_read_data : Env → ℕ → Ptr → ℤ → M ℕ
handle_astra_read_data env now p response = do
  http ← deref p
  readed ← http_client.pre_request p response
  on_astra_data env now p http readed
