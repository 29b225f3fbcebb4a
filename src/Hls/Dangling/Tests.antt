-- ===== src/Hls/Dangling/Tests.antt =====
-- src/HLSStream.cpp, `NotifyCacheCompleted`: the list of the tracks of a playlist with a client has come.
use cdn_uring.Prelude.{◌≡◌, refl, true, some, [], ◌∷◌}
use cdn_uring.Prelude.Holds.{Holds}
use cdn_uring.Prelude.Result.{fault, dangling}
use cdn_uring.Stream.Tests.{small}
use cdn_uring.World.Monad.{update}
use cdn_uring.World.{Mux, World}
use cdn_uring.Hls.State.{segment_inner_playlist_tag}
use cdn_uring.Hls.Tests.{answer, two_tracks, playing, listened}
use cdn_uring.Hls.Dangling.{notify_hls_cache_completed-dangles}
use cdn_uring.Hls.Notify.{notify_hls_cache_completed, complete_segments, held_mux}
use cdn_uring.Hls.Store.{segment_at, playlist_at, put_playlist, insert_mux, erase_segment}
use cdn_uring.Stream.Registry.{create_mux, release_resource}
use cdn_uring.World.Monad.{mux_at, allocate, submit, erase_mux, release, element, put_mux, insert}
use cdn_uring.Hls.Segment.{process_segment_list, fetch_again, settle}
use cdn_uring.Hls.Tracks.{
  clean_tracks, scan_buffers, scan_lines, scan_line, add_track, set_sequence, replace_proxy, member,
}
use cdn_uring.Hls.Files.{request_file, create_segment, file_request, remove_segment, release_all}
use cdn_uring.Request.{create_request, stream_request}
use cdn_uring.Stream.Join.{nop}
use cdn_uring.Hls.Client.{generate_segment_client_list, fill_list, joined, next_track, track_list}
use cdn_uring.Hls.Header.{update_header}
use cdn_uring.Http.Parse.{string_of}
use cdn_uring.Prelude.Text.{c_str, search_by, matches, substr, to_string, digits_of, to_upper}
use cdn_uring.Headers.{replace_header_tag, ci_find_substr, to_int, ci_equal, from_line_end}
use cdn_uring.Prelude.Text.Lines.{
  print_int, lines_of, stoi_signed, skip_blanks, signed_int, unsigned_int, digits_from, without,
}

-- The list of the tracks of the playlist at 9 has come, for the resource 5.
abbrev list_resource : Mux
list_resource = record (create_mux small 5 []) {
  tag = segment_inner_playlist_tag;
  in_memory = true;
}

abbrev list_came : World
list_came = record playing {
  resources = update (update playing.resources 9 (some listened)) 5 (some list_resource);
  segments = update playing.segments 5 (some 9);
}

notify_hls_cache_completed-dangles_example :
    Holds (λ _. ⊥) (notify_hls_cache_completed small 1000 5 (answer ∷ []) 1 list_came)
unfolding create_mux
notify_hls_cache_completed-dangles_example =
    notify_hls_cache_completed-dangles small 1000 5 9 (answer ∷ []) 1 list_resource two_tracks
      list_came refl refl refl refl refl

-- In that state no call before the read fails.
dangles_there : notify_hls_cache_completed small 1000 5 (answer ∷ []) 1 list_came ≡ fault dangling
unfolding notify_hls_cache_completed complete_segments held_mux segment_at playlist_at put_playlist
    insert_mux erase_segment create_mux release_resource mux_at allocate submit erase_mux release
    element put_mux insert process_segment_list fetch_again settle clean_tracks scan_buffers
    scan_lines scan_line add_track set_sequence replace_proxy member request_file create_segment
    file_request remove_segment release_all create_request stream_request nop
    generate_segment_client_list fill_list joined next_track track_list update_header string_of
    c_str search_by matches substr to_string digits_of to_upper replace_header_tag ci_find_substr
    to_int ci_equal from_line_end print_int lines_of stoi_signed skip_blanks signed_int unsigned_int
    digits_from without
dangles_there = refl
