-- ===== src/Astra/Tests.antt =====
-- src/AstraHttpClient.cpp at concrete playlists and answers.
use cdn_uring.Prelude.{
  ◌==◌, ◌≡◌, refl, true, false, none, some, [], ◌∷◌, ◌++◌, replicate, arith, if◌then◌else◌,
}
use cdn_uring.Prelude.Int.{ℤ, pos}
use cdn_uring.Prelude.Text.{Text, codes, c_str, search_by, matches, substr}
use cdn_uring.Prelude.Text.Lines.{stoi_signed, skip_blanks, signed_int, unsigned_int, digits_from}
use cdn_uring.Event
use cdn_uring.Http.Parse.{expect, fetch_header_length, process_external_header}
use cdn_uring.Server.{status_content}
use cdn_uring.Stream.Tests.{small, client, live_stream, serving_two}
use cdn_uring.Astra.Playing.{IsPaired, Plays, play_next_track-Plays, queue_tracks-IsPaired}
use cdn_uring.Astra.Content.{queue_tracks}
use cdn_uring.Astra.Rejected.{Rejects, handle_astra_read_header_request-Rejects}
use cdn_uring.Astra.State.{Playlist}
use cdn_uring.Prelude.Holds.{Holds}
use cdn_uring.World.{Ptr, Request, World}

-- A playlist whose last track is played, with one track that waits.
abbrev one_waits : Playlist
one_waits = record {
  url = codes "/o/a.m3u8";
  last_track = codes "/o/1.ts";
  tracks = codes "/o/2.ts" ∷ [];
  tracks_duration = pos 4000 ∷ pos 5000 ∷ [];
  start_time = 100;
}

abbrev connection : Request
connection = record {
  event_type = Event.http_read_header;
  client_socket = pos 20;
  auxiliar = pos 0;
  resource_id = 7;
  pivot = 0;
  debug = false;
  is_processing = false;
  iov =
      record { len = 40; cap = 40; base = codes "HTTP/1.1 502 Bad\r\n\r\n" ++ replicate 20 0 } ∷ [];
}

abbrev playing : World
playing = record serving_two { reproductions = λ id. if id == 7 then some one_waits else none }

play_next_track-Plays_example :
    Plays 1000 4000 connection one_waits (codes "/o/2.ts") [] (pos 5000 ∷ []) playing
play_next_track-Plays_example =
    play_next_track-Plays 1000 4000 connection one_waits (codes "/o/2.ts") [] (pos 5000 ∷ [])
      playing refl refl refl refl refl (omega arith)

queue_tracks-IsPaired_example :
    Holds IsPaired
      (queue_tracks none (codes "#EXTINF:2.000," ∷ codes "http://o/3.ts" ∷ []) one_waits)
queue_tracks-IsPaired_example =
    queue_tracks-IsPaired none (codes "#EXTINF:2.000," ∷ codes "http://o/3.ts" ∷ []) one_waits refl

abbrev failing : World
failing = record serving_two {
  heap = λ p. if p == 6 then some connection else serving_two.heap p;
  next = 7;
}

abbrev text_502 : Text
text_502 = codes "HTTP/1.0 502 Bad Gateway\r\nContent-type: text/plain\r\n\r\nBad Gateway \r\n"

known_502 : status_content 502 ≡ some text_502
unfolding status_content
known_502 = refl

abbrev socket_of : Ptr → ℤ
socket_of p = if p == 1 then pos 11 else pos 12

handle_astra_read_header_request-Rejects_example :
    Rejects small 0 502 text_502 socket_of live_stream 39 20 6 connection failing
unfolding matches search_by substr c_str stoi_signed skip_blanks signed_int unsigned_int digits_from
    expect fetch_header_length process_external_header
handle_astra_read_header_request-Rejects_example =
    handle_astra_read_header_request-Rejects small 0 502 text_502 socket_of live_stream 39 20 6
      connection failing known_502 refl refl ((λ e. omega arith, tt), (tt, tt))
      (
        record { request = client 11; live = refl; in_use = omega arith; on_socket = refl },
        (
          record {
            request = record (client 12) { is_processing = true };
            live = refl;
            in_use = omega arith;
            on_socket = refl;
          },
          tt,
        ),
      )
      ((λ e. omega arith), ((λ e. omega arith), tt))
      (record {
        live = refl;
        in_use = omega arith;
        has_block = omega arith;
        ends = refl;
        rest = codes "502 Bad\r\n\r\n";
        status_line = refl;
        status_code = refl;
      })
