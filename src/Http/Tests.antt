-- ===== src/Http/Tests.antt =====
-- src/Http.cpp at concrete states: an answer of the origin for a stream and for a file.
use cdn_uring.Prelude.{
  ℕ, zero, suc, ◌<◌, ◌==◌, ◌≡◌, refl, true, false, none, some, [], ◌∷◌, ◌++◌, drop, replicate,
  arith, if◌then◌else◌,
}
use cdn_uring.Prelude.Int.{ℤ, pos, negsuc}
use cdn_uring.Prelude.Text.{Text, codes, matches}
use cdn_uring.Event
use cdn_uring.World.{Ptr, Request, World, prep_nop}
use cdn_uring.Server.{status_content}
use cdn_uring.Stream.Registry.{create_mux}
use cdn_uring.Stream.Ring.{fresh-Holds}
use cdn_uring.Stream.Broadcast.{IsServing}
use cdn_uring.Stream.Tests.{
  small, client, live_stream, serving_two, chunk, chunks, sound, none_read,
}
use cdn_uring.Cache.Buffer.{create_node}
use cdn_uring.Cache.Writer.{IsStoring, total}
use cdn_uring.Cache.Tests.{writer, new_node}
use cdn_uring.Http.Parse.{header_end}
use cdn_uring.Http.Tls.{Tls, tls_client}
use cdn_uring.Http.Secure.{deciphered, with_bytes, handle_read_data-Deciphers}
use cdn_uring.Http.HeaderEnd.{Splits, fetch_header_length-Splits}
use cdn_uring.Http.Breaking.{Breaks, handle_read_data-Breaks}
use cdn_uring.Http.Client.{http_client}
use cdn_uring.Http.Forward.{
  next_read, http_client-Rearms, Forwards, Stores, Ends, handle_read_data-Forwards,
  handle_read_data-Stores, handle_read_data-Ends,
}

-- The connection at 6, for a resource of the given type, with a chunk in its buffer.
abbrev connection : ℕ → Request
connection type = record {
  event_type = Event.http_read_content;
  client_socket = pos 20;
  auxiliar = pos 0;
  resource_id = 7;
  pivot = type;
  debug = false;
  is_processing = false;
  iov = record { len = 8; cap = 8; base = codes "abc" ++ replicate 5 0 } ∷ [];
}

-- The two clients of a stream, with its connection.
abbrev streaming : World
streaming = record serving_two {
  heap = λ p. if p == 6 then some (connection Event.resource_streaming) else serving_two.heap p;
}

streaming-IsServing : IsServing small 7 chunk 0 none_read live_stream streaming
unfolding create_mux
streaming-IsServing = record {
  found = refl;
  ring = fresh-Holds small 4 chunk (omega arith);
  distinct = ((λ e. omega arith, tt), (tt, tt));
  readers = (
    record {
      request = client 11;
      client = record { live = refl; has_block = omega arith; large = omega arith };
      member = refl;
      place = refl;
      behind = omega arith;
      near = omega arith;
    },
    (
      record {
        request = record (client 12) { is_processing = true };
        client = record { live = refl; has_block = omega arith; large = omega arith };
        member = refl;
        place = refl;
        behind = omega arith;
        near = omega arith;
      },
      tt,
    ),
  );
}

handle_read_data-Forwards_example :
    Forwards http_client small 7 chunk 0 none_read live_stream
      (next_read small 6 (pos 20))
      (pos 3)
      6
      (connection Event.resource_streaming)
      streaming
      streaming
unfolding create_mux
handle_read_data-Forwards_example =
    handle_read_data-Forwards http_client small 6 (next_read small 6) (http_client-Rearms small 6) 7
      3 (pos 3) (connection Event.resource_streaming) streaming streaming
      (record {
        some_bytes = omega arith;
        earlier = connection Event.resource_streaming;
        known = refl;
        taken = refl;
      })
      chunk 0 none_read live_stream sound chunks streaming-IsServing (λ e. cc) (omega arith)
      (omega arith)
      (record {
        live = refl;
        member = refl;
        kind = refl;
        has_block = omega arith;
        large = omega arith;
        filled = refl;
      })

handle_read_data-Ends_example :
    Ends small 7 live_stream 6 (connection Event.resource_streaming) streaming
unfolding create_mux
handle_read_data-Ends_example =
    handle_read_data-Ends small 7 live_stream [] 6 (connection Event.resource_streaming) streaming
      refl ((λ e. omega arith, tt), (tt, tt))
      ((client 11, refl), ((record (client 12) { is_processing = true }, refl), tt)) (omega arith)
      (record {
        live = refl;
        member = refl;
        kind = refl;
        has_block = omega arith;
        large = omega arith;
        filled = refl;
      })

-- The writer of a file, with its connection.
abbrev downloading : World
downloading = record serving_two {
  heap = λ p.
      if p == 5
      then some writer
      else if p == 6
      then some (connection Event.resource_cache)
      else none;
  nodes = λ id. if id == 7 then some new_node else none;
}

downloading-IsStoring : IsStoring small 7 chunk 0 0 new_node downloading
unfolding create_node total
downloading-IsStoring = record {
  found = refl;
  ring = fresh-Holds small 4 chunk (omega arith);
  size = refl;
  request = writer;
  writer = record { live = refl; has_block = omega arith; large = omega arith };
  member = refl;
  place = refl;
  behind = omega arith;
  near = omega arith;
}

handle_read_data-Stores_example :
    Stores http_client small 7 chunk 0 0 writer new_node
      (next_read small 6 (pos 20))
      (pos 3)
      6
      (connection Event.resource_cache)
      downloading
      downloading
unfolding downloading-IsStoring create_mux create_node
handle_read_data-Stores_example =
    handle_read_data-Stores http_client small 6 (next_read small 6) (http_client-Rearms small 6) 7 3
      (pos 3) (connection Event.resource_cache) downloading downloading
      (record {
        some_bytes = omega arith;
        earlier = connection Event.resource_cache;
        known = refl;
        taken = refl;
      })
      chunk 0 0 new_node sound chunks downloading-IsStoring
      (record { mux = live_stream; known = refl; on_disk = refl }) (omega arith) (λ e. omega arith)
      (record {
        live = refl;
        member = refl;
        kind = refl;
        has_block = omega arith;
        large = omega arith;
        filled = refl;
      })

abbrev answer : Text
answer = codes "H" ++ (header_end ++ (codes "xy" ++ codes "z"))

no_end_before : (j : ℕ) → j < 1 → matches ◌==◌ header_end (drop j answer) ≡ false
unfolding matches
no_end_before zero lt = refl
no_end_before (suc j) lt = absurd (omega arith)

fetch_header_length-Splits_example : Splits (codes "H") (codes "xy") answer 7
fetch_header_length-Splits_example =
    fetch_header_length-Splits (codes "H") (codes "xy") (codes "z") (omega arith) no_end_before

abbrev socket_of : Ptr → ℤ
socket_of p = if p == 1 then pos 11 else pos 12

abbrev text_502 : Text
text_502 = codes "HTTP/1.0 502 Bad Gateway\r\nContent-type: text/plain\r\n\r\nBad Gateway \r\n"

known_502 : status_content 502 ≡ some text_502
unfolding status_content
known_502 = refl

abbrev breaking : World
breaking = record streaming { next = 7 }

handle_read_data-Breaks_example :
    Breaks small 7 text_502 socket_of live_stream 103 6
      (connection Event.resource_streaming)
      breaking
handle_read_data-Breaks_example =
    handle_read_data-Breaks small 7 text_502 socket_of live_stream 103 6
      (connection Event.resource_streaming) breaking known_502 refl
      ((λ e. omega arith, tt), (tt, tt))
      (
        record { request = client 11; live = refl; in_use = omega arith; on_socket = refl },
        (
          record {
            request = record (client 12) { is_processing = true };
            live = refl;
            in_use = omega arith;
            on_socket = refl;
          },
          tt,
        ),
      )
      (omega arith) refl (omega arith) refl

-- A session that reads a chunk.
abbrev session : Tls
session = record {
  ctx_new = true;
  session_new = true;
  connect = pos 1;
  write = λ text. pos 1;
  read = λ p. pos 3;
  bytes = λ p. codes "abc";
  get_error = λ last. elim last [ pos n ↦ 0 | negsuc n ↦ 5 ];
}

handle_read_data-Deciphers_example :
    Forwards
      (tls_client session)
      small
      7
      chunk
      0
      none_read
      live_stream
      (prep_nop 6)
      (pos 0)
      6
      (deciphered (codes "abc") (connection Event.resource_streaming))
      streaming
      (with_bytes (codes "abc") 6 (connection Event.resource_streaming) streaming)
unfolding create_mux
handle_read_data-Deciphers_example =
    handle_read_data-Deciphers session small 7 3 (codes "abc") 6
      (connection Event.resource_streaming) streaming (omega arith)
      (record {
        live = refl;
        member = refl;
        kind = refl;
        has_block = omega arith;
        large = omega arith;
        some_bytes = omega arith;
        readed = refl;
        read_bytes = refl;
        counted = refl;
      })
      (pos 0) chunk 0 none_read live_stream sound chunks refl streaming-IsServing (λ e. cc)
      (omega arith) (omega arith)
