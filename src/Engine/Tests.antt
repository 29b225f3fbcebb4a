-- ===== src/Engine/Tests.antt =====
-- src/Engine.cpp at concrete states: a write to a client of a stream has finished or has failed.
use cdn_uring.Prelude.{◌==◌, ◌≡◌, refl, true, none, some, [], ◌∷◌, arith, if◌then◌else◌}
use cdn_uring.Prelude.Int.{pos, negsuc}
use cdn_uring.Prelude.Result.{ok}
use cdn_uring.Event
use cdn_uring.World.{Request, World}
use cdn_uring.World.Monad.{skip}
use cdn_uring.Stream.Registry.{create_mux}
use cdn_uring.Stream.Ring.{fresh-Holds}
use cdn_uring.Stream.Deliver.{client_after}
use cdn_uring.Stream.Broadcast.{IsServing, Broadcasts, read_on, notify_stream-Broadcasts}
use cdn_uring.Stream.Tests.{
  small, client, live_stream, serving_two, serving_two-IsServing, chunk, chunks, sound, none_read,
}
use cdn_uring.Http.Client.{http_client}
use cdn_uring.Http.Fetch.{Dial, handle_fetch_request}
use cdn_uring.Engine.{Engine, run_once}
use cdn_uring.Engine.History.{Moment, Runs, begin, arrive, finish, Delivers, Runs-Delivers}
use cdn_uring.Engine.Idle.{Idles, idled, run_once-Idles}
use cdn_uring.Engine.Leave.{left_world, run_once-left_world}

-- An origin that does not answer yet.
abbrev no_origin : Dial
no_origin = record {
  socket = negsuc 0;
  connect = negsuc 0;
  is_again = true;
  send = λ text. negsuc 0;
}

-- An engine whose resolver does nothing.
abbrev engine : Engine
engine = record {
  env = small;
  client = http_client;
  dns = record {
    add_fetch_aaaa_request = λ p. skip;
    handle_verify_udp = skip;
    add_verify_udp_request = λ p. skip;
  };
  fetch = λ p ipv4. handle_fetch_request small no_origin p;
  now = 0;
}

-- The client at 2, which is being written to.
abbrev busy : Request
busy = record (client 12) { is_processing = true; event_type = Event.server_write_partial }

abbrev writing : World
writing = record serving_two {
  heap = λ p. if p == 1 then some (client 11) else if p == 2 then some busy else none;
}

writing-IsServing : IsServing small 7 chunk 0 none_read live_stream writing
unfolding create_mux
writing-IsServing = record {
  found = refl;
  ring = fresh-Holds small 4 chunk (omega arith);
  distinct = ((λ e. omega arith, tt), (tt, tt));
  readers = (
    record {
      request = client 11;
      client = record { live = refl; has_block = omega arith; large = omega arith };
      member = refl;
      place = refl;
      behind = omega arith;
      near = omega arith;
    },
    (
      record {
        request = busy;
        client = record { live = refl; has_block = omega arith; large = omega arith };
        member = refl;
        place = refl;
        behind = omega arith;
        near = omega arith;
      },
      tt,
    ),
  );
}

run_once-Idles_example : Idles engine 7 chunk 0 none_read live_stream 2 busy (pos 3) writing
unfolding create_mux
run_once-Idles_example =
    run_once-Idles engine 7 chunk 0 none_read live_stream 2 busy (pos 3) writing writing-IsServing
      refl refl refl refl refl

run_once-left_world_example :
    run_once engine 2 (negsuc 31) writing ≡ ok (tt, left_world 7 live_stream 2 (1 ∷ []) writing)
run_once-left_world_example =
    run_once-left_world engine 7 live_stream 2 (1 ∷ []) [] busy writing refl refl
      ((λ e. omega arith), tt) refl refl refl

-- A run of a stream: a chunk comes, and the write of it to the first client finishes.
abbrev at_first : Moment
at_first = record { t = 0; read = none_read; mux = live_stream; world = serving_two }

first_chunk : Broadcasts small 7 chunk 0 none_read live_stream serving_two
unfolding create_mux
first_chunk =
    notify_stream-Broadcasts small 7 chunk 0 none_read sound chunks live_stream serving_two
      serving_two-IsServing (λ e. cc) (omega arith)

first_written : Request
first_written = client_after small (client 11) (chunk 0)

has_first : first_chunk.after.heap 1 ≡ some first_written
unfolding first_written
has_first = first_chunk.clients.0

first_done :
    Idles engine 7 chunk 1
      (read_on none_read serving_two)
      first_chunk.resource
      1
      first_written
      (pos 3)
      first_chunk.after
unfolding first_written create_mux
first_done =
    run_once-Idles engine 7 chunk 1 (read_on none_read serving_two) first_chunk.resource 1
      first_written (pos 3) first_chunk.after first_chunk.serving first_chunk.same_place has_first
      refl refl refl

after_chunk : Moment
after_chunk = record {
  t = 1;
  read = read_on none_read serving_two;
  mux = first_chunk.resource;
  world = first_chunk.after;
}

at_last : Moment
unfolding after_chunk
at_last = record after_chunk { world = idled 1 first_written first_chunk.after }

history : Runs engine 7 chunk at_first at_last
unfolding after_chunk at_last first_written
history =
    finish at_first after_chunk 1 first_written (pos 3) (idled 1 first_written first_chunk.after)
      (arrive at_first at_first first_chunk.resource first_chunk.after (begin at_first)
        (omega arith) first_chunk.returns first_chunk.serving.found)
      has_first refl refl refl first_done.returns

Runs-Delivers_example : Delivers small 7 chunk at_first at_last
unfolding create_mux
Runs-Delivers_example =
    Runs-Delivers engine 7 chunk sound chunks at_first at_last serving_two-IsServing (λ e. cc) refl
      history
