-- ===== src/Stream/Tests.antt =====
-- Runs of the stream functions, and the theorems at concrete states.
use cdn_uring.Prelude.{
  ℕ, refl, false, true, Option, none, some, [], ◌∷◌, length, arith, ◌==◌, if◌then◌else◌,
}
use cdn_uring.Prelude.Int.{pos}
use cdn_uring.Prelude.Text.{Text, codes}
use cdn_uring.Event
use cdn_uring.Dns.State.{DnsState, ipv4}
use cdn_uring.World.{Ptr, Request, Mux, Env, World}
use cdn_uring.Stream.Registry.{create_mux}
use cdn_uring.Stream.Ring.{IsChunk, IsSound, fresh-Holds}
use cdn_uring.Stream.Broadcast.{IsServing, Broadcasts, notify_stream-Broadcasts}

-- A server with small buffers: 8 bytes each, 4 slots to a stream.
abbrev pub small : Env
small = record {
  http_buffer_size = 8;
  streaming_buffer_size = 4;
  cache_buffer_size = 4;
  cache_dir = codes "c/";
  proxy = [];
  open_read = λ n path. pos 9;
  open_write = λ n path. pos 8;
  base_url = codes "b.c";
  hash = length;
}

abbrev pub client : ℕ → Request
client socket = record {
  event_type = Event.server_write_header;
  client_socket = pos socket;
  auxiliar = pos 0;
  resource_id = 7;
  pivot = 0;
  debug = false;
  is_processing = false;
  iov = record { len = 0; cap = 8; base = [] } ∷ [];
}

-- An idle client at 1 and a busy one at 2.
abbrev two_clients : Ptr → Option Request
two_clients p =
    if p == 1
    then some (client 11)
    else if p == 2
    then some (record (client 12) { is_processing = true })
    else none

abbrev pub live_stream : Mux
live_stream = record (create_mux small 7 (codes "/live")) {
  requests = 1 ∷ 2 ∷ [];
  type = Event.resource_streaming;
}

-- A resolver with one server that has not been asked yet.
abbrev pub idle_dns : DnsState
idle_dns = record {
  cache = record { entries = λ host. none; size = 0; by_outdated_date = λ date. [] };
  list = record {
    queries = λ id. none;
    by_host = λ host. none;
    by_next_due_time = λ t. [];
    in_progress = 0;
  };
  server_list = record { mode = ipv4; address = 8 ∷ 8 ∷ 8 ∷ 8 ∷ [] } ∷ [];
  increment = 1;
  hosts_ipv4 = λ host. none;
  hosts_ipv6 = λ host. none;
  packets = [];
}

abbrev pub serving_two : World
serving_two = record {
  heap = two_clients;
  next = 3;
  resources = λ id. if id == 7 then some live_stream else none;
  resource_ttl = [];
  nodes = λ id. none;
  submitted = [];
  closed = [];
  removed = [];
  opens = 0;
  dns = idle_dns;
  playlists = λ id. none;
  segments = λ id. none;
  reproductions = λ id. none;
}

abbrev pub chunk : ℕ → Text
chunk n = codes "abc"

pub chunks : (j : ℕ) → IsChunk small (chunk j)
chunks j = record { some_byte = omega arith; fits = omega arith }

pub sound : IsSound small 4
sound = record { slots = omega arith; small = omega arith }

abbrev pub none_read : Ptr → ℕ
none_read p = 0

pub serving_two-IsServing : IsServing small 7 chunk 0 none_read live_stream serving_two
unfolding create_mux
serving_two-IsServing = record {
  found = refl;
  ring = fresh-Holds small 4 chunk (omega arith);
  distinct = ((λ e. omega arith, tt), (tt, tt));
  readers = (
    record {
      request = client 11;
      client = record { live = refl; has_block = omega arith; large = omega arith };
      member = refl;
      place = refl;
      behind = omega arith;
      near = omega arith;
    },
    (
      record {
        request = record (client 12) { is_processing = true };
        client = record { live = refl; has_block = omega arith; large = omega arith };
        member = refl;
        place = refl;
        behind = omega arith;
        near = omega arith;
      },
      tt,
    ),
  );
}

notify_stream-Broadcasts_example : Broadcasts small 7 chunk 0 none_read live_stream serving_two
unfolding create_mux
notify_stream-Broadcasts_example =
    notify_stream-Broadcasts small 7 chunk 0 none_read sound chunks live_stream serving_two
      serving_two-IsServing (λ e. cc) (omega arith)
