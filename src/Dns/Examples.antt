-- ===== src/Dns/Examples.antt =====
-- src/DnsSeeker.cpp at concrete queries and packets.
use cdn_uring.Prelude.{
  ℕ, ◌≡◌, ◌==◌, refl, true, false, none, some, [], ◌∷◌, ◌++◌, replicate, arith, if◌then◌else◌,
}
use cdn_uring.Prelude.Text.{Text, codes, text_eq}
use cdn_uring.Prelude.Result.{ok, fault, endless}
use cdn_uring.Dns.State.{ipv4, wrong, CacheEntry, Query, Datagram, Net}
use cdn_uring.Dns.Entries.{update_text}
use cdn_uring.Dns.Name.{skip_name, encode_labels}
use cdn_uring.Dns.Ask.{get_aaaa}
use cdn_uring.Dns.Receive.{goes_on, is_accepted, is_from_server, parse_packet}
use cdn_uring.Dns.Received.{reply, number_32, Answers, parse_packet-Answers}
use cdn_uring.Dns.Endless.{parse_packet_hangs}
use cdn_uring.Dns.Asking.{with_list, get_aaaa-joins, get_aaaa-drops}
use cdn_uring.Request.{no_iovec}
use cdn_uring.Stream.Tests.{client, serving_two, idle_dns}
use cdn_uring.World.{Request, World}
use cdn_uring.World.Monad.{update}

-- A network on which every packet goes out.
abbrev net : Net
net = record {
  now = 1000;
  sends = λ server packet. true;
  inet_pton = λ mode host. none;
  is_ipv4 = λ host. false;
  is_ipv6 = λ host. false;
  received = λ mode. [];
}

abbrev host : Text
host = codes "a.bc"

-- A request that waits for an address.
abbrev inner : Request
inner = record (client 11) { iov = replicate 5 no_iovec }

abbrev query : Query
query = record {
  start_time = 900;
  host = host;
  http = 1 ∷ [];
  https = 2 ∷ [];
  retry_time = 0;
  next_retry = 1100;
  query = [];
}

-- Nothing was asked yet.
abbrev silent : World
silent = record serving_two {
  heap = λ p. if p == 1 then some inner else if p == 2 then some inner else none;
}

-- The query 5 is under way.
abbrev waiting : World
waiting = record silent {
  dns = record idle_dns {
    list = record idle_dns.list {
      queries = update idle_dns.list.queries 5 (some query);
      by_host = update_text idle_dns.list.by_host host (some 5);
      in_progress = 1;
    };
  };
}

abbrev address : Text
address = 0x28 ∷ 0x03 ∷ 0x19 ∷ 0x20 ∷ replicate 12 1

parse_packet-Answers_example :
    Answers net ipv4
      (record {
        buffer =
            reply 5 0x81 0x80 0 0 1 44 (codes "a" ∷ codes "bc" ∷ []) address (replicate 1000 0);
        size = 50;
        source = 8 ∷ 8 ∷ 8 ∷ 8 ∷ [];
      })
      5
      query
      (number_32 0 0 1 44)
      address
      waiting
unfolding is_accepted is_from_server text_eq encode_labels
parse_packet-Answers_example =
    parse_packet-Answers 5 0x81 0x80 0 0 1 44 (codes "a" ∷ codes "bc" ∷ []) address
      (replicate 1000 0) (8 ∷ 8 ∷ 8 ∷ 8 ∷ []) 50 net ipv4 query waiting
      (record {
        id_fits = omega arith;
        flag_bytes = omega arith;
        ttl_bytes = omega arith;
        no_format_error = refl;
        is_answer = refl;
        labels_fit = omega arith;
        short_name = omega arith;
        sixteen = refl;
        whole = omega arith;
      })
      refl refl refl refl (omega arith)
      (record {
        distinct_http = (tt, tt);
        distinct_https = (tt, tt);
        apart = (((λ e. omega arith), tt), tt);
        apart_back = (((λ e. omega arith), tt), tt);
        http = ((inner, refl, omega arith), tt);
        https = ((inner, refl, omega arith), tt);
      })

abbrev bad_packet : Datagram
bad_packet = record {
  buffer = replicate 12 0 ++ (255 ∷ replicate 20 0);
  size = 20;
  source = 1 ∷ 2 ∷ 3 ∷ 4 ∷ [];
}

parse_packet_hangs_example :
    ((n : ℕ) → goes_on (255 ∷ replicate 20 0) 8 (skip_name n (255 ∷ replicate 20 0) 8 0) ≡ true)
    × (parse_packet net ipv4 bad_packet silent ≡ fault endless)
parse_packet_hangs_example = parse_packet_hangs bad_packet (omega arith) refl net ipv4 silent

get_aaaa-joins_example :
    get_aaaa net 3 host true waiting
    ≡ ok (
      true,
      with_list
          (record waiting.dns.list {
            queries =
                update waiting.dns.list.queries 5 (some (record query { https = 2 ∷ 3 ∷ [] }));
          })
          waiting,
    )
unfolding text_eq
get_aaaa-joins_example =
    get_aaaa-joins net 3 host true 5 query waiting
      (record {
        server = record { mode = ipv4; address = 8 ∷ 8 ∷ 8 ∷ 8 ∷ [] };
        servers = [];
        some_server = refl;
        indexed = refl;
        found = refl;
        same_host = refl;
      })
      (omega arith)

abbrev wrong_entry : CacheEntry
wrong_entry = record { address = replicate 16 0; outdated_date = 60; status = wrong }

-- The address of the host is known to be wrong for a minute.
abbrev refused : World
refused = record silent {
  dns = record idle_dns {
    cache = record idle_dns.cache {
      entries = update_text idle_dns.cache.entries host (some wrong_entry);
    };
  };
}

get_aaaa-drops_example :
    (w' : World) × (get_aaaa net 1 host false refused ≡ ok (true, w'))
    × (w'.submitted ≡ refused.submitted)
    × (w'.heap ≡ refused.heap)
    × (w'.dns.list ≡ refused.dns.list)
unfolding text_eq
get_aaaa-drops_example =
    get_aaaa-drops net 1 host false refused (record { mode = ipv4; address = 8 ∷ 8 ∷ 8 ∷ 8 ∷ [] })
      [] wrong_entry refl refl refl (omega arith) refl
