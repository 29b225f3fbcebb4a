-- ===== src/Dns/Asking.antt =====
-- src/DnsSeeker.cpp, `GetAAAA`: what becomes of a request for the address of a host.
use cdn_uring.Prelude.{
  ℕ, ◌+◌, ◌≤◌, ◌<◌, ◌≡◌, ◌≢◌, refl, Bool, true, false, none, some, List, [], ◌∷◌, ◌++◌, length, ltb,
  if◌then◌else◌, arith,
}
use cdn_uring.Prelude.Text.{Text, text_eq}
use cdn_uring.Prelude.Result.{ok}
use cdn_uring.Dns.State.{CacheEntry, Query, QueryList, DnsServer, Net}
use cdn_uring.Dns.Name.{encode_query}
use cdn_uring.Dns.Queries.{add_query, next_increment}
use cdn_uring.Dns.Ask.{
  retry_before_error, seconds, push_request, join_query, look_for_query, look_in_cache, send_all,
  answer_one, new_query, get_aaaa,
}
use cdn_uring.Dns.Cached.{is_right, put_entry, set_entry, fix_time_drift}
use cdn_uring.World.{Ptr, World}
use cdn_uring.World.Monad.{get_dns, put_dns, update}

abbrev pub with_list : QueryList → World → World
with_list list w = record w { dns = record w.dns { list = list } }

-- A query for the host is under way.
pub record IsAsked (w : World) (host : Text) (id : ℕ) (q : Query) : Type 0 where
  pub server : DnsServer
  pub servers : List DnsServer
  pub some_server : w.dns.server_list ≡ server ∷ servers
  pub indexed : w.dns.list.by_host host ≡ some id
  pub found : w.dns.list.queries id ≡ some q
  pub same_host : text_eq q.host host ≡ true

-- A request for a host that is asked for already, where the query has not failed four times yet: the query
-- keeps those that wait for it, and the request is the last of those that wait with its own scheme, https or
-- http; no packet goes out, and nothing else changes.
pub get_aaaa-joins :
    (net : Net) (p : Ptr) (host : Text) (https : Bool) (id : ℕ) (q : Query) (w : World)
    → IsAsked w host id q
    → q.retry_time < retry_before_error
    → get_aaaa net p host https w
      ≡ ok (
        true,
        with_list
            (record w.dns.list {
              queries = update w.dns.list.queries id (
                  some (
                    if https
                    then record q { https = q.https ++ (p ∷ []) }
                    else record q { http = q.http ++ (p ∷ []) }));
            })
            w,
      )
unfolding get_aaaa get_dns put_dns look_for_query join_query push_request
get_aaaa-joins net p host https id q w a few = ground arith

-- Nobody has asked for the host, and its address is not known.
pub record IsNew (w : World) (host : Text) : Type 0 where
  pub server : DnsServer
  pub servers : List DnsServer
  pub some_server : w.dns.server_list ≡ server ∷ servers
  pub unasked : w.dns.list.by_host host ≡ none
  pub unknown : w.dns.cache.entries host ≡ none
  pub room : w.dns.list.in_progress ≤ 1000
  pub short : length (encode_query w.dns.increment host) ≤ 4096

-- The packets for the servers that can be sent the query, in the order of the servers.
unfoldable pub reached : Net → Text → List DnsServer → List (DnsServer × Text)
reached net packet [] = []
reached net packet (server ∷ servers) =
    let rest = reached net packet servers in
    if net.sends server packet then (server, packet) ∷ rest else rest

-- What has gone out since, before what had gone out, newest first.
abbrev pub newest_first {ℓ} : {A : Type ℓ} → List A → List A → List A
newest_first [] old = old
newest_first (x ∷ xs) old = newest_first xs (x ∷ old)

-- The first request for a host: `packet` is what the servers are sent.
pub record Asks (net : Net) (p : Ptr) (host : Text) (https : Bool) (packet : Text) (w : World)
    : Type 0 where
  pub after : World
  pub returns : get_aaaa net p host https w ≡ ok (true, after)
  pub sends : after.dns.packets ≡ newest_first (reached net packet w.dns.server_list) w.dns.packets
  pub waits :
      after.dns.list.queries w.dns.increment
      ≡ some (record {
        start_time = net.now;
        host = host;
        http = if https then [] else p ∷ [];
        https = if https then p ∷ [] else [];
        retry_time = 0;
        next_retry = net.now + 200;
        query = packet;
      })
  pub indexed : after.dns.list.by_host host ≡ some w.dns.increment
  pub due :
      after.dns.list.by_next_due_time (net.now + 200)
      ≡ w.dns.list.by_next_due_time (net.now + 200) ++ (w.dns.increment ∷ [])
  pub counted : after.dns.list.in_progress ≡ w.dns.list.in_progress + 1
  pub next_number :
      after.dns.increment ≡ (if ltb 65534 (w.dns.increment + 1) then 1 else w.dns.increment + 1)
  pub other_queries :
      (j : ℕ) → w.dns.increment ≢ j → after.dns.list.queries j ≡ w.dns.list.queries j
  pub other_hosts :
      (h : Text) → text_eq host h ≡ false → after.dns.list.by_host h ≡ w.dns.list.by_host h
  pub same_cache : after.dns.cache ≡ w.dns.cache
  pub same_heap : after.heap ≡ w.heap
  pub same_submitted : after.submitted ≡ w.submitted

abbrev asked : Net → Ptr → Text → Bool → World → World
asked net p host https w =
    let packet = encode_query w.dns.increment host in
    record w {
      dns = record w.dns {
        increment = next_increment w.dns.increment;
        packets = send_all net packet w.dns.server_list w.dns.packets;
        list = add_query w.dns.increment (new_query net p host https packet) w.dns.list;
      };
    }

-- The address of the host is known to be wrong or could not be had lately: the request is taken, and no
-- one is told, neither the ring nor the request.
pub get_aaaa-drops :
    (net : Net) (p : Ptr) (host : Text) (https : Bool) (w : World) (server : DnsServer)
    (servers : List DnsServer) (entry : CacheEntry)
    → w.dns.server_list ≡ server ∷ servers
    → w.dns.list.by_host host ≡ none
    → w.dns.cache.entries host ≡ some entry
    → seconds net < entry.outdated_date
    → is_right entry.status ≡ false
    → (w' : World) × (get_aaaa net p host https w ≡ ok (true, w'))
      × (w'.submitted ≡ w.submitted)
      × (w'.heap ≡ w.heap)
      × (w'.dns.list ≡ w.dns.list)
unfolding get_aaaa get_dns put_dns look_for_query look_in_cache answer_one put_entry
get_aaaa-drops net p host https w server servers entry some_server unasked known fresh bad = (
  record w {
    dns = record w.dns { cache = set_entry host (fix_time_drift (seconds net) entry) w.dns.cache };
  },
  ground arith,
  refl,
  refl,
  refl,
)
