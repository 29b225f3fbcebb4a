-- ===== src/Dns/Ask.antt =====
-- src/DnsSeeker.cpp, `GetAAAA` and `cancelClient`: a request asks for the address of a host, and a client
-- that has gone no longer waits for one.
use cdn_uring.Prelude.{
  ℕ, ◌+◌, ◌/◌, ◌==◌, Bool, true, false, ◌&&◌, ◌||◌, none, some, List, [], ◌∷◌, ◌++◌, length, ltb,
  leb, if◌then◌else◌,
}
use cdn_uring.Prelude.Text.{Text, text_eq}
use cdn_uring.Prelude.Result.{aborted, overflow}
use cdn_uring.Dns.State.{
  right, wrong, error, timeout, CacheEntry, Query, QueryList, ipv6, DnsServer, DnsState, Net,
}
use cdn_uring.Dns.Entries.{update_text}
use cdn_uring.Dns.Name.{encode_query}
use cdn_uring.Dns.Queries.{add_query, next_increment}
use cdn_uring.Dns.Right.{dns_right, dns_error, dns_wrong}
use cdn_uring.Dns.Cached.{fix_time_drift, put_entry, cache_failure}
use cdn_uring.World.{Ptr}
use cdn_uring.World.Monad.{M, pure, skip, fail, update, get_dns, put_dns, ◌>>=◌, ◌>>◌}

-- `retryBeforeError` and `resendQueryDNS_ms`.
abbrev pub retry_before_error : ℕ
retry_before_error = 4

abbrev pub resend_query_dns_ms : ℕ
resend_query_dns_ms = 200

abbrev pub seconds : Net → ℕ
seconds net = net.now / 1000

abbrev pub is_cached : DnsState → Text → Bool
is_cached dns host = elim (dns.cache.entries host) [ none ↦ false | some e ↦ true ]

abbrev pub port_of : Bool → ℕ
port_of https = if https then 443 else 80

-- One more request that waits for a query.
unfoldable pub push_request : Bool → Ptr → Query → Query
push_request https p q =
    if https
    then record q { https = q.https ++ (p ∷ []) }
    else record q { http = q.http ++ (p ∷ []) }

abbrev pub set_query : ℕ → Query → QueryList → QueryList
set_query id q list = record list { queries = update list.queries id (some q) }

abbrev pub forget_host : Text → QueryList → QueryList
forget_host host list = record list { by_host = update_text list.by_host host none }

abbrev pub put_list : DnsState → QueryList → M (Unit {0})
put_list dns list = put_dns (record dns { list = list })

-- A query for the host is under way: the request joins it, unless it has failed so often that the cache
-- must do. `next` goes on, and is told whether to take an entry that is out of date.
unfoldable pub join_query : Ptr → Text → Bool → DnsState → ℕ → Query → (Bool → M Bool) → M Bool
join_query p host https dns id q next =
    if text_eq q.host host
    then (if leb retry_before_error q.retry_time && is_cached dns host
        then next true
        else (put_list dns (set_query id (push_request https p q) dns.list) >> pure true))
    else (put_list dns (forget_host host dns.list) >> next false)

-- The first part of `GetAAAA`.
unfoldable pub look_for_query : Ptr → Text → Bool → DnsState → (Bool → M Bool) → M Bool
look_for_query p host https dns next = elim (dns.list.by_host host) [
  | none ↦ next false
  | some id ↦ elim (dns.list.queries id) [
    | none ↦ (put_list dns (forget_host host dns.list) >> next false)
    | some q ↦ join_query p host https dns id q next
  ]
]

-- The `switch` over the status of an entry.
unfoldable pub answer_one : Ptr → Bool → CacheEntry → M (Unit {0})
answer_one p https entry = elim entry.status [
  | right ↦ dns_right ipv6 (port_of https) entry.address p
  | wrong ↦ dns_wrong
  | error ↦ dns_error
  | timeout ↦ dns_wrong
]

-- The second part: an entry that is still good, or must do, answers the request.
unfoldable pub look_in_cache : Net → Ptr → Text → Bool → M Bool → Bool → M Bool
look_in_cache net p host https next force_cache = do
  dns ← get_dns
  elim (dns.cache.entries host) [
    | none ↦ next
    | some entry ↦
        if ltb (seconds net) entry.outdated_date || force_cache
        then (do
          put_entry host (fix_time_drift (seconds net) entry)
          answer_one p https entry
          pure true)
        else next
  ]

-- The packets that go out when a query is sent to each server, after those that have gone out before.
unfoldable pub send_all :
    Net → Text → List DnsServer → List (DnsServer × Text) → List (DnsServer × Text)
send_all net query [] packets = packets
send_all net query (server ∷ servers) packets =
    send_all net query servers
      (if net.sends server query then (server, query) ∷ packets else packets)

-- Whether one of the servers was sent the query.
unfoldable pub is_sent : Net → Text → List DnsServer → Bool
is_sent net query [] = false
is_sent net query (server ∷ servers) = net.sends server query || is_sent net query servers

abbrev pub fail_query : Net → Text → M Bool
fail_query net host = do dns_error; cache_failure (seconds net) timeout 30 host; pure false

-- No server was sent the query.
unfoldable pub not_sent : Net → Ptr → Text → Bool → M Bool
not_sent net p host https = do
  dns ← get_dns
  elim (dns.cache.entries host) [
    | none ↦ fail_query net host
    | some entry ↦ (do
      put_entry host (fix_time_drift (seconds net) entry)
      elim entry.status [
        | right ↦ (dns_right ipv6 (port_of https) entry.address p >> pure true)
        | other ↦ fail_query net host
      ])
  ]

-- The query that is put into the list.
unfoldable pub new_query : Net → Ptr → Text → Bool → Text → Query
unfolding push_request
new_query net p host https packet = push_request https p (record {
  start_time = net.now;
  host = host;
  http = [];
  https = [];
  retry_time = 0;
  next_retry = net.now + resend_query_dns_ms;
  query = packet;
})

-- The third part: a new query is written into a buffer of 4096 bytes and sent to all servers.
unfoldable pub send_query : Net → Ptr → Text → Bool → M Bool
send_query net p host https = do
  dns ← get_dns
  let packet = encode_query dns.increment host
  if ltb 4096 (length packet) then fail overflow else skip
  put_dns (record dns {
    increment = next_increment dns.increment;
    packets = send_all net packet dns.server_list dns.packets;
  })
  if is_sent net packet dns.server_list
      then (do
        sent ← get_dns
        put_list sent (add_query dns.increment (new_query net p host https packet) sent.list)
        pure true)
      else not_sent net p host https

unfoldable pub ask_servers : Net → Ptr → Text → Bool → M Bool
ask_servers net p host https = do
  dns ← get_dns
  if ltb 1000 dns.list.in_progress then pure false else send_query net p host https

-- `DnsSeeker::GetAAAA`: false if the request was not taken.
unfoldable pub get_aaaa : Net → Ptr → Text → Bool → M Bool
get_aaaa net p host https = do
  dns ← get_dns
  elim dns.server_list [
    | [] ↦ fail aborted
    | server ∷ servers ↦
        look_for_query p host https dns
          (look_in_cache net p host https (ask_servers net p host https))
  ]

-- A request is taken out of a vector, where it stands first.
unfoldable pub erase_client : Ptr → List Ptr → List Ptr
erase_client p [] = []
erase_client p (c ∷ clients) =
    let rest = erase_client p clients in if p == c then clients else c ∷ rest

unfoldable pub without_client : Ptr → Bool → Query → Query
without_client p https q =
    if https
    then record q { https = erase_client p q.https }
    else record q { http = erase_client p q.http }

-- `DnsSeeker::cancelClient`.
unfoldable pub cancel_client : Ptr → Text → Bool → Bool → M (Unit {0})
cancel_client p host https ignore_not_found = do
  dns ← get_dns
  elim (dns.list.by_host host) [
    | none ↦ if ignore_not_found then skip else fail aborted
    | some id ↦ elim (dns.list.queries id) [
      | none ↦ fail aborted
      | some q ↦ put_list dns (set_query id (without_client p https q) dns.list)
    ]
  ]
