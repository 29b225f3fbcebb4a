-- ===== src/Dns/State.antt =====
-- src/DnsSeeker.hpp and src/Dns.hpp: the state of the resolver.
use cdn_uring.Prelude.{ℕ, Bool, Option, List}
use cdn_uring.Prelude.Text.{Text}

-- `StatusEntry`.
pub data StatusEntry : Type 0 where
  right wrong error timeout : StatusEntry

-- `CacheAAAAEntry`.
pub record CacheEntry : Type 0 where
  pub address : Text
  pub outdated_date : ℕ
  pub status : StatusEntry

-- `cacheAAAA`, with its size, and `cacheAAAAByOutdatedDate`, where a date that is not there has no hosts.
pub record AddressCache : Type 0 where
  pub entries : Text → Option CacheEntry
  pub size : ℕ
  pub by_outdated_date : ℕ → List Text

-- `Query`: a host, and the requests that wait for its address.
pub record Query : Type 0 where
  pub start_time : ℕ
  pub host : Text
  pub http : List ℕ
  pub https : List ℕ
  pub retry_time : ℕ
  pub next_retry : ℕ
  pub query : Text

-- `queryList`, `queryListByHost`, `queryByNextDueTime` and `httpInProgress`.
pub record QueryList : Type 0 where
  pub queries : ℕ → Option Query
  pub by_host : Text → Option ℕ
  pub by_next_due_time : ℕ → List ℕ
  pub in_progress : ℕ

-- `Mode`: a kind of address, and of socket.
pub data Mode : Type 0 where
  ipv6 ipv4 : Mode

-- `DnsServerEntry`, with the address that goes with its mode.
pub record DnsServer : Type 0 where
  pub mode : Mode
  pub address : Text

-- The members of `DnsSeeker` and the two maps of `Dns`, with the packets that went out, newest first.
pub record DnsState : Type 0 where
  pub cache : AddressCache
  pub list : QueryList
  pub server_list : List DnsServer
  pub increment : ℕ
  pub hosts_ipv4 : Text → Option Text
  pub hosts_ipv6 : Text → Option Text
  pub packets : List (DnsServer × Text)

-- What `recvfrom` puts into the buffer, with the size of the packet and the address it came from.
pub record Datagram : Type 0 where
  pub buffer : Text
  pub size : ℕ
  pub source : Text

-- What the resolver is told from outside: the time in milliseconds, whether a packet to a server is sent
-- whole, what `inet_pton` makes of a text, whether a host matches the two regular expressions, and the
-- packets that wait at each socket.
pub record Net : Type 0 where
  pub now : ℕ
  pub sends : DnsServer → Text → Bool
  pub inet_pton : Mode → Text → Option Text
  pub is_ipv4 : Text → Bool
  pub is_ipv6 : Text → Bool
  pub received : Mode → List Datagram
