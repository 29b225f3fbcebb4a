-- ===== src/Dns/Fetch.antt =====
-- src/Dns.cpp: the address of the host that a request names, from the file of hosts, from the host itself,
-- or from the resolver; and the check of the resolver's sockets.
use cdn_uring.Prelude.{ℕ, Bool, none, some, if◌then◌else◌}
use cdn_uring.Prelude.Text.{Text}
use cdn_uring.Prelude.Result.{Result, ok, fault}
use cdn_uring.Dns.State.{Mode, ipv6, ipv4, DnsState, Net}
use cdn_uring.Dns.Right.{dns_right, dns_error}
use cdn_uring.Dns.Ask.{get_aaaa, port_of}
use cdn_uring.Dns.Receive.{parse_event}
use cdn_uring.Dns.Host.{split_ipv4, split_ipv6, url_host}
use cdn_uring.World.{Ptr, prep_timeout}
use cdn_uring.World.Monad.{M, skip, fail, run_result, deref, element, submit, get_dns, ◌>>=◌, ◌>>◌}

-- `inet_pton`, and `dnsRight` with what it returns.
unfoldable pub give_address : Net → Mode → Ptr → ℕ → Text → M (Unit {0})
give_address net mode p port host = elim (net.inet_pton mode host) [
  | none ↦ dns_error
  | some address ↦ dns_right mode port address p
]

unfoldable pub give_parts : Net → Mode → Ptr → Result (Text × ℕ) → M (Unit {0})
give_parts net mode p (ok (host, port)) = give_address net mode p port host
give_parts net mode p (fault e) = fail e

-- A host that is not in the file.
unfoldable pub fetch_host : Net → Bool → Ptr → Text → M (Unit {0})
fetch_host net is_https p host =
    if net.is_ipv4 host
    then give_parts net ipv4 p (split_ipv4 host (port_of is_https))
    else if net.is_ipv6 host
    then give_parts net ipv6 p (split_ipv6 host (port_of is_https))
    else (get_aaaa net p host is_https >>= λ taken. skip)

-- The file of hosts is looked into first. For an IPv6 address the host is parsed, not the address.
unfoldable pub look_in_hosts : Net → Bool → Ptr → Text → DnsState → M (Unit {0})
look_in_hosts net is_https p host dns = elim (dns.hosts_ipv4 host) [
  | some ip ↦ give_address net ipv4 p (port_of is_https) ip
  | none ↦ elim (dns.hosts_ipv6 host) [
    | some ip ↦ give_address net ipv6 p (port_of is_https) host
    | none ↦ fetch_host net is_https p host
  ]
]

-- `Dns::AddFetchAAAARequest`.
unfoldable pub add_fetch_aaaa_request : Net → Bool → Ptr → M (Unit {0})
add_fetch_aaaa_request net is_https p = do
  request ← deref p
  path ← element request.iov 2
  host ← run_result (url_host path)
  dns ← get_dns
  look_in_hosts net is_https p host dns

-- `Dns::HandleVerifyUDP`.
unfoldable pub handle_verify_udp : Net → M (Unit {0})
handle_verify_udp net = do
  parse_event net ipv4 (net.received ipv4)
  parse_event net ipv6 (net.received ipv6)

-- `Dns::AddVerifyUDPRequest`: the request comes back in 50 ms.
unfoldable pub add_verify_udp_request : Ptr → M (Unit {0})
add_verify_udp_request p = submit (prep_timeout 50 p)
