-- ===== src/Dns/Host.antt =====
-- src/Dns.cpp: the host and the port in the path of a request, and the file of hosts.
use cdn_uring.Prelude.{ℕ, ◌+◌, none, some, List, [], ◌∷◌, Option, take, drop, if◌then◌else◌}
use cdn_uring.Prelude.Text.{Text, codes, find, pos_of, npos, add_size, substr}
use cdn_uring.Prelude.Text.Lines.{lines_of, stoi}
use cdn_uring.Prelude.Result.{Result, ok, ◌>>=◌}
use cdn_uring.Dns.State.{DnsState, Net}
use cdn_uring.Dns.Entries.{update_text}
use cdn_uring.Http.Parse.{string_of}
use cdn_uring.World.{Iovec}

-- `host.substr(1)`, up to the next slash.
unfoldable pub host_of : Text → Result Text
host_of url = do
  host ← substr url 1
  ok (elim (find host (codes "/")) [ none ↦ host | some i ↦ take i host ])

-- A host with an IPv4 address: the address and the port.
unfoldable pub split_ipv4 : Text → ℕ → Result (Text × ℕ)
split_ipv4 host port = elim (find host (codes ":")) [
  | none ↦ ok (host, port)
  | some i ↦ (stoi (drop (i + 1) host) >>= λ n. ok (take i host, n))
]

-- A host with an IPv6 address in brackets: the address and the port.
unfoldable pub split_ipv6 : Text → ℕ → Result (Text × ℕ)
split_ipv6 host port = do
  let bracket = pos_of (find host (codes "]"))
  tail ← substr host bracket
  inner ← substr host 1
  let address = take (add_size bracket npos) inner
  elim (find tail (codes ":")) [
    | none ↦ ok (address, port)
    | some i ↦ (stoi (drop (i + 1) tail) >>= λ n. ok (address, n))
  ]

-- The host that the path in a block names.
unfoldable pub url_host : Iovec → Result Text
url_host block = do url ← string_of block; host_of url

-- `insert`: a host that is there keeps its address.
unfoldable pub insert_host : Text → Text → (Text → Option Text) → Text → Option Text
insert_host host ip hosts = elim (hosts host) [
  | none ↦ update_text hosts host (some ip)
  | some old ↦ hosts
]

-- A line of the file: an address, a blank, and the host.
unfoldable pub load_line : Net → Text → DnsState → DnsState
load_line net line dns = elim (find line (codes " ")) [
  | none ↦ dns
  | some i ↦
      let host = drop (i + 1) line in
      let ip = take i line in
      if net.is_ipv4 ip
      then record dns { hosts_ipv4 = insert_host host ip dns.hosts_ipv4 }
      else if net.is_ipv6 ip
      then record dns { hosts_ipv6 = insert_host host ip dns.hosts_ipv6 }
      else dns
]

unfoldable pub load_lines : Net → List Text → DnsState → DnsState
load_lines net [] dns = dns
load_lines net (line ∷ lines) dns = load_lines net lines (load_line net line dns)

-- `Dns::LoadHostFile`: `none` if no file is set, or if it cannot be opened.
unfoldable pub load_host_file : Net → Option Text → DnsState → DnsState
load_host_file net none dns = dns
load_host_file net (some file) dns = load_lines net (lines_of file) dns
