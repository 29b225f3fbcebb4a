-- ===== src/Dns/Right.antt =====
-- src/Dns.cpp: what a request gets when the address of its host is known (`dnsRight`), and when it is not
-- (`dnsError` and `dnsWrong`, which write to the log and do nothing else).
use cdn_uring.Prelude.{ℕ, ◌/◌, ◌%◌, List, [], ◌∷◌, ◌++◌, replicate}
use cdn_uring.Prelude.Text.{Text}
use cdn_uring.Event
use cdn_uring.Dns.State.{Mode, ipv4, ipv6}
use cdn_uring.World.{Ptr, Request, prep_nop}
use cdn_uring.World.Monad.{M, skip, deref, store, submit, element, set_iov, block_of, ◌>>=◌, ◌>>◌}

-- A number of 16 bits in network order.
abbrev pub htons : ℕ → Text
htons n = (n / 256 % 256) ∷ (n % 256) ∷ []

-- `sockaddr_in6` and `sockaddr_in`, as bytes: the family, the port, and the address. What the code leaves
-- unset is read as 0.
unfoldable pub sockaddr : Mode → ℕ → Text → Text
sockaddr ipv6 port address =
    (10 ∷ 0 ∷ []) ++ (htons port ++ (replicate 4 0 ++ (address ++ replicate 4 0)))
sockaddr ipv4 port address = (2 ∷ 0 ∷ []) ++ (htons port ++ (address ++ replicate 8 0))

-- The event that a request waits for once it has its address.
abbrev pub fetch_event : Mode → ℕ
fetch_event ipv6 = Event.http_fetch
fetch_event ipv4 = Event.http_fetch_ipv4

-- The request with its address.
abbrev pub addressed : Mode → ℕ → Text → Request → Request
addressed mode port address r = record (set_iov r 4 (block_of (sockaddr mode port address))) {
  event_type = fetch_event mode;
}

-- `Dns::dnsRight` for one request.
unfoldable pub dns_right : Mode → ℕ → Text → Ptr → M (Unit {0})
dns_right mode port address p = do
  cache ← deref p
  _ ← element cache.iov 4
  store p (addressed mode port address cache)
  submit (prep_nop p)

-- `Dns::dnsRight` for the requests of a vector.
unfoldable pub dns_right_all : ℕ → Text → List Ptr → M (Unit {0})
dns_right_all port address [] = skip
dns_right_all port address (p ∷ requests) = do
  dns_right ipv6 port address p
  dns_right_all port address requests

-- `Dns::dnsError`.
abbrev pub dns_error : M (Unit {0})
dns_error = skip

-- `Dns::dnsWrong`.
abbrev pub dns_wrong : M (Unit {0})
dns_wrong = skip
