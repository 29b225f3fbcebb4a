-- ===== src/Dns/Answer.antt =====
-- src/DnsSeeker.cpp: what an address that has come does to the requests that wait for it.
use mathlib.Core.Option
use cdn_uring.Prelude.{ℕ, ◌≡◌, ◌≢◌, ◌∙◌, refl, ap, true, some}
use cdn_uring.Prelude.Text.{Text}
use cdn_uring.Prelude.Result.{ok}
use cdn_uring.Dns.State.{right, Query, DnsState, Net}
use cdn_uring.Dns.Entries.{add_cache_entry}
use cdn_uring.Dns.Queries.{remove_query, remove_found}
use cdn_uring.Dns.Cached.{cache_address, drop_query}
use cdn_uring.Dns.Ask.{seconds}
use cdn_uring.Dns.Receive.{is_accepted, flush_address}
use cdn_uring.Dns.Deliver.{
  Waiting, with_address, nop_for, give, run_all-Waiting, dns_right_all-ok, run_all-dns, written,
  submitted-run_all,
}
use cdn_uring.Stream.Loop.{All, All-zip, Distinct, run_all}
use cdn_uring.Stream.Each.{Changed, run_all-Changed}
use cdn_uring.World.{Ptr, World}
use cdn_uring.World.Monad.{get_dns, put_dns, ◌>>=◌}

-- The requests of a query wait, no request twice.
pub record AreWaiting (w : World) (q : Query) : Type 0 where
  pub distinct_http : Distinct q.http
  pub distinct_https : Distinct q.https
  pub apart : All (λ p. All (λ r. p ≢ r) q.https) q.http
  pub apart_back : All (λ p. All (λ r. p ≢ r) q.http) q.https
  pub http : All (Waiting w) q.http
  pub https : All (Waiting w) q.https

-- Each request of a query has the address, with the port of its kind, and has been handed to the ring
-- once, in order; nothing else has changed but what the resolver keeps.
pub record Delivers (q : Query) (address : Text) (w after : World) : Type 0 where
  pub http : All (λ p. after.heap p ≡ Option.map (with_address 80 address p) (w.heap p)) q.http
  pub https : All (λ p. after.heap p ≡ Option.map (with_address 443 address p) (w.heap p)) q.https
  pub others :
      (p : Ptr) → All (λ r. p ≢ r) q.http → All (λ r. p ≢ r) q.https → after.heap p ≡ w.heap p
  pub submitted : after.submitted ≡ written q.https (written q.http w.submitted)
  pub resources : after.resources ≡ w.resources

-- Requests that both lists get, one list after the other.
module _ (q : Query) (address : Text) (w : World) where
  abbrev pub first : World
  first = run_all (give 80 address) q.http w

  abbrev pub second : World
  second = run_all (give 443 address) q.https first

  module _ (h : AreWaiting w q) where
    one : Changed (with_address 80 address) nop_for q.http w first
    one = run_all-Changed (with_address 80 address) nop_for q.http w h.distinct_http

    two : Changed (with_address 443 address) nop_for q.https first second
    two = run_all-Changed (with_address 443 address) nop_for q.https first h.distinct_https

    still : All (Waiting first) q.https
    still = All-zip q.https (run_all-Waiting 80 address q.http w) h.apart_back h.https

    second-Delivers : Delivers q address w second
    second-Delivers = record {
      http = All-zip q.http (λ p ne e. two.others p ne ∙ e) h.apart one.clients;
      https =
          All-zip q.https
            (λ p ne e. e ∙ ap (Option.map (with_address 443 address p)) (one.others p ne))
            h.apart_back two.clients;
      others = λ p n m. two.others p m ∙ one.others p n;
      submitted =
          submitted-run_all 443 address q.https first h.distinct_https still
          ∙ ap (written q.https) (submitted-run_all 80 address q.http w h.distinct_http h.http);
      resources = two.resources ∙ one.resources;
    }

    second-dns : second.dns ≡ w.dns
    second-dns = run_all-dns 443 address q.https first ∙ run_all-dns 80 address q.http w

-- What the resolver keeps once an address has come for the query `id`.
abbrev pub answered : Net → ℕ → Query → ℕ → Text → DnsState → DnsState
answered net id q ttl address dns = record dns {
  cache = add_cache_entry (seconds net) right ttl q.host address dns.cache;
  list = remove_found id q true dns.list;
}

module _ (net : Net) (id : ℕ) (q : Query) (ttl : ℕ) (address : Text) (w : World) where
  abbrev pub cached : World
  cached = record w {
    dns = record w.dns {
      cache = add_cache_entry (seconds net) right ttl q.host address w.dns.cache;
    };
  }

  abbrev pub after : World
  after = record (second q address cached) { dns = answered net id q ttl address w.dns }

  module _ (h : AreWaiting w q) where
    waiting_cached : AreWaiting cached q
    waiting_cached = record {
      distinct_http = h.distinct_http;
      distinct_https = h.distinct_https;
      apart = h.apart;
      apart_back = h.apart_back;
      http = h.http;
      https = h.https;
    }

    pub after-Delivers : Delivers q address w after
    after-Delivers =
        let d : Delivers q address cached (second q address cached) =
          second-Delivers q address cached waiting_cached in
        record {
          http = d.http;
          https = d.https;
          others = d.others;
          submitted = d.submitted;
          resources = d.resources;
        }

    module _ (accepted : is_accepted address ≡ true) (asked : w.dns.list.queries id ≡ some q) where
      drop_query-ok : drop_query id (second q address cached) ≡ ok (tt, after)
      unfolding drop_query get_dns put_dns remove_query
      drop_query-ok =
          rw (second-dns q address cached waiting_cached) (rw (asked, remove_query) refl)

      pub flush_address-ok : flush_address net id q ttl address w ≡ ok (tt, after)
      unfolding flush_address cache_address get_dns put_dns
      flush_address-ok = rw accepted (
          rw (dns_right_all-ok 80 address q.http cached h.distinct_http h.http, ◌>>=◌)
            (rw
              (
                dns_right_all-ok 443 address q.https (first q address cached) h.distinct_https
                    (still q address cached waiting_cached),
                ◌>>=◌,
              )
              drop_query-ok))
