-- ===== src/Dns/Tests.antt =====
-- src/DnsSeeker.cpp on small packets, caches and lists.
use cdn_uring.Prelude.{zero, suc, ◌+◌, ◌≡◌, refl, true, none, [], ◌∷◌, ◌++◌, length, arith}
use cdn_uring.Prelude.Text.{Text, codes}
use cdn_uring.Prelude.Result.{ok}
use cdn_uring.Dns.Reader.{IsBytes}
use cdn_uring.Dns.Name.{encode_labels, skip_name, skip_name-encode_labels}
use cdn_uring.Dns.State.{AddressCache, right, Query, QueryList}
use cdn_uring.Dns.Entries.{Caches, add_cache_entry, add_cache_entry-Caches}
use cdn_uring.Dns.Queries.{add_query, remove_query, remove_query-add_query}

abbrev packet : Text
packet = 1 ∷ 2 ∷ 3 ∷ 4 ∷ []

packet-IsBytes : IsBytes packet
packet-IsBytes zero = omega arith
packet-IsBytes (suc zero) = omega arith
packet-IsBytes (suc (suc zero)) = omega arith
packet-IsBytes (suc (suc (suc zero))) = omega arith
packet-IsBytes (suc (suc (suc (suc i)))) = omega arith

-- The name `a.bc`, as in a query.
skip_name-encode_labels_example :
    skip_name 9 (encode_labels (codes "a" ∷ codes "bc" ∷ []) ++ codes "zz") 10 0 + 1
    ≡ length (encode_labels (codes "a" ∷ codes "bc" ∷ []))
unfolding encode_labels
skip_name-encode_labels_example =
    skip_name-encode_labels (codes "a" ∷ codes "bc" ∷ []) (codes "zz") 9 10 (omega arith)
      (omega arith) (omega arith) (omega arith)

abbrev no_addresses : AddressCache
no_addresses = record { entries = λ host. none; size = 0; by_outdated_date = λ date. [] }

add_cache_entry-Caches_example :
    Caches 1000
      (codes "a.bc")
      (codes "address")
      no_addresses
      (add_cache_entry 1000 right 60 (codes "a.bc") (codes "address") no_addresses)
add_cache_entry-Caches_example =
    add_cache_entry-Caches 1000 60 right (codes "a.bc") (codes "address") no_addresses (omega arith)

abbrev query : Query
query = record {
  start_time = 1000;
  host = codes "a.bc";
  http = 3 ∷ [];
  https = [];
  retry_time = 0;
  next_retry = 1200;
  query = [];
}

abbrev no_queries : QueryList
no_queries = record {
  queries = λ id. none;
  by_host = λ host. none;
  by_next_due_time = λ t. [];
  in_progress = 0;
}

remove_query-add_query_example : remove_query 5 true (add_query 5 query no_queries) ≡ ok no_queries
remove_query-add_query_example =
    remove_query-add_query 5 query no_queries refl (λ q e. refl) refl (omega arith)
