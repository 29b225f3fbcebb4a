-- ===== src/Dns/Cached.antt =====
-- src/DnsSeeker.cpp: the requests that wait for a host are answered from the cache of addresses. The same
-- statements stand in `GetAAAA`, `parseEvent` and `checkQueries`.
use cdn_uring.Prelude.{ℕ, ◌+◌, ◌*◌, Bool, true, false, none, some, ltb, if◌then◌else◌, replicate}
use cdn_uring.Prelude.Text.{Text}
use cdn_uring.Dns.State.{StatusEntry, right, CacheEntry, AddressCache, Query}
use cdn_uring.Dns.Entries.{update_text, add_cache_entry, add_cache_entry_failed}
use cdn_uring.Dns.Queries.{remove_query}
use cdn_uring.Dns.Right.{dns_right_all}
use cdn_uring.World.Monad.{M, pure, get_dns, put_dns, run_result, ◌>>=◌, ◌>>◌}

-- An entry that is out of date later than in a day is brought back to a day.
unfoldable pub fix_time_drift : ℕ → CacheEntry → CacheEntry
fix_time_drift now entry =
    let max_time = now + 24 * 3600 in
    if ltb max_time entry.outdated_date then record entry { outdated_date = max_time } else entry

-- A write to an entry that is there.
unfoldable pub set_entry : Text → CacheEntry → AddressCache → AddressCache
set_entry host entry cache = record cache { entries = update_text cache.entries host (some entry) }

unfoldable pub put_entry : Text → CacheEntry → M (Unit {0})
put_entry host entry = do
  dns ← get_dns
  put_dns (record dns { cache = set_entry host entry dns.cache })

abbrev pub is_right : StatusEntry → Bool
is_right right = true
is_right other = false

-- The requests of a query get an address, those of https first.
unfoldable pub https_then_http : Text → Query → M Bool
https_then_http address q = do
  dns_right_all 443 address q.https
  dns_right_all 80 address q.http
  pure true

-- Whether the cache has a right address for the query's requests, which then get it.
unfoldable pub answer_waiting : ℕ → Query → M Bool
answer_waiting now q = do
  dns ← get_dns
  elim (dns.cache.entries q.host) [
    | none ↦ pure false
    | some found ↦
        (put_entry q.host (fix_time_drift now found)
          >> (if is_right found.status then https_then_http found.address q else pure false))
  ]

-- `addCacheEntry` and `addCacheEntryFailed` on the members. A failed entry has the address of all zeros.
unfoldable pub cache_address : ℕ → StatusEntry → ℕ → Text → Text → M (Unit {0})
cache_address now status ttl host address = do
  dns ← get_dns
  put_dns (record dns { cache = add_cache_entry now status ttl host address dns.cache })

abbrev pub no_address : Text
no_address = replicate 16 0

unfoldable pub cache_failure : ℕ → StatusEntry → ℕ → Text → M (Unit {0})
cache_failure now status ttl host = do
  dns ← get_dns
  put_dns (record dns { cache = add_cache_entry_failed now status ttl host no_address dns.cache })

-- `removeQuery(id)` on the members.
unfoldable pub drop_query : ℕ → M (Unit {0})
drop_query id = do
  dns ← get_dns
  list ← run_result (remove_query id true dns.list)
  put_dns (record dns { list = list })
