-- ===== src/Dns/Entries.antt =====
-- src/DnsSeeker.cpp: the cache of addresses, and the index of it by the time when they go out of date.
use cdn_uring.Prelude.{
  ℕ, ◌+◌, ◌*◌, ◌≤◌, ◌≡◌, refl, true, false, Option, none, some, List, [], ◌∷◌, ◌++◌, ltb, arith,
  if◌then◌else◌, ==_refl,
}
use cdn_uring.Prelude.Text.{Text, text_eq}
use cdn_uring.Dns.State.{StatusEntry, right, wrong, error, timeout, CacheEntry, AddressCache}
use cdn_uring.World.Monad.{update}
use cdn_uring.World.Laws.{update_self}

-- A map whose keys are texts, with one entry set.
abbrev pub update_text {ℓ} : {A : Type ℓ} → (Text → A) → Text → A → Text → A
update_text f key v q = if text_eq key q then v else f q

-- Take a host out of a list, the first time that it is there.
unfoldable pub erase_host : Text → List Text → List Text
erase_host host [] = []
erase_host host (h ∷ hosts) =
    let rest = erase_host host hosts in if text_eq h host then hosts else h ∷ rest

-- When an address that came at `now` is out of date: after five minutes to a day if it is right, and
-- after ten seconds to ten minutes if not.
unfoldable pub outdated_at : ℕ → StatusEntry → ℕ → ℕ
outdated_at now right ttl =
    if ltb ttl (5 * 60)
    then now + 5 * 60
    else if ltb ttl (24 * 3600)
    then now + ttl
    else now + 24 * 3600
outdated_at now status ttl =
    if ltb ttl 10 then now + 10 else if ltb ttl 600 then now + ttl else now + 600

-- The index without the host's old entry.
unfoldable pub unindex : Text → Option CacheEntry → (ℕ → List Text) → ℕ → List Text
unindex host none index = index
unindex host (some e) index = update index e.outdated_date (erase_host host (index e.outdated_date))

abbrev count_new : Option CacheEntry → ℕ → ℕ
count_new none size = size + 1
count_new (some e) size = size

-- `DnsSeeker::addCacheEntry` at the time `now`.
unfoldable pub add_cache_entry : ℕ → StatusEntry → ℕ → Text → Text → AddressCache → AddressCache
add_cache_entry now status ttl host address cache =
    if ltb 120000 cache.size
    then cache
    else let date = outdated_at now status ttl in
      let index = unindex host (cache.entries host) cache.by_outdated_date in
      record {
        entries =
            update_text cache.entries host
              (some (record { address = address; outdated_date = date; status = status }));
        size = count_new (cache.entries host) cache.size;
        by_outdated_date = update index date (index date ++ (host ∷ []));
      }

-- `DnsSeeker::addCacheEntryFailed`: try again after ten minutes at most.
unfoldable pub add_cache_entry_failed :
    ℕ → StatusEntry → ℕ → Text → Text → AddressCache → AddressCache
add_cache_entry_failed now status ttl host no_address cache =
    if ltb ttl 600
    then add_cache_entry now status ttl host no_address cache
    else add_cache_entry now status 600 host no_address cache

-- `DnsSeeker::GetEntry`.
unfoldable pub get_entry : Text → AddressCache → Option Text
get_entry host cache = elim (cache.entries host) [ none ↦ none | some e ↦ some e.address ]

pub text_eq_refl : (s : Text) → text_eq s s ≡ true
unfolding text_eq
text_eq_refl [] = refl
text_eq_refl (c ∷ s) = rw (==_refl c, text_eq_refl s)

-- What a new entry for a host does to the cache.
pub record Caches (now : ℕ) (host address : Text) (cache after : AddressCache) : Type 0 where
  pub entry : CacheEntry
  pub found : after.entries host ≡ some entry
  pub looked_up : get_entry host after ≡ some address
  pub soonest : now + 10 ≤ entry.outdated_date
  pub latest : entry.outdated_date ≤ now + 86400
  pub indexed :
      (earlier : List Text) × (after.by_outdated_date entry.outdated_date ≡ earlier ++ (host ∷ []))
  pub others : (q : Text) → text_eq host q ≡ false → after.entries q ≡ cache.entries q

outdated_at_bounds :
    (now ttl : ℕ) (status : StatusEntry)
    → (now + 10 ≤ outdated_at now status ttl) × (outdated_at now status ttl ≤ now + 86400)
unfolding outdated_at
outdated_at_bounds now ttl right = ground arith
outdated_at_bounds now ttl wrong = ground arith
outdated_at_bounds now ttl error = ground arith
outdated_at_bounds now ttl timeout = ground arith

-- An address that is put into a cache with room is the one that is found; it goes out of date after at
-- least ten seconds and at most a day, and the index lists it last under that time; no other host's
-- entry changes.
pub add_cache_entry-Caches :
    (now ttl : ℕ) (status : StatusEntry) (host address : Text) (cache : AddressCache)
    → cache.size ≤ 120000
    → Caches now host address cache (add_cache_entry now status ttl host address cache)
unfolding add_cache_entry get_entry
add_cache_entry-Caches now ttl status host address cache room =
    let fits : ltb 120000 cache.size ≡ false = ground (arith, room) in
    record {
      entry = record {
        address = address;
        outdated_date = outdated_at now status ttl;
        status = status;
      };
      found = rw (fits, add_cache_entry) (rw (text_eq_refl host));
      looked_up = rw (fits, add_cache_entry) (rw (text_eq_refl host, get_entry));
      indexed = (
        unindex host (cache.entries host) cache.by_outdated_date (outdated_at now status ttl),
        rw (fits, add_cache_entry)
            (update_self (unindex host (cache.entries host) cache.by_outdated_date)
              (outdated_at now status ttl) _),
      );
      soonest = (outdated_at_bounds now ttl status).0;
      latest = (outdated_at_bounds now ttl status).1;
      others = λ q ne. rw (fits, add_cache_entry) (rw ne);
    }
