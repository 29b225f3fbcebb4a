-- ===== src/Dns/Receive.antt =====
-- src/DnsSeeker.cpp, `parseEvent`: the packets that have come from the servers.
use Prim.Native.Nat.{bit_and}
use cdn_uring.Prelude.{
  ℕ, zero, suc, ◌+◌, ◌-◌, ◌==◌, Bool, true, false, not, ◌&&◌, ◌||◌, Option, none, some, List, [],
  ◌∷◌, length, get_or, drop, take, ltb, leb, if◌then◌else◌,
}
use cdn_uring.Prelude.Text.{Text, text_eq}
use cdn_uring.Prelude.Result.{endless, past_end}
use cdn_uring.Dns.State.{
  right, wrong, error, Query, Mode, ipv6, ipv4, DnsServer, DnsState, Datagram, Net,
}
use cdn_uring.Dns.Reader.{can_add_to_pos, read_16bits, read_16bits_raw, read_32bits}
use cdn_uring.Dns.Name.{skip_name}
use cdn_uring.Dns.Right.{dns_right_all, dns_error, dns_wrong}
use cdn_uring.Dns.Cached.{answer_waiting, cache_address, cache_failure, drop_query}
use cdn_uring.Dns.Ask.{seconds}
use cdn_uring.World.Monad.{M, pure, skip, fail, get_dns, put_dns, ◌>>=◌, ◌>>◌}

-- A number is read, or the function returns; the place of a step that may fail is kept if it fails.
abbrev pub reading : Option (ℕ × ℕ) → (ℕ → ℕ → M Bool) → M Bool
reading none next = pure false
reading (some (n, pos)) next = next n pos

abbrev pub moving : Option ℕ → (ℕ → M Bool) → M Bool
moving none next = pure false
moving (some pos) next = next pos

abbrev pub or_stay : ℕ → Option ℕ → ℕ
or_stay pos none = pos
or_stay pos (some next) = next

-- The 16 bytes of an address, which `parseEvent` does not compare with the size of the packet.
unfoldable pub address_at : Text → ℕ → M Text
address_at buffer pos =
    if leb (pos + 16) (length buffer) then pure (take 16 (drop pos buffer)) else fail past_end

-- The addresses that the server connects to: `include` at the start, and not `exclude`.
abbrev pub include : Text
include = 0x28 ∷ 0x03 ∷ 0x19 ∷ 0x20 ∷ []

abbrev pub exclude : Text
exclude =
    0x28 ∷ 0x03 ∷ 0x19 ∷ 0x20 ∷ 0x00 ∷ 0x00 ∷ 0x00 ∷ 0x00 ∷ 0xb4 ∷ 0xb2 ∷ 0x5f ∷ 0x61 ∷ 0xd3 ∷ 0x7f
    ∷ []

unfoldable pub is_accepted : Text → Bool
is_accepted address = text_eq (take 4 address) include && not (text_eq (take 14 address) exclude)

-- The requests of a query are answered from the cache; if it has nothing for them, `otherwise` is done;
-- then the query is removed.
unfoldable pub flush_cached : Net → ℕ → Query → M (Unit {0}) → M (Unit {0})
flush_cached net id q otherwise = do
  found ← answer_waiting (seconds net) q
  if found then skip else otherwise
  drop_query id

-- No address among the answers.
unfoldable pub flush_error : Net → ℕ → Query → M (Unit {0})
flush_error net id q =
    flush_cached net id q (do cache_failure (seconds net) error 300 q.host; dns_error)

-- An address has come: the requests of http get it before those of https.
unfoldable pub flush_address : Net → ℕ → Query → ℕ → Text → M (Unit {0})
flush_address net id q ttl address =
    if is_accepted address
    then (do
      cache_address (seconds net) right ttl q.host address
      dns_right_all 80 address q.http
      dns_right_all 443 address q.https
      drop_query id)
    else (do cache_address (seconds net) wrong ttl q.host address; dns_wrong; drop_query id)

abbrev pub unless_flushed : Bool → M (Unit {0}) → M (Unit {0})
unless_flushed flushed action = if flushed then skip else action

-- An answer of type AAAA, behind its type: `next` is the rest of the loop, from a place on. The place
-- stays at the address.
unfoldable pub answer_aaaa : Net → ℕ → Query → Datagram → Bool → ℕ → (Bool → ℕ → M Bool) → M Bool
answer_aaaa net id q d flushed pos next = reading (read_16bits d.buffer d.size pos) λ class_in pos.
    if not (class_in == 1)
    then next flushed pos
    else reading (read_32bits d.buffer d.size pos) λ ttl pos.
      reading (read_16bits d.buffer d.size pos) λ data_size pos.
        if not (data_size == 16) then pure false else (do
          address ← address_at d.buffer pos
          unless_flushed flushed (flush_address net id q ttl address)
          next true pos)

-- An answer of any other type is skipped.
unfoldable pub answer_other : Datagram → Bool → ℕ → (Bool → ℕ → M Bool) → M Bool
answer_other d flushed pos next =
    reading (read_16bits d.buffer d.size (or_stay pos (can_add_to_pos 6 d.size pos)))
      λ data_size pos. next flushed (or_stay pos (can_add_to_pos data_size d.size pos))

-- An answer behind its name. If the type cannot be read, it is 0.
unfoldable pub by_type :
    Net → ℕ → Query → Datagram → Bool → (Bool → ℕ → M Bool) → ℕ → Option (ℕ × ℕ) → M Bool
by_type net id q d flushed next pos none = do
  unless_flushed flushed (flush_error net id q)
  answer_other d true pos next
by_type net id q d flushed next pos (some (type, after)) =
    if type == 0x1c
    then answer_aaaa net id q d flushed after next
    else answer_other d flushed after next

-- The body of the loop over the answers.
unfoldable pub one_answer : Net → ℕ → Query → Datagram → Bool → ℕ → (Bool → ℕ → M Bool) → M Bool
one_answer net id q d flushed pos next =
    reading (read_16bits d.buffer d.size pos)
      λ a_name pos. by_type net id q d flushed next pos (read_16bits d.buffer d.size pos)

-- The loop over the answers: `n` are left.
unfoldable pub answers_from : Net → ℕ → Query → Datagram → ℕ → Bool → ℕ → M Bool
answers_from net id q d zero flushed pos =
    unless_flushed flushed (flush_error net id q) >> pure true
answers_from net id q d (suc n) flushed pos =
    one_answer net id q d flushed pos (answers_from net id q d n)

-- What is done with the answer to a query that somebody waits for.
unfoldable pub answer_query : Net → ℕ → Query → Datagram → ℕ → ℕ → ℕ → M Bool
answer_query net id q d flags answers pos =
    if bit_and flags 0x000F == 0x0001
    then (flush_cached net id q dns_error >> pure true)
    else if not (bit_and flags 0xFA0F == 0x8000)
    then (flush_cached net id q (do cache_failure (seconds net) wrong 300 q.host; dns_error)
        >> pure true)
    else answers_from net id q d answers false pos

abbrev same_mode : Mode → Mode → Bool
same_mode ipv6 ipv6 = true
same_mode ipv4 ipv4 = true
same_mode m n = false

-- Whether the packet came from one of the servers.
unfoldable pub is_from_server : Mode → Text → List DnsServer → Bool
is_from_server mode source [] = false
is_from_server mode source (server ∷ servers) =
    (same_mode mode server.mode && text_eq server.address source)
    || is_from_server mode source servers

abbrev pub is_nobody : Query → Bool
is_nobody q = elim q.http [ [] ↦ elim q.https [ [] ↦ true | p ∷ ps ↦ false ] | p ∷ ps ↦ false ]

-- One query less is counted as under way.
abbrev pub discounted : DnsState → DnsState
discounted dns = record dns { list = record dns.list { in_progress = dns.list.in_progress - 1 } }

-- A packet for the query `id`, behind its question.
unfoldable pub for_found : Net → Mode → Datagram → ℕ → ℕ → ℕ → ℕ → DnsState → Option Query → M Bool
for_found net mode d id flags answers pos dns none = pure true
for_found net mode d id flags answers pos dns (some q) =
    if not (is_from_server mode d.source dns.server_list) then pure false else (do
      put_dns (discounted dns)
      if is_nobody q then pure true else answer_query net id q d flags answers pos)

unfoldable pub for_query : Net → Mode → Datagram → ℕ → ℕ → ℕ → ℕ → M Bool
for_query net mode d id flags answers pos = do
  dns ← get_dns
  for_found net mode d id flags answers pos dns (dns.list.queries id)

-- The loop that skips the name goes on at `offs`.
abbrev pub goes_on : Text → ℕ → ℕ → Bool
goes_on packet room offs = ltb offs room && not (get_or packet offs 0 == 0)

-- The question of the packet: its name is skipped, and its type and class must be AAAA and IN. `offs` has
-- 256 values, so the loop ends within 256 rounds or not at all.
unfoldable pub skip_question : Datagram → ℕ → (ℕ → M Bool) → M Bool
skip_question d pos next =
    let name = drop pos d.buffer in
    let offs = skip_name 256 name (d.size - pos) 0 in
    if goes_on name (d.size - pos) offs
    then fail endless
    else reading (read_16bits d.buffer d.size (pos + offs + 1)) λ type pos.
      if not (type == 0x1c)
      then pure false
      else reading (read_16bits d.buffer d.size pos)
          λ class_in pos. if not (class_in == 1) then pure false else next pos

-- One packet: whether the loop goes on to the next one.
unfoldable pub parse_packet : Net → Mode → Datagram → M Bool
parse_packet net mode d = reading (read_16bits_raw d.buffer d.size 0) λ id pos.
    reading (read_16bits d.buffer d.size pos) λ flags pos.
      reading (read_16bits d.buffer d.size pos) λ questions pos.
        reading (read_16bits d.buffer d.size pos) λ answers pos.
          moving (can_add_to_pos 4 d.size pos)
            λ pos. skip_question d pos (for_query net mode d id flags answers)

-- `DnsSeeker::parseEvent` for a socket, where these packets wait. One that is not understood ends the
-- loop, and the others are left.
unfoldable pub parse_event : Net → Mode → List Datagram → M (Unit {0})
parse_event net mode [] = skip
parse_event net mode (d ∷ ds) = do
  going ← parse_packet net mode d
  if going then parse_event net mode ds else skip
