-- ===== src/Dns/Received.antt =====
-- src/DnsSeeker.cpp, `parseEvent`: the packet of a server with one address for a query.
use Prim.Native.Nat.{bit_and}
use cdn_uring.Prelude.{
  ℕ, ◌+◌, ◌-◌, ◌*◌, ◌/◌, ◌%◌, ◌≤◌, ◌<◌, ◌≡◌, ◌∙◌, refl, sym, ap, Bool, true, false, none, some,
  List, [], ◌∷◌, ◌++◌, length, get_or, take, ltb, leb, arith, length-append, ◌==◌,
}
use cdn_uring.Prelude.Text.{Text}
use cdn_uring.Prelude.Text.First.{take-append}
use cdn_uring.Prelude.Result.{ok}
use cdn_uring.Dns.Ask.{seconds}
use cdn_uring.Dns.Entries.{Caches, add_cache_entry-Caches}
use cdn_uring.World.Laws.{update_self}
use cdn_uring.Dns.State.{right, Query, Mode, Datagram, Net}
use cdn_uring.Dns.Reader.{can_add_to_pos, read_16bits_raw, read_16bits, read_32bits}
use cdn_uring.Dns.Name.{encode_labels, skip_name, AreLabels, skip_name-encode_labels}
use cdn_uring.Dns.Reply.{
  read_16bits-of, read_16bits-behind, read_32bits-behind, drop-behind, encode_labels_end,
  length-encode_labels,
}
use cdn_uring.Dns.Receive.{
  address_at, is_accepted, flush_address, answer_query, answers_from, one_answer, by_type,
  answer_aaaa, is_from_server, for_query, for_found, is_nobody, discounted, goes_on, skip_question,
  parse_packet,
}
use cdn_uring.Dns.Queries.{remove_found}
use cdn_uring.Dns.Answer.{AreWaiting, Delivers, answered, after, after-Delivers, flush_address-ok}
use cdn_uring.World.{World}
use cdn_uring.World.Monad.{M, get_dns, put_dns, ◌>>=◌}

-- The packet: the number of the query, the flags, the counts, the name with the type AAAA of the class
-- IN, and one answer that names the question, with that type and class, its time, and the address.
abbrev pub head : ℕ → ℕ → ℕ → Text
head id hi lo = (id % 256) ∷ (id / 256) ∷ hi ∷ lo ∷ 0 ∷ 1 ∷ 0 ∷ 1 ∷ 0 ∷ 0 ∷ 0 ∷ 0 ∷ []

abbrev pub tail : ℕ → ℕ → ℕ → ℕ → Text → Text → Text
tail a b c d address pad =
    0 ∷ 28 ∷ 0 ∷ 1 ∷ 192 ∷ 12 ∷ 0 ∷ 28 ∷ 0 ∷ 1 ∷ a ∷ b ∷ c ∷ d ∷ 0 ∷ 16 ∷ (address ++ pad)

abbrev pub number_32 : ℕ → ℕ → ℕ → ℕ → ℕ
number_32 a b c d = 16777216 * a + (65536 * b + (256 * c + d))

abbrev pub reply : ℕ → ℕ → ℕ → ℕ → ℕ → ℕ → ℕ → List Text → Text → Text → Text
reply id hi lo a b c d labels address pad =
    head id hi lo ++ (encode_labels labels ++ tail a b c d address pad)

-- Numbers that fit their bytes, flags of an answer without an error, a name that is not too long, and a
-- packet that reaches up to the address at least.
pub record IsReply (id hi lo a b c d : ℕ) (labels : List Text) (address : Text) (size : ℕ)
    : Type 0 where
  pub id_fits : id < 65536
  pub flag_bytes : (hi < 256) × (lo < 256)
  pub ttl_bytes : (a < 256) × (b < 256) × (c < 256) × (d < 256)
  pub no_format_error : (bit_and (256 * hi + lo) 0x000F == 0x0001) ≡ false
  pub is_answer : (bit_and (256 * hi + lo) 0xFA0F == 0x8000) ≡ true
  pub labels_fit : AreLabels labels
  pub short_name : length (encode_labels labels) < 256
  pub sixteen : length address ≡ 16
  pub whole : 12 + length (encode_labels labels) + 16 ≤ size

module _ (id hi lo a b c d : ℕ) (labels : List Text) (address pad : Text) (size : ℕ)
    (h : IsReply id hi lo a b c d labels address size) where
  abbrev front : Text
  front = head id hi lo ++ encode_labels labels

  abbrev buffer : Text
  buffer = reply id hi lo a b c d labels address pad

  length_front : length front ≡ 12 + length (encode_labels labels)
  length_front = length-append (head id hi lo) (encode_labels labels)

  read_id : read_16bits_raw buffer size 0 ≡ some (id, 2)
  unfolding read_16bits_raw
  read_id =
      let enough : ltb size 2 ≡ false = ground (arith, h.whole) in
      rw enough (ap (λ n. some (n, 2)) (omega (arith, h.id_fits)))

  offs : ℕ
  offs = skip_name 256 (encode_labels labels ++ tail a b c d address pad) (size - 12) 0

  offs-eq : offs + 1 ≡ length (encode_labels labels)
  unfolding offs
  offs-eq =
      skip_name-encode_labels labels (tail a b c d address pad) 256 (size - 12) h.labels_fit
        (omega (arith, length-encode_labels labels, h.short_name)) h.short_name
        (omega (arith, h.whole))

  stops : goes_on (encode_labels labels ++ tail a b c d address pad) (size - 12) offs ≡ false
  stops = rw (encode_labels_end labels (tail a b c d address pad) offs offs-eq) (ground arith)

  place : ℕ
  place = 12 + offs + 1

  place-eq : place ≡ length front + 0
  unfolding place
  place-eq = omega (arith, offs-eq, length_front)

  type_read : read_16bits buffer size place ≡ some (28, place + 2)
  type_read =
      read_16bits-behind front (tail a b c d address pad) size place 0 0 28 place-eq refl refl
        (omega arith) (omega arith) (omega (arith, place-eq, length_front, h.whole))

  class_read : read_16bits buffer size (place + 2) ≡ some (1, place + 2 + 2)
  class_read =
      read_16bits-behind front (tail a b c d address pad) size (place + 2) 2 0 1
        (omega (arith, place-eq)) refl refl (omega arith) (omega arith)
        (omega (arith, place-eq, length_front, h.whole))

  module _ (source : Text) where
    abbrev packet : Datagram
    packet = record { buffer = buffer; size = size; source = source }

    skip_question-ok :
        (next : ℕ → M Bool) (w : World) → skip_question packet 12 next w ≡ next (place + 2 + 2) w
    unfolding skip_question offs place
    skip_question-ok next w = rw stops (rw type_read (rw class_read refl))

    abbrev answer_place : ℕ
    answer_place = place + 2 + 2

    -- A number of two bytes of the answer, `k` bytes behind the name.
    answer_read :
        (pos k x y : ℕ)
        → pos ≡ answer_place + k
        → k ≤ 10
        → get_or (tail a b c d address pad) (k + 4) 0 ≡ x
        → get_or (tail a b c d address pad) (k + 4 + 1) 0 ≡ y
        → x < 256
        → y < 256
        → read_16bits buffer size pos ≡ some (256 * x + y, pos + 2)
    answer_read pos k x y e within ex ey lx ly =
        read_16bits-behind front (tail a b c d address pad) size pos (k + 4) x y
          (omega (arith, place-eq)) ex ey lx ly (omega (arith, place-eq, length_front, h.whole))

    ttl_read :
        read_32bits buffer size (answer_place + 2 + 2 + 2)
        ≡ some (number_32 a b c d, answer_place + 2 + 2 + 2 + 4)
    ttl_read =
        read_32bits-behind front (tail a b c d address pad) size (answer_place + 2 + 2 + 2) 10 a b c
          d (omega (arith, place-eq)) refl refl refl refl h.ttl_bytes.0 h.ttl_bytes.1 h.ttl_bytes.2
          h.ttl_bytes.3 (omega (arith, place-eq, length_front, h.whole))

    address_read :
        (w : World) → address_at buffer (answer_place + 2 + 2 + 2 + 4 + 2) w ≡ ok (address, w)
    unfolding address_at
    address_read w =
        rw (at, inside, drop-behind front (tail a b c d address pad) 16)
          (ap (λ s. ok (s, w))
            (ap (λ n. take n (address ++ pad)) (sym h.sixteen) ∙ take-append address pad))
      where
        at : answer_place + 2 + 2 + 2 + 4 + 2 ≡ length front + 16
        at = omega (arith, place-eq)

        inside : leb (length front + 16 + 16) (length (front ++ tail a b c d address pad)) ≡ true
        inside = ground (
          arith,
          length-append front (tail a b c d address pad),
          length-append address pad,
          h.sixteen,
        )

    module _ (net : Net) (q : Query) (w w' : World)
        (flushed : flush_address net id q (number_32 a b c d) address w ≡ ok (tt, w')) where
      answer_aaaa-ok :
          (next : Bool → ℕ → M Bool)
          → answer_aaaa net id q packet false (answer_place + 2 + 2) next w
            ≡ next true (answer_place + 2 + 2 + 2 + 4 + 2) w'
      unfolding answer_aaaa
      answer_aaaa-ok next =
          rw
            (answer_read (answer_place + 2 + 2) 4 0 1 (omega arith) (omega arith) refl refl
              (omega arith) (omega arith))
            (rw ttl_read (
              rw
                (answer_read (answer_place + 2 + 2 + 2 + 4) 10 0 16 (omega arith) (omega arith) refl
                  refl (omega arith) (omega arith))
                (rw (address_read w, ◌>>=◌) (rw (flushed, ◌>>=◌) refl))))

      answers_from-ok : answers_from net id q packet 1 false answer_place w ≡ ok (true, w')
      unfolding answers_from one_answer by_type
      answers_from-ok =
          rw
            (answer_read answer_place 0 192 12 (omega arith) (omega arith) refl refl (omega arith)
              (omega arith))
            (rw
              (answer_read (answer_place + 2) 2 0 28 (omega arith) (omega arith) refl refl
                (omega arith) (omega arith))
              (answer_aaaa-ok (answers_from net id q packet 0) ∙ refl))

      answer_query-ok :
          answer_query net id q packet (256 * hi + lo) 1 answer_place w ≡ ok (true, w')
      unfolding answer_query
      answer_query-ok = rw h.no_format_error (rw h.is_answer answers_from-ok)

    -- The packet is read up to the query that it is for.
    parse_packet-eq :
        (net : Net) (mode : Mode) (w : World)
        → parse_packet net mode packet w
          ≡ for_query net mode packet id (256 * hi + lo) 1 answer_place w
    unfolding parse_packet can_add_to_pos
    parse_packet-eq net mode w = rw read_id (
        rw (header_read 2 hi lo (omega arith) refl refl h.flag_bytes.0 h.flag_bytes.1) (
          rw (header_read 4 0 1 (omega arith) refl refl (omega arith) (omega arith)) (
            rw (header_read 6 0 1 (omega arith) refl refl (omega arith) (omega arith))
              (rw enough (skip_question-ok (for_query net mode packet id (256 * hi + lo) 1) w)))))
      where
        header_read :
            (pos x y : ℕ)
            → pos ≤ 6
            → get_or buffer pos 0 ≡ x
            → get_or buffer (pos + 1) 0 ≡ y
            → x < 256
            → y < 256
            → read_16bits buffer size pos ≡ some (256 * x + y, pos + 2)
        header_read pos x y small ex ey lx ly =
            read_16bits-of buffer size pos x y ex ey lx ly (omega (arith, h.whole))

        enough : ltb size 12 ≡ false
        enough = ground (arith, h.whole)

-- What a packet with one address for the query `id` does.
pub record Answers (net : Net) (mode : Mode) (d : Datagram) (id : ℕ) (q : Query) (ttl : ℕ)
    (address : Text) (w : World) : Type 0 where
  pub result : World
  pub returns : parse_packet net mode d w ≡ ok (true, result)
  pub delivers : Delivers q address w result
  pub keeps : result.dns ≡ answered net id q ttl address (discounted w.dns)
  pub caches : Caches (seconds net) q.host address w.dns.cache result.dns.cache
  pub gone : result.dns.list.queries id ≡ none
  pub counts_twice : result.dns.list.in_progress ≡ w.dns.list.in_progress - 1 - 1

-- A packet from one of the servers with one address that the server may connect to, for a query that
-- somebody waits for, where the cache has room and the requests that wait are in use and no two are the same:
-- each request that waits has the address and is handed to the ring, once each and in order; the address is
-- in the cache, for at least ten seconds and at most a day, and the query is gone. The count of queries under
-- way is lowered twice, though not below 0.
pub parse_packet-Answers :
    (id hi lo a b c d : ℕ) (labels : List Text) (address pad source : Text) (size : ℕ) (net : Net)
    (mode : Mode) (q : Query) (w : World)
    → IsReply id hi lo a b c d labels address size
    → w.dns.list.queries id ≡ some q
    → is_nobody q ≡ false
    → is_from_server mode source w.dns.server_list ≡ true
    → is_accepted address ≡ true
    → w.dns.cache.size ≤ 120000
    → AreWaiting w q
    → Answers net mode
        (record {
          buffer = reply id hi lo a b c d labels address pad;
          size = size;
          source = source;
        })
        id
        q
        (number_32 a b c d)
        address
        w
unfolding for_query for_found get_dns put_dns remove_found
parse_packet-Answers id hi lo a b c d labels address pad source size net mode q w h asked somebody
      known accepted room waiting =
    record {
      result = result;
      returns =
          parse_packet-eq id hi lo a b c d labels address pad size h source net mode w
          ∙ rw (asked, for_found)
              (rw known (
                rw somebody (
                  answer_query-ok id hi lo a b c d labels address pad size h source net q counted
                    result
                    (flush_address-ok net id q ttl address counted waiting_counted accepted
                      asked))));
      delivers = record {
        http = delivered.http;
        https = delivered.https;
        others = delivered.others;
        submitted = delivered.submitted;
        resources = delivered.resources;
      };
      keeps = refl;
      caches = add_cache_entry-Caches (seconds net) ttl right q.host address w.dns.cache room;
      gone = update_self w.dns.list.queries id none;
      counts_twice = refl;
    }
  where
    ttl : ℕ
    ttl = number_32 a b c d

    counted : World
    counted = record w { dns = discounted w.dns }

    result : World
    result = after net id q ttl address counted

    waiting_counted : AreWaiting counted q
    waiting_counted = record {
      distinct_http = waiting.distinct_http;
      distinct_https = waiting.distinct_https;
      apart = waiting.apart;
      apart_back = waiting.apart_back;
      http = waiting.http;
      https = waiting.https;
    }

    delivered : Delivers q address counted result
    delivered = after-Delivers net id q ttl address counted waiting_counted
