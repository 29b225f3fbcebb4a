-- ===== src/Stream/Scenarios.antt =====
-- src/Stream.cpp at concrete states: an origin that cannot be had, a client that comes later, and
-- resources whose time is over.
use cdn_uring.Prelude.{◌==◌, ◌≡◌, refl, true, none, some, [], ◌∷◌, arith, if◌then◌else◌}
use cdn_uring.Prelude.Int.{ℤ, pos}
use cdn_uring.Prelude.Text.{Text, codes, c_str, search_by, matches, substr, to_upper, text_eq}
use cdn_uring.Prelude.Result.{ok}
use cdn_uring.Headers.{get_header_tag, ci_find_substr, to_int, ci_equal, up_to_line_end}
use cdn_uring.World.{Ptr, Request, Mux, World, prep_timeout}
use cdn_uring.Server.{status_content}
use cdn_uring.Stream.Registry.{create_mux}
use cdn_uring.Stream.Join.{handle_exists_resource, handle_cleanup}
use cdn_uring.Stream.Failing.{Fails, release_error_all_waiting_request-Fails}
use cdn_uring.Stream.Entering.{outcome, not_modified, handle_exists_resource-outcome}
use cdn_uring.Stream.Expiry.{Cleans, handle_cleanup-Cleans}
use cdn_uring.Stream.Tests.{small, client, live_stream, serving_two}

abbrev socket_of : Ptr → ℤ
socket_of p = if p == 1 then pos 11 else pos 12

abbrev text_502 : Text
text_502 = codes "HTTP/1.0 502 Bad Gateway\r\nContent-type: text/plain\r\n\r\nBad Gateway \r\n"

known_502 : status_content 502 ≡ some text_502
unfolding status_content
known_502 = refl

release_error_all_waiting_request-Fails_example :
    Fails 7 502 text_502 socket_of live_stream serving_two
release_error_all_waiting_request-Fails_example =
    release_error_all_waiting_request-Fails 7 502 text_502 socket_of known_502 live_stream
      serving_two refl ((λ e. omega arith, tt), (tt, tt))
      (
        record { request = client 11; live = refl; in_use = omega arith; on_socket = refl },
        (
          record {
            request = record (client 12) { is_processing = true };
            live = refl;
            in_use = omega arith;
            on_socket = refl;
          },
          tt,
        ),
      )

-- A client at 4 that has the version `v` of the resource.
abbrev entry : Request
entry = record (client 14) {
  iov =
      record { len = 0; cap = 0; base = [] }
      ∷ record { len = 2; cap = 2; base = codes "/" }
      ∷ record { len = 22; cap = 22; base = codes "A: b\r\nIf-None-Match: v\r\n" }
      ∷ [];
}

abbrev tagged_stream : Mux
tagged_stream = record live_stream { etag = codes "v" }

abbrev asking : World
asking = record serving_two {
  heap = λ p. if p == 4 then some entry else serving_two.heap p;
  next = 5;
  resources = λ id. if id == 7 then some tagged_stream else none;
}

no_if_match : get_header_tag (codes "A: b\r\nIf-None-Match: v\r\n") (codes "If-Match") ≡ ok []
unfolding get_header_tag ci_find_substr to_int search_by matches ci_equal to_upper
no_if_match = refl

if_none_match :
    get_header_tag (codes "A: b\r\nIf-None-Match: v\r\n") (codes "If-None-Match") ≡ ok (codes "v")
unfolding get_header_tag ci_find_substr to_int search_by matches ci_equal to_upper substr
    up_to_line_end
if_none_match = refl

handle_exists_resource-outcome_example :
    handle_exists_resource small 4 asking
    ≡ ok (true, outcome small [] entry tagged_stream asking not_modified)
unfolding c_str create_mux text_eq
handle_exists_resource-outcome_example =
    handle_exists_resource-outcome small [] entry tagged_stream asking refl (omega arith) 4 []
      (codes "v") refl (omega arith) refl no_if_match if_none_match

abbrev expiring : World
expiring = record serving_two { resource_ttl = (3, 7) ∷ [] }

handle_cleanup-Cleans_example :
    (after : World) × (handle_cleanup small 4 9 expiring
      ≡ ok (tt, record after { submitted = prep_timeout 1000 9 ∷ after.submitted }))
    × Cleans 4 ((3, 7) ∷ []) expiring after
handle_cleanup-Cleans_example =
    handle_cleanup-Cleans small 4 9 expiring (tt, tt) ((live_stream, refl), tt, tt)
