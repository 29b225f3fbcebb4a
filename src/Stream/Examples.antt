-- ===== src/Stream/Examples.antt =====
-- src/Stream.cpp at concrete states: one client at a time, and the ends of a resource.
use cdn_uring.Prelude.{
  ℕ, zero, suc, ◌<◌, ◌==◌, ◌≡◌, refl, true, none, some, [], ◌∷◌, arith, if◌then◌else◌, replicate,
  length-replicate,
}
use cdn_uring.Prelude.Text.{Text, codes, search_by, matches, to_upper}
use cdn_uring.Headers.{get_header_tag, ci_find_substr, to_int, ci_equal}
use cdn_uring.Prelude.Result.{ok}
use cdn_uring.World.{Mux, World}
use cdn_uring.World.Monad.{update}
use cdn_uring.Stream.Registry.{create_mux, remove_request}
use cdn_uring.Stream.Write.{add_write_stream_request}
use cdn_uring.Stream.Notify.{set_cache_resource}
use cdn_uring.Stream.Ring.{IsChunk, Holds, fresh-Holds, ring_after, ring_after-Holds}
use cdn_uring.Stream.Deliver.{sent}
use cdn_uring.Stream.Overtaken.{mux_with, world_with, overtaken_client_skips}
use cdn_uring.Stream.Removal.{remove_request_takes}
use cdn_uring.Stream.Closing.{Closes, close_stream-Closes}
use cdn_uring.Stream.Headers.{Heads, cached, set_cache_resource-Heads}
use native.Mathlib.Numerals.{unary_clauses}
use cdn_uring.Stream.Tests.{small, client, live_stream, serving_two, chunk, chunks, sound}

-- The stream after one chunk came, which nobody has read.
abbrev one_chunk : Mux
one_chunk = record live_stream {
  buffer = ring_after small 4 live_stream.buffer 0 (chunk 0);
  pivot = 1;
}

one_chunk-Holds : Holds small 4 chunk 1 one_chunk.buffer one_chunk.pivot
unfolding create_mux
one_chunk-Holds =
    ring_after-Holds small 4 chunk 0 live_stream.buffer 0 sound
      (fresh-Holds small 4 chunk (omega arith)) (chunks 0)

abbrev serving_chunk : World
serving_chunk = record serving_two { resources = λ id. if id == 7 then some one_chunk else none }

remove_request_takes_example :
    remove_request 1 7 serving_two
    ≡ ok (
      0,
      record serving_two {
        resources =
            update serving_two.resources 7 (some (record live_stream { requests = 2 ∷ [] }));
      },
    )
remove_request_takes_example =
    remove_request_takes 7 live_stream serving_two refl 1 [] (2 ∷ []) refl tt

close_stream-Closes_example : Closes 7 live_stream serving_two
close_stream-Closes_example =
    close_stream-Closes 7 live_stream serving_two refl ((λ e. omega arith, tt), (tt, tt))
      ((client 11, refl), ((record (client 12) { is_processing = true }, refl), tt))

abbrev header : Text
header = codes "H: v"

untagged : get_header_tag header (codes "ETag") ≡ ok []
unfolding get_header_tag ci_find_substr to_int search_by matches ci_equal to_upper
untagged = refl

set_cache_resource-Heads_example :
    (after : World) × (set_cache_resource small 7 header (codes "c/7") true serving_two
      ≡ ok (tt, after))
    × Heads small 7 header (cached live_stream header (codes "c/7") [] true) serving_two after
unfolding create_mux
set_cache_resource-Heads_example =
    set_cache_resource-Heads small 7 header live_stream serving_two refl (omega arith)
      ((λ e. omega arith, tt), (tt, tt))
      (
        (client 11, refl, omega arith),
        ((record (client 12) { is_processing = true }, refl, omega arith), tt),
      )
      (codes "c/7") [] true untagged refl

-- Chunks of the lengths 1, 2, 3 and so on.
abbrev letters : ℕ → Text
letters n = replicate (suc n) 97

letters-IsChunk : (j : ℕ) → j < 8 → IsChunk small (letters j)
letters-IsChunk j lt = record {
  some_byte = rw (length-replicate {A = ℕ} (suc j) 97) (omega arith);
  fits = rw (length-replicate {A = ℕ} (suc j) 97) (omega arith);
}

-- The stream of two clients after `n` chunks, none of which the first client was sent.
abbrev fallen_behind : ℕ → Mux
fallen_behind zero = live_stream
fallen_behind (suc n) = mux_with small (fallen_behind n) (letters n)

fallen_behind-Holds :
    (n : ℕ) → n < 8 → Holds small 4 letters n (fallen_behind n).buffer (fallen_behind n).pivot
unfolding create_mux
fallen_behind-Holds zero lt = fresh-Holds small 4 letters (omega arith)
fallen_behind-Holds (suc n) lt = simp unary_clauses (
    simp unary_clauses at ring_after-Holds small 4 letters n (fallen_behind n).buffer
      (fallen_behind n).pivot sound (fallen_behind-Holds n (omega arith))
      (letters-IsChunk n (omega arith)))

abbrev overtaken : World
overtaken = record serving_two {
  resources = λ id. if id == 7 then some (fallen_behind 4) else none;
}

overtaken_client_skips_example :
    (add_write_stream_request small 1 overtaken ≡ ok (1, overtaken))
    × (add_write_stream_request small 1 (world_with small 7 (fallen_behind 4) (letters 4) overtaken)
        ≡ ok (
          0,
          sent small 1
              (client 11)
              (letters 4)
              (world_with small 7 (fallen_behind 4) (letters 4) overtaken),
        ))
unfolding create_mux
overtaken_client_skips_example =
    overtaken_client_skips small letters 4 0 1 (client 11) (fallen_behind 4) overtaken sound
      (fallen_behind-Holds 4 (omega arith))
      (record { live = refl; has_block = omega arith; large = omega arith }) refl refl refl refl
      (letters-IsChunk 4 (omega arith))
