-- ===== src/Stream/Overtaken.antt =====
-- src/Stream.cpp, `AddWriteStreamRequest`: a client that a whole ring of chunks has overtaken.
use cdn_uring.Prelude.{ℕ, ◌+◌, ◌%◌, ◌≡◌, ◌∙◌, refl, false, ◌&&◌, some, arith}
use native.Mathlib.Nat.{add-mod_right}
use cdn_uring.Prelude.Text.{Text}
use cdn_uring.Prelude.Result.{ok}
use cdn_uring.World.{Ptr, Request, Mux, Env, World}
use cdn_uring.World.Monad.{update}
use cdn_uring.World.Laws.{update_self}
use cdn_uring.Stream.Write.{add_write_stream_request}
use cdn_uring.Stream.Ring.{Holds, IsChunk, IsSound, ring_after, ring_after-Holds}
use cdn_uring.Stream.Deliver.{IsClient, sent, sends_next_chunk, waits_for_chunk}

-- The resource after the chunk `c` came.
abbrev pub mux_with : Env → Mux → Text → Mux
mux_with env mux c = record mux {
  buffer = ring_after env env.streaming_buffer_size mux.buffer mux.pivot c;
  pivot = (mux.pivot + 1) % env.streaming_buffer_size;
}

abbrev pub world_with : Env → ℕ → Mux → Text → World → World
world_with env id mux c w = record w {
  resources = update w.resources id (some (mux_with env mux c));
}

module _ (env : Env) (chunk : ℕ → Text) (t c : ℕ) (p : Ptr) (r : Request) (mux : Mux) (w : World)
    (sound : IsSound env env.streaming_buffer_size)
    (ring : Holds env env.streaming_buffer_size chunk t mux.buffer mux.pivot)
    (client : IsClient env w p r) (found : w.resources r.resource_id ≡ some mux)
    (place : r.pivot ≡ c % env.streaming_buffer_size)
    (behind : t ≡ c + env.streaming_buffer_size) where
  newest_place : r.pivot ≡ t % env.streaming_buffer_size
  newest_place = place ∙ rw (behind, add-mod_right c env.streaming_buffer_size)

  -- A client that is a whole ring of chunks behind, of a resource that may still grow, loses them: it
  -- waits as if it had read all, with 1 and no change, and once one more chunk has come it is sent that
  -- one.
  pub overtaken_client_skips :
      (mux.in_memory && mux.is_completed) ≡ false
      → IsChunk env (chunk t)
      → (add_write_stream_request env p w ≡ ok (1, w))
        × (add_write_stream_request env p (world_with env r.resource_id mux (chunk t) w)
            ≡ ok (0, sent env p r (chunk t) (world_with env r.resource_id mux (chunk t) w)))
  overtaken_client_skips grows ic = (
    waits_for_chunk env chunk t t p r mux w sound ring client found newest_place
        (omega (arith, sound.slots)) refl grows,
    sends_next_chunk env chunk (t + 1) t p r (mux_with env mux (chunk t))
        (world_with env r.resource_id mux (chunk t) w) sound
        (ring_after-Holds env env.streaming_buffer_size chunk t mux.buffer mux.pivot sound ring ic)
        (record { live = client.live; has_block = client.has_block; large = client.large })
        (update_self w.resources r.resource_id (some (mux_with env mux (chunk t)))) newest_place
        (omega (arith, sound.slots)) ic (omega arith),
  )
