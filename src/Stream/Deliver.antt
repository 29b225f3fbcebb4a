-- ===== src/Stream/Deliver.antt =====
-- src/Stream.cpp, `AddWriteStreamRequest`: which chunk a client is sent.
use cdn_uring.Prelude.{
  ℕ, ◌+◌, ◌%◌, ◌≤◌, ◌<◌, ◌≡◌, ◌∙◌, true, false, ◌&&◌, some, ◌∷◌, length, get_or, set, arith,
  take-all, take-length, get_or-set_self, length-set,
}
use cdn_uring.Prelude.Text.{Text}
use cdn_uring.Prelude.Result.{ok}
use cdn_uring.Event
use cdn_uring.World.{Iovec, Ptr, Request, Mux, Env, World, prep_write}
use cdn_uring.World.Monad.{element, store, update, ◌>>=◌}
use cdn_uring.Request.{no_iovec}
use cdn_uring.World.Laws.{element-ok, fill-ok, update_self, update-update, deref-ok, mux_at-ok}
use cdn_uring.Server.Submit.{add_write_request-ok}
use cdn_uring.Stream.Registry.{exists_resource}
use cdn_uring.Stream.Write.{
  is_vacant, add_write_stream_request, add_write_from_mux, send_slot, finish_if_completed,
}
use cdn_uring.Stream.Ring.{slot, Holds, IsChunk, IsSound}

-- A client `r` at address `p` whose buffer is as large as the settings say.
pub record IsClient (env : Env) (w : World) (p : Ptr) (r : Request) : Type 0 where
  pub live : w.heap p ≡ some r
  pub has_block : 0 < length r.iov
  pub large : env.http_buffer_size ≤ (get_or r.iov 0 no_iovec).cap

abbrev pub filled_block : Request → Text → Iovec
filled_block r c = record { len = length c; cap = (get_or r.iov 0 no_iovec).cap; base = c }

-- The client after the chunk `c` was put into its buffer.
abbrev pub client_after : Env → Request → Text → Request
client_after env r c = record r {
  iov = set r.iov 0 (filled_block r c);
  pivot = (r.pivot + 1) % env.streaming_buffer_size;
  event_type = Event.server_write_partial;
  is_processing = true;
}

-- The client between the copy and the write.
abbrev stepped : Env → Request → Text → Request
stepped env r c = record r {
  iov = set r.iov 0 (filled_block r c);
  pivot = (r.pivot + 1) % env.streaming_buffer_size;
}

-- The world in which the client `r` at `p` was sent the chunk `c`, and nothing else has changed.
abbrev pub sent : Env → Ptr → Request → Text → World → World
sent env p r c w = record w {
  heap = update w.heap p (some (client_after env r c));
  submitted = prep_write r.client_socket c 0 p ∷ w.submitted;
}

send_slot-ok :
    (env : Env) (p : Ptr) (r : Request) (v : Iovec) (w : World)
    → IsClient env w p r
    → v.len ≡ length v.base
    → length v.base ≤ env.http_buffer_size
    → send_slot env p r v w ≡ ok (0, sent env p r v.base w)
unfolding send_slot store
send_slot-ok env p r v w c e fits =
    rw (element-ok w r.iov 0 no_iovec c.has_block, ◌>>=◌)
      (rw (take-all v.len v.base (omega arith)) (
        rw (fill-ok w (get_or r.iov 0 no_iovec) v.base (omega (arith, c.large)), ◌>>=◌)
          (rw
            (
              add_write_request-ok p (stepped env r v.base)
                  (record w { heap = update w.heap p (some (stepped env r v.base)) })
                  (update_self w.heap p (some (stepped env r v.base))) Event.server_write_partial
                  (rw (length-set r.iov 0 (filled_block r v.base)) c.has_block),
              ◌>>=◌,
            )
            (rw
              (
                update-update w.heap p (some (stepped env r v.base))
                    (some (client_after env r v.base)),
                get_or-set_self r.iov 0 (filled_block r v.base) no_iovec c.has_block,
              )
              (rw (take-length v.base))))))

module _ (env : Env) (chunk : ℕ → Text) (t c : ℕ) (p : Ptr) (r : Request) (mux : Mux) (w : World)
    (sound : IsSound env env.streaming_buffer_size)
    (ring : Holds env env.streaming_buffer_size chunk t mux.buffer mux.pivot)
    (client : IsClient env w p r) (found : w.resources r.resource_id ≡ some mux)
    (place : r.pivot ≡ c % env.streaming_buffer_size)
    (near : t < c + env.streaming_buffer_size) where
  slot-ok : element mux.buffer r.pivot w ≡ ok (slot mux.buffer r.pivot, w)
  slot-ok = element-ok w mux.buffer r.pivot no_iovec (omega (arith, sound.slots, ring.sized, place))

  add_write_stream_request-eq : add_write_stream_request env p w ≡ add_write_from_mux env p r mux w
  unfolding add_write_stream_request exists_resource
  add_write_stream_request-eq =
      rw (deref-ok w p client.live, ◌>>=◌) (rw found (rw (mux_at-ok w r.resource_id found, ◌>>=◌)))

  lens : c < t → (slot mux.buffer r.pivot).len ≡ length (chunk c)
  lens lt = rw place (ring.stored c lt near)

  bytes : c < t → (slot mux.buffer r.pivot).base ≡ chunk c
  bytes lt = rw place (ring.bytes c lt near)

  not_vacant : IsChunk env (chunk c) → c < t → is_vacant (slot mux.buffer r.pivot).len ≡ false
  not_vacant ic lt = rw (lens lt) (ground (arith, sound.small, ic.fits, ic.some_byte))

  -- A client that has read the chunks before `c`, and is less than a whole ring behind the newest, is
  -- sent the chunk `c` and moves to the place of the next one; the call returns 0 and changes nothing
  -- else.
  pub sends_next_chunk :
      IsChunk env (chunk c)
      → c < t
      → add_write_stream_request env p w ≡ ok (0, sent env p r (chunk c) w)
  unfolding add_write_from_mux
  sends_next_chunk ic lt = rw add_write_stream_request-eq (
      rw (slot-ok, ◌>>=◌)
        (rw (not_vacant ic lt) (
          send_slot-ok env p r (slot mux.buffer r.pivot) w client (rw (lens lt, bytes lt))
            (rw (bytes lt) ic.fits)
          ∙ rw (bytes lt))))

  -- A client that has read all chunks waits, if the resource may still grow: nothing is sent or
  -- changed, and the call returns 1.
  pub waits_for_chunk :
      c ≡ t
      → (mux.in_memory && mux.is_completed) ≡ false
      → add_write_stream_request env p w ≡ ok (1, w)
  unfolding add_write_from_mux finish_if_completed
  waits_for_chunk e grows =
      rw add_write_stream_request-eq (rw (slot-ok, ◌>>=◌) (rw (place, e, ring.hole) (rw grows)))
