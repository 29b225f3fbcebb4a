-- ===== src/Cache/Writer.antt =====
-- src/Cache.cpp, `HandleWrite` and `AppendBuffer`: the chunks go to the file one after the other.
use cdn_uring.Prelude.{
  ℕ, zero, suc, ◌+◌, ◌%◌, ◌≤◌, ◌<◌, ◌≡◌, ◌≢◌, refl, true, false, some, ◌∷◌, length, get_or, set,
  arith, if◌then◌else◌, Bool-cases, inl, inr, take-length, get_or-set_self, length-set, ◌==◌,
}
use native.Mathlib.Numerals.{unary_clauses}
use cdn_uring.Prelude.Mod.{mod-suc}
use cdn_uring.Prelude.Text.{Text}
use cdn_uring.Prelude.Result.{ok}
use cdn_uring.Event
use cdn_uring.World.{Ptr, Request, Mux, Node, Env, World, prep_write}
use cdn_uring.World.Monad.{store, put_node, submit, update, ◌>>=◌}
use cdn_uring.World.Laws.{
  deref-ok, mux_at-ok, node_at-ok, element-ok, fill-ok, update_self, update_other, update-update,
}
use cdn_uring.Request.{no_iovec}
use cdn_uring.Stream.Write.{is_vacant}
use cdn_uring.Stream.Ring.{
  slot, Holds, IsChunk, IsSound, put_chunk-ok, ring_after, ring_after-Holds,
}
use cdn_uring.Stream.Deliver.{IsClient, filled_block}
use cdn_uring.Cache.Buffer.{
  exists_node, write_next, write_content, take_slot, handle_write_content, append_buffer,
}

-- The bytes of the first `n` chunks.
unfoldable pub total : (ℕ → Text) → ℕ → ℕ
total chunk zero = 0
total chunk (suc n) = total chunk n + length (chunk n)

total_next : (chunk : ℕ → Text) (n : ℕ) → total chunk (n + 1) ≡ total chunk n + length (chunk n)
unfolding total
total_next chunk n = simp unary_clauses

-- The resource `id` is being written to a file: of `t` chunks that came, `c` were written or are being
-- written, and the writer is less than a whole ring behind.
pub record IsStoring (env : Env) (id : ℕ) (chunk : ℕ → Text) (t c : ℕ) (node : Node) (w : World)
    : Type 0 where
  pub found : w.nodes id ≡ some node
  pub ring : Holds env env.cache_buffer_size chunk t node.buffer node.pivot
  pub size : node.size ≡ total chunk c
  pub request : Request
  pub writer : IsClient env w node.cache request
  pub member : request.resource_id ≡ id
  pub place : request.pivot ≡ c % env.cache_buffer_size
  pub behind : c ≤ t
  pub near : t < c + env.cache_buffer_size

-- The resource is known, and not held in memory.
pub record OnDisk (id : ℕ) (w : World) : Type 0 where
  pub mux : Mux
  pub known : w.resources id ≡ some mux
  pub on_disk : mux.in_memory ≡ false

-- The writer after it took the chunk.
abbrev pub writer_after : Env → Request → Text → Request
writer_after env r bytes = record r {
  iov = set r.iov 0 (filled_block r bytes);
  pivot = (r.pivot + 1) % env.cache_buffer_size;
  is_processing = true;
  event_type = Event.cache_write_content;
}

-- The world in which the writer took the chunk, the node has come to `size`, and nothing else has
-- changed.
abbrev pub stored_chunk : Env → ℕ → Node → Request → Text → ℕ → World → World
stored_chunk env id node r bytes size w = record w {
  heap = update w.heap node.cache (some (writer_after env r bytes));
  nodes = update w.nodes id (some (record node { size = size }));
  submitted = prep_write r.client_socket bytes size node.cache ∷ w.submitted;
}

module _ (env : Env) (id : ℕ) (chunk : ℕ → Text) (t c : ℕ) (node : Node) (w : World)
    (sound : IsSound env env.cache_buffer_size) (s : IsStoring env id chunk t c node w) where
  handle_write_content-eq :
      handle_write_content env node.cache w ≡ write_next env node.cache s.request node w
  unfolding handle_write_content exists_node
  handle_write_content-eq =
      rw (deref-ok w node.cache s.writer.live, ◌>>=◌)
        (rw (s.member, s.found) (rw (node_at-ok w id s.found, ◌>>=◌)))

  -- With all chunks written the writer waits: the call returns 1 and changes nothing.
  pub waits_for_content : c ≡ t → handle_write_content env node.cache w ≡ ok (1, w)
  unfolding write_next
  waits_for_content e = rw handle_write_content-eq (
      rw
        (
          element-ok w node.buffer s.request.pivot no_iovec
              (omega (arith, sound.slots, s.ring.sized, s.place)),
          ◌>>=◌,
        )
        (rw (s.place, e, s.ring.hole)))

  module _ (disk : OnDisk id w) (ic : IsChunk env (chunk c)) (lt : c < t) where
    lens : (slot node.buffer s.request.pivot).len ≡ length (chunk c)
    lens = rw (s.place) (s.ring.stored c lt s.near)

    bytes : (slot node.buffer s.request.pivot).base ≡ chunk c
    bytes = rw (s.place) (s.ring.bytes c lt s.near)

    plain : is_vacant (slot node.buffer s.request.pivot).len ≡ false
    plain = rw lens (ground (arith, sound.small, ic.fits, ic.some_byte))

    unended : ((slot node.buffer s.request.pivot).len == Event.end_buffer) ≡ false
    unended = rw lens (ground (arith, sound.small, ic.fits, ic.some_byte))

    -- A writer that is behind takes the next chunk in order: the write holds just that chunk, its
    -- offset is the size of all chunks up to this one included, the call returns 0, and nothing but
    -- the writer and the size of the node has changed.
    pub stores_next_chunk :
        handle_write_content env node.cache w
        ≡ ok (0, stored_chunk env id node s.request (chunk c) (total chunk (c + 1)) w)
    unfolding write_next take_slot write_content store put_node submit total
    stores_next_chunk = rw handle_write_content-eq (
        rw
          (
            element-ok w node.buffer s.request.pivot no_iovec
                (omega (arith, sound.slots, s.ring.sized, s.place)),
            ◌>>=◌,
          )
          (rw (plain, unended)
            (rw (element-ok w s.request.iov 0 no_iovec s.writer.has_block, ◌>>=◌)
              (rw (lens, bytes, take-length (chunk c))
                (rw
                  (
                    fill-ok w (get_or s.request.iov 0 no_iovec) (chunk c)
                        (omega (arith, ic.fits, s.writer.large)),
                    ◌>>=◌,
                  )
                  (rw (mux_at-ok at s.request.resource_id known_here, ◌>>=◌)
                    (rw (disk.on_disk) (
                      rw (
                        update-update w.heap node.cache (some taken)
                            (some (writer_after env s.request (chunk c))),
                        take-length (chunk c),
                        s.size,
                        s.member,
                        total_next chunk c,
                      )))))))))
      where
        taken : Request
        taken = record s.request {
          iov = set s.request.iov 0 (filled_block s.request (chunk c));
          pivot = (s.request.pivot + 1) % env.cache_buffer_size;
        }

        at : World
        at = record w {
          heap = update w.heap node.cache (some taken);
          nodes =
              update w.nodes s.request.resource_id
                (some (record node { size = node.size + length (chunk c) }));
        }

        known_here : w.resources s.request.resource_id ≡ some disk.mux
        known_here = rw (s.member) disk.known

    -- What the writer and its node are after that.
    IsStoring-stored :
        IsStoring env id chunk t
          (c + 1)
          (record node { size = total chunk (c + 1) })
          (stored_chunk env id node s.request (chunk c) (total chunk (c + 1)) w)
    IsStoring-stored = record {
      found = update_self w.nodes id _;
      ring = s.ring;
      size = refl;
      request = writer_after env s.request (chunk c);
      writer = record {
        live = update_self w.heap node.cache _;
        has_block =
            rw (length-set s.request.iov 0 (filled_block s.request (chunk c))) s.writer.has_block;
        large =
            rw
              (get_or-set_self s.request.iov 0 (filled_block s.request (chunk c)) no_iovec
                s.writer.has_block)
              s.writer.large;
      };
      member = s.member;
      place = rw (s.place) (mod-suc env.cache_buffer_size c);
      behind = omega (arith, lt);
      near = omega (arith, s.near);
    }

-- What a chunk from the origin does to a file: how far the writer is after it, and what is written.
pub record Appends (env : Env) (id : ℕ) (chunk : ℕ → Text) (t c : ℕ) (r : Request) (node : Node)
    (w : World) : Type 0 where
  pub after : World
  pub resource : Node
  pub returns : append_buffer env id (chunk t) w ≡ ok (true, after)
  pub storing : IsStoring env id chunk (t + 1) (if r.is_processing then c else c + 1) resource after
  pub same_writer : resource.cache ≡ node.cache
  pub written : after.submitted ≡ (
      if r.is_processing
      then w.submitted
      else prep_write r.client_socket (chunk c) (total chunk (c + 1)) node.cache ∷ w.submitted)
  pub resources : after.resources ≡ w.resources
  pub others : (q : Ptr) → node.cache ≢ q → after.heap q ≡ w.heap q

module _ (env : Env) (id : ℕ) (chunk : ℕ → Text) (t c : ℕ) (node : Node) (w : World)
    (sound : IsSound env env.cache_buffer_size) (chunks : (j : ℕ) → IsChunk env (chunk j))
    (s : IsStoring env id chunk t c node w) (disk : OnDisk id w)
    (room : t + 1 < c + env.cache_buffer_size) where
  node_after : Node
  node_after = record node {
    buffer = ring_after env env.cache_buffer_size node.buffer node.pivot (chunk t);
    pivot = (node.pivot + 1) % env.cache_buffer_size;
  }

  world_after : World
  world_after = record w { nodes = update w.nodes id (some node_after) }

  appended : IsStoring env id chunk (t + 1) c node_after world_after
  unfolding node_after world_after
  appended = record {
    found = update_self w.nodes id _;
    ring =
        ring_after-Holds env env.cache_buffer_size chunk t node.buffer node.pivot sound s.ring
          (chunks t);
    size = s.size;
    request = s.request;
    writer = record {
      live = s.writer.live;
      has_block = s.writer.has_block;
      large = s.writer.large;
    };
    member = s.member;
    place = s.place;
    behind = omega (arith, s.behind);
    near = omega (arith, room);
  }

  append_buffer-busy :
      s.request.is_processing ≡ true → append_buffer env id (chunk t) w ≡ ok (true, world_after)
  unfolding append_buffer put_node world_after node_after
  append_buffer-busy busy =
      rw (node_at-ok w id s.found, ◌>>=◌)
        (rw
          (
            put_chunk-ok env env.cache_buffer_size chunk t node.buffer node.pivot (chunk t)
                (omega (arith, sound.slots)) s.ring (chunks t) w,
            ◌>>=◌,
          )
          (rw (deref-ok world_after node.cache s.writer.live, ◌>>=◌) (rw busy)))

  append_buffer-idle :
      s.request.is_processing ≡ false
      → append_buffer env id (chunk t) w
        ≡ ok (
          true,
          stored_chunk env id node_after s.request (chunk c) (total chunk (c + 1)) world_after,
        )
  unfolding append_buffer put_node world_after node_after appended
  append_buffer-idle idle =
      rw (node_at-ok w id s.found, ◌>>=◌)
        (rw
          (
            put_chunk-ok env env.cache_buffer_size chunk t node.buffer node.pivot (chunk t)
                (omega (arith, sound.slots)) s.ring (chunks t) w,
            ◌>>=◌,
          )
          (rw (deref-ok world_after node.cache s.writer.live, ◌>>=◌)
            (rw idle (
              rw (
                stores_next_chunk env id chunk (t + 1) c node_after world_after sound appended
                    (record { mux = disk.mux; known = disk.known; on_disk = disk.on_disk })
                    (chunks c) (omega (arith, s.behind)),
                ◌>>=◌,
              )))))

  -- A chunk from the origin, where the ring has room for one more: the call returns true, the node now
  -- stands for one chunk more, a writer that waits is handed the next chunk to write, at the offset
  -- that counts all chunks up to this one included, and one that is busy is left alone.
  pub append_buffer-Appends : Appends env id chunk t c s.request node w
  unfolding world_after node_after appended
  append_buffer-Appends = elim (Bool-cases s.request.is_processing) [
    | inl busy ↦ record {
      after = world_after;
      resource = node_after;
      returns = append_buffer-busy busy;
      storing = rw busy appended;
      same_writer = refl;
      written = rw busy;
      resources = refl;
      others = λ q ne. refl;
    }
    | inr idle ↦ record {
      after = stored_chunk env id node_after s.request (chunk c) (total chunk (c + 1)) world_after;
      resource = record node_after { size = total chunk (c + 1) };
      returns = append_buffer-idle idle;
      storing = rw idle (
          IsStoring-stored env id chunk (t + 1) c node_after world_after sound appended
            (record { mux = disk.mux; known = disk.known; on_disk = disk.on_disk }) (chunks c)
            (omega (arith, s.behind)));
      same_writer = refl;
      written = rw idle;
      resources = refl;
      others = λ q ne. update_other w.heap node.cache _ q ne;
    }
  ]
