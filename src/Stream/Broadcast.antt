-- ===== src/Stream/Broadcast.antt =====
-- src/Stream.cpp, `NotifyStream`: a chunk from the origin goes to the clients of the resource.
use mathlib.Core.Option
use cdn_uring.Prelude.{
  ℕ, ◌+◌, ◌%◌, ◌≤◌, ◌<◌, ◌≡◌, ◌≢◌, ◌∙◌, refl, ap, none, some, List, [], ◌∷◌, length, get_or, arith,
  if◌then◌else◌, Bool-cases, inl, inr, get_or-set_self, length-set,
}
use cdn_uring.Prelude.Mod.{mod-suc}
use cdn_uring.Prelude.Text.{Text}
use cdn_uring.Prelude.Result.{ok}
use cdn_uring.World.{Ptr, Request, Mux, Env, World, Sqe, prep_write}
use cdn_uring.World.Monad.{M, put_mux, update, ◌>>=◌}
use cdn_uring.World.Laws.{deref-ok, mux_at-ok, update_self, update_other, update_same}
use cdn_uring.Request.{no_iovec}
use cdn_uring.Stream.Registry.{exists_resource}
use cdn_uring.Stream.Write.{add_write_stream_request}
use cdn_uring.Stream.Notify.{
  notify_stream, notify_mux, notify_listeners, unless_processing, drop_result,
}
use cdn_uring.Stream.Ring.{Holds, IsChunk, IsSound, ring_after, ring_after-Holds, put_chunk-ok}
use cdn_uring.Stream.Deliver.{IsClient, client_after, filled_block, sends_next_chunk}
use cdn_uring.Stream.Loop.{All, All-zip, All-zip_three, Distinct, run_all}
use cdn_uring.Stream.Each.{round, round-eq, emitted, Changed, run_all-Changed, each_request_rounds}

-- The client at `p` waits for the resource `id`: it has read the first `read p` of `t` chunks, and is
-- less than a whole ring behind.
pub record Reads (env : Env) (id t : ℕ) (read : Ptr → ℕ) (w : World) (p : Ptr) : Type 0 where
  pub request : Request
  pub client : IsClient env w p request
  pub member : request.resource_id ≡ id
  pub place : request.pivot ≡ read p % env.streaming_buffer_size
  pub behind : read p ≤ t
  pub near : t < read p + env.streaming_buffer_size

-- The resource `id` was given the chunks before `chunk t`, and each of its requests reads them.
pub record IsServing (env : Env) (id : ℕ) (chunk : ℕ → Text) (t : ℕ) (read : Ptr → ℕ) (mux : Mux)
    (w : World) : Type 0 where
  pub found : w.resources id ≡ some mux
  pub ring : Holds env env.streaming_buffer_size chunk t mux.buffer mux.pivot
  pub distinct : Distinct mux.requests
  pub readers : All (Reads env id t read w) mux.requests

-- What is read after a chunk came: an idle client reads on, a busy one does not.
abbrev pub read_on : (Ptr → ℕ) → World → Ptr → ℕ
read_on read w p = elim (w.heap p) [
  | none ↦ read p
  | some r ↦ if r.is_processing then read p else read p + 1
]

-- A client after a chunk came: an idle one has its next chunk in its buffer.
abbrev pub served : Env → (ℕ → Text) → (Ptr → ℕ) → Ptr → Request → Request
served env chunk read p r = if r.is_processing then r else client_after env r (chunk (read p))

-- The write that a chunk causes, if the client is idle.
abbrev pub delivery : (ℕ → Text) → (Ptr → ℕ) → Ptr → Request → List Sqe → List Sqe
delivery chunk read p r sqes =
    if r.is_processing then sqes else prep_write r.client_socket (chunk (read p)) 0 p ∷ sqes

-- What a chunk does to a resource that is served: the state after it, and how it comes about.
pub record Broadcasts (env : Env) (id : ℕ) (chunk : ℕ → Text) (t : ℕ) (read : Ptr → ℕ) (mux : Mux)
    (w : World) : Type 0 where
  pub after : World
  pub resource : Mux
  pub returns : notify_stream env id (chunk t) w ≡ ok (0, after)
  pub serving : IsServing env id chunk (t + 1) (read_on read w) resource after
  pub same_requests : resource.requests ≡ mux.requests
  pub same_place : resource.in_memory ≡ mux.in_memory
  pub clients :
      All (λ p. after.heap p ≡ Option.map (served env chunk read p) (w.heap p)) mux.requests
  pub others : (q : Ptr) → All (λ p. q ≢ p) mux.requests → after.heap q ≡ w.heap q
  pub other_resources : (j : ℕ) → id ≢ j → after.resources j ≡ w.resources j
  pub written :
      after.submitted
      ≡ emitted (served env chunk read) (delivery chunk read) w.heap mux.requests w.submitted

module _ (env : Env) (id : ℕ) (chunk : ℕ → Text) (t : ℕ) (read : Ptr → ℕ)
    (sound : IsSound env env.streaming_buffer_size) (chunks : (j : ℕ) → IsChunk env (chunk j)) where
  -- One round of the loop.
  serve : Ptr → World → World
  unfolding round
  serve = round (served env chunk read) (delivery chunk read)

  -- A client that can take the newest chunk.
  record CanTake (p : Ptr) (r : Request) : Type 0 where
    has_block : 0 < length r.iov
    large : env.http_buffer_size ≤ (get_or r.iov 0 no_iovec).cap
    member : r.resource_id ≡ id
    place : r.pivot ≡ read p % env.streaming_buffer_size
    near : t + 1 < read p + env.streaming_buffer_size
    unread : read p < t + 1

  body : Ptr → M (Unit {0})
  body p = unless_processing p (drop_result (add_write_stream_request env p))

  serves :
      (mux : Mux)
      → Holds env env.streaming_buffer_size chunk (t + 1) mux.buffer mux.pivot
      → (p : Ptr) (r : Request) (w : World) → w.resources id ≡ some mux
      → w.heap p ≡ some r
      → CanTake p r
      → body p w ≡ ok (tt, serve p w)
  unfolding body unless_processing serve
  serves mux ring p r w found live c =
      rw (deref-ok w p live, ◌>>=◌)
        (rw (round-eq (served env chunk read) (delivery chunk read) p w live)
          (elim (Bool-cases r.is_processing) [
            | inl busy ↦ simp busy (rw (update_same w.heap p live))
            | inr idle ↦ rw idle (
                rw (
                  sends_next_chunk env chunk (t + 1) (read p) p r mux w sound ring
                      (record { live = live; has_block = c.has_block; large = c.large })
                      (rw (c.member) found) c.place c.near (chunks (read p)) c.unread,
                  ◌>>=◌,
                ))
          ]))

  Reads-on :
      (w w' : World) (p : Ptr)
      → Reads env id t read w p
      → t + 1 < read p + env.streaming_buffer_size
      → w'.heap p ≡ Option.map (served env chunk read p) (w.heap p)
      → Reads env id (t + 1) (read_on read w) w' p
  Reads-on w w' p rd near' e = elim (Bool-cases rd.request.is_processing) [
    | inl busy ↦
        let kept : read_on read w p ≡ read p = rw (rd.client.live, read_on) (rw busy) in
        record {
          request = rd.request;
          client = record {
            live = e ∙ rw (rd.client.live) (rw busy);
            has_block = rd.client.has_block;
            large = rd.client.large;
          };
          member = rd.member;
          place = rw kept rd.place;
          behind = rw kept (omega (arith, rd.behind));
          near = rw kept near';
        }
    | inr idle ↦
        let on : read_on read w p ≡ read p + 1 = rw (rd.client.live, read_on) (rw idle) in
        let block =
          get_or-set_self rd.request.iov 0 (filled_block rd.request (chunk (read p))) no_iovec
            rd.client.has_block in
        record {
          request = client_after env rd.request (chunk (read p));
          client = record {
            live = e ∙ rw (rd.client.live) (rw idle);
            has_block =
                rw (length-set rd.request.iov 0 (filled_block rd.request (chunk (read p))))
                  rd.client.has_block;
            large = rw block rd.client.large;
          };
          member = rd.member;
          place = rw on (rw (rd.place) (mod-suc env.streaming_buffer_size (read p)));
          behind = rw on (omega (arith, rd.behind));
          near = rw on (omega (arith, near'));
        }
  ]

  -- The resource after the chunk was put into its ring.
  mux_after : Mux → Mux
  mux_after mux = record mux {
    buffer = ring_after env env.streaming_buffer_size mux.buffer mux.pivot (chunk t);
    pivot = (mux.pivot + 1) % env.streaming_buffer_size;
  }

  world_after : Mux → World → World
  world_after mux w = record w { resources = update w.resources id (some (mux_after mux)) }

  can_take :
      (w : World) (p : Ptr)
      → Reads env id t read w p
      → t + 1 < read p + env.streaming_buffer_size
      → (r : Request) × (w.heap p ≡ some r) × CanTake p r
  can_take w p rd near' = (
    rd.request,
    rd.client.live,
    record {
      has_block = rd.client.has_block;
      large = rd.client.large;
      member = rd.member;
      place = rd.place;
      near = near';
      unread = omega (arith, rd.behind);
    },
  )

  notify_listeners-eq :
      (mux : Mux) (w : World)
      → IsServing env id chunk t read mux w
      → All (λ p. t + 1 < read p + env.streaming_buffer_size) mux.requests
      → notify_listeners env id mux (chunk t) w
        ≡ ok (0, run_all serve mux.requests (world_after mux w))
  unfolding notify_listeners put_mux mux_after world_after body serve
  notify_listeners-eq mux w s near =
      rw
        (
          put_chunk-ok env env.streaming_buffer_size chunk t mux.buffer mux.pivot (chunk t)
              (omega (arith, sound.slots)) s.ring (chunks t) w,
          ◌>>=◌,
        )
        (rw (
          each_request_rounds (served env chunk read) (delivery chunk read) id (mux_after mux) body
              CanTake
              (serves (mux_after mux) (
                ring_after-Holds env env.streaming_buffer_size chunk t mux.buffer mux.pivot sound
                  s.ring (chunks t)))
              (world_after mux w) (update_self w.resources id (some (mux_after mux))) s.distinct
              (All-zip mux.requests (λ p rd nr. can_take w p rd nr) s.readers near),
          ◌>>=◌,
        ))

  notify_stream-eq :
      (mux : Mux) (w : World)
      → w.resources id ≡ some mux
      → mux.requests ≢ []
      → notify_stream env id (chunk t) w ≡ notify_listeners env id mux (chunk t) w
  unfolding notify_stream exists_resource notify_mux
  notify_stream-eq mux w found some_listener =
      rw found (rw (mux_at-ok w id found, ◌>>=◌) (ground arith))

  -- A chunk from the origin, where each client of the resource reads its own place in the log and has
  -- room for one more chunk before the ring overtakes it: the call returns 0, the resource keeps its
  -- requests and now stands for one chunk more, each idle client is sent the next chunk of its own and
  -- no other, each busy client is left alone, and no write is lost or made twice.
  pub notify_stream-Broadcasts :
      (mux : Mux) (w : World)
      → IsServing env id chunk t read mux w
      → mux.requests ≢ []
      → All (λ p. t + 1 < read p + env.streaming_buffer_size) mux.requests
      → Broadcasts env id chunk t read mux w
  unfolding world_after mux_after serve
  notify_stream-Broadcasts mux w s some_listener near = record {
    after = run_all serve mux.requests start;
    resource = mux_after mux;
    returns = notify_stream-eq mux w s.found some_listener ∙ notify_listeners-eq mux w s near;
    serving = record {
      found = ap (λ f. f id) all.resources ∙ update_self w.resources id (some (mux_after mux));
      ring =
          ring_after-Holds env env.streaming_buffer_size chunk t mux.buffer mux.pivot sound s.ring
            (chunks t);
      distinct = s.distinct;
      readers =
          All-zip_three mux.requests (λ p rd h e. Reads-on w _ p rd h e) s.readers near all.clients;
    };
    same_requests = refl;
    same_place = refl;
    clients = all.clients;
    others = all.others;
    other_resources = λ j ne.
        ap (λ f. f j) all.resources ∙ update_other w.resources id (some (mux_after mux)) j ne;
    written = all.written;
  }
    where
      start : World
      start = world_after mux w

      all :
          Changed
            (served env chunk read)
            (delivery chunk read)
            mux.requests
            start
            (run_all serve mux.requests start)
      all =
          run_all-Changed (served env chunk read) (delivery chunk read) mux.requests start
            s.distinct
