-- ===== src/Stream/Headers.antt =====
-- src/Stream.cpp, `SetStreamingResource` and `SetCacheResource`: the header goes to the clients.
use mathlib.Core.Option
use cdn_uring.Prelude.{
  ℕ, ◌<◌, ◌≤◌, ◌≡◌, ◌≢◌, ◌==◌, ◌&&◌, refl, not, Bool, true, false, some, List, ◌∷◌, length,
  if◌then◌else◌, Bool-cases, inl, inr, take-length, length-set, set, get_or-set_self,
}
use cdn_uring.Prelude.Text.{Text, codes}
use cdn_uring.Prelude.Result.{ok}
use cdn_uring.Event
use cdn_uring.Headers.{get_header_tag}
use cdn_uring.World.{Iovec, Ptr, Request, Mux, Env, World, Sqe, prep_write}
use cdn_uring.World.Monad.{store, put_mux, update, blank_block, block_of, ◌>>=◌}
use cdn_uring.World.Laws.{deref-ok, mux_at-ok, fill-ok, update_self, update_same, update-update}
use cdn_uring.Request.{no_iovec}
use cdn_uring.Server.Submit.{add_write_header_request-ok}
use cdn_uring.Stream.Write.{add_write_headers}
use cdn_uring.Stream.Notify.{
  set_streaming_resource, set_cache_resource, unless_processing, each_idle,
}
use cdn_uring.Stream.Loop.{All, Distinct, run_all}
use cdn_uring.Stream.Each.{round, round-eq, emitted, Changed, run_all-Changed, each_request_rounds}

-- A client whose header is under way.
abbrev pub header_block : Env → Text → Iovec
header_block env header = record { len = length header; cap = env.http_buffer_size; base = header }

abbrev pub headed : Env → Text → Ptr → Request → Request
headed env header p r = if r.is_processing then r else record r {
  event_type = Event.server_write_header;
  is_processing = true;
  iov = set r.iov 0 (header_block env header);
}

abbrev pub header_write : Text → Ptr → Request → List Sqe → List Sqe
header_write header p r sqes =
    if r.is_processing then sqes else prep_write r.client_socket header 0 p ∷ sqes

-- Whether the header may go out before the content is known.
abbrev pub is_held_back : Mux → Bool
is_held_back mux = not mux.is_completed && not (mux.transfer_mode == Event.header_soon_as_possible)

module _ (env : Env) (header : Text) (mux : Mux) (shown : mux.header ≡ block_of header)
    (fits : length header ≤ env.http_buffer_size) (free : is_held_back mux ≡ false) where
  pub add_write_headers-eq :
      (p : Ptr) (r : Request) (w : World)
      → w.heap p ≡ some r
      → 0 < length r.iov
      → r.is_processing ≡ false
      → add_write_headers env p mux w ≡ ok (tt, round (headed env header) (header_write header) p w)
  unfolding add_write_headers store
  add_write_headers-eq p r w live some_iov idle = rw free (
      rw (deref-ok w p live, ◌>>=◌)
        (rw (shown, take-length header)
          (rw (fill-ok w (blank_block env.http_buffer_size) header fits, ◌>>=◌)
            (rw
              (add_write_header_request-ok p buffered
                (record w { heap = update w.heap p (some buffered) })
                (update_self w.heap p (some buffered))
                (rw (length-set r.iov 0 (header_block env header)) some_iov))
              (rw
                (
                  round-eq (headed env header) (header_write header) p w live,
                  update-update w.heap p (some buffered) (
                      some (record buffered {
                        event_type = Event.server_write_header;
                        is_processing = true;
                      })),
                  get_or-set_self r.iov 0 (header_block env header) no_iovec some_iov,
                  take-length header,
                )
                (rw idle))))))
    where
      buffered : Request
      buffered = record r { iov = set r.iov 0 (header_block env header) }

  heads :
      (p : Ptr) (r : Request) (w : World)
      → w.heap p ≡ some r
      → 0 < length r.iov
      → unless_processing p (add_write_headers env p mux) w
        ≡ ok (tt, round (headed env header) (header_write header) p w)
  unfolding unless_processing
  heads p r w live some_iov =
      rw (deref-ok w p live, ◌>>=◌)
        (elim (Bool-cases r.is_processing) [
          | inl busy ↦
              rw (round-eq (headed env header) (header_write header) p w live)
                (simp busy (rw (update_same w.heap p live)))
          | inr idle ↦ rw idle (add_write_headers-eq p r w live some_iov idle)
        ])

-- What the header of a resource does to its clients.
pub record Heads (env : Env) (id : ℕ) (header : Text) (mux : Mux) (w after : World) : Type 0 where
  pub resource : after.resources ≡ update w.resources id (some mux)
  pub clients : All (λ p. after.heap p ≡ Option.map (headed env header p) (w.heap p)) mux.requests
  pub others : (q : Ptr) → All (λ p. q ≢ p) mux.requests → after.heap q ≡ w.heap q
  pub written :
      after.submitted
      ≡ emitted (headed env header) (header_write header) w.heap mux.requests w.submitted

-- A client whose buffer vector holds a buffer.
abbrev pub HasBuffer : World → Ptr → Type 0
HasBuffer w p = (r : Request) × (w.heap p ≡ some r) × (0 < length r.iov)

module _ (env : Env) (id : ℕ) (header : Text) (mux : Mux) (w : World)
    (fits : length header ≤ env.http_buffer_size) (distinct : Distinct mux.requests)
    (live : All (HasBuffer w) mux.requests) where
  headed_world : World
  headed_world =
      run_all (round (headed env header) (header_write header)) mux.requests
        (record w { resources = update w.resources id (some mux) })

  each_headed :
      mux.header ≡ block_of header
      → is_held_back mux ≡ false
      → each_idle id mux
          (λ c. add_write_headers env c mux)
          (record w { resources = update w.resources id (some mux) })
        ≡ ok (tt, headed_world)
  unfolding headed_world
  each_headed shown free =
      each_request_rounds (headed env header) (header_write header) id mux
        (λ c. unless_processing c (add_write_headers env c mux)) (λ p r. 0 < length r.iov)
        (λ p r v e l h. heads env header mux shown fits free p r v l h)
        (record w { resources = update w.resources id (some mux) })
        (update_self w.resources id (some mux)) distinct live

  headed_world-Heads : Heads env id header mux w headed_world
  unfolding headed_world
  headed_world-Heads = record {
    resource = all.resources;
    clients = all.clients;
    others = all.others;
    written = all.written;
  }
    where
      start : World
      start = record w { resources = update w.resources id (some mux) }

      all :
          Changed
            (headed env header)
            (header_write header)
            mux.requests
            start
            (run_all (round (headed env header) (header_write header)) mux.requests start)
      all = run_all-Changed (headed env header) (header_write header) mux.requests start distinct

-- The resource once it is known to be a stream.
abbrev pub streaming : Mux → Text → Mux
streaming mux header = record mux { type = Event.resource_streaming; header = block_of header }

-- The resource once it is known to be a file with an entity tag.
abbrev pub cached : Mux → Text → Text → Text → Bool → Mux
cached mux header path etag is_completed = record mux {
  type = Event.resource_cache;
  path = path;
  is_completed = is_completed;
  etag = etag;
  header = block_of header;
}

module _ (env : Env) (id : ℕ) (header : Text) (mux : Mux) (w : World)
    (found : w.resources id ≡ some mux) (fits : length header ≤ env.http_buffer_size)
    (distinct : Distinct mux.requests) (live : All (HasBuffer w) mux.requests) where
  -- The header of a stream comes from the origin, and does not have to wait for the content: the
  -- resource becomes a stream that keeps the header, each idle client is sent the header from its own
  -- buffer, each busy one is left alone, and nothing else is handed to the ring.
  pub set_streaming_resource-Heads :
      is_held_back (streaming mux header) ≡ false
      → (after : World) × (set_streaming_resource env id header w ≡ ok (tt, after))
        × Heads env id header (streaming mux header) w after
  unfolding set_streaming_resource put_mux
  set_streaming_resource-Heads free = (
    headed_world env id header (streaming mux header) w fits distinct live,
    rw (mux_at-ok w id found, ◌>>=◌)
        (each_headed env id header (streaming mux header) w fits distinct live refl free),
    headed_world-Heads env id header (streaming mux header) w fits distinct live,
  )

  -- The header of a file, from the origin or from the cache, fits a buffer, names an entity tag or none,
  -- and need not wait for the content: the resource becomes a file with that header, path, completion
  -- mark and entity tag, each idle client is sent the header from its own buffer, each busy one is left
  -- alone, and nothing else is handed to the ring.
  pub set_cache_resource-Heads :
      (path etag : Text) (is_completed : Bool)
      → get_header_tag header (codes "ETag") ≡ ok etag
      → is_held_back (cached mux header path etag is_completed) ≡ false
      → (after : World) × (set_cache_resource env id header path is_completed w ≡ ok (tt, after))
        × Heads env id header (cached mux header path etag is_completed) w after
  unfolding set_cache_resource put_mux
  set_cache_resource-Heads path etag is_completed tagged free = (
    headed_world env id header (cached mux header path etag is_completed) w fits distinct live,
    rw (mux_at-ok w id found, ◌>>=◌)
        (rw (tagged) (
          each_headed env id header (cached mux header path etag is_completed) w fits distinct live
            refl free)),
    headed_world-Heads env id header (cached mux header path etag is_completed) w fits distinct
        live,
  )
