-- ===== src/Engine/Idle.antt =====
-- src/Engine.cpp: a chunk has arrived at a client of a stream, and the client is idle again.
use cdn_uring.Prelude.{ℕ, ◌≡◌, ◌∙◌, sym, ap, false, some, ℕ_discrete}
use cdn_uring.Prelude.Int.{ℤ, is_socket_closed}
use cdn_uring.Prelude.Text.{Text}
use cdn_uring.Prelude.Result.{ok}
use cdn_uring.Event
use cdn_uring.World.{Ptr, Request, Mux, Env, World}
use cdn_uring.World.Monad.{M, update, store, ◌>>=◌}
use cdn_uring.World.Laws.{deref-ok, mux_at-ok, update_self, update_other}
use cdn_uring.Server.{handle_write_stream}
use cdn_uring.Stream.Write.{process_next}
use cdn_uring.Stream.Loop.{All-map}
use cdn_uring.Stream.Broadcast.{Reads, IsServing}
use cdn_uring.Engine.{
  Engine, run_once, on_server_event, on_cache_event, on_other_event, on_write_partial,
}

-- The world in which the request `r` at `p` is idle.
abbrev pub idled : Ptr → Request → World → World
idled p r w = record w { heap = update w.heap p (some (record r { is_processing = false })) }

pub some_injective {ℓ} : {A : Type ℓ} {a b : A} → some a ≡ some b → a ≡ b
some_injective e = cc

on_server_event-partial :
    (engine : Engine) (p : Ptr) (response : ℤ) (other : M (Unit {0})) (type : ℕ)
    → type ≡ Event.server_write_partial
    → on_server_event engine type p response other ≡ on_write_partial engine.env p response
unfolding on_server_event
on_server_event-partial engine p response other type kind = rw kind

-- The round for a write to a client of a stream.
pub run_once-partial :
    (engine : Engine) (p : Ptr) (r : Request) (response : ℤ) (w : World)
    → w.heap p ≡ some r
    → r.event_type ≡ Event.server_write_partial
    → run_once engine p response w ≡ on_write_partial engine.env p response (idled p r w)
unfolding run_once store
run_once-partial engine p r response w live kind =
    rw (deref-ok w p live, ◌>>=◌)
      (ap (λ m. m (idled p r w))
        (on_server_event-partial engine p response
          (on_cache_event engine r.event_type p response
            (on_other_event engine r.event_type p response))
          r.event_type kind))

Reads-idled :
    (env : Env) (id t : ℕ) (read : Ptr → ℕ) (p : Ptr) (r : Request) (w : World)
    → w.heap p ≡ some r
    → (q : Ptr) → Reads env id t read w q
    → Reads env id t read (idled p r w) q
Reads-idled env id t read p r w live q rd = elim (ℕ_discrete p q) [
  | yes at ↦
      let same : r ≡ rd.request = some_injective (sym live ∙ ap w.heap at ∙ rd.client.live) in
      record {
        request = record rd.request { is_processing = false };
        client = record {
          live =
              ap (update w.heap p (some (record r { is_processing = false }))) (sym at)
              ∙ update_self w.heap p (some (record r { is_processing = false }))
              ∙ ap {A = Request} (λ x. some (record x { is_processing = false })) same;
          has_block = rd.client.has_block;
          large = rd.client.large;
        };
        member = rd.member;
        place = rd.place;
        behind = rd.behind;
        near = rd.near;
      }
  | no ne ↦ record {
    request = rd.request;
    client = record {
      live = update_other w.heap p _ q ne ∙ rd.client.live;
      has_block = rd.client.has_block;
      large = rd.client.large;
    };
    member = rd.member;
    place = rd.place;
    behind = rd.behind;
    near = rd.near;
  }
]

-- What a finished write does to a stream.
pub record Idles (engine : Engine) (id : ℕ) (chunk : ℕ → Text) (t : ℕ) (read : Ptr → ℕ) (mux : Mux)
    (p : Ptr) (r : Request) (response : ℤ) (w : World) : Type 0 where
  pub returns : run_once engine p response w ≡ ok (tt, idled p r w)
  pub serving : IsServing engine.env id chunk t read mux (idled p r w)

-- A write to a client of a stream that is not held in memory has finished, and the socket is not
-- closed: the client is idle again and nothing else changes, even if chunks wait that it has not read.
-- The resource still serves all its clients.
pub run_once-Idles :
    (engine : Engine) (id : ℕ) (chunk : ℕ → Text) (t : ℕ) (read : Ptr → ℕ) (mux : Mux) (p : Ptr)
    (r : Request) (response : ℤ) (w : World)
    → IsServing engine.env id chunk t read mux w
    → mux.in_memory ≡ false
    → w.heap p ≡ some r
    → r.resource_id ≡ id
    → r.event_type ≡ Event.server_write_partial
    → is_socket_closed response ≡ false
    → Idles engine id chunk t read mux p r response w
unfolding on_write_partial handle_write_stream process_next
run_once-Idles engine id chunk t read mux p r response w s on_air live member kind alive = record {
  returns =
      run_once-partial engine p r response w live kind
      ∙ rw alive (
          rw (deref-ok (idled p r w) p (update_self w.heap p _), ◌>>=◌)
            (rw (mux_at-ok (idled p r w) r.resource_id {mux = mux} (rw member s.found), ◌>>=◌)
              (rw (on_air))));
  serving = record {
    found = s.found;
    ring = s.ring;
    distinct = s.distinct;
    readers = All-map mux.requests (Reads-idled engine.env id t read p r w live) s.readers;
  };
}
