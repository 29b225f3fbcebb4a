-- ===== src/Engine/Leave.antt =====
-- src/Engine.cpp: a client of a resource is gone.
use cdn_uring.Prelude.{ℕ, ◌≡◌, ◌≢◌, ◌∙◌, false, some, none, List, ◌∷◌, ◌++◌}
use cdn_uring.Prelude.Int.{negsuc}
use cdn_uring.Prelude.Result.{ok}
use cdn_uring.Event
use cdn_uring.World.{Ptr, Request, Mux, World}
use cdn_uring.World.Monad.{update, ◌>>=◌}
use cdn_uring.World.Laws.{deref-ok, release-ok, update_self, update-update}
use cdn_uring.Server.{handle_write_stream}
use cdn_uring.Stream.Loop.{All}
use cdn_uring.Stream.Removal.{left_over, remove_request_takes}
use cdn_uring.Engine.{Engine, run_once, on_write_partial}
use cdn_uring.Engine.Idle.{idled, run_once-partial}

-- The world without the request at `p`, in which its resource has the requests `rest`.
abbrev pub left_world : ℕ → Mux → Ptr → List Ptr → World → World
left_world id mux p rest w = record w {
  heap = update w.heap p none;
  resources = update w.resources id (left_over mux rest);
}

-- A write to a client has failed because its socket is closed: the client leaves its resource and its
-- request is freed, once; the other clients keep their order, and a stream without a client is freed.
pub run_once-left_world :
    (engine : Engine) (id : ℕ) (mux : Mux) (p : Ptr) (pre post : List Ptr) (r : Request) (w : World)
    → w.resources id ≡ some mux
    → mux.requests ≡ pre ++ (p ∷ post)
    → All (λ q. q ≢ p) pre
    → w.heap p ≡ some r
    → r.resource_id ≡ id
    → r.event_type ≡ Event.server_write_partial
    → run_once engine p (negsuc 31) w ≡ ok (tt, left_world id mux p (pre ++ post) w)
unfolding on_write_partial handle_write_stream
run_once-left_world engine id mux p pre post r w found split ne live member kind =
    run_once-partial engine p r (negsuc 31) w live kind
    ∙ rw (deref-ok idle p (update_self w.heap p _), ◌>>=◌)
        (rw
          (remove_request_takes r.resource_id mux idle (rw member found) p pre post split ne, ◌>>=◌)
          (rw (
            release-ok gone p (update_self w.heap p _),
            update-update w.heap p (some (record r { is_processing = false })) none,
            member,
          )))
  where
    idle : World
    idle = idled p r w

    gone : World
    gone = record idle {
      resources = update w.resources r.resource_id (left_over mux (pre ++ post));
    }
