-- ===== src/Stream/Closing.antt =====
-- src/Stream.cpp, `CloseStream`: the origin is done, and all clients are closed.
use mathlib.Core.Option
use cdn_uring.Prelude.{ℕ, ◌≡◌, ◌≢◌, ◌∙◌, ap, sym, none, some, List, ◌∷◌}
use cdn_uring.Prelude.Result.{ok}
use cdn_uring.Event
use cdn_uring.World.{Ptr, Request, Mux, World, Sqe, prep_nop}
use cdn_uring.World.Monad.{erase_mux, update, ◌>>=◌}
use cdn_uring.World.Laws.{mux_at-ok, update_self, update_other}
use cdn_uring.Server.{add_close_request}
use cdn_uring.Server.Submit.{add_close_request-ok}
use cdn_uring.Stream.Registry.{release_resource}
use cdn_uring.Stream.Notify.{close_stream}
use cdn_uring.Stream.Loop.{All, All-map, Distinct, run_all}
use cdn_uring.Stream.Each.{round, round-eq, emitted, Changed, run_all-Changed, each_request_rounds}

abbrev pub IsLive : World → Ptr → Type 0
IsLive w p = (r : Request) × (w.heap p ≡ some r)

-- A client that waits to be closed, and what is handed to the ring for it.
abbrev pub closing : Ptr → Request → Request
closing p r = record r { event_type = Event.server_close }

abbrev pub close_nop : Ptr → Request → List Sqe → List Sqe
close_nop p r sqes = prep_nop p ∷ sqes

pub record Closes (id : ℕ) (mux : Mux) (w : World) : Type 0 where
  pub after : World
  pub returns : close_stream id w ≡ ok (tt, after)
  pub gone : after.resources id ≡ none
  pub others : (j : ℕ) → id ≢ j → after.resources j ≡ w.resources j
  pub clients : All (λ p. after.heap p ≡ Option.map (closing p) (w.heap p)) mux.requests
  pub other_requests : (q : Ptr) → All (λ p. q ≢ p) mux.requests → after.heap q ≡ w.heap q
  pub written : after.submitted ≡ emitted closing close_nop w.heap mux.requests w.submitted

module _ (id : ℕ) (mux : Mux) (w : World) (found : w.resources id ≡ some mux)
    (distinct : Distinct mux.requests) (live : All (IsLive w) mux.requests) where
  closed_all : World
  closed_all = run_all (round closing close_nop) mux.requests w

  all : Changed closing close_nop mux.requests w closed_all
  unfolding closed_all
  all = run_all-Changed closing close_nop mux.requests w distinct

  -- The origin has ended a stream: each of its clients is marked to be closed and comes back from the
  -- ring once for that, in order, and the resource, but no other, is gone.
  pub close_stream-Closes : Closes id mux w
  unfolding close_stream closed_all release_resource erase_mux
  close_stream-Closes = record {
    after = record closed_all { resources = update closed_all.resources id none };
    returns =
        rw (mux_at-ok w id found, ◌>>=◌)
          (rw
            (
              each_request_rounds closing close_nop id mux add_close_request (λ p r. Unit {0})
                  (λ p r v e l u.
                    add_close_request-ok p r v l
                    ∙ ap (λ x. ok (tt, x)) (sym (round-eq closing close_nop p v l)))
                  w found distinct (All-map mux.requests (λ p h. (h.0, h.1, tt)) live),
              ◌>>=◌,
            )
            (rw (mux_at-ok closed_all id (ap (λ f. f id) all.resources ∙ found), ◌>>=◌)));
    gone = update_self closed_all.resources id none;
    others = λ j ne. update_other closed_all.resources id none j ne ∙ ap (λ f. f j) all.resources;
    clients = all.clients;
    other_requests = all.others;
    written = all.written;
  }
