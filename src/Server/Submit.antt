-- ===== src/Server/Submit.antt =====
-- src/Server.cpp: what the functions that write to a client leave behind.
use cdn_uring.Prelude.{ℕ, ◌<◌, ◌≡◌, true, some, ◌∷◌, length, get_or}
use cdn_uring.Prelude.Result.{ok}
use cdn_uring.Event
use cdn_uring.World.{Ptr, Request, World, prep_write, prep_nop}
use cdn_uring.World.Monad.{bytes_of, store, submit, update, ◌>>=◌}
use cdn_uring.World.Laws.{deref-ok, element-ok}
use cdn_uring.Request.{no_iovec}
use cdn_uring.Server.{add_write_request, add_write_header_request, add_close_request}

-- A write of the client's buffer, as the ring gets it.
abbrev pub after_write : Ptr → Request → ℕ → World → World
after_write p r event_type w = record w {
  heap = update w.heap p (some (record r { event_type = event_type; is_processing = true }));
  submitted = prep_write r.client_socket (bytes_of (get_or r.iov 0 no_iovec)) 0 p ∷ w.submitted;
}

abbrev pub after_close : Ptr → Request → World → World
after_close p r w = record w {
  heap = update w.heap p (some (record r { event_type = Event.server_close }));
  submitted = prep_nop p ∷ w.submitted;
}

module _ (p : Ptr) (r : Request) (w : World) (live : w.heap p ≡ some r) where
  pub add_write_request-ok :
      (event_type : ℕ)
      → 0 < length r.iov
      → add_write_request p event_type w ≡ ok (tt, after_write p r event_type w)
  unfolding add_write_request store submit
  add_write_request-ok event_type h =
      rw (deref-ok w p live, ◌>>=◌) (rw (element-ok w r.iov 0 no_iovec h, ◌>>=◌))

  pub add_write_header_request-ok :
      0 < length r.iov
      → add_write_header_request p w ≡ ok (tt, after_write p r Event.server_write_header w)
  unfolding add_write_header_request store submit
  add_write_header_request-ok h =
      rw (deref-ok w p live, ◌>>=◌) (rw (element-ok w r.iov 0 no_iovec h, ◌>>=◌))

  pub add_close_request-ok : add_close_request p w ≡ ok (tt, after_close p r w)
  unfolding add_close_request store submit
  add_close_request-ok = rw (deref-ok w p live, ◌>>=◌)
