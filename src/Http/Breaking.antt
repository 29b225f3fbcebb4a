-- ===== src/Http/Breaking.antt =====
-- src/Http.cpp: the connection to the origin breaks, before its header or in its content.
use cdn_uring.Prelude.{ℕ, ◌<◌, ◌≡◌, ◌≢◌, ◌∙◌, some, none, ◌∷◌}
use cdn_uring.Prelude.Int.{ℤ, negsuc}
use cdn_uring.Prelude.Text.{Text}
use cdn_uring.Prelude.Result.{ok}
use cdn_uring.World.{Ptr, Request, Mux, Env, World}
use cdn_uring.World.Monad.{update, close_fd, ◌>>=◌}
use cdn_uring.World.Laws.{deref-ok, release-ok}
use cdn_uring.Server.{status_content}
use cdn_uring.Stream.Loop.{All, Distinct}
use cdn_uring.Stream.Failing.{Waits, Fails, release_error_all_waiting_request-Fails}
use cdn_uring.Http.Client.{http_client, release_socket}
use cdn_uring.Http.Read.{
  handle_read_header_request, handle_read_data, on_answer, end_header, end_content,
}

-- The world without the connection `r` at `p`.
abbrev pub hung_up : Ptr → Request → World → World
hung_up p r w = record w { heap = update w.heap p none; closed = r.client_socket ∷ w.closed }

-- What a broken connection leaves behind, whether its header or its content was awaited.
pub record Breaks (env : Env) (id : ℕ) (content : Text) (socket : Ptr → ℤ) (mux : Mux) (n : ℕ)
    (p : Ptr) (r : Request) (w : World) : Type 0 where
  pub fails : Fails id 502 content socket mux w
  pub before_header :
      handle_read_header_request http_client env p (negsuc n) w ≡ ok (1, hung_up p r fails.after)
  pub in_content : handle_read_data http_client env p (negsuc n) w ≡ ok (1, hung_up p r fails.after)

module _ (env : Env) (id : ℕ) (content : Text) (socket : Ptr → ℤ) (mux : Mux) (n : ℕ) (p : Ptr)
    (r : Request) (w : World) (known : status_content 502 ≡ some content)
    (found : w.resources id ≡ some mux) (distinct : Distinct mux.requests)
    (waits : All (Waits socket w) mux.requests) (apart : All (λ q. q ≢ p) mux.requests)
    (live : w.heap p ≡ some r) (in_use : p < w.next) (member : r.resource_id ≡ id) where
  failing : Fails id 502 content socket mux w
  failing =
      release_error_all_waiting_request-Fails id 502 content socket known mux w found distinct waits

  still : failing.after.heap p ≡ some r
  still = failing.others p in_use apart ∙ live

  hangs_up : release_socket p failing.after ≡ ok (tt, hung_up p r failing.after)
  unfolding release_socket close_fd
  hangs_up =
      rw (deref-ok failing.after p still, ◌>>=◌) (rw (release-ok closed_socket p still, ◌>>=◌))
    where
      closed_socket : World
      closed_socket = record failing.after { closed = r.client_socket ∷ failing.after.closed }

  -- The read from the origin fails, before its header or in its content: all clients of the resource are
  -- told that there is no answer, their requests are freed and the resource is gone, and the
  -- connection's socket is closed and its request freed, once each.
  pub handle_read_data-Breaks : Breaks env id content socket mux n p r w
  unfolding handle_read_header_request handle_read_data on_answer end_header end_content
  handle_read_data-Breaks = record {
    fails = failing;
    before_header =
        rw (deref-ok w p live, ◌>>=◌)
          (rw (member) (rw (failing.returns, ◌>>=◌) (rw (hangs_up, ◌>>=◌))));
    in_content =
        rw (deref-ok w p live, ◌>>=◌)
          (rw (member) (rw (failing.returns, ◌>>=◌) (rw (hangs_up, ◌>>=◌))));
  }
