-- ===== src/Astra/Rejected.antt =====
-- src/AstraHttpClient.cpp, `HandleReadHeaderRequest`: the origin answers with another status than 200.
use cdn_uring.Prelude.{
  ℕ, suc, ◌<◌, ◌≡◌, ◌≢◌, ◌∙◌, sym, true, false, some, ◌∷◌, length, get_or, take,
}
use cdn_uring.Prelude.Int.{ℤ, pos, same_int}
use cdn_uring.Prelude.Text.{Text, substr}
use cdn_uring.Prelude.Text.Lines.{stoi_signed}
use cdn_uring.Prelude.Result.{ok}
use cdn_uring.Astra.Read.{
  get_status_code, reject_answer, read_astra_header, on_astra_header,
  handle_astra_read_header_request,
}
use cdn_uring.Http.Breaking.{hung_up}
use cdn_uring.Http.Client.{release_socket}
use cdn_uring.Http.Parse.{fetch_header_length, process_external_header}
use cdn_uring.Http.Read.{with_length}
use cdn_uring.Request.{no_iovec}
use cdn_uring.Server.{status_content}
use cdn_uring.Stream.Failing.{Waits, Fails, release_error_all_waiting_request-Fails}
use cdn_uring.Stream.Loop.{All, All-map, All-zip, Distinct}
use cdn_uring.Stream.Registry.{exists_resource}
use cdn_uring.World.{Ptr, Request, Mux, Env, World}
use cdn_uring.World.Laws.{deref-ok, element-ok, mux_at-ok, release-ok, update_self, update_other}
use cdn_uring.World.Monad.{update, store, set_iov, close_fd, ◌>>=◌}

-- The connection `r` at `p` has read a header with a status.
pub record IsHeader (p : Ptr) (r : Request) (n length_of status : ℕ) (w : World) : Type 0 where
  pub live : w.heap p ≡ some r
  pub in_use : p < w.next
  pub has_block : 0 < length r.iov
  pub ends : fetch_header_length (suc n) (get_or r.iov 0 no_iovec).base 0 ≡ ok length_of
  pub rest : Text
  pub status_line :
      substr (process_external_header length_of (get_or r.iov 0 no_iovec).base) 9 ≡ ok rest
  pub status_code : stoi_signed (take 3 rest) ≡ ok (pos status)

-- The connection with the length of the header.
abbrev pub headed : ℕ → Request → Request
headed n r = set_iov r 0 (with_length (get_or r.iov 0 no_iovec) n)

abbrev pub with_header : Ptr → ℕ → Request → World → World
with_header p n r w = record w { heap = update w.heap p (some (headed n r)) }

-- What is left behind by an answer with such a status.
pub record Rejects (env : Env) (now status : ℕ) (content : Text) (socket : Ptr → ℤ) (mux : Mux)
    (n length_of : ℕ) (p : Ptr) (r : Request) (w : World) : Type 0 where
  pub fails : Fails r.resource_id status content socket mux (with_header p length_of r w)
  pub returns :
      handle_astra_read_header_request env now p (pos (suc n)) w
      ≡ ok (1, hung_up p (headed length_of r) fails.after)

module _ (env : Env) (now status : ℕ) (content : Text) (socket : Ptr → ℤ) (mux : Mux)
    (n length_of : ℕ) (p : Ptr) (r : Request) (w : World)
    (known : status_content status ≡ some content)
    (not_ok : same_int (pos status) (pos 200) ≡ false)
    (found : w.resources r.resource_id ≡ some mux) (distinct : Distinct mux.requests)
    (waits : All (Waits socket w) mux.requests) (apart : All (λ q. p ≢ q) mux.requests)
    (header : IsHeader p r n length_of status w) where
  read : World
  read = with_header p length_of r w

  still-Waits : (q : Ptr) → p ≢ q → Waits socket w q → Waits socket read q
  unfolding read
  still-Waits q ne h = record {
    request = h.request;
    live = update_other w.heap p _ q ne ∙ h.live;
    in_use = h.in_use;
    on_socket = h.on_socket;
  }

  failing : Fails r.resource_id status content socket mux read
  unfolding read
  failing =
      release_error_all_waiting_request-Fails r.resource_id status content socket known mux read
        found distinct (All-zip mux.requests still-Waits apart waits)

  still : failing.after.heap p ≡ some (headed length_of r)
  unfolding read
  still =
      failing.others p header.in_use (All-map mux.requests (λ q ne e. ne (sym e)) apart)
      ∙ update_self w.heap p _

  hangs_up : release_socket p failing.after ≡ ok (tt, hung_up p (headed length_of r) failing.after)
  unfolding release_socket close_fd
  hangs_up =
      rw (deref-ok failing.after p still, ◌>>=◌) (rw (release-ok closed_socket p still, ◌>>=◌))
    where
      closed_socket : World
      closed_socket = record failing.after { closed = r.client_socket ∷ failing.after.closed }

  status_read :
      (v : World)
      → get_status_code (process_external_header length_of (get_or r.iov 0 no_iovec).base) v
        ≡ ok (pos status, v)
  unfolding get_status_code
  status_read v = rw (header.status_line, header.status_code)

  rejected :
      read_astra_header env now p mux (suc n) w
      ≡ ok (1, hung_up p (headed length_of r) failing.after)
  unfolding read_astra_header reject_answer store read
  rejected =
      rw (deref-ok w p header.live, ◌>>=◌)
        (rw (element-ok w r.iov 0 no_iovec header.has_block, ◌>>=◌)
          (rw (header.ends, ◌>>=◌)
            (rw (status_read, ◌>>=◌)
              (rw not_ok (rw (failing.returns, ◌>>=◌) (rw (hangs_up, ◌>>=◌)))))))

  exists_resource-ok : exists_resource r.resource_id w ≡ ok (true, w)
  unfolding exists_resource
  exists_resource-ok = rw found

  -- The header of an answer names another status than 200, one that the server has a text for: each waiting client
  -- is sent that text, its request is freed and the resource is gone, and the connection's socket is closed and
  -- its request freed, once each.
  pub handle_astra_read_header_request-Rejects :
      Rejects env now status content socket mux n length_of p r w
  unfolding handle_astra_read_header_request on_astra_header read
  handle_astra_read_header_request-Rejects = record {
    fails = failing;
    returns =
        rw (deref-ok w p header.live, ◌>>=◌)
          (rw (exists_resource-ok, ◌>>=◌) (rw (mux_at-ok w r.resource_id found, ◌>>=◌) rejected));
  }
