-- ===== src/Http/Secure.antt =====
-- src/HttpsClient.cpp, `PreRequest` and `ProcessError`: what TLS has deciphered goes to the clients.
use cdn_uring.Prelude.{
  ℕ, suc, ◌+◌, ◌≤◌, ◌<◌, ◌≡◌, ◌≢◌, ◌∙◌, refl, true, ◌||◌, some, [], ◌++◌, length, get_or, drop, leb,
  le→leb, arith, ◌==◌, get_or-set_self, length-set,
}
use cdn_uring.Prelude.Int.{ℤ, pos}
use cdn_uring.Prelude.Text.{Text}
use cdn_uring.Prelude.Text.First.{take-append}
use cdn_uring.Prelude.Result.{ok}
use cdn_uring.Event
use cdn_uring.Request.{no_iovec}
use cdn_uring.Stream.Loop.{All, All-zip}
use cdn_uring.Stream.Ring.{IsChunk, IsSound}
use cdn_uring.Stream.Broadcast.{IsServing, Reads}
use cdn_uring.Http.Forward.{IsAnswer, Receives, Rearms, Forwards, handle_read_data-Forwards}
use cdn_uring.Http.Tls.{
  Tls, process_error, read_into, judge, pre_tls_request, post_tls_request, tls_client,
}
use cdn_uring.World.{Iovec, Ptr, Request, Mux, Env, World, Sqe, prep_nop}
use cdn_uring.World.Monad.{update, store, submit, set_iov, ◌>>=◌}
use cdn_uring.World.Laws.{deref-ok, element-ok, update_self, update_other}

-- What the documentation of `SSL_get_error` says of an answer above 0: it is no error.
abbrev pub IsDocumented : Tls → Type 0
IsDocumented tls = (n : ℕ) → tls.get_error (pos (suc n)) ≡ 0

-- Two calls of `ProcessError` are enough, whatever the answer was: the result is true for no error, for
-- a connection that was closed, and for an error of the system, and false for all others; nothing
-- changes.
pub process_error-ends :
    (tls : Tls) (n : ℕ) (last_error : ℤ) (w : World)
    → IsDocumented tls
    → process_error tls (suc (suc n)) last_error w
      ≡ ok (
        (tls.get_error last_error == 0)
            || ((tls.get_error last_error == 6) || (tls.get_error last_error == 5)),
        w,
      )
unfolding process_error
process_error-ends tls n last_error w documented = ground (arith, documented 4)

-- The block of a connection with bytes that were deciphered, over those that were there.
abbrev pub over : Text → Iovec → Iovec
over bytes v = record v { base = bytes ++ drop (length bytes) v.base }

abbrev pub deciphered : Text → Request → Request
deciphered bytes r = set_iov r 0 (over bytes (get_or r.iov 0 no_iovec))

abbrev pub with_bytes : Text → Ptr → Request → World → World
with_bytes bytes p r w = record w { heap = update w.heap p (some (deciphered bytes r)) }

next_nop : Ptr → ℤ → Sqe
next_nop p sock = prep_nop p

tls_client-Rearms : (tls : Tls) (env : Env) (p : Ptr) → Rearms (tls_client tls) env p (next_nop p)
unfolding post_tls_request submit next_nop
tls_client-Rearms tls env p r w live = refl

-- The session has deciphered `n` bytes for the connection `r` at `p`, which serves a stream.
pub record IsSession (tls : Tls) (env : Env) (id n : ℕ) (bytes : Text) (p : Ptr) (r : Request)
    (w : World) : Type 0 where
  pub live : w.heap p ≡ some r
  pub member : r.resource_id ≡ id
  pub kind : r.pivot ≡ Event.resource_streaming
  pub has_block : 0 < length r.iov
  pub large : env.http_buffer_size ≤ (get_or r.iov 0 no_iovec).cap
  pub some_bytes : 0 < n
  pub readed : tls.read p ≡ pos n
  pub read_bytes : tls.bytes p ≡ bytes
  pub counted : length bytes ≡ n

module _ (tls : Tls) (env : Env) (id n : ℕ) (bytes : Text) (p : Ptr) (r : Request) (w : World)
    (fits : length bytes ≤ env.http_buffer_size) (s : IsSession tls env id n bytes p r w) where
  receives : (response : ℤ) → Receives (tls_client tls) p response n w (with_bytes bytes p r w)
  unfolding pre_tls_request read_into judge store
  receives response = record {
    some_bytes = s.some_bytes;
    earlier = r;
    known = s.live;
    taken =
        rw (deref-ok w p s.live, ◌>>=◌)
          (rw (element-ok w r.iov 0 no_iovec s.has_block, ◌>>=◌)
            (rw (s.read_bytes, s.readed, inside) (ground (arith, s.some_bytes))));
  }
    where
      inside : leb (length bytes) (get_or r.iov 0 no_iovec).cap ≡ true
      inside = le→leb _ _ (omega (arith, fits, s.large))

  answer :
      IsAnswer env id Event.resource_streaming n bytes p
        (deciphered bytes r)
        (with_bytes bytes p r w)
  answer = record {
    live = update_self w.heap p _;
    member = s.member;
    kind = s.kind;
    has_block = rw (length-set r.iov 0 (over bytes (get_or r.iov 0 no_iovec))) s.has_block;
    large =
        rw (get_or-set_self r.iov 0 (over bytes (get_or r.iov 0 no_iovec)) no_iovec s.has_block)
          s.large;
    filled =
        rw
          (
            get_or-set_self r.iov 0 (over bytes (get_or r.iov 0 no_iovec)) no_iovec s.has_block,
            ← s.counted,
          )
          (take-append bytes _);
  }

  Reads-with_bytes :
      (t : ℕ) (read : Ptr → ℕ) (q : Ptr)
      → p ≢ q
      → Reads env id t read w q
      → Reads env id t read (with_bytes bytes p r w) q
  Reads-with_bytes t read q ne h = record {
    request = h.request;
    client = record {
      live = update_other w.heap p _ q ne ∙ h.client.live;
      has_block = h.client.has_block;
      large = h.client.large;
    };
    member = h.member;
    place = h.place;
    behind = h.behind;
    near = h.near;
  }

  -- TLS has deciphered bytes from the origin of a stream, no more than a buffer holds, where the clients
  -- have room for one chunk more: the bytes go to the clients as one chunk, and the connection then
  -- comes back from the ring for the next ones, with a clear buffer, whatever the ring said.
  pub handle_read_data-Deciphers :
      (response : ℤ) (chunk : ℕ → Text) (t : ℕ) (read : Ptr → ℕ) (mux : Mux)
      → IsSound env env.streaming_buffer_size
      → ((j : ℕ) → IsChunk env (chunk j))
      → chunk t ≡ bytes
      → IsServing env id chunk t read mux w
      → mux.requests ≢ []
      → All (λ q. t + 1 < read q + env.streaming_buffer_size) mux.requests
      → All (λ q. p ≢ q) mux.requests
      → Forwards
          (tls_client tls)
          env
          id
          chunk
          t
          read
          mux
          (prep_nop p)
          response
          p
          (deciphered bytes r)
          w
          (with_bytes bytes p r w)
  unfolding next_nop
  handle_read_data-Deciphers response chunk t read mux sound chunks e serving listened near apart =
      handle_read_data-Forwards (tls_client tls) env p (next_nop p) (tls_client-Rearms tls env p) id
        n response (deciphered bytes r) w (with_bytes bytes p r w) (receives response) chunk t read
        mux sound chunks
        (record {
          found = serving.found;
          ring = serving.ring;
          distinct = serving.distinct;
          readers =
              All-zip mux.requests (λ q ne h. Reads-with_bytes t read q ne h) apart serving.readers;
        })
        listened near apart (rw e answer)
