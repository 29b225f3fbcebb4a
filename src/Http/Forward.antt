-- ===== src/Http/Forward.antt =====
-- src/Http.cpp, `HandleReadData`: an answer of the origin from the socket to the clients or to the file.
use cdn_uring.Prelude.{
  ℕ, ◌+◌, ◌≤◌, ◌<◌, ◌≡◌, ◌≢◌, ◌∙◌, none, some, [], ◌∷◌, length, get_or, take, replicate, arith,
}
use cdn_uring.Prelude.Int.{ℤ, pos}
use cdn_uring.Prelude.Text.{Text}
use cdn_uring.Prelude.Result.{ok}
use cdn_uring.Event
use cdn_uring.World.{Iovec, Ptr, Request, Mux, Node, Env, World, Sqe, prep_read}
use cdn_uring.World.Monad.{update, store, submit, close_fd, set_iov, ◌>>=◌}
use cdn_uring.World.Laws.{deref-ok, element-ok, release-ok, update_self}
use cdn_uring.Request.{no_iovec}
use cdn_uring.Stream.Write.{clear}
use cdn_uring.Stream.Ring.{IsChunk, IsSound}
use cdn_uring.Stream.Loop.{All, Distinct}
use cdn_uring.Stream.Broadcast.{IsServing, Broadcasts, notify_stream-Broadcasts}
use cdn_uring.Stream.Closing.{IsLive, Closes, close_stream-Closes}
use cdn_uring.Cache.Writer.{IsStoring, OnDisk, Appends, append_buffer-Appends}
use cdn_uring.Http.Client.{Client, http_client, post_request, release_socket}
use cdn_uring.Http.Read.{
  handle_read_data, on_answer, read_content, read_on, pass_content, end_content,
}

-- The buffer of the connection after it was cleared.
abbrev pub cleared : Env → Iovec → Iovec
cleared env v = record v { base = replicate env.http_buffer_size 0 }

-- The connection waits for the next bytes in a buffer of zeros, and `sqe` was handed to the ring.
abbrev pub rearmed : Env → Sqe → Ptr → Request → World → World
rearmed env sqe p r w = record w {
  heap = update w.heap p (some (set_iov r 0 (cleared env (get_or r.iov 0 no_iovec))));
  submitted = sqe ∷ w.submitted;
}

-- What is handed to the ring for the next bytes of a connection of this kind.
abbrev pub Rearms : Client → Env → Ptr → (ℤ → Sqe) → Type 0
Rearms client env p next =
    (r : Request) (w : World)
    → w.heap p ≡ some r
    → client.post_request env p w
      ≡ ok (tt, record w { submitted = next r.client_socket ∷ w.submitted })

-- The plain connection asks for a read of its socket.
abbrev pub next_read : Env → Ptr → ℤ → Sqe
next_read env p sock = prep_read sock env.http_buffer_size 0 p

pub http_client-Rearms : (env : Env) (p : Ptr) → Rearms http_client env p (next_read env p)
unfolding post_request submit
http_client-Rearms env p r w live = rw (deref-ok w p live, ◌>>=◌)

-- The connection `r` at `p` for the resource `id`, of the given type, in whose buffer the first `n` bytes
-- are `bytes`.
pub record IsAnswer (env : Env) (id type n : ℕ) (bytes : Text) (p : Ptr) (r : Request) (w : World)
    : Type 0 where
  pub live : w.heap p ≡ some r
  pub member : r.resource_id ≡ id
  pub kind : r.pivot ≡ type
  pub has_block : 0 < length r.iov
  pub large : env.http_buffer_size ≤ (get_or r.iov 0 no_iovec).cap
  pub filled : take n (get_or r.iov 0 no_iovec).base ≡ bytes

clear-ok :
    (env : Env) (v : Iovec) (w : World)
    → env.http_buffer_size ≤ v.cap
    → clear env v w ≡ ok (cleared env v, w)
unfolding clear
clear-ok env v w large = ground arith

module _ (client : Client) (env : Env) (p : Ptr) (next : ℤ → Sqe)
    (rearms : Rearms client env p next) (r : Request) where
  read_on-rearmed :
      (w : World)
      → w.heap p ≡ some r
      → 0 < length r.iov
      → env.http_buffer_size ≤ (get_or r.iov 0 no_iovec).cap
      → read_on client env p w ≡ ok (0, rearmed env (next r.client_socket) p r w)
  unfolding read_on store
  read_on-rearmed w live some_iov large =
      rw (deref-ok w p live, ◌>>=◌)
        (rw (element-ok w r.iov 0 no_iovec some_iov, ◌>>=◌)
          (rw (clear-ok env (get_or r.iov 0 no_iovec) w large, ◌>>=◌)
            (rw (rearms emptied_request emptied (update_self w.heap p _), ◌>>=◌))))
    where
      emptied_request : Request
      emptied_request = set_iov r 0 (cleared env (get_or r.iov 0 no_iovec))

      emptied : World
      emptied = record w { heap = update w.heap p (some emptied_request) }

-- What an answer leaves behind, where the stream is served to its clients: `w` is the state once the
-- bytes stand in the buffer.
pub record Forwards (client : Client) (env : Env) (id : ℕ) (chunk : ℕ → Text) (t : ℕ)
    (read : Ptr → ℕ) (mux : Mux) (sqe : Sqe) (response : ℤ) (p : Ptr) (r : Request)
    (before w : World) : Type 0 where
  pub broadcast : Broadcasts env id chunk t read mux w
  pub returns :
      handle_read_data client env p response before ≡ ok (0, rearmed env sqe p r broadcast.after)

-- The same for a file that is being written.
pub record Stores (client : Client) (env : Env) (id : ℕ) (chunk : ℕ → Text) (t c : ℕ)
    (writer : Request) (node : Node) (sqe : Sqe) (response : ℤ) (p : Ptr) (r : Request)
    (before w : World) : Type 0 where
  pub append : Appends env id chunk t c writer node w
  pub returns :
      handle_read_data client env p response before ≡ ok (0, rearmed env sqe p r append.after)

-- The connection takes `n` bytes on `response`, which brings the state from `before` to `w`.
pub record Receives (client : Client) (p : Ptr) (response : ℤ) (n : ℕ) (before w : World)
    : Type 0 where
  pub some_bytes : 0 < n
  pub earlier : Request
  pub known : before.heap p ≡ some earlier
  pub taken : client.pre_request p response before ≡ ok (pos n, w)

module _ (client : Client) (env : Env) (p : Ptr) (next : ℤ → Sqe)
    (rearms : Rearms client env p next) (id n : ℕ) (response : ℤ) (r : Request) (before w : World)
    (received : Receives client p response n before w) where
  handle_read_data-eq :
      handle_read_data client env p response before ≡ read_content client env p n w
  unfolding handle_read_data on_answer
  handle_read_data-eq =
      rw (deref-ok before p received.known, ◌>>=◌)
        (rw (received.taken, ◌>>=◌) (ground (arith, received.some_bytes)))

  read_content-eq :
      (type : ℕ) (bytes : Text) (w' : World)
      → IsAnswer env id type n bytes p r w
      → w'.heap p ≡ some r
      → pass_content env r bytes w ≡ ok (0, w')
      → read_content client env p n w ≡ ok (0, rearmed env (next r.client_socket) p r w')
  unfolding read_content
  read_content-eq type bytes w' a live' passed =
      rw (deref-ok w p a.live, ◌>>=◌)
        (rw (element-ok w r.iov 0 no_iovec a.has_block, ◌>>=◌)
          (rw (a.filled) (
            rw (passed, ◌>>=◌)
              (read_on-rearmed client env p next rearms r w' live' a.has_block a.large))))

  -- An answer of the origin for a stream, on any kind of connection, where the clients have room for one
  -- chunk more: the bytes go to the clients as one chunk, and the connection then waits for the next
  -- ones in a clear buffer.
  pub handle_read_data-Forwards :
      (chunk : ℕ → Text) (t : ℕ) (read : Ptr → ℕ) (mux : Mux)
      → IsSound env env.streaming_buffer_size
      → ((j : ℕ) → IsChunk env (chunk j))
      → IsServing env id chunk t read mux w
      → mux.requests ≢ []
      → All (λ q. t + 1 < read q + env.streaming_buffer_size) mux.requests
      → All (λ q. p ≢ q) mux.requests
      → IsAnswer env id Event.resource_streaming n (chunk t) p r w
      → Forwards client env id chunk t read mux (next r.client_socket) response p r before w
  unfolding pass_content
  handle_read_data-Forwards chunk t read mux sound chunks s listened near apart a = record {
    broadcast = sent;
    returns =
        handle_read_data-eq
        ∙ read_content-eq Event.resource_streaming (chunk t) sent.after a
            (sent.others p apart ∙ a.live) (rw (a.kind, a.member) sent.returns);
  }
    where
      sent : Broadcasts env id chunk t read mux w
      sent = notify_stream-Broadcasts env id chunk t read sound chunks mux w s listened near

  -- An answer of the origin for a file, on any kind of connection, where the ring has room for one chunk
  -- more: the bytes become the next chunk of the file, and the connection then waits for the next ones
  -- in a clear buffer.
  pub handle_read_data-Stores :
      (chunk : ℕ → Text) (t c : ℕ) (node : Node)
      → IsSound env env.cache_buffer_size
      → ((j : ℕ) → IsChunk env (chunk j))
      → (s : IsStoring env id chunk t c node w) → OnDisk id w
      → t + 1 < c + env.cache_buffer_size
      → node.cache ≢ p
      → IsAnswer env id Event.resource_cache n (chunk t) p r w
      → Stores client env id chunk t c s.request node (next r.client_socket) response p r before w
  unfolding pass_content
  handle_read_data-Stores chunk t c node sound chunks s disk room apart a = record {
    append = stored;
    returns =
        handle_read_data-eq
        ∙ read_content-eq Event.resource_cache (chunk t) stored.after a
            (stored.others p apart ∙ a.live) (rw (a.kind, a.member) (rw (stored.returns, ◌>>=◌)));
  }
    where
      stored : Appends env id chunk t c s.request node w
      stored = append_buffer-Appends env id chunk t c node w sound chunks s disk room

-- What the end of a stream's connection leaves behind.
pub record Ends (env : Env) (id : ℕ) (mux : Mux) (p : Ptr) (r : Request) (w : World) : Type 0 where
  pub closing : Closes id mux w
  pub returns :
      handle_read_data http_client env p (pos 0) w
      ≡ ok (
        1,
        record closing.after {
          heap = update closing.after.heap p none;
          closed = r.client_socket ∷ closing.after.closed;
        },
      )

-- The origin of a stream closes the connection: the clients of the stream are closed, the stream is gone,
-- and the connection's socket is closed and its request freed, once each.
pub handle_read_data-Ends :
    (env : Env) (id : ℕ) (mux : Mux) (bytes : Text) (p : Ptr) (r : Request) (w : World)
    → w.resources id ≡ some mux
    → Distinct mux.requests
    → All (IsLive w) mux.requests
    → All (λ q. p ≢ q) mux.requests
    → IsAnswer env id Event.resource_streaming 0 bytes p r w
    → Ends env id mux p r w
unfolding handle_read_data on_answer end_content release_socket close_fd
handle_read_data-Ends env id mux bytes p r w found distinct live apart a = record {
  closing = closes;
  returns =
      rw (deref-ok w p a.live, ◌>>=◌)
        (rw (a.kind, a.member)
          (rw (closes.returns, ◌>>=◌)
            (rw (deref-ok closes.after p here, ◌>>=◌) (rw (release-ok released p here, ◌>>=◌)))));
}
  where
    closes : Closes id mux w
    closes = close_stream-Closes id mux w found distinct live

    here : closes.after.heap p ≡ some r
    here = closes.other_requests p apart ∙ a.live

    released : World
    released = record closes.after { closed = r.client_socket ∷ closes.after.closed }
