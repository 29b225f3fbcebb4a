-- ===== src/Stream/Failing.antt =====
-- src/Stream.cpp, `ReleaseErrorAllWaitingRequest`: the origin cannot be had, and all clients are told.
use cdn_uring.Prelude.{
  ℕ, ◌+◌, ◌<◌, ◌≡◌, ◌≢◌, ◌∙◌, refl, sym, ap, none, some, List, [], ◌∷◌, length, arith,
}
use cdn_uring.Prelude.Int.{ℤ}
use cdn_uring.Prelude.Text.{Text}
use cdn_uring.Prelude.Result.{ok}
use cdn_uring.Event
use cdn_uring.World.{Ptr, Request, Mux, World, Sqe, prep_write}
use cdn_uring.World.Monad.{update, allocate, submit, erase_mux, set_iov, block_of, ◌>>=◌}
use cdn_uring.World.Laws.{deref-ok, mux_at-ok, release-ok, update_self, update_other}
use cdn_uring.Request.{http_error_request}
use cdn_uring.Server.{status_content, add_http_error_request}
use cdn_uring.Stream.Registry.{release_resource}
use cdn_uring.Stream.Notify.{fail_client, each_request, release_error_all_waiting_request}
use cdn_uring.Stream.Loop.{All, All-map, All-zip, Distinct, run_all, each_request_lem}

-- The request that carries an error to a client.
pub error_request : ℤ → Text → Request
unfolding http_error_request
error_request client_socket content = record (set_iov http_error_request 0 (block_of content)) {
  event_type = Event.server_write_complete;
  client_socket = client_socket;
}

-- The world after an error was sent: a new request, and its write.
abbrev pub error_sent : ℤ → Text → World → World
error_sent client_socket content w = record w {
  heap = update w.heap w.next (some (error_request client_socket content));
  next = w.next + 1;
  submitted = prep_write client_socket content 0 w.next ∷ w.submitted;
}

pub add_http_error_request-ok :
    (client_socket : ℤ) (status_code : ℕ) (content : Text) (w : World)
    → status_content status_code ≡ some content
    → add_http_error_request client_socket status_code w
      ≡ ok (tt, error_sent client_socket content w)
unfolding add_http_error_request http_error_request error_request allocate submit
add_http_error_request-ok client_socket status_code content w e = rw (e, ◌>>=◌)

-- The client at `p` is told, and is gone.
fail_step : Text → Ptr → World → World
fail_step content p w = elim (w.heap p) [
  | none ↦ w
  | some r ↦
      let told = error_sent r.client_socket content w in
      record told { heap = update told.heap p none }
]

-- A client with the given socket, at an address below those that are not in use yet.
pub record Waits (socket : Ptr → ℤ) (w : World) (p : Ptr) : Type 0 where
  pub request : Request
  pub live : w.heap p ≡ some request
  pub in_use : p < w.next
  pub on_socket : request.client_socket ≡ socket p

-- The errors for the clients, the first of them sent first, in requests from `next` on.
abbrev pub answers : (Ptr → ℤ) → Text → Ptr → List Ptr → List Sqe → List Sqe
answers socket content next [] sqes = sqes
answers socket content next (p ∷ ps) sqes =
    answers socket content (next + 1) ps (prep_write (socket p) content 0 next ∷ sqes)

-- What is left when all clients of a resource were told.
pub record Fails (id : ℕ) (status_code : ℕ) (content : Text) (socket : Ptr → ℤ) (mux : Mux)
    (w : World) : Type 0 where
  pub after : World
  pub returns : release_error_all_waiting_request id status_code w ≡ ok (tt, after)
  pub gone : All (λ p. after.heap p ≡ none) mux.requests
  pub resource : after.resources ≡ update w.resources id none
  pub others : (q : Ptr) → q < w.next → All (λ p. p ≢ q) mux.requests → after.heap q ≡ w.heap q
  pub written : after.submitted ≡ answers socket content w.next mux.requests w.submitted

module _ (id : ℕ) (status_code : ℕ) (content : Text) (socket : Ptr → ℤ)
    (known : status_content status_code ≡ some content) where
  step : Ptr → World → World
  step = fail_step content

  step-eq :
      (p : Ptr) (w : World) (h : Waits socket w p)
      → step p w ≡ (
          let told = error_sent (socket p) content w in
          record told { heap = update told.heap p none })
  unfolding step fail_step
  step-eq p w h = rw (h.live, fail_step) (rw (h.on_socket))

  fails : (p : Ptr) (w : World) → Waits socket w p → fail_client status_code p w ≡ ok (tt, step p w)
  unfolding fail_client fail_step step
  fails p w h =
      rw (deref-ok w p h.live, ◌>>=◌)
        (rw (add_http_error_request-ok h.request.client_socket status_code content w known, ◌>>=◌)
          (rw
            (release-ok (error_sent h.request.client_socket content w) p {r = h.request}
              (update_other w.heap w.next _ p (λ e. omega (arith, h.in_use)) ∙ h.live))
            (rw (h.live, fail_step))))

  -- A step leaves alone what is in use, but for its own request.
  step_other :
      (p q : Ptr) (w : World) → Waits socket w p → q < w.next → p ≢ q → (step p w).heap q ≡ w.heap q
  step_other p q w h used ne =
      ap (λ v. v.heap q) (step-eq p w h)
      ∙ update_other (update w.heap w.next _) p none q ne
      ∙ update_other w.heap w.next _ q (λ e. omega (arith, used))

  step_next : (p : Ptr) (w : World) → Waits socket w p → (step p w).next ≡ w.next + 1
  step_next p w h = ap (λ v. v.next) (step-eq p w h)

  frame :
      (p q : Ptr) (w : World)
      → p ≢ q
      → Waits socket w p
      → Waits socket w q
      → Waits socket (step p w) q
  frame p q w ne hp hq = record {
    request = hq.request;
    live = step_other p q w hp hq.in_use ne ∙ hq.live;
    in_use = omega (arith, step_next p w hp, hq.in_use);
    on_socket = hq.on_socket;
  }

  after_step :
      (p : Ptr) (ps : List Ptr) (w : World)
      → Distinct (p ∷ ps)
      → All (Waits socket w) (p ∷ ps)
      → All (Waits socket (step p w)) ps
  after_step p ps w d h = All-zip ps (λ q ne hq. frame p q w ne h.0 hq) d.0 h.1

  others_kept :
      (q : Ptr) (ps : List Ptr) (w : World)
      → Distinct ps
      → All (Waits socket w) ps
      → q < w.next
      → All (λ p. p ≢ q) ps
      → (run_all step ps w).heap q ≡ w.heap q
  unfolding run_all
  others_kept q [] w d h used ne = refl
  others_kept q (p ∷ ps) w d h used ne =
      others_kept q ps (step p w) d.1 (after_step p ps w d h)
        (omega (arith, step_next p w h.0, used)) ne.1
      ∙ step_other p q w h.0 used ne.0

  clients_gone :
      (ps : List Ptr) (w : World)
      → Distinct ps
      → All (Waits socket w) ps
      → All (λ p. (run_all step ps w).heap p ≡ none) ps
  unfolding run_all
  clients_gone [] w d h = tt
  clients_gone (p ∷ ps) w d h = (
    others_kept p ps (step p w) d.1 (after_step p ps w d h)
          (omega (arith, step_next p w h.0, h.0.in_use)) (All-map ps (λ q ne e. ne (sym e)) d.0)
        ∙ ap (λ v. v.heap p) (step-eq p w h.0)
        ∙ update_self (update w.heap w.next _) p none,
    clients_gone ps (step p w) d.1 (after_step p ps w d h),
  )

  resources_kept :
      (ps : List Ptr) (w : World)
      → Distinct ps
      → All (Waits socket w) ps
      → (run_all step ps w).resources ≡ w.resources
  unfolding run_all
  resources_kept [] w d h = refl
  resources_kept (p ∷ ps) w d h =
      resources_kept ps (step p w) d.1 (after_step p ps w d h)
      ∙ ap (λ v. v.resources) (step-eq p w h.0)

  errors_written :
      (ps : List Ptr) (w : World)
      → Distinct ps
      → All (Waits socket w) ps
      → (run_all step ps w).submitted ≡ answers socket content w.next ps w.submitted
  unfolding run_all
  errors_written [] w d h = refl
  errors_written (p ∷ ps) w d h =
      errors_written ps (step p w) d.1 (after_step p ps w d h)
      ∙ ap (λ v. answers socket content v.next ps v.submitted) (step-eq p w h.0)

  module _ (mux : Mux) (w : World) (found : w.resources id ≡ some mux)
      (distinct : Distinct mux.requests) (waits : All (Waits socket w) mux.requests) where
    told : World
    told = run_all step mux.requests w

    loop : each_request id (fail_client status_code) (length mux.requests) 0 w ≡ ok (tt, told)
    unfolding told
    loop =
        each_request_lem id mux (fail_client status_code) step (Waits socket)
          (λ p v e h. (fails p v h, ap (λ u. u.resources id) (step-eq p v h) ∙ e)) frame w found
          distinct waits

    -- The origin cannot be had, and the status is one that the server has a text for: each waiting
    -- client is sent that text once, in order, from a request of its own, and its own request is freed;
    -- the resource is gone, and no other resource or request has changed.
    pub release_error_all_waiting_request-Fails : Fails id status_code content socket mux w
    unfolding told release_error_all_waiting_request release_resource erase_mux
    release_error_all_waiting_request-Fails = record {
      after = record told { resources = update told.resources id none };
      returns =
          rw (mux_at-ok w id found, ◌>>=◌)
            (rw (loop, ◌>>=◌)
              (rw (
                mux_at-ok told id
                    (ap (λ f. f id) (resources_kept mux.requests w distinct waits) ∙ found),
                ◌>>=◌,
              )));
      gone = clients_gone mux.requests w distinct waits;
      resource = ap (λ f. update f id none) (resources_kept mux.requests w distinct waits);
      others = λ q used ne. others_kept q mux.requests w distinct waits used ne;
      written = errors_written mux.requests w distinct waits;
    }
