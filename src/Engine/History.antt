-- ===== src/Engine/History.antt =====
-- src/Engine.cpp and src/Stream.cpp: a stream over a run of the loop, in which chunks come from the origin
-- and partial writes to the clients finish, in any order. Other events are no steps of such a run: a client
-- that joins, the end of the write of its header, a socket that closes, an error and the cleanup.
use cdn_uring.Prelude.{
  ℕ, zero, suc, ◌+◌, ◌<◌, ◌≡◌, ◌≢◌, ◌∙◌, refl, sym, ap, subst, false, Option, some, none, List, [],
  ◌∷◌, arith, ◌==◌, if◌then◌else◌, Bool-cases, Option-cases, inl, inr,
}
use cdn_uring.Prelude.Int.{ℤ, is_socket_closed}
use cdn_uring.Prelude.Text.{Text}
use cdn_uring.Prelude.Result.{ok, ok_injective}
use cdn_uring.Event
use cdn_uring.World.{
  Ptr, Request, Mux, Env, World, Sqe, prep_write, prep_read, prep_statx, prep_timeout, prep_nop,
  prep_accept,
}
use cdn_uring.Stream.Notify.{notify_stream}
use cdn_uring.Stream.Ring.{IsChunk, IsSound}
use cdn_uring.Stream.Loop.{All, All-map, All-zip, Distinct}
use cdn_uring.Stream.Each.{emitted}
use cdn_uring.Stream.Broadcast.{
  IsServing, Broadcasts, read_on, served, delivery, notify_stream-Broadcasts,
}
use cdn_uring.Engine.{Engine, run_once}
use cdn_uring.Engine.Idle.{Idles, idled, run_once-Idles, some_injective}

-- The texts that were handed to the ring for the client at `p`, newest first.
unfoldable pub received : Ptr → List Sqe → List Text
received p [] = []
received p (prep_write fd text offset q ∷ sqes) =
    let rest = received p sqes in if q == p then text ∷ rest else rest
received p (prep_read fd size offset q ∷ sqes) = received p sqes
received p (prep_statx path q ∷ sqes) = received p sqes
received p (prep_timeout time q ∷ sqes) = received p sqes
received p (prep_nop q ∷ sqes) = received p sqes
received p (prep_accept q ∷ sqes) = received p sqes

-- The chunks `a` to `a + k - 1`, newest first, before what was there.
abbrev pub logged : (ℕ → Text) → ℕ → ℕ → List Text → List Text
logged chunk a zero texts = texts
logged chunk a (suc k) texts = chunk (a + k) ∷ logged chunk a k texts

module _ (chunk : ℕ → Text) (read : Ptr → ℕ) where
  -- What a client receives for one chunk that comes.
  receipt : Option Request → Ptr → List Text → List Text
  receipt none p texts = texts
  receipt (some r) p texts = if r.is_processing then texts else chunk (read p) ∷ texts

  given : Option Request → Ptr → List Sqe → List Sqe
  given none p sqes = sqes
  given (some r) p sqes = delivery chunk read p r sqes

  received-given_other :
      (o : Option Request) (p q : Ptr) (sqes : List Sqe)
      → q ≢ p
      → received p (given o q sqes) ≡ received p sqes
  unfolding received given
  received-given_other none p q sqes ne = refl
  received-given_other (some r) p q sqes ne = ground arith

  received-given_self :
      (o : Option Request) (p : Ptr) (sqes : List Sqe)
      → received p (given o p sqes) ≡ receipt o p (received p sqes)
  unfolding received given receipt
  received-given_self none p sqes = refl
  received-given_self (some r) p sqes = ground arith

module _ (env : Env) (chunk : ℕ → Text) (read : Ptr → ℕ) (heap : Ptr → Option Request) where
  all_given : List Ptr → List Sqe → List Sqe
  all_given = emitted (served env chunk read) (delivery chunk read) heap

  all_given-cons :
      (p : Ptr) (ps : List Ptr) (sqes : List Sqe)
      → all_given (p ∷ ps) sqes ≡ all_given ps (given chunk read (heap p) p sqes)
  unfolding all_given given
  all_given-cons p ps sqes = elim (Option-cases (heap p)) [ inl e ↦ rw e | inr (r, e) ↦ rw e ]

  received-all_given_other :
      (p : Ptr) (ps : List Ptr) (sqes : List Sqe)
      → All (λ q. q ≢ p) ps
      → received p (all_given ps sqes) ≡ received p sqes
  unfolding all_given
  received-all_given_other p [] sqes ne = refl
  received-all_given_other p (q ∷ ps) sqes ne =
      ap (received p) (all_given-cons q ps sqes)
      ∙ received-all_given_other p ps (given chunk read (heap q) q sqes) ne.1
      ∙ received-given_other chunk read (heap q) p q sqes ne.0

  -- Each client of the list gets its own receipt.
  received-all_given :
      (ps : List Ptr) (sqes : List Sqe)
      → Distinct ps
      → All
          (λ p. received p (all_given ps sqes) ≡ receipt chunk read (heap p) p (received p sqes))
          ps
  received-all_given [] sqes d = tt
  received-all_given (p ∷ ps) sqes d = (
    ap (received p) (all_given-cons p ps sqes)
        ∙ received-all_given_other p ps (given chunk read (heap p) p sqes)
            (All-map ps (λ q ne e. ne (sym e)) d.0)
        ∙ received-given_self chunk read (heap p) p sqes,
    All-zip ps
        (λ q ne e.
          ap (received q) (all_given-cons p ps sqes)
          ∙ e
          ∙ ap (receipt chunk read (heap q) q)
              (received-given_other chunk read (heap p) q p sqes ne))
        d.0 (received-all_given ps (given chunk read (heap p) p sqes) d.1),
  )

All-of {ℓ κ} : {A : Type ℓ} {P : A → Type κ} (xs : List A) → ((x : A) → P x) → All P xs
All-of [] f = tt
All-of (x ∷ xs) f = (f x, All-of xs f)

-- A stream at a time: `t` chunks have come, and the client at `p` was handed the first `read p`.
pub record Moment : Type 0 where
  pub t : ℕ
  pub read : Ptr → ℕ
  pub mux : Mux
  pub world : World

-- Each client has room for one chunk more.
abbrev pub HasRoom : Env → Moment → Type 0
HasRoom env s = All (λ p. s.t + 1 < s.read p + env.streaming_buffer_size) s.mux.requests

-- Two things that happen to the stream `id`: a chunk comes while all clients have room for it, or a partial
-- write to a client is reported as finished.
pub data Runs (engine : Engine) (id : ℕ) (chunk : ℕ → Text) : Moment → Moment → Type 0 where
  begin : (s : Moment) → Runs engine id chunk s s
  arrive :
      (s0 s : Moment) (mux' : Mux) (w' : World)
      → Runs engine id chunk s0 s
      → HasRoom engine.env s
      → notify_stream engine.env id (chunk s.t) s.world ≡ ok (0, w')
      → w'.resources id ≡ some mux'
      → Runs engine id chunk s0
          (record { t = s.t + 1; read = read_on s.read s.world; mux = mux'; world = w' })
  finish :
      (s0 s : Moment) (p : Ptr) (r : Request) (response : ℤ) (w' : World)
      → Runs engine id chunk s0 s
      → s.world.heap p ≡ some r
      → r.resource_id ≡ id
      → r.event_type ≡ Event.server_write_partial
      → is_socket_closed response ≡ false
      → run_once engine p response s.world ≡ ok (tt, w')
      → Runs engine id chunk s0 (record s { world = w' })

-- From the first moment to the second, each client was handed the chunks from its own place on, each
-- once and in order.
abbrev pub InOrder : (ℕ → Text) → Moment → Moment → Ptr → Type 0
InOrder chunk s0 s p =
    (k : ℕ) × (s.read p ≡ s0.read p + k)
    × (received p s.world.submitted ≡ logged chunk (s0.read p) k (received p s0.world.submitted))

pub record Delivers (env : Env) (id : ℕ) (chunk : ℕ → Text) (s0 s : Moment) : Type 0 where
  pub serving : IsServing env id chunk s.t s.read s.mux s.world
  pub requests : s.mux.requests ≡ s0.mux.requests
  pub on_air : s.mux.in_memory ≡ false
  pub in_order : All (InOrder chunk s0 s) s0.mux.requests

module _ (engine : Engine) (id : ℕ) (chunk : ℕ → Text)
    (sound : IsSound engine.env engine.env.streaming_buffer_size)
    (chunks : (j : ℕ) → IsChunk engine.env (chunk j)) where
  -- One client's log, when a chunk comes.
  InOrder-arrive :
      (s0 s : Moment) (w' : World) (mux' : Mux) (p : Ptr)
      → received p w'.submitted
        ≡ receipt chunk s.read (s.world.heap p) p (received p s.world.submitted)
      → InOrder chunk s0 s p
      → InOrder chunk s0
          (record { t = s.t + 1; read = read_on s.read s.world; mux = mux'; world = w' })
          p
  unfolding receipt
  InOrder-arrive s0 s w' mux' p e o = elim (Option-cases (s.world.heap p)) [
    | inl gone ↦ (o.0, rw (gone, read_on) o.1, e ∙ rw (gone, receipt) o.2)
    | inr (r, live) ↦ elim (Bool-cases r.is_processing) [
      | inl busy ↦ (o.0, rw (live, read_on) (rw busy o.1), e ∙ rw (live, receipt) (rw busy o.2))
      | inr idle ↦ (
        suc o.0,
        rw (live, read_on) (rw idle (omega (arith, o.1))),
        e ∙ rw (live, receipt) (rw idle (rw (o.1, o.2))),
      )
    ]
  ]

  Delivers-arrive :
      (s0 s : Moment) (mux' : Mux) (w' : World)
      → s.mux.requests ≢ []
      → HasRoom engine.env s
      → notify_stream engine.env id (chunk s.t) s.world ≡ ok (0, w')
      → w'.resources id ≡ some mux'
      → Delivers engine.env id chunk s0 s
      → Delivers engine.env id chunk s0
          (record { t = s.t + 1; read = read_on s.read s.world; mux = mux'; world = w' })
  unfolding all_given
  Delivers-arrive s0 s mux' w' listened room run known h =
      subst (λ m. Delivers engine.env id chunk s0 (moment m w')) same_mux
        (subst (λ v. Delivers engine.env id chunk s0 (moment b.resource v)) same_world
          (record {
            serving = b.serving;
            requests = b.same_requests ∙ h.requests;
            on_air = b.same_place ∙ h.on_air;
            in_order =
                All-zip s0.mux.requests (λ p e o. InOrder-arrive s0 s b.after b.resource p e o)
                  (subst
                    (All (λ p.
                      received p b.after.submitted
                      ≡ receipt chunk s.read (s.world.heap p) p (received p s.world.submitted)))
                    h.requests receipts)
                  h.in_order;
          }))
    where
      b : Broadcasts engine.env id chunk s.t s.read s.mux s.world
      b =
          notify_stream-Broadcasts engine.env id chunk s.t s.read sound chunks s.mux s.world
            h.serving listened room

      moment : Mux → World → Moment
      moment m v = record { t = s.t + 1; read = read_on s.read s.world; mux = m; world = v }

      same_world : b.after ≡ w'
      same_world = ap (λ x. x.1) (ok_injective (sym b.returns ∙ run))

      same_mux : b.resource ≡ mux'
      same_mux = some_injective (sym b.serving.found ∙ ap (λ v. v.resources id) same_world ∙ known)

      receipts :
          All
            (λ p.
              received p b.after.submitted
              ≡ receipt chunk s.read (s.world.heap p) p (received p s.world.submitted))
            s.mux.requests
      receipts =
          All-map s.mux.requests (λ p e. ap (received p) b.written ∙ e)
            (received-all_given engine.env chunk s.read s.world.heap s.mux.requests
              s.world.submitted h.serving.distinct)

  Delivers-finish :
      (s0 s : Moment) (p : Ptr) (r : Request) (response : ℤ) (w' : World)
      → s.world.heap p ≡ some r
      → r.resource_id ≡ id
      → r.event_type ≡ Event.server_write_partial
      → is_socket_closed response ≡ false
      → run_once engine p response s.world ≡ ok (tt, w')
      → Delivers engine.env id chunk s0 s
      → Delivers engine.env id chunk s0 (record s { world = w' })
  Delivers-finish s0 s p r response w' live member kind alive run h =
      subst (λ v. Delivers engine.env id chunk s0 (record s { world = v })) same_world
        (record {
          serving = i.serving;
          requests = h.requests;
          on_air = h.on_air;
          in_order = h.in_order;
        })
    where
      i : Idles engine id chunk s.t s.read s.mux p r response s.world
      i =
          run_once-Idles engine id chunk s.t s.read s.mux p r response s.world h.serving h.on_air
            live member kind alive

      same_world : idled p r s.world ≡ w'
      same_world = ap (λ x. x.1) (ok_injective (sym i.returns ∙ run))

  -- A stream that is not held in memory and serves at least one client, over a run of two kinds of steps in
  -- any order: a chunk from the origin, which comes while all clients have room for it, and a partial write
  -- to a client of the stream that has finished, its socket not closed. The stream still serves the same
  -- clients, and each of them was handed the chunks from its own place on, each once and in order.
  pub Runs-Delivers :
      (s0 s : Moment)
      → IsServing engine.env id chunk s0.t s0.read s0.mux s0.world
      → s0.mux.requests ≢ []
      → s0.mux.in_memory ≡ false
      → Runs engine id chunk s0 s
      → Delivers engine.env id chunk s0 s
  Runs-Delivers s0 _ serving listened on_air (begin _) = record {
    serving = serving;
    requests = refl;
    on_air = on_air;
    in_order = All-of s0.mux.requests (λ p. (0, omega arith, refl));
  }
  Runs-Delivers s0 _ serving listened on_air (arrive _ s mux' w' runs room run known) =
      let h = Runs-Delivers s0 s serving listened on_air runs in
      Delivers-arrive s0 s mux' w' (λ e. listened (sym h.requests ∙ e)) room run known h
  Runs-Delivers s0 _ serving listened on_air
        (finish _ s p r response w' runs live member kind alive run) =
      Delivers-finish s0 s p r response w' live member kind alive run
        (Runs-Delivers s0 s serving listened on_air runs)
