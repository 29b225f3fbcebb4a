-- ===== src/Stream/Each.antt =====
-- Loops whose round changes its own request and hands something to the ring, and does nothing else.
use cdn_uring.Prelude.{
  ℕ, ◌≡◌, ◌≢◌, ◌∙◌, refl, sym, ap, Option, none, some, List, [], ◌∷◌, length, arith, Option-cases,
  inl, inr,
}
use mathlib.Core.Option
use cdn_uring.Prelude.Result.{ok}
use cdn_uring.World.{Ptr, Request, Mux, World, Sqe}
use cdn_uring.World.Monad.{M, update}
use cdn_uring.World.Laws.{update_self, update_other}
use cdn_uring.Stream.Notify.{each_request}
use cdn_uring.Stream.Loop.{
  All, All-map, Distinct, run_all, each_request_lem, run_all_each, run_all_keeps, run_all_other,
}

module _ (change : Ptr → Request → Request) (emit : Ptr → Request → List Sqe → List Sqe) where
  -- One round.
  unfoldable pub round : Ptr → World → World
  round p w = elim (w.heap p) [
    | none ↦ w
    | some r ↦ record w {
      heap = update w.heap p (some (change p r));
      submitted = emit p r w.submitted;
    }
  ]

  -- What all rounds hand to the ring, newest first.
  abbrev pub emitted : (Ptr → Option Request) → List Ptr → List Sqe → List Sqe
  emitted heap [] sqes = sqes
  emitted heap (p ∷ ps) sqes =
      emitted heap ps (elim (heap p) [ none ↦ sqes | some r ↦ emit p r sqes ])

  pub round-eq :
      (p : Ptr) (w : World) {r : Request}
      → w.heap p ≡ some r
      → round p w
        ≡ record w { heap = update w.heap p (some (change p r)); submitted = emit p r w.submitted }
  unfolding round
  round-eq p w e = rw (e, round)

  round_other : (p q : Ptr) (w : World) → p ≢ q → (round p w).heap q ≡ w.heap q
  unfolding round
  round_other p q w ne = elim (Option-cases (w.heap p)) [
    | inl e ↦ rw (e, round)
    | inr (r, e) ↦ rw (e, round) (update_other w.heap p _ q ne)
  ]

  round_own : (p : Ptr) (w : World) → (round p w).heap p ≡ Option.map (change p) (w.heap p)
  unfolding round
  round_own p w = elim (Option-cases (w.heap p)) [
    | inl e ↦ rw (e, round) e
    | inr (r, e) ↦ rw (e, round) (update_self w.heap p _)
  ]

  pub round_resources : (p : Ptr) (w : World) → (round p w).resources ≡ w.resources
  unfolding round
  round_resources p w = ground arith

  add : Option Request → Ptr → List Sqe → List Sqe
  add none p sqes = sqes
  add (some r) p sqes = emit p r sqes

  emitted-cons :
      (heap : Ptr → Option Request) (p : Ptr) (ps : List Ptr) (sqes : List Sqe)
      → emitted heap (p ∷ ps) sqes ≡ emitted heap ps (add (heap p) p sqes)
  unfolding add
  emitted-cons heap p ps sqes = elim (Option-cases (heap p)) [ inl e ↦ rw e | inr (r, e) ↦ rw e ]

  emitted_congr :
      (h h' : Ptr → Option Request) (ps : List Ptr) (sqes : List Sqe)
      → All (λ q. h' q ≡ h q) ps
      → emitted h' ps sqes ≡ emitted h ps sqes
  emitted_congr h h' [] sqes same = refl
  emitted_congr h h' (p ∷ ps) sqes same =
      emitted-cons h' p ps sqes
      ∙ emitted_congr h h' ps (add (h' p) p sqes) same.1
      ∙ ap (λ o. emitted h ps (add o p sqes)) same.0
      ∙ sym (emitted-cons h p ps sqes)

  round_submitted : (p : Ptr) (w : World) → (round p w).submitted ≡ add (w.heap p) p w.submitted
  unfolding round add
  round_submitted p w = ground arith

  submitted-run_all :
      (ps : List Ptr) (w : World)
      → Distinct ps
      → (run_all round ps w).submitted ≡ emitted w.heap ps w.submitted
  unfolding run_all
  submitted-run_all [] w d = refl
  submitted-run_all (p ∷ ps) w d =
      submitted-run_all ps (round p w) d.1
      ∙ emitted_congr w.heap (round p w).heap ps _ (All-map ps (λ q ne. round_other p q w ne) d.0)
      ∙ ap (emitted w.heap ps) (round_submitted p w)
      ∙ sym (emitted-cons w.heap p ps w.submitted)

  -- What all rounds leave behind, for a list of distinct requests.
  pub record Changed (ps : List Ptr) (w w' : World) : Type 0 where
    pub clients : All (λ p. w'.heap p ≡ Option.map (change p) (w.heap p)) ps
    pub others : (q : Ptr) → All (λ p. q ≢ p) ps → w'.heap q ≡ w.heap q
    pub written : w'.submitted ≡ emitted w.heap ps w.submitted
    pub resources : w'.resources ≡ w.resources

  pub run_all-Changed :
      (ps : List Ptr) (w : World) → Distinct ps → Changed ps w (run_all round ps w)
  run_all-Changed ps w d = record {
    clients = run_all_each round (λ p. Option.map (change p)) round_own round_other ps w d;
    others = λ q ne. run_all_other round round_other q ps w ne;
    written = submitted-run_all ps w d;
    resources = run_all_keeps (λ v. v.resources) round round_resources ps w;
  }

  -- The loop, where the body does a round for each live request that has the property `P`.
  pub each_request_rounds :
      (id : ℕ) (mux : Mux) (body : Ptr → M (Unit {0})) (P : Ptr → Request → Type 0)
      → ((p : Ptr) (r : Request) (w : World)
          → w.resources id ≡ some mux
          → w.heap p ≡ some r
          → P p r
          → body p w ≡ ok (tt, round p w))
      → (w : World) → w.resources id ≡ some mux
      → Distinct mux.requests
      → All (λ p. (r : Request) × (w.heap p ≡ some r) × P p r) mux.requests
      → each_request id body (length mux.requests) 0 w ≡ ok (tt, run_all round mux.requests w)
  each_request_rounds id mux body P runs =
      each_request_lem id mux body round (λ w p. (r : Request) × (w.heap p ≡ some r) × P p r)
        (λ p w found h. (runs p h.0 w found h.1 h.2, ap (λ f. f id) (round_resources p w) ∙ found))
        (λ p q w ne hp hq. (hq.0, round_other p q w ne ∙ hq.1, hq.2))
