-- ===== src/Stream/Loop.antt =====
-- src/Stream.cpp: one round of a loop over the requests of a resource.
use cdn_uring.Prelude.{
  ℕ, suc, ◌+◌, ◌≡◌, ◌≢◌, ◌∙◌, refl, Option, some, List, [], ◌∷◌, ◌++◌, get_elem?, length, arith,
  append_assoc, length-append, sym, ap,
}
use cdn_uring.Prelude.Result.{ok}
use cdn_uring.World.{Ptr, Request, Mux, World}
use cdn_uring.World.Monad.{M, element, ◌>>=◌}
use cdn_uring.Stream.Notify.{each_request}

abbrev pub All {ℓ κ} : {A : Type ℓ} → (A → Type κ) → List A → Type κ
All P [] = Unit
All P (x ∷ xs) = P x × All P xs

pub All-map {ℓ κ μ} :
    {A : Type ℓ} {P : A → Type κ} {Q : A → Type μ} (xs : List A)
    → ((x : A) → P x → Q x)
    → All P xs
    → All Q xs
All-map [] f h = tt
All-map (x ∷ xs) f h = (f x h.0, All-map xs f h.1)

pub All-zip {ℓ κ μ ν} :
    {A : Type ℓ} {P : A → Type κ} {Q : A → Type μ} {R : A → Type ν} (xs : List A)
    → ((x : A) → P x → Q x → R x)
    → All P xs
    → All Q xs
    → All R xs
All-zip [] f h k = tt
All-zip (x ∷ xs) f h k = (f x h.0 k.0, All-zip xs f h.1 k.1)

pub All-zip_three {ℓ κ μ ν ξ} :
    {A : Type ℓ} {P : A → Type κ} {Q : A → Type μ} {R : A → Type ν} {S : A → Type ξ} (xs : List A)
    → ((x : A) → P x → Q x → R x → S x)
    → All P xs
    → All Q xs
    → All R xs
    → All S xs
All-zip_three [] f h k l = tt
All-zip_three (x ∷ xs) f h k l = (f x h.0 k.0 l.0, All-zip_three xs f h.1 k.1 l.1)

-- No request is in the list twice.
abbrev pub Distinct : List Ptr → Type 0
Distinct [] = Unit
Distinct (p ∷ ps) = All (λ q. p ≢ q) ps × Distinct ps

get_elem?-append {ℓ} :
    {A : Type ℓ} (pre : List A) (x : A) (rest : List A)
    → get_elem? (pre ++ (x ∷ rest)) (length pre) ≡ some x
get_elem?-append [] x rest = refl
get_elem?-append (y ∷ pre) x rest = get_elem?-append pre x rest

-- A round at the element after `pre`, whose body succeeds.
pub each_request_step :
    (id : ℕ) (body : Ptr → M (Unit {0})) (n : ℕ) (mux : Mux) (pre : List Ptr) (p : Ptr)
    (ps : List Ptr) (w w' : World)
    → mux.requests ≡ pre ++ (p ∷ ps)
    → w.resources id ≡ some mux
    → body p w ≡ ok (tt, w')
    → each_request id body (suc n) (length pre) w ≡ each_request id body n (length pre + 1) w'
unfolding each_request element
each_request_step id body n mux pre p ps w w' e found run =
    rw (found, ◌>>=◌) (rw (e) (rw (get_elem?-append pre p ps, ◌>>=◌) (rw (run, ◌>>=◌))))

length_step {ℓ} : {A : Type ℓ} (pre : List A) (x : A) → length pre + 1 ≡ length (pre ++ (x ∷ []))
length_step pre x = omega (arith, length-append pre (x ∷ []))

-- The effect of one step for each request of a list.
unfoldable pub run_all : (Ptr → World → World) → List Ptr → World → World
run_all step [] w = w
run_all step (p ∷ ps) w = run_all step ps (step p w)

-- A loop whose body does `step` for every request that is ready, where a step keeps the resource and
-- leaves the other requests ready, does all the steps in order.
module _ (id : ℕ) (mux : Mux) (body : Ptr → M (Unit {0})) (step : Ptr → World → World)
    (Ready : World → Ptr → Type 0)
    (runs : (p : Ptr) (w : World)
      → w.resources id ≡ some mux
      → Ready w p
      → (body p w ≡ ok (tt, step p w)) × ((step p w).resources id ≡ some mux))
    (frame : (p q : Ptr) (w : World) → p ≢ q → Ready w p → Ready w q → Ready (step p w) q) where
  Ready-after :
      (p : Ptr) (w : World) (ps : List Ptr)
      → Ready w p
      → All (λ q. p ≢ q) ps
      → All (Ready w) ps
      → All (Ready (step p w)) ps
  Ready-after p w ps now = All-zip ps (λ q ne r. frame p q w ne now r)

  each_request_from :
      (pre ps : List Ptr) (w : World)
      → mux.requests ≡ pre ++ ps
      → w.resources id ≡ some mux
      → Distinct ps
      → All (Ready w) ps
      → each_request id body (length ps) (length pre) w ≡ ok (tt, run_all step ps w)
  unfolding run_all each_request
  each_request_from pre [] w e found d r = refl
  each_request_from pre (p ∷ ps) w e found d r =
      each_request_step id body (length ps) mux pre p ps w (step p w) e found (runs p w found r.0).0
      ∙ rw (length_step pre p) (
          each_request_from (pre ++ (p ∷ [])) ps (step p w)
            (rw e (sym (append_assoc pre (p ∷ []) ps))) (runs p w found r.0).1 d.1
            (Ready-after p w ps r.0 d.0 r.1))

  pub each_request_lem :
      (w : World)
      → w.resources id ≡ some mux
      → Distinct mux.requests
      → All (Ready w) mux.requests
      → each_request id body (length mux.requests) 0 w ≡ ok (tt, run_all step mux.requests w)
  each_request_lem w found d r = each_request_from [] mux.requests w refl found d r

-- A request that is not in the list is not changed, if each step changes its own request alone.
pub run_all_other :
    (step : Ptr → World → World)
    → ((p q : Ptr) (w : World) → p ≢ q → (step p w).heap q ≡ w.heap q)
    → (q : Ptr) (ps : List Ptr) (w : World) → All (λ p. q ≢ p) ps
    → (run_all step ps w).heap q ≡ w.heap q
unfolding run_all
run_all_other step keeps q [] w ne = refl
run_all_other step keeps q (p ∷ ps) w ne =
    run_all_other step keeps q ps (step p w) ne.1 ∙ keeps p q w (λ e. ne.0 (sym e))

-- If a step depends on its own request alone, all the steps do to each request what its own step does.
pub run_all_each :
    (step : Ptr → World → World) (g : Ptr → Option Request → Option Request)
    → ((p : Ptr) (w : World) → (step p w).heap p ≡ g p (w.heap p))
    → ((p q : Ptr) (w : World) → p ≢ q → (step p w).heap q ≡ w.heap q)
    → (ps : List Ptr) (w : World) → Distinct ps
    → All (λ p. (run_all step ps w).heap p ≡ g p (w.heap p)) ps
unfolding run_all
run_all_each step g own keeps [] w d = tt
run_all_each step g own keeps (p ∷ ps) w d = (
  run_all_other step keeps p ps (step p w) d.0 ∙ own p w,
  All-zip ps (λ q ne e. e ∙ ap (g q) (keeps p q w ne)) d.0
      (run_all_each step g own keeps ps (step p w) d.1),
)

-- What no step changes, all the steps leave as it is.
pub run_all_keeps {ℓ} :
    {A : Type ℓ} (view : World → A) (step : Ptr → World → World)
    → ((p : Ptr) (w : World) → view (step p w) ≡ view w)
    → (ps : List Ptr) (w : World) → view (run_all step ps w) ≡ view w
unfolding run_all
run_all_keeps view step same [] w = refl
run_all_keeps view step same (p ∷ ps) w = run_all_keeps view step same ps (step p w) ∙ same p w
