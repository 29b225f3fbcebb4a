-- ===== src/Stream/Removal.antt =====
-- src/Stream.cpp, `RemoveRequest`: a request leaves its resource.
use cdn_uring.Prelude.{
  ℕ, ◌==◌, ◌≡◌, ◌≢◌, ◌∙◌, refl, Bool, Bool-cases, inl, inr, ◌&&◌, Option, none, some, List, [], ◌∷◌,
  ◌++◌, arith, if◌then◌else◌,
}
use cdn_uring.Prelude.Result.{ok, fault, past_end}
use cdn_uring.Event
use cdn_uring.World.{Ptr, Mux, World}
use cdn_uring.World.Monad.{put_mux, erase_mux, update, ◌>>=◌}
use cdn_uring.World.Laws.{mux_at-ok, update_self, update-update}
use cdn_uring.Stream.Registry.{
  exists_resource, erase_request, remove_request, remove_from, release_if_unheard, release_resource,
  is_nil,
}
use cdn_uring.Stream.Loop.{All}

erase_request-append :
    (p : Ptr) (pre post : List Ptr)
    → All (λ q. q ≢ p) pre
    → erase_request p (pre ++ (p ∷ post)) ≡ some (pre ++ post)
unfolding erase_request
erase_request-append p [] post ne = ground arith
erase_request-append p (q ∷ pre) post ne = ground (arith, erase_request-append p pre post ne.1)

erase_request-absent : (p : Ptr) (ps : List Ptr) → All (λ q. q ≢ p) ps → erase_request p ps ≡ none
unfolding erase_request
erase_request-absent p [] ne = refl
erase_request-absent p (q ∷ ps) ne = ground (arith, erase_request-absent p ps ne.1)

-- A stream that nobody listens to.
abbrev pub is_unheard : Mux → List Ptr → Bool
is_unheard mux requests = (mux.type == Event.resource_streaming) && is_nil requests

-- The resource with the requests that are left: gone, if it is a stream and nobody is left.
abbrev pub left_over : Mux → List Ptr → Option Mux
left_over mux requests =
    if is_unheard mux requests then none else some (record mux { requests = requests })

release_if_unheard-eq :
    (id : ℕ) (m : Mux) (v : World)
    → v.resources id ≡ some m
    → release_if_unheard id m v ≡ (
        if is_unheard m m.requests
        then ok (1, record v { resources = update v.resources id none })
        else ok (0, v))
unfolding release_if_unheard release_resource erase_mux
release_if_unheard-eq id m v e = elim (Bool-cases (is_unheard m m.requests)) [
  | inl gone ↦ rw gone (rw (mux_at-ok v id e, ◌>>=◌))
  | inr heard ↦ rw heard
]

module _ (id : ℕ) (mux : Mux) (w : World) (found : w.resources id ≡ some mux) where
  remove_request-eq : (p : Ptr) → remove_request p id w ≡ remove_from p id w
  unfolding remove_request exists_resource
  remove_request-eq p = rw found

  rest : List Ptr → World
  rest requests = record w {
    resources = update w.resources id (some (record mux { requests = requests }));
  }

  remove_from-eq :
      (p : Ptr) (requests : List Ptr)
      → erase_request p mux.requests ≡ some requests
      → remove_from p id w
        ≡ release_if_unheard id (record mux { requests = requests }) (rest requests)
  unfolding remove_from put_mux rest
  remove_from-eq p requests e = rw (mux_at-ok w id found, ◌>>=◌) (rw (e))

  -- Removing a request that waits for the resource takes it out once and keeps the order of the others.
  -- A stream that has lost its last listener is freed, and only then is the result 1.
  pub remove_request_takes :
      (p : Ptr) (pre post : List Ptr)
      → mux.requests ≡ pre ++ (p ∷ post)
      → All (λ q. q ≢ p) pre
      → remove_request p id w
        ≡ ok (
          if is_unheard mux (pre ++ post) then 1 else 0,
          record w { resources = update w.resources id (left_over mux (pre ++ post)) },
        )
  unfolding rest
  remove_request_takes p pre post e ne =
      remove_request-eq p
      ∙ remove_from-eq p (pre ++ post) (rw e (erase_request-append p pre post ne))
      ∙ release_if_unheard-eq id (record mux { requests = pre ++ post }) (rest (pre ++ post))
          (update_self w.resources id _)
      ∙ elim (Bool-cases (is_unheard mux (pre ++ post))) [
        | inl gone ↦
            rw gone (
              rw (update-update w.resources id (some (record mux { requests = pre ++ post })) none))
        | inr heard ↦ rw heard
      ]

  -- Removing a request that does not wait for the resource is undefined.
  pub remove_request_absent :
      (p : Ptr) → All (λ q. q ≢ p) mux.requests → remove_request p id w ≡ fault past_end
  unfolding remove_from
  remove_request_absent p ne =
      remove_request-eq p
      ∙ rw (mux_at-ok w id found, ◌>>=◌) (rw (erase_request-absent p mux.requests ne))
