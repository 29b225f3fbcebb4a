-- ===== src/World/Laws.antt =====
-- The primitive operations where they succeed.
use cdn_uring.Prelude.{
  ℕ, ◌≤◌, ◌<◌, ◌≡◌, ◌≢◌, some, none, List, length, get_or, arith, get_elem?-eq-get_or, le→leb,
  ==_refl, ℕ_discrete, sym,
}
use mathlib.Core.Path.{fun_ext}
use cdn_uring.Prelude.Text.{Text}
use cdn_uring.Prelude.Result.{ok}
use cdn_uring.World.{Iovec, Ptr, Request, Mux, Node, World}
use cdn_uring.World.Monad.{deref, element, fill, mux_at, node_at, release, update}

module _ (w : World) where
  pub deref-ok : (p : Ptr) {r : Request} → w.heap p ≡ some r → deref p w ≡ ok (r, w)
  unfolding deref
  deref-ok p e = rw e

  pub mux_at-ok : (id : ℕ) {mux : Mux} → w.resources id ≡ some mux → mux_at id w ≡ ok (mux, w)
  unfolding mux_at
  mux_at-ok id e = rw e

  pub node_at-ok : (id : ℕ) {node : Node} → w.nodes id ≡ some node → node_at id w ≡ ok (node, w)
  unfolding node_at
  node_at-ok id e = rw e

  pub element-ok :
      {A : Type 0} (xs : List A) (i : ℕ) (d : A)
      → i < length xs
      → element xs i w ≡ ok (get_or xs i d, w)
  unfolding element
  element-ok xs i d h = rw (get_elem?-eq-get_or xs i d h)

  pub fill-ok :
      (v : Iovec) (bytes : Text)
      → length bytes ≤ v.cap
      → fill v bytes w ≡ ok (record { len = length bytes; cap = v.cap; base = bytes }, w)
  unfolding fill
  fill-ok v bytes h = rw (le→leb (length bytes) v.cap h)

  pub release-ok :
      (p : Ptr) {r : Request}
      → w.heap p ≡ some r
      → release p w ≡ ok (tt, record w { heap = update w.heap p none })
  unfolding release
  release-ok p e = ground arith

module _ {ℓ} {A : Type ℓ} (f : ℕ → A) (p : ℕ) (v : A) where
  pub update_self : update f p v p ≡ v
  update_self = ground arith

  pub update_other : (q : ℕ) → p ≢ q → update f p v q ≡ f q
  update_other q ne = ground arith

  pub update-update : (u : A) → update (update f p v) p u ≡ update f p u
  update-update u = fun_ext λ q. ground arith

pub update_same {ℓ} : {A : Type ℓ} (f : ℕ → A) (p : ℕ) {v : A} → f p ≡ v → update f p v ≡ f
update_same f p e = fun_ext λ q. elim (ℕ_discrete p q) [
  | yes at ↦ rw (← at) (rw (==_refl p) (sym e))
  | no ne ↦ update_other f p _ q ne
]
