-- ===== src/Dns/Deliver.antt =====
-- src/Dns.cpp, `dnsRight`: the requests of a query get the address, once each and in order.
use cdn_uring.Prelude.{
  ℕ, ◌<◌, ◌≡◌, ◌≢◌, ◌∙◌, refl, sym, ap, some, List, [], ◌∷◌, length, arith, Option-cases, inl, inr,
}
use cdn_uring.Prelude.Text.{Text}
use cdn_uring.Prelude.Result.{ok}
use cdn_uring.Dns.State.{ipv6}
use cdn_uring.Dns.Right.{addressed, dns_right, dns_right_all}
use cdn_uring.Request.{no_iovec}
use cdn_uring.Stream.Loop.{All, All-zip, Distinct, run_all, run_all_keeps}
use cdn_uring.Stream.Each.{round, round-eq}
use cdn_uring.World.{Ptr, Request, World, Sqe, prep_nop}
use cdn_uring.World.Monad.{store, submit, ◌>>=◌}
use cdn_uring.World.Laws.{deref-ok, element-ok, update_other}

-- A request that is in use and has room for an address.
abbrev pub Waiting : World → Ptr → Type 0
Waiting w p = (r : Request) × (w.heap p ≡ some r) × (4 < length r.iov)

-- What a request becomes when its host's address is known, and what is handed to the ring for it.
abbrev pub with_address : ℕ → Text → Ptr → Request → Request
with_address port address p r = addressed ipv6 port address r

abbrev pub nop_for : Ptr → Request → List Sqe → List Sqe
nop_for p r sqes = prep_nop p ∷ sqes

-- The requests of a list are handed to the ring one after the other.
abbrev pub written : List Ptr → List Sqe → List Sqe
written [] sqes = sqes
written (p ∷ ps) sqes = written ps (prep_nop p ∷ sqes)

module _ (port : ℕ) (address : Text) where
  abbrev pub give : Ptr → World → World
  give = round (with_address port address) nop_for

  dns_right-ok :
      (p : Ptr) (w : World) → Waiting w p → dns_right ipv6 port address p w ≡ ok (tt, give p w)
  unfolding dns_right store submit
  dns_right-ok p w (r, live, room) =
      rw (deref-ok w p live, ◌>>=◌)
        (rw (element-ok w r.iov 4 no_iovec room, ◌>>=◌)
          (ap (λ v. ok (tt, v)) (sym (round-eq (with_address port address) nop_for p w live))))

  Waiting-give : (p q : Ptr) (w : World) → p ≢ q → Waiting w q → Waiting (give p w) q
  unfolding round
  Waiting-give p q w ne (r, live, room) = elim (Option-cases (w.heap p)) [
    | inl e ↦ rw (e, round) (r, live, room)
    | inr (s, e) ↦ rw (e, round) (r, update_other w.heap p _ q ne ∙ live, room)
  ]

  pub dns_right_all-ok :
      (ps : List Ptr) (w : World)
      → Distinct ps
      → All (Waiting w) ps
      → dns_right_all port address ps w ≡ ok (tt, run_all give ps w)
  unfolding dns_right_all run_all
  dns_right_all-ok [] w d ready = refl
  dns_right_all-ok (p ∷ ps) w d ready =
      rw (dns_right-ok p w ready.0, ◌>>=◌)
        (dns_right_all-ok ps (give p w) d.1
          (All-zip ps (λ q ne h. Waiting-give p q w ne h) d.0 ready.1))

  give_submitted :
      (p : Ptr) (w : World) → Waiting w p → (give p w).submitted ≡ prep_nop p ∷ w.submitted
  unfolding round
  give_submitted p w (r, live, room) = rw (live, round)

  give_dns : (p : Ptr) (w : World) → (give p w).dns ≡ w.dns
  unfolding round
  give_dns p w = ground arith

  -- The resolver's own members are left alone.
  pub run_all-dns : (ps : List Ptr) (w : World) → (run_all give ps w).dns ≡ w.dns
  run_all-dns ps w = run_all_keeps (λ v. v.dns) give give_dns ps w

  pub submitted-run_all :
      (ps : List Ptr) (w : World)
      → Distinct ps
      → All (Waiting w) ps
      → (run_all give ps w).submitted ≡ written ps w.submitted
  unfolding run_all
  submitted-run_all [] w d ready = refl
  submitted-run_all (p ∷ ps) w d ready =
      submitted-run_all ps (give p w) d.1
        (All-zip ps (λ q ne h. Waiting-give p q w ne h) d.0 ready.1)
      ∙ ap (written ps) (give_submitted p w ready.0)

  -- A request that waits and is not in the list goes on waiting.
  pub run_all-Waiting :
      (ps : List Ptr) (w : World) (q : Ptr)
      → All (λ p. q ≢ p) ps
      → Waiting w q
      → Waiting (run_all give ps w) q
  unfolding run_all
  run_all-Waiting [] w q ne h = h
  run_all-Waiting (p ∷ ps) w q ne h =
      run_all-Waiting ps (give p w) q ne.1 (Waiting-give p q w (λ e. ne.0 (sym e)) h)
