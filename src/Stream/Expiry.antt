-- ===== src/Stream/Expiry.antt =====
-- src/Stream.cpp, `AddResourceTTL` and `HandleCleanup`: resources whose time is over.
use cdn_uring.Prelude.{
  ℕ, ◌≤◌, ◌<◌, ◌≡◌, ◌≢◌, ◌∙◌, refl, sym, some, none, List, [], ◌∷◌, ◌++◌, arith, ltb, if◌then◌else◌,
  Bool-cases, inl, inr, true, false, ltb→lt, ◌==◌,
}
use cdn_uring.Prelude.Text.{codes, to_string}
use cdn_uring.Prelude.Result.{ok}
use cdn_uring.World.{Ptr, Mux, Env, World, prep_timeout}
use cdn_uring.World.Monad.{update, erase_mux, remove_file, submit, ◌>>=◌}
use cdn_uring.World.Laws.{mux_at-ok, update_self, update_other}
use cdn_uring.Stream.Registry.{release_resource}
use cdn_uring.Stream.Join.{insert_ttl, set_ttl, clean_cache, clean_expired, handle_cleanup, nop}
use cdn_uring.Stream.Loop.{All, All-map}

-- The entries are in the order of their times, and no two have the same.
abbrev pub Sorted : List (ℕ × ℕ) → Type 0
Sorted [] = Unit
Sorted ((t, id) ∷ ttl) = All (λ e. t < e.0) ttl × Sorted ttl

insert_ttl-All :
    (P : ℕ → Type 0) (t id : ℕ) (ttl : List (ℕ × ℕ))
    → P t
    → All (λ e. P e.0) ttl
    → All (λ e. P e.0) (insert_ttl t id ttl)
unfolding insert_ttl
insert_ttl-All P t id [] h hs = (h, tt)
insert_ttl-All P t id ((u, j) ∷ ttl) h hs = elim (Bool-cases (ltb t u)) [
  | inl before ↦ rw before (h, hs)
  | inr after ↦ elim (Bool-cases (t == u)) [
    | inl same ↦ rw (after, same) hs
    | inr other ↦ rw (after, other) (hs.0, insert_ttl-All P t id ttl h hs.1)
  ]
]

-- An entry that is put in leaves the entries in the order of their times, with no time twice.
pub insert_ttl-Sorted : (t id : ℕ) (ttl : List (ℕ × ℕ)) → Sorted ttl → Sorted (insert_ttl t id ttl)
unfolding insert_ttl
insert_ttl-Sorted t id [] s = (tt, tt)
insert_ttl-Sorted t id ((u, j) ∷ ttl) s = elim (Bool-cases (ltb t u)) [
  | inl before ↦
      rw before
        ((ltb→lt t u before, All-map ttl (λ e h. omega (arith, ltb→lt t u before, h)) s.0), s)
  | inr after ↦ elim (Bool-cases (t == u)) [
    | inl same ↦ rw (after, same) s
    | inr other ↦
        rw (after, other)
          (
            insert_ttl-All (λ x. u < x) t id ttl (ground (arith, after, other)) s.0,
            insert_ttl-Sorted t id ttl s.1,
          )
  ]
]

-- The entries that are not over at `now`.
abbrev pub unexpired : ℕ → List (ℕ × ℕ) → List (ℕ × ℕ)
unexpired now [] = []
unexpired now ((t, id) ∷ ttl) = if ltb now t then (t, id) ∷ ttl else unexpired now ttl

-- All entries are of resources that are there, each of one of its own.
abbrev pub Owned : World → List (ℕ × ℕ) → Type 0
Owned w [] = Unit
Owned w ((t, id) ∷ ttl) =
    ((mux : Mux) × (w.resources id ≡ some mux)) × All (λ e. id ≢ e.1) ttl × Owned w ttl

-- What the cleanup at `now` leaves behind.
pub record Cleans (now : ℕ) (ttl : List (ℕ × ℕ)) (w after : World) : Type 0 where
  pub left : after.resource_ttl ≡ unexpired now ttl
  pub gone : All (λ e. e.0 ≤ now → after.resources e.1 ≡ none) ttl
  pub kept : (j : ℕ) → All (λ e. e.0 ≤ now → e.1 ≢ j) ttl → after.resources j ≡ w.resources j
  pub requests : after.heap ≡ w.heap
  pub written : after.submitted ≡ w.submitted

-- The world after the first entry was cleaned.
freed : Env → ℕ → List (ℕ × ℕ) → World → World
freed env id rest w = record w {
  resources = update w.resources id none;
  resource_ttl = rest;
  removed =
      ((env.cache_dir ++ to_string id) ++ codes "_h") ∷ (env.cache_dir ++ to_string id) ∷ w.removed;
}

Owned-freed :
    (env : Env) (id : ℕ) (rest ttl : List (ℕ × ℕ)) (w : World)
    → All (λ e. id ≢ e.1) ttl
    → Owned w ttl
    → Owned (freed env id rest w) ttl
unfolding freed
Owned-freed env id rest [] w ne o = tt
Owned-freed env id rest ((t, j) ∷ ttl) w ne o = (
  (o.0.0, update_other w.resources id none j ne.0 ∙ o.0.1),
  o.1,
  Owned-freed env id rest ttl w ne.1 o.2,
)

module _ (env : Env) (id : ℕ) (rest : List (ℕ × ℕ)) (w : World) where
  freed-left : (freed env id rest w).resource_ttl ≡ rest
  unfolding freed
  freed-left = refl

  freed-gone : (freed env id rest w).resources id ≡ none
  unfolding freed
  freed-gone = update_self w.resources id none

  freed-other : (j : ℕ) → id ≢ j → (freed env id rest w).resources j ≡ w.resources j
  unfolding freed
  freed-other j ne = update_other w.resources id none j ne

  freed-heap : (freed env id rest w).heap ≡ w.heap
  unfolding freed
  freed-heap = refl

  freed-submitted : (freed env id rest w).submitted ≡ w.submitted
  unfolding freed
  freed-submitted = refl

module _ (env : Env) (now : ℕ) where
  clean_expired-step :
      (t id : ℕ) (rest : List (ℕ × ℕ)) (w : World)
      → t ≤ now
      → ((mux : Mux) × (w.resources id ≡ some mux))
      → clean_expired env now ((t, id) ∷ rest) w ≡ clean_expired env now rest (freed env id rest w)
  unfolding clean_expired release_resource erase_mux clean_cache remove_file set_ttl freed
  clean_expired-step t id rest w over owner =
      let is_over : ltb now t ≡ false = ground (arith, over) in
      rw is_over (rw (mux_at-ok w id owner.1, ◌>>=◌))

  clean_none : (w : World) → clean_expired env now [] w ≡ ok (tt, w)
  unfolding clean_expired
  clean_none w = refl

  clean_later :
      (t id : ℕ) (rest : List (ℕ × ℕ)) (w : World)
      → ltb now t ≡ true
      → clean_expired env now ((t, id) ∷ rest) w ≡ ok (tt, w)
  unfolding clean_expired
  clean_later t id rest w later = rw later

  clean_expired-Cleans :
      (ttl : List (ℕ × ℕ)) (w : World)
      → w.resource_ttl ≡ ttl
      → Sorted ttl
      → Owned w ttl
      → (after : World) × (clean_expired env now ttl w ≡ ok (tt, after)) × Cleans now ttl w after
  clean_expired-Cleans [] w e s o = (
    w,
    clean_none w,
    record { left = e; gone = tt; kept = λ j h. refl; requests = refl; written = refl },
  )
  clean_expired-Cleans ((t, id) ∷ rest) w e s o = elim (Bool-cases (ltb now t)) [
    | inl later ↦ (
      w,
      clean_later t id rest w later,
      record {
        left = e ∙ rw later;
        gone = (
          (λ le. absurd (omega (arith, le, ltb→lt now t later))),
          All-map rest (λ x h le. absurd (omega (arith, le, ltb→lt now t later, h))) s.0,
        );
        kept = λ j h. refl;
        requests = refl;
        written = refl;
      },
    )
    | inr over ↦
        let due : t ≤ now = ground (arith, over) in
        let more =
          clean_expired-Cleans rest (freed env id rest w) (freed-left env id rest w) s.1
            (Owned-freed env id rest rest w o.1 o.2) in
        (
          more.0,
          clean_expired-step t id rest w due o.0 ∙ more.1,
          record {
            left = more.2.left ∙ rw over;
            gone = (
              (λ le.
                  more.2.kept id (All-map rest (λ x ne due' at. ne (sym at)) o.1)
                  ∙ freed-gone env id rest w),
              more.2.gone,
            );
            kept = λ j h. more.2.kept j h.1 ∙ freed-other env id rest w j (h.0 due);
            requests = more.2.requests ∙ freed-heap env id rest w;
            written = more.2.written ∙ freed-submitted env id rest w;
          },
        )
  ]

  -- The cleanup, where the entries are in order and each is of a resource of its own that is there: just
  -- the entries whose time is over go, and with them just their resources; no request changes, and the
  -- cleanup is asked for again in a second.
  pub handle_cleanup-Cleans :
      (request : Ptr) (w : World)
      → Sorted w.resource_ttl
      → Owned w w.resource_ttl
      → (after : World) × (handle_cleanup env now request w
          ≡ ok (tt, record after { submitted = prep_timeout 1000 request ∷ after.submitted }))
        × Cleans now w.resource_ttl w after
  unfolding handle_cleanup nop submit
  handle_cleanup-Cleans request w s o =
      let all = clean_expired-Cleans w.resource_ttl w refl s o in (all.0, rw (all.1, ◌>>=◌), all.2)
