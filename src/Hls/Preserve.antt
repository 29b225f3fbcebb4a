-- ===== src/Hls/Preserve.antt =====
-- src/HLSStream.cpp: what the answers of the origin do to the playlists.
use cdn_uring.Prelude.{
  ℕ, ◌≡◌, sym, subst, ◌∙◌, Bool, true, false, Option, none, some, List, [], ◌∷◌, if◌then◌else◌, ltb,
  ℕ_discrete,
}
use cdn_uring.Prelude.Text.{Text}
use cdn_uring.Prelude.Result.{Fault, missing_key, dangling, Result, ok, fault}
use cdn_uring.Stream.Join.{nop}
use cdn_uring.Stream.Registry.{release_resource}
use cdn_uring.Prelude.Holds.{Holds}
use cdn_uring.Hls.Aligned.{IsAligned}
use cdn_uring.Hls.Files.{create_segment, request_file, release_all}
use cdn_uring.Hls.State.{SegmentPlaylist}
use cdn_uring.Hls.Store.{insert_mux, put_playlist, erase_playlist}
use cdn_uring.World.{Ptr, Request, Mux, World, Env, prep_timeout, prep_nop}
use cdn_uring.World.Laws.{update_self, update_other}
use cdn_uring.World.Monad.{
  M, skip, lift, run_result, allocate, release, submit, mux_at, put_mux, erase_mux, update, ◌>>=◌,
}

-- All playlists have vectors that belong together.
abbrev pub AllAligned : World → Type 0
AllAligned w =
    (id : ℕ) (playlist : SegmentPlaylist) → w.playlists id ≡ some playlist → IsAligned playlist

-- Wherever the handler starts with such playlists, it ends with such, unless it fails.
abbrev pub Preserves : {A : Type 0} → M A → Type 0
Preserves m = (w : World) → AllAligned w → Holds (λ r. AllAligned r.1) (m w)

pub Preserves-bind :
    {A B : Type 0} (m : M A) (f : A → M B)
    → Preserves m
    → ((a : A) → Preserves (f a))
    → Preserves (m >>= f)
Preserves-bind {A} {B} m f h next w aligned = go (m w) (h w aligned)
  where
    go :
        (r : Result (A × World))
        → Holds (λ r. AllAligned r.1) r
        → Holds {A = B × World}
            (λ r. AllAligned r.1)
            (elim r [ ok (a, w') ↦ f a w' | fault e ↦ fault e ])
    go (ok (a, w')) k = next a w' k
    go (fault e) k = tt

pub Preserves-if :
    {A : Type 0} (b : Bool) (m n : M A) → Preserves m → Preserves n → Preserves (if b then m else n)
Preserves-if true m n h k = h
Preserves-if false m n h k = k

pub lift-Preserves : {A : Type 0} (e : Fault) (o : Option A) → Preserves (lift e o)
lift-Preserves e none w h = tt
lift-Preserves e (some a) w h = h

pub run_result-Preserves : {A : Type 0} (r : Result A) → Preserves (run_result r)
run_result-Preserves (ok a) w h = h
run_result-Preserves (fault e) w h = tt

pub mux_at-Preserves : (id : ℕ) → Preserves (mux_at id)
unfolding mux_at
mux_at-Preserves id w h = lift-Preserves missing_key (w.resources id) w h

pub put_mux-Preserves : (id : ℕ) (mux : Mux) → Preserves (put_mux id mux)
unfolding put_mux
put_mux-Preserves id mux w h = h

pub skip-Preserves : Preserves skip
skip-Preserves w h = h

pub release-Preserves : (p : Ptr) → Preserves (release p)
unfolding release
release-Preserves p w h = go (w.heap p)
  where
    go :
        (o : Option Request)
        → Holds {A = Unit {0} × World}
            (λ r. AllAligned r.1)
            (elim o [
              | none ↦ fault dangling
              | some r ↦ ok (tt, record w { heap = update w.heap p none })
            ])
    go none = tt
    go (some r) = h

pub release_all-Preserves : (requests : List Ptr) → Preserves (release_all requests)
unfolding release_all
release_all-Preserves [] = skip-Preserves
release_all-Preserves (c ∷ requests) =
    Preserves-bind (release c) _ (release-Preserves c) λ _. release_all-Preserves requests

pub release_resource-Preserves : (id : ℕ) → Preserves (release_resource id)
unfolding release_resource erase_mux
release_resource-Preserves id = Preserves-bind (mux_at id) _ (mux_at-Preserves id) λ mux w h. h

pub nop-Preserves : (p : Ptr) (timeout : ℕ) → Preserves (nop p timeout)
unfolding nop submit
nop-Preserves p timeout =
    Preserves-if (ltb 0 timeout) (submit (prep_timeout timeout p)) (submit (prep_nop p)) (λ w h. h)
      (λ w h. h)

pub request_file-Preserves :
    (env : Env) (parent_id : ℕ) (url : Text) (tag msecs : ℕ)
    → Preserves (request_file env parent_id url tag msecs)
unfolding request_file create_segment allocate insert_mux
request_file-Preserves env parent_id url tag msecs w h = nop-Preserves w.next msecs _ h

some_injective : {A : Type 0} {a b : A} → some a ≡ some b → a ≡ b
some_injective e = cc

pub IsAligned-update :
    (w : World) (id : ℕ) (playlist : SegmentPlaylist)
    → IsAligned playlist
    → AllAligned w
    → AllAligned (record w { playlists = update w.playlists id (some playlist) })
IsAligned-update w id playlist aligned h j other e = elim (ℕ_discrete id j) [
  | yes same ↦ subst IsAligned (some_injective (sym (at_id same) ∙ e)) aligned
  | no ne ↦ h j other (sym (update_other w.playlists id (some playlist) j ne) ∙ e)
]
  where
    at_id : id ≡ j → update w.playlists id (some playlist) j ≡ some playlist
    at_id same = rw (← same) (update_self w.playlists id (some playlist))

pub put_playlist-Preserves :
    (id : ℕ) (playlist : SegmentPlaylist)
    → IsAligned playlist
    → Preserves (put_playlist id playlist)
unfolding put_playlist
put_playlist-Preserves id playlist aligned w h = IsAligned-update w id playlist aligned h

pub erase_playlist-Preserves : (id : ℕ) → Preserves (erase_playlist id)
unfolding erase_playlist
erase_playlist-Preserves id w h j other e = elim (ℕ_discrete id j) [
  | yes same ↦ absurd (none_some (sym (at_id same) ∙ e))
  | no ne ↦ h j other (sym (update_other w.playlists id none j ne) ∙ e)
]
  where
    at_id : id ≡ j → update w.playlists id none j ≡ none
    at_id same = rw (← same) (update_self w.playlists id none)

    none_some : {a : SegmentPlaylist} → none ≡ some a → ⊥
    none_some e = cc
