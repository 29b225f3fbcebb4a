-- ===== src/Hls/Dangling.antt =====
-- src/HLSStream.cpp, `NotifyCacheCompleted`: the resource of a list of tracks is used after it was freed.
mod Tests
use cdn_uring.Prelude.{
  ℕ, ◌==◌, ◌≡◌, ◌≢◌, refl, sym, ◌∙◌, ap, true, false, Option, none, some, List, [], ◌∷◌, get_elem?,
  set, length, if◌then◌else◌,
}
use cdn_uring.Prelude.Int.{pos}
use cdn_uring.Prelude.Holds.{Holds}
use cdn_uring.Prelude.Result.{Result, Fault, ok, fault, missing_key, out_of_range, past_end}
use cdn_uring.Hls.Client.{next_track, track_list, fill_list, generate_segment_client_list}
use cdn_uring.Hls.Header.{update_header}
use cdn_uring.Hls.Extend.{playlist_at-ok}
use cdn_uring.Hls.Files.{release_all, remove_segment, request_file}
use cdn_uring.Stream.Registry.{release_resource}
use cdn_uring.Hls.Notify.{held_mux, complete_segments, notify_hls_cache_completed}
use cdn_uring.Hls.Segment.{start_scan, settle, fetch_again, process_segment_list}
use cdn_uring.Hls.State.{SegmentPlaylist, channel_inner_tag, segment_inner_playlist_tag}
use cdn_uring.Hls.Store.{segment_at, playlist_at, put_playlist, erase_segment}
use cdn_uring.Hls.Tracks.{scan_buffers}
use cdn_uring.World.{Iovec, Mux, World, Env}
use cdn_uring.World.Laws.{mux_at-ok, update_self, update_other}
use cdn_uring.World.Monad.{
  M, lift, skip, run_result, mux_at, put_mux, block_of, erase_mux, element, ◌>>=◌,
}

-- A step whose result has a property, and what follows it.
Holds-step :
    {A B : Type 0} (P : A × World → Type 0) (Q : B × World → Type 0) (m : M A) (f : A → M B)
    (w : World)
    → Holds P (m w)
    → ((a : A) (w' : World) → P (a, w') → Holds Q (f a w'))
    → Holds Q ((m >>= f) w)
Holds-step {A} {B} P Q m f w h next = go (m w) h
  where
    go :
        (r : Result (A × World))
        → Holds P r
        → Holds Q (elim r [ ok (a, w') ↦ f a w' | fault e ↦ fault e ])
    go (ok (a, w')) k = next a w' k
    go (fault e) k = tt

Holds-any : {A : Type 0} (r : Result (A × World)) → Holds (λ _. Unit {0}) r
Holds-any (ok a) = tt
Holds-any (fault e) = tt

-- A step of which nothing is known.
Holds-past :
    {A B : Type 0} (Q : B × World → Type 0) (m : M A) (f : A → M B) (w : World)
    → ((a : A) (w' : World) → Holds Q (f a w'))
    → Holds Q ((m >>= f) w)
Holds-past Q m f w next = Holds-step (λ _. Unit {0}) Q m f w (Holds-any (m w)) λ a w' _. next a w'

-- A step that only reads.
Holds-lift :
    {A B : Type 0} (Q : B × World → Type 0) (e : Fault) (o : Option A) (f : A → M B) (w : World)
    → ((a : A) → Holds Q (f a w))
    → Holds Q ((lift e o >>= f) w)
Holds-lift Q e none f w next = tt
Holds-lift Q e (some a) f w next = next a

Holds-run :
    {A B : Type 0} (Q : B × World → Type 0) (r : Result A) (f : A → M B) (w : World)
    → ((a : A) → Holds Q (f a w))
    → Holds Q ((run_result r >>= f) w)
Holds-run Q (ok a) f w next = next a
Holds-run Q (fault e) f w next = tt

abbrev IsGone : ℕ → World → Type 0
IsGone id w = w.resources id ≡ none

-- `RemoveSegment` frees the resource.
remove_segment-IsGone : (id : ℕ) (w : World) → Holds (λ r. IsGone id r.1) (remove_segment id w)
unfolding remove_segment release_resource erase_mux erase_segment
remove_segment-IsGone id w =
    Holds-past (λ r. IsGone id r.1) (mux_at id) _ w
      λ mux w1.
        Holds-past (λ r. IsGone id r.1) (release_all mux.requests) _ w1
          λ _ w2.
            Holds-step (λ r. IsGone id r.1) (λ r. IsGone id r.1) (release_resource id) _ w2
              (Holds-past (λ r. IsGone id r.1) (mux_at id) _ w2
                λ _ w3. update_self w3.resources id none)
              λ _ w3 gone. gone

-- A resource that is there is not one that was freed.
mux_at-apart :
    (id other : ℕ) (w : World)
    → IsGone id w
    → Holds (λ r. IsGone id r.1 × (other ≢ id)) (mux_at other w)
unfolding mux_at
mux_at-apart id other w gone = go (w.resources other) refl
  where
    some_none : {m : Mux} → some m ≡ none → ⊥
    some_none e = cc

    go :
        (o : Option Mux)
        → w.resources other ≡ o
        → Holds (λ r. IsGone id r.1 × (other ≢ id)) (lift missing_key o w)
    go none e = tt
    go (some m) e = (gone, λ same. some_none (sym e ∙ (ap w.resources same ∙ gone)))

-- The clients of another resource get its list.
fill_list-IsGone :
    (now id other : ℕ) (mux : Mux) (playlist : SegmentPlaylist) (w : World)
    → other ≢ id
    → IsGone id w
    → Holds (λ r. IsGone id r.1) (fill_list (pos now) other mux playlist w)
unfolding fill_list element put_mux
fill_list-IsGone now id other mux playlist w apart gone =
    let pivot = next_track (pos now) playlist.track_stamps 0 0 in
    Holds-lift (λ r. IsGone id r.1) out_of_range (get_elem? playlist.track_sequence pivot) _ w
      λ sequence.
        let content = track_list sequence pivot playlist.track_urls in
        Holds-lift (λ r. IsGone id r.1) past_end (get_elem? mux.buffer 0) _ w
          λ old.
            Holds-run (λ r. IsGone id r.1)
              (update_header (record mux { buffer = set mux.buffer 0 (block_of content) })
                (length content))
              _ w λ updated. update_other w.resources other (some updated) id apart ∙ gone

generate_segment_client_list-IsGone :
    (now id other : ℕ) (mux : Mux) (w : World)
    → other ≢ id
    → IsGone id w
    → Holds (λ r. IsGone id r.1) (generate_segment_client_list (pos now) other mux w)
unfolding generate_segment_client_list playlist_at
generate_segment_client_list-IsGone now id other mux w apart gone = go mux.requests
  where
    for_client : List ℕ → M (Unit {0})
    for_client requests = elim requests [
      | [] ↦ skip
      | c ∷ rest ↦ (playlist_at other >>= fill_list (pos now) other mux)
    ]

    go : (requests : List ℕ) → Holds (λ r. IsGone id r.1) (for_client requests w)
    go [] = gone
    go (c ∷ rest) =
        Holds-lift (λ r. IsGone id r.1) missing_key (w.playlists other)
          (fill_list (pos now) other mux) w
          λ playlist. fill_list-IsGone now id other mux playlist w apart gone

module _ (env : Env) (now id parent_id : ℕ) (buffer : List Iovec) (size : ℕ) (mux : Mux)
    (playlist : SegmentPlaylist) (w : World) where
  proceeds :
      w.playlists parent_id ≡ some playlist
      → (playlist.remaining_fetches == 0) ≡ false
      → Holds (λ r. r.0 ≡ true) (process_segment_list env (pos now) parent_id buffer size w)
  unfolding process_segment_list fetch_again
  proceeds here more =
      rw (playlist_at-ok w parent_id here, ◌>>=◌, more)
        (Holds-past (λ r. r.0 ≡ true)
          (run_result (scan_buffers env buffer size (start_scan (pos now) playlist))) _ w
          λ scan w1.
            Holds-past (λ r. r.0 ≡ true) (put_playlist parent_id (settle scan)) _ w1
              λ _ w2.
                Holds-past (λ r. r.0 ≡ true)
                  (request_file env playlist.resource_id playlist.url channel_inner_tag
                    (if scan.found then 2500 else 500))
                  _ w2 λ _ w3. refl)

  -- The list of the tracks of a playlist has come, and there is time to fetch again: the function never ends
  -- well: if no call before fails, it reads the resource of the list after it has freed it.
  pub notify_hls_cache_completed-dangles :
      w.resources id ≡ some mux
      → mux.tag ≡ segment_inner_playlist_tag
      → w.segments id ≡ some parent_id
      → w.playlists parent_id ≡ some playlist
      → (playlist.remaining_fetches == 0) ≡ false
      → Holds (λ _. ⊥) (notify_hls_cache_completed env now id buffer size w)
  unfolding notify_hls_cache_completed complete_segments segment_at held_mux
  notify_hls_cache_completed-dangles found tag parent here more =
      rw (mux_at-ok w id found, ◌>>=◌, tag)
        (rw (parent, ◌>>=◌)
          (Holds-step (λ r. r.0 ≡ true) (λ _. ⊥)
            (process_segment_list env (pos now) parent_id buffer size) _ w (proceeds here more)
            λ proceed w1 yes.
              Holds-step (λ r. IsGone id r.1) (λ _. ⊥) (remove_segment id) _ w1
                (remove_segment-IsGone id w1)
                λ _ w2 gone. rw yes (
                  Holds-step (λ r. IsGone id r.1 × (parent_id ≢ id)) (λ _. ⊥) (mux_at parent_id) _
                    w2 (mux_at-apart id parent_id w2 gone)
                    λ mux' w3 apart.
                      Holds-step (λ r. IsGone id r.1) (λ _. ⊥)
                        (generate_segment_client_list (pos now) parent_id mux') _ w3
                        (generate_segment_client_list-IsGone now id parent_id mux' w3 apart.1
                          apart.0)
                        λ _ w4 freed. rw (freed, ◌>>=◌) tt)))
