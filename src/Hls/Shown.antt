-- ===== src/Hls/Shown.antt =====
-- src/HLSStream.cpp, `GenerateSegmentClientList`: a client gets the tracks that are next.
use cdn_uring.Prelude.{
  get_elem?-append, drop-append, ℕ, ◌+◌, ◌<◌, ◌≡◌, ◌≢◌, refl, ◌∙◌, true, false, some, List, [], ◌∷◌,
  ◌++◌, length, set, get_elem?, take, drop, arith,
}
use cdn_uring.Prelude.Int.{ℤ, less}
use cdn_uring.Prelude.Text.{Text, codes, to_string}
use cdn_uring.Prelude.Text.Lines.{print_int}
use cdn_uring.Request.{no_iovec}
use cdn_uring.Stream.Loop.{All}
use cdn_uring.Hls.Client.{next_track, joined, track_list, fill_list, generate_segment_client_list}
use cdn_uring.Hls.Extend.{playlist_at-ok}
use cdn_uring.Hls.Header.{update_header}
use cdn_uring.Headers.{replace_header_tag}
use cdn_uring.Http.Parse.{string_of}
use cdn_uring.Prelude.Result.{Result, ok, fault}
use cdn_uring.Prelude.Result as Res
use cdn_uring.Hls.State.{SegmentPlaylist}
use cdn_uring.Hls.Store.{playlist_at}
use cdn_uring.World.{Mux, World}
use cdn_uring.World.Laws.{element-ok}
use cdn_uring.World.Monad.{M, skip, run_result, put_mux, block_of, update, ◌>>=◌}

next_track-first :
    (ticks stamp : ℤ) (past later : List ℤ) (i otherwise : ℕ)
    → All (λ s. less ticks s ≡ false) past
    → less ticks stamp ≡ true
    → next_track ticks (past ++ (stamp ∷ later)) i otherwise ≡ i + length past
unfolding next_track
next_track-first ticks stamp [] later i otherwise before here = rw here (omega arith)
next_track-first ticks stamp (s ∷ past) later i otherwise before here =
    rw before.0
      (next_track-first ticks stamp past later (i + 1) otherwise before.1 here ∙ omega arith)

-- The tracks of a playlist at a time: those that are past, the first one that is not, with its number, and
-- the addresses from there on.
pub record IsNext (ticks : ℤ) (playlist : SegmentPlaylist) (number : ℤ) (urls : List Text)
    : Type 0 where
  pub past : List ℤ
  pub stamp : ℤ
  pub later : List ℤ
  pub stamps : playlist.track_stamps ≡ past ++ (stamp ∷ later)
  pub are_past : All (λ s. less ticks s ≡ false) past
  pub is_next : less ticks stamp ≡ true
  pub gone_numbers : List ℤ
  pub more_numbers : List ℤ
  pub numbers : playlist.track_sequence ≡ gone_numbers ++ (number ∷ more_numbers)
  pub as_many : length gone_numbers ≡ length past
  pub gone_urls : List Text
  pub all_urls : playlist.track_urls ≡ gone_urls ++ urls
  pub as_many_urls : length gone_urls ≡ length past

abbrev pub shown : ℤ → List Text → Text
shown number urls =
    codes "#EXTM3U\r\n#EXT-X-VERSION:3\r\n#EXT-X-TARGETDURATION:3\r\n"
    ++ (codes "#EXT-X-MEDIA-SEQUENCE:"
        ++ (print_int number ++ (codes "\r\n" ++ joined (take 4 urls))))

track_list-shown :
    (number : ℤ) (pivot : ℕ) (all urls : List Text)
    → drop pivot all ≡ urls
    → track_list number pivot all ≡ shown number urls
unfolding track_list
track_list-shown number pivot all urls e = rw e

-- A header that can be read and told a length.
update_header-told :
    (mux : Mux) (id n : ℕ) (header replaced : Text) (w : World)
    → string_of mux.header ≡ ok header
    → replace_header_tag header (codes "Content-Length") (to_string n) ≡ ok replaced
    → (run_result (update_header mux n) >>= put_mux id) w
      ≡ ok (
        tt,
        record w {
          resources = update w.resources id (some (record mux { header = block_of replaced }));
        },
      )
unfolding update_header put_mux
update_header-told mux id n header replaced w reads told =
    rw (reads, Res.◌>>=◌) (rw (told, Res.◌>>=◌) refl)

-- The resource of a playlist has a client, a buffer, and a header that can be read and told a length: its
-- first buffer then holds the first four tracks of the playlist that start after this moment, under the
-- number of the first of them, its header is that header with the length of this text, and nothing else
-- changes.
pub generate_segment_client_list-Shows :
    (ticks : ℤ) (id : ℕ) (mux : Mux) (playlist : SegmentPlaylist) (number : ℤ) (urls : List Text)
    (header replaced : Text) (w : World)
    → mux.requests ≢ []
    → 0 < length mux.buffer
    → w.playlists id ≡ some playlist
    → IsNext ticks playlist number urls
    → string_of mux.header ≡ ok header
    → replace_header_tag header (codes "Content-Length") (to_string (length (shown number urls)))
      ≡ ok replaced
    → generate_segment_client_list ticks id mux w
      ≡ ok (
        tt,
        record w {
          resources = update w.resources id (
              some (record mux {
                buffer = set mux.buffer 0 (block_of (shown number urls));
                header = block_of replaced;
              }));
        },
      )
unfolding generate_segment_client_list fill_list
generate_segment_client_list-Shows ticks id mux playlist number urls header replaced w listened
      has_buffer here next reads told =
    go mux.requests refl
    ∙ update_header-told (record mux { buffer = set mux.buffer 0 (block_of (shown number urls)) })
        id (length (shown number urls)) header replaced w reads told
  where
    place : next_track ticks playlist.track_stamps 0 0 ≡ length next.past
    place = rw next.stamps (
        next_track-first ticks next.stamp next.past next.later 0 0 next.are_past next.is_next
        ∙ omega arith)

    sequence_at : get_elem? playlist.track_sequence (length next.past) ≡ some number
    sequence_at =
        rw (next.numbers, ← next.as_many)
          (get_elem?-append next.gone_numbers number next.more_numbers)

    content : track_list number (length next.past) playlist.track_urls ≡ shown number urls
    content =
        track_list-shown number (length next.past) playlist.track_urls urls
          (rw (next.all_urls, ← next.as_many_urls) (drop-append next.gone_urls urls))

    written : M (Unit {0})
    written =
        run_result (
          update_header (record mux { buffer = set mux.buffer 0 (block_of (shown number urls)) })
            (length (shown number urls)))
        >>= put_mux id

    filled : fill_list ticks id mux playlist w ≡ written w
    filled =
        rw (place, sequence_at, ◌>>=◌)
          (rw (element-ok w mux.buffer 0 no_iovec has_buffer, ◌>>=◌) (rw (place, content) refl))

    for_client : List ℕ → M (Unit {0})
    for_client requests = elim requests [
      | [] ↦ skip
      | c ∷ rest ↦ (playlist_at id >>= fill_list ticks id mux)
    ]

    go : (requests : List ℕ) → mux.requests ≡ requests → for_client requests w ≡ written w
    go [] e = absurd (listened e)
    go (c ∷ rest) e = rw (playlist_at-ok w id here, ◌>>=◌) filled
