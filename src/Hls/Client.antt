-- ===== src/Hls/Client.antt =====
-- src/HLSStream.cpp, `GenerateSegmentClientList`: the tracks that a client gets.
use cdn_uring.Prelude.{
  ℕ, ◌+◌, List, [], ◌∷◌, ◌++◌, length, get_elem?, set, take, drop, if◌then◌else◌,
}
use cdn_uring.Prelude.Int.{ℤ, less}
use cdn_uring.Prelude.Text.{Text, codes}
use cdn_uring.Prelude.Text.Lines.{print_int}
use cdn_uring.Prelude.Result.{out_of_range}
use cdn_uring.Hls.Header.{update_header}
use cdn_uring.Hls.State.{SegmentPlaylist, max_tracks_per_playlist}
use cdn_uring.Hls.Store.{playlist_at}
use cdn_uring.World.{Mux}
use cdn_uring.World.Monad.{M, skip, lift, run_result, put_mux, element, block_of, ◌>>=◌}

-- The first place whose time is behind `ticks`, or `otherwise`; places count from `i` on.
unfoldable pub next_track : ℤ → List ℤ → ℕ → ℕ → ℕ
next_track ticks [] i otherwise = otherwise
next_track ticks (stamp ∷ stamps) i otherwise =
    let rest = next_track ticks stamps (i + 1) otherwise in if less ticks stamp then i else rest

-- `ss << urls.at(pivot + i)` of a few texts.
unfoldable pub joined : List Text → Text
joined [] = []
joined (s ∷ texts) = s ++ joined texts

abbrev pub playlist_head : Text
playlist_head = codes "#EXTM3U\r\n#EXT-X-VERSION:3\r\n#EXT-X-TARGETDURATION:3\r\n"

-- What a client gets of the tracks from `pivot` on, the first of which has this number.
unfoldable pub track_list : ℤ → ℕ → List Text → Text
track_list sequence pivot urls =
    playlist_head
    ++ (codes "#EXT-X-MEDIA-SEQUENCE:"
        ++ (print_int sequence
            ++ (codes "\r\n" ++ joined (take max_tracks_per_playlist (drop pivot urls)))))

-- The playlist goes into the first buffer of the resource.
unfoldable pub fill_list : ℤ → ℕ → Mux → SegmentPlaylist → M (Unit {0})
fill_list ticks resource_id mux playlist = do
  let pivot = next_track ticks playlist.track_stamps 0 0
  sequence ← lift out_of_range (get_elem? playlist.track_sequence pivot)
  let content = track_list sequence pivot playlist.track_urls
  old ← element mux.buffer 0
  updated ←
      run_result (
        update_header (record mux { buffer = set mux.buffer 0 (block_of content) })
          (length content))
  put_mux resource_id updated

-- `HLSStream::GenerateSegmentClientList`.
unfoldable pub generate_segment_client_list : ℤ → ℕ → Mux → M (Unit {0})
generate_segment_client_list ticks resource_id mux = elim mux.requests [
  | [] ↦ skip
  | first ∷ rest ↦ (playlist_at resource_id >>= fill_list ticks resource_id mux)
]
