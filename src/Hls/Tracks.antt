-- ===== src/Hls/Tracks.antt =====
-- src/HLSStream.cpp, `ProcessSegmentList` and `CleanTracks`: the tracks that a playlist names.
use cdn_uring.Prelude.{
  ℕ, zero, suc, ◌+◌, ◌-◌, ◌==◌, Bool, true, false, Option, none, some, List, [], ◌∷◌, ◌++◌, length,
  take, drop, ltb, if◌then◌else◌,
}
use Prim.Native.String.{String}
use cdn_uring.Prelude.Int.{ℤ, pos, negsuc, ◌+ℤ◌}
use cdn_uring.Prelude.Text.{Text, codes, find, matches}
use cdn_uring.Prelude.Text.Lines.{lines_of, stoi_signed, without}
use cdn_uring.Prelude.Result.{Result, ok, fault, past_end, ◌>>=◌}
use cdn_uring.Http.Parse.{string_of}
use cdn_uring.Hls.State.{SegmentPlaylist}
use cdn_uring.World.{Iovec, Env}

abbrev pub starts_with : String → Text → Bool
starts_with s line = matches ◌==◌ (codes s) line

-- `std::find`.
unfoldable pub member : ℕ → List ℕ → Bool
member x [] = false
member x (y ∷ ys) = let rest = member x ys in if y == x then true else rest

-- The first place of `Settings::Proxy` in a text becomes `Settings::BaseUrl`.
unfoldable pub replace_proxy : Env → Text → Text
replace_proxy env url = elim (find url env.proxy) [
  | none ↦ url
  | some i ↦ take i url ++ (env.base_url ++ drop (i + length env.proxy) url)
]

-- What the loop over the lines keeps: the playlist, the time of the next track, its number, and whether
-- a track was there at all; and the line `#EXTINF` whose address is the next line.
pub record Scan : Type 0 where
  pub playlist : SegmentPlaylist
  pub last_stamp : ℤ
  pub sequence : ℤ
  pub found : Bool
  pub extinf : Option Text

-- `line.substr(8, line.find(',') - 8)`, without its points.
abbrev pub duration_digits : Text → Text
duration_digits line = elim (find line (codes ",")) [
  | none ↦ without b'.' (drop 8 line)
  | some i ↦ without b'.' (take (i - 8) (drop 8 line))
]

-- The four vectors of a playlist get one more element each.
abbrev pub push_track : Text → ℕ → ℤ → ℤ → SegmentPlaylist → SegmentPlaylist
push_track block uid stamp sequence playlist = record playlist {
  track_urls = playlist.track_urls ++ (block ∷ []);
  track_uids = playlist.track_uids ++ (uid ∷ []);
  track_stamps = playlist.track_stamps ++ (stamp ∷ []);
  track_sequence = playlist.track_sequence ++ (sequence ∷ []);
}

-- The address of a track, behind its line `#EXTINF`. A track that is there already only counts; an address of
-- less than seven bytes is read past its end.
unfoldable pub add_track : Env → Text → Text → Scan → Result Scan
add_track env line url scan = do
  stamp ← stoi_signed (duration_digits line)
  let uid = env.hash url
  let sequence = scan.sequence +ℤ pos 1
  let seen : Scan = record scan { sequence = sequence; found = true; extinf = none }
  if member uid scan.playlist.track_uids
      then ok seen
      else if ltb (length url) 7
      then fault past_end
      else ok (record seen {
        playlist =
            push_track (line ++ (codes "\n" ++ (replace_proxy env url ++ codes "\n"))) uid
              scan.last_stamp sequence scan.playlist;
        last_stamp = scan.last_stamp +ℤ stamp;
      })

-- The number of the first track, less one.
unfoldable pub set_sequence : Text → Scan → Result Scan
set_sequence line scan = do
  n ← stoi_signed (drop 22 line)
  ok (record scan { sequence = n +ℤ negsuc 0 })

-- One line: the address that belongs to the line before, or a line of its own.
unfoldable pub scan_line : Env → Text → Scan → Result Scan
scan_line env line scan = elim scan.extinf [
  | some info ↦
      if starts_with "http" line
      then add_track env info line scan
      else ok (record scan { extinf = none })
  | none ↦
      if starts_with "#EXTINF:" line
      then ok (record scan { extinf = some line })
      else if starts_with "#EXT-X-MEDIA-SEQUENCE:" line
      then set_sequence line scan
      else ok scan
]

unfoldable pub scan_lines : Env → List Text → Scan → Result Scan
scan_lines env [] scan = ok (record scan { extinf = none })
scan_lines env (line ∷ lines) scan = scan_line env line scan >>= scan_lines env lines

-- The loop over the buffers of the answer.
unfoldable pub scan_buffers : Env → List Iovec → ℕ → Scan → Result Scan
scan_buffers env buffer zero scan = ok scan
scan_buffers env [] (suc size) scan = fault past_end
scan_buffers env (v ∷ buffer) (suc size) scan =
    let further = scan_buffers env buffer size in
    if v.len == 0
    then further scan
    else (string_of v >>= λ content. scan_lines env (lines_of content) scan >>= further)

-- `HLSStream::CleanTracks`: the last ten tracks are kept.
unfoldable pub clean_tracks : SegmentPlaylist → SegmentPlaylist
clean_tracks playlist =
    let count = length playlist.track_urls - 10 in
    if ltb (length playlist.track_urls) 10 then playlist else record playlist {
      track_urls = drop count playlist.track_urls;
      track_uids = drop count playlist.track_uids;
      track_stamps = drop count playlist.track_stamps;
      track_sequence = drop count playlist.track_sequence;
    }
