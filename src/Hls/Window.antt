-- ===== src/Hls/Window.antt =====
-- src/HLSStream.cpp, `ProcessSegmentList`: a list of tracks that has moved on.
use cdn_uring.Prelude.{
  ℕ, ◌≡◌, refl, ◌∙◌, Bool, true, false, none, some, List, [], ◌∷◌, ◌++◌, map, length, drop, ltb,
  append_assoc, append-nil,
}
use cdn_uring.Prelude.Int.{ℤ, pos, negsuc, ◌+ℤ◌}
use cdn_uring.Prelude.Text.{Text, codes}
use cdn_uring.Prelude.Text.Lines.{stoi_signed}
use cdn_uring.Prelude.Result.{ok, ◌>>=◌}
use cdn_uring.Hls.State.{SegmentPlaylist}
use cdn_uring.Hls.Tracks.{
  Scan, starts_with, duration_digits, member, push_track, replace_proxy, add_track, set_sequence,
  scan_line, scan_lines,
}
use cdn_uring.World.{Env}

-- A track as a list shows it: its line `#EXTINF`, its address, and how long it takes.
pub record Track : Type 0 where
  pub line : Text
  pub url : Text
  pub duration : ℤ

pub record IsTrack (t : Track) : Type 0 where
  pub info : starts_with "#EXTINF:" t.line ≡ true
  pub lasts : stoi_signed (duration_digits t.line) ≡ ok t.duration
  pub address : starts_with "http" t.url ≡ true
  pub long : ltb (length t.url) 7 ≡ false

abbrev pub track_lines : List Track → List Text
track_lines [] = []
track_lines (t ∷ tracks) = t.line ∷ t.url ∷ track_lines tracks

-- Tracks that the playlist has.
abbrev pub AreKnown : Env → SegmentPlaylist → List Track → Type 0
AreKnown env playlist [] = Unit
AreKnown env playlist (t ∷ tracks) =
    IsTrack t × (member (env.hash t.url) playlist.track_uids ≡ true) × AreKnown env playlist tracks

-- Tracks that are neither among some others nor there twice.
abbrev pub AreNew : Env → List ℕ → List Track → Type 0
AreNew env uids [] = Unit
AreNew env uids (t ∷ tracks) =
    IsTrack t
    × (member (env.hash t.url) uids ≡ false)
    × AreNew env (uids ++ (env.hash t.url ∷ [])) tracks

-- What is kept of a track.
abbrev pub block : Env → Track → Text
block env t = t.line ++ (codes "\n" ++ (replace_proxy env t.url ++ codes "\n"))

-- The times at which tracks start that follow each other, and the time at which the last one ends.
abbrev pub starts : ℤ → List Track → List ℤ
starts stamp [] = []
starts stamp (t ∷ tracks) = stamp ∷ starts (stamp +ℤ t.duration) tracks

abbrev pub end_of : ℤ → List Track → ℤ
end_of stamp [] = stamp
end_of stamp (t ∷ tracks) = end_of (stamp +ℤ t.duration) tracks

-- The numbers of tracks that follow a given one.
abbrev pub numbers : ℤ → List Track → List ℤ
numbers n [] = []
numbers n (t ∷ tracks) = (n +ℤ pos 1) ∷ numbers (n +ℤ pos 1) tracks

abbrev pub last_number : ℤ → List Track → ℤ
last_number n [] = n
last_number n (t ∷ tracks) = last_number (n +ℤ pos 1) tracks

-- The playlist with new tracks behind its own.
abbrev pub extended : Env → ℤ → ℤ → List Track → SegmentPlaylist → SegmentPlaylist
extended env stamp n tracks playlist = record playlist {
  track_urls = playlist.track_urls ++ map (block env) tracks;
  track_uids = playlist.track_uids ++ map (λ t. env.hash t.url) tracks;
  track_stamps = playlist.track_stamps ++ starts stamp tracks;
  track_sequence = playlist.track_sequence ++ numbers n tracks;
}

-- What the loop keeps, between two lines that belong to different tracks.
abbrev pub scan_of : SegmentPlaylist → ℤ → ℤ → Bool → Scan
scan_of playlist stamp n found = record {
  playlist = playlist;
  last_stamp = stamp;
  sequence = n;
  found = found;
  extinf = none;
}

module _ (env : Env) (t : Track) (h : IsTrack t) (playlist : SegmentPlaylist) (stamp n : ℤ)
    (found : Bool) where
  waiting : Scan
  waiting = record (scan_of playlist stamp n found) { extinf = some t.line }

  scan_line-info : scan_line env t.line (scan_of playlist stamp n found) ≡ ok waiting
  unfolding scan_line waiting
  scan_line-info = rw h.info

  scan_line-known :
      member (env.hash t.url) playlist.track_uids ≡ true
      → scan_line env t.url waiting ≡ ok (scan_of playlist stamp (n +ℤ pos 1) true)
  unfolding scan_line waiting add_track
  scan_line-known known = rw (h.address, h.lasts, known)

  scan_line-new :
      member (env.hash t.url) playlist.track_uids ≡ false
      → scan_line env t.url waiting
        ≡ ok (
            scan_of
              (push_track (block env t) (env.hash t.url) stamp (n +ℤ pos 1) playlist)
              (stamp +ℤ t.duration)
              (n +ℤ pos 1)
              true)
  unfolding scan_line waiting add_track
  scan_line-new fresh = rw (h.address, h.lasts, fresh, h.long)

abbrev pub found_after : List Track → Bool → Bool
found_after [] found = found
found_after (t ∷ tracks) found = found_after tracks true

scan_lines-known :
    (env : Env) (playlist : SegmentPlaylist) (tracks : List Track) (stamp n : ℤ) (found : Bool)
    (rest : List Text)
    → AreKnown env playlist tracks
    → scan_lines env (track_lines tracks ++ rest) (scan_of playlist stamp n found)
      ≡ scan_lines env rest
          (scan_of playlist stamp (last_number n tracks) (found_after tracks found))
unfolding scan_lines
scan_lines-known env playlist [] stamp n found rest h = refl
scan_lines-known env playlist (t ∷ tracks) stamp n found rest h =
    rw (scan_line-info env t h.0 playlist stamp n found, ◌>>=◌)
      (rw (scan_line-known env t h.0 playlist stamp n found h.1, ◌>>=◌)
        (scan_lines-known env playlist tracks stamp (n +ℤ pos 1) true rest h.2))

extended-none :
    (env : Env) (stamp n : ℤ) (playlist : SegmentPlaylist)
    → extended env stamp n [] playlist ≡ playlist
extended-none env stamp n playlist = rw (
  append-nil playlist.track_urls,
  append-nil playlist.track_uids,
  append-nil playlist.track_stamps,
  append-nil playlist.track_sequence,
)

extended-push :
    (env : Env) (stamp n : ℤ) (t : Track) (tracks : List Track) (playlist : SegmentPlaylist)
    → extended env
        (stamp +ℤ t.duration)
        (n +ℤ pos 1)
        tracks
        (push_track (block env t) (env.hash t.url) stamp (n +ℤ pos 1) playlist)
      ≡ extended env stamp n (t ∷ tracks) playlist
extended-push env stamp n t tracks playlist = rw (
  append_assoc playlist.track_urls (block env t ∷ []) (map (block env) tracks),
  append_assoc playlist.track_uids (env.hash t.url ∷ []) (map (λ t. env.hash t.url) tracks),
  append_assoc playlist.track_stamps (stamp ∷ []) (starts (stamp +ℤ t.duration) tracks),
  append_assoc playlist.track_sequence ((n +ℤ pos 1) ∷ []) (numbers (n +ℤ pos 1) tracks),
)

scan_lines-new :
    (env : Env) (playlist : SegmentPlaylist) (tracks : List Track) (stamp n : ℤ) (found : Bool)
    → AreNew env playlist.track_uids tracks
    → scan_lines env (track_lines tracks) (scan_of playlist stamp n found)
      ≡ ok (
          scan_of
            (extended env stamp n tracks playlist)
            (end_of stamp tracks)
            (last_number n tracks)
            (found_after tracks found))
unfolding scan_lines
scan_lines-new env playlist [] stamp n found h = rw (extended-none env stamp n playlist)
scan_lines-new env playlist (t ∷ tracks) stamp n found h =
    rw (scan_line-info env t h.0 playlist stamp n found, ◌>>=◌)
      (rw (scan_line-new env t h.0 playlist stamp n found h.1, ◌>>=◌)
        (rw (← extended-push env stamp n t tracks playlist) (
          scan_lines-new env (push_track (block env t) (env.hash t.url) stamp (n +ℤ pos 1) playlist)
            tracks (stamp +ℤ t.duration) (n +ℤ pos 1) true h.2)))

-- The origin's list of a playlist has moved on: it shows its first number, tracks that are known, and
-- then new ones.
pub record IsWindow (env : Env) (playlist : SegmentPlaylist) (number : ℤ) (old new : List Track)
    (lines : List Text) : Type 0 where
  pub first : Text
  pub tagged : starts_with "#EXT-X-MEDIA-SEQUENCE:" first ≡ true
  pub no_track : starts_with "#EXTINF:" first ≡ false
  pub numbered : stoi_signed (drop 22 first) ≡ ok number
  pub shown : lines ≡ first ∷ (track_lines old ++ track_lines new)
  pub known : AreKnown env playlist old
  pub fresh : AreNew env playlist.track_uids new

-- The known tracks only count, and the new ones follow those of the playlist.
pub scan_lines-window :
    (env : Env) (playlist : SegmentPlaylist) (stamp n number : ℤ) (found : Bool)
    (old new : List Track) (lines : List Text)
    → IsWindow env playlist number old new lines
    → scan_lines env lines (scan_of playlist stamp n found)
      ≡ ok (
          scan_of
            (extended env stamp (last_number (number +ℤ negsuc 0) old) new playlist)
            (end_of stamp new)
            (last_number (last_number (number +ℤ negsuc 0) old) new)
            (found_after new (found_after old found)))
unfolding scan_lines scan_line set_sequence
scan_lines-window env playlist stamp n number found old new lines h =
    rw (h.shown, head, ◌>>=◌)
      (scan_lines-known env playlist old stamp (number +ℤ negsuc 0) found (track_lines new) h.known
        ∙ scan_lines-new env playlist new stamp (last_number (number +ℤ negsuc 0) old)
            (found_after old found) h.fresh)
  where
    head :
        scan_line env h.first (scan_of playlist stamp n found)
        ≡ ok (scan_of playlist stamp (number +ℤ negsuc 0) found)
    head = rw (h.no_track, h.tagged, h.numbered)
