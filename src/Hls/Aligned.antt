-- ===== src/Hls/Aligned.antt =====
-- src/HLSStream.cpp: the four vectors of a playlist belong together.
use cdn_uring.Prelude.{
  ℕ, zero, suc, ◌-◌, ◌==◌, ◌≡◌, ◌≢◌, refl, inl, inr, false, none, some, List, [], ◌∷◌, ◌++◌, length,
  drop, ltb, length-append, length-drop, Bool-cases, Option-cases, arith,
}
use cdn_uring.Prelude.Int.{ℤ, same_int}
use cdn_uring.Prelude.Text.{Text}
use cdn_uring.Prelude.Text.Lines.{stoi_signed, lines_of}
use cdn_uring.Prelude.Result.{fault, past_end}
use cdn_uring.Prelude.Holds.{Holds, Holds-bind, Holds-after, Holds-if}
use cdn_uring.Http.Parse.{string_of}
use cdn_uring.Hls.State.{SegmentPlaylist}
use cdn_uring.Hls.Segment.{settle}
use cdn_uring.Hls.Tracks.{
  Scan, starts_with, duration_digits, member, push_track, add_track, set_sequence, scan_line,
  scan_lines, scan_buffers, clean_tracks,
}
use cdn_uring.World.{Iovec, Env}

abbrev pub Distinct : List ℕ → Type 0
Distinct [] = Unit
Distinct (x ∷ xs) = (member x xs ≡ false) × Distinct xs

-- Each track has an address, a time and a number, and stands there once.
pub record IsAligned (playlist : SegmentPlaylist) : Type 0 where
  pub urls : length playlist.track_urls ≡ length playlist.track_uids
  pub stamps : length playlist.track_stamps ≡ length playlist.track_uids
  pub numbers : length playlist.track_sequence ≡ length playlist.track_uids
  pub distinct : Distinct playlist.track_uids

member-cons : (x y : ℕ) (ys : List ℕ) → member x (y ∷ ys) ≡ false → (y ≢ x) × (member x ys ≡ false)
unfolding member
member-cons x y ys e = (ground arith, ground arith)

member-snoc :
    (y x : ℕ) (xs : List ℕ) → member y xs ≡ false → y ≢ x → member y (xs ++ (x ∷ [])) ≡ false
unfolding member
member-snoc y x [] e ne = ground (arith, ne)
member-snoc y x (z ∷ xs) e ne =
    let (other, rest) = member-cons y z xs e in ground (arith, other, member-snoc y x xs rest ne)

Distinct-snoc :
    (x : ℕ) (xs : List ℕ) → Distinct xs → member x xs ≡ false → Distinct (xs ++ (x ∷ []))
unfolding member
Distinct-snoc x [] h e = (nowhere, tt)
  where
    nowhere : member x [] ≡ false
    nowhere = refl
Distinct-snoc x (y ∷ xs) h e =
    let (other, rest) = member-cons x y xs e in
    (member-snoc y x xs h.0 other, Distinct-snoc x xs h.1 rest)

Distinct-drop : (n : ℕ) (xs : List ℕ) → Distinct xs → Distinct (drop n xs)
Distinct-drop zero xs h = h
Distinct-drop (suc n) [] h = tt
Distinct-drop (suc n) (x ∷ xs) h = Distinct-drop n xs h.1

push_track-IsAligned :
    (block : Text) (uid : ℕ) (stamp sequence : ℤ) (playlist : SegmentPlaylist)
    → member uid playlist.track_uids ≡ false
    → IsAligned playlist
    → IsAligned (push_track block uid stamp sequence playlist)
push_track-IsAligned block uid stamp sequence playlist fresh h = record {
  urls = omega (
    arith,
    h.urls,
    length-append playlist.track_urls (block ∷ []),
    length-append playlist.track_uids (uid ∷ []),
  );
  stamps = omega (
    arith,
    h.stamps,
    length-append playlist.track_stamps (stamp ∷ []),
    length-append playlist.track_uids (uid ∷ []),
  );
  numbers = omega (
    arith,
    h.numbers,
    length-append playlist.track_sequence (sequence ∷ []),
    length-append playlist.track_uids (uid ∷ []),
  );
  distinct = Distinct-snoc uid playlist.track_uids h.distinct fresh;
}

abbrev pub Keeps : Scan → Type 0
Keeps scan = IsAligned scan.playlist

add_track-Keeps :
    (env : Env) (line url : Text) (scan : Scan)
    → Keeps scan
    → Holds Keeps (add_track env line url scan)
unfolding add_track
add_track-Keeps env line url scan h =
    Holds-after Keeps (stoi_signed (duration_digits line)) _ λ stamp.
      Holds-if Keeps (member (env.hash url) scan.playlist.track_uids) _ _ (λ _. h)
        λ fresh.
          Holds-if Keeps (ltb (length url) 7) (fault past_end) _ (λ _. tt)
            λ _. push_track-IsAligned _ (env.hash url) scan.last_stamp _ scan.playlist fresh h

set_sequence-Keeps :
    (env : Env) (line : Text) (scan : Scan) → Keeps scan → Holds Keeps (set_sequence line scan)
unfolding set_sequence
set_sequence-Keeps env line scan h = Holds-after Keeps (stoi_signed (drop 22 line)) _ λ n. h

scan_line-Keeps :
    (env : Env) (line : Text) (scan : Scan) → Keeps scan → Holds Keeps (scan_line env line scan)
unfolding scan_line
scan_line-Keeps env line scan h = elim (Option-cases scan.extinf) [
  | inl e ↦ rw e (
      Holds-if Keeps (starts_with "#EXTINF:" line) _ _ (λ _. h)
        λ _.
          Holds-if Keeps (starts_with "#EXT-X-MEDIA-SEQUENCE:" line) _ _
            (λ _. set_sequence-Keeps env line (record scan { extinf = none }) h) λ _. h)
  | inr (info, e) ↦ rw e (
      Holds-if Keeps (starts_with "http" line) _ _
        (λ _. add_track-Keeps env info line (record scan { extinf = some info }) h) λ _. h)
]

scan_lines-Keeps :
    (env : Env) (lines : List Text) (scan : Scan)
    → Keeps scan
    → Holds Keeps (scan_lines env lines scan)
unfolding scan_lines
scan_lines-Keeps env [] scan h = h
scan_lines-Keeps env (line ∷ lines) scan h =
    Holds-bind Keeps Keeps (scan_line env line scan) (scan_lines env lines)
      (scan_line-Keeps env line scan h) (scan_lines-Keeps env lines)

-- Whatever the answer holds, the loop keeps the vectors together.
pub scan_buffers-Keeps :
    (env : Env) (buffer : List Iovec) (size : ℕ) (scan : Scan)
    → Keeps scan
    → Holds Keeps (scan_buffers env buffer size scan)
unfolding scan_buffers
scan_buffers-Keeps env buffer zero scan h = h
scan_buffers-Keeps env [] (suc size) scan h = tt
scan_buffers-Keeps env (v ∷ buffer) (suc size) scan h =
    Holds-if Keeps (v.len == 0) _ _ (λ _. scan_buffers-Keeps env buffer size scan h)
      λ _. Holds-after Keeps (string_of v) _ λ content.
        Holds-bind Keeps Keeps (scan_lines env (lines_of content) scan) _
          (scan_lines-Keeps env (lines_of content) scan h) (scan_buffers-Keeps env buffer size)

clean_tracks-IsAligned :
    (playlist : SegmentPlaylist) → IsAligned playlist → IsAligned (clean_tracks playlist)
unfolding clean_tracks
clean_tracks-IsAligned playlist h = elim (Bool-cases (ltb (length playlist.track_urls) 10)) [
  | inl few ↦ rw few h
  | inr many ↦ rw many (record {
    urls = omega (
      arith,
      h.urls,
      length-drop count playlist.track_urls,
      length-drop count playlist.track_uids,
    );
    stamps = omega (
      arith,
      h.stamps,
      length-drop count playlist.track_stamps,
      length-drop count playlist.track_uids,
    );
    numbers = omega (
      arith,
      h.numbers,
      length-drop count playlist.track_sequence,
      length-drop count playlist.track_uids,
    );
    distinct = Distinct-drop count playlist.track_uids h.distinct;
  })
]
  where
    count : ℕ
    count = length playlist.track_urls - 10

pub settle-IsAligned : (scan : Scan) → Keeps scan → IsAligned (settle scan)
unfolding settle
settle-IsAligned scan h = elim (Bool-cases (same_int scan.playlist.last_stamp scan.last_stamp)) [
  | inl same ↦ rw same h
  | inr moved ↦
      rw moved (
        clean_tracks-IsAligned (record scan.playlist { last_stamp = scan.last_stamp }) (moved_on h))
]
  where
    moved_on : Keeps scan → IsAligned (record scan.playlist { last_stamp = scan.last_stamp })
    moved_on h = record {
      urls = h.urls;
      stamps = h.stamps;
      numbers = h.numbers;
      distinct = h.distinct;
    }
