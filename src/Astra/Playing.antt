-- ===== src/Astra/Playing.antt =====
-- src/AstraHttpClient.cpp: there is a duration for each track, and one for the track that is played.
use cdn_uring.Prelude.{
  ℕ, suc, ◌+◌, ◌-◌, ◌≤◌, ◌≡◌, ◌≢◌, refl, ap, ◌∙◌, true, false, Option, none, some, List, [], ◌∷◌,
  get_elem?, length, length-append, ltb, if◌then◌else◌, arith,
}
use cdn_uring.Prelude.Int.{ℤ, pos}
use cdn_uring.Prelude.Text.{Text, text_eq, is_empty}
use cdn_uring.Prelude.Text.Lines.{stoi_signed}
use cdn_uring.Prelude.Result.{ok}
use cdn_uring.Astra.Content.{queue_track, queue_tracks}
use cdn_uring.Astra.Play.{
  reproduction_at, put_reproduction, exists_playlist, delay_of, get_timeout, request_track,
  request_url, fetch_request, track_header, above_zero, play, play_next_track,
}
use cdn_uring.Astra.State.{Playlist}
use cdn_uring.Prelude.Holds.{Holds, Holds-after, Holds-bind, Holds-if}
use cdn_uring.Hls.Channel.{local_url}
use cdn_uring.Hls.Tracks.{starts_with, duration_digits}
use cdn_uring.Event
use cdn_uring.Request.{create_request, inner_request}
use cdn_uring.Stream.Join.{nop}
use cdn_uring.World.{Request, World, prep_timeout, prep_nop}
use cdn_uring.World.Laws.{update_self, update_other, update-update}
use cdn_uring.World.Monad.{pure, update, allocate, submit, c_block, ◌>>=◌, ◌>>◌}

-- One more duration than tracks: that of the track before the first one.
abbrev pub IsPaired : Playlist → Type 0
IsPaired playlist = length playlist.tracks_duration ≡ suc (length playlist.tracks)

queue_track-IsPaired :
    (line found : Text) (playlist : Playlist)
    → IsPaired playlist
    → Holds IsPaired (queue_track line found playlist)
unfolding queue_track
queue_track-IsPaired line found playlist h = Holds-after IsPaired (local_url found) _ λ url.
    Holds-if IsPaired (text_eq url playlist.last_track) _ _ (λ _. h)
      λ _. Holds-after IsPaired (stoi_signed (duration_digits line)) _ λ seconds. omega (
        arith,
        h,
        length-append playlist.tracks (url ∷ []),
        length-append playlist.tracks_duration (seconds ∷ []),
      )

-- If a playlist has one more duration than tracks, it still has with the tracks of a list of the origin,
-- whatever the list holds, unless the process ends.
pub queue_tracks-IsPaired :
    (extinf : Option Text) (lines : List Text) (playlist : Playlist)
    → IsPaired playlist
    → Holds IsPaired (queue_tracks extinf lines playlist)
unfolding queue_tracks
queue_tracks-IsPaired extinf [] playlist h = h
queue_tracks-IsPaired (some info) (line ∷ lines) playlist h =
    Holds-if IsPaired (starts_with "http" line) _ _
      (λ _.
        Holds-bind IsPaired IsPaired (queue_track info line playlist) (queue_tracks none lines)
          (queue_track-IsPaired info line playlist h) (queue_tracks-IsPaired none lines))
      λ _. queue_tracks-IsPaired none lines playlist h
queue_tracks-IsPaired none (line ∷ lines) playlist h = queue_tracks-IsPaired _ lines playlist h

reproduction_at-ok :
    (w : World) (id : ℕ) {playlist : Playlist}
    → w.reproductions id ≡ some playlist
    → reproduction_at id w ≡ ok (playlist, w)
unfolding reproduction_at
reproduction_at-ok w id e = rw e

-- What becomes of a playlist whose first track is played.
abbrev pub played : Text → List Text → List ℤ → Playlist → Playlist
played url rest durations playlist = record playlist {
  tracks = rest;
  last_track = url;
  tracks_duration = durations;
}

module _ (now : ℕ) (http : Request) (playlist : Playlist) (url : Text) (rest : List Text)
    (duration : ℤ) (durations : List ℤ) (w : World) where
  taken : World
  taken = record w {
    reproductions =
        update w.reproductions http.resource_id
          (some (record playlist { tracks = rest; last_track = url }));
  }

  get_timeout-taken :
      playlist.tracks_duration ≡ duration ∷ durations
      → get_timeout now http.resource_id taken
        ≡ ok (
          delay_of now playlist.start_time duration,
          record w {
            reproductions =
                update w.reproductions http.resource_id (some (played url rest durations playlist));
          },
        )
  unfolding get_timeout put_reproduction taken
  get_timeout-taken e =
      rw (reproduction_at-ok taken http.resource_id taken-at, ◌>>=◌)
        (rw e (
          ap (λ f. ok (delay_of now playlist.start_time duration, record w { reproductions = f }))
            (update-update w.reproductions http.resource_id
              (some (played url rest (duration ∷ durations) playlist))
              (some (played url rest durations playlist)))))
    where
      taken-at :
          taken.reproductions http.resource_id
          ≡ some (record playlist { tracks = rest; last_track = url })
      taken-at = update_self w.reproductions http.resource_id _

  play-taken :
      playlist.tracks_duration ≡ duration ∷ durations
      → play now http playlist (url ∷ rest) w
        ≡ (request_track http url (delay_of now playlist.start_time duration) >> pure true)
            (record w {
              reproductions =
                  update w.reproductions http.resource_id
                    (some (played url rest durations playlist));
            })
  unfolding play put_reproduction taken
  play-taken e = rw (get_timeout-taken e, ◌>>=◌) refl

-- What is left to wait: 150 ms less than the rest of the time of the track that is played.
above_zero-delay_of :
    (now start d : ℕ)
    → start ≤ now
    → above_zero (delay_of now start (pos d)) ≡ d - (now - start) - 150
unfolding delay_of
above_zero-delay_of now start d le = ground arith

-- The first track is played: it is asked for, once, after the rest of the time that its predecessor takes.
pub record Plays (now d : ℕ) (http : Request) (playlist : Playlist) (url : Text) (rest : List Text)
    (durations : List ℤ) (w : World) : Type 0 where
  pub after : World
  pub returns : play_next_track now http w ≡ ok (true, after)
  pub asked : Request
  pub allocated : after.heap w.next ≡ some asked
  pub resolves : asked.event_type ≡ Event.dns_fetchaaaa
  pub same_resource : asked.resource_id ≡ http.resource_id
  pub for_track : get_elem? asked.iov 2 ≡ some (c_block url)
  pub with_header : get_elem? asked.iov 3 ≡ some (c_block track_header)
  pub waits :
      let left = d - (now - playlist.start_time) - 150 in
      after.submitted
      ≡ (if ltb 0 left then prep_timeout left w.next else prep_nop w.next) ∷ w.submitted
  pub taken_off :
      after.reproductions http.resource_id
      ≡ some (record playlist { tracks = rest; last_track = url; tracks_duration = durations })
  pub paired : length durations ≡ suc (length rest)
  pub other_requests : (p : ℕ) → w.next ≢ p → after.heap p ≡ w.heap p
  pub other_playlists : (j : ℕ) → http.resource_id ≢ j → after.reproductions j ≡ w.reproductions j
  pub same_resources : after.resources ≡ w.resources

module _ (http : Request) (url : Text) (delay : ℤ) (w : World) where
  -- The request that is allocated, and what waits for it.
  abbrev requested : World
  requested = record w {
    heap = update w.heap w.next (some (fetch_request http url track_header));
    next = w.next + 1;
    submitted =
        (if ltb 0 (above_zero delay)
          then prep_timeout (above_zero delay) w.next
          else prep_nop w.next)
        ∷ w.submitted;
  }

  request_track-ok : is_empty url ≡ false → request_track http url delay w ≡ ok (tt, requested)
  unfolding request_track request_url allocate nop submit
  request_track-ok full = ground arith

-- A playlist with a track whose address is not empty, and with one more duration than tracks, while the
-- track before it, which started at no later time, takes `d` ms: the first track is asked for, once, 150 ms
-- before that time is over, or at once if less is left; both are taken off, there is still one more duration
-- than tracks, and no other playlist, request or resource changes.
pub play_next_track-Plays :
    (now d : ℕ) (http : Request) (playlist : Playlist) (url : Text) (rest : List Text)
    (durations : List ℤ) (w : World)
    → w.reproductions http.resource_id ≡ some playlist
    → playlist.tracks ≡ url ∷ rest
    → playlist.tracks_duration ≡ pos d ∷ durations
    → IsPaired playlist
    → is_empty url ≡ false
    → playlist.start_time ≤ now
    → Plays now d http playlist url rest durations w
unfolding play_next_track exists_playlist play fetch_request inner_request create_request
play_next_track-Plays now d http playlist url rest durations w here waiting waited paired full
      started =
    record {
      after = after;
      returns =
          rw (here, ◌>>=◌)
            (rw (reproduction_at-ok w http.resource_id here, ◌>>=◌)
              (rw waiting (
                play-taken now http playlist url rest (pos d) durations w waited
                ∙ rw (request_track-ok http url delay taken_world full, ◌>>=◌) refl)));
      asked = fetch_request http url track_header;
      allocated = update_self w.heap w.next _;
      resolves = refl;
      same_resource = refl;
      for_track = refl;
      with_header = refl;
      waits = rw (above_zero-delay_of now playlist.start_time d started) refl;
      taken_off = update_self w.reproductions http.resource_id _;
      paired = omega (arith, paired, ap length waited, ap length waiting);
      other_requests = λ p ne. update_other w.heap w.next _ p ne;
      other_playlists = λ j ne. update_other w.reproductions http.resource_id _ j ne;
      same_resources = refl;
    }
  where
    delay : ℤ
    delay = delay_of now playlist.start_time (pos d)

    taken_world : World
    taken_world = record w {
      reproductions =
          update w.reproductions http.resource_id (some (played url rest durations playlist));
    }

    after : World
    after = requested http url delay taken_world
