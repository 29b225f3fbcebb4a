-- ===== src/Hls/Store.antt =====
-- The maps of `HLSStream`, and `resources_.insert`.
use cdn_uring.Prelude.{ℕ, none, some}
use cdn_uring.Prelude.Result.{missing_key, ok}
use cdn_uring.Hls.State.{SegmentPlaylist}
use cdn_uring.World.{Mux}
use cdn_uring.World.Monad.{M, lift, insert, update}

unfoldable pub insert_mux : ℕ → Mux → M (Unit {0})
insert_mux id mux w = ok (tt, record w { resources = insert w.resources id mux })

-- `playlists_.at(id)`, a write through that pointer, `insert` and `erase`.
unfoldable pub playlist_at : ℕ → M SegmentPlaylist
playlist_at id w = lift missing_key (w.playlists id) w

unfoldable pub put_playlist : ℕ → SegmentPlaylist → M (Unit {0})
put_playlist id playlist w = ok (tt, record w { playlists = update w.playlists id (some playlist) })

unfoldable pub insert_playlist : ℕ → SegmentPlaylist → M (Unit {0})
insert_playlist id playlist w = ok (tt, record w { playlists = insert w.playlists id playlist })

unfoldable pub erase_playlist : ℕ → M (Unit {0})
erase_playlist id w = ok (tt, record w { playlists = update w.playlists id none })

-- `segments_.at(id)` and `erase`.
unfoldable pub segment_at : ℕ → M ℕ
segment_at id w = lift missing_key (w.segments id) w

unfoldable pub erase_segment : ℕ → M (Unit {0})
erase_segment id w = ok (tt, record w { segments = update w.segments id none })
