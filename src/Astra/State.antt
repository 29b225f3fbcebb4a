-- ===== src/Astra/State.antt =====
-- src/AstraHttpClient.hpp: what is left to play of a stream.
use cdn_uring.Prelude.{ℕ, List}
use cdn_uring.Prelude.Int.{ℤ}
use cdn_uring.Prelude.Text.{Text}

-- `AstraHttpClient::Playlist`.
pub record Playlist : Type 0 where
  pub url : Text
  pub last_track : Text
  pub tracks : List Text
  pub tracks_duration : List ℤ
  pub start_time : ℕ
