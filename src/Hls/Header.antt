-- ===== src/Hls/Header.antt =====
-- src/HLSStream.cpp, `UpdateHeader`.
use cdn_uring.Prelude.{ℕ}
use cdn_uring.Prelude.Text.{codes, to_string}
use cdn_uring.Prelude.Result.{Result, ok, ◌>>=◌}
use cdn_uring.Headers.{replace_header_tag}
use cdn_uring.Http.Parse.{string_of}
use cdn_uring.World.{Mux}
use cdn_uring.World.Monad.{block_of}

-- `HLSStream::UpdateHeader`: the new header is kept without a NUL.
unfoldable pub update_header : Mux → ℕ → Result Mux
update_header mux content_length = do
  header ← string_of mux.header
  replaced ← replace_header_tag header (codes "Content-Length") (to_string content_length)
  ok (record mux { header = block_of replaced })
