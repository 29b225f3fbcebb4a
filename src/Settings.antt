-- ===== src/Settings.antt =====
-- main.cpp and src/Settings.cpp: the settings, and the arguments that change them.
pub mod Rooted
mod Tests
use cdn_uring.Prelude.{ℕ, ◌==◌, Bool, true, false, List, [], ◌∷◌, ◌++◌, drop, length, if◌then◌else◌}
use cdn_uring.Prelude.Int.{ℤ, pos}
use cdn_uring.Prelude.Text.{Text, codes, matches, text_eq}
use cdn_uring.Prelude.Text.Lines.{stoi_signed}
use cdn_uring.Prelude.Result.{Result, ok, fault, past_end, ◌>>=◌}

-- `Settings`, with `Log::PrintDebug` and `Log::NoLog`.
pub record Settings : Type 0 where
  pub print_debug : Bool
  pub no_log : Bool
  pub use_ssl : Bool
  pub http_buffer_size : ℤ
  pub server_port : ℤ
  pub dns_port : ℤ
  pub cache_dir : Text
  pub use_cache : Bool
  pub cache_buffer_size : ℕ
  pub streaming_buffer_size : ℕ
  pub hls_mode : Bool
  pub astra_mode : Bool
  pub listen_mode : ℕ
  pub proxy : Text
  pub base_url : Text
  pub unix_path : Text
  pub host_file : Text

-- The settings that src/Settings.cpp begins with.
abbrev pub initial : Settings
initial = record {
  print_debug = false;
  no_log = false;
  use_ssl = false;
  http_buffer_size = pos 10240;
  server_port = pos 8000;
  dns_port = pos 50053;
  cache_dir = [];
  use_cache = true;
  cache_buffer_size = 64;
  streaming_buffer_size = 256;
  hls_mode = false;
  astra_mode = false;
  listen_mode = 1;
  proxy = [];
  base_url = [];
  unix_path = codes "/tmp/cdn.sock";
  host_file = [];
}

-- `memcmp` of an argument with an option; a shorter argument differs at its NUL.
abbrev pub has_prefix : Text → Text → Bool
has_prefix option argument = matches ◌==◌ option argument

-- `argument.substr(option_length)`.
abbrev pub value_of : Text → Text → Text
value_of option argument = drop (length option) argument

-- The value with a slash in front; `front` of an empty text is undefined.
unfoldable pub rooted : Text → Result Text
rooted [] = fault past_end
rooted (c ∷ s) = if c == b'/' then ok (c ∷ s) else ok (b'/' ∷ c ∷ s)

abbrev pub listen_mode_of : Text → ℕ
listen_mode_of mode =
    if text_eq mode (codes "unix") then 3 else if text_eq mode (codes "ipv6") then 2 else 1

-- The options without a value.
unfoldable pub set_flag : Text → Settings → Settings
set_flag arg s =
    if text_eq arg (codes "-debug")
    then record s { print_debug = true }
    else if text_eq arg (codes "-silent")
    then record s { no_log = true }
    else if text_eq arg (codes "-ssl")
    then record s { use_ssl = true }
    else if text_eq arg (codes "-no-cache")
    then record s { use_cache = false }
    else if text_eq arg (codes "-hls")
    then record s { hls_mode = true }
    else if text_eq arg (codes "-astra")
    then record s { astra_mode = true }
    else s

-- The options with a number.
unfoldable pub set_number : Text → Settings → Result Settings → Result Settings
set_number arg s otherwise =
    if has_prefix (codes "-buffer-size=") arg
    then (stoi_signed (value_of (codes "-buffer-size=") arg) >>= λ n.
        ok (record s { http_buffer_size = n }))
    else if has_prefix (codes "-server-port=") arg
    then (stoi_signed (value_of (codes "-server-port=") arg) >>= λ n.
        ok (record s { server_port = n }))
    else if has_prefix (codes "-dns-port=") arg
    then (stoi_signed (value_of (codes "-dns-port=") arg) >>= λ n. ok (record s { dns_port = n }))
    else otherwise

-- The options with a text.
unfoldable pub set_text : Text → Settings → Result Settings → Result Settings
set_text arg s otherwise =
    if has_prefix (codes "-cache-dir=") arg
    then ok (record s { cache_dir = value_of (codes "-cache-dir=") arg })
    else if has_prefix (codes "-listen-mode=") arg
    then ok (record s { listen_mode = listen_mode_of (value_of (codes "-listen-mode=") arg) })
    else if has_prefix (codes "-unix-path=") arg
    then ok (record s { unix_path = value_of (codes "-unix-path=") arg })
    else if has_prefix (codes "-proxy=") arg
    then (rooted (value_of (codes "-proxy=") arg) >>= λ proxy. ok (record s { proxy = proxy }))
    else if has_prefix (codes "-base-url=") arg
    then (rooted (value_of (codes "-base-url=") arg) >>= λ url. ok (record s { base_url = url }))
    else if has_prefix (codes "-host-file=") arg
    then ok (record s { host_file = value_of (codes "-host-file=") arg })
    else otherwise

-- One argument. No option is the start of another, so the order of the tests does not matter.
unfoldable pub parse_argument : Text → Settings → Result Settings
parse_argument arg s = set_number arg s (set_text arg s (ok (set_flag arg s)))

-- `ParserArguments`.
unfoldable pub parser_arguments : List Text → Settings → Result Settings
parser_arguments [] s = ok s
parser_arguments (arg ∷ args) s = parse_argument arg s >>= parser_arguments args

-- `main`, before the engine starts: `cwd` is the directory that the process runs in.
unfoldable pub main_settings : Text → List Text → Result Settings
main_settings cwd args = do
  s ← parser_arguments args initial
  ok (elim s.cache_dir [ [] ↦ record s { cache_dir = cwd ++ codes "/cache/" } | c ∷ rest ↦ s ])
