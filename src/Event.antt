-- ===== src/Event.antt =====
-- `EVENT_TYPE_*`, `RESOURCE_TYPE_*`, `TRANSFER_MODE_*` and the buffer marks of src/EventType.hpp.
use Prim.Native.Nat.{ℕ}

abbrev pub accept : ℕ
accept = 0

abbrev pub server_read : ℕ
server_read = 200

abbrev pub server_write_complete : ℕ
server_write_complete = 201

abbrev pub server_write_partial : ℕ
server_write_partial = 202

abbrev pub server_close : ℕ
server_close = 203

abbrev pub server_write_header : ℕ
server_write_header = 204

abbrev pub http_fetch : ℕ
http_fetch = 300

abbrev pub http_fetch_ipv4 : ℕ
http_fetch_ipv4 = 301

abbrev pub http_read_header : ℕ
http_read_header = 302

abbrev pub http_read_content : ℕ
http_read_content = 303

abbrev pub dns_verify : ℕ
dns_verify = 400

abbrev pub dns_fetchaaaa : ℕ
dns_fetchaaaa = 401

abbrev pub cache_exists : ℕ
cache_exists = 500

abbrev pub cache_read_header : ℕ
cache_read_header = 501

abbrev pub cache_read_content : ℕ
cache_read_content = 502

abbrev pub cache_verify_invalid : ℕ
cache_verify_invalid = 503

abbrev pub cache_write_header : ℕ
cache_write_header = 504

abbrev pub cache_write_content : ℕ
cache_write_content = 505

abbrev pub cache_close : ℕ
cache_close = 506

abbrev pub cache_copy_content : ℕ
cache_copy_content = 507

abbrev pub cache_clean : ℕ
cache_clean = 508

abbrev pub stream_next : ℕ
stream_next = 600

abbrev pub resource_undefined : ℕ
resource_undefined = 0

abbrev pub resource_streaming : ℕ
resource_streaming = 1

abbrev pub resource_cache : ℕ
resource_cache = 2

abbrev pub header_soon_as_possible : ℕ
header_soon_as_possible = 0

abbrev pub wait_until_complete : ℕ
wait_until_complete = 1

abbrev pub empty_buffer : ℕ
empty_buffer = 12345678

abbrev pub end_buffer : ℕ
end_buffer = 12345679
