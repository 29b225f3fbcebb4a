-- ===== src/Stream/Registry.antt =====
-- src/Stream.cpp: making, finding and freeing a resource, and taking a request out of it.
use cdn_uring.Prelude.{
  ℕ, ◌==◌, Bool, true, false, ◌&&◌, Option, none, some, List, [], ◌∷◌, replicate, if◌then◌else◌,
}
use cdn_uring.Prelude.Text.{Text}
use cdn_uring.Prelude.Result.{past_end, ok}
use cdn_uring.Event
use cdn_uring.World.{Ptr, Mux, Env}
use cdn_uring.World.Monad.{M, pure, lift, mux_at, put_mux, erase_mux, ◌>>=◌, ◌>>◌}
use cdn_uring.Request.{no_iovec}

-- `Stream::CreateMux`; `new Mux()` zeroes what the code leaves unset.
unfoldable pub create_mux : Env → ℕ → Text → Mux
create_mux env resource_id url = record {
  resource_id = resource_id;
  requests = [];
  header = no_iovec;
  pivot = 0;
  type = Event.resource_undefined;
  tag = 0;
  transfer_mode = Event.header_soon_as_possible;
  is_completed = false;
  in_memory = false;
  path = [];
  url = url;
  etag = [];
  buffer = replicate env.streaming_buffer_size no_iovec;
}

abbrev pub is_some : {A : Type 0} → Option A → Bool
is_some none = false
is_some (some a) = true

-- `Stream::ExistsResource`.
unfoldable pub exists_resource : ℕ → M Bool
exists_resource resource_id w = ok (is_some (w.resources resource_id), w)

-- `Stream::GetResource`.
abbrev pub get_resource : ℕ → M Mux
get_resource resource_id = mux_at resource_id

-- `Stream::ReleaseResource`: the header, the buffers and the resource are freed.
unfoldable pub release_resource : ℕ → M (Unit {0})
release_resource resource_id = do mux ← mux_at resource_id; erase_mux resource_id

-- `requests.erase(requests.begin() + pointer)`, where `pointer` counts the requests before the one
-- looked for. It is undefined if there is no such request.
unfoldable pub erase_request : Ptr → List Ptr → Option (List Ptr)
erase_request p [] = none
erase_request p (c ∷ requests) = elim (c == p) [
  | true ↦ some requests
  | false ↦ elim (erase_request p requests) [ none ↦ none | some rest ↦ some (c ∷ rest) ]
]

abbrev pub is_nil : {A : Type 0} → List A → Bool
is_nil [] = true
is_nil (x ∷ xs) = false

-- The resource goes with its last listener, if it is a stream.
unfoldable pub release_if_unheard : ℕ → Mux → M ℕ
release_if_unheard resource_id mux =
    if (mux.type == Event.resource_streaming) && is_nil mux.requests
    then (release_resource resource_id >> pure 1)
    else pure 0

unfoldable pub remove_from : Ptr → ℕ → M ℕ
remove_from request resource_id = do
  mux ← mux_at resource_id
  requests ← lift past_end (erase_request request mux.requests)
  put_mux resource_id (record mux { requests = requests })
  release_if_unheard resource_id (record mux { requests = requests })

-- `Stream::RemoveRequest`, for a request of the resource `resource_id`: 1 if there is no resource, or
-- if it went with its last listener.
unfoldable pub remove_request : Ptr → ℕ → M ℕ
remove_request request resource_id = do
  found ← exists_resource resource_id
  if found then remove_from request resource_id else pure 1
