-- ===== src/World/Monad.antt =====
-- Handlers run in a state with faults.
use cdn_uring.Prelude.{
  ◌++◌, ℕ, ◌+◌, ◌==◌, Option, none, some, List, [], ◌∷◌, if◌then◌else◌, get_elem?, leb, length, set,
  take,
}
use cdn_uring.Prelude.Text.{Text}
use cdn_uring.Prelude.Result.{Fault, missing_key, dangling, past_end, overflow, Result, ok, fault}
use cdn_uring.Prelude.Int.{ℤ}
use cdn_uring.Dns.State.{DnsState}
use cdn_uring.World.{Iovec, Ptr, Request, Mux, Node, Sqe, World, Env}

abbrev pub M : Type 0 → Type 0
M A = World → Result (A × World)

abbrev pub pure : {A : Type 0} → A → M A
pure a w = ok (a, w)

abbrev pub fail : {A : Type 0} → Fault → M A
fail e w = fault e

infixl 5 ◌>>=◌ ◌>>◌
abbrev pub ◌>>=◌ : {A B : Type 0} → M A → (A → M B) → M B
◌>>=◌ m f w = elim (m w) [ ok (a, w') ↦ f a w' | fault e ↦ fault e ]

abbrev pub ◌>>◌ : {B : Type 0} → M (Unit {0}) → M B → M B
m >> k = m >>= λ _. k

abbrev pub skip : M (Unit {0})
skip = pure tt

-- A partial operation of the standard library.
abbrev pub lift : {A : Type 0} → Fault → Option A → M A
lift e none w = fault e
lift e (some a) w = ok (a, w)

abbrev pub run_result : {A : Type 0} → Result A → M A
run_result (ok a) w = ok (a, w)
run_result (fault e) w = fault e

abbrev pub update {ℓ} : {A : Type ℓ} → (ℕ → A) → ℕ → A → ℕ → A
update f p v q = if p == q then v else f q

-- `insert` of a map: an entry that is there stays.
unfoldable pub insert {ℓ} : {A : Type ℓ} → (ℕ → Option A) → ℕ → A → ℕ → Option A
insert f id v = elim (f id) [ none ↦ update f id (some v) | some old ↦ f ]

-- `*request`.
unfoldable pub deref : Ptr → M Request
deref p w = lift dangling (w.heap p) w

-- A write through the pointer.
unfoldable pub store : Ptr → Request → M (Unit {0})
store p r w = ok (tt, record w { heap = update w.heap p (some r) })

-- `malloc`.
unfoldable pub allocate : Request → M Ptr
allocate r w = ok (w.next, record w { heap = update w.heap w.next (some r); next = w.next + 1 })

-- `free`.
unfoldable pub release : Ptr → M (Unit {0})
release p w = elim (w.heap p) [
  | none ↦ fault dangling
  | some r ↦ ok (tt, record w { heap = update w.heap p none })
]

-- `resources_.at(id)`.
unfoldable pub mux_at : ℕ → M Mux
mux_at id w = lift missing_key (w.resources id) w

-- A write through the pointer that the map holds, or `resources_.insert` of a new one.
unfoldable pub put_mux : ℕ → Mux → M (Unit {0})
put_mux id m w = ok (tt, record w { resources = update w.resources id (some m) })

-- `resources_.erase(id)`.
unfoldable pub erase_mux : ℕ → M (Unit {0})
erase_mux id w = ok (tt, record w { resources = update w.resources id none })

-- `nodes_.at(id)`.
unfoldable pub node_at : ℕ → M Node
node_at id w = lift missing_key (w.nodes id) w

unfoldable pub put_node : ℕ → Node → M (Unit {0})
put_node id n w = ok (tt, record w { nodes = update w.nodes id (some n) })

unfoldable pub erase_node : ℕ → M (Unit {0})
erase_node id w = ok (tt, record w { nodes = update w.nodes id none })

-- `io_uring_get_sqe`, `io_uring_sqe_set_data` and `io_uring_submit`.
unfoldable pub submit : Sqe → M (Unit {0})
submit s w = ok (tt, record w { submitted = s ∷ w.submitted })

-- Element `i` of a vector.
unfoldable pub element : {A : Type 0} → List A → ℕ → M A
element xs i = lift past_end (get_elem? xs i)

-- `memcpy` of `bytes` to the start of a block, whose length field is set along with it.
unfoldable pub fill : Iovec → Text → M Iovec
fill v bytes =
    if leb (length bytes) v.cap
    then pure (record { len = length bytes; cap = v.cap; base = bytes })
    else fail overflow

-- The bytes that an `iovec` describes.
abbrev pub bytes_of : Iovec → Text
bytes_of v = take v.len v.base

-- `request->iov[i] = v`; the flexible array ends at `iovec_count`.
abbrev pub set_iov : Request → ℕ → Iovec → Request
set_iov r i v = record r { iov = set r.iov i v }

-- `close`.
unfoldable pub close_fd : ℤ → M (Unit {0})
close_fd fd w = ok (tt, record w { closed = fd ∷ w.closed })

-- `std::remove`.
unfoldable pub remove_file : Text → M (Unit {0})
remove_file path w = ok (tt, record w { removed = path ∷ w.removed })

-- `open`, for reading and for writing: the environment decides what each call returns.
unfoldable pub open_read : Env → Text → M ℤ
open_read env path w = ok (env.open_read w.opens path, record w { opens = w.opens + 1 })

unfoldable pub open_write : Env → Text → M ℤ
open_write env path w = ok (env.open_write w.opens path, record w { opens = w.opens + 1 })

-- A block that was allocated for just these bytes.
abbrev pub block_of : Text → Iovec
block_of bytes = record { len = length bytes; cap = length bytes; base = bytes }

-- A text with its NUL, in a block of its own.
abbrev pub c_block : Text → Iovec
c_block s = block_of (s ++ (0 ∷ []))

-- A block of `n` bytes with nothing put into it yet.
abbrev pub blank_block : ℕ → Iovec
blank_block n = record { len = n; cap = n; base = [] }

-- The members of `Dns`, read and written.
unfoldable pub get_dns : M DnsState
get_dns w = ok (w.dns, w)

unfoldable pub put_dns : DnsState → M (Unit {0})
put_dns dns w = ok (tt, record w { dns = dns })
