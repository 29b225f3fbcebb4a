-- ===== src/Stream/Ring.antt =====
-- The ring of slots of `NotifyStream` and `Cache::AppendBuffer` against the list of all chunks so far.
use cdn_uring.Prelude.{
  ℕ, ◌+◌, ◌%◌, ◌≤◌, ◌<◌, ◌≡◌, ◌≢◌, refl, sym, true, List, length, get_or, set, arith, length-set,
  get_elem?-eq-get_or, get_or-set_self, get_or-set_ne, get_or-replicate, length-replicate,
  replicate, ℕ_discrete,
}
use cdn_uring.Prelude.Mod.{mod-ne, mod-suc}
use cdn_uring.Prelude.Text.{Text}
use cdn_uring.Prelude.Result.{ok}
use cdn_uring.Event
use cdn_uring.World.{Iovec, Env, World}
use cdn_uring.World.Monad.{element, fill}
use cdn_uring.Request.{no_iovec}
use cdn_uring.Stream.Write.{is_vacant}
use cdn_uring.Stream.Notify.{put_chunk, slot_block, vacate}

-- Slot `i` of a ring.
abbrev pub slot : List Iovec → ℕ → Iovec
slot buffer i = get_or buffer i no_iovec

-- A ring of `n` slots that was given the chunks `chunk 0` to `chunk (t - 1)`: the last `n - 1` of them
-- stand in their slots, and the slot that comes next is vacant.
pub record Holds (env : Env) (n : ℕ) (chunk : ℕ → Text) (t : ℕ) (buffer : List Iovec) (pivot : ℕ)
    : Type 0 where
  pub sized : length buffer ≡ n
  pub place : pivot ≡ t % n
  pub stored : (j : ℕ) → j < t → t < j + n → (slot buffer (j % n)).len ≡ length (chunk j)
  pub bytes : (j : ℕ) → j < t → t < j + n → (slot buffer (j % n)).base ≡ chunk j
  pub hole : is_vacant (slot buffer (t % n)).len ≡ true
  pub room : (i : ℕ) → (slot buffer i).len ≢ 0 → env.http_buffer_size ≤ (slot buffer i).cap

-- What the origin may send at once: at least a byte, and no more than a buffer holds.
pub record IsChunk (env : Env) (c : Text) : Type 0 where
  pub some_byte : 0 < length c
  pub fits : length c ≤ env.http_buffer_size

-- The settings: a ring has two slots or more, and a buffer is smaller than the marks.
pub record IsSound (env : Env) (n : ℕ) : Type 0 where
  pub slots : 1 < n
  pub small : env.http_buffer_size < Event.empty_buffer

filled : Env → List Iovec → ℕ → Text → Iovec
unfolding slot_block
filled env buffer pivot c = record {
  len = length c;
  cap = (slot_block env (slot buffer pivot)).cap;
  base = c;
}

-- The slots after a chunk was put in.
pub ring_after : Env → ℕ → List Iovec → ℕ → Text → List Iovec
unfolding filled
ring_after env n buffer pivot c =
    let buffer' = set buffer pivot (filled env buffer pivot c) in
    set buffer' ((pivot + 1) % n) (vacate (slot buffer' ((pivot + 1) % n)))

-- A slot is filled without an overflow, and no other state changes.
pub put_chunk-ok :
    (env : Env) (n : ℕ) (chunk : ℕ → Text) (t : ℕ) (buffer : List Iovec) (pivot : ℕ) (c : Text)
    → 0 < n
    → Holds env n chunk t buffer pivot
    → IsChunk env c
    → (w : World) → put_chunk env n buffer pivot c w ≡ ok (ring_after env n buffer pivot c, w)
unfolding put_chunk element fill ring_after slot_block
put_chunk-ok env n chunk t buffer pivot c pos h ic w = ground (
  arith,
  get_elem?-eq-get_or buffer pivot no_iovec,
  get_elem?-eq-get_or (set buffer pivot (filled env buffer pivot c)) ((pivot + 1) % n) no_iovec,
  length-set buffer pivot (filled env buffer pivot c),
  h.room pivot,
)

module _ (env : Env) (n : ℕ) (buffer : List Iovec) (pivot : ℕ) (c : Text) where
  slot_newest :
      pivot < length buffer
      → pivot ≢ (pivot + 1) % n
      → slot (ring_after env n buffer pivot c) pivot ≡ filled env buffer pivot c
  unfolding ring_after
  slot_newest lt ne = ground (
    arith,
    get_or-set_ne (set buffer pivot (filled env buffer pivot c)) ((pivot + 1) % n) pivot
        (vacate (slot (set buffer pivot (filled env buffer pivot c)) ((pivot + 1) % n))) no_iovec,
    get_or-set_self buffer pivot (filled env buffer pivot c) no_iovec,
  )

  slot_next :
      (pivot + 1) % n < length buffer
      → pivot ≢ (pivot + 1) % n
      → slot (ring_after env n buffer pivot c) ((pivot + 1) % n)
        ≡ vacate (slot buffer ((pivot + 1) % n))
  unfolding ring_after
  slot_next lt ne = ground (
    arith,
    length-set buffer pivot (filled env buffer pivot c),
    get_or-set_self (set buffer pivot (filled env buffer pivot c)) ((pivot + 1) % n)
        (vacate (slot (set buffer pivot (filled env buffer pivot c)) ((pivot + 1) % n))) no_iovec,
    get_or-set_ne buffer pivot ((pivot + 1) % n) (filled env buffer pivot c) no_iovec,
  )

  slot_other :
      (i : ℕ)
      → pivot ≢ i
      → (pivot + 1) % n ≢ i
      → slot (ring_after env n buffer pivot c) i ≡ slot buffer i
  unfolding ring_after
  slot_other i ne ne' = ground (
    arith,
    get_or-set_ne (set buffer pivot (filled env buffer pivot c)) ((pivot + 1) % n) i
        (vacate (slot (set buffer pivot (filled env buffer pivot c)) ((pivot + 1) % n))) no_iovec,
    get_or-set_ne buffer pivot i (filled env buffer pivot c) no_iovec,
  )

  length-ring_after : length (ring_after env n buffer pivot c) ≡ length buffer
  unfolding ring_after
  length-ring_after = ground (
    arith,
    length-set (set buffer pivot (filled env buffer pivot c)) ((pivot + 1) % n)
        (vacate (slot (set buffer pivot (filled env buffer pivot c)) ((pivot + 1) % n))),
    length-set buffer pivot (filled env buffer pivot c),
  )

module _ (env : Env) (n : ℕ) (chunk : ℕ → Text) (t : ℕ) (buffer : List Iovec) (pivot : ℕ)
    (sound : IsSound env n) (h : Holds env n chunk t buffer pivot) where
  next_place : (pivot + 1) % n ≡ (t + 1) % n
  next_place = rw h.place (mod-suc n t)

  moves : pivot ≢ (pivot + 1) % n
  moves = rw (next_place, h.place) (mod-ne n t (t + 1) (omega arith) (omega (arith, sound.slots)))

  inside : ((pivot + 1) % n < length buffer) × (pivot < length buffer)
  inside = omega (arith, h.sized, h.place, sound.slots)

  -- The slot of a recent chunk, the newest one included.
  stored_slot :
      (j : ℕ)
      → j < t + 1
      → t + 1 < j + n
      → let v = slot (ring_after env n buffer pivot (chunk t)) (j % n) in
        (v.len ≡ length (chunk j)) × (v.base ≡ chunk j)
  unfolding filled
  stored_slot j lt near = elim (ℕ_discrete j t) [
    | yes e ↦
        rw (e, ← h.place, slot_newest env n buffer pivot (chunk t) inside.1 moves) (refl, refl)
    | no ne ↦
        rw
          (slot_other env n buffer pivot (chunk t) (j % n)
            (rw h.place (λ e. mod-ne n j t (omega arith) (omega arith) (sym e)))
            (rw next_place (λ e. mod-ne n j (t + 1) (omega arith) (omega arith) (sym e))))
          (h.stored j (omega arith) (omega arith), h.bytes j (omega arith) (omega arith))
  ]

  room_after :
      (i : ℕ)
      → (slot (ring_after env n buffer pivot (chunk t)) i).len ≢ 0
      → env.http_buffer_size ≤ (slot (ring_after env n buffer pivot (chunk t)) i).cap
  unfolding filled slot_block
  room_after i = elim (ℕ_discrete pivot i) [
    | yes e ↦
        rw (← e, slot_newest env n buffer pivot (chunk t) inside.1 moves)
          (ground (arith, h.room pivot))
    | no ne ↦ elim (ℕ_discrete ((pivot + 1) % n) i) [
      | yes e ↦
          rw (← e, slot_next env n buffer pivot (chunk t) inside.0 moves)
            (ground (arith, h.room ((pivot + 1) % n)))
      | no ne' ↦ rw (slot_other env n buffer pivot (chunk t) i ne ne') (h.room i)
    ]
  ]

  -- The ring holds the chunks up to the new one.
  pub ring_after-Holds :
      IsChunk env (chunk t)
      → Holds env n chunk (t + 1) (ring_after env n buffer pivot (chunk t)) ((pivot + 1) % n)
  unfolding filled slot_block
  ring_after-Holds ic = record {
    sized = omega (arith, length-ring_after env n buffer pivot (chunk t), h.sized);
    place = next_place;
    stored = λ j lt near. (stored_slot j lt near).0;
    bytes = λ j lt near. (stored_slot j lt near).1;
    hole = rw (← next_place, slot_next env n buffer pivot (chunk t) inside.0 moves) (ground arith);
    room = room_after;
  }

-- The ring of a new resource or cache node holds the empty log.
pub fresh-Holds :
    (env : Env) (n : ℕ) (chunk : ℕ → Text) → 0 < n → Holds env n chunk 0 (replicate n no_iovec) 0
fresh-Holds env n chunk pos = record {
  sized = length-replicate n no_iovec;
  place = omega arith;
  stored = λ j lt near. absurd (omega arith);
  bytes = λ j lt near. absurd (omega arith);
  hole = rw (get_or-replicate n (0 % n) no_iovec);
  room = λ i ne. absurd (ne (rw (get_or-replicate n i no_iovec)));
}
