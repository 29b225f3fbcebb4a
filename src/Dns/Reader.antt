-- ===== src/Dns/Reader.antt =====
-- src/DnsSeeker.cpp: numbers are read from a packet of `size` bytes at a place that moves on.
use cdn_uring.Prelude.{
  ℕ, ◌+◌, ◌*◌, ◌/◌, ◌%◌, ◌<◌, ◌≡◌, ap, Option, none, some, get_or, ltb, arith, if◌then◌else◌,
  Bool-cases, inl, inr,
}
use cdn_uring.Prelude.Text.{Text}

-- `DnsSeeker::canAddToPos`: the new place, or none if it is past the end.
unfoldable pub can_add_to_pos : ℕ → ℕ → ℕ → Option ℕ
can_add_to_pos i size pos = if ltb size (pos + i) then none else some (pos + i)

-- `DnsSeeker::read8Bits`: the number and the new place.
unfoldable pub read_8bits : Text → ℕ → ℕ → Option (ℕ × ℕ)
read_8bits packet size pos =
    if ltb size (pos + 1) then none else some (get_or packet pos 0, pos + 1)

-- `DnsSeeker::read16BitsRaw`: `memcpy` into a `uint16_t` of a machine with the least byte first.
unfoldable pub read_16bits_raw : Text → ℕ → ℕ → Option (ℕ × ℕ)
read_16bits_raw packet size pos =
    if ltb size (pos + 2)
    then none
    else some (get_or packet pos 0 + 256 * get_or packet (pos + 1) 0, pos + 2)

-- `be16toh` of such a machine.
unfoldable pub be16toh : ℕ → ℕ
be16toh t = 256 * (t % 256) + t / 256

-- `DnsSeeker::read16Bits`.
unfoldable pub read_16bits : Text → ℕ → ℕ → Option (ℕ × ℕ)
read_16bits packet size pos = elim (read_16bits_raw packet size pos) [
  | none ↦ none
  | some (t, next) ↦ some (be16toh t, next)
]

-- `be32toh` of such a machine.
unfoldable pub be32toh : ℕ → ℕ
be32toh t =
    16777216 * (t % 256) + (65536 * (t / 256 % 256) + (256 * (t / 65536 % 256) + t / 16777216))

-- `DnsSeeker::read32Bits`.
unfoldable pub read_32bits : Text → ℕ → ℕ → Option (ℕ × ℕ)
read_32bits packet size pos =
    if ltb size (pos + 4)
    then none
    else some (
      be32toh (
          get_or packet pos 0
          + (256 * get_or packet (pos + 1) 0
              + (65536 * get_or packet (pos + 2) 0 + 16777216 * get_or packet (pos + 3) 0))),
      pos + 4,
    )

-- The bytes of a packet.
abbrev pub IsBytes : Text → Type 0
IsBytes packet = (i : ℕ) → get_or packet i 0 < 256

module _ (packet : Text) (size pos : ℕ) (bytes : IsBytes packet) where
  -- A number of 16 bits is read if and only if two bytes are left: it is the number that they are in
  -- network order, and the place moves on by two.
  pub read_16bits_network : read_16bits packet size pos ≡ (
      if ltb size (pos + 2)
      then none
      else some (256 * get_or packet pos 0 + get_or packet (pos + 1) 0, pos + 2))
  unfolding read_16bits read_16bits_raw be16toh
  read_16bits_network = elim (Bool-cases (ltb size (pos + 2))) [
    | inl short ↦ rw (short, read_16bits)
    | inr enough ↦
        rw (enough, read_16bits)
          (ap (λ n. some (n, pos + 2)) (omega (arith, bytes pos, bytes (pos + 1))))
  ]

  -- A number of 32 bits is read if and only if four bytes are left: it is the number that they are in
  -- network order, and the place moves on by four.
  pub read_32bits_network : read_32bits packet size pos ≡ (
      if ltb size (pos + 4)
      then none
      else some (
        16777216 * get_or packet pos 0
            + (65536 * get_or packet (pos + 1) 0
                + (256 * get_or packet (pos + 2) 0 + get_or packet (pos + 3) 0)),
        pos + 4,
      ))
  unfolding read_32bits be32toh
  read_32bits_network = elim (Bool-cases (ltb size (pos + 4))) [
    | inl short ↦ rw (short, read_32bits)
    | inr enough ↦
        rw (enough, read_32bits)
          (ap (λ n. some (n, pos + 4))
            (omega (arith, bytes pos, bytes (pos + 1), bytes (pos + 2), bytes (pos + 3))))
  ]
