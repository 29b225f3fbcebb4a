-- ===== src/Dns/Endless.antt =====
-- src/DnsSeeker.cpp, `parseEvent`: a packet on which the loop over the name does not end.
use cdn_uring.Prelude.{
  ℕ, zero, suc, ◌+◌, ◌-◌, ◌*◌, ◌≤◌, ◌<◌, ◌≡◌, ◌∙◌, refl, true, false, some, [], ◌∷◌, get_or, drop,
  ltb, arith, ap, sym,
}
use native.Mathlib.Nat.{zero-add}
use cdn_uring.Prelude.Text.{Text}
use cdn_uring.Prelude.Result.{fault, endless}
use cdn_uring.Dns.State.{Mode, Datagram, Net}
use cdn_uring.Dns.Reader.{can_add_to_pos, read_16bits, read_16bits_raw, be16toh}
use cdn_uring.Dns.Name.{skip_name}
use cdn_uring.Dns.Receive.{goes_on, skip_question, parse_packet}
use cdn_uring.World.{World}

get_or-drop : (n : ℕ) (s : Text) (k : ℕ) → get_or (drop n s) k 0 ≡ get_or s (n + k) 0
get_or-drop zero s k = rw zero-add
get_or-drop (suc n) [] k = refl
get_or-drop (suc n) (c ∷ s) k =
    let e : suc n + k ≡ suc (n + k) = omega arith in
    get_or-drop n s k ∙ ap (λ i. get_or (c ∷ s) i 0) (sym e)

-- A length of 255 takes the counter of one byte back to where it was.
skip_name_back :
    (n : ℕ) (name : Text) (room : ℕ)
    → get_or name 0 0 ≡ 255
    → 0 < room
    → skip_name n name room 0 ≡ 0
unfolding skip_name
skip_name_back zero name room e pos = refl
skip_name_back (suc n) name room e pos = rw e (ground (arith, skip_name_back n name room e pos))

module _ (d : Datagram) (long : 12 < d.size) (start : get_or d.buffer 12 0 ≡ 255) where
  abbrev name : Text
  name = drop 12 d.buffer

  first_byte : get_or name 0 0 ≡ 255
  first_byte = get_or-drop 12 d.buffer 0 ∙ start

  goes_on_always : (n : ℕ) → goes_on name (d.size - 12) (skip_name n name (d.size - 12) 0) ≡ true
  goes_on_always n =
      rw (skip_name_back n name (d.size - 12) first_byte (omega arith))
        (rw first_byte (ground arith))

  -- A packet of more than twelve bytes, from anywhere, in which the first part of the name counts 255
  -- bytes: the loop that skips the name never ends, whatever the resolver has asked for.
  pub parse_packet_hangs :
      (net : Net) (mode : Mode) (w : World)
      → ((n : ℕ) → goes_on name (d.size - 12) (skip_name n name (d.size - 12) 0) ≡ true)
        × (parse_packet net mode d w ≡ fault endless)
  unfolding parse_packet read_16bits read_16bits_raw can_add_to_pos skip_question
  parse_packet_hangs net mode w = (goes_on_always, hangs)
    where
      enough : (k : ℕ) → k ≤ 12 → ltb d.size k ≡ false
      enough k small = ground arith

      reads :
          (k : ℕ)
          → k + 2 ≤ 12
          → read_16bits d.buffer d.size k
            ≡ some (be16toh (get_or d.buffer k 0 + 256 * get_or d.buffer (k + 1) 0), k + 2)
      reads k small = rw (enough (k + 2) small, read_16bits)

      hangs : parse_packet net mode d w ≡ fault endless
      hangs = rw (enough 2 (omega arith)) (
          rw (reads 2 (omega arith)) (
            rw (reads 4 (omega arith)) (
              rw (reads 6 (omega arith))
                (rw (enough 12 (omega arith)) (rw (goes_on_always 256) refl)))))
