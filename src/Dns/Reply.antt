-- ===== src/Dns/Reply.antt =====
-- src/DnsSeeker.cpp, `parseEvent`: numbers and the name are read behind bytes that were read before.
use cdn_uring.Prelude.{
  ℕ, suc, ◌+◌, ◌-◌, ◌*◌, ◌%◌, ◌^◌, ◌≤◌, ◌<◌, ◌≡◌, ◌∙◌, ap, ap₂, false, some, List, [], ◌∷◌, ◌++◌,
  length, get_or, drop, ltb, arith, length-append, append_assoc,
}
use native.Mathlib.Nat.{zero-add}
use cdn_uring.Prelude.Text.{Text}
use cdn_uring.Dns.Reader.{read_16bits, read_16bits_raw, be16toh, read_32bits, be32toh}
use cdn_uring.Dns.Name.{encode_labels}

get_or-behind : (pre t : Text) (k : ℕ) → get_or (pre ++ t) (length pre + k) 0 ≡ get_or t k 0
get_or-behind [] t k = rw zero-add
get_or-behind (c ∷ pre) t k =
    let e : suc (length pre) + k ≡ suc (length pre + k) = omega arith in
    ap (λ n. get_or (c ∷ (pre ++ t)) n 0) e ∙ get_or-behind pre t k

pub drop-behind : (pre t : Text) (k : ℕ) → drop (length pre + k) (pre ++ t) ≡ drop k t
drop-behind [] t k = rw zero-add
drop-behind (c ∷ pre) t k =
    let e : suc (length pre) + k ≡ suc (length pre + k) = omega arith in
    ap (λ n. drop n (c ∷ (pre ++ t))) e ∙ drop-behind pre t k

-- Two bytes, read as a number.
pub read_16bits-of :
    (buffer : Text) (size pos a b : ℕ)
    → get_or buffer pos 0 ≡ a
    → get_or buffer (pos + 1) 0 ≡ b
    → a < 256
    → b < 256
    → pos + 2 ≤ size
    → read_16bits buffer size pos ≡ some (256 * a + b, pos + 2)
unfolding read_16bits read_16bits_raw be16toh
read_16bits-of buffer size pos a b ea eb la lb fits =
    let enough : ltb size (pos + 2) ≡ false = ground arith in
    rw (enough, read_16bits) (rw (ea, eb) (ap (λ n. some (n, pos + 2)) (omega arith)))

-- The same behind `pre`, where `t` follows.
pub read_16bits-behind :
    (pre t : Text) (size pos k a b : ℕ)
    → pos ≡ length pre + k
    → get_or t k 0 ≡ a
    → get_or t (k + 1) 0 ≡ b
    → a < 256
    → b < 256
    → pos + 2 ≤ size
    → read_16bits (pre ++ t) size pos ≡ some (256 * a + b, pos + 2)
read_16bits-behind pre t size pos k a b e ea eb la lb fits =
    read_16bits-of (pre ++ t) size pos a b
      (ap (λ n. get_or (pre ++ t) n 0) e ∙ get_or-behind pre t k ∙ ea)
      (ap (λ n. get_or (pre ++ t) n 0) (omega (arith, e)) ∙ get_or-behind pre t (k + 1) ∙ eb) la lb
      fits

pub read_32bits-behind :
    (pre t : Text) (size pos k a b c d : ℕ)
    → pos ≡ length pre + k
    → get_or t k 0 ≡ a
    → get_or t (k + 1) 0 ≡ b
    → get_or t (k + 2) 0 ≡ c
    → get_or t (k + 3) 0 ≡ d
    → a < 256
    → b < 256
    → c < 256
    → d < 256
    → pos + 4 ≤ size
    → read_32bits (pre ++ t) size pos ≡ some (16777216 * a + (65536 * b + (256 * c + d)), pos + 4)
unfolding read_32bits be32toh
read_32bits-behind pre t size pos k a b c d e ea eb ec ed la lb lc ld fits =
    let enough : ltb size (pos + 4) ≡ false = ground arith in
    rw enough (
      rw
        (
          ap (λ n. get_or (pre ++ t) n 0) e ∙ get_or-behind pre t k ∙ ea,
          at 1 b eb,
          at 2 c ec,
          at 3 d ed,
        )
        (ap (λ n. some (n, pos + 4)) (omega arith)))
  where
    at : (i x : ℕ) → get_or t (k + i) 0 ≡ x → get_or (pre ++ t) (pos + i) 0 ≡ x
    at i x ex =
        ap (λ n. get_or (pre ++ t) n 0) (omega (arith, e)) ∙ get_or-behind pre t (k + i) ∙ ex

encode_labels_pos : (labels : List Text) → 0 < length (encode_labels labels)
unfolding encode_labels
encode_labels_pos [] = omega arith
encode_labels_pos (label ∷ labels) = omega arith

-- A name ends with the byte 0.
pub encode_labels_end :
    (labels : List Text) (post : Text) (k : ℕ)
    → k + 1 ≡ length (encode_labels labels)
    → get_or (encode_labels labels ++ post) k 0 ≡ 0
unfolding encode_labels
encode_labels_end [] post k e =
    let z : k ≡ 0 = omega (arith, e) in ap (λ n. get_or (0 ∷ post) n 0) z
encode_labels_end (label ∷ labels) post k e =
    let i : k ≡ length (x ∷ label) + (k - (length label + 1)) =
      omega (arith, e, sizes, encode_labels_pos labels) in
    ap₂ (λ s n. get_or (x ∷ s) n 0) (append_assoc label (encode_labels labels) post) i
    ∙ get_or-behind (x ∷ label) (encode_labels labels ++ post) (k - (length label + 1))
    ∙ encode_labels_end labels post (k - (length label + 1))
        (omega (arith, e, sizes, encode_labels_pos labels))
  where
    x : ℕ
    x = length label % 2 ^ 8

    sizes : length (label ++ encode_labels labels) ≡ length label + length (encode_labels labels)
    sizes = length-append label (encode_labels labels)

-- A name has no more parts than bytes.
pub length-encode_labels : (labels : List Text) → length labels < length (encode_labels labels)
unfolding encode_labels
length-encode_labels [] = omega arith
length-encode_labels (label ∷ labels) =
    omega (arith, length-append label (encode_labels labels), length-encode_labels labels)
