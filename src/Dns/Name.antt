-- ===== src/Dns/Name.antt =====
-- src/DnsSeeker.cpp: the host name in a query, as `GetAAAA` writes it and as `parseEvent` skips it.
use cdn_uring.Prelude.{
  ℕ, zero, suc, ◌+◌, ◌/◌, ◌%◌, ◌^◌, ◌≤◌, ◌<◌, ◌≡◌, ◌∙◌, refl, sym, ap, ap₂, not, ◌&&◌, List, [],
  ◌∷◌, ◌++◌, length, get_or, ltb, arith, if◌then◌else◌, ◌==◌, length-append, append_assoc,
}
use cdn_uring.Prelude.Text.{Text}

-- A character before the labels that follow.
abbrev into_first : ℕ → List Text → List Text
into_first c [] = (c ∷ []) ∷ []
into_first c (label ∷ labels) = (c ∷ label) ∷ labels

-- The parts of a host name between its dots.
unfoldable pub labels_of : Text → List Text
labels_of [] = [] ∷ []
labels_of (c ∷ host) = let rest = labels_of host in if c == 46 then [] ∷ rest else into_first c rest

-- Each part with its length before it, as a byte; an empty part ends the name.
unfoldable pub encode_labels : List Text → Text
encode_labels [] = 0 ∷ []
encode_labels (label ∷ labels) = (length label % 2 ^ 8) ∷ (label ++ encode_labels labels)

-- The query of `GetAAAA` for a host: the number of the query, the flags, the counts, the name, and the
-- type AAAA of the class IN.
unfoldable pub encode_query : ℕ → Text → Text
encode_query id host =
    (id % 256)
    ∷ (id / 256)
    ∷ 1
    ∷ 32
    ∷ 0
    ∷ 1
    ∷ 0
    ∷ 0
    ∷ 0
    ∷ 0
    ∷ 0
    ∷ 0
    ∷ (encode_labels (labels_of host) ++ (0 ∷ 28 ∷ 0 ∷ 1 ∷ []))

-- The loop of `parseEvent` over the name, where `offs` is a `uint8_t` and `room` bytes are left: `n`
-- rounds at most.
unfoldable pub skip_name : ℕ → Text → ℕ → ℕ → ℕ
skip_name zero packet room offs = offs
skip_name (suc n) packet room offs =
    let len = get_or packet offs 0 in
    let further = skip_name n packet room ((offs + (len + 1)) % 2 ^ 8) in
    if ltb offs room && not (len == 0) then further else offs

-- Parts that a byte can count and that do not end the name.
abbrev pub AreLabels : List Text → Type 0
AreLabels [] = Unit
AreLabels (label ∷ labels) = ((0 < length label) × (length label < 256)) × AreLabels labels

get_or-append : (pre post : Text) (d : ℕ) (c : ℕ) → get_or (pre ++ (c ∷ post)) (length pre) d ≡ c
get_or-append [] post d c = refl
get_or-append (x ∷ pre) post d c = get_or-append pre post d c

skip_name-step :
    (n : ℕ) (packet : Text) (room offs len : ℕ)
    → get_or packet offs 0 ≡ len
    → 0 < len
    → offs < room
    → offs + (len + 1) < 256
    → skip_name (suc n) packet room offs ≡ skip_name n packet room (offs + (len + 1))
unfolding skip_name
skip_name-step n packet room offs len e some_byte inside short =
    let kept : (offs + (len + 1)) % 2 ^ 8 ≡ offs + (len + 1) = omega arith in
    rw (e, kept) (ground arith)

skip_name-end :
    (n : ℕ) (packet : Text) (room offs : ℕ)
    → get_or packet offs 0 ≡ 0
    → skip_name (suc n) packet room offs ≡ offs
unfolding skip_name
skip_name-end n packet room offs e = rw e (ground arith)

skip_name-from :
    (labels : List Text) (pre post : Text) (n room : ℕ)
    → AreLabels labels
    → length labels < n
    → length pre + length (encode_labels labels) < 256
    → length pre + length (encode_labels labels) ≤ room
    → skip_name n (pre ++ (encode_labels labels ++ post)) room (length pre) + 1
      ≡ length pre + length (encode_labels labels)
unfolding encode_labels
skip_name-from [] pre post zero room are fuel short fit = absurd (omega arith)
skip_name-from [] pre post (suc n) room are fuel short fit =
    ap (λ k. k + 1)
      (skip_name-end n (pre ++ (0 ∷ post)) room (length pre) (get_or-append pre post 0 0))
skip_name-from (label ∷ labels) pre post zero room are fuel short fit = absurd (omega arith)
skip_name-from (label ∷ labels) pre post (suc n) room are fuel short fit =
    ap (λ k. k + 1)
      (skip_name-step n whole room (length pre) (length label) counted are.0.0
        (omega (arith, fit, sizes)) (omega (arith, short, sizes)))
    ∙ ap₂ (λ d k. skip_name n d room k + 1) regroup (sym front_length)
    ∙ skip_name-from labels front post n room are.1 (omega arith)
        (omega (arith, short, sizes, front_length)) (omega (arith, fit, sizes, front_length))
    ∙ omega (arith, sizes, front_length)
  where
    whole : Text
    whole = pre ++ (encode_labels (label ∷ labels) ++ post)

    front : Text
    front = pre ++ ((length label % 2 ^ 8) ∷ label)

    front_length : length front ≡ length pre + (length label + 1)
    front_length = omega (arith, length-append pre ((length label % 2 ^ 8) ∷ label))

    sizes :
        length (encode_labels (label ∷ labels)) ≡ length label + 1 + length (encode_labels labels)
    sizes = omega (arith, length-append label (encode_labels labels))

    counted : get_or whole (length pre) 0 ≡ length label
    counted = get_or-append pre _ 0 (length label % 2 ^ 8) ∙ omega (arith, are.0.1)

    regroup : whole ≡ front ++ (encode_labels labels ++ post)
    regroup =
        ap (λ s. pre ++ ((length label % 2 ^ 8) ∷ s))
          (append_assoc label (encode_labels labels) post)
        ∙ sym (append_assoc pre ((length label % 2 ^ 8) ∷ label) (encode_labels labels ++ post))

-- The loop that skips the name in an answer stops at the end of a name that the query wrote, whatever
-- follows it, if no part is empty or longer than a byte can count and the name takes less than 256 bytes
-- of a packet that holds it.
pub skip_name-encode_labels :
    (labels : List Text) (post : Text) (n room : ℕ)
    → AreLabels labels
    → length labels < n
    → length (encode_labels labels) < 256
    → length (encode_labels labels) ≤ room
    → skip_name n (encode_labels labels ++ post) room 0 + 1 ≡ length (encode_labels labels)
skip_name-encode_labels labels post n room are fuel short fit =
    skip_name-from labels [] post n room are fuel (omega (arith, short)) (omega (arith, fit))
    ∙ omega arith
