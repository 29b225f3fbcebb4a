-- ===== src/Hls/Again.antt =====
-- src/HLSStream.cpp, `UpdateHeader`: a header that was updated cannot be updated again.
use cdn_uring.Prelude.{
  ℕ, ◌+◌, ◌≡◌, refl, sym, subst, ◌∙◌, inl, inr, ◌++◌, length, take, leb, le→leb, Option-cases,
  Bool-cases, arith,
}
use cdn_uring.Prelude.Text.{Text, codes, c_str, find, pos_of, substr, to_string}
use cdn_uring.Prelude.Text.NoNul.{
  NoNul, NoNul-append, NoNul-take, NoNul-substr, NoNul-c_str, NoNul-to_string, c_str-plain,
}
use cdn_uring.Prelude.Result.{Result, ok, fault, past_end, bind-ok, ok_injective, ◌>>=◌}
use cdn_uring.Headers.{tag_line, crlf, ci_find_substr, from_line_end, replace_header_tag}
use cdn_uring.Http.Parse.{string_of}
use cdn_uring.Hls.Header.{update_header}
use cdn_uring.World.{Iovec, Mux}
use cdn_uring.World.Monad.{block_of}

-- A literal has no NUL if it is its own C string.
NoNul-plain : (s : Text) → c_str s ≡ s → NoNul s
NoNul-plain s e = subst NoNul e (NoNul-c_str s)

NoNul-from_line_end : (s : Text) {r : Text} → from_line_end s ≡ ok r → NoNul s → NoNul r
unfolding from_line_end
NoNul-from_line_end s e h = NoNul-substr s (pos_of (find s crlf)) e h

NoNul-replace_header_tag :
    (header tag value : Text) {r : Text}
    → replace_header_tag header tag value ≡ ok r
    → NoNul header
    → NoNul (tag_line tag)
    → NoNul value
    → NoNul r
unfolding replace_header_tag c_str
NoNul-replace_header_tag header tag value e hh ht hv =
    elim (Option-cases (ci_find_substr header (tag_line tag))) [
      | inl absent ↦ subst NoNul (ok_injective (sym (rw (absent, replace_header_tag)) ∙ e)) (
          NoNul-append header (filled crlf) hh
            (line (codes "\r\n") (NoNul-plain (codes "\r\n") refl)))
      | inr (i, found) ↦
          let (second, e2, e3) =
            bind-ok (substr header (i + 2)) (with_second i)
              (sym (rw (found, replace_header_tag)) ∙ e) in
          let (rest, e4, e5) = bind-ok (from_line_end second) (with_rest i) e3 in
          subst NoNul (ok_injective e5) (
            NoNul-append (take i header) (filled rest) (NoNul-take i header hh)
              (line rest (NoNul-from_line_end second e4 (NoNul-substr header (i + 2) e2 hh))))
    ]
  where
    filled : Text → Text
    filled rest = tag_line tag ++ (codes " " ++ (value ++ rest))

    with_rest : ℕ → Text → Result Text
    with_rest i rest = ok (take i header ++ filled rest)

    with_second : ℕ → Text → Result Text
    with_second i second = from_line_end second >>= with_rest i

    line : (rest : Text) → NoNul rest → NoNul (filled rest)
    line rest h =
        NoNul-append (tag_line tag) _ ht
          (NoNul-append (codes " ") _ (NoNul-plain (codes " ") refl) (NoNul-append value rest hv h))

NoNul-string_of : (v : Iovec) {s : Text} → string_of v ≡ ok s → NoNul s
unfolding string_of
NoNul-string_of v e = elim (Bool-cases (leb (length v.base) (length (c_str v.base)))) [
  | inl over ↦ absurd (fault_ok (sym (rw (over, string_of)) ∙ e))
  | inr inside ↦ subst NoNul (ok_injective (sym (rw (inside, string_of)) ∙ e)) (NoNul-c_str v.base)
]
  where
    fault_ok : {r : Text} → fault past_end ≡ ok r → ⊥
    fault_ok e = cc

-- A block that holds a text without a NUL, and nothing else, is no C string.
string_of-block_of : (s : Text) → NoNul s → string_of (block_of s) ≡ fault past_end
unfolding string_of
string_of-block_of s h = rw (c_str-plain s h, le→leb (length s) (length s) (omega arith))

-- A header that was updated once is read past its end when it is updated again.
pub update_header-again :
    (mux mux' : Mux) (m n : ℕ)
    → update_header mux m ≡ ok mux'
    → update_header mux' n ≡ fault past_end
unfolding update_header c_str
update_header-again mux mux' m n e =
    let (header, e1, e2) = bind-ok (string_of mux.header) with_header e in
    let (replaced, e3, e4) =
      bind-ok (replace_header_tag header (codes "Content-Length") (to_string m)) with_replaced e2 in
    rw (
      ← ok_injective e4,
      string_of-block_of replaced (
          NoNul-replace_header_tag header (codes "Content-Length") (to_string m) e3
            (NoNul-string_of mux.header e1) (NoNul-plain (tag_line (codes "Content-Length")) refl)
            (NoNul-to_string m)),
      ◌>>=◌,
    )
  where
    with_replaced : Text → Result Mux
    with_replaced replaced = ok (record mux { header = block_of replaced })

    with_header : Text → Result Mux
    with_header header =
        replace_header_tag header (codes "Content-Length") (to_string m) >>= with_replaced
