-- ===== src/Http/HeaderEnd.antt =====
-- src/Http.cpp, `FetchHeaderLength`: where the header of the origin ends.
use cdn_uring.Prelude.{
  drop-append, ℕ, zero, suc, ◌+◌, ◌≤◌, ◌<◌, ◌≡◌, ◌∙◌, refl, sym, ap, subst, true, false, [], ◌∷◌,
  length, drop, take, arith, length-drop, length-append, append_assoc, ◌++◌, ◌-◌, ap₂, ==_refl,
  ◌==◌, ◌&&◌, inl, inr, Bool-cases,
}
use cdn_uring.Prelude.Text.{Text, matches, c_str}
use cdn_uring.Prelude.Text.First.{IsFirst, NoneBefore, take-append, matches_self}
use cdn_uring.Prelude.Text.NoNul.{NoNul, NoNul-append, c_str-plain}
use cdn_uring.Prelude.Result.{ok, ◌>>=◌}
use cdn_uring.Http.Parse.{expect, header_end, fetch_header_length, process_external_header}
use cdn_uring.Http.Read.{behind_header}

-- Against enough bytes, the comparison is the one of a search.
expect-matches : (pat s : Text) → length pat ≤ length s → expect pat s ≡ ok (matches ◌==◌ pat s)
unfolding expect matches
expect-matches [] s le = refl
expect-matches (p ∷ pat) [] le = absurd (omega arith)
expect-matches (p ∷ pat) (c ∷ s) le = elim (Bool-cases (c == p)) [
  | inl same ↦ rw same (expect-matches pat s (omega arith))
  | inr other ↦ rw other
]

matches-length : (pat s : Text) → matches ◌==◌ pat s ≡ true → length pat ≤ length s
unfolding matches
matches-length [] s e = omega arith
matches-length (p ∷ pat) [] e = absurd (false_true e)
  where
    false_true : false ≡ true → ⊥
    false_true e = cc
matches-length (p ∷ pat) (c ∷ s) e = elim (Bool-cases (c == p)) [
  | inl same ↦
      omega (arith, matches-length pat s (subst (λ b. (b && matches ◌==◌ pat s) ≡ true) same e))
  | inr other ↦ absurd (false_true (subst (λ b. (b && matches ◌==◌ pat s) ≡ true) other e))
]
  where
    false_true : false ≡ true → ⊥
    false_true e = cc

-- The scan from a place, whose first match is `i` further on.
header_length_from :
    (n i offset : ℕ) (s : Text)
    → i < n
    → IsFirst ◌==◌ header_end s i
    → fetch_header_length n s offset ≡ ok (offset + (i + 4))
unfolding fetch_header_length
header_length_from zero i offset s lt f = absurd (omega arith)
header_length_from (suc n) zero offset s lt f =
    rw (expect-matches header_end s (matches-length header_end s f.here), f.here, ◌>>=◌) refl
header_length_from (suc n) (suc i) offset [] lt f = absurd (omega (arith, f.inside))
header_length_from (suc n) (suc i) offset (c ∷ s) lt f =
    rw
      (
        expect-matches header_end (c ∷ s)
            (omega (arith, matches-length header_end (drop i s) f.here, length-drop i s)),
        f.before 0 (omega arith),
        ◌>>=◌,
      )
      (header_length_from n i (offset + 1) s (omega arith) (record {
        inside = omega (arith, f.inside);
        here = f.here;
        before = λ j l. f.before (suc j) (omega arith);
      })
        ∙ ap ok (omega arith))

-- What the server makes of the first answer of the origin.
pub record Splits (h content base : Text) (readed : ℕ) : Type 0 where
  pub ends : fetch_header_length readed base 0 ≡ ok (length h + 4)
  pub header : process_external_header (length h + 4) base ≡ h ++ header_end
  pub rest : behind_header (length h + 4) readed base ≡ content

-- An answer that begins with a header without a NUL, whose first empty line is its end: the header that
-- goes to the clients is that header with its empty line, and the content is just the bytes that were
-- read behind it, whatever else the buffer holds.
pub fetch_header_length-Splits :
    (h content pad : Text)
    → NoNul h
    → NoneBefore ◌==◌ header_end (h ++ (header_end ++ (content ++ pad))) (length h)
    → Splits h content (h ++ (header_end ++ (content ++ pad))) (length h + 4 + length content)
unfolding process_external_header
fetch_header_length-Splits h content pad plain before = record {
  ends =
      header_length_from (length h + 4 + length content) (length h) 0 base (omega arith) (record {
        inside = omega (arith, length-append h (header_end ++ (content ++ pad)));
        here =
            rw (drop-append h (header_end ++ (content ++ pad)))
              (matches_self ◌==◌ ==_refl header_end (content ++ pad));
        before = before;
      })
      ∙ ap ok (omega arith);
  header =
      ap c_str (ap₂ take sizes regroup ∙ take-append (h ++ header_end) (content ++ pad))
      ∙ c_str-plain (h ++ header_end) (NoNul-append h header_end plain (omega arith));
  rest =
      ap₂ (λ n s. take n s) counts
        (ap₂ drop sizes regroup ∙ drop-append (h ++ header_end) (content ++ pad))
      ∙ take-append content pad;
}
  where
    base : Text
    base = h ++ (header_end ++ (content ++ pad))

    sizes : length h + 4 ≡ length (h ++ header_end)
    sizes = omega (arith, length-append h header_end)

    regroup : base ≡ (h ++ header_end) ++ (content ++ pad)
    regroup = sym (append_assoc h header_end (content ++ pad))

    counts : length h + 4 + length content - (length h + 4) ≡ length content
    counts = omega arith
