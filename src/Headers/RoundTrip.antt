-- ===== src/Headers/RoundTrip.antt =====
-- src/Utils.cpp: `GetHeaderTag` after `ReplaceHeaderTag`, and `RemoveHeaderTag` of a line.
use cdn_uring.Prelude.{
  drop-append, ℕ, ◌+◌, ◌≤◌, ◌<◌, ◌≡◌, ◌≢◌, ◌∙◌, refl, sym, ap, subst, none, ltb, ◌%◌, true, false,
  ◌==◌, some, [], ◌∷◌, ◌++◌, length, drop, take, arith, ==_refl, inl, inr, leb, le→leb, leb→le,
  length-append, append_assoc, Bool-cases, length-drop, length-take, take-append-drop,
}
use cdn_uring.Prelude.Text.{Text, codes, search_by, matches, find, substr, to_upper, npos}
use cdn_uring.Prelude.Text.First.{
  search_by-first, search_by-IsFirst, take-append, matches_self, Avoids, NoneBefore-append,
  none_within, matches-split,
}
use cdn_uring.Prelude.Result.{Result, ok, fault, out_of_range, ◌>>=◌, bind-ok, ok_injective}
use cdn_uring.Headers.{
  ci_equal, to_int, ci_find_substr, tag_line, crlf, from_line_end, replace_header_tag,
  remove_header_tag, get_header_tag, up_to_line_end,
}

-- A text without the first character of a line end.
abbrev pub NoCr : Text → Type 0
NoCr [] = Unit
NoCr (c ∷ s) = (c ≢ 13) × NoCr s

ci_equal_refl : (c : ℕ) → ci_equal c c ≡ true
unfolding ci_equal
ci_equal_refl c = ==_refl (to_upper c)

ci_equal-cr : (c : ℕ) → c ≢ 13 → ci_equal 13 c ≡ false
unfolding ci_equal to_upper
ci_equal-cr c ne = ground arith

NoCr-Avoids : (s : Text) → NoCr s → Avoids ci_equal 13 (s ++ (58 ∷ []))
unfolding ci_equal to_upper
NoCr-Avoids [] h = (refl, tt)
NoCr-Avoids (c ∷ s) h = (ci_equal-cr c h.0, NoCr-Avoids s h.1)

-- What follows the first character of a tag line.
tag_tail : Text → Text
tag_tail key = 10 ∷ (key ++ (58 ∷ []))

tag_tail-Avoids : (key : Text) → NoCr key → Avoids ci_equal 13 (tag_tail key)
unfolding tag_tail ci_equal to_upper
tag_tail-Avoids key h = (refl, NoCr-Avoids key h)

-- A place below 2^31 stays what it is.
to_int-small : (n : ℕ) → n < 2147483648 → to_int n ≡ some n
unfolding to_int
to_int-small n lt =
    let same : n % 4294967296 ≡ n = omega (arith, lt) in
    let fits : ltb n 2147483648 ≡ true = ground (arith, lt) in rw (same, fits)

ci_find_substr-at :
    (s pat : Text) (n : ℕ)
    → search_by ci_equal pat s ≡ some n
    → n < 2147483648
    → ci_find_substr s pat ≡ some n
unfolding ci_find_substr
ci_find_substr-at s pat n e lt = rw (e, ci_find_substr) (to_int-small n lt)

ci_find_substr-none : (s pat : Text) → search_by ci_equal pat s ≡ none → ci_find_substr s pat ≡ none
unfolding ci_find_substr
ci_find_substr-none s pat e = rw (e, ci_find_substr)

-- A tag line is found where it stands, if none begins before it.
find_tag :
    (key P t : Text)
    → NoCr key
    → length P < 2147483648
    → ((j : ℕ) → j < length P → matches ci_equal (tag_line key) (drop j P) ≡ false)
    → ci_find_substr (P ++ (tag_line key ++ t)) (tag_line key) ≡ some (length P)
unfolding tag_tail
find_tag key P t h near none_before =
    ci_find_substr-at (P ++ (tag_line key ++ t)) (tag_line key) (length P)
      (search_by-first ci_equal (tag_line key) (P ++ (tag_line key ++ t)) (length P)
        (omega (arith, length-append P (tag_line key ++ t)))
        (NoneBefore-append ci_equal 13 13 (tag_tail key) P (tag_tail key ++ t)
          (tag_tail-Avoids key h) none_before)
        (rw (drop-append P (tag_line key ++ t))
          (matches_self ci_equal ci_equal_refl (tag_line key) t)))
      near

-- The first line end after a text without one.
find-crlf : (v t : Text) → NoCr v → find (v ++ (crlf ++ t)) crlf ≡ some (length v)
unfolding search_by matches
find-crlf [] t h = refl
find-crlf (c ∷ v) t h = ground (arith, find-crlf v t h.1, h.0)

up_to_line_end-crlf : (v t : Text) → NoCr v → up_to_line_end (v ++ (crlf ++ t)) ≡ v
unfolding up_to_line_end
up_to_line_end-crlf v t h = rw (find-crlf v t h, up_to_line_end) (take-append v (crlf ++ t))

substr-append : (Q X : Text) (n : ℕ) → n ≡ length Q → substr (Q ++ X) n ≡ ok X
unfolding substr
substr-append Q X n e =
    rw (e, le→leb (length Q) (length (Q ++ X)) (omega (arith, length-append Q X)))
      (ap ok (drop-append Q X))

-- The text up to the value, and the value.
past_blank :
    (key P X : Text) → substr (P ++ (tag_line key ++ (32 ∷ X))) (length P + 4 + length key) ≡ ok X
past_blank key P X =
    subst (λ s. substr s (length P + 4 + length key) ≡ ok X) regroup
      (substr-append (P ++ (tag_line key ++ (32 ∷ []))) X (length P + 4 + length key) sizes)
  where
    regroup : (P ++ (tag_line key ++ (32 ∷ []))) ++ X ≡ P ++ (tag_line key ++ (32 ∷ X))
    regroup =
        append_assoc P (tag_line key ++ (32 ∷ [])) X
        ∙ ap (λ s. P ++ s) (append_assoc (tag_line key) (32 ∷ []) X)

    sizes : length P + 4 + length key ≡ length (P ++ (tag_line key ++ (32 ∷ [])))
    sizes = omega (
      arith,
      length-append P (tag_line key ++ (32 ∷ [])),
      length-append (tag_line key) (32 ∷ []),
      length-append key (58 ∷ []),
    )

-- Reading a tag where its line was found.
get_header_tag-line :
    (key v P t : Text)
    → NoCr key
    → NoCr v
    → length P < 2147483648
    → ((j : ℕ) → j < length P → matches ci_equal (tag_line key) (drop j P) ≡ false)
    → get_header_tag (P ++ (tag_line key ++ (32 ∷ (v ++ (crlf ++ t))))) key ≡ ok v
unfolding get_header_tag
get_header_tag-line key v P t hk hv near none_before =
    rw (find_tag key P (32 ∷ (v ++ (crlf ++ t))) hk near none_before, get_header_tag)
      (rw (past_blank key P (v ++ (crlf ++ t)), ◌>>=◌) (ap ok (up_to_line_end-crlf v t hv)))

-- A text with a line for the tag, at a place below 2^31, and no line for it before that one.
record HasLine (key v h : Text) : Type 0 where
  front : Text
  back : Text
  split : h ≡ front ++ (tag_line key ++ (32 ∷ (v ++ (crlf ++ back))))
  near : length front < 2147483648
  first : (j : ℕ) → j < length front → matches ci_equal (tag_line key) (drop j front) ≡ false

substr-ok : (s r : Text) (n : ℕ) → substr s n ≡ ok r → (n ≤ length s) × (drop n s ≡ r)
unfolding substr
substr-ok s r n e = elim (Bool-cases (leb n (length s))) [
  | inl le ↦ (leb→le n (length s) le, ok_injective (sym (rw (le, substr)) ∙ e))
  | inr gt ↦ absurd (fault_ok (sym (rw (gt, substr)) ∙ e))
]
  where
    fault_ok : fault out_of_range ≡ ok r → ⊥
    fault_ok e = cc

-- What follows the line that is replaced begins with a line end.
from_line_end-crlf :
    (second rest : Text)
    → length second < npos
    → from_line_end second ≡ ok rest
    → (t : Text) × (rest ≡ crlf ++ t)
unfolding from_line_end
from_line_end-crlf second rest short e = elim (search_by-IsFirst ◌==◌ crlf second) [
  | inl (none_found, absent) ↦
      let cut = substr-ok second rest npos (sym (rw (none_found, from_line_end)) ∙ e) in
      absurd (omega (arith, cut.0, short))
  | inr (n, found, f) ↦
      let cut = substr-ok second rest n (sym (rw (found, from_line_end)) ∙ e) in
      let split = matches-split crlf (drop n second) f.here in (split.0, sym cut.1 ∙ split.1)
]

-- The line that is put in begins where no other line for the tag stood before.
replace_header_tag-HasLine :
    (key v h h' : Text)
    → length h < 2147483648
    → replace_header_tag h key v ≡ ok h'
    → HasLine key v h'
unfolding replace_header_tag
replace_header_tag-HasLine key v h h' short e = elim (search_by-IsFirst ci_equal (tag_line key) h) [
  | inl (none_found, absent) ↦ record {
    front = h;
    back = [];
    split = sym (
        ok_injective
          (sym (rw (ci_find_substr-none h (tag_line key) none_found, replace_header_tag)) ∙ e));
    near = short;
    first = λ j lt. absent j (omega arith);
  }
  | inr (n, found, f) ↦
      let at = ci_find_substr-at h (tag_line key) n found (omega (arith, f.inside, short)) in
      let second =
        bind-ok (substr h (n + 2)) (with_second n) (sym (rw (at, replace_header_tag)) ∙ e) in
      let rest = bind-ok (from_line_end second.0) (with_rest n) second.2 in
      let cut = substr-ok h second.0 (n + 2) second.1 in
      let shorter : length second.0 < npos =
        rw (← cut.1) (omega (arith, length-drop (n + 2) h, short)) in
      let after = from_line_end-crlf second.0 rest.0 shorter rest.1 in
      record {
        front = take n h;
        back = after.0;
        split =
            sym (ok_injective rest.2)
            ∙ ap (λ r. take n h ++ (tag_line key ++ (32 ∷ (v ++ r)))) after.1;
        near = omega (arith, length-take n h, short);
        first =
            none_within ci_equal (tag_line key) (take n h) (drop n h)
              (λ j lt. rw (take-append-drop n h) (f.before j (omega (arith, lt, length-take n h))));
      }
]
  where
    with_rest : ℕ → Text → Result Text
    with_rest n rest = ok (take n h ++ (tag_line key ++ (codes " " ++ (v ++ rest))))

    with_second : ℕ → Text → Result Text
    with_second n second = from_line_end second >>= with_rest n

-- What a tag was set to is what it is read as, whatever the header and whether or not it had the tag
-- before, if the replacement succeeds, neither the tag nor the value holds a carriage return, and the
-- header is shorter than 2^31 bytes.
pub get_header_tag-replace_header_tag :
    (key v h h' : Text)
    → NoCr key
    → NoCr v
    → length h < 2147483648
    → replace_header_tag h key v ≡ ok h'
    → get_header_tag h' key ≡ ok v
get_header_tag-replace_header_tag key v h h' hk hv short e =
    let line = replace_header_tag-HasLine key v h h' short e in
    ap (λ s. get_header_tag s key) line.split
    ∙ get_header_tag-line key v line.front line.back hk hv line.near line.first

NoCr-append : (a b : Text) → NoCr a → NoCr b → NoCr (a ++ b)
NoCr-append [] b ha hb = hb
NoCr-append (c ∷ a) b ha hb = (ha.0, NoCr-append a b ha.1 hb)

from_line_end-line : (V t : Text) → NoCr V → from_line_end (V ++ (crlf ++ t)) ≡ ok (crlf ++ t)
unfolding from_line_end
from_line_end-line V t h =
    rw (find-crlf V t h, from_line_end) (substr-append V (crlf ++ t) (length V) refl)

past_crlf :
    (key P X : Text)
    → substr (P ++ (tag_line key ++ X)) (length P + 2) ≡ ok ((key ++ (58 ∷ [])) ++ X)
past_crlf key P X =
    subst (λ s. substr s (length P + 2) ≡ ok ((key ++ (58 ∷ [])) ++ X))
      (append_assoc P crlf ((key ++ (58 ∷ [])) ++ X))
      (substr-append (P ++ crlf) ((key ++ (58 ∷ [])) ++ X) (length P + 2)
        (omega (arith, length-append P crlf)))

-- The line of a tag is taken out whole, and nothing else is: what stood before it and what stood after
-- its line end are joined by that line end, if the text before is shorter than 2^31 bytes and has no line
-- for the tag, and neither the tag nor the line holds a carriage return.
pub remove_header_tag-line :
    (key v P t : Text)
    → NoCr key
    → NoCr v
    → length P < 2147483648
    → ((j : ℕ) → j < length P → matches ci_equal (tag_line key) (drop j P) ≡ false)
    → remove_header_tag (P ++ (tag_line key ++ (v ++ (crlf ++ t)))) key ≡ ok (P ++ (crlf ++ t))
unfolding remove_header_tag
remove_header_tag-line key v P t hk hv near none_before =
    rw (find_tag key P (v ++ (crlf ++ t)) hk near none_before, remove_header_tag)
      (rw (past_crlf key P (v ++ (crlf ++ t)), ◌>>=◌)
        (rw (rest_of_line, ◌>>=◌)
          (ap (λ s. ok (s ++ (crlf ++ t))) (take-append P (tag_line key ++ (v ++ (crlf ++ t)))))))
  where
    rest_of_line : from_line_end ((key ++ (58 ∷ [])) ++ (v ++ (crlf ++ t))) ≡ ok (crlf ++ t)
    rest_of_line =
        ap from_line_end (sym (append_assoc (key ++ (58 ∷ [])) v (crlf ++ t)))
        ∙ from_line_end-line ((key ++ (58 ∷ [])) ++ v) t (
            NoCr-append (key ++ (58 ∷ [])) v (NoCr-append key (58 ∷ []) hk ((λ e. omega arith), tt))
              hv)
