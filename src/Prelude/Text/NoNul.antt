-- ===== src/Prelude/Text/NoNul.antt =====
-- Texts that a C string holds whole.
use Prim.Native.Nat.{ℕ, zero, suc, ◌+◌, ◌/◌, ◌%◌}
use mathlib.Core.Path.{◌≡◌, refl, sym, ◌∙◌, subst}
use mathlib.Core.Bool.{Bool, true, false}
use mathlib.Core.Logic.{◌≢◌, inl, inr}
use mathlib.Core.List.{[], ◌∷◌, ◌++◌}
use native.Mathlib.Omega.{arith}
use cdn_uring.Prelude.Lists.{take, drop, length}
use cdn_uring.Prelude.Tests.{leb, ltb, ◌==◌, if◌then◌else◌, Bool-cases}
use cdn_uring.Prelude.Result.{ok, fault, out_of_range, ok_injective}
use cdn_uring.Prelude.Text.Search.{Text, c_str, substr, digits_of, to_string}

-- A text without a NUL.
abbrev pub NoNul : Text → Type 0
NoNul [] = Unit
NoNul (c ∷ s) = (c ≢ 0) × NoNul s

pub NoNul-append : (a b : Text) → NoNul a → NoNul b → NoNul (a ++ b)
NoNul-append [] b ha hb = hb
NoNul-append (c ∷ a) b ha hb = (ha.0, NoNul-append a b ha.1 hb)

pub c_str-append : (a b : Text) → NoNul a → c_str (a ++ b) ≡ a ++ c_str b
unfolding c_str
c_str-append [] b h = refl
c_str-append (c ∷ a) b h = ground (arith, c_str-append a b h.1, h.0)

pub c_str-plain : (s : Text) → NoNul s → c_str s ≡ s
unfolding c_str
c_str-plain [] h = refl
c_str-plain (c ∷ s) h = ground (arith, c_str-plain s h.1, h.0)

pub NoNul-take : (n : ℕ) (s : Text) → NoNul s → NoNul (take n s)
NoNul-take zero s h = tt
NoNul-take (suc n) [] h = tt
NoNul-take (suc n) (c ∷ s) h = (h.0, NoNul-take n s h.1)

pub NoNul-drop : (n : ℕ) (s : Text) → NoNul s → NoNul (drop n s)
NoNul-drop zero s h = h
NoNul-drop (suc n) [] h = tt
NoNul-drop (suc n) (c ∷ s) h = NoNul-drop n s h.1

pub NoNul-substr : (s : Text) (n : ℕ) {r : Text} → substr s n ≡ ok r → NoNul s → NoNul r
unfolding substr
NoNul-substr s n e h = elim (Bool-cases (leb n (length s))) [
  | inl inside ↦ subst NoNul (ok_injective (sym (substr-inside inside) ∙ e)) (NoNul-drop n s h)
  | inr outside ↦ absurd (fault_ok (sym (substr-outside outside) ∙ e))
]
  where
    substr-inside : leb n (length s) ≡ true → substr s n ≡ ok (drop n s)
    substr-inside inside = rw inside

    substr-outside : leb n (length s) ≡ false → substr s n ≡ fault out_of_range
    substr-outside outside = rw outside

    fault_ok : {r : Text} → fault out_of_range ≡ ok r → ⊥
    fault_ok e = cc

pub NoNul-c_str : (s : Text) → NoNul (c_str s)
unfolding c_str
NoNul-c_str [] = tt
NoNul-c_str (c ∷ s) = elim (Bool-cases (c == 0)) [
  | inl nul ↦ subst NoNul (sym (c_str-nul nul)) tt
  | inr other ↦ subst NoNul (sym (c_str-other other)) (ground arith, NoNul-c_str s)
]
  where
    c_str-nul : (c == 0) ≡ true → c_str (c ∷ s) ≡ []
    c_str-nul nul = rw nul

    c_str-other : (c == 0) ≡ false → c_str (c ∷ s) ≡ c ∷ c_str s
    c_str-other other = rw other

NoNul-if : (b : Bool) (s t : Text) → NoNul s → NoNul t → NoNul (if b then s else t)
NoNul-if true s t hs ht = hs
NoNul-if false s t hs ht = ht

NoNul-digits_of : (f n : ℕ) (acc : Text) → NoNul acc → NoNul (digits_of f n acc)
unfolding digits_of
NoNul-digits_of zero n acc h = h
NoNul-digits_of (suc f) n acc h =
    NoNul-if (ltb n 10) ((48 + n) ∷ acc) (digits_of f (n / 10) ((48 + n % 10) ∷ acc))
      ((λ e. omega arith), h)
      (NoNul-digits_of f (n / 10) ((48 + n % 10) ∷ acc) ((λ e. omega arith), h))

pub NoNul-to_string : (n : ℕ) → NoNul (to_string n)
unfolding to_string
NoNul-to_string n = NoNul-digits_of 20 n [] tt
