-- ===== src/Prelude/Text/First.antt =====
-- What a search finds: the first place, and only that.
use Prim.Native.Nat.{ℕ, zero, suc, ◌<◌, ◌≤◌}
use mathlib.Core.Path.{◌≡◌, refl, ap, sym, ◌∙◌, subst, ap₂}
use mathlib.Core.Bool.{Bool, true, false, ◌&&◌}
use mathlib.Core.Logic.{◌⊎◌, inl, inr}
use mathlib.Core.Option.{none, some}
use mathlib.Core.List.{[], ◌∷◌, ◌++◌}
use native.Mathlib.Omega.{arith}
use cdn_uring.Prelude.Tests.{◌==◌, ==_iff, Bool-cases}
use cdn_uring.Prelude.Lists.{drop, take, length}
use cdn_uring.Prelude.Text.Search.{Text, matches, search_by}

-- No match of `pat` starts before place `i` of `s`.
abbrev pub NoneBefore : (ℕ → ℕ → Bool) → Text → Text → ℕ → Type 0
NoneBefore eq pat s i = (j : ℕ) → j < i → matches eq pat (drop j s) ≡ false

-- A search succeeds at the first match.
pub search_by-first :
    (eq : ℕ → ℕ → Bool) (pat s : Text) (i : ℕ)
    → i ≤ length s
    → NoneBefore eq pat s i
    → matches eq pat (drop i s) ≡ true
    → search_by eq pat s ≡ some i
unfolding search_by
search_by-first eq pat [] zero le none_before here = rw here
search_by-first eq pat [] (suc i) le none_before here = absurd (omega arith)
search_by-first eq pat (c ∷ s) zero le none_before here = rw here
search_by-first eq pat (c ∷ s) (suc i) le none_before here =
    rw (none_before 0 (omega arith)) (
      rw
        (search_by-first eq pat s i (omega arith) (λ j lt. none_before (suc j) (omega arith)) here))

-- What a successful search says: there is a match, and none before it.
pub record IsFirst (eq : ℕ → ℕ → Bool) (pat s : Text) (i : ℕ) : Type 0 where
  pub inside : i ≤ length s
  pub here : matches eq pat (drop i s) ≡ true
  pub before : NoneBefore eq pat s i

IsFirst-suc :
    (eq : ℕ → ℕ → Bool) (pat s : Text) (c i : ℕ)
    → matches eq pat (c ∷ s) ≡ false
    → IsFirst eq pat s i
    → IsFirst eq pat (c ∷ s) (suc i)
IsFirst-suc eq pat s c i not_here f = record {
  inside = omega (arith, f.inside);
  here = f.here;
  before = before;
}
  where
    before : NoneBefore eq pat (c ∷ s) (suc i)
    before zero lt = not_here
    before (suc j) lt = f.before j (omega arith)

IsFirst-zero : (eq : ℕ → ℕ → Bool) (pat s : Text) → matches eq pat s ≡ true → IsFirst eq pat s 0
IsFirst-zero eq pat s e = record {
  inside = omega arith;
  here = e;
  before = λ j lt. absurd (omega arith);
}

-- A search fails, or it finds the first place.
pub search_by-IsFirst :
    (eq : ℕ → ℕ → Bool) (pat s : Text)
    → (search_by eq pat s ≡ none) × ((j : ℕ) → j ≤ length s → matches eq pat (drop j s) ≡ false)
      ⊎ ((i : ℕ) × (search_by eq pat s ≡ some i) × IsFirst eq pat s i)
unfolding search_by
search_by-IsFirst eq pat [] = elim (Bool-cases (matches eq pat [])) [
  | inl here ↦ inr (0, rw here, IsFirst-zero eq pat [] here)
  | inr there ↦ inl (rw there, nowhere there)
]
  where
    nowhere : matches eq pat [] ≡ false → (j : ℕ) → j ≤ 0 → matches eq pat (drop j []) ≡ false
    nowhere e zero lt = e
    nowhere e (suc j) lt = absurd (omega arith)
search_by-IsFirst eq pat (c ∷ s) = elim (Bool-cases (matches eq pat (c ∷ s))) [
  | inl here ↦ inr (0, rw here, IsFirst-zero eq pat (c ∷ s) here)
  | inr there ↦ elim (search_by-IsFirst eq pat s) [
    | inl (e, none_there) ↦ inl (rw (there, e), nowhere there none_there)
    | inr (i, e, f) ↦ inr (suc i, rw (there, e), IsFirst-suc eq pat s c i there f)
  ]
]
  where
    nowhere :
        matches eq pat (c ∷ s) ≡ false
        → ((j : ℕ) → j ≤ length s → matches eq pat (drop j s) ≡ false)
        → (j : ℕ) → j ≤ length (c ∷ s)
        → matches eq pat (drop j (c ∷ s)) ≡ false
    nowhere e h zero lt = e
    nowhere e h (suc j) lt = h j (omega arith)

pub take-append : (P T : Text) → take (length P) (P ++ T) ≡ P
take-append [] T = refl
take-append (c ∷ P) T = ap (λ r. c ∷ r) (take-append P T)

-- A match stays one when the text goes on.
pub matches-append :
    (eq : ℕ → ℕ → Bool) (pat s t : Text) → matches eq pat s ≡ true → matches eq pat (s ++ t) ≡ true
unfolding matches
matches-append eq [] s t e = refl
matches-append eq (p ∷ pat) [] t e = absurd (false_true e)
  where
    false_true : false ≡ true → ⊥
    false_true e = cc
matches-append eq (p ∷ pat) (c ∷ s) t e = elim (Bool-cases (eq c p)) [
  | inl same ↦
      rw same (matches-append eq pat s t (subst (λ b. (b && matches eq pat s) ≡ true) same e))
  | inr other ↦ absurd (false_true (subst (λ b. (b && matches eq pat s) ≡ true) other e))
]
  where
    false_true : false ≡ true → ⊥
    false_true e = cc

pub matches_self :
    (eq : ℕ → ℕ → Bool)
    → ((c : ℕ) → eq c c ≡ true)
    → (pat t : Text) → matches eq pat (pat ++ t) ≡ true
unfolding matches
matches_self eq same [] t = refl
matches_self eq same (p ∷ pat) t = rw (same p) (matches_self eq same pat t)

-- A character that no character of `pat` is equal to.
abbrev pub Avoids : (ℕ → ℕ → Bool) → ℕ → Text → Type 0
Avoids eq d [] = Unit
Avoids eq d (p ∷ pat) = (eq d p ≡ false) × Avoids eq d pat

-- Such a character bounds the matches before it.
matches_stop :
    (eq : ℕ → ℕ → Bool) (d : ℕ) (pat s t : Text)
    → Avoids eq d pat
    → matches eq pat (s ++ (d ∷ t)) ≡ matches eq pat s
unfolding matches
matches_stop eq d [] s t av = refl
matches_stop eq d (p ∷ pat) [] t av = rw (av.0)
matches_stop eq d (p ∷ pat) (c ∷ s) t av = rw (matches_stop eq d pat s t av.1)

-- If only the first character of a pattern can be `d`, no match reaches over a `d`.
pub NoneBefore-append :
    (eq : ℕ → ℕ → Bool) (d p : ℕ) (pat P t : Text)
    → Avoids eq d pat
    → ((j : ℕ) → j < length P → matches eq (p ∷ pat) (drop j P) ≡ false)
    → NoneBefore eq (p ∷ pat) (P ++ (d ∷ t)) (length P)
unfolding matches
NoneBefore-append eq d p pat [] t av h j lt = absurd (omega arith)
NoneBefore-append eq d p pat (c ∷ P) t av h zero lt =
    rw (matches_stop eq d pat P t av) (h 0 (omega arith))
NoneBefore-append eq d p pat (c ∷ P) t av h (suc j) lt =
    NoneBefore-append eq d p pat P t av (λ k l. h (suc k) (omega arith)) j (omega arith)

-- No match before a place means none in the text up to it.
pub none_within :
    (eq : ℕ → ℕ → Bool) (pat P t : Text)
    → NoneBefore eq pat (P ++ t) (length P)
    → (j : ℕ) → j < length P
    → matches eq pat (drop j P) ≡ false
none_within eq pat [] t h j lt = absurd (omega arith)
none_within eq pat (c ∷ P) t h zero lt = elim (Bool-cases (matches eq pat (c ∷ P))) [
  | inl here ↦ absurd (false_true (sym (h 0 lt) ∙ matches-append eq pat (c ∷ P) t here))
  | inr there ↦ there
]
  where
    false_true : false ≡ true → ⊥
    false_true e = cc
none_within eq pat (c ∷ P) t h (suc j) lt =
    none_within eq pat P t (λ k l. h (suc k) (omega arith)) j (omega arith)

-- An exact match splits the text.
pub matches-split : (pat s : Text) → matches ◌==◌ pat s ≡ true → (t : Text) × (s ≡ pat ++ t)
unfolding matches
matches-split [] s e = (s, refl)
matches-split (p ∷ pat) [] e = absurd (false_true e)
  where
    false_true : false ≡ true → ⊥
    false_true e = cc
matches-split (p ∷ pat) (c ∷ s) e = elim (Bool-cases (c == p)) [
  | inl same ↦
      let split = matches-split pat s (subst (λ b. (b && matches ◌==◌ pat s) ≡ true) same e) in
      (split.0, ap₂ (λ x y. x ∷ y) ((==_iff c p).0 same) split.1)
  | inr other ↦ absurd (false_true (subst (λ b. (b && matches ◌==◌ pat s) ≡ true) other e))
]
  where
    false_true : false ≡ true → ⊥
    false_true e = cc
