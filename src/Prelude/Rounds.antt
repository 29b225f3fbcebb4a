-- ===== src/Prelude/Rounds.antt =====
-- A loop over a counter with `m` values ends within `m` rounds or not at all.
use Prim.Native.Nat.{ℕ, zero, suc, ◌+◌, ◌≤◌, ◌<◌}
use mathlib.Core.Path.{◌≡◌, refl, sym, ◌∙◌}
use mathlib.Core.Bool.{Bool, true, false, ◌&&◌}
use mathlib.Core.Logic.{◌⊎◌, inl, inr}
use native.Mathlib.Omega.{arith}
use native.Mathlib.Decide.{ℕ_discrete}
use cdn_uring.Prelude.Tests.{if◌then◌else◌, Bool-cases}

-- How many numbers below `n` are in `p`.
count : ℕ → (ℕ → Bool) → ℕ
count zero p = 0
count (suc n) p = count n p + (if p n then 1 else 0)

count-le :
    (n : ℕ) (p q : ℕ → Bool) → ((x : ℕ) → x < n → p x ≡ true → q x ≡ true) → count n p ≤ count n q
unfolding count
count-le zero p q sub = omega arith
count-le (suc n) p q sub =
    ground (arith, count-le n p q (λ x lt. sub x (omega arith)), sub n (omega arith))

-- A smaller set is the same set or has fewer numbers.
count-cases :
    (n : ℕ) (p q : ℕ → Bool)
    → ((x : ℕ) → x < n → p x ≡ true → q x ≡ true)
    → ((x : ℕ) → x < n → q x ≡ true → p x ≡ true) ⊎ (count n p < count n q)
unfolding count
count-cases zero p q sub = inl (λ x lt. absurd (omega arith))
count-cases (suc n) p q sub = elim (count-cases n p q (λ x lt. sub x (omega arith))) [
  | inr fewer ↦ inr (last fewer)
  | inl same ↦ elim (Bool-cases (p n)) [
    | inl yes_p ↦ inl (λ x lt h. extend same (λ _. yes_p) x lt h)
    | inr no_p ↦ elim (Bool-cases (q n)) [
      | inl yes_q ↦
          inr (rw (no_p, yes_q) (omega (arith, count-le n p q (λ x lt. sub x (omega arith)))))
      | inr no_q ↦ inl (λ x lt h. extend same (λ e. absurd (false_true (sym no_q ∙ e))) x lt h)
    ]
  ]
]
  where
    false_true : false ≡ true → ⊥
    false_true e = cc

    last : count n p < count n q → count (suc n) p < count (suc n) q
    last fewer = ground (arith, sub n (omega arith))

    extend :
        ((x : ℕ) → x < n → q x ≡ true → p x ≡ true)
        → (q n ≡ true → p n ≡ true)
        → (x : ℕ) → x < suc n
        → q x ≡ true
        → p x ≡ true
    extend same at x lt h = elim (ℕ_discrete x n) [
      | yes e ↦ rw e (at (rw e at h))
      | no ne ↦ same x (omega arith) h
    ]

count_full : (n : ℕ) (p : ℕ → Bool) → count n p ≤ n
unfolding count
count_full zero p = omega arith
count_full (suc n) p = ground (arith, count_full n p)

count_none : (n : ℕ) (p : ℕ → Bool) → count n p ≡ 0 → (x : ℕ) → x < n → p x ≡ true → ⊥
unfolding count
count_none zero p e x lt h = omega arith
count_none (suc n) p e x lt h = elim (ℕ_discrete x n) [
  | yes at ↦ absurd (ground (arith, rw at at h))
  | no ne ↦ count_none n p (ground arith) x (omega arith) h
]

module _ (m : ℕ) (go : ℕ → Bool) (step : ℕ → ℕ) (bounded : (x : ℕ) → step x < m) where
  -- The loop goes on for `k` rounds from `x` at least.
  unfoldable pub runs : ℕ → ℕ → Bool
  runs zero x = true
  runs (suc k) x = go x && runs k (step x)

  pub runs_less : (k x : ℕ) → runs (suc k) x ≡ true → runs k x ≡ true
  unfolding runs
  runs_less zero x h = refl
  runs_less (suc k) x h = ground (arith, runs_less k (step x))

  -- From a value below `m` that lasts for `k` rounds the loop does not end.
  abbrev Stable : ℕ → Type 0
  Stable k = (n x : ℕ) → x < m → runs k x ≡ true → runs n x ≡ true

  Stable-suc : (k : ℕ) → Stable k → Stable (suc k)
  Stable-suc k s n x lt h = s n x lt (runs_less k x h)

  Stable-fixed : (k : ℕ) → ((x : ℕ) → x < m → runs k x ≡ true → runs (suc k) x ≡ true) → Stable k
  unfolding runs
  Stable-fixed k same zero x lt h = refl
  Stable-fixed k same (suc n) x lt h =
      ground (arith, same x lt h, Stable-fixed k same n (step x) (bounded x))

  Stable-or-fewer : (k : ℕ) → Stable k ⊎ (count m (runs k) + k ≤ m)
  unfolding runs
  Stable-or-fewer zero = inr (omega (arith, count_full m (runs 0)))
  Stable-or-fewer (suc k) = elim (Stable-or-fewer k) [
    | inl s ↦ inl (Stable-suc k s)
    | inr few ↦ elim (count-cases m (runs (suc k)) (runs k) (λ x lt. runs_less k x)) [
      | inl same ↦ inl (Stable-suc k (Stable-fixed k same))
      | inr fewer ↦ inr (omega (arith, fewer, few))
    ]
  ]

  -- A loop that lasts for `m` rounds does not end.
  pub runs_forever : (x : ℕ) → x < m → runs m x ≡ true → (n : ℕ) → runs n x ≡ true
  runs_forever x lt h n = elim (Stable-or-fewer m) [
    | inl s ↦ s n x lt h
    | inr few ↦ absurd (count_none m (runs m) (omega (arith, few)) x lt h)
  ]
