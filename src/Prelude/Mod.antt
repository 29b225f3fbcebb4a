-- ===== src/Prelude/Mod.antt =====
-- Positions in a ring of `n` slots.
use Prim.Native.Nat.{ℕ, ◌+◌, ◌-◌, ◌%◌, ◌<◌}
use mathlib.Core.Path.{◌≡◌, sym}
use mathlib.Core.Logic.{◌≢◌}
use native.Mathlib.Nat.{mod-add-mod, mod-eq_of_lt, mod-eq-sub-mod}
use native.Mathlib.Decide.{dec_lt}
use native.Mathlib.Omega.{arith}

-- Fewer than `n` steps round the ring do not come back to the start.
add-mod-ne : (n h k : ℕ) → h < n → 0 < k → k < n → (h + k) % n ≢ h
add-mod-ne n h k hh pos hk = elim (dec_lt (h + k) n) [
  | yes p ↦ omega (arith, mod-eq_of_lt p)
  | no p ↦ omega (
    arith,
    mod-eq-sub-mod {n = h + k} {m = n} (omega arith),
    mod-eq_of_lt {n = h + k - n} {m = n} (omega arith),
  )
]

-- Two counts less than `n` apart stand on different slots.
pub mod-ne : (n a b : ℕ) → a < b → b < a + n → a % n ≢ b % n
mod-ne n a b lt near e =
    add-mod-ne n (a % n) (b - a) (omega arith) (omega arith) (omega arith)
      (rw mod-add-mod (rw (shift) (sym e)))
  where
    shift : a + (b - a) ≡ b
    shift = omega arith

-- Moving on by one slot, as the code does it: increment, then reduce.
pub mod-suc : (n a : ℕ) → (a % n + 1) % n ≡ (a + 1) % n
mod-suc n a = rw mod-add-mod
