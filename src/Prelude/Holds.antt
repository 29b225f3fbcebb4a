-- ===== src/Prelude/Holds.antt =====
-- What is true of a result, if there is one.
use mathlib.Core.Path.{◌≡◌, refl}
use mathlib.Core.Bool.{Bool, true, false}
use cdn_uring.Prelude.Tests.{if◌then◌else◌}
use cdn_uring.Prelude.Result.{Result, ok, fault, ◌>>=◌}

-- A property of what a computation returns, if it does not fail.
abbrev pub Holds {ℓ κ} : {A : Type ℓ} → (A → Type κ) → Result A → Type κ
Holds P (ok a) = P a
Holds P (fault e) = Unit

pub Holds-bind {ℓ κ λ'} :
    {A : Type ℓ} {B : Type κ} (P : A → Type λ') (Q : B → Type λ') (r : Result A) (f : A → Result B)
    → Holds P r
    → ((a : A) → P a → Holds Q (f a))
    → Holds Q (r >>= f)
Holds-bind P Q (ok a) f h next = next a h
Holds-bind P Q (fault e) f h next = tt

pub Holds-after {ℓ κ λ'} :
    {A : Type ℓ} {B : Type κ} (Q : B → Type λ') (r : Result A) (f : A → Result B)
    → ((a : A) → Holds Q (f a))
    → Holds Q (r >>= f)
Holds-after Q (ok a) f next = next a
Holds-after Q (fault e) f next = tt

pub Holds-if {ℓ κ} :
    {A : Type ℓ} (P : A → Type κ) (b : Bool) (r s : Result A)
    → (b ≡ true → Holds P r)
    → (b ≡ false → Holds P s)
    → Holds P (if b then r else s)
Holds-if P true r s h k = h refl
Holds-if P false r s h k = k refl
