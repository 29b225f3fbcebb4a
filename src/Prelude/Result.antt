-- ===== src/Prelude/Result.antt =====
-- Results of code that can end the process or leave what C++ defines.
use mathlib.Core.Path.{◌≡◌, refl}
use mathlib.Core.Option.{Option, none, some}

-- `missing_key`: `at` on a missing key; `out_of_range`: a bad position for `substr`; `dangling`: a
-- request or resource that was freed; `past_end`: an element that an array does not have;
-- `overflow`: a copy into a block that is too small; `null`: a null pointer that is read; `aborted`: a
-- call of `abort`; `endless`: a loop that does not end; `bad_number`: what `stoi`
-- throws; `uninitialised`: memory that was never written is read.
pub data Fault : Type 0 where
  missing_key out_of_range dangling past_end overflow null aborted endless bad_number
        uninitialised :
      Fault

pub data Result {ℓ} (A : Type ℓ) : Type ℓ where
  ok : A → Result A
  fault : Fault → Result A

infixl 5 ◌>>=◌ ◌>>◌
abbrev pub ◌>>=◌ {ℓ κ} : {A : Type ℓ} {B : Type κ} → Result A → (A → Result B) → Result B
ok a >>= f = f a
fault e >>= f = fault e

abbrev pub ◌>>◌ {ℓ} : {B : Type ℓ} → Result (Unit {0}) → Result B → Result B
m >> k = m >>= λ _. k

abbrev pub or_fault {ℓ} : {A : Type ℓ} → Fault → Option A → Result A
or_fault e none = fault e
or_fault e (some a) = ok a

-- A chain that succeeds has a first step that does.
pub bind-ok {ℓ κ} :
    {A : Type ℓ} {B : Type κ} (r : Result A) (f : A → Result B) {b : B}
    → (r >>= f) ≡ ok b
    → (a : A) × (r ≡ ok a) × (f a ≡ ok b)
bind-ok (ok a) f e = (a, refl, e)
bind-ok {B = B} (fault x) f e = absurd (fault_ok e)
  where
    fault_ok : {b : B} → fault x ≡ ok b → ⊥
    fault_ok e = cc

pub ok_injective {ℓ} : {A : Type ℓ} {a b : A} → ok a ≡ ok b → a ≡ b
ok_injective e = cc
