-- ===== src/Prelude/Outcome.antt =====
-- Runs of C++ code that may end in undefined behaviour, as values.
use mathlib.Core.Path.{◌≡◌, refl}
use mathlib.Core.Option.{Option, none, some}
use mathlib.Core.Logic.{◌⊎◌, inl, inr}

-- What goes wrong: `p->f` at a null pointer or at an end iterator, `v[i]` out of range, `/ 0`, and a
-- `memcpy` between bytes that overlap.
pub data Fault : Type 0 where
  null_pointer end_iterator out_of_range division_by_zero overlapping_memcpy : Fault

pub data Exec {ℓ} (A : Type ℓ) : Type ℓ where
  ok : A → Exec A
  fault : Fault → Exec A

infixl 5 ◌>>=◌
abbrev pub ◌>>=◌ {ℓ κ} : {A : Type ℓ} {B : Type κ} → Exec A → (A → Exec B) → Exec B
ok a >>= f = f a
fault e >>= f = fault e

-- Reading through what may be no object.
abbrev pub deref {ℓ} : {A : Type ℓ} → Option A → Fault → Exec A
deref none e = fault e
deref (some a) e = ok a

pub bind-eq-ok {ℓ κ} :
    {A : Type ℓ} {B : Type κ} (m : Exec A) (f : A → Exec B) {b : B}
    → (m >>= f) ≡ ok b
    → (a : A) × (m ≡ ok a) × (f a ≡ ok b)
bind-eq-ok (ok a) f h = (a, refl, h)
bind-eq-ok (fault e) f h = cc

pub bind-eq-fault {ℓ κ} :
    {A : Type ℓ} {B : Type κ} (m : Exec A) (f : A → Exec B) {e : Fault}
    → (m >>= f) ≡ fault e
    → (m ≡ fault e) ⊎ ((a : A) × (m ≡ ok a) × (f a ≡ fault e))
bind-eq-fault (ok a) f h = inr (a, refl, h)
bind-eq-fault (fault e) f h = inl cc
