-- ===== src/Prelude/Results.antt =====
-- What a C function does: it returns, or the machine stops in one of a few ways.
use mathlib.Core.Path.{◌≡◌, refl, subst}
use mathlib.Core.Bool.{Bool, true, false}
use ymirc.Prelude.Tests.{if◌then◌else◌}

pub data Stop : Type 0 where
  panicked : Stop  -- `panic` was called, which does not return
  aborted : Stop  -- `svm_vcpu_abort` was called, which does not return
  undefined : Stop  -- an access out of range, or another act that C leaves undefined
  out_of_fuel : Stop  -- the model gave a loop too few rounds

pub data Outcome {ℓ} (A : Type ℓ) : Type ℓ where
  done : A → Outcome A
  stop : Stop → Outcome A

infixl 5 ◌>>=◌ ◌>>◌
abbrev pub ◌>>=◌ {ℓ κ} : {A : Type ℓ} {B : Type κ} → Outcome A → (A → Outcome B) → Outcome B
done a >>= f = f a
stop r >>= f = stop r

abbrev pub ◌>>◌ {ℓ κ} : {A : Type ℓ} {B : Type κ} → Outcome A → Outcome B → Outcome B
m >> k = m >>= λ _. k

-- Inversion of a bind that returns, for proofs where the parts stay shut.
pub bind-eq-done {ℓ κ} :
    {A : Type ℓ} {B : Type κ} (m : Outcome A) (f : A → Outcome B) {b : B}
    → (m >>= f) ≡ done b
    → (a : A) × (m ≡ done a) × (f a ≡ done b)
bind-eq-done (done a) f h = (a, refl, h)
bind-eq-done (stop r) f h = cc

pub done-injective {ℓ} : {A : Type ℓ} {a b : A} → done a ≡ done b → a ≡ b
done-injective h = cc

-- What holds of the result, if there is one.
abbrev pub OnDone {ℓ κ} : {A : Type ℓ} → (A → Type κ) → Outcome A → Type κ
OnDone P (done a) = P a
OnDone P (stop r) = Unit

pub OnDone-if {ℓ κ} :
    {A : Type ℓ} (P : A → Type κ) (b : Bool) (x y : Outcome A)
    → OnDone P x
    → OnDone P y
    → OnDone P (if b then x else y)
OnDone-if P true x y hx hy = hx
OnDone-if P false x y hx hy = hy

pub OnDone_elim {ℓ κ} :
    {A : Type ℓ} (P : A → Type κ) (x : Outcome A) {a : A} → OnDone P x → x ≡ done a → P a
OnDone_elim P (done b) h e = subst P (done-injective e) h
OnDone_elim P (stop r) h e = cc

pub OnDone-intro {ℓ κ} :
    {A : Type ℓ} (P : A → Type κ) (x : Outcome A) → ((a : A) → x ≡ done a → P a) → OnDone P x
OnDone-intro P (done a) h = h a refl
OnDone-intro P (stop r) h = tt

-- `OnDone-if` where the branches need the test.
pub OnDone-cases {ℓ κ} :
    {A : Type ℓ} (P : A → Type κ) (b : Bool) (x y : Outcome A)
    → (b ≡ true → OnDone P x)
    → (b ≡ false → OnDone P y)
    → OnDone P (if b then x else y)
OnDone-cases P true x y hx hy = hx refl
OnDone-cases P false x y hx hy = hy refl
