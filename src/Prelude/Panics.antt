-- ===== src/Prelude/Panics.antt =====
-- A computation that may panic: an `unwrap`, an `expect`, an `unreachable!` or a const-eval error.
use mathlib.Core.Path.{◌≡◌, refl}

pub data Outcome {ℓ} (A : Type ℓ) : Type ℓ where
  ok : A → Outcome A
  panic : Outcome A

infixl 5 ◌>>=◌
abbrev pub ◌>>=◌ {ℓ κ} : {A : Type ℓ} {B : Type κ} → Outcome A → (A → Outcome B) → Outcome B
ok a >>= f = f a
panic >>= f = panic

pub >>=-assoc {ℓ κ μ} :
    {A : Type ℓ} {B : Type κ} {C : Type μ} (m : Outcome A) (f : A → Outcome B) (g : B → Outcome C)
    → ◌>>=◌ {B = C} m (λ a. f a >>= g) ≡ (m >>= f) >>= g
>>=-assoc (ok a) f g = refl
>>=-assoc panic f g = refl

-- A bind that does not panic has two parts that do not.
pub >>=-eq-ok {ℓ κ} :
    {A : Type ℓ} {B : Type κ} {out : B} (o : Outcome A) (rest : A → Outcome B)
    → (o >>= rest) ≡ ok out
    → (mid : A) × (o ≡ ok mid) × (rest mid ≡ ok out)
>>=-eq-ok panic rest h = cc
>>=-eq-ok (ok mid) rest h = (mid, refl, h)
