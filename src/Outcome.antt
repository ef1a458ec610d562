-- ===== src/Outcome.antt =====
-- What a step of the collector ends in: a result, or a fault at which the C++ program has no defined
-- behaviour.
use int_platform_dpdk.Base.{◌≡◌, refl}

pub data Fault : Type 0 where
  out_of_bounds : Fault
  div_by_zero : Fault
  signed_overflow : Fault
  not_representable : Fault

pub data Outcome {ℓ} (Val : Type ℓ) : Type ℓ where
  fault : Fault → Outcome Val
  ok : Val → Outcome Val

-- What comes after a fault is not run.
infixl 5 ◌>>=◌
abbrev pub ◌>>=◌ {ℓ μ} :
    {Val : Type ℓ} {Out : Type μ} → Outcome Val → (Val → Outcome Out) → Outcome Out
fault why >>= after = fault why
ok val >>= after = after val

pub >>=_assoc {ℓ μ ν} :
    {Val : Type ℓ} {Mid : Type μ} {Out : Type ν} (m : Outcome Val) (f : Val → Outcome Mid)
    (g : Mid → Outcome Out)
    → (m >>= f >>= g) ≡ (m >>= λ val. f val >>= g)
>>=_assoc (fault why) f g = refl
>>=_assoc (ok val) f g = refl

pub >>=_cong {ℓ μ} :
    {Val : Type ℓ} {Out : Type μ} (m : Outcome Val) (f g : Val → Outcome Out)
    → ((val : Val) → f val ≡ g val)
    → (m >>= f) ≡ (m >>= g)
>>=_cong (fault why) f g h = refl
>>=_cong (ok val) f g h = h val

pub ok-injective {ℓ} : {A : Type ℓ} {a b : A} → ok a ≡ ok b → a ≡ b
ok-injective h = cc
