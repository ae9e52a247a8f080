-- ===== src/Errors.antt =====
-- lib/private/errors.js: the codes of `PrivateRouteError`, and a call that returns or throws one.
use mathlib.Core.Path.{◌≡◌, transport, ap}
use hyperdht.Prelude.{Bool, true, false, refl, if◌then◌else◌, ◌⊎◌, inl, inr}

pub data Error : Type 0 where
  invalid_identity invalid_key invalid_role invalid_route invalid_descriptor unauthorized : Error
  replay counter_invalid counter_gap counter_exhausted cell_invalid circuit_limit : Error
  circuit_state route_unavailable virtual_limit : Error
  privacy_unavailable private_branch_rotating incompatible_relay authentication err_replay : Error
  busy quota_exceeded private_records_unavailable private_guard_unavailable destroyed : Error

-- The outcome of a call: it throws an error or returns a value.
pub data Result {ℓ} (A : Type ℓ) : Type ℓ where
  err : Error → Result A
  ok : A → Result A

infixl 5 ◌>>=◌
abbrev pub ◌>>=◌ {ℓ κ} : {A : Type ℓ} {B : Type κ} → Result A → (A → Result B) → Result B
err thrown >>= next = err thrown
ok value >>= next = next value

infixl 5 ◌>>◌
-- A check that returns nothing, and what follows it.
abbrev pub ◌>>◌ {ℓ} : {B : Type ℓ} → Result (Unit {0}) → Result B → Result B
check >> rest = check >>= λ _. rest

-- A call returns or throws.
pub Result-cases :
    {A : Type 0} (r : Result A) → ((a : A) × (r ≡ ok a)) ⊎ ((e : Error) × (r ≡ err e))
Result-cases (ok a) = inl (a, refl)
Result-cases (err e) = inr (e, refl)

-- What holds of the result of a call that returns.
abbrev pub Ensures {ℓ κ} : {A : Type ℓ} → (A → Type κ) → Result A → Type κ
Ensures P (ok a) = P a
Ensures P (err e) = Unit

pub bind-Ensures {ℓ κ μ} :
    {A : Type ℓ} {B : Type κ} (P : B → Type μ) (x : Result A) (f : A → Result B)
    → ((a : A) → Ensures P (f a))
    → Ensures P (x >>= f)
bind-Ensures P (ok a) f k = k a
bind-Ensures P (err e) f k = tt

pub ensured {ℓ κ} :
    {A : Type ℓ} (P : A → Type κ) (x : Result A) (a : A) → Ensures P x → x ≡ ok a → P a
ensured P x a p h = transport (ap (Ensures P) h) p

-- The same by a test, and by a test of the first step.
pub test-Ensures {ℓ κ} :
    {A : Type ℓ} (P : A → Type κ) (b : Bool) (x y : Result A)
    → (b ≡ true → Ensures P x)
    → (b ≡ false → Ensures P y)
    → Ensures P (if b then x else y)
test-Ensures P true x y h k = h refl
test-Ensures P false x y h k = k refl

pub first-Ensures {ℓ κ μ} :
    {A : Type ℓ} {B : Type κ} (P : B → Type μ) (b : Bool) (a : A) (f : A → Result B)
    → (b ≡ true → Ensures P (f a))
    → Ensures P ((if b then ok a else err invalid_route) >>= f)
first-Ensures P true a f h = h refl
first-Ensures P false a f h = tt
