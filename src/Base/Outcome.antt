-- ===== src/Base/Outcome.antt =====
-- Rust's `Result`, with `?` as the bind of a `do` block.
use mathlib.Core.Path.{◌≡◌, refl}
use mathlib.Core.Logic.{◌⊎◌, inl, inr}
use mathlib.Core.Bool.{Bool, true, false}

pub data Result {ℓ κ} (E : Type κ) (A : Type ℓ) : Type (ℓ ⊔ κ) where
  ok : A → Result E A
  err : E → Result E A

infixl 5 ◌>>=◌ ◌>>◌
abbrev pub ◌>>=◌ {κ ℓ μ} :
    {A : Type κ} {B : Type ℓ} {E : Type μ} → Result E A → (A → Result E B) → Result E B
err problem >>= after = err problem
ok value >>= after = after value

abbrev pub ◌>>◌ {κ μ} : {E : Type μ} {A : Type κ} → Result E (Unit {0}) → Result E A → Result E A
first >> second = first >>= λ done. second

-- `Err(e)?` on a failing test.
abbrev pub require {μ} : {E : Type μ} → Bool → E → Result E (Unit {0})
require true e = ok tt
require false e = err e

abbrev pub map_err {ℓ μ ν} :
    {E : Type μ} {F : Type ν} {A : Type ℓ} → (E → F) → Result E A → Result F A
map_err f (ok a) = ok a
map_err f (err e) = err (f e)

pub Result-cases {ℓ μ} :
    {E : Type μ} {A : Type ℓ} (r : Result E A) → ((a : A) × (r ≡ ok a)) ⊎ ((e : E) × (r ≡ err e))
Result-cases (ok a) = inl (a, refl)
Result-cases (err e) = inr (e, refl)

-- A chain that succeeds has a first step that does.
pub >>=-ok-parts {κ ℓ μ} :
    {A : Type κ} {B : Type ℓ} {E : Type μ} (first : Result E A) (after : A → Result E B) {value : B}
    → (first >>= after) ≡ ok value
    → (between : A) × (first ≡ ok between) × (after between ≡ ok value)
>>=-ok-parts (err problem) after succeeds = cc
>>=-ok-parts (ok between) after succeeds = (between, refl, succeeds)
