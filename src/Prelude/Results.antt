-- ===== src/Prelude/Results.antt =====
-- Rust's `Result`, the `?` operator as `◌>>=◌`, and `map_err`.
use mathlib.Core.Path.{◌≡◌, refl, ap}
use mathlib.Core.Logic.{◌⊎◌, inl, inr}
use mathlib.Core.Option.{Option, none, some}
use native.Mathlib.Omega.{arith}

pub data Result {ℓ κ} (E : Type κ) (A : Type ℓ) : Type (ℓ ⊔ κ) where
  ok : A → Result E A
  err : E → Result E A

infixl 5 ◌>>=◌
abbrev pub ◌>>=◌ {ℓ κ μ} :
    {E : Type κ} {A : Type ℓ} {B : Type μ} → Result E A → (A → Result E B) → Result E B
ok a >>= f = f a
err e >>= f = err e

abbrev pub map_err {ℓ κ μ} :
    {E : Type κ} {F : Type μ} {A : Type ℓ} → (E → F) → Result E A → Result F A
map_err f (ok a) = ok a
map_err f (err e) = err (f e)

abbrev pub ok_or {ℓ κ} : {E : Type κ} {A : Type ℓ} → Option A → E → Result E A
ok_or none e = err e
ok_or (some a) e = ok a

-- `Result::ok`
abbrev pub to_option {ℓ κ} : {E : Type κ} {A : Type ℓ} → Result E A → Option A
to_option (ok a) = some a
to_option (err e) = none

pub Result-cases {ℓ κ} :
    {E : Type κ} {A : Type ℓ} (r : Result E A) → ((a : A) × (r ≡ ok a)) ⊎ ((e : E) × (r ≡ err e))
Result-cases (ok a) = inl (a, refl)
Result-cases (err e) = inr (e, refl)

pub bind-inv {ℓ κ μ} :
    {E : Type κ} {A : Type ℓ} {B : Type μ} (r : Result E A) (f : A → Result E B) (b : B)
    → (r >>= f) ≡ ok b
    → (a : A) × (r ≡ ok a) × (f a ≡ ok b)
bind-inv (ok a) f b h = (a, refl, h)
bind-inv (err e) f b h = ground arith

pub ok-inj {ℓ κ} : {E : Type κ} {A : Type ℓ} {a b : A} → Path (Result E A) (ok a) (ok b) → a ≡ b
ok-inj h = cc h

pub ok_or-inv {ℓ κ} :
    {E : Type κ} {A : Type ℓ} (o : Option A) (e : E) (a : A) → ok_or o e ≡ ok a → o ≡ some a
ok_or-inv none e a h = ground arith
ok_or-inv (some b) e a h = ap some (ok-inj h)

pub map_err-inv {ℓ κ μ} :
    {E : Type κ} {F : Type μ} {A : Type ℓ} (f : E → F) (r : Result E A) (a : A)
    → map_err f r ≡ ok a
    → r ≡ ok a
map_err-inv f (ok b) a h = ap ok (ok-inj h)
map_err-inv f (err e) a h = ground arith
