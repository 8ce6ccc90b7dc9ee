-- ===== src/Prelude/Exec.antt =====
-- A step over a state that may fail. What was written before a failure stays written, so the state
-- comes back beside the error too.
use mathlib.Core.Path.{◌≡◌, refl, ap}
use native.Mathlib.Omega.{arith}
use package.kalatori_backend.Prelude.Results.{Result, ok, err}

abbrev pub Exec {ℓ} : Type ℓ → Type ℓ → Type ℓ → Type ℓ
Exec S E A = S → Result E A × S

module _ {ℓ} {S E A : Type ℓ} where
  abbrev pub pure : A → Exec S E A
  pure a s = (ok a, s)

  abbrev pub raise : E → Exec S E A
  raise e s = (err e, s)

  abbrev pub lift : Result E A → Exec S E A
  lift r s = (r, s)

module _ {ℓ} {S E A B : Type ℓ} where
  abbrev pub continue : Result E A → (A → Exec S E B) → Exec S E B
  continue (ok a) f s = f a s
  continue (err e) f s = (err e, s)

  infixl 5 ◌>>=◌ ◌>>◌
  abbrev pub ◌>>=◌ : Exec S E A → (A → Exec S E B) → Exec S E B
  ◌>>=◌ m f s = let (r, s') = m s in continue r f s'

  abbrev pub ◌>>◌ : Exec S E A → Exec S E B → Exec S E B
  m >> n = m >>= λ _. n

  pub bind-ok :
      (m : Exec S E A) (f : A → Exec S E B) (s : S) {s' : S} {a : A}
      → m s ≡ (ok a, s')
      → (m >>= f) s ≡ f a s'
  bind-ok m f s h = ap (λ (x : Result E A × S). continue x.0 f x.1) h

  continue-inv :
      (r : Result E A) (f : A → Exec S E B) (s : S) (b : B)
      → (continue r f s).0 ≡ ok b
      → (a : A) × (r ≡ ok a) × ((f a s).0 ≡ ok b)
  continue-inv (ok a) f s b h = (a, refl, h)
  continue-inv (err e) f s b h = ground arith

  -- what a step that succeeds is made of
  pub exec-inv :
      (m : Exec S E A) (f : A → Exec S E B) (s : S) (b : B)
      → ((m >>= f) s).0 ≡ ok b
      → (a : A) × ((m s).0 ≡ ok a) × ((f a (m s).1).0 ≡ ok b)
  exec-inv m f s b h = continue-inv (m s).0 f (m s).1 b h
