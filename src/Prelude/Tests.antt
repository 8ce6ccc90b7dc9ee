-- ===== src/Prelude/Tests.antt =====
-- Boolean tests on the native numbers, the conditional, and case splits that keep an equation.
use Prim.Native.Nat.{ℕ, suc, compare, Ordering}
use mathlib.Core.Path.{◌≡◌, refl, subst}
use mathlib.Core.Logic.{◌⊎◌, inl, inr}
use mathlib.Core.Bool.{Bool, true, false}
use mathlib.Core.Option.{Option, none, some}
use mathlib.Core.List.{List, [], ◌∷◌, ◌++◌}

abbrev pub ltb : ℕ → ℕ → Bool
ltb a b = elim (compare a b) [ Ordering.lt ↦ true | _ ↦ false ]

abbrev pub leb : ℕ → ℕ → Bool
leb a b = elim (compare a b) [ Ordering.gt ↦ false | _ ↦ true ]

infix 50 ◌==◌
abbrev pub ◌==◌ : ℕ → ℕ → Bool
a == b = elim (compare a b) [ Ordering.eq ↦ true | _ ↦ false ]

infix 1 if◌then◌else◌
abbrev pub if◌then◌else◌ {ℓ} : {A : Type ℓ} → Bool → A → A → A
if true then x else y = x
if false then x else y = y

pub Bool-cases : (b : Bool) → (b ≡ true) ⊎ (b ≡ false)
Bool-cases true = inl refl
Bool-cases false = inr refl

pub Option-cases {ℓ} : {A : Type ℓ} (o : Option A) → (o ≡ none) ⊎ ((a : A) × (o ≡ some a))
Option-cases none = inl refl
Option-cases (some a) = inr (a, refl)

abbrev pub is_some {ℓ} : {A : Type ℓ} → Option A → Bool
is_some none = false
is_some (some a) = true

abbrev pub length {ℓ} : {A : Type ℓ} → List A → ℕ
length [] = 0
length (x ∷ xs) = suc (length xs)

-- `iter().any`
abbrev pub any {ℓ} : {A : Type ℓ} → (A → Bool) → List A → Bool
any p [] = false
any p (x ∷ xs) = if p x then true else any p xs

-- A predicate that holds of every item.
abbrev pub All {ℓ κ} : {A : Type ℓ} → (A → Type κ) → List A → Type κ
All P [] = Unit
All P (x ∷ xs) = P x × All P xs

pub All-++ {ℓ κ} :
    {A : Type ℓ} (P : A → Type κ) (xs ys : List A) → All P xs → All P ys → All P (xs ++ ys)
All-++ P [] ys p q = q
All-++ P (x ∷ xs) ys (p, ps) q = (p, All-++ P xs ys ps q)

pub All-imp {ℓ κ μ} :
    {A : Type ℓ} (P : A → Type κ) (Q : A → Type μ) (xs : List A)
    → ((x : A) → P x → Q x)
    → All P xs
    → All Q xs
All-imp P Q [] f p = tt
All-imp P Q (x ∷ xs) f (p, ps) = (f x p, All-imp P Q xs f ps)

-- An item of a list.
pub data Mem {ℓ} {A : Type ℓ} (x : A) : List A → Type ℓ where
  here : {y : A} {ys : List A} → y ≡ x → Mem x (y ∷ ys)
  there : {y : A} {ys : List A} → Mem x ys → Mem x (y ∷ ys)

pub All-Mem {ℓ κ} : {A : Type ℓ} (P : A → Type κ) {x : A} (xs : List A) → All P xs → Mem x xs → P x
All-Mem P [] p m = elim m [ ]
All-Mem P (y ∷ xs) (p, ps) (here e) = subst P e p
All-Mem P (y ∷ xs) (p, ps) (there m) = All-Mem P xs ps m

pub some-inj {ℓ} : {A : Type ℓ} {a b : A} → Path (Option A) (some a) (some b) → a ≡ b
some-inj h = cc h
