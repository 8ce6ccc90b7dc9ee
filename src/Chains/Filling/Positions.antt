-- ===== src/Chains/Filling/Positions.antt =====
-- The position that a loop of src/chain/utils.rs ends at.
use kalatori_backend.Prelude.{
  ℕ, zero, suc, ◌≡◌, refl, Bool, true, false, Option, none, some, List, [], ◌∷◌, some-inj, ap, ◌⊎◌,
  inl, inr, if◌then◌else◌, Bool-cases, arith, Mem, here, there,
}
use kalatori_backend.Chains.Filling.{next_index, find_index}

-- the element at a position
abbrev pub At : {A : Type 0} → List A → ℕ → A → Type 0
At [] n a = ⊥
At (x ∷ rest) zero a = x ≡ a
At (x ∷ rest) (suc n) a = At rest n a

next_index-some : (found : Option ℕ) (j : ℕ) → next_index found ≡ some (suc j) → found ≡ some j
unfolding next_index
next_index-some none j e = ground arith
next_index-some (some i) j e = ap some (ground arith)

next_index-zero : (found : Option ℕ) → next_index found ≡ some zero → ⊥
unfolding next_index
next_index-zero none e = ground arith
next_index-zero (some i) e = ground arith

first-At :
    {A : Type 0} (p : A → Bool) (x : A) (rest : List A) (i : ℕ)
    → zero ≡ i
    → p x ≡ true
    → (a : A) × At (x ∷ rest) i a × (p a ≡ true)
first-At p x rest zero e holds = (x, refl, holds)
first-At p x rest (suc i) e holds = ground arith

or_later :
    {A : Type 0} (p : A → Bool) (x : A) (rest : List A) (i : ℕ)
    → (if p x then some 0 else next_index (find_index p rest)) ≡ some i
    → (p x ≡ true) ⊎ (p x ≡ false)
    → ((j : ℕ) → find_index p rest ≡ some j → (a : A) × At rest j a × (p a ≡ true))
    → (a : A) × At (x ∷ rest) i a × (p a ≡ true)
or_later p x rest i e (inl holds) found = first-At p x rest i (some-inj (rw holds at e)) holds
or_later p x rest zero e (inr further) found =
    absurd (next_index-zero (find_index p rest) (rw further at e))
or_later p x rest (suc j) e (inr further) found =
    found j (next_index-some (find_index p rest) j (rw further at e))

pub find_index-At :
    {A : Type 0} (p : A → Bool) (xs : List A) (i : ℕ)
    → find_index p xs ≡ some i
    → (a : A) × At xs i a × (p a ≡ true)
unfolding find_index
find_index-At p [] i e = ground arith
find_index-At p (x ∷ rest) i e = or_later p x rest i e (Bool-cases (p x)) (find_index-At p rest)

pub find_index-some :
    {A : Type 0} (p : A → Bool) (xs : List A) (a : A)
    → Mem a xs
    → p a ≡ true
    → (i : ℕ) × (find_index p xs ≡ some i)
unfolding find_index next_index
find_index-some p [] a m h = elim m [ ]
find_index-some p (x ∷ rest) a (here e) h = (0, rw e (rw h refl))
find_index-some p (x ∷ rest) a (there m) h =
    let (i, found) = find_index-some p rest a m h in
    elim (Bool-cases (p x)) [
      | inl is_it ↦ (0, rw is_it refl)
      | inr other ↦ (suc i, rw other (rw found refl))
    ]
