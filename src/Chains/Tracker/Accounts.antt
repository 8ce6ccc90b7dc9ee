-- ===== src/Chains/Tracker/Accounts.antt =====
-- Which accounts a block takes off the watch list of src/chain/tracker.rs, and which orders it
-- reports as paid.
use kalatori_backend.Prelude.{
  String, ◌≡◌, refl, ap, subst, ◌∙◌, Bool, true, false, ◌&&◌, ◌||◌, Option, none, some, List, [],
  ◌∷◌, ◌++◌, Result, ok, err, if◌then◌else◌, leb, any, str_eq, eq_iff, arith, Bool-cases, inl, inr,
}
use kalatori_backend.Prelude.Map
use kalatori_backend.Prelude.Map.{Map, Distinct, get-remove}
use kalatori_backend.Errors.{ChainError}
use kalatori_backend.Definitions.{AccountId32, CurrencyProperties}
use kalatori_backend.Chains.{Invoice, check}
use kalatori_backend.Chains.Tracker.{
  on_transfer, on_death, remove_all, Block, funded, buried, see_transfer, see_death, see_all,
  process,
}

abbrev pub is_ok {ℓ κ} : {E : Type κ} {A : Type ℓ} → Result E A → Bool
is_ok (ok a) = true
is_ok (err e) = false

abbrev pub is_paid {ℓ} : {E : Type ℓ} → Result E Bool → Bool
is_paid (ok b) = b
is_paid (err e) = false

any-++ {ℓ} :
    {A : Type ℓ} (p : A → Bool) (xs ys : List A) → any p (xs ++ ys) ≡ (any p xs || any p ys)
any-++ p [] ys = refl
any-++ p (x ∷ xs) ys = ground (arith, any-++ p xs ys)

or_false : (b : Bool) → (b || false) ≡ b
or_false true = refl
or_false false = refl

listed : String → List String → Bool
listed j ids = any (λ id. str_eq id j) ids

get-remove_all {ℓ} :
    {V : Type ℓ} (ids : List String) (j : String) (m : Map V)
    → Map.get j (remove_all ids m) ≡ (if listed j ids then none else Map.get j m)
unfolding remove_all listed
get-remove_all [] j m = refl
get-remove_all (id ∷ ids) j m =
    ground (arith, get-remove_all ids j (Map.remove id m), get-remove id j m)

listed-funded :
    (id j : String) (r : Result ChainError Bool)
    → listed j (funded id r).removed ≡ (str_eq id j && is_paid r)
unfolding listed funded
listed-funded id j (ok true) = ground arith
listed-funded id j (ok false) = ground arith
listed-funded id j (err e) = ground arith

listed-buried :
    (id j : String) (r : Result ChainError Bool)
    → listed j (buried id r).removed ≡ (str_eq id j && is_ok r)
unfolding listed buried
listed-buried id j (ok true) = ground arith
listed-buried id j (ok false) = ground arith
listed-buried id j (err e) = ground arith

module _ {Event : Type 0} (received : AccountId32 → Event → Bool) (assets : Map CurrencyProperties)
    (b : Block Event) where
  -- An account is due at a block if it received a transfer and its order is paid, or if its death
  -- is not before the time of the block and its balance can be read.
  abbrev pub due : String → Invoice → Bool
  due id i =
      (any (received i.address) b.events && is_paid (check assets (b.client on_transfer id) i))
      || (leb b.now i.death && is_ok (check assets (b.client on_death id) i))

  abbrev pub still : String → Option Invoice → Option Invoice
  still id none = none
  still id (some i) = if due id i then none else some i

  owed : String → Option Invoice → Bool
  owed id none = false
  owed id (some i) = due id i

  listed-see_transfer :
      (id j : String) (i : Invoice)
      → listed j (see_transfer received assets b id i).removed ≡ (
          str_eq id j
          && any (received i.address) b.events
          && is_paid (check assets (b.client on_transfer id) i))
  unfolding see_transfer listed
  listed-see_transfer id j i =
      ground (arith, listed-funded id j (check assets (b.client on_transfer id) i))

  listed-see_death :
      (id j : String) (i : Invoice)
      → listed j (see_death received assets b id i).removed
        ≡ (str_eq id j && leb b.now i.death && is_ok (check assets (b.client on_death id) i))
  unfolding see_death listed
  listed-see_death id j i =
      ground (arith, listed-buried id j (check assets (b.client on_death id) i))

  listed-visit :
      (id j : String) (i : Invoice) (rest : List String)
      → listed j (
          (see_transfer received assets b id i).removed
          ++ (see_death received assets b id i).removed
          ++ rest)
        ≡ (str_eq id j && due id i || listed j rest)
  unfolding listed
  listed-visit id j i rest =
      let t = (see_transfer received assets b id i).removed in
      let d = (see_death received assets b id i).removed in
      let p : String → Bool = λ x. str_eq x j in
      any-++ p (t ++ d) rest
      ∙ ground (arith, any-++ p t d, listed-see_transfer id j i, listed-see_death id j i)

  -- the entry of another order is not touched, and a key occurs once
  owed-visit :
      (id j : String) (i : Invoice) (m : Map Invoice)
      → Map.get id m ≡ none
      → (str_eq id j && due id i || owed j (Map.get j m))
        ≡ owed j (if str_eq id j then some i else Map.get j m)
  unfolding owed
  owed-visit id j i m apart = elim (Bool-cases (str_eq id j)) [
    | inl same ↦
        let e = (eq_iff id j).0 same in
        let gone = subst (λ k. Map.get k m ≡ none) e apart in
        rw (same, gone) (rw (← e) (or_false (due id i)))
    | inr other ↦ rw other refl
  ]

  listed-see_all :
      (j : String) (m : Map Invoice)
      → Distinct m
      → listed j (see_all received assets b m).removed ≡ owed j (Map.get j m)
  unfolding see_all listed Map.get owed Distinct
  listed-see_all j [] d = refl
  listed-see_all j ((id, i) ∷ m) (apart, d) =
      listed-visit id j i (see_all received assets b m).removed
      ∙ ap (λ x. str_eq id j && due id i || x) (listed-see_all j m d)
      ∙ owed-visit id j i m apart

  still-owed :
      (j : String) (found : Option Invoice) → (if owed j found then none else found) ≡ still j found
  unfolding owed
  still-owed j none = ground arith
  still-owed j (some i) = refl

  pub process-settles :
      (j : String) (m : Map Invoice)
      → Distinct m
      → Map.get j (process received assets b m).watched ≡ still j (Map.get j m)
  unfolding process
  process-settles j m d =
      get-remove_all (see_all received assets b m).removed j m
      ∙ ap (λ x. if x then none else Map.get j m) (listed-see_all j m d)
      ∙ still-owed j (Map.get j m)
