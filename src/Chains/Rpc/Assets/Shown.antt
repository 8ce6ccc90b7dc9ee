-- ===== src/Chains/Rpc/Assets/Shown.antt =====
-- What an asset that src/chain/rpc.rs keeps is known by.
use kalatori_backend.Prelude.{
  ℕ, String, ◌≡◌, refl, true, Bool-cases, inl, inr, Option, none, some, some-inj, List, [], ◌∷◌, ok,
  ok-inj, ap, subst, arith, Mem, here, there, str_eq, eq_iff, is_some, ◌&&◌, ◌⊎◌,
}
use kalatori_backend.Chains.Metadata.{
  ParsedView, primitive_bool, primitive_u8, primitive_u32, composite, Parser,
}
use kalatori_backend.Chains.Rpc.Assets.{
  KeyView, parsed, unparsed, several, AssetNames, asset_id_in, asset_id_of, flag, sufficient_in,
  verified_sufficient, field_text, number_u8, or_kept, see_field, names_in,
}

module _ {Ty Data : Type 0} (parser : Parser Ty Data) where
  -- a field of the name has a value of the view
  pub HasField : List (Option String × Data) → String → (ParsedView Data → Type 0) → Type 0
  HasField fields name P = (d : Data) × Mem (some name, d) fields × P (parser.view d)

  HasField-there :
      (f : Option String × Data) (fields : List (Option String × Data)) (name : String)
      (P : ParsedView Data → Type 0)
      → HasField fields name P
      → HasField (f ∷ fields) name P
  unfolding HasField
  HasField-there f fields name P (d, m, p) = (d, there m, p)

  asset_id_in-inv :
      (v : ParsedView Data) (id : ℕ) → asset_id_in parser v ≡ ok id → v ≡ primitive_u32 id
  unfolding asset_id_in
  asset_id_in-inv (primitive_u32 value) id e = ap primitive_u32 (ok-inj e)
  asset_id_in-inv _ id e = ground arith

  pub asset_id_of-inv :
      (key : KeyView Data) (id : ℕ)
      → asset_id_of parser key ≡ ok id
      → (d : Data) × (key ≡ parsed d) × (parser.view d ≡ primitive_u32 id)
  unfolding asset_id_of
  asset_id_of-inv (parsed d) id e = (d, refl, asset_id_in-inv (parser.view d) id e)
  asset_id_of-inv unparsed id e = ground arith
  asset_id_of-inv several id e = ground arith

  flag-inv : (v : ParsedView Data) → flag parser v ≡ true → v ≡ primitive_bool true
  unfolding flag
  flag-inv (primitive_bool is_it) e = ap primitive_bool e
  flag-inv _ e = ground arith

  sufficient_in-inv :
      (fields : List (Option String × Data))
      → sufficient_in parser fields ≡ true
      → HasField fields "is_sufficient" (λ v. v ≡ primitive_bool true)
  unfolding sufficient_in HasField
  sufficient_in-inv [] e = ground arith
  sufficient_in-inv ((none, d) ∷ rest) e =
      HasField-there (none, d) rest _ (λ v. v ≡ primitive_bool true) (sufficient_in-inv rest e)
  sufficient_in-inv ((some name, d) ∷ rest) e = elim (Bool-cases (str_eq name "is_sufficient")) [
    | inl is_it ↦ (
      d,
      rw ((eq_iff name "is_sufficient").0 is_it) (here refl),
      flag-inv (parser.view d) (rw is_it at e),
    )
    | inr other ↦
        HasField-there (some name, d) rest _ (λ v. v ≡ primitive_bool true)
          (sufficient_in-inv rest (rw other at e))
  ]

  pub verified_sufficient-inv :
      (v : ParsedView Data)
      → verified_sufficient parser v ≡ true
      → (fields : List (Option String × Data)) × (v ≡ composite fields)
        × HasField fields "is_sufficient" (λ is_it. is_it ≡ primitive_bool true)
  unfolding verified_sufficient
  verified_sufficient-inv (composite fields) e = (fields, refl, sufficient_in-inv fields e)
  verified_sufficient-inv _ e = ground arith

  -- what is found of an asset is shown by some fields
  pub record Shows (all : List (Option String × Data)) (n : AssetNames) : Type 0 where
    pub by_symbol :
        (s : String) → n.symbol ≡ some s → HasField all "symbol" (λ v. field_text parser v ≡ some s)
    pub by_decimals :
        (k : ℕ) → n.decimals ≡ some k → HasField all "decimals" (λ v. v ≡ primitive_u8 k)

  number_u8-inv : (v : ParsedView Data) (k : ℕ) → number_u8 parser v ≡ some k → v ≡ primitive_u8 k
  unfolding number_u8
  number_u8-inv (primitive_u8 value) k e = ap primitive_u8 (some-inj e)
  number_u8-inv _ k e = ground arith

  -- a value that was found now, or before
  or_kept-inv :
      {A : Type 0} (found kept : Option A) (a : A)
      → or_kept parser found kept ≡ some a
      → (found ≡ some a) ⊎ (kept ≡ some a)
  unfolding or_kept
  or_kept-inv none kept a e = inr e
  or_kept-inv (some b) kept a e = inl e

  see_symbol-Shows :
      (all : List (Option String × Data)) (d : Data) (n : AssetNames)
      → Mem (some "symbol", d) all
      → Shows all n
      → Shows all
          (record n { symbol = or_kept parser (field_text parser (parser.view d)) n.symbol })
  unfolding HasField
  see_symbol-Shows all d n m shows = record {
    by_symbol = λ s e. elim (or_kept-inv (field_text parser (parser.view d)) n.symbol s e) [
      | inl now ↦ (d, m, now)
      | inr before ↦ shows.by_symbol s before
    ];
    by_decimals = shows.by_decimals;
  }

  see_decimals-Shows :
      (all : List (Option String × Data)) (d : Data) (n : AssetNames)
      → Mem (some "decimals", d) all
      → Shows all n
      → Shows all
          (record n { decimals = or_kept parser (number_u8 parser (parser.view d)) n.decimals })
  unfolding HasField
  see_decimals-Shows all d n m shows = record {
    by_symbol = shows.by_symbol;
    by_decimals = λ k e. elim (or_kept-inv (number_u8 parser (parser.view d)) n.decimals k e) [
      | inl now ↦ (d, m, number_u8-inv (parser.view d) k now)
      | inr before ↦ shows.by_decimals k before
    ];
  }

  renamed :
      (all : List (Option String × Data)) (d : Data) (name known : String)
      → str_eq name known ≡ true
      → Mem (some name, d) all
      → Mem (some known, d) all
  renamed all d name known same m = subst (λ x. Mem (some x, d) all) ((eq_iff name known).0 same) m

  see_field-Shows :
      (all : List (Option String × Data)) (f : Option String) (d : Data) (n : AssetNames)
      → Mem (f, d) all
      → Shows all n
      → Shows all (see_field parser f (parser.view d) n)
  unfolding see_field
  see_field-Shows all none d n m shows = shows
  see_field-Shows all (some f) d n m shows = elim (Bool-cases (str_eq f "name")) [
    | inl is_name ↦
        rw is_name (record { by_symbol = shows.by_symbol; by_decimals = shows.by_decimals })
    | inr other ↦ elim (Bool-cases (str_eq f "symbol")) [
      | inl is_symbol ↦
          rw other
            (rw is_symbol (see_symbol-Shows all d n (renamed all d f "symbol" is_symbol m) shows))
      | inr other' ↦ elim (Bool-cases (str_eq f "decimals")) [
        | inl is_decimals ↦ rw other (
            rw other' (
              rw is_decimals
                (see_decimals-Shows all d n (renamed all d f "decimals" is_decimals m) shows)))
        | inr other'' ↦ rw other (rw other' (rw other'' shows))
      ]
    ]
  ]

  names_in-Shows :
      (all fields : List (Option String × Data)) (n : AssetNames)
      → ((f : Option String × Data) → Mem f fields → Mem f all)
      → Shows all n
      → Shows all (names_in parser fields n)
  unfolding names_in
  names_in-Shows all [] n among shows = shows
  names_in-Shows all ((f, d) ∷ rest) n among shows =
      let n' = see_field parser f (parser.view d) n in
      let shows' = see_field-Shows all f d n (among (f, d) (here refl)) shows in
      elim (Bool-cases (is_some n'.name && is_some n'.symbol && is_some n'.decimals)) [
        | inl done ↦ rw done shows'
        | inr goes_on ↦ rw goes_on (names_in-Shows all rest n' (λ g h. among g (there h)) shows')
      ]

  -- the fields of an asset show what is found in them
  pub names_in_lem :
      (fields : List (Option String × Data))
      → Shows fields
          (names_in parser fields (record { name = none; symbol = none; decimals = none }))
  names_in_lem fields =
      names_in-Shows fields fields _ (λ f m. m)
        (record { by_symbol = λ s e. ground arith; by_decimals = λ k e. ground arith })
