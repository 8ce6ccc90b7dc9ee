-- ===== src/Chains/Filling.antt =====
-- src/chain/utils.rs: the calls and transactions that are filled in. A type to fill is one of another
-- crate: here is what the code sees of it. A variant that may be selected is a `Variant`.
pub mod Names
pub mod Calls
pub mod Transactions
pub mod Positions
pub mod Clearing
use kalatori_backend.Prelude.{
  ℕ, suc, String, Bool, true, false, not, Option, none, some, List, [], ◌∷◌, Result, ok, err, ◌>>=◌,
  if◌then◌else◌, str_eq,
}
use kalatori_backend.Errors.{ChainError}
use kalatori_backend.Definitions.{AccountId32}

-- `UnsignedToFill`, of which two widths are filled
pub data Unsigned : Type 0 where
  u32 u128 : Option ℕ → Unsigned
  other_width : Unsigned

-- `SpecialtyUnsignedInteger`
pub data Specialty : Type 0 where
  ordinary balance other_specialty : Specialty

pub data EraToFill : Type 0 where
  mortal : (period_entry : ℕ) (block_number_entry : Option ℕ) → EraToFill
  other_era : EraToFill

-- `TypeContentToFill`; the fields of a variant selector are those of the selected variant, which comes
-- with its index, and an unsigned number may be a compact one
mutual
  pub data Content (Variant : Type 0) : Type 0 where
    variant : List Variant → (selected : ℕ) → Fields Variant → Content Variant
    composite : Fields Variant → Content Variant
    tuple sequence_regular : Contents Variant → Content Variant
    account_id32 : Option AccountId32 → Content Variant
    era : EraToFill → Content Variant
    unsigned : (compact : Bool) → Unsigned → Specialty → Content Variant
    regular_bool : Option Bool → Content Variant
    unread : Content Variant

  pub data Fields (Variant : Type 0) : Type 0 where
    end : Fields Variant
    field : Option String → Content Variant → Fields Variant → Fields Variant

  pub data Contents (Variant : Type 0) : Type 0 where
    nil : Contents Variant
    content : Content Variant → Contents Variant → Contents Variant

-- The preparation of types by other crates, at the metadata of a chain.
pub record Filler (Variant : Type 0) : Type 0 where
  pub name : Variant → String
  -- `prepare_type`, of a call
  pub prepare_call : Result ChainError (Content Variant)
  -- `VariantSelector::new_at`: the fields of the variant with an index
  pub new_at : List Variant → ℕ → Result ChainError (Fields Variant)

next_index : Option ℕ → Option ℕ
next_index none = none
next_index (some i) = some (suc i)

-- the loops over the variants, up to the first that is wanted
unfoldable pub find_index : {A : Type 0} → (A → Bool) → List A → Option ℕ
unfolding next_index
find_index p [] = none
find_index p (x ∷ rest) = if p x then some 0 else next_index (find_index p rest)

module _ {Variant : Type 0} where
  -- what is filled in, where the type is the expected one
  unfoldable pub set_account : AccountId32 → Content Variant → Content Variant
  set_account a (account_id32 old) = account_id32 (some a)
  set_account a c = c

  unfoldable pub set_id : ℕ → Content Variant → Content Variant
  set_id id (unsigned compact (u32 old) ordinary) = unsigned compact (u32 (some id)) ordinary
  set_id id c = c

  unfoldable pub set_balance : ℕ → Content Variant → Content Variant
  set_balance amount (unsigned compact (u128 old) balance) =
      unsigned compact (u128 (some amount)) balance
  set_balance amount c = c

  unfoldable pub set_bool : Bool → Content Variant → Content Variant
  set_bool b (regular_bool old) = regular_bool (some b)
  set_bool b c = c

  -- the only field of a variant
  unfoldable pub only_field :
      (Content Variant → Result ChainError (Content Variant))
      → Fields Variant
      → Result ChainError (Fields Variant)
  only_field f (field name c end) = do c' ← f c; ok (field name c' end)
  only_field f fields = ok fields

  -- the loop over the fields that have a name
  unfoldable pub each_field :
      (String → Content Variant → Result ChainError (Content Variant))
      → Fields Variant
      → Result ChainError (Fields Variant)
  each_field f end = ok end
  each_field f (field none c rest) = do rest' ← each_field f rest; ok (field none c rest')
  each_field f (field (some name) c rest) = do
    c' ← f name c
    rest' ← each_field f rest
    ok (field (some name) c' rest')

module _ {Variant : Type 0} (filler : Filler Variant) where
  entered :
      (Fields Variant → Result ChainError (Fields Variant))
      → List Variant
      → ℕ
      → Fields Variant
      → Option ℕ
      → Result ChainError (Content Variant)
  entered fill available selected fields none = ok (variant available selected fields)
  entered fill available selected fields (some i) = do
    fresh ← filler.new_at available i
    filled ← fill fresh
    ok (variant available i filled)

  -- the first wanted variant of a selector is selected, and its fields are filled
  unfoldable pub enter :
      (Variant → Bool)
      → (Fields Variant → Result ChainError (Fields Variant))
      → Content Variant
      → Result ChainError (Content Variant)
  unfolding entered find_index
  enter wanted fill (variant available selected fields) =
      entered fill available selected fields (find_index wanted available)
  enter wanted fill c = ok c

  unfoldable pub is_variant : String → Variant → Bool
  is_variant name v = str_eq (filler.name v) name

  -- the account of an address
  unfoldable pub set_address : AccountId32 → Content Variant → Result ChainError (Content Variant)
  unfolding enter is_variant only_field set_account
  set_address a = enter (is_variant "Id") (only_field λ c. ok (set_account a c))
