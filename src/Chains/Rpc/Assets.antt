-- ===== src/Chains/Rpc/Assets.antt =====
-- `assets_set_at_block` of src/chain/rpc.rs: the currencies of a chain at a block.
pub mod Shown
use kalatori_backend.Prelude.{
  ℕ, String, Bool, false, ◌&&◌, Option, none, some, List, [], ◌∷◌, Result, ok, err, if◌then◌else◌,
  is_some, str_eq,
}
use kalatori_backend.Errors.{
  ChainError, asset_id_format, asset_key_empty, asset_key_not_single_hash,
}
use kalatori_backend.Chains.Metadata.{
  StorageEntry, PalletStorage, Pallet, ParsedView, primitive_bool, primitive_u8, primitive_u32,
  text, sequence_u8, composite, Parser,
}

-- The key of a storage entry, as a match on `KeyData` and `KeyPart` sees it.
pub data KeyView (Data : Type 0) : Type 0 where
  parsed : Data → KeyView Data
  unparsed several : KeyView Data

-- The storage of the first pallet with a prefix.
unfoldable pub or_further :
    {Ty : Type 0}
    → String
    → Option (PalletStorage Ty)
    → Option (PalletStorage Ty)
    → Option (PalletStorage Ty)
or_further prefix none further = further
or_further prefix (some storage) further =
    if str_eq storage.prefix prefix then some storage else further

unfoldable pub storage_with : {Ty : Type 0} → String → List (Pallet Ty) → Option (PalletStorage Ty)
unfolding or_further
storage_with prefix [] = none
storage_with prefix (p ∷ rest) = or_further prefix p.storage (storage_with prefix rest)

latest :
    {Ty : Type 0} → String → StorageEntry Ty → Option (StorageEntry Ty) → Option (StorageEntry Ty)
latest name e found = if str_eq e.name name then some e else found

-- the loop over the entries, with what is found of both
entries_in :
    {Ty : Type 0}
    → List (StorageEntry Ty)
    → Option (StorageEntry Ty)
    → Option (StorageEntry Ty)
    → Option (StorageEntry Ty) × Option (StorageEntry Ty)
unfolding latest
entries_in [] asset meta = (asset, meta)
entries_in (e ∷ rest) asset meta =
    let asset' = latest "Asset" e asset in
    let meta' = latest "Metadata" e meta in
    let further = entries_in rest asset' meta' in
    if is_some asset' && is_some meta' then (asset', meta') else further

unfoldable pub entries_of :
    {Ty : Type 0} → Option (PalletStorage Ty) → Option (StorageEntry Ty) × Option (StorageEntry Ty)
unfolding entries_in
entries_of none = (none, none)
entries_of (some storage) = entries_in storage.entries none none

-- what is found in the metadata of an asset
pub record AssetNames : Type 0 where
  pub name : Option String
  pub symbol : Option String
  pub decimals : Option ℕ

module _ {Ty Data : Type 0} (parser : Parser Ty Data) where
  asset_id_in : ParsedView Data → Result ChainError ℕ
  asset_id_in (primitive_u32 value) = ok value
  asset_id_in _ = err asset_id_format

  unfoldable pub asset_id_of : KeyView Data → Result ChainError ℕ
  unfolding asset_id_in
  asset_id_of (parsed d) = asset_id_in (parser.view d)
  asset_id_of unparsed = err asset_key_empty
  asset_id_of several = err asset_key_not_single_hash

  flag : ParsedView Data → Bool
  flag (primitive_bool is_it) = is_it
  flag _ = false

  -- the loop over the fields of an asset
  sufficient_in : List (Option String × Data) → Bool
  unfolding flag
  sufficient_in [] = false
  sufficient_in ((none, d) ∷ rest) = sufficient_in rest
  sufficient_in ((some name, d) ∷ rest) =
      let further = sufficient_in rest in
      if str_eq name "is_sufficient" then flag (parser.view d) else further

  unfoldable pub verified_sufficient : ParsedView Data → Bool
  unfolding sufficient_in
  verified_sufficient (composite fields) = sufficient_in fields
  verified_sufficient _ = false

  plain_text : ParsedView Data → Option String
  plain_text (text t) = some t
  plain_text (sequence_u8 decoded) = decoded
  plain_text _ = none

  -- the text of a field, which may be wrapped in a single field
  pub field_text : ParsedView Data → Option String
  unfolding plain_text
  field_text (composite ((name, d) ∷ [])) = plain_text (parser.view d)
  field_text (text t) = some t
  field_text (sequence_u8 decoded) = decoded
  field_text _ = none

  number_u8 : ParsedView Data → Option ℕ
  number_u8 (primitive_u8 value) = some value
  number_u8 _ = none

  or_kept : {A : Type 0} → Option A → Option A → Option A
  or_kept none kept = kept
  or_kept (some a) kept = some a

  see_field : Option String → ParsedView Data → AssetNames → AssetNames
  unfolding field_text number_u8 or_kept
  see_field none d n = n
  see_field (some field_name) d n =
      if str_eq field_name "name"
      then record n { name = or_kept (field_text d) n.name }
      else if str_eq field_name "symbol"
      then record n { symbol = or_kept (field_text d) n.symbol }
      else if str_eq field_name "decimals"
      then record n { decimals = or_kept (number_u8 d) n.decimals }
      else n

  -- the loop over the fields, until all is found
  unfoldable pub names_in : List (Option String × Data) → AssetNames → AssetNames
  unfolding see_field
  names_in [] n = n
  names_in ((field_name, d) ∷ rest) n =
      let n' = see_field field_name (parser.view d) n in
      let further = names_in rest n' in
      if is_some n'.name && is_some n'.symbol && is_some n'.decimals then n' else further
