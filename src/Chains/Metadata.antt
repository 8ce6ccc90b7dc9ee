-- ===== src/Chains/Metadata.antt =====
-- src/chain/utils.rs: what is read from the metadata of a chain. The metadata, its types and the data
-- that they decode are those of other crates: here is what the code sees of them.
pub mod Keys
pub mod Receipts
use kalatori_backend.Prelude.{
  ℕ, ◌^◌, String, Bool, true, false, Option, none, some, List, [], ◌∷◌, Result, ok, err, ◌>>=◌,
  to_option, map_err, if◌then◌else◌, ltb, ◌==◌, str_eq,
}
use kalatori_backend.Prelude.Lists.{list_eq}
use kalatori_backend.Errors.{
  ChainError, events_nonexistant, storage_entry_not_map, storage_entry_map_multiple,
  storage_key_not_u32, storage_key_not_found, no_pallet, registry_error,
}
use kalatori_backend.Hex.{Bytes, HexCoder}
use kalatori_backend.Definitions.{AccountId32}

pub data StorageHasher : Type 0 where
  blake2_128 blake2_256 blake2_128_concat twox_128 twox_256 twox_64_concat identity : StorageHasher

-- a type of the registry is `Ty`
pub data StorageEntryType (Ty : Type 0) : Type 0 where
  plain : Ty → StorageEntryType Ty
  map : List StorageHasher → (key value : Ty) → StorageEntryType Ty

pub record StorageEntry (Ty : Type 0) : Type 0 where
  pub name : String
  pub ty : StorageEntryType Ty

pub record PalletStorage (Ty : Type 0) : Type 0 where
  pub prefix : String
  pub entries : List (StorageEntry Ty)

pub record Constant (Ty : Type 0) : Type 0 where
  pub name : String
  pub value : Bytes
  pub ty : Ty

pub record Pallet (Ty : Type 0) : Type 0 where
  pub name : String
  pub index : ℕ
  pub storage : Option (PalletStorage Ty)
  pub constants : List (Constant Ty)

-- Decoded data, as a match on `ParsedData` sees it; a field has a name or none.
pub data ParsedView (Data : Type 0) : Type 0 where
  primitive_bool : Bool → ParsedView Data
  primitive_u8 primitive_u16 primitive_u32 primitive_u64 : ℕ → ParsedView Data
  -- with whether its specialty is a balance
  primitive_u128 : ℕ → Bool → ParsedView Data
  text : String → ParsedView Data
  id : AccountId32 → ParsedView Data
  -- a sequence of bytes, with the text that it is in UTF-8
  sequence_u8 : Option String → ParsedView Data
  composite : List (Option String × Data) → ParsedView Data
  sequence_raw : List Data → ParsedView Data
  -- the pallet's name and that of the variant, and the fields
  event : String → String → List (Option String × Data) → ParsedView Data
  unread : ParsedView Data

-- The parser of other crates, with the hash functions.
pub record Parser (Ty Data : Type 0) : Type 0 where
  pub view : Data → ParsedView Data
  pub decode_all_as_type : Ty → Bytes → Result String Data
  -- `resolve_ty(ty.id)`, by whether the type is the primitive `u32`
  pub is_u32 : Ty → Result String Bool
  pub encode_u32 : ℕ → Bytes
  pub as_bytes : String → Bytes
  pub hash_blake2_128 : Bytes → Bytes
  pub hash_blake2_256 : Bytes → Bytes
  pub hash_twox_64 : Bytes → Bytes
  pub hash_twox_128 : Bytes → Bytes
  pub hash_twox_256 : Bytes → Bytes

-- the loop over the entries, up to the first with a name
unfoldable pub find_entry :
    {Ty : Type 0} → String → List (StorageEntry Ty) → Option (StorageEntry Ty)
find_entry name [] = none
find_entry name (e ∷ rest) = if str_eq e.name name then some e else find_entry name rest

or_before : {A : Type 0} → Option A → Option A → Option A
or_before none earlier = earlier
or_before (some a) earlier = some a

events_of : {Ty : Type 0} → Option (PalletStorage Ty) → Option (StorageEntry Ty)
unfolding find_entry
events_of none = none
events_of (some storage) =
    if str_eq storage.prefix "System" then find_entry "Events" storage.entries else none

-- `found_events_entry_metadata`: the loop over the pallets goes on after a find
events_found :
    {Ty : Type 0} → List (Pallet Ty) → Option (StorageEntry Ty) → Option (StorageEntry Ty)
unfolding or_before events_of
events_found [] found = found
events_found (p ∷ rest) found = events_found rest (or_before (events_of p.storage) found)

found_or : {A : Type 0} → Option A → ChainError → Result ChainError A
found_or none e = err e
found_or (some a) e = ok a

unfoldable pub events_entry_metadata :
    {Ty : Type 0} → List (Pallet Ty) → Result ChainError (StorageEntry Ty)
unfolding events_found found_or
events_entry_metadata pallets = found_or (events_found pallets none) events_nonexistant

-- the constants of the first pallet with a name
constants_of : {Ty : Type 0} → String → List (Pallet Ty) → List (Constant Ty)
constants_of name [] = []
constants_of name (p ∷ rest) = if str_eq p.name name then p.constants else constants_of name rest

find_constant : {Ty : Type 0} → String → List (Constant Ty) → Option (Constant Ty)
find_constant name [] = none
find_constant name (c ∷ rest) = if str_eq c.name name then some c else find_constant name rest

unfoldable pub pallet_index : {Ty : Type 0} → List (Pallet Ty) → String → Option ℕ
pallet_index [] name = none
pallet_index (p ∷ rest) name = if str_eq p.name name then some p.index else pallet_index rest name

module _ {Ty Data : Type 0} (parser : Parser Ty Data) where
  decoded : Option (Constant Ty) → Option Data
  decoded none = none
  decoded (some c) = to_option (parser.decode_all_as_type c.ty c.value)

  unfoldable pub fetch_constant : List (Pallet Ty) → String → String → Option Data
  unfolding constants_of find_constant decoded
  fetch_constant pallets pallet_name constant_name =
      decoded (find_constant constant_name (constants_of pallet_name pallets))

  -- `try_into` a `u16`
  small_prefix : ℕ → Option ℕ
  small_prefix n = if ltb n 65536 then some n else none

  prefix_value : ParsedView Data → Option ℕ
  unfolding small_prefix
  prefix_value (primitive_u8 n) = some n
  prefix_value (primitive_u16 n) = some n
  prefix_value (primitive_u32 n) = small_prefix n
  prefix_value (primitive_u64 n) = small_prefix n
  prefix_value (primitive_u128 n is_balance) = small_prefix n
  prefix_value _ = none

  prefix_data : Option Data → Option ℕ
  unfolding prefix_value
  prefix_data none = none
  prefix_data (some d) = prefix_value (parser.view d)

  unfoldable pub optional_prefix_from_meta : List (Pallet Ty) → Option ℕ
  unfolding prefix_data constants_of find_constant decoded
  optional_prefix_from_meta pallets =
      prefix_data (decoded (find_constant "SS58Prefix" (constants_of "System" pallets)))
