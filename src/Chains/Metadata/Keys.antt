-- ===== src/Chains/Metadata/Keys.antt =====
-- src/chain/utils.rs: the keys of storage entries.
use Prim.Native.String.{◌++◌}
use kalatori_backend.Prelude.{
  ℕ, String, Bool, true, false, Option, none, some, List, [], ◌∷◌, Result, ok, err, ◌>>=◌, map_err,
  if◌then◌else◌, str_eq,
}
use mathlib.Core.List.{◌++◌ as ◌<>◌}
use kalatori_backend.Errors.{
  ChainError, storage_entry_not_map, storage_entry_map_multiple, storage_key_not_u32,
  storage_key_not_found, no_pallet, registry_error,
}
use kalatori_backend.Hex.{Bytes, HexCoder}
use kalatori_backend.Chains.Metadata.{
  StorageHasher, StorageEntryType, plain, map, StorageEntry, PalletStorage, Pallet, Parser,
  find_entry,
}

module _ {Ty Data : Type 0} (parser : Parser Ty Data) (hex : HexCoder) where
  unfoldable pub hashed_key_element : Bytes → StorageHasher → Bytes
  hashed_key_element bytes StorageHasher.blake2_128 = parser.hash_blake2_128 bytes
  hashed_key_element bytes StorageHasher.blake2_256 = parser.hash_blake2_256 bytes
  hashed_key_element bytes StorageHasher.blake2_128_concat = parser.hash_blake2_128 bytes <> bytes
  hashed_key_element bytes StorageHasher.twox_128 = parser.hash_twox_128 bytes
  hashed_key_element bytes StorageHasher.twox_256 = parser.hash_twox_256 bytes
  hashed_key_element bytes StorageHasher.twox_64_concat = parser.hash_twox_64 bytes <> bytes
  hashed_key_element bytes StorageHasher.identity = bytes

  -- the hash of a name, in a key
  hashed_name : String → String
  hashed_name name = hex.encode (parser.hash_twox_128 (parser.as_bytes name))

  unfoldable pub storage_key : String → String → String
  unfolding hashed_name
  storage_key prefix storage_name = "0x" ++ hashed_name prefix ++ hashed_name storage_name

  -- the key of an element with a `u32` in a map
  unfoldable pub u32_key : String → String → ℕ → StorageHasher → String
  unfolding storage_key hashed_key_element
  u32_key prefix storage_name entered_data hasher =
      storage_key prefix storage_name
      ++ hex.encode (hashed_key_element (parser.encode_u32 entered_data) hasher)

  key_of_type : String → String → ℕ → StorageHasher → Bool → Result ChainError String
  unfolding u32_key
  key_of_type prefix storage_name n hasher true = ok (u32_key prefix storage_name n hasher)
  key_of_type prefix storage_name n hasher false = err storage_key_not_u32

  key_of_entry : String → String → ℕ → StorageEntryType Ty → Result ChainError String
  unfolding key_of_type
  key_of_entry prefix storage_name n (plain ty) = err storage_entry_not_map
  key_of_entry prefix storage_name n (map (hasher ∷ []) key value) = do
    is_u32 ← map_err registry_error (parser.is_u32 key)
    key_of_type prefix storage_name n hasher is_u32
  key_of_entry prefix storage_name n (map _ key value) = err storage_entry_map_multiple

  pub key_found : String → String → ℕ → Option (StorageEntry Ty) → Result ChainError String
  unfolding key_of_entry
  key_found prefix storage_name n none = err (storage_key_not_found storage_name)
  key_found prefix storage_name n (some entry) = key_of_entry prefix storage_name n entry.ty

  -- whether this is the pallet that the loop over the pallets ends at
  entries_at : String → Option (PalletStorage Ty) → Option (List (StorageEntry Ty))
  entries_at prefix none = none
  entries_at prefix (some storage) =
      if str_eq storage.prefix prefix then some storage.entries else none

  pub from_pallet :
      String
      → String
      → ℕ
      → Option (List (StorageEntry Ty))
      → Result ChainError String
      → Result ChainError String
  unfolding key_found find_entry
  from_pallet prefix storage_name n none further = further
  from_pallet prefix storage_name n (some entries) further =
      key_found prefix storage_name n (find_entry storage_name entries)

  unfoldable pub whole_key_u32_value :
      String → String → List (Pallet Ty) → ℕ → Result ChainError String
  unfolding entries_at from_pallet
  whole_key_u32_value prefix storage_name [] n = err no_pallet
  whole_key_u32_value prefix storage_name (p ∷ rest) n =
      from_pallet prefix storage_name n (entries_at prefix p.storage)
        (whole_key_u32_value prefix storage_name rest n)
