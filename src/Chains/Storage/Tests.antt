-- ===== src/Chains/Storage/Tests.antt =====
-- The theorems on the queries of src/chain/utils.rs, at a storage with two pallets.
use kalatori_backend.Prelude.{
  ℕ, zero, suc, String, ◌≡◌, refl, true, Option, none, some, List, [], ◌∷◌, Result, ok, err,
}
use kalatori_backend.Errors.{ChainError, no_pallet}
use kalatori_backend.Chains.Filling.{tuple, account_id32, unsigned, u32, ordinary, nil, content}
use kalatori_backend.Chains.Rpc.Balances.{Query}
use kalatori_backend.Chains.Storage.{
  EntryType, plain_entry, map_entry, EntrySelector, StorageSelector, Storage, block_number_query,
  asset_balance_query, system_balance_query,
}
use kalatori_backend.Chains.Storage.Located.{Located, block_number_query-Located}

data PalletName : Type 0 where
  system assets : PalletName

data EntryName : Type 0 where
  number system_account asset_account : EntryName

type_of : EntryName → EntryType ℕ
type_of number = plain_entry
type_of system_account = map_entry (account_id32 none)
type_of asset_account =
    map_entry
      (tuple (content (unsigned true (u32 none) ordinary) (content (account_id32 none) nil)))

entry_among : List EntryName → EntryName → EntrySelector ℕ EntryName
unfolding type_of
entry_among entries e = record { available_entries = entries; type_to_fill = type_of e }

entry_at : List EntryName → List EntryName → ℕ → Result ChainError (EntrySelector ℕ EntryName)
unfolding entry_among
entry_at entries [] n = err no_pallet
entry_at entries (e ∷ rest) zero = ok (entry_among entries e)
entry_at entries (e ∷ rest) (suc n) = entry_at entries rest n

pallet_entries : PalletName → List EntryName
pallet_entries system = number ∷ system_account ∷ []
pallet_entries assets = asset_account ∷ []

-- the first entry of a pallet is selected
first_of : PalletName → EntryName
first_of system = number
first_of assets = asset_account

selector_of : List PalletName → PalletName → StorageSelector ℕ EntryName PalletName PalletName
unfolding entry_among pallet_entries first_of
selector_of pallets p = record {
  available_pallets = pallets;
  entry_selector = some (entry_among (pallet_entries p) (first_of p));
  other = p;
}

pallet_at :
    List PalletName
    → List PalletName
    → ℕ
    → Result ChainError (StorageSelector ℕ EntryName PalletName PalletName)
unfolding selector_of
pallet_at pallets [] n = err no_pallet
pallet_at pallets (p ∷ rest) zero = ok (selector_of pallets p)
pallet_at pallets (p ∷ rest) (suc n) = pallet_at pallets rest n

-- a query is done if its key is filled in
complete : EntryType ℕ → Option (Query ℕ)
complete plain_entry = some (record { key = "0x01"; value_ty = 1 })
complete (map_entry (account_id32 (some a))) = some (record { key = "0x02"; value_ty = 2 })
complete
      (map_entry (
        tuple
          (content (unsigned c (u32 (some id)) specialty) (content (account_id32 (some a)) nil)))) =
    some (record { key = "0x03"; value_ty = id })
complete (map_entry key) = none

completed : Option (EntrySelector ℕ EntryName) → Option (Query ℕ)
unfolding complete
completed none = none
completed (some e) = complete e.type_to_fill

pallet_prefix : PalletName → String
pallet_prefix system = "System"
pallet_prefix assets = "Assets"

name_of : EntryName → String
name_of number = "Number"
name_of system_account = "Account"
name_of asset_account = "Account"

abbrev storage_of : List PalletName → Storage ℕ EntryName PalletName PalletName ℕ
unfolding pallet_prefix name_of selector_of pallet_at entry_at completed
storage_of pallets = record {
  prefix = pallet_prefix;
  name = name_of;
  init = ok (some (selector_of pallets system));
  pallet_at = λ pallets i. pallet_at pallets pallets i;
  entry_at = λ entries i. entry_at entries entries i;
  finalize = λ s. ok (completed s.entry_selector);
}

abbrev storage : Storage ℕ EntryName PalletName PalletName ℕ
storage = storage_of (system ∷ assets ∷ [])

system_query_test :
    system_balance_query storage (9 ∷ []) ≡ ok (record { key = "0x02"; value_ty = 2 })
unfolding system_balance_query storage_of
system_query_test = refl

number_query_test : block_number_query storage ≡ ok (record { key = "0x01"; value_ty = 1 })
unfolding block_number_query storage_of
number_query_test = refl

block_number_query-Located_example :
    Located storage "System" "Number" (record { key = "0x01"; value_ty = 1 })
block_number_query-Located_example =
    block_number_query-Located storage (record { key = "0x01"; value_ty = 1 }) number_query_test

-- where there are no assets, the query is that for the number of the block
other_query_test :
    asset_balance_query (storage_of (system ∷ [])) (9 ∷ []) 1337
    ≡ ok (record { key = "0x01"; value_ty = 1 })
unfolding asset_balance_query storage_of
other_query_test = refl
