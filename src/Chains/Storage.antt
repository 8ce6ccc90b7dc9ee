-- ===== src/Chains/Storage.antt =====
-- src/chain/utils.rs: the queries of the storage, which are filled in as the calls are. A selector is
-- one of another crate: here is what the code sees of it.
pub mod Located
pub mod Account
mod Tests
use kalatori_backend.Prelude.{
  ℕ, String, Bool, Option, none, some, List, Result, ok, err, ◌>>=◌, ok_or, str_eq,
}
use kalatori_backend.Errors.{
  ChainError, no_storage, no_system, no_storage_in_system, no_block_number_definition,
  storage_query,
}
use kalatori_backend.Definitions.{AccountId32}
use kalatori_backend.Chains.Filling.{
  u32, Content, tuple, account_id32, unsigned, Contents, nil, content, set_account, find_index,
}
use kalatori_backend.Chains.Rpc.Balances.{Query, Queries}

-- `StorageEntryTypeToFill`
pub data EntryType (Variant : Type 0) : Type 0 where
  plain_entry : EntryType Variant
  map_entry : (key_to_fill : Content Variant) → EntryType Variant

-- `EntrySelectorFunctional`
pub record EntrySelector (Variant Entry : Type 0) : Type 0 where
  pub available_entries : List Entry
  pub type_to_fill : EntryType Variant

-- `StorageSelectorFunctional`; a pallet without entries has no functional selector of them, and
-- `Other` is what the query holds besides
pub record StorageSelector (Variant Entry Pallet Other : Type 0) : Type 0 where
  pub available_pallets : List Pallet
  pub entry_selector : Option (EntrySelector Variant Entry)
  pub other : Other

-- The selectors of other crates, at the metadata of a chain.
pub record Storage (Variant Entry Pallet Other Ty : Type 0) : Type 0 where
  pub prefix : Pallet → String
  pub name : Entry → String
  -- `StorageSelector::init`, which is functional or not
  pub init : Result ChainError (Option (StorageSelector Variant Entry Pallet Other))
  pub pallet_at : List Pallet → ℕ → Result ChainError (StorageSelector Variant Entry Pallet Other)
  pub entry_at : List Entry → ℕ → Result ChainError (EntrySelector Variant Entry)
  pub finalize : StorageSelector Variant Entry Pallet Other → Result ChainError (Option (Query Ty))

module _ {Variant : Type 0} where
  -- an element of the key of an asset's account
  unfoldable pub set_element : AccountId32 → ℕ → Content Variant → Content Variant
  set_element account_id asset_id (account_id32 old) = account_id32 (some account_id)
  set_element account_id asset_id (unsigned compact (u32 old) specialty) =
      unsigned compact (u32 (some asset_id)) specialty
  set_element account_id asset_id c = c

  unfoldable pub set_elements : AccountId32 → ℕ → Contents Variant → Contents Variant
  unfolding set_element
  set_elements account_id asset_id nil = nil
  set_elements account_id asset_id (content c rest) =
      content (set_element account_id asset_id c) (set_elements account_id asset_id rest)

  unfoldable pub asset_key : AccountId32 → ℕ → Content Variant → Content Variant
  unfolding set_elements
  asset_key account_id asset_id (tuple set) = tuple (set_elements account_id asset_id set)
  asset_key account_id asset_id c = c

  unfoldable pub set_key :
      (Content Variant → Content Variant) → EntryType Variant → EntryType Variant
  set_key fill plain_entry = plain_entry
  set_key fill (map_entry key_to_fill) = map_entry (fill key_to_fill)

module _ {Variant Entry Pallet Other Ty : Type 0}
    (storage : Storage Variant Entry Pallet Other Ty) where
  is_prefix : String → Pallet → Bool
  is_prefix prefix pallet = str_eq (storage.prefix pallet) prefix

  is_entry : String → Entry → Bool
  is_entry name entry = str_eq (storage.name entry) name

  -- the entry with an index, its key filled in
  at_entry :
      (Content Variant → Content Variant)
      → StorageSelector Variant Entry Pallet Other
      → List Entry
      → ℕ
      → Result ChainError (StorageSelector Variant Entry Pallet Other)
  unfolding set_key
  at_entry fill s available_entries entry_index = do
    e ← storage.entry_at available_entries entry_index
    ok (record {
      available_pallets = s.available_pallets;
      entry_selector = some (record {
        available_entries = e.available_entries;
        type_to_fill = set_key fill e.type_to_fill;
      });
      other = s.other;
    })

  -- the first entry with the name, if there is one
  located_entry :
      (Content Variant → Content Variant)
      → StorageSelector Variant Entry Pallet Other
      → List Entry
      → Option ℕ
      → Result ChainError (StorageSelector Variant Entry Pallet Other)
  unfolding at_entry
  located_entry fill s available_entries none = ok s
  located_entry fill s available_entries (some entry_index) =
      at_entry fill s available_entries entry_index

  select_entry :
      String
      → (Content Variant → Content Variant)
      → StorageSelector Variant Entry Pallet Other
      → Option (EntrySelector Variant Entry)
      → Result ChainError (StorageSelector Variant Entry Pallet Other)
  unfolding located_entry is_entry find_index
  select_entry name fill s none = ok s
  select_entry name fill s (some e) =
      located_entry fill s e.available_entries (find_index (is_entry name) e.available_entries)

  -- the first pallet with the prefix, if there is one
  located_pallet :
      String
      → (Content Variant → Content Variant)
      → StorageSelector Variant Entry Pallet Other
      → Option ℕ
      → Result ChainError (StorageSelector Variant Entry Pallet Other)
  unfolding select_entry
  located_pallet name fill s none = ok s
  located_pallet name fill s (some index) = do
    chosen ← storage.pallet_at s.available_pallets index
    select_entry name fill chosen chosen.entry_selector

  -- the query for the account at an entry of a pallet, from what the selector begins with
  account_query :
      String
      → (Content Variant → Content Variant)
      → Option (StorageSelector Variant Entry Pallet Other)
      → Result ChainError (Query Ty)
  unfolding located_pallet is_prefix find_index
  account_query prefix fill none = err storage_query
  account_query prefix fill (some s) = do
    filled ← located_pallet "Account" fill s (find_index (is_prefix prefix) s.available_pallets)
    made ← storage.finalize filled
    ok_or made storage_query

  unfoldable pub asset_balance_query : AccountId32 → ℕ → Result ChainError (Query Ty)
  unfolding account_query asset_key
  asset_balance_query account_id asset_id = do
    selector ← storage.init
    account_query "Assets" (asset_key account_id asset_id) selector

  unfoldable pub system_balance_query : AccountId32 → Result ChainError (Query Ty)
  unfolding account_query set_account
  system_balance_query account_id = do
    selector ← storage.init
    account_query "System" (set_account account_id) selector

  transposed : Result ChainError (Option (Query Ty)) → Option (Result ChainError (Query Ty))
  transposed (ok none) = none
  transposed (ok (some q)) = some (ok q)
  transposed (err e) = some (err e)

  number_query :
      StorageSelector Variant Entry Pallet Other
      → List Entry
      → Option ℕ
      → Result ChainError (Query Ty)
  unfolding at_entry transposed
  number_query s available_entries none = err no_block_number_definition
  number_query s available_entries (some entry_index) = do
    filled ← at_entry (λ key. key) s available_entries entry_index
    made ← ok_or (transposed (storage.finalize filled)) storage_query
    made

  in_system :
      StorageSelector Variant Entry Pallet Other
      → Option (EntrySelector Variant Entry)
      → Result ChainError (Query Ty)
  unfolding number_query is_entry find_index
  in_system s none = err no_storage_in_system
  in_system s (some e) =
      number_query s e.available_entries (find_index (is_entry "Number") e.available_entries)

  at_system : StorageSelector Variant Entry Pallet Other → Option ℕ → Result ChainError (Query Ty)
  unfolding in_system
  at_system s none = err no_system
  at_system s (some index) = do
    chosen ← storage.pallet_at s.available_pallets index
    in_system chosen chosen.entry_selector

  from_selector : Option (StorageSelector Variant Entry Pallet Other) → Result ChainError (Query Ty)
  unfolding at_system is_prefix find_index
  from_selector none = err no_storage
  from_selector (some s) = at_system s (find_index (is_prefix "System") s.available_pallets)

  unfoldable pub block_number_query : Result ChainError (Query Ty)
  unfolding from_selector
  block_number_query = do selector ← storage.init; from_selector selector

  -- the queries at the metadata of a connection
  unfoldable pub queries_of : Queries Ty
  unfolding asset_balance_query system_balance_query block_number_query
  queries_of = record {
    block_number_query = block_number_query;
    asset_balance_query = asset_balance_query;
    system_balance_query = system_balance_query;
  }
