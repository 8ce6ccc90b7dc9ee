-- ===== src/Chains/Storage/Account.antt =====
-- Where the query of src/chain/utils.rs for the balance of an account in an asset looks, and for what.
use kalatori_backend.Prelude.{ℕ, ◌≡◌, some, List, ok}
use kalatori_backend.Definitions.{AccountId32}
use kalatori_backend.Chains.Filling.{Contents, nil, content, account_id32, unsigned, u32, tuple}
use kalatori_backend.Chains.Filling.Positions.{At}
use kalatori_backend.Chains.Rpc.Balances.{Query}
use kalatori_backend.Chains.Storage.{EntryType, map_entry, EntrySelector, StorageSelector, Storage}

module _ {Variant Entry Pallet Other Ty : Type 0}
    (storage : Storage Variant Entry Pallet Other Ty) where
  -- the elements of a filled key: every account is the one, and every number of 32 bits the id
  AllFilled : AccountId32 → ℕ → Contents Variant → Type 0
  AllFilled a id nil = Unit
  AllFilled a id (content (account_id32 held) rest) = (held ≡ some a) × AllFilled a id rest
  AllFilled a id (content (unsigned compact (u32 held) specialty) rest) =
      (held ≡ some id) × AllFilled a id rest
  AllFilled a id (content c rest) = AllFilled a id rest

  unfoldable pub KeyFilled : AccountId32 → ℕ → EntryType Variant → Type 0
  unfolding AllFilled
  KeyFilled a id (map_entry (tuple set)) = AllFilled a id set
  KeyFilled a id _ = Unit

  -- The query is finalised of the entry "Account" in a pallet with the prefix "Assets", its key filled
  -- in with an account and the id of an asset.
  pub record OfAccount (a : AccountId32) (id : ℕ) (q : Query Ty) : Type 0 where
    pub pallets : List Pallet
    pub i : ℕ
    pub pallet : Pallet
    pub at_pallet : At pallets i pallet
    pub is_assets : storage.prefix pallet ≡ "Assets"
    pub chosen : StorageSelector Variant Entry Pallet Other
    pub is_chosen : storage.pallet_at pallets i ≡ ok chosen
    pub offered : EntrySelector Variant Entry
    pub is_offered : chosen.entry_selector ≡ some offered
    pub j : ℕ
    pub entry : Entry
    pub at_entry_named : At offered.available_entries j entry
    pub is_account : storage.name entry ≡ "Account"
    pub selected : EntrySelector Variant Entry
    pub is_selected : storage.entry_at offered.available_entries j ≡ ok selected
    pub filled : EntryType Variant
    pub is_filled : KeyFilled a id filled
    pub is_made :
        storage.finalize
          (record chosen { entry_selector = some (record selected { type_to_fill = filled }) })
        ≡ ok (some q)
