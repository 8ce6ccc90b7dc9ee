-- ===== src/Chains/Rpc/AssetSet.antt =====
-- `assets_set_at_block` of src/chain/rpc.rs: the requests, and the set that they fill.
pub mod Evidence
pub mod Named
pub mod Kept
pub mod Currencies
use kalatori_backend.Prelude.{
  ℕ, String, Bool, true, false, ◌&&◌, Option, none, some, List, [], ◌∷◌, Result, ok, err, map_err,
  if◌then◌else◌, is_some, str_eq,
}
use kalatori_backend.Prelude.Map
use kalatori_backend.Prelude.Map.{Map}
use kalatori_backend.Prelude.Exec.{Exec, pure, raise, lift, ◌>>=◌}
use kalatori_backend.Errors.{
  NotHex, ChainError, util, parser_error, storage_decode_error, registry_error,
  meta_version_error_pallets, asset_id_format, asset_key_empty, asset_key_not_single_hash,
  asset_metadata_plain, asset_metadata_unexpected, asset_metadata_type, asset_metadata_map_size,
}
use kalatori_backend.Definitions.{CurrencyProperties, TokenKind}
use kalatori_backend.Hex.{Bytes, HexCoder, BlockHash, unhex}
use kalatori_backend.Chains.Properties.{View, string, array, Json, ShortSpecs}
use kalatori_backend.Chains.Metadata.{
  StorageHasher, StorageEntryType, plain, map, StorageEntry, PalletStorage, Pallet, ParsedView,
  primitive_bool, primitive_u8, primitive_u32, text, sequence_u8, composite, Parser,
}
use kalatori_backend.Chains.Metadata.Keys.{u32_key}
use kalatori_backend.Chains.Rpc.{
  WsClient, MetadataCodec, get_value_from_storage, get_keys_from_storage,
}
use kalatori_backend.Chains.Rpc.Assets.{
  KeyView, storage_with, entries_of, AssetNames, asset_id_of, verified_sufficient, names_in,
}

-- what the currencies of a chain have in common
pub record Common : Type 0 where
  pub chain_name : String
  pub rpc_url : String
  pub ss58 : ℕ

abbrev pub native_currency : Common → ℕ → CurrencyProperties
native_currency n decimals = record {
  chain_name = n.chain_name;
  kind = TokenKind.native;
  decimals = decimals;
  rpc_url = n.rpc_url;
  asset_id = none;
  ss58 = n.ss58;
}

abbrev pub asset_currency : Common → ℕ → ℕ → CurrencyProperties
asset_currency n id decimals = record {
  chain_name = n.chain_name;
  kind = TokenKind.asset;
  decimals = decimals;
  rpc_url = n.rpc_url;
  asset_id = some id;
  ss58 = n.ss58;
}

abbrev pub Currencies : Type 0
Currencies = Map CurrencyProperties

-- an asset is kept if its symbol and its decimals were found
add_asset : Common → ℕ → Option String → Option ℕ → Currencies → Currencies
add_asset n id (some symbol) (some decimals) set =
    Map.insert symbol (asset_currency n id decimals) set
add_asset n id _ _ set = set

module _ {W Value Metadata Ty Data : Type 0} (ws : WsClient W Value) (json : Json Value)
    (hex : HexCoder) (codec : MetadataCodec Metadata Ty) (parser : Parser Ty Data)
    -- `spec_name_version`, and `decode_as_storage_entry` with the key
    (spec_name : Metadata → Result String String)
    (decode_entry : Bytes → Bytes → StorageEntry Ty → Result String (KeyView Data × Data)) where
  module _ (n : Common) (block : BlockHash) where
    add_named : ℕ → AssetNames → Currencies → Currencies
    unfolding add_asset
    add_named id names set = add_asset n id names.symbol names.decimals set

    -- the value of the entry `Metadata`
    metadata_value : ℕ → ParsedView Data → Currencies → Result ChainError Currencies
    unfolding add_named
    metadata_value id (composite fields) set = ok (
        add_named id
          (names_in parser fields (record { name = none; symbol = none; decimals = none })) set)
    metadata_value id _ set = err asset_metadata_unexpected

    metadata_decoded : ℕ → Result String Data → Currencies → Result ChainError Currencies
    unfolding metadata_value
    metadata_decoded id (err e) set = err (parser_error e)
    metadata_decoded id (ok d) set = metadata_value id (parser.view d) set

    metadata_bytes : ℕ → Ty → Result ChainError Bytes → Currencies → Result ChainError Currencies
    unfolding metadata_decoded
    metadata_bytes id ty (err e) set = err e
    metadata_bytes id ty (ok raw) set = metadata_decoded id (parser.decode_all_as_type ty raw) set

    metadata_fetched : ℕ → Ty → View Value → Currencies → Result ChainError Currencies
    unfolding metadata_bytes
    metadata_fetched id ty (string s) set =
        metadata_bytes id ty (map_err util (unhex hex s NotHex.storage_value)) set
    metadata_fetched id ty _ set = ok set

    fetch_metadata : ℕ → StorageHasher → Ty → Bool → Currencies → Exec W ChainError Currencies
    unfolding metadata_fetched
    fetch_metadata id hasher ty false set = raise asset_metadata_type
    fetch_metadata id hasher ty true set = do
      v ←
          get_value_from_storage ws json hex (u32_key parser hex "Assets" "Metadata" id hasher)
            block
      lift (metadata_fetched id ty (json.view v) set)

    -- the match on the type of the entry `Metadata`
    pub with_metadata : ℕ → StorageEntryType Ty → Currencies → Exec W ChainError Currencies
    unfolding fetch_metadata
    with_metadata id (plain ty) set = raise asset_metadata_plain
    with_metadata id (map (hasher ∷ []) key value) set = do
      is_u32 ← lift (map_err registry_error (parser.is_u32 key))
      fetch_metadata id hasher value is_u32 set
    with_metadata id (map _ key value) set = raise asset_metadata_map_size

    module _ (asset meta : StorageEntry Ty) where
      if_sufficient : Bool → ℕ → Currencies → Exec W ChainError Currencies
      unfolding with_metadata
      if_sufficient true id set = with_metadata id meta.ty set
      if_sufficient false id set = pure set

      -- the asset's entry, decoded
      on_entry : KeyView Data × Data → Currencies → Exec W ChainError Currencies
      unfolding if_sufficient
      on_entry (key, value) set = do
        id ← lift (asset_id_of parser key)
        if_sufficient (verified_sufficient parser (parser.view value)) id set

      decoded_asset : String → String → Result ChainError (KeyView Data × Data)
      decoded_asset key value = elim (unhex hex key NotHex.storage_key) [
        | err e ↦ err (util e)
        | ok key_data ↦ elim (unhex hex value NotHex.storage_value) [
          | err e ↦ err (util e)
          | ok value_data ↦ map_err storage_decode_error (decode_entry key_data value_data asset)
        ]
      ]

      on_value : String → View Value → Currencies → Exec W ChainError Currencies
      unfolding decoded_asset on_entry
      on_value key (string s) set = do entry ← lift (decoded_asset key s); on_entry entry set
      on_value key _ set = pure set

      on_asset_key : View Value → Currencies → Exec W ChainError Currencies
      unfolding on_value
      on_asset_key (string key) set = do
        v ← get_value_from_storage ws json hex key block
        on_value key (json.view v) set
      on_asset_key _ set = pure set

      -- the loop over the keys of a page
      on_asset_keys : List Value → Currencies → Exec W ChainError Currencies
      unfolding on_asset_key
      on_asset_keys [] set = pure set
      on_asset_keys (key ∷ rest) set = do
        set' ← on_asset_key (json.view key) set
        on_asset_keys rest set'

      on_asset_page : View Value → Currencies → Exec W ChainError Currencies
      unfolding on_asset_keys
      on_asset_page (array keys) set = on_asset_keys keys set
      on_asset_page _ set = pure set

      -- the loop over the pages
      on_asset_pages : List Value → Currencies → Exec W ChainError Currencies
      unfolding on_asset_page
      on_asset_pages [] set = pure set
      on_asset_pages (page ∷ rest) set = do
        set' ← on_asset_page (json.view page) set
        on_asset_pages rest set'

    -- the assets, if the chain has them
    unfoldable pub with_entries :
        Option (StorageEntry Ty) × Option (StorageEntry Ty)
        → Currencies
        → Exec W ChainError Currencies
    unfolding on_asset_pages
    with_entries (some asset, some meta) set w =
        let (pages, w') = get_keys_from_storage ws json hex codec parser "Assets" "Asset" block w in
        on_asset_pages asset meta pages set w'
    with_entries _ set w = (ok set, w)

  unfoldable pub assets_set_at_block :
      BlockHash → Metadata → String → ShortSpecs → Exec W ChainError Currencies
  unfolding with_entries
  assets_set_at_block block metadata_v15 rpc_url specs = do
    chain_name ← lift (map_err meta_version_error_pallets (spec_name metadata_v15))
    let n : Common = record {
      chain_name = chain_name;
      rpc_url = rpc_url;
      ss58 = specs.base58prefix;
    }
    with_entries n block (entries_of (storage_with "Assets" (codec.pallets metadata_v15)))
        (Map.insert specs.unit (native_currency n specs.decimals) [])
