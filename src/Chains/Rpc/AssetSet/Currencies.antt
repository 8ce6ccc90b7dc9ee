-- ===== src/Chains/Rpc/AssetSet/Currencies.antt =====
-- The currencies that `assets_set_at_block` of src/chain/rpc.rs finds.
use kalatori_backend.Chains.Rpc.AssetSet.Evidence.{Sufficient, Described}
use kalatori_backend.Prelude.{
  ℕ, String, true, [], ◌∷◌, Result, ok, map_err, str_eq, subst, sym, eq_iff,
}
use kalatori_backend.Prelude.Map
use kalatori_backend.Prelude.Map.{Map}
use kalatori_backend.Prelude.Exec.{lift}
use kalatori_backend.Errors.{meta_version_error_pallets}
use kalatori_backend.Definitions.{CurrencyProperties}
use kalatori_backend.Hex.{Bytes, HexCoder, BlockHash}
use kalatori_backend.Chains.Properties.{Json, ShortSpecs}
use kalatori_backend.Chains.Metadata.{StorageEntry, Parser}
use kalatori_backend.Chains.Rpc.{WsClient, MetadataCodec}
use kalatori_backend.Chains.Rpc.Assets.{KeyView, storage_with, entries_of}
use kalatori_backend.Prelude.{◌≡◌, refl, ◌⊎◌, inl, inr, All, arith}
use kalatori_backend.Prelude.Exec.{exec-inv}
use kalatori_backend.Prelude.Map.{get-insert}
use kalatori_backend.Chains.Rpc.AssetSet.{
  Common, native_currency, asset_currency, Currencies, assets_set_at_block,
}
use kalatori_backend.Chains.Rpc.AssetSet.Kept.{with_entries-G}
use kalatori_backend.Prelude.{Bool-cases, map_err-inv, eq_refl}

All-insert :
    (P : String × CurrencyProperties → Type 0) (k : String) (v : CurrencyProperties)
    (set : Currencies)
    → P (k, v)
    → All P set
    → All P (Map.insert k v set)
unfolding Map.insert
All-insert P k v [] p ps = (p, tt)
All-insert P k v ((j, w) ∷ rest) p (q, ps) =
    let ih = All-insert P k v rest p ps in
    elim (Bool-cases (str_eq j k)) [
      | inl same ↦ rw same (subst (λ x. P (x, v)) (sym ((eq_iff j k).0 same)) p, ps)
      | inr other ↦ rw other (q, ih)
    ]

contains-insert :
    (k j : String) (v : CurrencyProperties) (set : Currencies)
    → Map.contains_key j set ≡ true
    → Map.contains_key j (Map.insert k v set) ≡ true
unfolding Map.contains_key
contains-insert k j v set h = ground (arith, get-insert k j v set, h)

module _ {W Value Ty Data : Type 0} (ws : WsClient W Value) (json : Json Value) (hex : HexCoder)
    (parser : Parser Ty Data)
    (decode_entry : Bytes → Bytes → StorageEntry Ty → Result String (KeyView Data × Data))
    (block : BlockHash) (n : Common) (specs : ShortSpecs) where
  -- A currency is the native token under the unit of the specs, or an asset: the node shows an entry
  -- of a sufficient asset with its ID, and metadata of this ID with its symbol and decimals.
  unfoldable pub IsCurrency : String × CurrencyProperties → Type 0
  IsCurrency (symbol, p) =
      (symbol ≡ specs.unit) × (p ≡ native_currency n specs.decimals)
      ⊎ (id : ℕ) × (places : ℕ) × (p ≡ asset_currency n id places)
        × Sufficient ws json hex parser decode_entry block id
        × Described ws json hex parser decode_entry block id symbol places

  IsFound : Currencies → Type 0
  IsFound set = All IsCurrency set × (Map.contains_key specs.unit set ≡ true)

  IsFound-native : IsFound (Map.insert specs.unit (native_currency n specs.decimals) [])
  unfolding IsFound IsCurrency Map.insert Map.contains_key Map.get
  IsFound-native = ((inl (refl, refl), tt), rw eq_refl refl)

  IsFound-insert :
      (symbol : String) (id places : ℕ) (set : Currencies)
      → Sufficient ws json hex parser decode_entry block id
      → Described ws json hex parser decode_entry block id symbol places
      → IsFound set
      → IsFound (Map.insert symbol (asset_currency n id places) set)
  unfolding IsFound IsCurrency
  IsFound-insert symbol id places set sufficient described (currencies, has_unit) = (
    All-insert IsCurrency symbol (asset_currency n id places) set
        (inr (id, places, refl, sufficient, described)) currencies,
    contains-insert symbol specs.unit (asset_currency n id places) set has_unit,
  )

module _ {W Value Metadata Ty Data : Type 0} (ws : WsClient W Value) (json : Json Value)
    (hex : HexCoder) (codec : MetadataCodec Metadata Ty) (parser : Parser Ty Data)
    (spec_name : Metadata → Result String String)
    (decode_entry : Bytes → Bytes → StorageEntry Ty → Result String (KeyView Data × Data)) where
  -- Whatever the node answers: if the currencies of a chain are found at a block, then the unit of the
  -- specs is one of them, and each is of this chain, with the URL and the prefix that were given. Each
  -- is the native token, under the unit and with the decimals of the specs, or an asset, of which the
  -- node shows at this block an entry that has the asset's ID as its key and says that it is
  -- sufficient, and under the key of the metadata for this ID a symbol and decimals, which are those
  -- of the currency.
  pub assets_set_at_block-IsCurrency :
      (block : BlockHash) (metadata_v15 : Metadata) (rpc_url : String) (specs : ShortSpecs) (w : W)
      (set : Currencies)
      → (assets_set_at_block ws json hex codec parser spec_name decode_entry block metadata_v15
          rpc_url specs w).0
        ≡ ok set
      → (chain_name : String) × (spec_name metadata_v15 ≡ ok chain_name)
        × All
            (IsCurrency ws json hex parser decode_entry block
              (record { chain_name = chain_name; rpc_url = rpc_url; ss58 = specs.base58prefix })
              specs)
            set
        × (Map.contains_key specs.unit set ≡ true)
  unfolding assets_set_at_block IsFound
  assets_set_at_block-IsCurrency block metadata_v15 rpc_url specs w set h =
      let (chain_name, named, e) =
        exec-inv (lift (map_err meta_version_error_pallets (spec_name metadata_v15))) _ w set h in
      let n : Common = record {
        chain_name = chain_name;
        rpc_url = rpc_url;
        ss58 = specs.base58prefix;
      } in
      let (currencies, has_unit) =
        with_entries-G ws json hex codec parser spec_name decode_entry n block
          (IsFound ws json hex parser decode_entry block n specs)
          (λ symbol id places found.
            IsFound-insert ws json hex parser decode_entry block n specs symbol id places found)
          (entries_of (storage_with "Assets" (codec.pallets metadata_v15)))
          (Map.insert specs.unit (native_currency n specs.decimals) [])
          (IsFound-native ws json hex parser decode_entry block n specs) w set e in
      (
        chain_name,
        map_err-inv meta_version_error_pallets (spec_name metadata_v15) chain_name named,
        currencies,
        has_unit,
      )
