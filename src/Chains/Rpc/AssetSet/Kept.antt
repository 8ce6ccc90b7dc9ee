-- ===== src/Chains/Rpc/AssetSet/Kept.antt =====
-- What the loops of `assets_set_at_block` of src/chain/rpc.rs keep.
use kalatori_backend.Chains.Rpc.AssetSet.Named.{
  Sound, Sound-bind, Sound-then, stored, with_metadata-Sound,
}
use kalatori_backend.Chains.Rpc.AssetSet.Evidence.{Decoded, Sufficient, Described}
use kalatori_backend.Chains.Rpc.Assets.Shown.{asset_id_of-inv, verified_sufficient-inv}
use kalatori_backend.Prelude.{
  ℕ, String, Bool, true, false, Option, none, some, List, [], ◌∷◌, Result, ok, refl, subst,
  map_err-inv, Result-cases, inl, inr,
}
use kalatori_backend.Prelude.Map
use kalatori_backend.Prelude.Map.{Map}
use kalatori_backend.Prelude.Exec.{lift}
use kalatori_backend.Errors.{NotHex, storage_decode_error}
use kalatori_backend.Hex.{Bytes, HexCoder, BlockHash, unhex}
use kalatori_backend.Chains.Properties.{View, string, array, Json}
use kalatori_backend.Chains.Metadata.{StorageEntry, Parser}
use kalatori_backend.Chains.Rpc.{WsClient, MetadataCodec, get_value_from_storage}
use kalatori_backend.Chains.Rpc.Assets.{KeyView, asset_id_of, verified_sufficient}
use kalatori_backend.Prelude.{◌≡◌, ok-inj, arith}
use kalatori_backend.Prelude.Map.{get-insert}
use kalatori_backend.Chains.Rpc.AssetSet.{
  Common, asset_currency, Currencies, if_sufficient, on_entry, decoded_asset, on_value,
  on_asset_key, on_asset_keys, on_asset_page, on_asset_pages, with_entries,
}

-- What a set has, the loop's result has, if adding an asset that is shown keeps it.
module _ {W Value Metadata Ty Data : Type 0} (ws : WsClient W Value) (json : Json Value)
    (hex : HexCoder) (codec : MetadataCodec Metadata Ty) (parser : Parser Ty Data)
    (spec_name : Metadata → Result String String)
    (decode_entry : Bytes → Bytes → StorageEntry Ty → Result String (KeyView Data × Data))
    (n : Common) (block : BlockHash) (G : Currencies → Type 0)
    (adds : (symbol : String) (id decimals : ℕ) (set : Currencies)
      → Sufficient ws json hex parser decode_entry block id
      → Described ws json hex parser decode_entry block id symbol decimals
      → G set
      → G (Map.insert symbol (asset_currency n id decimals) set)) where
  module _ (asset meta : StorageEntry Ty) where
    if_sufficient-Sound :
        (is_it : Bool) (id : ℕ) (set : Currencies)
        → (is_it ≡ true → Sufficient ws json hex parser decode_entry block id)
        → G set
        → Sound G (
            if_sufficient ws json hex codec parser spec_name decode_entry n block asset meta is_it
              id set)
    unfolding if_sufficient
    if_sufficient-Sound true id set shown g =
        with_metadata-Sound ws json hex codec parser spec_name decode_entry n block G adds id
          meta.ty set (shown refl) g
    if_sufficient-Sound false id set shown g = λ w found h. rw (← ok-inj h) g

    sufficient :
        (key : KeyView Data) (value : Data) (id : ℕ)
        → Decoded ws json hex parser decode_entry block key value
        → asset_id_of parser key ≡ ok id
        → verified_sufficient parser (parser.view value) ≡ true
        → Sufficient ws json hex parser decode_entry block id
    sufficient key value id decoded numbered is_it =
        let (d, is_parsed, is_id) = asset_id_of-inv parser key id numbered in
        let (fields, is_composite, has) =
          verified_sufficient-inv parser (parser.view value) is_it in
        record {
          key = d;
          value = value;
          fields = fields;
          decoded =
              subst (λ k. Decoded ws json hex parser decode_entry block k value) is_parsed decoded;
          is_id = is_id;
          is_composite = is_composite;
          is_sufficient = has;
        }

    on_entry-Sound :
        (entry : KeyView Data × Data) (set : Currencies)
        → Decoded ws json hex parser decode_entry block entry.0 entry.1
        → G set
        → Sound G
            (on_entry ws json hex codec parser spec_name decode_entry n block asset meta entry set)
    unfolding on_entry
    on_entry-Sound (key, value) set decoded g =
        Sound-bind G (lift (asset_id_of parser key)) _ (λ id w numbered.
          if_sufficient-Sound (verified_sufficient parser (parser.view value)) id set
            (sufficient key value id decoded numbered) g)

    decoded_asset-inv :
        (key raw : String) (v : Value) (w : W) (entry : KeyView Data × Data)
        → (get_value_from_storage ws json hex key block w).0 ≡ ok v
        → json.view v ≡ string raw
        → decoded_asset ws json hex codec parser spec_name decode_entry n block asset meta key raw
          ≡ ok entry
        → Decoded ws json hex parser decode_entry block entry.0 entry.1
    unfolding decoded_asset
    decoded_asset-inv key raw v w entry answered viewed e =
        elim (Result-cases (unhex hex key NotHex.storage_key)) [
          | inr (x, refused) ↦ absurd (ground arith)
          | inl (key_data, is_key) ↦ elim (Result-cases (unhex hex raw NotHex.storage_value)) [
            | inr (x, refused) ↦ absurd (ground arith)
            | inl (value_data, is_bytes) ↦ record {
              storage_key = key;
              key_data = key_data;
              value_data = value_data;
              asset = asset;
              is_key = is_key;
              is_stored =
                  stored ws json hex codec parser spec_name decode_entry n block G adds key v w raw
                    value_data answered viewed is_bytes;
              is_decoded =
                  map_err-inv storage_decode_error (decode_entry key_data value_data asset) entry
                    (ground arith);
            }
          ]
        ]

    on_value-Sound :
        (key : String) (v : View Value) (set : Currencies) (answer : Value) (w : W)
        → (get_value_from_storage ws json hex key block w).0 ≡ ok answer
        → json.view answer ≡ v
        → G set
        → Sound G
            (on_value ws json hex codec parser spec_name decode_entry n block asset meta key v set)
    unfolding on_value
    on_value-Sound key (string s) set answer w answered viewed g =
        Sound-bind G
          (lift (
            decoded_asset ws json hex codec parser spec_name decode_entry n block asset meta key s))
          _
          (λ entry u decoded.
            on_entry-Sound entry set
              (decoded_asset-inv key s answer w entry answered viewed decoded) g)
    on_value-Sound key _ set answer w answered viewed g = λ w found h. rw (← ok-inj h) g

    on_asset_key-Sound :
        (key : View Value) (set : Currencies)
        → G set
        → Sound G (
            on_asset_key ws json hex codec parser spec_name decode_entry n block asset meta key set)
    unfolding on_asset_key
    on_asset_key-Sound (string key) set g =
        Sound-bind G (get_value_from_storage ws json hex key block) _
          (λ v w answered. on_value-Sound key (json.view v) set v w answered refl g)
    on_asset_key-Sound _ set g = λ w found h. rw (← ok-inj h) g

    on_asset_keys-Sound :
        (keys : List Value) (set : Currencies)
        → G set
        → Sound G (
            on_asset_keys ws json hex codec parser spec_name decode_entry n block asset meta keys
              set)
    unfolding on_asset_keys
    on_asset_keys-Sound [] set g = λ w found h. rw (← ok-inj h) g
    on_asset_keys-Sound (key ∷ rest) set g =
        Sound-then G
          (on_asset_key ws json hex codec parser spec_name decode_entry n block asset meta
            (json.view key) set)
          _ (on_asset_key-Sound (json.view key) set g) (λ set' g'. on_asset_keys-Sound rest set' g')

    on_asset_page-Sound :
        (page : View Value) (set : Currencies)
        → G set
        → Sound G (
            on_asset_page ws json hex codec parser spec_name decode_entry n block asset meta page
              set)
    unfolding on_asset_page
    on_asset_page-Sound (array keys) set g = on_asset_keys-Sound keys set g
    on_asset_page-Sound _ set g = λ w found h. rw (← ok-inj h) g

    on_asset_pages-Sound :
        (pages : List Value) (set : Currencies)
        → G set
        → Sound G (
            on_asset_pages ws json hex codec parser spec_name decode_entry n block asset meta pages
              set)
    unfolding on_asset_pages
    on_asset_pages-Sound [] set g = λ w found h. rw (← ok-inj h) g
    on_asset_pages-Sound (page ∷ rest) set g =
        Sound-then G
          (on_asset_page ws json hex codec parser spec_name decode_entry n block asset meta
            (json.view page) set)
          _ (on_asset_page-Sound (json.view page) set g)
          (λ set' g'. on_asset_pages-Sound rest set' g')

  pub with_entries-G :
      (entries : Option (StorageEntry Ty) × Option (StorageEntry Ty)) (set : Currencies)
      → G set
      → (w : W) (found : Currencies)
      → (with_entries ws json hex codec parser spec_name decode_entry n block entries set w).0
        ≡ ok found
      → G found
  unfolding with_entries
  with_entries-G (some asset, some meta) set g w found h =
      on_asset_pages-Sound asset meta _ set g _ found h
  with_entries-G (some asset, none) set g w found h = rw (← ok-inj h) g
  with_entries-G (none, meta) set g w found h = rw (← ok-inj h) g
