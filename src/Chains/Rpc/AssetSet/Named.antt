-- ===== src/Chains/Rpc/AssetSet/Named.antt =====
-- What the metadata of an asset add, in `assets_set_at_block` of src/chain/rpc.rs.
use kalatori_backend.Chains.Rpc.AssetSet.Evidence.{Stored, Sufficient, Described}
use kalatori_backend.Chains.Rpc.Assets.Shown.{HasField, names_in_lem}
use kalatori_backend.Prelude.{
  ℕ, String, Bool, true, false, Option, none, some, List, [], ◌∷◌, Result, ok, err, map_err, refl,
  map_err-inv,
}
use kalatori_backend.Prelude.Map
use kalatori_backend.Prelude.Map.{Map}
use kalatori_backend.Prelude.Exec.{Exec, lift, ◌>>=◌}
use kalatori_backend.Errors.{NotHex, ChainError, util, registry_error, client}
use kalatori_backend.Hex.{Bytes, HexCoder, BlockHash, unhex}
use kalatori_backend.Chains.Properties.{View, string, Json}
use kalatori_backend.Chains.Metadata.{
  StorageHasher, StorageEntryType, plain, map, StorageEntry, ParsedView, composite, Parser,
  primitive_u8,
}
use kalatori_backend.Chains.Metadata.Keys.{u32_key}
use kalatori_backend.Chains.Rpc.{WsClient, MetadataCodec, get_value_from_storage, call}
use kalatori_backend.Chains.Rpc.Assets.{KeyView, field_text}
use kalatori_backend.Prelude.{◌≡◌, ok-inj, arith}
use kalatori_backend.Prelude.Exec.{exec-inv}
use kalatori_backend.Prelude.Map.{get-insert}
use kalatori_backend.Chains.Rpc.AssetSet.{
  Common, asset_currency, Currencies, add_asset, add_named, metadata_value, metadata_decoded,
  metadata_bytes, metadata_fetched, fetch_metadata, with_metadata,
}

-- A step keeps what a set has.
module _ {W : Type 0} (G : Currencies → Type 0) where
  abbrev pub Sound : Exec W ChainError Currencies → Type 0
  Sound m = (w : W) (set : Currencies) → (m w).0 ≡ ok set → G set

  pub Sound-bind :
      {A : Type 0} (m : Exec W ChainError A) (f : A → Exec W ChainError Currencies)
      → ((a : A) (w : W) → (m w).0 ≡ ok a → Sound (f a))
      → Sound (m >>= f)
  Sound-bind m f h w set e = let (a, found, e') = exec-inv m f w set e in h a w found (m w).1 set e'

  pub Sound-then :
      (m : Exec W ChainError Currencies) (f : Currencies → Exec W ChainError Currencies)
      → Sound m
      → ((a : Currencies) → G a → Sound (f a))
      → Sound (m >>= f)
  Sound-then m f hm hf w set e =
      let (a, found, e') = exec-inv m f w set e in hf a (hm w a found) (m w).1 set e'

-- What a set has, the loop's result has, if adding an asset that is shown keeps it.
module _ {W Value Metadata Ty Data : Type 0} (ws : WsClient W Value) (json : Json Value)
    (hex : HexCoder) (codec : MetadataCodec Metadata Ty) (parser : Parser Ty Data)
    (spec_name : Metadata → Result String String)
    (decode_entry : Bytes → Bytes → StorageEntry Ty → Result String (KeyView Data × Data))
    (n : Common) (block : BlockHash) (G : Currencies → Type 0)
    (adds : (symbol : String) (id decimals : ℕ) (set : Currencies)
      → Sufficient ws json hex parser decode_entry block id
      → Described ws json hex parser decode_entry block id symbol decimals
      → G set
      → G (Map.insert symbol (asset_currency n id decimals) set)) where
  -- fields with a symbol and with decimals describe the asset with an ID
  DescribesFields : ℕ → List (Option String × Data) → Type 0
  DescribesFields id fields =
      (s : String) (k : ℕ)
      → HasField parser fields "symbol" (λ v. field_text parser v ≡ some s)
      → HasField parser fields "decimals" (λ v. v ≡ primitive_u8 k)
      → Described ws json hex parser decode_entry block id s k

  add_asset-G :
      (id : ℕ) (symbol : Option String) (decimals : Option ℕ) (set : Currencies)
      → Sufficient ws json hex parser decode_entry block id
      → ((s : String) (k : ℕ)
          → symbol ≡ some s
          → decimals ≡ some k
          → Described ws json hex parser decode_entry block id s k)
      → G set
      → G (add_asset n id symbol decimals set)
  unfolding add_asset
  add_asset-G id none decimals set is_it describes g = g
  add_asset-G id (some symbol) none set is_it describes g = g
  add_asset-G id (some symbol) (some decimals) set is_it describes g =
      adds symbol id decimals set is_it (describes symbol decimals refl refl) g

  metadata_value-G :
      (id : ℕ) (v : ParsedView Data) (set found : Currencies)
      → Sufficient ws json hex parser decode_entry block id
      → ((fields : List (Option String × Data)) → v ≡ composite fields → DescribesFields id fields)
      → G set
      → metadata_value ws json hex codec parser spec_name decode_entry n block id v set ≡ ok found
      → G found
  unfolding metadata_value add_named DescribesFields
  metadata_value-G id (composite fields) set found is_it describes g h =
      let shows = names_in_lem parser fields in
      rw (← ok-inj h) (
        add_asset-G id _ _ set is_it
          (λ s k by_s by_k.
            describes fields refl s k (shows.by_symbol s by_s) (shows.by_decimals k by_k))
          g)
  metadata_value-G id _ set found is_it describes g h = ground arith

  metadata_decoded-G :
      (id : ℕ) (d : Result String Data) (set found : Currencies)
      → Sufficient ws json hex parser decode_entry block id
      → ((value : Data)
          → d ≡ ok value
          → (fields : List (Option String × Data)) → parser.view value ≡ composite fields
          → DescribesFields id fields)
      → G set
      → metadata_decoded ws json hex codec parser spec_name decode_entry n block id d set ≡ ok found
      → G found
  unfolding metadata_decoded
  metadata_decoded-G id (err e) set found is_it describes g h = ground arith
  metadata_decoded-G id (ok d) set found is_it describes g h =
      metadata_value-G id (parser.view d) set found is_it (describes d refl) g h

  metadata_bytes-G :
      (id : ℕ) (ty : Ty) (raw : Result ChainError Bytes) (set found : Currencies)
      → Sufficient ws json hex parser decode_entry block id
      → ((bytes : Bytes)
          → raw ≡ ok bytes
          → (value : Data) → parser.decode_all_as_type ty bytes ≡ ok value
          → (fields : List (Option String × Data)) → parser.view value ≡ composite fields
          → DescribesFields id fields)
      → G set
      → metadata_bytes ws json hex codec parser spec_name decode_entry n block id ty raw set
        ≡ ok found
      → G found
  unfolding metadata_bytes
  metadata_bytes-G id ty (err e) set found is_it describes g h = ground arith
  metadata_bytes-G id ty (ok raw) set found is_it describes g h =
      metadata_decoded-G id (parser.decode_all_as_type ty raw) set found is_it (describes raw refl)
        g h

  -- what `get_value_from_storage` answers, if it is a text of bytes
  pub stored :
      (key : String) (v : Value) (w : W) (raw : String) (bytes : Bytes)
      → (get_value_from_storage ws json hex key block w).0 ≡ ok v
      → json.view v ≡ string raw
      → unhex hex raw NotHex.storage_value ≡ ok bytes
      → Stored ws json hex parser decode_entry block key bytes
  unfolding get_value_from_storage call
  stored key v w raw bytes answered is_raw is_bytes = record {
    w = w;
    value = v;
    raw = raw;
    is_value = map_err-inv client _ v answered;
    is_raw = is_raw;
    is_bytes = is_bytes;
  }

  metadata_fetched-G :
      (id : ℕ) (hasher : StorageHasher) (ty : Ty) (v : View Value) (set found : Currencies)
      (answer : Value) (w : W)
      → Sufficient ws json hex parser decode_entry block id
      → (get_value_from_storage ws json hex
          (u32_key parser hex "Assets" "Metadata" id hasher)
          block
          w).0
        ≡ ok answer
      → json.view answer ≡ v
      → G set
      → metadata_fetched ws json hex codec parser spec_name decode_entry n block id ty v set
        ≡ ok found
      → G found
  unfolding metadata_fetched DescribesFields
  metadata_fetched-G id hasher ty (string raw) set found answer w is_it answered viewed g h =
      metadata_bytes-G id ty (map_err util (unhex hex raw NotHex.storage_value)) set found is_it
        (λ bytes is_bytes value is_decoded fields is_composite s k has_symbol has_decimals. record {
          hasher = hasher;
          bytes = bytes;
          ty = ty;
          value = value;
          fields = fields;
          is_stored =
              stored (u32_key parser hex "Assets" "Metadata" id hasher) answer w raw bytes answered
                viewed (map_err-inv util _ bytes is_bytes);
          is_decoded = is_decoded;
          is_composite = is_composite;
          has_symbol = has_symbol;
          has_decimals = has_decimals;
        })
        g h
  metadata_fetched-G id hasher ty _ set found answer w is_it answered viewed g h = rw (← ok-inj h) g

  fetch_metadata-Sound :
      (id : ℕ) (hasher : StorageHasher) (ty : Ty) (is_u32 : Bool) (set : Currencies)
      → Sufficient ws json hex parser decode_entry block id
      → G set
      → Sound G (
          fetch_metadata ws json hex codec parser spec_name decode_entry n block id hasher ty is_u32
            set)
  unfolding fetch_metadata
  fetch_metadata-Sound id hasher ty false set is_it g = λ w found h. ground arith
  fetch_metadata-Sound id hasher ty true set is_it g =
      Sound-bind G
        (get_value_from_storage ws json hex (u32_key parser hex "Assets" "Metadata" id hasher)
          block)
        _
        (λ v w answered u found h.
          metadata_fetched-G id hasher ty (json.view v) set found v w is_it answered refl g h)

  pub with_metadata-Sound :
      (id : ℕ) (ty : StorageEntryType Ty) (set : Currencies)
      → Sufficient ws json hex parser decode_entry block id
      → G set
      → Sound G (with_metadata ws json hex codec parser spec_name decode_entry n block id ty set)
  unfolding with_metadata
  with_metadata-Sound id (plain ty) set is_it g = λ w found h. ground arith
  with_metadata-Sound id (map [] key value) set is_it g = λ w found h. ground arith
  with_metadata-Sound id (map (a ∷ b ∷ rest) key value) set is_it g = λ w found h. ground arith
  with_metadata-Sound id (map (hasher ∷ []) key value) set is_it g =
      Sound-bind G (lift (map_err registry_error (parser.is_u32 key))) _
        (λ is_u32 w known. fetch_metadata-Sound id hasher value is_u32 set is_it g)
