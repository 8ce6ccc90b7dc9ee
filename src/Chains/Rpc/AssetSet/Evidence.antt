-- ===== src/Chains/Rpc/AssetSet/Evidence.antt =====
-- What a node shows of the assets that `assets_set_at_block` of src/chain/rpc.rs reads.
use kalatori_backend.Chains.Rpc.Assets.Shown.{HasField}
use kalatori_backend.Prelude.{ℕ, String, true, Option, some, List, [], ◌∷◌, Result, ok}
use kalatori_backend.Errors.{NotHex}
use kalatori_backend.Hex
use kalatori_backend.Hex.{Bytes, HexCoder, BlockHash, unhex}
use kalatori_backend.Chains.Properties.{string, Json}
use kalatori_backend.Chains.Metadata.{
  StorageHasher, StorageEntry, composite, Parser, primitive_u32, primitive_bool, primitive_u8,
}
use kalatori_backend.Chains.Metadata.Keys.{u32_key}
use kalatori_backend.Chains.Rpc.{WsClient, text}
use kalatori_backend.Chains.Rpc.Assets.{KeyView, parsed, field_text}
use kalatori_backend.Prelude.{◌≡◌}

-- What a node at a block shows of the assets of a chain.
module _ {W Value Ty Data : Type 0} (ws : WsClient W Value) (json : Json Value) (hex : HexCoder)
    (parser : Parser Ty Data)
    (decode_entry : Bytes → Bytes → StorageEntry Ty → Result String (KeyView Data × Data))
    (block : BlockHash) where
  -- the node answers a request for the value under a key with a text of bytes
  pub record Stored (key : String) (bytes : Bytes) : Type 0 where
    pub w : W
    pub value : Value
    pub raw : String
    pub is_value :
        (ws.request "state_getStorage" (text key ∷ text (Hex.to_string hex block) ∷ []) w).0
        ≡ ok value
    pub is_raw : json.view value ≡ string raw
    pub is_bytes : unhex hex raw NotHex.storage_value ≡ ok bytes

  -- what is stored under some key is decoded as an entry
  pub record Decoded (key : KeyView Data) (value : Data) : Type 0 where
    pub storage_key : String
    pub key_data : Bytes
    pub value_data : Bytes
    pub asset : StorageEntry Ty
    pub is_key : unhex hex storage_key NotHex.storage_key ≡ ok key_data
    pub is_stored : Stored storage_key value_data
    pub is_decoded : decode_entry key_data value_data asset ≡ ok (key, value)

  -- an entry has the ID as its key, and says that the asset is sufficient
  pub record Sufficient (id : ℕ) : Type 0 where
    pub key : Data
    pub value : Data
    pub fields : List (Option String × Data)
    pub decoded : Decoded (parsed key) value
    pub is_id : parser.view key ≡ primitive_u32 id
    pub is_composite : parser.view value ≡ composite fields
    pub is_sufficient : HasField parser fields "is_sufficient" (λ v. v ≡ primitive_bool true)

  -- the metadata of the asset with the ID have this symbol and these decimals
  pub record Described (id : ℕ) (symbol : String) (decimals : ℕ) : Type 0 where
    pub hasher : StorageHasher
    pub bytes : Bytes
    pub ty : Ty
    pub value : Data
    pub fields : List (Option String × Data)
    pub is_stored : Stored (u32_key parser hex "Assets" "Metadata" id hasher) bytes
    pub is_decoded : parser.decode_all_as_type ty bytes ≡ ok value
    pub is_composite : parser.view value ≡ composite fields
    pub has_symbol : HasField parser fields "symbol" (λ v. field_text parser v ≡ some symbol)
    pub has_decimals : HasField parser fields "decimals" (λ v. v ≡ primitive_u8 decimals)
