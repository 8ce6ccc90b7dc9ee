-- ===== src/Chains/Rpc/Tests.antt =====
-- The theorems on src/chain/rpc.rs at a node that serves one page of keys.
use kalatori_backend.Prelude.{
  ℕ, zero, suc, ◌≡◌, refl, String, true, none, some, List, [], ◌∷◌, map, Result, ok, length, All,
  ◌==◌, str_eq, if◌then◌else◌, inr,
}
use kalatori_backend.Hex.{Bytes, HexCoder, BlockHash, unhex, from_str, strip_prefix}
use kalatori_backend.Chains.Properties.{string, array, Json, ShortSpecs}
use kalatori_backend.Chains.Metadata.{
  StorageEntry, StorageHasher, plain, Pallet, StorageEntryType, primitive_u32, primitive_bool,
  primitive_u8, text, sequence_u8, ParsedView, composite, sequence_raw, event, id, Parser,
  events_entry_metadata, find_entry,
}
use kalatori_backend.Chains.Metadata.Receipts.{
  was_balance_received_at_account, receivers, is_only, received-receivers,
}
use kalatori_backend.Chains.Rpc.{
  WsClient, MetadataCodec, head, next_key, last, call, block_hash, next_block, next_block_number,
  get_keys_from_storage, get_value_from_storage,
}
use kalatori_backend.Chains.Rpc.Blocks.{hashes_sized}
use kalatori_backend.Prelude.Map
use kalatori_backend.Chains.Rpc.Assets.{
  KeyView, storage_with, entries_of, asset_id_of, verified_sufficient, names_in,
}
use kalatori_backend.Chains.Metadata.Keys.{u32_key}
use kalatori_backend.Chains.Rpc.AssetSet.{
  Common, Currencies, native_currency, asset_currency, assets_set_at_block,
}
use kalatori_backend.Chains.Rpc.AssetSet.Currencies.{IsCurrency, assets_set_at_block-IsCurrency}
use kalatori_backend.Chains.Rpc.Events.{Event, passes, events_at_block, transfer_events}
use kalatori_backend.Chains.Rpc.Events.Transfers.{IsTransfer, transfer_events-IsTransfer}

data Value : Type 0 where
  lit : String → Value
  keys : List String → Value

abbrev json : Json Value
json = record {
  view = elim [ lit s ↦ string s | keys ks ↦ array (map lit ks) ];
  to_string = λ v. "a value";
}

repeat : ℕ → Bytes
repeat zero = []
repeat (suc n) = 7 ∷ repeat n

-- every text is 32 times the byte 7
abbrev hex : HexCoder
unfolding repeat
hex = record { encode = λ raw. "07"; decode = λ s. some (repeat 32) }

-- The connection is the number of pages of keys that are left.
answer : String → ℕ → Result String Value × ℕ
answer method zero =
    if str_eq method "state_getKeysPaged" then (ok (keys []), zero) else (ok (lit "0x07"), zero)
answer method (suc n) =
    if str_eq method "state_getKeysPaged"
    then (ok (keys ("0x01" ∷ [])), n)
    else (ok (lit "0x07"), suc n)

abbrev ws : WsClient ℕ Value
unfolding answer
ws = record { request = λ method params w. answer method w }

abbrev block : BlockHash
unfolding repeat
block = record { bytes = repeat 32 }

-- Data is a number: a list of events, an event record, a transfer of DOT, and one of an asset.
parsed : ℕ → ParsedView ℕ
parsed zero = sequence_raw (1 ∷ [])
parsed (suc zero) = composite ((some "event", 2) ∷ (some "event", 3) ∷ [])
parsed (suc (suc zero)) = event "Balances" "Transfer" ((some "to", 4) ∷ [])
parsed (suc (suc (suc zero))) = event "Assets" "Transferred" ((some "to", 4) ∷ [])
parsed (suc (suc (suc (suc n)))) = id (1 ∷ [])

abbrev parser : Parser ℕ ℕ
unfolding parsed
parser = record {
  view = parsed;
  decode_all_as_type = λ ty raw. ok ty;
  is_u32 = λ ty. ok true;
  encode_u32 = λ n. n ∷ [];
  as_bytes = λ s. [];
  hash_blake2_128 = λ b. b;
  hash_blake2_256 = λ b. b;
  hash_twox_64 = λ b. b;
  hash_twox_128 = λ b. b;
  hash_twox_256 = λ b. b;
}

abbrev events : StorageEntry ℕ
events = record { name = "Events"; ty = plain 0 }

abbrev system : Pallet ℕ
system = record {
  name = "System";
  index = 0;
  storage = some (record { prefix = "System"; entries = events ∷ [] });
  constants = [];
}

abbrev codec : MetadataCodec (List (Pallet ℕ)) ℕ
codec = record {
  option_bytes = λ raw. some (some raw);
  runtime_metadata = λ raw. some (some (system ∷ []));
  pallets = λ md. md;
}

hashes_sized_example : length block.bytes ≡ 32
unfolding next_block block_hash next_block_number call answer from_str unhex strip_prefix repeat
hashes_sized_example = hashes_sized ws json hex none (head "12") 0 block (inr (inr refl))

abbrev transfer : Event ℕ
transfer = record {
  pallet_name = "Balances";
  variant_name = "Transfer";
  fields = (some "to", 4) ∷ [];
}

-- the asset's transfer is not among the events
transfer_events-IsTransfer_example : All IsTransfer (transfer ∷ [])
unfolding transfer_events events_at_block events_entry_metadata find_entry get_keys_from_storage
    next_key last answer get_value_from_storage call unhex strip_prefix passes repeat parsed
transfer_events-IsTransfer_example =
    transfer_events-IsTransfer ws json hex codec parser (λ k v e. some 0) (system ∷ []) block 1
      (transfer ∷ []) refl

received-receivers_example :
    was_balance_received_at_account parser (1 ∷ []) transfer.fields
    ≡ is_only parser (1 ∷ []) (receivers parser transfer.fields)
received-receivers_example = received-receivers parser (1 ∷ []) transfer.fields

-- the data of a sufficient asset, and of its metadata
asset_data : ℕ → ParsedView ℕ
asset_data n =
    if n == 0
    then primitive_u32 1337
    else if n == 1
    then composite ((some "is_sufficient", 2) ∷ [])
    else if n == 2
    then primitive_bool true
    else if n == 3
    then composite ((some "name", 4) ∷ (some "symbol", 5) ∷ (some "decimals", 6) ∷ [])
    else if n == 4
    then text "USD Coin"
    else if n == 5
    then sequence_u8 (some "USDC")
    else primitive_u8 6

abbrev asset_parser : Parser ℕ ℕ
unfolding asset_data parsed
asset_parser = record parser { view = asset_data }

abbrev assets : Pallet ℕ
assets = record {
  name = "Assets";
  index = 50;
  storage = some (record {
    prefix = "Assets";
    entries =
        record { name = "Asset"; ty = plain 1 }
        ∷ record { name = "Metadata"; ty = StorageEntryType.map (StorageHasher.identity ∷ []) 0 3 }
        ∷ [];
  });
  constants = [];
}

abbrev asset_codec : MetadataCodec (List (Pallet ℕ)) ℕ
asset_codec = record {
  option_bytes = λ raw. some (some raw);
  runtime_metadata = λ raw. some (some (assets ∷ []));
  pallets = λ md. md;
}

abbrev statemint : Common
statemint = record { chain_name = "statemint"; rpc_url = "wss://node"; ss58 = 0 }

abbrev found : Currencies
found = ("DOT", native_currency statemint 10) ∷ ("USDC", asset_currency statemint 1337 6) ∷ []

abbrev decode_asset : Bytes → Bytes → StorageEntry ℕ → Result String (KeyView ℕ × ℕ)
decode_asset key value entry = ok (KeyView.parsed 0, 1)

abbrev dot_specs : ShortSpecs
dot_specs = record { base58prefix = 0; decimals = 10; unit = "DOT" }

assets_test :
    (assets_set_at_block ws json hex asset_codec asset_parser
      (λ md. ok "statemint")
      decode_asset
      block
      (assets ∷ [])
      "wss://node"
      dot_specs
      1).0
    ≡ ok found
unfolding assets_set_at_block get_keys_from_storage next_key last answer get_value_from_storage call
    unhex strip_prefix repeat asset_data storage_with entries_of asset_id_of verified_sufficient
    names_in u32_key Map.insert asset_parser
assets_test = refl

assets_set_at_block-IsCurrency_example :
    (chain_name : String) × (Path (Result String String) (ok "statemint") (ok chain_name))
    × All
        (IsCurrency ws json hex asset_parser decode_asset block
          (record { chain_name = chain_name; rpc_url = "wss://node"; ss58 = 0 })
          dot_specs)
        found
    × (Map.contains_key "DOT" found ≡ true)
assets_set_at_block-IsCurrency_example =
    assets_set_at_block-IsCurrency ws json hex asset_codec asset_parser (λ md. ok "statemint")
      decode_asset block (assets ∷ []) "wss://node" dot_specs 1 found assets_test
