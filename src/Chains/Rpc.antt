-- ===== src/Chains/Rpc.antt =====
-- src/chain/rpc.rs: the requests to a node. The client is a step over the state of the connection, so
-- that a node may answer the same request in different ways.
pub mod Paging
pub mod Blocks
pub mod Balances
pub mod Assets
pub mod AssetSet
pub mod Events
mod Tests
use Prim.Native.String.{◌++◌}
use kalatori_backend.Prelude.{
  ℕ, zero, suc, String, Bool, true, false, Option, none, some, List, [], ◌∷◌, Result, ok, err,
  map_err, ok_or, if◌then◌else◌,
}
use mathlib.Core.List.{◌++◌ as ◌<>◌}
use kalatori_backend.Prelude.Exec.{Exec, pure, raise, lift, ◌>>=◌}
use kalatori_backend.Prelude.Lists.{strip}
use kalatori_backend.Errors.{
  NotHex, ChainError, client, util, genesis_hash_format, block_hash_format,
  raw_metadata_not_decodeable, no_metadata_v15, metadata_not_decodeable, no_meta_prefix,
  metadata_format, properties_format, block_subscription_terminated,
}
use kalatori_backend.Hex.{Bytes, HexCoder, BlockHash, unhex, to_string, from_str}
use kalatori_backend.Chains.Properties.{
  View, string, array, object, Json, ShortSpecs, system_properties_to_short_specs,
}
use kalatori_backend.Chains.Metadata.{Pallet, Parser, optional_prefix_from_meta}
use kalatori_backend.Chains.Metadata.Keys.{storage_key}

-- a parameter of a request
pub data Param : Type 0 where
  text : String → Param
  num : ℕ → Param

-- `WsClient::request`; an error is its text
pub record WsClient (W Value : Type 0) : Type 0 where
  pub request : String → List Param → W → Result String Value × W

-- The decoding of the answer with the metadata: an optional byte string, and then metadata, of which
-- `none` is another version than 15. What the code reads of it are its pallets.
pub record MetadataCodec (Metadata Ty : Type 0) : Type 0 where
  pub option_bytes : Bytes → Option (Option Bytes)
  pub runtime_metadata : Bytes → Option (Option Metadata)
  pub pallets : Metadata → List (Pallet Ty)

abbrev pub max_key_pages : ℕ
max_key_pages = 256

-- the ASCII codes of `meta`
abbrev pub meta_prefix : Bytes
meta_prefix = 109 ∷ 101 ∷ 116 ∷ 97 ∷ []

-- `keys_inside.last()`
unfoldable pub last {ℓ} : {A : Type ℓ} → List A → Option A
last [] = none
last (x ∷ []) = some x
last (x ∷ y ∷ rest) = last (y ∷ rest)

-- what the subscription of blocks yields: a block number, an error, or its end
pub data Yield : Type 0 where
  head : String → Yield
  broken : String → Yield
  ended : Yield

module _ {W Value : Type 0} (ws : WsClient W Value) (json : Json Value) (hex : HexCoder) where
  -- a request whose error becomes an error of the chain
  unfoldable pub call : String → List Param → Exec W ChainError Value
  call method params w = let (r, w') = ws.request method params w in (map_err client r, w')

  unfoldable pub runtime_version_identifier : BlockHash → Exec W ChainError Value
  unfolding call
  runtime_version_identifier block =
      call "state_getRuntimeVersion" (text (to_string hex block) ∷ [])

  unfoldable pub get_value_from_storage : String → BlockHash → Exec W ChainError Value
  unfolding call
  get_value_from_storage whole_key block =
      call "state_getStorage" (text whole_key ∷ text (to_string hex block) ∷ [])

  unfoldable pub send_stuff : String → Exec W ChainError Value
  unfolding call
  send_stuff extrinsic = call "author_submitAndWatchExtrinsic" (text extrinsic ∷ [])

  string_of : View Value → Option String
  string_of (string s) = some s
  string_of _ = none

  last_string : Option Value → Option String
  unfolding string_of
  last_string none = none
  last_string (some v) = string_of (json.view v)

  -- the key that the next page starts after, if the loop goes on
  unfoldable pub next_key : View Value → Option String
  unfolding last last_string
  next_key (array keys) = last_string (last keys)
  next_key _ = none

  start_param : Option String → List Param
  start_param none = []
  start_param (some key) = text key ∷ []

  unfoldable pub page_params : String → BlockHash → Option String → List Param
  unfolding start_param
  page_params prefix block start_key =
      text prefix ∷ num 10 ∷ (start_param start_key <> (text (to_string hex block) ∷ []))

  -- the end of a turn of the loop over the pages, with what goes on
  on_key :
      Option String
      → Value
      → List Value
      → W
      → (String → List Value → W → List Value × W)
      → List Value × W
  on_key none keys keys_vec w more = (keys_vec, w)
  on_key (some key) keys keys_vec w more = more key (keys_vec <> (keys ∷ [])) w

  on_page :
      Result String Value
      → List Value
      → W
      → (String → List Value → W → List Value × W)
      → List Value × W
  unfolding on_key next_key
  on_page (err e) keys_vec w more = (keys_vec, w)
  on_page (ok keys) keys_vec w more = on_key (next_key (json.view keys)) keys keys_vec w more

  -- The loop over the pages, for a number of rounds; it ends early at a page without a last key, and
  -- at a request that fails.
  pages : ℕ → String → BlockHash → Option String → List Value → W → List Value × W
  unfolding on_page page_params
  pages zero prefix block start_key keys_vec w = (keys_vec, w)
  pages (suc rounds) prefix block start_key keys_vec w =
      let (r, w') = ws.request "state_getKeysPaged" (page_params prefix block start_key) w in
      on_page r keys_vec w' (λ key found u. pages rounds prefix block (some key) found u)

  hash_of : ChainError → View Value → Result ChainError BlockHash
  hash_of e (string x) = from_str hex x
  hash_of e _ = err e

  unfoldable pub genesis_hash : Exec W ChainError BlockHash
  unfolding call hash_of
  genesis_hash = do
    v ← call "chain_getBlockHash" (num 0 ∷ [])
    lift (hash_of genesis_hash_format (json.view v))

  number_param : Option String → List Param
  number_param none = []
  number_param (some n) = text n ∷ []

  unfoldable pub block_hash : Option String → Exec W ChainError BlockHash
  unfolding call hash_of number_param
  block_hash n = do
    v ← call "chain_getBlockHash" (number_param n)
    lift (hash_of block_hash_format (json.view v))

  unfoldable pub next_block_number : Yield → Result ChainError String
  next_block_number (head n) = ok n
  next_block_number (broken e) = err (client e)
  next_block_number ended = err block_subscription_terminated

  unfoldable pub next_block : Yield → Exec W ChainError BlockHash
  unfolding next_block_number block_hash
  next_block yielded = do n ← lift (next_block_number yielded); block_hash (some n)

  module _ {Metadata Ty Data : Type 0} (codec : MetadataCodec Metadata Ty)
      (parser : Parser Ty Data) where
    unfoldable pub get_keys_from_storage : String → String → BlockHash → W → List Value × W
    unfolding pages
    get_keys_from_storage prefix storage_name block =
        pages max_key_pages (storage_key parser hex prefix storage_name) block none []

    version_15 : Option (Option Metadata) → Result ChainError Metadata
    version_15 none = err metadata_not_decodeable
    version_15 (some none) = err no_metadata_v15
    version_15 (some (some md)) = ok md

    unprefixed : Option Bytes → Result ChainError Metadata
    unfolding version_15
    unprefixed none = err no_meta_prefix
    unprefixed (some rest) = version_15 (codec.runtime_metadata rest)

    meta_bytes : Option (Option Bytes) → Result ChainError Metadata
    unfolding unprefixed
    meta_bytes none = err raw_metadata_not_decodeable
    meta_bytes (some none) = err no_metadata_v15
    meta_bytes (some (some bytes)) = unprefixed (strip meta_prefix bytes)

    metadata_of : View Value → Result ChainError Metadata
    unfolding meta_bytes
    metadata_of (string x) = elim (unhex hex x NotHex.metadata) [
      | err e ↦ err (util e)
      | ok raw ↦ meta_bytes (codec.option_bytes raw)
    ]
    metadata_of _ = err metadata_format

    unfoldable pub metadata : BlockHash → Exec W ChainError Metadata
    unfolding call metadata_of
    metadata block = do
      v ← call "state_call" (
          text "Metadata_metadata_at_version" ∷ text "0x0f000000" ∷ text (to_string hex block) ∷ [])
      lift (metadata_of (json.view v))

    specs_of : Metadata → View Value → Result ChainError ShortSpecs
    specs_of md (object properties) =
        system_properties_to_short_specs json properties
          (optional_prefix_from_meta parser (codec.pallets md))
    specs_of md _ = err properties_format

    unfoldable pub specs : Metadata → BlockHash → Exec W ChainError ShortSpecs
    unfolding call specs_of
    specs md block = do
      v ← call "system_properties" (text (to_string hex block) ∷ [])
      lift (specs_of md (json.view v))
