-- ===== src/Chains/Rpc/Events.antt =====
-- src/chain/rpc.rs: the events of a block.
pub mod Transfers
use kalatori_backend.Prelude.{
  ℕ, String, Bool, true, false, ◌&&◌, Option, none, some, List, [], ◌∷◌, Result, ok, err, map_err,
  if◌then◌else◌, str_eq,
}
use mathlib.Core.List.{◌++◌}
use kalatori_backend.Prelude.Exec.{Exec, pure, raise, lift, ◌>>=◌}
use kalatori_backend.Errors.{NotHex, ChainError, util, storage_value_format}
use kalatori_backend.Hex.{Bytes, HexCoder, BlockHash, unhex}
use kalatori_backend.Chains.Properties.{View, string, array, Json}
use kalatori_backend.Chains.Metadata.{
  StorageEntry, Pallet, ParsedView, composite, sequence_raw, event, Parser, events_entry_metadata,
}
use kalatori_backend.Chains.Rpc.{
  WsClient, MetadataCodec, get_value_from_storage, get_keys_from_storage,
}

pub record EventFilter : Type 0 where
  pub pallet : String
  pub optional_event_variant : Option String

-- `Event` of the parser, by what is read of it
pub record Event (Data : Type 0) : Type 0 where
  pub pallet_name : String
  pub variant_name : String
  pub fields : List (Option String × Data)

abbrev pub balances_transfer : EventFilter
balances_transfer = record { pallet = "Balances"; optional_event_variant = some "Transfer" }

-- How a step ends without a result: an error, or the panic of `expect`.
pub data Fault : Type 0 where
  failed : ChainError → Fault
  panicked : Fault

-- the match on the filter
unfoldable pub passes : Option EventFilter → String → String → Bool
passes none pallet variant = true
passes (some f) pallet variant = elim f.optional_event_variant [
  | some v ↦ str_eq pallet f.pallet && str_eq variant v
  | none ↦ str_eq pallet f.pallet
]

module _ {W Value Metadata Ty Data : Type 0} (ws : WsClient W Value) (json : Json Value)
    (hex : HexCoder) (codec : MetadataCodec Metadata Ty) (parser : Parser Ty Data)
    -- `decode_as_storage_entry`, up to the value
    (decode_entry : Bytes → Bytes → StorageEntry Ty → Option Data) where
  event_in : Option EventFilter → ParsedView Data → List (Event Data)
  unfolding passes
  event_in filter (event pallet variant fields) =
      if passes filter pallet variant
      then record { pallet_name = pallet; variant_name = variant; fields = fields } ∷ []
      else []
  event_in filter _ = []

  -- the loop over the elements of an event record
  events_in_record : Option EventFilter → List (Option String × Data) → List (Event Data)
  unfolding event_in
  events_in_record filter [] = []
  events_in_record filter ((none, d) ∷ rest) = events_in_record filter rest
  events_in_record filter ((some name, d) ∷ rest) =
      (if str_eq name "event" then event_in filter (parser.view d) else [])
      ++ events_in_record filter rest

  events_in_element : Option EventFilter → ParsedView Data → List (Event Data)
  unfolding events_in_record
  events_in_element filter (composite fields) = events_in_record filter fields
  events_in_element filter _ = []

  -- the loop over the elements of the sequence
  events_in_sequence : Option EventFilter → List Data → List (Event Data)
  unfolding events_in_element
  events_in_sequence filter [] = []
  events_in_sequence filter (d ∷ rest) =
      events_in_element filter (parser.view d) ++ events_in_sequence filter rest

  events_in_value : Option EventFilter → ParsedView Data → List (Event Data)
  unfolding events_in_sequence
  events_in_value filter (sequence_raw ds) = events_in_sequence filter ds
  events_in_value filter _ = []

  entry_events : Option EventFilter → Option Data → Result Fault (List (Event Data))
  unfolding events_in_value
  entry_events filter none = err panicked
  entry_events filter (some d) = ok (events_in_value filter (parser.view d))

  value_bytes : Value → View Value → Result ChainError Bytes
  value_bytes v (string s) = map_err util (unhex hex s NotHex.storage_value)
  value_bytes v _ = err (storage_value_format (json.to_string v))

  value_at : BlockHash → String → Exec W Fault Value
  value_at block key w =
      let (r, w') = get_value_from_storage ws json hex key block w in (map_err failed r, w')

  bytes_of_key : String → Exec W Fault Bytes
  bytes_of_key key = lift (map_err (λ e. failed (util e)) (unhex hex key NotHex.storage_value))

  bytes_of_value : Value → Exec W Fault Bytes
  unfolding value_bytes
  bytes_of_value v = lift (map_err failed (value_bytes v (json.view v)))

  -- a key of a page
  events_at_key :
      Option EventFilter → StorageEntry Ty → BlockHash → String → Exec W Fault (List (Event Data))
  unfolding value_at bytes_of_key bytes_of_value entry_events
  events_at_key filter entry block key = do
    v ← value_at block key
    key_bytes ← bytes_of_key key
    bytes ← bytes_of_value v
    lift (entry_events filter (decode_entry key_bytes bytes entry))

  key_of : View Value → Option String
  key_of (string key) = some key
  key_of _ = none

  events_at_found :
      Option EventFilter
      → StorageEntry Ty
      → BlockHash
      → Option String
      → Exec W Fault (List (Event Data))
  unfolding events_at_key
  events_at_found filter entry block none = pure []
  events_at_found filter entry block (some key) = events_at_key filter entry block key

  -- the loop over the keys of a page; what is no text is passed over
  events_at_keys :
      Option EventFilter
      → StorageEntry Ty
      → BlockHash
      → List Value
      → Exec W Fault (List (Event Data))
  unfolding events_at_found key_of
  events_at_keys filter entry block [] = pure []
  events_at_keys filter entry block (v ∷ rest) = do
    out ← events_at_found filter entry block (key_of (json.view v))
    more ← events_at_keys filter entry block rest
    pure (out ++ more)

  events_in_page :
      Option EventFilter
      → StorageEntry Ty
      → BlockHash
      → View Value
      → Exec W Fault (List (Event Data))
  unfolding events_at_keys
  events_in_page filter entry block (array keys) = events_at_keys filter entry block keys
  events_in_page filter entry block _ = pure []

  -- the loop over the pages
  events_in_pages :
      Option EventFilter
      → StorageEntry Ty
      → BlockHash
      → List Value
      → Exec W Fault (List (Event Data))
  unfolding events_in_page
  events_in_pages filter entry block [] = pure []
  events_in_pages filter entry block (page ∷ rest) = do
    out ← events_in_page filter entry block (json.view page)
    more ← events_in_pages filter entry block rest
    pure (out ++ more)

  unfoldable pub events_at_block :
      BlockHash → Option EventFilter → StorageEntry Ty → Exec W Fault (List (Event Data))
  unfolding events_in_pages
  events_at_block block filter entry w =
      let (pages, w') = get_keys_from_storage ws json hex codec parser "System" "Events" block w in
      events_in_pages filter entry block pages w'

  unfoldable pub transfer_events : Metadata → BlockHash → Exec W Fault (List (Event Data))
  unfolding events_at_block
  transfer_events md block = do
    entry ← lift (map_err failed (events_entry_metadata (codec.pallets md)))
    events_at_block block (some balances_transfer) entry
