-- ===== src/Chains/Rpc/Events/Transfers.antt =====
-- The events that src/chain/rpc.rs hands to the tracker.
use mathlib.Core.List.{◌++◌}
use kalatori_backend.Prelude.{
  String, ◌≡◌, Bool, true, false, Option, none, some, List, [], ◌∷◌, ok, map_err, All, All-++,
  if◌then◌else◌, arith, Bool-cases, inl, inr, ok-inj, str_eq, eq_iff, All-imp,
}
use kalatori_backend.Prelude.Exec.{Exec, pure, lift, ◌>>=◌, exec-inv}
use kalatori_backend.Hex.{Bytes, HexCoder, BlockHash}
use kalatori_backend.Chains.Properties.{View, array, Json}
use kalatori_backend.Chains.Metadata.{
  StorageEntry, ParsedView, composite, sequence_raw, event, Parser, events_entry_metadata,
}
use kalatori_backend.Chains.Rpc.{WsClient, MetadataCodec}
use kalatori_backend.Chains.Rpc.Events.{
  EventFilter, Event, Fault, failed, passes, event_in, events_in_record, events_in_element,
  events_in_sequence, events_in_value, entry_events, events_at_key, events_at_found, events_at_keys,
  events_in_page, events_in_pages, events_at_block, key_of, balances_transfer, transfer_events,
  value_at, bytes_of_key, bytes_of_value,
}

module _ {W Value Metadata Ty Data : Type 0} (ws : WsClient W Value) (json : Json Value)
    (hex : HexCoder) (codec : MetadataCodec Metadata Ty) (parser : Parser Ty Data)
    (decode_entry : Bytes → Bytes → StorageEntry Ty → Option Data)
    (filter : Option EventFilter) where
  Passes : Event Data → Type 0
  Passes e = passes filter e.pallet_name e.variant_name ≡ true

  event_in-Passes :
      (d : ParsedView Data) → All Passes (event_in ws json hex codec parser decode_entry filter d)
  unfolding event_in Passes
  event_in-Passes (event pallet variant fields) = elim (Bool-cases (passes filter pallet variant)) [
    | inl right ↦ rw right (right, tt)
    | inr wrong ↦ rw wrong tt
  ]
  event_in-Passes _ = tt

  events_in_record-Passes :
      (fields : List (Option String × Data))
      → All Passes (events_in_record ws json hex codec parser decode_entry filter fields)
  unfolding events_in_record
  events_in_record-Passes [] = tt
  events_in_record-Passes ((none, d) ∷ rest) = events_in_record-Passes rest
  events_in_record-Passes ((some name, d) ∷ rest) =
      All-++ Passes _ _ (named (str_eq name "event")) (events_in_record-Passes rest)
    where
      named :
          (b : Bool)
          → All Passes (
              if b
              then event_in ws json hex codec parser decode_entry filter (parser.view d)
              else [])
      named true = event_in-Passes (parser.view d)
      named false = tt

  events_in_element-Passes :
      (d : ParsedView Data)
      → All Passes (events_in_element ws json hex codec parser decode_entry filter d)
  unfolding events_in_element
  events_in_element-Passes (composite fields) = events_in_record-Passes fields
  events_in_element-Passes _ = tt

  events_in_sequence-Passes :
      (ds : List Data)
      → All Passes (events_in_sequence ws json hex codec parser decode_entry filter ds)
  unfolding events_in_sequence
  events_in_sequence-Passes [] = tt
  events_in_sequence-Passes (d ∷ rest) =
      All-++ Passes _ _ (events_in_element-Passes (parser.view d)) (events_in_sequence-Passes rest)

  entry_events-Passes :
      (d : Option Data) (out : List (Event Data))
      → entry_events ws json hex codec parser decode_entry filter d ≡ ok out
      → All Passes out
  unfolding entry_events events_in_value
  entry_events-Passes none out h = absurd (ground arith)
  entry_events-Passes (some d) out h = rw (← ok-inj h) (value (parser.view d))
    where
      value :
          (v : ParsedView Data)
          → All Passes (events_in_value ws json hex codec parser decode_entry filter v)
      value (sequence_raw ds) = events_in_sequence-Passes ds
      value _ = tt

  -- a step whose results are events that pass
  Passing : Exec W Fault (List (Event Data)) → Type 0
  Passing m = (w : W) (out : List (Event Data)) → (m w).0 ≡ ok out → All Passes out

  both :
      (m n : Exec W Fault (List (Event Data)))
      → Passing m
      → Passing n
      → Passing (do out ← m; more ← n; pure (out ++ more))
  unfolding Passing
  both m n p q w out h =
      let (first, one, h1) = exec-inv m _ w out h in
      let (second, two, h2) = exec-inv n _ (m w).1 out h1 in
      rw (← ok-inj h2) (All-++ Passes first second (p w first one) (q (m w).1 second two))

  nothing : Passing (pure [])
  unfolding Passing
  nothing w out h = rw (← ok-inj h) tt

  after :
      {A : Type 0} (m : Exec W Fault A) (f : A → Exec W Fault (List (Event Data)))
      → ((a : A) → Passing (f a))
      → Passing (m >>= f)
  unfolding Passing
  after m f p w out h = let (a, _, h1) = exec-inv m f w out h in p a (m w).1 out h1

  lifted :
      (d : Option Data)
      → Passing (lift (entry_events ws json hex codec parser decode_entry filter d))
  unfolding Passing
  lifted d w out h = entry_events-Passes d out h

  events_at_key-Passing :
      (entry : StorageEntry Ty) (block : BlockHash) (key : String)
      → Passing (events_at_key ws json hex codec parser decode_entry filter entry block key)
  unfolding events_at_key
  events_at_key-Passing entry block key =
      after (value_at ws json hex codec parser decode_entry block key) _ (λ v.
        after (bytes_of_key ws json hex codec parser decode_entry key) _ (λ key_bytes.
          after (bytes_of_value ws json hex codec parser decode_entry v) _
            (λ bytes. lifted (decode_entry key_bytes bytes entry))))

  events_at_found-Passing :
      (entry : StorageEntry Ty) (block : BlockHash) (key : Option String)
      → Passing (events_at_found ws json hex codec parser decode_entry filter entry block key)
  unfolding events_at_found
  events_at_found-Passing entry block none = nothing
  events_at_found-Passing entry block (some key) = events_at_key-Passing entry block key

  events_at_keys-Passing :
      (entry : StorageEntry Ty) (block : BlockHash) (keys : List Value)
      → Passing (events_at_keys ws json hex codec parser decode_entry filter entry block keys)
  unfolding events_at_keys
  events_at_keys-Passing entry block [] = nothing
  events_at_keys-Passing entry block (v ∷ rest) =
      both _ _
        (events_at_found-Passing entry block
          (key_of ws json hex codec parser decode_entry (json.view v)))
        (events_at_keys-Passing entry block rest)

  events_in_page-Passing :
      (entry : StorageEntry Ty) (block : BlockHash) (page : View Value)
      → Passing (events_in_page ws json hex codec parser decode_entry filter entry block page)
  unfolding events_in_page
  events_in_page-Passing entry block (array keys) = events_at_keys-Passing entry block keys
  events_in_page-Passing entry block _ = nothing

  events_in_pages-Passing :
      (entry : StorageEntry Ty) (block : BlockHash) (pages : List Value)
      → Passing (events_in_pages ws json hex codec parser decode_entry filter entry block pages)
  unfolding events_in_pages
  events_in_pages-Passing entry block [] = nothing
  events_in_pages-Passing entry block (page ∷ rest) =
      both _ _ (events_in_page-Passing entry block (json.view page))
        (events_in_pages-Passing entry block rest)

  -- Every event that is read at a block passes the filter that was asked for.
  pub events_at_block_pass :
      (block : BlockHash) (entry : StorageEntry Ty) (w : W) (out : List (Event Data))
      → (events_at_block ws json hex codec parser decode_entry block filter entry w).0 ≡ ok out
      → All (λ e. passes filter e.pallet_name e.variant_name ≡ true) out
  unfolding events_at_block Passing Passes
  events_at_block_pass block entry w out h = events_in_pages-Passing entry block _ _ out h

abbrev pub IsTransfer : {Data : Type 0} → Event Data → Type 0
IsTransfer e = (e.pallet_name ≡ "Balances") × (e.variant_name ≡ "Transfer")

passes-IsTransfer :
    (pallet variant : String)
    → passes (some balances_transfer) pallet variant ≡ true
    → (pallet ≡ "Balances") × (variant ≡ "Transfer")
unfolding passes
passes-IsTransfer pallet variant h =
    ground (arith, eq_iff pallet "Balances", eq_iff variant "Transfer")

module _ {W Value Metadata Ty Data : Type 0} (ws : WsClient W Value) (json : Json Value)
    (hex : HexCoder) (codec : MetadataCodec Metadata Ty) (parser : Parser Ty Data)
    (decode_entry : Bytes → Bytes → StorageEntry Ty → Option Data) where
  -- The transfer events that the tracker sees of a block are those of the pallet of the native token:
  -- if they can be read, every one is a `Transfer` of `Balances`. No transfer of an asset is among
  -- them.
  pub transfer_events-IsTransfer :
      (md : Metadata) (block : BlockHash) (w : W) (out : List (Event Data))
      → (transfer_events ws json hex codec parser decode_entry md block w).0 ≡ ok out
      → All IsTransfer out
  unfolding transfer_events
  transfer_events-IsTransfer md block w out h =
      let find : Exec W Fault (StorageEntry Ty) =
        lift (map_err failed (events_entry_metadata (codec.pallets md))) in
      let (entry, _, h1) = exec-inv find _ w out h in
      All-imp _ IsTransfer out (λ e. passes-IsTransfer e.pallet_name e.variant_name)
        (events_at_block_pass ws json hex codec parser decode_entry (some balances_transfer) block
          entry w out h1)
