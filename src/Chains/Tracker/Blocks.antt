-- ===== src/Chains/Tracker/Blocks.antt =====
-- A new block in src/chain/tracker.rs, from the request to the watch list and the reports.
use kalatori_backend.Prelude.{String, ◌≡◌, refl, Bool, List, ok, eq_refl}
use kalatori_backend.Prelude.Map
use kalatori_backend.Prelude.Map.{Map, Distinct}
use kalatori_backend.Definitions.{AccountId32, CurrencyProperties}
use kalatori_backend.Chains.{Invoice, ChainTrackerRequest}
use kalatori_backend.Chains.Tracker.{
  Block, Node, next, process, at_block, at_version, at_events, handle,
}
use kalatori_backend.Chains.Tracker.Accounts.{still, process-settles}

-- What the handler of a block reads of the connection, when nothing fails.
pub record Reads {Event : Type 0} (node : Node Event) (version number : String)
    (events : List Event) : Type 0 where
  pub hash : String
  pub hash_read : node.block_hash number ≡ ok hash
  pub same_version : node.version_at hash ≡ ok version
  pub events_read : node.transfer_events hash ≡ ok events

module _ {Event : Type 0} (received : AccountId32 → Event → Bool)
    (assets : Map CurrencyProperties) where
  abbrev pub block_of : Node Event → List Event → Block Event
  block_of node events = record { events = events; now = node.now; client = node.client }

  new_block-process :
      (version : String) (node : Node Event) (number : String) (events : List Event)
      (watched : Map Invoice)
      → Reads node version number events
      → handle received assets version node (ChainTrackerRequest.new_block number) watched
        ≡ process received assets (block_of node events) watched
  unfolding handle at_block at_version at_events
  new_block-process version node number events watched r =
      rw (r.hash_read) (rw (r.same_version, eq_refl version) (rw (r.events_read) refl))

  -- Let the watch list have one entry for each order, and let the hash, an unchanged runtime version
  -- and the transfers of a new block be read. Then the tracker goes on to the next request, and an
  -- order stays watched with the same invoice unless it is due: unless its account received a
  -- transfer and its balance was then read as enough, or its death is not before the time of the
  -- block and its balance was read at all. No other order becomes watched.
  pub new_block_settles :
      (version : String) (node : Node Event) (number : String) (events : List Event)
      (watched : Map Invoice) (id : String)
      → Distinct watched
      → Reads node version number events
      → let out =
          handle received assets version node (ChainTrackerRequest.new_block number) watched in
        (out.flow ≡ next)
        × (Map.get id out.watched
            ≡ still received assets (block_of node events) id (Map.get id watched))
  new_block_settles version node number events watched id d r =
      rw (new_block-process version node number events watched r) (
        unfold process in refl,
        process-settles received assets (block_of node events) id watched d,
      )
