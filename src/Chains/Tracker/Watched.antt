-- ===== src/Chains/Tracker/Watched.antt =====
-- The watch list of src/chain/tracker.rs has one entry for each order.
use kalatori_backend.Prelude.{
  String, Bool, List, [], ◌∷◌, Result, ok, err, str_eq, Bool-cases, inl, inr,
}
use kalatori_backend.Prelude.Map
use kalatori_backend.Prelude.Map.{Map, Distinct, insert-Distinct, remove-Distinct}
use kalatori_backend.Errors.{ChainError}
use kalatori_backend.Definitions.{AccountId32, CurrencyProperties}
use kalatori_backend.Chains.{Invoice, ChainTrackerRequest, from_request}
use kalatori_backend.Chains.Tracker.{
  Node, Block, remove_all, see_all, process, at_events, at_version, at_block, handle,
}

remove_all-Distinct :
    (ids : List String) (m : Map Invoice) → Distinct m → Distinct (remove_all ids m)
unfolding remove_all
remove_all-Distinct [] m d = d
remove_all-Distinct (id ∷ ids) m d =
    remove_all-Distinct ids (Map.remove id m) (remove-Distinct id m d)

module _ {Event : Type 0} (received : AccountId32 → Event → Bool) (assets : Map CurrencyProperties)
    (version : String) (node : Node Event) (watched : Map Invoice) (d : Distinct watched) where
  at_events-Distinct :
      (r : Result ChainError (List Event))
      → Distinct (at_events received assets version node r watched).watched
  unfolding at_events process
  at_events-Distinct (err e) = d
  at_events-Distinct (ok events) =
      let b : Block Event = record { events = events; now = node.now; client = node.client } in
      remove_all-Distinct (see_all received assets b watched).removed watched d

  at_version-Distinct :
      (block : String) (r : Result ChainError String)
      → Distinct (at_version received assets version node block r watched).watched
  unfolding at_version
  at_version-Distinct block (err e) = d
  at_version-Distinct block (ok v) = elim (Bool-cases (str_eq version v)) [
    | inl same ↦ rw same (at_events-Distinct (node.transfer_events block))
    | inr other ↦ rw other d
  ]

  at_block-Distinct :
      (r : Result ChainError String)
      → Distinct (at_block received assets version node r watched).watched
  unfolding at_block
  at_block-Distinct (err e) = d
  at_block-Distinct (ok block) = at_version-Distinct block (node.version_at block)

  -- If the watch list has one entry for each order, then so has it after any request.
  pub handle-Distinct :
      (request : ChainTrackerRequest)
      → Distinct (handle received assets version node request watched).watched
  unfolding handle
  handle-Distinct (ChainTrackerRequest.new_block number) =
      at_block-Distinct (node.block_hash number)
  handle-Distinct (ChainTrackerRequest.watch_account w) =
      insert-Distinct w.id (from_request w) watched d
  handle-Distinct (ChainTrackerRequest.reap w) = d
  handle-Distinct ChainTrackerRequest.shutdown = d
