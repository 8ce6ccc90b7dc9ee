-- ===== src/Chains/Tracker.antt =====
-- src/chain/tracker.rs: the task that follows one chain. A connection to a node is the record of its
-- answers, a parameter; what the task sends to others is the list of its actions.
pub mod Accounts
pub mod Blocks
pub mod Reports
pub mod Watched
pub mod Connected
pub mod Connection
pub mod Assets
pub mod Cycle
use kalatori_backend.Prelude.{
  ℕ, String, ◌+◌, Bool, true, false, Option, none, some, List, [], ◌∷◌, ◌++◌, Result, ok, err,
  if◌then◌else◌, ◌&&◌, ◌==◌, leb, any, length, is_some, str_eq,
}
use kalatori_backend.Prelude.Map
use kalatori_backend.Prelude.Map.{Map}
use kalatori_backend.Errors.{ChainError, assets_invalid, wrong_network}
use kalatori_backend.Definitions.{AccountId32, AssetInfo, Chain, CurrencyProperties, NativeToken}
use kalatori_backend.Chains.{
  Client, Invoice, WatchAccount, ChainTrackerRequest, from_request, check,
}

-- what the tracker sends: to the state handler, to a new payout task, as an answer
pub data Action : Type 0 where
  order_paid : String → Action
  payout : Invoice → Action
  accepted : String → Action
  connect_chain : Map CurrencyProperties → Action
  stopped : Action

-- the accounts reported as paid, and the `id_remove_list`
pub record Seen : Type 0 where
  pub reported : List String
  pub removed : List String

-- The two places where the loop over the accounts asks for a balance; a node need not give the same
-- answer twice.
pub data Site : Type 0 where
  on_transfer on_death : Site

-- `id_remove_list` at the end
unfoldable pub remove_all {ℓ} : {V : Type ℓ} → List String → Map V → Map V
remove_all [] m = m
remove_all (id ∷ ids) m = remove_all ids (Map.remove id m)

-- What the handler of a block learns of it: the transfers, and the time of the clock.
pub record Block (Event : Type 0) : Type 0 where
  pub events : List Event
  pub now : ℕ
  pub client : Site → String → Client

-- A connection. `version`, `block_hash` and `transfer_events` are those of src/chain/rpc.rs.
pub record Node (Event : Type 0) : Type 0 where
  pub block_hash : String → Result ChainError String
  pub version_at : String → Result ChainError String
  pub transfer_events : String → Result ChainError (List Event)
  pub now : ℕ
  pub client : Site → String → Client

-- what the loop does next: the next request, another connection, or the end of the task
pub data Flow : Type 0 where
  next restart finish : Flow
  fail : ChainError → Flow

pub record Outcome : Type 0 where
  pub flow : Flow
  pub watched : Map Invoice
  pub actions : List Action

pub reports : List String → List Action
reports [] = []
reports (id ∷ ids) = order_paid id ∷ reports ids

-- the match on the balance after a transfer
pub funded : String → Result ChainError Bool → Seen
funded id (ok true) = record { reported = id ∷ []; removed = id ∷ [] }
funded id (ok false) = record { reported = []; removed = [] }
funded id (err e) = record { reported = []; removed = [] }

-- the match on the balance at the time of death
buried : String → Result ChainError Bool → Seen
buried id (ok true) = record { reported = id ∷ []; removed = id ∷ [] }
buried id (ok false) = record { reported = []; removed = id ∷ [] }
buried id (err e) = record { reported = []; removed = [] }

module _ {Event : Type 0} (received : AccountId32 → Event → Bool)
    (assets : Map CurrencyProperties) where
  module _ (b : Block Event) where
    see_transfer : String → Invoice → Seen
    unfolding funded
    see_transfer id i =
        if any (received i.address) b.events
        then funded id (check assets (b.client on_transfer id) i)
        else record { reported = []; removed = [] }

    see_death : String → Invoice → Seen
    unfolding buried
    see_death id i =
        if leb b.now i.death
        then buried id (check assets (b.client on_death id) i)
        else record { reported = []; removed = [] }

    -- the loop over the watched accounts
    unfoldable pub see_all : Map Invoice → Seen
    unfolding see_transfer see_death
    see_all [] = record { reported = []; removed = [] }
    see_all ((id, i) ∷ rest) =
        let t = see_transfer id i in
        let d = see_death id i in
        let seen = see_all rest in
        record {
          reported = t.reported ++ d.reported ++ seen.reported;
          removed = t.removed ++ d.removed ++ seen.removed;
        }

    unfoldable pub process : Map Invoice → Outcome
    unfolding see_all remove_all reports
    process watched = record {
      flow = next;
      watched = remove_all (see_all watched).removed watched;
      actions = reports (see_all watched).reported;
    }

  module _ (version : String) (node : Node Event) where
    at_events : Result ChainError (List Event) → Map Invoice → Outcome
    unfolding process
    at_events (err e) watched = record { flow = restart; watched = watched; actions = [] }
    at_events (ok events) watched =
        process (record { events = events; now = node.now; client = node.client }) watched

    at_version : String → Result ChainError String → Map Invoice → Outcome
    unfolding at_events
    at_version block (err e) watched = record { flow = fail e; watched = watched; actions = [] }
    at_version block (ok v) watched =
        if str_eq version v
        then at_events (node.transfer_events block) watched
        else record { flow = restart; watched = watched; actions = [] }

    at_block : Result ChainError String → Map Invoice → Outcome
    unfolding at_version
    at_block (err e) watched = record { flow = restart; watched = watched; actions = [] }
    at_block (ok block) watched = at_version block (node.version_at block) watched

    -- one turn of the loop over the requests
    unfoldable pub handle : ChainTrackerRequest → Map Invoice → Outcome
    unfolding at_block from_request
    handle (ChainTrackerRequest.new_block number) watched =
        at_block (node.block_hash number) watched
    handle (ChainTrackerRequest.watch_account w) watched = record {
      flow = next;
      watched = Map.insert w.id (from_request w) watched;
      actions = accepted w.id ∷ [];
    }
    handle (ChainTrackerRequest.reap w) watched = record {
      flow = next;
      watched = watched;
      actions = accepted w.id ∷ payout (from_request w) ∷ [];
    }
    handle ChainTrackerRequest.shutdown watched = record {
      flow = finish;
      watched = watched;
      actions = stopped ∷ [];
    }

-- one request, as the loop handles it: the answers of the node, the accounts watched, what was sent
pub record Turn (Event : Type 0) : Type 0 where
  pub node : Node Event
  pub watched : Map Invoice
  pub actions : List Action

proceed : {Event : Type 0} → Flow → List (Turn Event) → List (Turn Event)
proceed next rest = rest
proceed _ rest = []

-- the loop over the requests on one connection
unfoldable pub run :
    {Event : Type 0}
    → (AccountId32 → Event → Bool)
    → Map CurrencyProperties
    → String
    → List (Node Event × ChainTrackerRequest)
    → Map Invoice
    → List (Turn Event)
unfolding handle proceed
run received assets version [] watched = []
run received assets version ((node, request) ∷ rest) watched =
    let out = handle received assets version node request watched in
    let turns = run received assets version rest out.watched in
    record { node = node; watched = watched; actions = out.actions } ∷ proceed out.flow turns
