-- ===== src/Service.antt =====
-- src/chain/mod.rs: the chain manager and the trackers that it started, as they run, behind the
-- methods of `ChainManager`. A request goes to the manager and from there to a tracker, whose answer
-- comes back; what waits in the channels meanwhile is not shown.
pub mod Requests
pub mod Watching
pub mod Purchases
pub mod Tracked
pub mod Restored
mod Tests
use kalatori_backend.Prelude.{
  ℕ, String, Bool, true, not, ◌||◌, ◌&&◌, if◌then◌else◌, Option, none, some, List, [], ◌∷◌, ◌++◌,
  Result, ok, err,
}
use kalatori_backend.Prelude.Map
use kalatori_backend.Prelude.Map.{Map}
use kalatori_backend.Prelude.Exec.{Exec, lift, ◌>>=◌}
use kalatori_backend.Errors.{ChainError, message_dropped}
use kalatori_backend.Definitions.{AccountId32, Chain, CurrencyProperties, FloatOps, OrderInfo}
use kalatori_backend.Chains.{
  ChainRequest, ChainTrackerRequest, Invoice, WatchAccount, new_watch_account,
}
use kalatori_backend.Chains.Manager
use kalatori_backend.Chains.Manager.{Manager, Sent, forwarded, refused}
use kalatori_backend.Chains.Tracker
use kalatori_backend.Chains.Tracker.{
  Action, accepted, payout, Node, Flow, next, restart, finish, fail, Outcome,
}
use kalatori_backend.State.{ChainHandle}

-- The payouts are the tasks that were started, the last one first. `manager` is `none` after the end of its task, and so is missing a tracker that has ended; a tracker
-- is here the accounts that it watches.
pub record Service : Type 0 where
  pub manager : Option Manager
  pub trackers : Map (Map Invoice)
  pub payouts : List Invoice

-- A tracker's connection: whether one of its endpoints accepts one, the assets and the version of its
-- watcher, and the answers of the node.
pub record Link (Event : Type 0) : Type 0 where
  pub connected : Bool
  pub assets : Map CurrencyProperties
  pub version : String
  pub node : Node Event

-- the answer on the channel `res` of a request: without one, the channel is dropped
answer : List Action → Result ChainError (Unit {0})
answer [] = err message_dropped
answer (accepted id ∷ rest) = ok tt
answer (_ ∷ rest) = answer rest

payouts_of : List Action → List Invoice
payouts_of [] = []
payouts_of (payout i ∷ rest) = i ∷ payouts_of rest
payouts_of (_ ∷ rest) = payouts_of rest

-- the trackers after a turn of one
after_turn : String → Flow → Map Invoice → Map (Map Invoice) → Map (Map Invoice)
after_turn name next watched m = Map.insert name watched m
after_turn name restart watched m = Map.insert name watched m
after_turn name finish watched m = Map.remove name m
after_turn name (fail e) watched m = Map.remove name m

-- what the sender of a request sees of a tracker's turn
turn : String → Outcome → Service → Result ChainError (Unit {0}) × Service
unfolding answer payouts_of after_turn
turn name out s = (
  answer out.actions,
  record s {
    trackers = after_turn name out.flow out.watched s.trackers;
    payouts = payouts_of out.actions ++ s.payouts;
  },
)

module _ {Event : Type 0} (received : AccountId32 → Event → Bool) (link : String → Link Event) where
  -- A request on the channel of a tracker. A tracker without a connection does not receive: a request
  -- to it waits, and is dropped with the channel when the tracker ends.
  to_tracker :
      String
      → ChainTrackerRequest
      → Option (Map Invoice)
      → Service
      → Result ChainError (Unit {0}) × Service
  unfolding turn
  to_tracker name request none s = (err message_dropped, s)
  to_tracker name request (some watched) s =
      if (link name).connected
      then turn name
          (Tracker.handle received (link name).assets (link name).version (link name).node request
            watched)
          s
      else (err message_dropped, s)

  deliver : Sent → Exec Service ChainError (Unit {0})
  unfolding to_tracker
  deliver (forwarded chain request) s =
      to_tracker chain.name request (Map.get chain.name s.trackers) s
  deliver (refused id e) s = (err e, s)

  -- what the manager sends, in its order; the last answer counts
  deliver_all : List Sent → Exec Service ChainError (Unit {0})
  unfolding deliver
  deliver_all [] s = (err message_dropped, s)
  deliver_all (x ∷ []) s = deliver x s
  deliver_all (x ∷ y ∷ rest) s = deliver_all (y ∷ rest) (deliver x s).1

  on_manager : Option Manager → ChainRequest → Exec Service ChainError (Unit {0})
  unfolding deliver_all
  on_manager none request s = (err message_dropped, s)
  on_manager (some m) request s =
      let (sent, m') = Manager.handle m request in deliver_all sent (record s { manager = m' })

  -- Whether what the manager sends is answered or dropped while the tracker it goes to runs.
  is_received : Service → Sent → Bool
  is_received s (forwarded chain request) =
      not (Map.contains_key chain.name s.trackers) || (link chain.name).connected
  is_received s (refused id e) = true

  all_received : Service → List Sent → Bool
  unfolding is_received
  all_received s [] = true
  all_received s (x ∷ rest) = is_received s x && all_received s rest

  received_by : Option Manager → ChainRequest → Service → Bool
  unfolding all_received
  received_by none r s = true
  received_by (some m) r s = all_received s (Manager.handle m r).0

  -- a request on the channel of the manager, and the wait for its answer
  unfoldable pub request : ChainRequest → Exec Service ChainError (Unit {0})
  unfolding on_manager
  request r s = on_manager s.manager r s

  module _ (f : FloatOps) (from_base58_string : String → Result String (AccountId32 × ℕ)) where
    unfoldable pub add_invoice :
        String → OrderInfo → AccountId32 → Exec Service ChainError (Unit {0})
    unfolding request
    add_invoice id order recipient = do
      w ← lift (new_watch_account f from_base58_string id order recipient)
      request (ChainRequest.watch_account w)

    answered_for : Service → Result ChainError WatchAccount → Bool
    unfolding received_by
    answered_for s (ok w) = received_by s.manager (ChainRequest.watch_account w) s
    answered_for s (err e) = true

    -- whether `add_invoice` returns before the shutdown
    unfoldable pub is_answered : String → OrderInfo → AccountId32 → Service → Bool
    unfolding answered_for
    is_answered id order recipient s =
        answered_for s (new_watch_account f from_base58_string id order recipient)

    unfoldable pub reap : String → OrderInfo → AccountId32 → Exec Service ChainError (Unit {0})
    unfolding request
    reap id order recipient = do
      w ← lift (new_watch_account f from_base58_string id order recipient)
      request (ChainRequest.reap w)

    unfoldable pub stop : Service → Service
    unfolding request
    stop s = (request ChainRequest.shutdown s).1

    -- the handle that the state handler holds
    abbrev pub chain_manager : ChainHandle Service
    chain_manager = record {
      add_invoice = add_invoice;
      is_answered = is_answered;
      reap = reap;
      shutdown = stop;
    }
