-- ===== src/Chains/Tracker/Connected.antt =====
-- The reports of src/chain/tracker.rs over all requests on one connection.
use kalatori_backend.Prelude.{String, Bool, List, [], ◌∷◌, All}
use kalatori_backend.Prelude.Map.{Map, Distinct}
use kalatori_backend.Definitions.{AccountId32, CurrencyProperties}
use kalatori_backend.Chains.{Invoice, ChainTrackerRequest}
use kalatori_backend.Chains.Tracker.{
  Node, Turn, Flow, next, restart, finish, fail, proceed, handle, run,
}
use kalatori_backend.Chains.Tracker.Reports.{Backed, reports_are_funded}
use kalatori_backend.Chains.Tracker.Watched.{handle-Distinct}

proceed-All :
    {Event : Type 0} (P : Turn Event → Type 0) (flow : Flow) (rest : List (Turn Event))
    → All P rest
    → All P (proceed flow rest)
unfolding proceed
proceed-All P next rest h = h
proceed-All P restart rest h = tt
proceed-All P finish rest h = tt
proceed-All P (fail e) rest h = tt

module _ {Event : Type 0} (received : AccountId32 → Event → Bool) (assets : Map CurrencyProperties)
    (version : String) where
  -- every report of a turn is about a funded order
  abbrev pub IsBacked : Turn Event → Type 0
  IsBacked t = All (Backed assets t.node.client t.watched) t.actions

  -- Let the watch list have one entry for each order. Over any requests on a connection, whatever
  -- the node answers to each, an order is reported as paid only while it is watched, and only if its
  -- balance was then read as at least the amount of its invoice.
  pub run_reports_are_funded :
      (requests : List (Node Event × ChainTrackerRequest)) (watched : Map Invoice)
      → Distinct watched
      → All IsBacked (run received assets version requests watched)
  unfolding run
  run_reports_are_funded [] watched d = tt
  run_reports_are_funded ((node, request) ∷ rest) watched d =
      let out = handle received assets version node request watched in
      let later =
        run_reports_are_funded rest out.watched
          (handle-Distinct received assets version node watched d request) in
      (
        reports_are_funded received assets version node watched d request,
        proceed-All IsBacked out.flow (run received assets version rest out.watched) later,
      )
