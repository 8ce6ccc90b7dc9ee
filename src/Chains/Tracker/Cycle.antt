-- ===== src/Chains/Tracker/Cycle.antt =====
-- `start_chain_watch` of src/chain/tracker.rs: the loop over the endpoints of a chain, each of which a
-- tracker uses until its connection is to be restarted.
pub mod Asked
pub mod Reported
mod Tests
use kalatori_backend.Prelude.{
  String, Bool, Option, none, some, List, [], ◌∷◌, ◌++◌, Result, ok, err, if◌then◌else◌,
}
use kalatori_backend.Prelude.Map.{Map}
use kalatori_backend.Errors.{ChainError}
use kalatori_backend.Definitions.{AccountId32, Chain, CurrencyProperties}
use kalatori_backend.Chains.{Invoice, ChainTrackerRequest}
use kalatori_backend.Chains.Tracker.{
  Action, Node, Flow, next, restart, finish, fail, Outcome, handle,
}
use kalatori_backend.Chains.Tracker.Connection.{Probe, ChainWatcher, prepare_chain}

-- A turn of the loop: whether the token is cancelled before it, whether there is a client, what the
-- node answers to the new connection, and the requests with the node's answers until the watchdog.
pub record Attempt (Event Metadata Specs : Type 0) : Type 0 where
  pub is_cancelled : Bool
  pub has_client : Bool
  pub probe : Probe Metadata Specs
  pub requests : List (Node Event × ChainTrackerRequest)

-- what follows after a request of a connection
serve_on : Outcome → Flow → Outcome → Outcome
serve_on out next later = record later { actions = out.actions ++ later.actions }
serve_on out _ later = out

-- the endpoint of a turn, and those that are left of the cycle
next_endpoint : List String → List String → Option (String × List String)
next_endpoint endpoints (endpoint ∷ rest) = some (endpoint, rest)
next_endpoint (endpoint ∷ rest) [] = some (endpoint, rest)
next_endpoint [] [] = none

-- what follows after a connection
after_attempt : Outcome → Flow → Outcome → Outcome
after_attempt out finish later = out
after_attempt out (fail e) later = out
after_attempt out _ later = record later { actions = out.actions ++ later.actions }

stopped_with : Flow → Map Invoice → Outcome
stopped_with flow watched = record { flow = flow; watched = watched; actions = [] }

at_endpoint :
    Option (String × List String) → Map Invoice → (String → List String → Outcome) → Outcome
unfolding stopped_with
at_endpoint none watched follow = stopped_with finish watched
at_endpoint (some (endpoint, rest)) watched follow = follow endpoint rest

module _ {Event : Type 0} (received : AccountId32 → Event → Bool) where
  -- the loop over the requests, up to its end by the watchdog
  unfoldable pub serve :
      Map CurrencyProperties
      → String
      → List (Node Event × ChainTrackerRequest)
      → Map Invoice
      → Outcome
  unfolding serve_on stopped_with handle
  serve assets version [] watched = stopped_with restart watched
  serve assets version ((node, request) ∷ rest) watched =
      let out = handle received assets version node request watched in
      let later = serve assets version rest out.watched in serve_on out out.flow later

module _ {Event Metadata Specs : Type 0} (received : AccountId32 → Event → Bool) where
  on_prepared :
      Result ChainError (ChainWatcher Metadata Specs) × Map Invoice × List Action
      → List (Node Event × ChainTrackerRequest)
      → Outcome
  unfolding serve
  on_prepared (err e, watched, actions) requests = record {
    flow = restart;
    watched = watched;
    actions = actions;
  }
  on_prepared (ok w, watched, actions) requests =
      let out = serve received w.assets w.version requests watched in
      record out { actions = actions ++ out.actions }

  attempt_at : Chain → String → Attempt Event Metadata Specs → Map Invoice → Outcome
  unfolding on_prepared stopped_with
  attempt_at chain endpoint a watched =
      if a.has_client
      then on_prepared (prepare_chain a.probe chain endpoint watched) a.requests
      else stopped_with restart watched

  -- the loop over the endpoints, over its turns; `restart` at their end
  unfoldable pub watch_endpoints :
      Chain → List String → List (Attempt Event Metadata Specs) → Map Invoice → Outcome
  unfolding at_endpoint next_endpoint attempt_at after_attempt stopped_with
  watch_endpoints chain left [] watched = stopped_with restart watched
  watch_endpoints chain left (a ∷ rest) watched =
      let go = at_endpoint (next_endpoint chain.endpoints left) watched λ endpoint left'.
        let out = attempt_at chain endpoint a watched in
        after_attempt out out.flow (watch_endpoints chain left' rest out.watched) in
      if a.is_cancelled then stopped_with finish watched else go

  unfoldable pub start_chain_watch : Chain → List (Attempt Event Metadata Specs) → Outcome
  unfolding watch_endpoints
  start_chain_watch chain attempts = watch_endpoints chain chain.endpoints attempts []
