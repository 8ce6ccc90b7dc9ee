-- ===== src/Chains/Tracker/Cycle/Reported.antt =====
-- What a tracker of src/chain/tracker.rs reports and pays out over all its connections.
use kalatori_backend.Prelude.{
  String, Bool, Bool-cases, inl, inr, Option, none, some, List, [], ◌∷◌, Result, ok, err, All,
  All-++,
}
use kalatori_backend.Prelude.Map.{Map}
use kalatori_backend.Errors.{ChainError}
use kalatori_backend.Definitions.{AccountId32, Chain, CurrencyProperties}
use kalatori_backend.Chains.{Invoice, ChainTrackerRequest, check}
use kalatori_backend.Chains.Tracker.{
  Node, Flow, next, finish, fail, Outcome, remove_all, reports, funded, handle,
}
use kalatori_backend.Chains.Tracker.Connection.{
  Probe, ChainWatcher, see_watched, connect, connected, prepare_chain,
}
use kalatori_backend.Chains.Tracker.Cycle.{
  Attempt, serve_on, next_endpoint, after_attempt, stopped_with, at_endpoint, serve, on_prepared,
  attempt_at, watch_endpoints, start_chain_watch,
}
use kalatori_backend.Chains.Tracker.Cycle.Asked.{
  Answers, Asks, Watches, Answered, remove_all-Watches, funded-All, reports-Answers,
  handle-Answered,
}

module _ (P : String → Type 0) (Q : Invoice → Type 0) where
  serve_on-Answered :
      (out : Outcome) (flow : Flow) (later : Outcome)
      → Answered P Q out
      → Answered P Q later
      → Answered P Q (serve_on out flow later)
  unfolding serve_on
  serve_on-Answered out next later (w, a) (w', a') =
      (w', All-++ (Answers P Q) out.actions later.actions a a')
  serve_on-Answered out _ later h h' = h

  after_attempt-Answered :
      (out : Outcome) (flow : Flow) (later : Outcome)
      → Answered P Q out
      → Answered P Q later
      → Answered P Q (after_attempt out flow later)
  unfolding after_attempt
  after_attempt-Answered out finish later h h' = h
  after_attempt-Answered out (fail e) later h h' = h
  after_attempt-Answered out _ later (w, a) (w', a') =
      (w', All-++ (Answers P Q) out.actions later.actions a a')

  at_endpoint-Answered :
      (found : Option (String × List String)) (watched : Map Invoice)
      (follow : String → List String → Outcome)
      → Watches P Q watched
      → ((endpoint : String) (left : List String) → Answered P Q (follow endpoint left))
      → Answered P Q (at_endpoint found watched follow)
  unfolding at_endpoint stopped_with
  at_endpoint-Answered none watched follow h follows = (h, tt)
  at_endpoint-Answered (some (endpoint, left)) watched follow h follows = follows endpoint left

  -- the requests of a connection give what they ask about
  abbrev pub AsksAll : {Event : Type 0} → List (Node Event × ChainTrackerRequest) → Type 0
  AsksAll {Event = Event} requests =
      All (λ (r : Node Event × ChainTrackerRequest). Asks P Q r.1) requests

  abbrev pub AttemptAsks : {Event Metadata Specs : Type 0} → Attempt Event Metadata Specs → Type 0
  AttemptAsks a = AsksAll a.requests

  see_watched-All :
      {Metadata Specs : Type 0} (probe : Probe Metadata Specs) (assets : Map CurrencyProperties)
      (watched : Map Invoice)
      → Watches P Q watched
      → All P (see_watched probe assets watched).reported
  unfolding see_watched
  see_watched-All probe assets [] h = tt
  see_watched-All probe assets ((id, i) ∷ rest) (h, hs) =
      All-++ P (funded id (check assets (probe.client id) i)).reported
        (see_watched probe assets rest).reported
        (funded-All P Q id (check assets (probe.client id) i) h)
        (see_watched-All probe assets rest hs)

module _ {Event : Type 0} (received : AccountId32 → Event → Bool) (P : String → Type 0)
    (Q : Invoice → Type 0) where
  serve-Answered :
      (assets : Map CurrencyProperties) (version : String)
      (requests : List (Node Event × ChainTrackerRequest)) (watched : Map Invoice)
      → AsksAll P Q requests
      → Watches P Q watched
      → Answered P Q (serve received assets version requests watched)
  unfolding serve stopped_with
  serve-Answered assets version [] watched asks h = (h, tt)
  serve-Answered assets version ((node, request) ∷ rest) watched (ask, asks) h =
      let out = handle received assets version node request watched in
      let done = handle-Answered P Q received assets version node watched h request ask in
      serve_on-Answered P Q out out.flow (serve received assets version rest out.watched) done
        (serve-Answered assets version rest out.watched asks done.0)

module _ {Event Metadata Specs : Type 0} (received : AccountId32 → Event → Bool)
    (P : String → Type 0) (Q : Invoice → Type 0) where
  on_prepared-Answered :
      (probe : Probe Metadata Specs) (r : Result ChainError (ChainWatcher Metadata Specs))
      (watched : Map Invoice) (requests : List (Node Event × ChainTrackerRequest))
      → AsksAll P Q requests
      → Watches P Q watched
      → Answered P Q (on_prepared received (connected probe r watched) requests)
  unfolding on_prepared connected
  on_prepared-Answered probe (err e) watched requests asks h = (h, tt)
  on_prepared-Answered probe (ok w) watched requests asks h =
      let seen = see_watched probe w.assets watched in
      let kept = remove_all-Watches P Q seen.removed watched h in
      let rest = remove_all seen.removed watched in
      let (later, sent) = serve-Answered received P Q w.assets w.version requests rest asks kept in
      (
        later,
        (
          tt,
          All-++ (Answers P Q) (reports seen.reported)
              (serve received w.assets w.version requests rest).actions
              (reports-Answers P Q seen.reported (see_watched-All P Q probe w.assets watched h))
              sent,
        ),
      )

  attempt_at-Answered :
      (chain : Chain) (endpoint : String) (a : Attempt Event Metadata Specs) (watched : Map Invoice)
      → AttemptAsks P Q a
      → Watches P Q watched
      → Answered P Q (attempt_at received chain endpoint a watched)
  unfolding attempt_at prepare_chain stopped_with
  attempt_at-Answered chain endpoint a watched asks h = elim (Bool-cases a.has_client) [
    | inl up ↦
        rw up
          (on_prepared-Answered a.probe (connect a.probe chain endpoint) watched a.requests asks h)
    | inr down ↦ rw down (h, tt)
  ]

  watch_endpoints-Answered :
      (chain : Chain) (left : List String) (attempts : List (Attempt Event Metadata Specs))
      (watched : Map Invoice)
      → All (AttemptAsks P Q) attempts
      → Watches P Q watched
      → Answered P Q (watch_endpoints received chain left attempts watched)
  unfolding watch_endpoints stopped_with
  watch_endpoints-Answered chain left [] watched asks h = (h, tt)
  watch_endpoints-Answered chain left (a ∷ rest) watched (ask, asks) h =
      elim (Bool-cases a.is_cancelled) [
        | inl cancelled ↦ rw cancelled (h, tt)
        | inr going ↦ rw going (
            at_endpoint-Answered P Q (next_endpoint chain.endpoints left) watched _ h
              (λ endpoint left'.
                let out = attempt_at received chain endpoint a watched in
                let done = attempt_at-Answered chain endpoint a watched ask h in
                after_attempt-Answered P Q out out.flow
                  (watch_endpoints received chain left' rest out.watched) done
                  (watch_endpoints-Answered chain left' rest out.watched asks done.0)))
      ]

  -- Let a property hold of the ID of every order that the tracker of a chain is asked to watch, and
  -- another of every invoice that it is asked to reap, over all its connections, whatever the nodes
  -- answer. Every order that it reports as paid then has the one, every invoice that it pays out the
  -- other, and so has every order that is watched in the end.
  pub start_chain_watch-Answered :
      (chain : Chain) (attempts : List (Attempt Event Metadata Specs))
      → All (AttemptAsks P Q) attempts
      → Answered P Q (start_chain_watch received chain attempts)
  unfolding start_chain_watch
  start_chain_watch-Answered chain attempts asks =
      watch_endpoints-Answered chain chain.endpoints attempts [] asks tt
