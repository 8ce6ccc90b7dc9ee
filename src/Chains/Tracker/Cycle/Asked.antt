-- ===== src/Chains/Tracker/Cycle/Asked.antt =====
-- What a tracker of src/chain/tracker.rs reports and pays out in a turn: orders that it was asked about.
use kalatori_backend.Prelude.{
  String, Bool, true, false, Bool-cases, inl, inr, List, [], ◌∷◌, ◌++◌, Result, ok, err, All,
  All-++, leb, any, str_eq,
}
use kalatori_backend.Prelude.Map
use kalatori_backend.Prelude.Map.{Map}
use kalatori_backend.Errors.{ChainError}
use kalatori_backend.Definitions.{AccountId32, CurrencyProperties}
use kalatori_backend.Chains.{Invoice, ChainTrackerRequest, from_request, check}
use kalatori_backend.Chains.Tracker.{
  Action, order_paid, payout, on_transfer, on_death, Block, Node, Outcome, remove_all, reports,
  funded, buried, see_transfer, see_death, see_all, process, at_events, at_version, at_block,
  handle,
}

module _ (P : String → Type 0) (Q : Invoice → Type 0) where
  -- what is sent of an order: a report is of one that was given to watch, a payout of one that was
  -- given to reap
  abbrev pub Answers : Action → Type 0
  Answers (order_paid id) = P id
  Answers (payout i) = Q i
  Answers _ = Unit

  -- a request gives an order to watch or to reap
  abbrev pub Asks : ChainTrackerRequest → Type 0
  Asks (ChainTrackerRequest.watch_account w) = P w.id
  Asks (ChainTrackerRequest.reap w) = Q (from_request w)
  Asks _ = Unit

  abbrev pub Watches : Map Invoice → Type 0
  Watches watched = All (λ (kv : String × Invoice). P kv.0) watched

  -- only orders that were given are watched, reported and paid out
  abbrev pub Answered : Outcome → Type 0
  Answered out = Watches out.watched × All Answers out.actions

  insert-Watches :
      (id : String) (i : Invoice) (m : Map Invoice) → P id → Watches m → Watches (Map.insert id i m)
  unfolding Map.insert
  insert-Watches id i [] given h = (given, tt)
  insert-Watches id i ((j, k) ∷ m) given (h, hs) = elim (Bool-cases (str_eq j id)) [
    | inl same ↦ rw same (h, hs)
    | inr other ↦ rw other (h, insert-Watches id i m given hs)
  ]

  remove-Watches : (id : String) (m : Map Invoice) → Watches m → Watches (Map.remove id m)
  unfolding Map.remove
  remove-Watches id [] h = tt
  remove-Watches id ((j, k) ∷ m) (h, hs) = elim (Bool-cases (str_eq j id)) [
    | inl same ↦ rw same (remove-Watches id m hs)
    | inr other ↦ rw other (h, remove-Watches id m hs)
  ]

  pub remove_all-Watches :
      (ids : List String) (m : Map Invoice) → Watches m → Watches (remove_all ids m)
  unfolding remove_all
  remove_all-Watches [] m h = h
  remove_all-Watches (id ∷ ids) m h =
      remove_all-Watches ids (Map.remove id m) (remove-Watches id m h)

  pub funded-All : (id : String) (r : Result ChainError Bool) → P id → All P (funded id r).reported
  unfolding funded
  funded-All id (ok true) h = (h, tt)
  funded-All id (ok false) h = tt
  funded-All id (err e) h = tt

  buried-All : (id : String) (r : Result ChainError Bool) → P id → All P (buried id r).reported
  unfolding buried
  buried-All id (ok true) h = (h, tt)
  buried-All id (ok false) h = tt
  buried-All id (err e) h = tt

  pub reports-Answers : (ids : List String) → All P ids → All Answers (reports ids)
  unfolding reports
  reports-Answers [] h = tt
  reports-Answers (id ∷ ids) (h, hs) = (h, reports-Answers ids hs)

  module _ {Event : Type 0} (received : AccountId32 → Event → Bool)
      (assets : Map CurrencyProperties) where
    see_transfer-All :
        (b : Block Event) (id : String) (i : Invoice)
        → P id
        → All P (see_transfer received assets b id i).reported
    unfolding see_transfer
    see_transfer-All b id i h = elim (Bool-cases (any (received i.address) b.events)) [
      | inl seen ↦ rw seen (funded-All id (check assets (b.client on_transfer id) i) h)
      | inr unseen ↦ rw unseen tt
    ]

    see_death-All :
        (b : Block Event) (id : String) (i : Invoice)
        → P id
        → All P (see_death received assets b id i).reported
    unfolding see_death
    see_death-All b id i h = elim (Bool-cases (leb b.now i.death)) [
      | inl due ↦ rw due (buried-All id (check assets (b.client on_death id) i) h)
      | inr past ↦ rw past tt
    ]

    see_all-All :
        (b : Block Event) (watched : Map Invoice)
        → Watches watched
        → All P (see_all received assets b watched).reported
    unfolding see_all
    see_all-All b [] h = tt
    see_all-All b ((id, i) ∷ rest) (h, hs) =
        let transfer = (see_transfer received assets b id i).reported in
        let death = (see_death received assets b id i).reported in
        All-++ P (transfer ++ death) (see_all received assets b rest).reported
          (All-++ P transfer death (see_transfer-All b id i h) (see_death-All b id i h))
          (see_all-All b rest hs)

    module _ (version : String) (node : Node Event) (watched : Map Invoice)
        (h : Watches watched) where
      at_events-Answered :
          (r : Result ChainError (List Event))
          → Answered (at_events received assets version node r watched)
      unfolding at_events process
      at_events-Answered (err e) = (h, tt)
      at_events-Answered (ok events) =
          let b : Block Event = record { events = events; now = node.now; client = node.client } in
          (
            remove_all-Watches (see_all received assets b watched).removed watched h,
            reports-Answers (see_all received assets b watched).reported (see_all-All b watched h),
          )

      at_version-Answered :
          (block : String) (r : Result ChainError String)
          → Answered (at_version received assets version node block r watched)
      unfolding at_version
      at_version-Answered block (err e) = (h, tt)
      at_version-Answered block (ok v) = elim (Bool-cases (str_eq version v)) [
        | inl same ↦ rw same (at_events-Answered (node.transfer_events block))
        | inr other ↦ rw other (h, tt)
      ]

      at_block-Answered :
          (r : Result ChainError String)
          → Answered (at_block received assets version node r watched)
      unfolding at_block
      at_block-Answered (err e) = (h, tt)
      at_block-Answered (ok block) = at_version-Answered block (node.version_at block)

      pub handle-Answered :
          (request : ChainTrackerRequest)
          → Asks request
          → Answered (handle received assets version node request watched)
      unfolding handle
      handle-Answered (ChainTrackerRequest.new_block number) given =
          at_block-Answered (node.block_hash number)
      handle-Answered (ChainTrackerRequest.watch_account w) given =
          (insert-Watches w.id (from_request w) watched given h, (tt, tt))
      handle-Answered (ChainTrackerRequest.reap w) given = (h, (tt, (given, tt)))
      handle-Answered ChainTrackerRequest.shutdown given = (h, (tt, tt))
