-- ===== src/Chains/Tracker/Reports.antt =====
-- Which orders src/chain/tracker.rs reports as paid.
use kalatori_backend.Prelude.{
  String, ◌≤◌, ◌≡◌, refl, Bool, true, false, none, some, List, [], ◌∷◌, ◌++◌, Result, ok, err,
  ◌>>=◌, leb, any, All, All-++, All-imp, str_eq, eq_iff, eq_refl, arith, Bool-cases, inl, inr,
}
use kalatori_backend.Prelude.Map
use kalatori_backend.Prelude.Map.{Map, Distinct}
use kalatori_backend.Errors.{ChainError}
use kalatori_backend.Definitions.{AccountId32, CurrencyProperties, Balance}
use kalatori_backend.Chains.{Client, Invoice, ChainTrackerRequest, check, balance}
use kalatori_backend.Chains.Tracker.{
  Action, order_paid, Site, on_transfer, on_death, Block, Node, Outcome, reports, funded, buried,
  see_transfer, see_death, see_all, process, at_block, at_version, at_events, handle,
}

-- An order that is watched, and whose balance was read as at least the amount of the order.
pub record Funded (assets : Map CurrencyProperties) (client : Site → String → Client)
    (watched : Map Invoice) (id : String) : Type 0 where
  pub invoice : Invoice
  pub site : Site
  pub held : Balance
  pub is_watched : Map.get id watched ≡ some invoice
  pub read : balance assets (client site id) invoice ≡ ok held
  pub enough : invoice.amount ≤ held

module _ (assets : Map CurrencyProperties) (client : Site → String → Client) where
  -- a report of a payment is about a funded order
  abbrev pub Backed : Map Invoice → Action → Type 0
  Backed watched (order_paid id) = Funded assets client watched id
  Backed watched _ = Unit

  enough_read :
      (amount : Balance) (r : Result ChainError Balance)
      → (r >>= λ held. ok (leb amount held)) ≡ ok true
      → (held : Balance) × (r ≡ ok held) × (amount ≤ held)
  enough_read amount (ok held) h = (held, refl, ground arith)
  enough_read amount (err e) h = ground arith

  check-Funded :
      (site : Site) (id : String) (i : Invoice) (watched : Map Invoice)
      → Map.get id watched ≡ some i
      → check assets (client site id) i ≡ ok true
      → Funded assets client watched id
  unfolding check
  check-Funded site id i watched w h =
      let (held, read, enough) = enough_read i.amount (balance assets (client site id) i) h in
      record { invoice = i; site = site; held = held; is_watched = w; read = read; enough = enough }

  -- an order of the rest of the list is still found behind another
  Funded-cons :
      (id x : String) (i : Invoice) (m : Map Invoice)
      → Map.get id m ≡ none
      → Funded assets client m x
      → Funded assets client ((id, i) ∷ m) x
  unfolding Map.get
  Funded-cons id x i m apart f = record {
    invoice = f.invoice;
    site = f.site;
    held = f.held;
    is_watched = ground (arith, eq_iff id x, f.is_watched);
    read = f.read;
    enough = f.enough;
  }

module _ (P : String → Type 0) (id : String) where
  funded-All : (r : Result ChainError Bool) → (r ≡ ok true → P id) → All P (funded id r).reported
  unfolding funded
  funded-All (ok true) h = (h refl, tt)
  funded-All (ok false) h = tt
  funded-All (err e) h = tt

  buried-All : (r : Result ChainError Bool) → (r ≡ ok true → P id) → All P (buried id r).reported
  unfolding buried
  buried-All (ok true) h = (h refl, tt)
  buried-All (ok false) h = tt
  buried-All (err e) h = tt

module _ {Event : Type 0} (received : AccountId32 → Event → Bool) (assets : Map CurrencyProperties)
    (b : Block Event) where
  seen-All :
      (P : String → Type 0) (id : String) (i : Invoice)
      → ((site : Site) → check assets (b.client site id) i ≡ ok true → P id)
      → All P (
          (see_transfer received assets b id i).reported
          ++ (see_death received assets b id i).reported)
  unfolding see_transfer see_death
  seen-All P id i h =
      let f = funded-All P id (check assets (b.client on_transfer id) i) (h on_transfer) in
      let d = buried-All P id (check assets (b.client on_death id) i) (h on_death) in
      All-++ P (see_transfer received assets b id i).reported
        (see_death received assets b id i).reported
        (elim (Bool-cases (any (received i.address) b.events)) [
          | inl due ↦ rw due f
          | inr idle ↦ rw idle tt
        ])
        (elim (Bool-cases (leb b.now i.death)) [ inl due ↦ rw due d | inr idle ↦ rw idle tt ])

  see_all-Funded :
      (m : Map Invoice)
      → Distinct m
      → All (Funded assets b.client m) (see_all received assets b m).reported
  unfolding see_all Distinct
  see_all-Funded [] d = tt
  see_all-Funded ((id, i) ∷ m) (apart, d) =
      let P = Funded assets b.client ((id, i) ∷ m) in
      let found : Map.get id ((id, i) ∷ m) ≡ some i = unfold Map.get in rw (eq_refl id) refl in
      All-++ P _ _
        (seen-All P id i (λ site. check-Funded assets b.client site id i ((id, i) ∷ m) found))
        (All-imp (Funded assets b.client m) P _ (λ x. Funded-cons assets b.client id x i m apart)
          (see_all-Funded m d))

reports-All :
    (Q : Action → Type 0) (ids : List String)
    → All (λ id. Q (order_paid id)) ids
    → All Q (reports ids)
unfolding reports
reports-All Q [] p = tt
reports-All Q (id ∷ ids) (p, ps) = (p, reports-All Q ids ps)

module _ {Event : Type 0} (received : AccountId32 → Event → Bool) (assets : Map CurrencyProperties)
    (version : String) (node : Node Event) (watched : Map Invoice) (d : Distinct watched) where
  abbrev Justified : Outcome → Type 0
  Justified out = All (Backed assets node.client watched) out.actions

  at_events-Justified :
      (r : Result ChainError (List Event))
      → Justified (at_events received assets version node r watched)
  unfolding at_events process
  at_events-Justified (err e) = tt
  at_events-Justified (ok events) =
      let b : Block Event = record { events = events; now = node.now; client = node.client } in
      reports-All (Backed assets node.client watched) (see_all received assets b watched).reported
        (see_all-Funded received assets b watched d)

  at_version-Justified :
      (block : String) (r : Result ChainError String)
      → Justified (at_version received assets version node block r watched)
  unfolding at_version
  at_version-Justified block (err e) = tt
  at_version-Justified block (ok v) = elim (Bool-cases (str_eq version v)) [
    | inl same ↦ rw same (at_events-Justified (node.transfer_events block))
    | inr other ↦ rw other tt
  ]

  at_block-Justified :
      (r : Result ChainError String) → Justified (at_block received assets version node r watched)
  unfolding at_block
  at_block-Justified (err e) = tt
  at_block-Justified (ok block) = at_version-Justified block (node.version_at block)

  -- Let the watch list have one entry for each order. Whatever request the tracker handles, and
  -- whatever the node answers, each order that the tracker reports as paid is watched, and its
  -- balance was read as at least the amount of its invoice.
  pub reports_are_funded :
      (request : ChainTrackerRequest)
      → All
          (Backed assets node.client watched)
          (handle received assets version node request watched).actions
  unfolding handle
  reports_are_funded (ChainTrackerRequest.new_block number) =
      at_block-Justified (node.block_hash number)
  reports_are_funded (ChainTrackerRequest.watch_account w) = (tt, tt)
  reports_are_funded (ChainTrackerRequest.reap w) = (tt, (tt, tt))
  reports_are_funded ChainTrackerRequest.shutdown = (tt, tt)
