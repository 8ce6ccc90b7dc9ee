-- ===== src/Service/Requests.antt =====
-- The requests to the chain manager of src/chain/mod.rs about a currency of a chain that it started.
use kalatori_backend.Prelude.{
  ℕ, Bool, true, String, ◌≡◌, refl, ap, ◌∙◌, some, List, ◌∷◌, Result, ok, Mem,
}
use kalatori_backend.Prelude.Map
use kalatori_backend.Prelude.Map.{Map, get-insert_self}
use kalatori_backend.Definitions.{AccountId32, Chain, FloatOps, OrderInfo, parse_balance}
use kalatori_backend.Chains.{
  ChainRequest, ChainTrackerRequest, Invoice, WatchAccount, new_watch_account, from_request,
}
use kalatori_backend.Chains.Manager.{Manager, ignite}
use kalatori_backend.Chains.Manager.Routing.{names_of}
use kalatori_backend.Chains.Manager.Start.{Forwards, ignite-Forwards}
use kalatori_backend.Chains.Tracker
use kalatori_backend.Signer.{Crypto}
use kalatori_backend.Database.{Storage}
use kalatori_backend.Database.Server.{Setup}
use kalatori_backend.Service.{
  Service, Link, answer, payouts_of, after_turn, turn, to_tracker, deliver, deliver_all, on_manager,
  request, add_invoice, reap,
}

-- the request about an order
abbrev pub watch_of : FloatOps → String → OrderInfo → AccountId32 → AccountId32 → WatchAccount
watch_of f id order address recipient = record {
  id = id;
  address = address;
  currency = order.currency.currency;
  amount = parse_balance f order.amount order.currency.decimals;
  recipient = recipient;
  death = order.death;
}

module _ (f : FloatOps) (from_base58_string : String → Result String (AccountId32 × ℕ)) where
  new_watch_account_ok :
      (id : String) (order : OrderInfo) (recipient address : AccountId32) (prefix : ℕ)
      → from_base58_string order.payment_account ≡ ok (address, prefix)
      → new_watch_account f from_base58_string id order recipient
        ≡ ok (watch_of f id order address recipient)
  unfolding new_watch_account
  new_watch_account_ok id order recipient address prefix h = rw h refl

module _ {Event : Type 0} (received : AccountId32 → Event → Bool) (link : String → Link Event) where
  -- A service whose manager runs, and a tracker that runs and is connected.
  pub record Runs (s : Service) (m : Manager) (chain : String) (watched : Map Invoice)
      : Type 0 where
    pub is_managed : s.manager ≡ some m
    pub is_tracked : Map.get chain s.trackers ≡ some watched
    pub is_connected : (link chain).connected ≡ true

  pub Runs-insert :
      (s s' : Service) (m : Manager) (chain : String) (watched more : Map Invoice)
      → s' ≡ record s { trackers = Map.insert chain more s.trackers }
      → Runs s m chain watched
      → Runs s' m chain more
  Runs-insert s s' m chain watched more e runs = record {
    is_managed = ap (λ (x : Service). x.manager) e ∙ runs.is_managed;
    is_tracked =
        ap (λ (x : Service). Map.get chain x.trackers) e ∙ get-insert_self chain more s.trackers;
    is_connected = runs.is_connected;
  }

  request_watch :
      (s : Service) (m : Manager) (w : WatchAccount) (chain : String) (watched : Map Invoice)
      → Runs s m chain watched
      → Forwards m (ChainRequest.watch_account w) (ChainTrackerRequest.watch_account w) chain
      → request received link (ChainRequest.watch_account w) s ≡ (
        ok tt,
        record s {
          trackers = Map.insert chain (Map.insert w.id (from_request w) watched) s.trackers;
        },
      )
  unfolding request on_manager deliver_all deliver to_tracker turn answer payouts_of after_turn
      Tracker.handle
  request_watch s m w chain watched runs sends =
      rw (runs.is_managed, sends.reply, sends.named, runs.is_tracked, runs.is_connected) refl

  request_reap :
      (s : Service) (m : Manager) (w : WatchAccount) (chain : String) (watched : Map Invoice)
      → Runs s m chain watched
      → Forwards m (ChainRequest.reap w) (ChainTrackerRequest.reap w) chain
      → request received link (ChainRequest.reap w) s ≡ (
        ok tt,
        record s {
          trackers = Map.insert chain watched s.trackers;
          payouts = from_request w ∷ s.payouts;
        },
      )
  unfolding request on_manager deliver_all deliver to_tracker turn answer payouts_of after_turn
      Tracker.handle
  request_reap s m w chain watched runs sends =
      rw (runs.is_managed, sends.reply, sends.named, runs.is_tracked, runs.is_connected) refl

  module _ {Slot Tree Pair WordSet : Type 0} (st : Storage Slot Tree) (setup : Setup Slot)
      (c : Crypto Pair WordSet) (f : FloatOps) (chains : List Chain) (m : Manager)
      (chain : Chain) where
    pub add_invoice_lem :
        (s : Service) (id : String) (order : OrderInfo) (recipient address : AccountId32)
        (prefix : ℕ) (watched : Map Invoice)
        → ignite chains ≡ ok m
        → Mem chain chains
        → Mem order.currency.currency (names_of chain)
        → Runs s m chain.name watched
        → c.from_base58_string order.payment_account ≡ ok (address, prefix)
        → let w = watch_of f id order address recipient in
          add_invoice received link f c.from_base58_string id order recipient s ≡ (
            ok tt,
            record s {
              trackers = Map.insert chain.name (Map.insert id (from_request w) watched) s.trackers;
            },
          )
    unfolding add_invoice
    add_invoice_lem s id order recipient address prefix watched started listed named runs decoded =
        let w = watch_of f id order address recipient in
        rw (new_watch_account_ok f c.from_base58_string id order recipient address prefix decoded) (
          request_watch s m w chain.name watched runs
            (ignite-Forwards chains m chain w started listed named).0)

    pub reap_lem :
        (s : Service) (id : String) (order : OrderInfo) (recipient address : AccountId32)
        (prefix : ℕ) (watched : Map Invoice)
        → ignite chains ≡ ok m
        → Mem chain chains
        → Mem order.currency.currency (names_of chain)
        → Runs s m chain.name watched
        → c.from_base58_string order.payment_account ≡ ok (address, prefix)
        → reap received link f c.from_base58_string id order recipient s ≡ (
          ok tt,
          record s {
            trackers = Map.insert chain.name watched s.trackers;
            payouts = from_request (watch_of f id order address recipient) ∷ s.payouts;
          },
        )
    unfolding reap
    reap_lem s id order recipient address prefix watched started listed named runs decoded =
        let w = watch_of f id order address recipient in
        rw (new_watch_account_ok f c.from_base58_string id order recipient address prefix decoded) (
          request_reap s m w chain.name watched runs
            (ignite-Forwards chains m chain w started listed named).1)
