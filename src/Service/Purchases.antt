-- ===== src/Service/Purchases.antt =====
-- What becomes of a payment in the chain manager of src/chain/mod.rs.
use kalatori_backend.Prelude.{
  ℕ, Bool, true, String, ◌≡◌, refl, ap, ap₂, ◌∙◌, none, some, List, ◌∷◌, Result, ok, Mem,
}
use kalatori_backend.Prelude.Map
use kalatori_backend.Prelude.Map.{Map, get-insert_self}
use kalatori_backend.Errors.{ChainError}
use kalatori_backend.Definitions.{
  AccountId32, Chain, CurrencyProperties, FloatOps, OrderInfo, OrderQuery, PaymentStatus, info,
  new_order_info,
}
use kalatori_backend.Chains.{Invoice, from_request}
use kalatori_backend.Chains.Manager.{Manager, ignite}
use kalatori_backend.Chains.Manager.Routing.{names_of}
use kalatori_backend.Signer
use kalatori_backend.Signer.{Crypto}
use kalatori_backend.Database.{Storage, IsStorage, calculate_death_ts, is_pending}
use kalatori_backend.Database.Server.{Env, Setup}
use kalatori_backend.Database.Ledger.{Ledger, put, put_self}
use kalatori_backend.State.{StateData, invoice, paid}
use kalatori_backend.State.Payments.{paid-refines}
use kalatori_backend.State.Invoices.{Holds, invoice-refines}
use kalatori_backend.Service.{Service, Link, chain_manager}
use kalatori_backend.Service.Requests.{watch_of, Runs, Runs-insert, reap_lem}
use kalatori_backend.Service.Watching.{order_watched}

module _ {Event : Type 0} (received : AccountId32 → Event → Bool) (link : String → Link Event) where
  module _ {Slot Tree Pair WordSet : Type 0} (st : Storage Slot Tree) (setup : Setup Slot)
      (c : Crypto Pair WordSet) (f : FloatOps) (chains : List Chain) (m : Manager)
      (chain : Chain) where
    -- Let the manager and the tracker of a chain run, and let an order in a currency of that chain be
    -- pending in the database. When its payment is reported, a payout task is started for it.
    pub payout_started :
        (laws : IsStorage st) (id : String) (d : StateData Tree Service) (l : Ledger)
        (i : OrderInfo) (address : AccountId32) (prefix : ℕ) (watched : Map Invoice)
        → ignite chains ≡ ok m
        → Mem chain chains
        → Mem i.currency.currency (names_of chain)
        → Runs received link d.chain_manager m chain.name watched
        → Holds st setup c (chain_manager received link f c.from_base58_string) d l
        → l id ≡ some i
        → is_pending i.payment_status ≡ true
        → c.from_base58_string i.payment_account ≡ ok (address, prefix)
        → (paid st setup c (chain_manager received link f c.from_base58_string) id d).chain_manager
          ≡ record d.chain_manager {
            trackers = Map.insert chain.name watched d.chain_manager.trackers;
            payouts = from_request (watch_of f id i address d.recipient) ∷ d.chain_manager.payouts;
          }
    payout_started laws id d l i address prefix watched started listed named runs h found pending
          decoded =
        let handle = chain_manager received link f c.from_base58_string in
        let reaps =
          reap_lem received link st setup c f chains m chain d.chain_manager id
            (record i { payment_status = PaymentStatus.paid }) d.recipient address prefix watched
            started listed named runs decoded in
        let (after, _) = rw (found, pending) at (paid-refines st setup c handle laws id d l h) in
        ap (λ (x : StateData Tree Service). x.chain_manager) after
        ∙ ap (λ (r : Result ChainError (Unit {0}) × Service). r.1) reaps

    -- Let the manager and the connected tracker of a configured chain run, and let the database
    -- hold no order with the ID of a sale in a currency of that chain. After the sale, a first
    -- report that its order is paid starts one payout task, of the order's amount from its account
    -- to the recipient, and a second report starts none.
    pub purchase_to_payout :
        (laws : IsStorage st) (env : Env) (q : OrderQuery) (d : StateData Tree Service) (l : Ledger)
        (p : CurrencyProperties) (account : String) (address : AccountId32) (prefix : ℕ)
        (watched : Map Invoice)
        → ignite chains ≡ ok m
        → Mem chain chains
        → Mem q.currency (names_of chain)
        → Runs received link d.chain_manager m chain.name watched
        → Holds st setup c (chain_manager received link f c.from_base58_string) d l
        → l q.order ≡ none
        → Map.get q.currency d.currencies ≡ some p
        → Signer.public c d.signer q.order p.ss58 ≡ ok account
        → c.from_base58_string account ≡ ok (address, prefix)
        → let handle = chain_manager received link f c.from_base58_string in
          let order =
            new_order_info q
              (info p q.currency)
              account
              (calculate_death_ts env.now setup.account_lifetime) in
          let d' = (invoice st setup c handle env q d).1 in
          let d'' = paid st setup c handle q.order d' in
          (d''.chain_manager.payouts
            ≡ from_request (watch_of f q.order order address d.recipient) ∷ d.chain_manager.payouts)
          × ((paid st setup c handle q.order d'').chain_manager.payouts ≡ d''.chain_manager.payouts)
    unfolding info new_order_info is_pending
    purchase_to_payout laws env q d l p account address prefix watched started listed named runs h
          free known given decoded =
        let handle = chain_manager received link f c.from_base58_string in
        let order =
          new_order_info q (info p q.currency) account
            (calculate_death_ts env.now setup.account_lifetime) in
        let d' = (invoice st setup c handle env q d).1 in
        let d'' = paid st setup c handle q.order d' in
        let bill = from_request (watch_of f q.order order address d.recipient) in
        let (_, after, sold) =
          rw free at (invoice-refines st setup c handle laws env q d l p account h known given) in
        let watching : d'.chain_manager ≡ record d.chain_manager {
          trackers =
              Map.insert chain.name (Map.insert q.order bill watched) d.chain_manager.trackers;
        } =
          (order_watched received link st setup c f chains m chain laws env q d l p account address
            prefix watched started listed named runs h free known given decoded).1 in
        let same : d'.recipient ≡ d.recipient =
          ap (λ (x : StateData Tree Service). x.recipient) after in
        let runs' =
          Runs-insert received link d.chain_manager d'.chain_manager m chain.name watched
            (Map.insert q.order bill watched) watching runs in
        let paying =
          payout_started laws q.order d' (put q.order order l) order address prefix
            (Map.insert q.order bill watched) started listed named runs' sold
            (put_self q.order order l) refl decoded in
        let (_, settled) =
          rw (put_self q.order order l) at
            (paid-refines st setup c handle laws q.order d' (put q.order order l) sold) in
        let (again, _) =
          rw
            (put_self q.order (record order { payment_status = PaymentStatus.paid })
              (put q.order order l))
            at (paid-refines st setup c handle laws q.order d'' _ settled) in
        (
          ap (λ (x : Service). x.payouts) paying
              ∙ ap₂
                  (λ (r : AccountId32) (x : Service).
                    from_request (watch_of f q.order order address r) ∷ x.payouts)
                  same watching,
          ap (λ (x : StateData Tree Service). x.chain_manager.payouts) again,
        )
