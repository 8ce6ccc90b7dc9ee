-- ===== src/Service/Watching.antt =====
-- What becomes of a purchase in the chain manager of src/chain/mod.rs.
use kalatori_backend.Prelude.{ℕ, Bool, String, ◌≡◌, refl, ap, ◌∙◌, none, some, List, ok, Mem}
use kalatori_backend.Prelude.Map
use kalatori_backend.Prelude.Map.{Map}
use kalatori_backend.Definitions.{
  AccountId32, Chain, CurrencyProperties, FloatOps, OrderQuery, new_order, info, new_order_info,
}
use kalatori_backend.Chains.{Invoice, from_request}
use kalatori_backend.Chains.Manager.{Manager, ignite}
use kalatori_backend.Chains.Manager.Routing.{names_of}
use kalatori_backend.Signer
use kalatori_backend.Signer.{Crypto}
use kalatori_backend.Database.{Storage, IsStorage, calculate_death_ts}
use kalatori_backend.Database.Server.{Env, Setup}
use kalatori_backend.Database.Ledger.{Ledger}
use kalatori_backend.State.{StateData, invoice, order_status}
use kalatori_backend.State.Invoices.{Holds, invoice-refines}
use kalatori_backend.Service.{Service, Link, chain_manager}
use kalatori_backend.Service.Requests.{watch_of, Runs, add_invoice_lem}

module _ {Event : Type 0} (received : AccountId32 → Event → Bool) (link : String → Link Event) where
  module _ {Slot Tree Pair WordSet : Type 0} (st : Storage Slot Tree) (setup : Setup Slot)
      (c : Crypto Pair WordSet) (f : FloatOps) (chains : List Chain) (m : Manager)
      (chain : Chain) where
    -- Let the manager and the connected tracker of a configured chain run, and let the database
    -- hold no order with the ID of a sale in a currency of that chain. Then the sale is answered as
    -- a new order, and all that changes in the chain manager is that this tracker watches the
    -- account of the order, for the order's amount and until its death.
    pub order_watched :
        (laws : IsStorage st) (env : Env) (q : OrderQuery) (d : StateData Tree Service) (l : Ledger)
        (p : CurrencyProperties) (account : String) (address : AccountId32) (prefix : ℕ)
        (watched : Map Invoice)
        → ignite chains ≡ ok m
        → Mem chain chains
        → Mem q.currency (names_of chain)
        → Runs received link d.chain_manager m chain.name watched
        → Holds st setup c (chain_manager received link f c.from_base58_string) d l
        → l q.order ≡ none
        → Map.get q.currency d.currencies ≡ some p
        → Signer.public c d.signer q.order p.ss58 ≡ ok account
        → c.from_base58_string account ≡ ok (address, prefix)
        → let handle = chain_manager received link f c.from_base58_string in
          let order =
            new_order_info q
              (info p q.currency)
              account
              (calculate_death_ts env.now setup.account_lifetime) in
          let (r, d') = invoice st setup c handle env q d in
          (r ≡ ok (new_order (order_status st setup c handle d q.order order "")))
          × (d'.chain_manager ≡ record d.chain_manager {
            trackers =
                Map.insert chain.name
                  (Map.insert q.order
                    (from_request (watch_of f q.order order address d.recipient))
                    watched)
                  d.chain_manager.trackers;
          })
    unfolding info new_order_info
    order_watched laws env q d l p account address prefix watched started listed named runs h free
          known given decoded =
        let handle = chain_manager received link f c.from_base58_string in
        let order =
          new_order_info q (info p q.currency) account
            (calculate_death_ts env.now setup.account_lifetime) in
        let added =
          add_invoice_lem received link st setup c f chains m chain d.chain_manager q.order order
            d.recipient address prefix watched started listed named runs decoded in
        let (replied, after, _) =
          rw free at (invoice-refines st setup c handle laws env q d l p account h known given) in
        (
          replied ∙ rw added refl,
          ap (λ (x : StateData Tree Service). x.chain_manager) after ∙ rw added refl,
        )
