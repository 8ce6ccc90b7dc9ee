-- ===== src/State/Payments.antt =====
-- `OrderPaid` of src/state.rs: the payment is recorded, and then the payout is asked for.
use kalatori_backend.Prelude.{String, ◌≡◌, refl, ap, ◌∙◌, Result, ok, err, map_err}
use kalatori_backend.Errors.{Error, DbError}
use kalatori_backend.Definitions.{OrderInfo}
use kalatori_backend.Signer.{Crypto}
use kalatori_backend.Database
use kalatori_backend.Database.{Storage, IsStorage, is_pending}
use kalatori_backend.Database.Server.{Setup}
use kalatori_backend.Database.Ledger.{Ledger, pay_reply, paid_ledger, mark_paid-refines}
use kalatori_backend.State.{ChainHandle, StateData, with_chain, after_payment, paid}
use kalatori_backend.State.Invoices.{Holds, with_tree, with_db_open}

module _ {Slot Tree Pair WordSet C : Type 0} (s : Storage Slot Tree) (setup : Setup Slot)
    (c : Crypto Pair WordSet) (chain : ChainHandle C) where
  -- The chain manager after the answer of the database: it is asked to reap a paid order only.
  abbrev pub reaped : StateData Tree C → String → Result DbError OrderInfo → C
  reaped d id (ok i) = (chain.reap id i d.recipient d.chain_manager).1
  reaped d id (err e) = d.chain_manager

  after_payment_lem :
      (id : String) (r : Result DbError OrderInfo) (d : StateData Tree C)
      → after_payment s setup c chain id (map_err Error.db r) d
        ≡ record d { chain_manager = reaped d id r }
  unfolding after_payment with_chain
  after_payment_lem id (ok i) d = refl
  after_payment_lem id (err e) d = refl

  paid_marked :
      (id : String) (d : StateData Tree C) (l : Ledger) (r : Result DbError OrderInfo)
      → Holds s setup c chain d l
      → (Database.mark_paid s id d.db.orders).0 ≡ r
      → paid s setup c chain id d
        ≡ record (with_tree s setup c chain d (Database.mark_paid s id d.db.orders).1) {
          chain_manager = reaped d id r;
        }
  unfolding paid
  paid_marked id d l r h marked =
      let mark = Database.mark_paid s id in
      let d'' = with_tree s setup c chain d (mark d.db.orders).1 in
      ap
        (λ (x : Result Error OrderInfo × StateData Tree C).
          after_payment s setup c chain id x.0 x.1)
        (with_db_open s setup c chain mark d l h
          ∙ ap (λ (x : Result DbError OrderInfo). (map_err Error.db x, d'')) marked)
      ∙ after_payment_lem id r d''

  module _ (laws : IsStorage s) where
    -- Let the database be open and hold a ledger. When an order is reported as paid, nothing but the
    -- tree of orders and the chain manager changes. If the order is pending in the ledger, it is
    -- paid afterwards and the chain manager is asked once to reap it; otherwise the ledger and the
    -- chain manager stay as they were.
    pub paid-refines :
        (id : String) (d : StateData Tree C) (l : Ledger)
        → Holds s setup c chain d l
        → let r = pay_reply id (l id) in
          let d' = paid s setup c chain id d in
          (d' ≡ record (with_tree s setup c chain d d'.db.orders) { chain_manager = reaped d id r })
          × Holds s setup c chain d' (paid_ledger id r l)
    paid-refines id d l h =
        let (same, shows) = mark_paid-refines s laws d.db.orders l h.shows id in
        rw (paid_marked id d l (pay_reply id (l id)) h same)
          (refl, record { status = h.status; shows = shows })
