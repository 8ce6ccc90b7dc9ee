-- ===== src/State.antt =====
-- src/state.rs: the state handler, through which the other components cooperate. It owns the
-- currencies, and holds the handles of the database, the signer and the chain manager.
pub mod Invoices
pub mod Payments
pub mod Loop
pub mod Handle
mod Tests
use kalatori_backend.Prelude.{
  ℕ, String, Bool, true, false, Option, none, some, List, [], ◌∷◌, Result, ok, err, map_err, ok_or,
  if◌then◌else◌,
}
use kalatori_backend.Prelude.Map
use kalatori_backend.Prelude.Map.{Map}
use kalatori_backend.Prelude.Exec.{Exec, pure, raise, lift, ◌>>=◌, ◌>>◌}
use kalatori_backend.Errors.{Error, OrderError, DbError, ChainError}
use kalatori_backend.Definitions.{
  AccountId32, OrderInfo, OrderQuery, OrderStatus, OrderResponse, new_order, found_order,
  modified_order, collided_order, not_found, OrderCreateResponse, new, modified, collision,
  CurrencyProperties, ServerInfo, ServerStatus, info,
}
use kalatori_backend.Signer
use kalatori_backend.Signer.{Signer, Crypto}
use kalatori_backend.Database
use kalatori_backend.Database.{Storage}
use kalatori_backend.Database.Server.{Env, Setup, Server, ask}

-- What the state handler asks of the chain manager (src/chain/mod.rs), whose state is `C`.
pub record ChainHandle (C : Type 0) : Type 0 where
  pub add_invoice : String → OrderInfo → AccountId32 → Exec C ChainError (Unit {0})
  -- whether `add_invoice` returns before the shutdown
  pub is_answered : String → OrderInfo → AccountId32 → C → Bool
  pub reap : String → OrderInfo → AccountId32 → Exec C ChainError (Unit {0})
  pub shutdown : C → C

pub record StateData (Tree C : Type 0) : Type 0 where
  pub currencies : Map CurrencyProperties
  pub recipient : AccountId32
  pub server_info : ServerInfo
  pub db : Server Tree
  pub chain_manager : C
  pub signer : Signer

-- `StateAccessRequest`, without the channels of the replies.
pub data StateAccessRequest : Type 0 where
  connect_chain : Map CurrencyProperties → StateAccessRequest
  get_invoice_status : String → StateAccessRequest
  create_invoice : OrderQuery → StateAccessRequest
  is_currency_supported : String → StateAccessRequest
  server_status : StateAccessRequest
  order_paid : String → StateAccessRequest

pub data StateReply : Type 0 where
  silent : StateReply
  answered : Result Error OrderResponse → StateReply
  supported : Bool → StateReply
  server : ServerStatus → StateReply

module _ {Slot Tree Pair WordSet C : Type 0} (s : Storage Slot Tree) (setup : Setup Slot)
    (c : Crypto Pair WordSet) (chain : ChainHandle C) where
  abbrev pub Handler : Type 0 → Type 0
  Handler A = Exec (StateData Tree C) Error A

  -- `self.db.….await?`
  unfoldable pub with_db : {A : Type 0} → Exec Tree DbError A → Handler A
  with_db m d = let (r, db) = ask s setup m d.db in (map_err Error.db r, record d { db = db })

  -- `self.chain_manager.….await?`
  unfoldable pub with_chain : {A : Type 0} → Exec C ChainError A → Handler A
  with_chain m d =
      let (r, chain_manager) = m d.chain_manager in
      (map_err Error.chain r, record d { chain_manager = chain_manager })

  unfoldable pub order_status : StateData Tree C → String → OrderInfo → String → OrderStatus
  order_status d order order_info message = record {
    order = order;
    message = message;
    recipient = c.to_base58_string d.recipient 2;
    server_info = d.server_info;
    order_info = order_info;
    payment_page = "";
    redirect_url = "";
  }

  unfoldable pub update_currencies : Map CurrencyProperties → StateData Tree C → StateData Tree C
  update_currencies currencies d = record d { currencies = Map.extend d.currencies currencies }

  status_reply : String → Option OrderInfo → Handler OrderResponse
  unfolding order_status
  status_reply order none d = (ok not_found, d)
  status_reply order (some order_info) d =
      (ok (found_order (order_status d order order_info "")), d)

  unfoldable pub invoice_status : String → Handler OrderResponse
  unfolding with_db status_reply
  invoice_status order = do found ← with_db (Database.read_order s order); status_reply order found

  -- the match on the answer of the database
  invoice_reply : String → OrderCreateResponse → Handler OrderResponse
  unfolding with_chain order_status
  invoice_reply order (new i) d =
      let (r, d') = with_chain (chain.add_invoice order i d.recipient) d in
      elim r [ ok done ↦ (ok (new_order (order_status d' order i "")), d') | err e ↦ (err e, d') ]
  invoice_reply order (modified i) d = (ok (modified_order (order_status d order i "")), d)
  invoice_reply order (collision i) d =
      (ok (collided_order (order_status d order i "Order with this ID was already processed")), d)

  currency_of : String → StateData Tree C → Result Error CurrencyProperties
  currency_of currency d =
      ok_or (Map.get currency d.currencies) (Error.order OrderError.unknown_currency)

  unfoldable pub invoice : Env → OrderQuery → Handler OrderResponse
  unfolding currency_of with_db invoice_reply
  invoice env query = do
    currency ← λ d. (currency_of query.currency d, d)
    let currency_info = info currency query.currency
    account ←
        λ d. (map_err Error.signer (Signer.public c d.signer query.order currency_info.ss58), d)
    reply ← with_db (
        Database.create_order s query.order query currency_info account setup.account_lifetime
          env.now)
    invoice_reply query.order reply

  -- the payout is asked for only if the payment was recorded; its result is dropped
  after_payment : String → Result Error OrderInfo → StateData Tree C → StateData Tree C
  unfolding with_chain
  after_payment id (ok order) d = (with_chain (chain.reap id order d.recipient) d).1
  after_payment id (err e) d = d

  unfoldable pub paid : String → StateData Tree C → StateData Tree C
  unfolding with_db after_payment
  paid id d = let (r, d') = with_db (Database.mark_paid s id) d in after_payment id r d'

  -- one turn of the loop
  unfoldable pub handle :
      Env → StateAccessRequest → StateData Tree C → StateReply × StateData Tree C
  handle env (connect_chain assets) d = (silent, update_currencies assets d)
  handle env (get_invoice_status order) d = let (r, d') = invoice_status order d in (answered r, d')
  handle env (create_invoice query) d = let (r, d') = invoice env query d in (answered r, d')
  handle env (is_currency_supported currency) d =
      (supported (Map.contains_key currency d.currencies), d)
  handle env server_status d =
      (server (record { server_info = d.server_info; supported_currencies = d.currencies }), d)
  handle env (order_paid id) d = (silent, paid id d)

  -- The orders of the database are watched again after a start, one after the other; failures are
  -- ignored, and an order whose answer does not come holds up the rest.
  unfoldable pub restore : List (String × OrderInfo) → AccountId32 → C → C
  restore [] recipient m = m
  restore ((order, details) ∷ rest) recipient m =
      let restored = restore rest recipient (chain.add_invoice order details recipient m).1 in
      if chain.is_answered order details recipient m then restored else m

  -- the branch of the loop that orchestrates the shutdown, in its order
  unfoldable pub wind_down : StateData Tree C → StateData Tree C
  wind_down d = record d {
    chain_manager = chain.shutdown d.chain_manager;
    db = record d.db { running = false };
    signer = Signer.shutdown d.signer;
  }
