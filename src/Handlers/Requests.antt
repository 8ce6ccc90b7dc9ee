-- ===== src/Handlers/Requests.antt =====
-- A purchase and a status request over HTTP (src/handlers/order.rs), down to the books that the
-- database keeps.
use kalatori_backend.Prelude.{
  ℕ, String, ◌≡◌, refl, ◌∙◌, eq_refl, true, false, none, some, Result, ok, err, map_err, ◌>>=◌,
}
use kalatori_backend.Prelude.Map
use kalatori_backend.Errors.{Error, ChainError}
use kalatori_backend.Definitions.{
  F64, OrderQuery, found_order, OrderCreateResponse, new, modified, collision, CurrencyProperties,
  info,
}
use kalatori_backend.Definitions.Floats.{f64_lt}
use kalatori_backend.Signer
use kalatori_backend.Signer.{Crypto}
use kalatori_backend.Database.{Storage, IsStorage, calculate_death_ts}
use kalatori_backend.Database.Server.{Env, Setup}
use kalatori_backend.Database.Ledger.{Ledger, create_reply, stored}
use kalatori_backend.State
use kalatori_backend.State.{ChainHandle, handle, invoice, invoice_status}
use kalatori_backend.State.Invoices.{Holds, watch, response, invoice-refines, status_after_invoice}
use kalatori_backend.State.Handle.{StateServer, request, order_status, create_order}
use kalatori_backend.Handlers.{
  existential_deposit, query_of, internal, OrderPayload, order_body, amount_of, currency_of,
  process_order, respond, order,
}
use kalatori_backend.Handlers.Validation.{process_checked}

-- the status code of a purchase, by the database's answer and the chain manager's
abbrev pub purchase_code : Result ChainError (Unit {0}) → OrderCreateResponse → ℕ
purchase_code (err e) reply = 500
purchase_code (ok _) (new i) = 201
purchase_code (ok _) (modified i) = 200
purchase_code (ok _) (collision i) = 409

module _ {Slot Tree Pair WordSet C : Type 0} (s : Storage Slot Tree) (setup : Setup Slot)
    (c : Crypto Pair WordSet) (chain : ChainHandle C) (env : Env) where
  module _ (sv : StateServer Tree C) (up : sv.running ≡ true) where
    create_order_up :
        (q : OrderQuery)
        → create_order s setup c chain env q sv ≡ (
          (invoice s setup c chain env q sv.state).0,
          record sv { state = (invoice s setup c chain env q sv.state).1 },
        )
    unfolding create_order handle
    create_order_up q = rw up refl

    order_status_up :
        (o : String)
        → order_status s setup c chain env o sv ≡ (
          (invoice_status s setup c chain o sv.state).0,
          record sv { state = (invoice_status s setup c chain o sv.state).1 },
        )
    unfolding order_status handle
    order_status_up o = rw up refl

    currency_up :
        (k : String) {p : CurrencyProperties}
        → Map.get k sv.state.currencies ≡ some p
        → (currency_of s setup c chain env (some k) sv).0 ≡ ok k
    unfolding currency_of request handle Map.contains_key
    currency_up k known = rw (up, known) refl

  respond_purchase :
      (show_f64 : F64 → String) (d : State.StateData Tree C) (o : String)
      → (w : Result ChainError (Unit {0})) (reply : OrderCreateResponse)
      → (respond s setup c chain env show_f64
          (internal (map_err Error.chain w >>= λ _. ok (response s setup c chain d o reply)))).code
        ≡ purchase_code w reply
  unfolding respond
  respond_purchase show_f64 d o (err e) reply = refl
  respond_purchase show_f64 d o (ok u) (new i) = refl
  respond_purchase show_f64 d o (ok u) (modified i) = refl
  respond_purchase show_f64 d o (ok u) (collision i) = refl

  -- A purchase that passes the checks is what the state handler makes of it.
  order_checked :
      (show_f64 : F64 → String) (id : String) (p : OrderPayload) (sv : StateServer Tree C)
      → (a : F64) (k : String) {props : CurrencyProperties} → sv.running ≡ true
      → p.amount ≡ some a
      → f64_lt a existential_deposit ≡ false
      → p.currency ≡ some k
      → Map.get k sv.state.currencies ≡ some props
      → let made = invoice s setup c chain env (query_of id p a k) sv.state in
        order s setup c chain env show_f64 id (some p) sv
        ≡ (respond s setup c chain env show_f64 (internal made.0), record sv { state = made.1 })
  unfolding order amount_of
  order_checked show_f64 id p sv a k up hasa enough hask known =
      let good : amount_of s setup c chain env p.amount ≡ ok a = rw (hasa, enough) refl in
      let listed : (currency_of s setup c chain env p.currency sv).0 ≡ ok k =
        rw hask (currency_up sv up k known) in
      rw
        (
          process_checked s setup c chain env id p sv (ok k) good listed,
          create_order_up sv up (query_of id p a k),
        )
        refl

  module _ (laws : IsStorage s) where
    -- Let the state task be up with an open database that holds a ledger, and let a payload name an
    -- amount of at least the existential deposit and a known currency, for which the signer gives an
    -- account. The answer to the purchase has the code of what the ledger held: 201 for a new order,
    -- 200 for a pending one, 409 for a paid one, and 500 if a new order cannot be watched. In every
    -- case the next request without a payload is answered with 200 and the order as stored.
    pub purchase_then_status :
        (show_f64 : F64 → String) (id : String) (p : OrderPayload) (sv : StateServer Tree C)
        → (l : Ledger) (a : F64) (k : String) (props : CurrencyProperties) (account : String)
        → sv.running ≡ true
        → Holds s setup c chain sv.state l
        → p.amount ≡ some a
        → f64_lt a existential_deposit ≡ false
        → p.currency ≡ some k
        → Map.get k sv.state.currencies ≡ some props
        → Signer.public c sv.state.signer id props.ss58 ≡ ok account
        → let death = calculate_death_ts env.now setup.account_lifetime in
          let reply = create_reply (query_of id p a k) (info props k) account death (l id) in
          let (bought, sv') = order s setup c chain env show_f64 id (some p) sv in
          let (asked, _) = order s setup c chain env show_f64 id none sv' in
          (bought.code ≡ purchase_code (watch s setup c chain sv.state id reply).0 reply)
          × (asked ≡ record {
            code = 200;
            body = order_body (State.order_status s setup c chain sv.state id (stored reply) "");
          })
    purchase_then_status show_f64 id p sv l a k props account up h hasa enough hask known given =
        let death = calculate_death_ts env.now setup.account_lifetime in
        let q = query_of id p a k in
        let reply = create_reply q (info props k) account death (l id) in
        let (answer, _, _) =
          invoice-refines s setup c chain laws env q sv.state l props account h known given in
        let later : (invoice_status s setup c chain id (invoice s setup c chain env q sv.state).1).0
            ≡ ok (found_order (State.order_status s setup c chain sv.state id (stored reply) "")) =
          status_after_invoice s setup c chain laws env q sv.state l props account h known given id
          ∙ rw (eq_refl id) refl in
        let sv' : StateServer Tree C = record sv {
          state = (invoice s setup c chain env q sv.state).1;
        } in
        rw (order_checked show_f64 id p sv a k up hasa enough hask known) (
          rw answer (
              respond_purchase show_f64 sv.state id (watch s setup c chain sv.state id reply).0
                reply),
          unfold order process_order respond in rw (order_status_up sv' up id, later) refl,
        )
