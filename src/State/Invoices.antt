-- ===== src/State/Invoices.antt =====
-- `create_invoice` and `get_invoice_status` of src/state.rs, over the books that the database keeps.
use kalatori_backend.Prelude.{
  String, ◌≡◌, refl, ap, ap₂, sym, ◌∙◌, true, Option, none, some, Result, ok, err, map_err, ◌>>=◌,
  arith, if◌then◌else◌, Bool-cases, str_eq, eq_iff, inl, inr,
}
use kalatori_backend.Prelude.Map
use kalatori_backend.Prelude.Exec.{Exec, bind-ok}
use kalatori_backend.Errors.{Error, OrderError, DbError, ChainError, SignerError}
use kalatori_backend.Definitions.{
  AccountId32, OrderInfo, OrderQuery, OrderResponse, new_order, found_order, modified_order,
  collided_order, not_found, OrderCreateResponse, new, modified, collision, CurrencyProperties,
  info,
}
use kalatori_backend.Signer
use kalatori_backend.Signer.{Crypto}
use kalatori_backend.Database
use kalatori_backend.Database.{Storage, IsStorage, calculate_death_ts}
use kalatori_backend.Database.Server.{Env, Setup, ask}
use kalatori_backend.Database.Ledger.{
  Ledger, put, put_self, put-ne, create_reply, stored, create_order-refines, read_order_tree,
}
use kalatori_backend.Database.Books.{Agrees}
use kalatori_backend.State.{
  ChainHandle, StateData, with_db, order_status, invoice_status, status_reply, invoice_reply,
  invoice,
}

module _ {Slot Tree Pair WordSet C : Type 0} (s : Storage Slot Tree) (setup : Setup Slot)
    (c : Crypto Pair WordSet) (chain : ChainHandle C) where
  -- What the database keeps for the state handler: open books with this ledger.
  abbrev pub Holds : StateData Tree C → Ledger → Type 0
  Holds d l = Agrees s setup d.db (record { is_open = true; ledger = l })

  -- The whole data but the database.
  abbrev pub with_tree : StateData Tree C → Tree → StateData Tree C
  with_tree d t = record d { db = record d.db { orders = t } }

  -- Only a new order is given to the chain manager.
  abbrev pub watch :
      StateData Tree C → String → OrderCreateResponse → Result ChainError (Unit {0}) × C
  watch d o (new i) = chain.add_invoice o i d.recipient d.chain_manager
  watch d o (modified i) = (ok tt, d.chain_manager)
  watch d o (collision i) = (ok tt, d.chain_manager)

  abbrev pub response : StateData Tree C → String → OrderCreateResponse → OrderResponse
  response d o (new i) = new_order (order_status s setup c chain d o i "")
  response d o (modified i) = modified_order (order_status s setup c chain d o i "")
  response d o (collision i) =
      collided_order (order_status s setup c chain d o i "Order with this ID was already processed")

  -- An operation on the tree of an open database.
  pub with_db_open :
      {A : Type 0} (m : Exec Tree DbError A) (d : StateData Tree C) (l : Ledger)
      → Holds d l
      → let (r, t) = m d.db.orders in
        with_db s setup c chain m d ≡ (map_err Error.db r, with_tree d t)
  unfolding with_db ask
  with_db_open m d l h = rw h.status refl

  invoice_reply_lem :
      (d : StateData Tree C) (o : String) (reply : OrderCreateResponse)
      → let (w, m) = watch d o reply in
        invoice_reply s setup c chain o reply d
        ≡ (map_err Error.chain w >>= λ _. ok (response d o reply), record d { chain_manager = m })
  unfolding invoice_reply
  invoice_reply_lem d o (new i) = ground arith
  invoice_reply_lem d o (modified i) = refl
  invoice_reply_lem d o (collision i) = refl

  -- The handler up to the database, which has answered `reply`.
  invoice_answered :
      (env : Env) (q : OrderQuery) (d : StateData Tree C) (l : Ledger) (p : CurrencyProperties)
      → (account : String) (reply : OrderCreateResponse) → Holds d l
      → Map.get q.currency d.currencies ≡ some p
      → Signer.public c d.signer q.order p.ss58 ≡ ok account
      → let made =
          Database.create_order s q.order q
            (info p q.currency)
            account
            setup.account_lifetime
            env.now
            d.db.orders in
        made.0 ≡ ok reply
        → invoice s setup c chain env q d
          ≡ invoice_reply s setup c chain q.order reply (with_tree d made.1)
  unfolding invoice info
  invoice_answered env q d l p account reply h known given made =
      let buy =
        Database.create_order s q.order q (info p q.currency) account setup.account_lifetime
          env.now in
      let opened : with_db s setup c chain buy d ≡ (ok reply, with_tree d (buy d.db.orders).1) =
        with_db_open buy d l h
        ∙ ap
            (λ (r : Result DbError OrderCreateResponse).
              (map_err Error.db r, with_tree d (buy d.db.orders).1))
            made in
      rw (known, given) (bind-ok (with_db s setup c chain buy) _ d opened)

  watch-with_tree :
      (d : StateData Tree C) (t : Tree) (o : String) (reply : OrderCreateResponse)
      → watch (with_tree d t) o reply ≡ watch d o reply
  watch-with_tree d t o (new i) = refl
  watch-with_tree d t o _ = refl

  response-with_tree :
      (d : StateData Tree C) (t : Tree) (o : String) (reply : OrderCreateResponse)
      → response (with_tree d t) o reply ≡ response d o reply
  unfolding order_status
  response-with_tree d t o (new i) = refl
  response-with_tree d t o _ = refl

  module _ (laws : IsStorage s) where
    pub invoice-refines :
        (env : Env) (q : OrderQuery) (d : StateData Tree C) (l : Ledger) (p : CurrencyProperties)
        → (account : String) → Holds d l
        → Map.get q.currency d.currencies ≡ some p
        → Signer.public c d.signer q.order p.ss58 ≡ ok account
        → let death = calculate_death_ts env.now setup.account_lifetime in
          let reply = create_reply q (info p q.currency) account death (l q.order) in
          let (w, m) = watch d q.order reply in
          let (r, d') = invoice s setup c chain env q d in
          (r ≡ (map_err Error.chain w >>= λ _. ok (response d q.order reply)))
          × (d' ≡ record (with_tree d d'.db.orders) { chain_manager = m })
          × Holds d' (put q.order (stored reply) l)
    invoice-refines env q d l p account h known given =
        let death = calculate_death_ts env.now setup.account_lifetime in
        let reply = create_reply q (info p q.currency) account death (l q.order) in
        let (same, h') =
          create_order-refines s laws d.db.orders l h.shows q.order q (info p q.currency) account
            setup.account_lifetime env.now in
        let t : Tree =
          (Database.create_order s q.order q (info p q.currency) account setup.account_lifetime
            env.now d.db.orders).1 in
        rw
          (
            invoice_answered env q d l p account reply h known given same,
            invoice_reply_lem (with_tree d t) q.order reply,
            watch-with_tree d t q.order reply,
            response-with_tree d t q.order reply,
          )
          (refl, refl, record { status = h.status; shows = h' })

  -- A purchase in an unknown currency changes nothing.
  pub invoice_unknown :
      (env : Env) (q : OrderQuery) (d : StateData Tree C)
      → Map.get q.currency d.currencies ≡ none
      → invoice s setup c chain env q d ≡ (err (Error.order OrderError.unknown_currency), d)
  unfolding invoice
  invoice_unknown env q d h = rw h refl

  -- Nor does one for which the signer gives no account.
  pub invoice_unsigned :
      (env : Env) (q : OrderQuery) (d : StateData Tree C) (p : CurrencyProperties) (e : SignerError)
      → Map.get q.currency d.currencies ≡ some p
      → Signer.public c d.signer q.order p.ss58 ≡ err e
      → invoice s setup c chain env q d ≡ (err (Error.signer e), d)
  unfolding invoice info
  invoice_unsigned env q d p e h refused = rw (h, refused) refl

  abbrev pub seen : StateData Tree C → String → Option OrderInfo → OrderResponse
  seen d o none = not_found
  seen d o (some i) = found_order (order_status s setup c chain d o i "")

  status_reply_lem :
      (d : StateData Tree C) (o : String) (m : Option OrderInfo)
      → status_reply s setup c chain o m d ≡ (ok (seen d o m), d)
  unfolding status_reply
  status_reply_lem d o none = refl
  status_reply_lem d o (some i) = refl

  -- A status request tells what the ledger holds, and changes nothing.
  pub invoice_status-Holds :
      (o : String) (d : StateData Tree C) (l : Ledger)
      → Holds d l
      → invoice_status s setup c chain o d ≡ (ok (seen d o (l o)), d)
  unfolding invoice_status
  invoice_status-Holds o d l h =
      let read = Database.read_order s o in
      let opened : with_db s setup c chain read d ≡ (ok (l o), d) =
        with_db_open read d l h
        ∙ ap₂
            (λ (r : Result DbError (Option OrderInfo)) (t : Tree).
              (map_err Error.db r, with_tree d t))
            (h.shows o) (read_order_tree s o d.db.orders) in
      bind-ok (with_db s setup c chain read) _ d opened ∙ status_reply_lem d o (l o)

  answer :
      (o : String) (d : StateData Tree C) (l : Ledger)
      → Holds d l
      → (invoice_status s setup c chain o d).0 ≡ ok (seen d o (l o))
  answer o d l h =
      ap (λ (x : Result Error OrderResponse × StateData Tree C). x.0) (invoice_status-Holds o d l h)

  -- Of the data, a status names the recipient and the server info.
  seen_frame :
      (d d' : StateData Tree C)
      → d'.recipient ≡ d.recipient
      → d'.server_info ≡ d.server_info
      → (o : String) (m : Option OrderInfo) → seen d' o m ≡ seen d o m
  unfolding order_status
  seen_frame d d' r i o none = refl
  seen_frame d d' r i o (some x) =
      ground (arith, ap (λ (a : AccountId32). c.to_base58_string a 2) r)

  module _ (laws : IsStorage s) where
    -- Let the database be open and hold a ledger, the currency be known, and the signer give an
    -- account. Then, whatever the handler answers to a purchase, a later status request for the
    -- order finds the order that the database has answered with, under the recipient and the server
    -- info of before, and one for any other order has the answer that it had before the purchase.
    pub status_after_invoice :
        (env : Env) (q : OrderQuery) (d : StateData Tree C) (l : Ledger) (p : CurrencyProperties)
        → (account : String) → Holds d l
        → Map.get q.currency d.currencies ≡ some p
        → Signer.public c d.signer q.order p.ss58 ≡ ok account
        → (o : String)
        → let death = calculate_death_ts env.now setup.account_lifetime in
          let reply = create_reply q (info p q.currency) account death (l q.order) in
          let d' = (invoice s setup c chain env q d).1 in
          (invoice_status s setup c chain o d').0 ≡ (
            if str_eq q.order o
            then ok (found_order (order_status s setup c chain d q.order (stored reply) ""))
            else (invoice_status s setup c chain o d).0)
    unfolding order_status
    status_after_invoice env q d l p account h known given o =
        let (_, e, h') = invoice-refines laws env q d l p account h known given in
        let d' = (invoice s setup c chain env q d).1 in
        let frame =
          seen_frame d d' (ap (λ (x : StateData Tree C). x.recipient) e)
            (ap (λ (x : StateData Tree C). x.server_info) e) in
        elim (Bool-cases (str_eq q.order o)) [
          | inl same ↦
              rw (same, ← (eq_iff q.order o).0 same)
                (answer q.order d' _ h'
                  ∙ ap ok (frame q.order _ ∙ ap (seen d q.order) (put_self q.order _ l)))
          | inr other ↦ rw other (
              answer o d' _ h'
              ∙ ap ok (
                  frame o _
                  ∙ ap (seen d o) (put-ne q.order o _ l (λ e. cc (other, (eq_iff q.order o).1 e))))
              ∙ sym (answer o d l h))
        ]
