-- ===== src/State/Loop.antt =====
-- The loop of the state handler of src/state.rs over any sequence of requests.
use kalatori_backend.Prelude.{
  ℕ, ◌+◌, ◌≤◌, String, ◌≡◌, refl, ap, Option, none, some, List, [], ◌∷◌, arith, str_eq, eq_iff,
  if◌then◌else◌, Option-cases, Result-cases, Bool-cases, inl, inr,
}
use kalatori_backend.Prelude.Map
use kalatori_backend.Definitions.{
  AccountId32, OrderInfo, OrderQuery, CurrencyInfo, OrderCreateResponse, new, modified, collision,
  Timestamp, PaymentStatus, info, new_order_info,
}
use kalatori_backend.Signer
use kalatori_backend.Signer.{Crypto}
use kalatori_backend.Database.{Storage, IsStorage, is_pending, calculate_death_ts}
use kalatori_backend.Database.Server.{Env, Setup}
use kalatori_backend.Database.Ledger.{Ledger, put, create_reply, stored, pay_reply, paid_ledger}
use kalatori_backend.State.{
  ChainHandle, StateData, StateAccessRequest, connect_chain, get_invoice_status, create_invoice,
  order_paid, StateReply, update_currencies, handle, invoice, paid,
}
use kalatori_backend.State.Invoices.{
  Holds, watch, invoice-refines, invoice_unknown, invoice_unsigned, invoice_status-Holds,
}
use kalatori_backend.State.Payments.{reaped, paid-refines}

-- How often an order may still be paid out: a paid order has had its turn.
abbrev pub owed : Option OrderInfo → ℕ
owed none = 1
owed (some i) = if is_pending i.payment_status then 1 else 0

module _ {Slot Tree Pair WordSet C : Type 0} (s : Storage Slot Tree) (setup : Setup Slot)
    (c : Crypto Pair WordSet) (chain : ChainHandle C) where
  unfoldable pub run :
      List (Env × StateAccessRequest) → StateData Tree C → List StateReply × StateData Tree C
  run [] d = ([], d)
  run ((env, request) ∷ rest) d =
      let (reply, d') = handle s setup c chain env request d in
      let (replies, d'') = run rest d' in (reply ∷ replies, d'')

  -- A count of the requests to reap one order, as a chain manager may keep.
  pub record Counts (id : String) (count : C → ℕ) : Type 0 where
    pub watching :
        (o : String) (i : OrderInfo) (r : AccountId32) (m : C)
        → count (chain.add_invoice o i r m).1 ≡ count m
    pub reaping :
        (o : String) (i : OrderInfo) (r : AccountId32) (m : C)
        → count (chain.reap o i r m).1 ≡ count m + (if str_eq o id then 1 else 0)

  module _ (laws : IsStorage s) (id : String) (count : C → ℕ) (counts : Counts id count) where
    -- at most `n` payouts of the order so far and to come
    abbrev Within : ℕ → StateData Tree C → Ledger → Type 0
    Within n d l = Holds s setup c chain d l × (count d.chain_manager + owed (l id) ≤ n)

    abbrev Bounded : ℕ → StateData Tree C → Type 0
    Bounded n d =
        (l : Ledger) × Holds s setup c chain d l × (count d.chain_manager + owed (l id) ≤ n)

    owed-stored :
        (q : OrderQuery) (p : CurrencyInfo) (account : String) (death : Timestamp)
        (m : Option OrderInfo)
        → owed (some (stored (create_reply q p account death m))) ≤ owed m
    unfolding is_pending new_order_info
    owed-stored q p account death none = omega arith
    owed-stored q p account death (some i) = ground arith

    count-watch :
        (d : StateData Tree C) (o : String) (reply : OrderCreateResponse)
        → count (watch s setup c chain d o reply).1 ≡ count d.chain_manager
    count-watch d o (new i) = counts.watching o i d.recipient d.chain_manager
    count-watch d o (modified i) = refl
    count-watch d o (collision i) = refl

    owed-put :
        (o : String) (i : OrderInfo) (l : Ledger)
        → owed (some i) ≤ owed (l o)
        → owed (put o i l id) ≤ owed (l id)
    owed-put o i l h = elim (Bool-cases (str_eq o id)) [
      | inl same ↦ rw (same, ← (eq_iff o id).0 same) h
      | inr other ↦ rw other (omega arith)
    ]

    invoice-Bounded :
        (n : ℕ) (env : Env) (q : OrderQuery) (d : StateData Tree C)
        → Bounded n d
        → Bounded n (invoice s setup c chain env q d).1
    invoice-Bounded n env q d (l, h, b) = elim (Option-cases (Map.get q.currency d.currencies)) [
      | inl unknown ↦ rw (invoice_unknown s setup c chain env q d unknown) (l, h, b)
      | inr (p, known) ↦ elim (Result-cases (Signer.public c d.signer q.order p.ss58)) [
        | inr (e, refused) ↦
            rw (invoice_unsigned s setup c chain env q d p e known refused) (l, h, b)
        | inl (account, given) ↦
            let death = calculate_death_ts env.now setup.account_lifetime in
            let reply = create_reply q (info p q.currency) account death (l q.order) in
            let (_, e, h') =
              invoice-refines s setup c chain laws env q d l p account h known given in
            (
              put q.order (stored reply) l,
              h',
              omega (
                arith,
                ap (λ (x : StateData Tree C). count x.chain_manager) e,
                count-watch d q.order reply,
                owed-put q.order (stored reply) l
                    (owed-stored q (info p q.currency) account death (l q.order)),
                b,
              ),
            )
      ]
    ]

    abbrev paid_order : OrderInfo → OrderInfo
    paid_order i = record i { payment_status = PaymentStatus.paid }

    counted :
        (o : String) (i : OrderInfo) (d : StateData Tree C)
        → count (chain.reap o i d.recipient d.chain_manager).1
          ≡ count d.chain_manager + (if str_eq o id then 1 else 0)
    counted o i d = counts.reaping o i d.recipient d.chain_manager

    owed-pay :
        (o : String) (d : StateData Tree C) (l : Ledger)
        → count (reaped s setup c chain d o (pay_reply o (l o)))
            + owed (paid_ledger o (pay_reply o (l o)) l id)
          ≤ count d.chain_manager + owed (l id)
    unfolding is_pending
    owed-pay o d l = elim (Option-cases (l o)) [
      | inl absent ↦ rw absent (omega arith)
      | inr (i, e) ↦ elim (Bool-cases (is_pending i.payment_status)) [
        | inr settled ↦ rw (e, settled) (omega arith)
        | inl p ↦ elim (Bool-cases (str_eq o id)) [
          | inl same ↦
              let here : owed (l id) ≡ 1 = rw (← (eq_iff o id).0 same, e, p) refl in
              rw (e, p) (rw (counted o (paid_order i) d, same, here) (omega arith))
          | inr other ↦ rw (e, p) (rw (counted o (paid_order i) d, other) (omega arith))
        ]
      ]
    ]

    paid-Bounded :
        (n : ℕ) (o : String) (d : StateData Tree C)
        → Bounded n d
        → Bounded n (paid s setup c chain o d)
    paid-Bounded n o d (l, h, b) =
        let (e, h') = paid-refines s setup c chain laws o d l h in
        (
          paid_ledger o (pay_reply o (l o)) l,
          h',
          omega (arith, ap (λ (x : StateData Tree C). count x.chain_manager) e, owed-pay o d l, b),
        )

    handle-Bounded :
        (n : ℕ) (env : Env) (request : StateAccessRequest) (d : StateData Tree C)
        → Bounded n d
        → Bounded n (handle s setup c chain env request d).1
    unfolding handle
    handle-Bounded n env (create_invoice q) d b = invoice-Bounded n env q d b
    handle-Bounded n env (order_paid o) d b = paid-Bounded n o d b
    handle-Bounded n env (get_invoice_status o) d (l, h, b) =
        rw (invoice_status-Holds s setup c chain o d l h) (l, h, b)
    handle-Bounded n env (connect_chain assets) d (l, h, b) = unfold update_currencies in (l, h, b)
    handle-Bounded n env _ d (l, h, b) = (l, h, b)

    run-Bounded :
        (n : ℕ) (rs : List (Env × StateAccessRequest)) (d : StateData Tree C)
        → Bounded n d
        → Bounded n (run rs d).1
    unfolding run
    run-Bounded n [] d b = b
    run-Bounded n ((env, request) ∷ rest) d b =
        run-Bounded n rest (handle s setup c chain env request d).1
          (handle-Bounded n env request d b)

    -- Let the database be open and hold a ledger, and let the state of the chain manager have a count
    -- that every request to reap the order raises by one, and that its other requests keep. Over any
    -- requests to the state handler, the chain manager is asked to reap the order at most once more,
    -- and never if the order is paid already.
    pub reaped_once :
        (rs : List (Env × StateAccessRequest)) (d : StateData Tree C) (l : Ledger)
        → Holds s setup c chain d l
        → count (run rs d).1.chain_manager ≤ count d.chain_manager + owed (l id)
    reaped_once rs d l h =
        let (l', _, b) =
          run-Bounded (count d.chain_manager + owed (l id)) rs d (l, h, omega arith) in
        omega (arith, b)
