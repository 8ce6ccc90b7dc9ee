-- ===== src/Service/Restored.antt =====
-- The restored orders of src/state.rs, in the chain manager of src/chain/mod.rs.
use kalatori_backend.Errors.{ChainError}
use kalatori_backend.Prelude.{
  ℕ, Bool, String, ◌≡◌, some, List, ◌∷◌, ok, Mem, none, here, there, Result, err, refl, true,
  Option-cases,
}
use kalatori_backend.Prelude.Map
use kalatori_backend.Prelude.Map.{Map, get-insert_self}
use kalatori_backend.Definitions.{AccountId32, Chain, FloatOps, OrderInfo}
use kalatori_backend.Chains.{Invoice, from_request, WatchAccount, ChainRequest}
use kalatori_backend.Chains.Manager
use kalatori_backend.Chains.Manager.{Manager, ignite, Sent, forwarded, refused}
use kalatori_backend.Chains.Manager.Routing.{names_of}
use kalatori_backend.Signer.{Crypto}
use kalatori_backend.Database.{Storage}
use kalatori_backend.Database.Server.{Setup}
use kalatori_backend.Prelude.{sym, subst, str_eq, Bool-cases, inl, inr, arith, []}
use kalatori_backend.Prelude.Map.{get-insert, get-insert_ne}
use kalatori_backend.State.{restore}
use kalatori_backend.Service.{
  chain_manager, Service, Link, is_received, all_received, received_by, answered_for, is_answered,
}
use kalatori_backend.Service.Requests.{watch_of, Runs, add_invoice_lem}
use kalatori_backend.Service.Tracked.{Tracks, keep_add}

module _ {Event : Type 0} (received : AccountId32 → Event → Bool) (link : String → Link Event)
    {Slot Tree Pair WordSet : Type 0} (st : Storage Slot Tree) (setup : Setup Slot)
    (c : Crypto Pair WordSet) (f : FloatOps) (chains : List Chain) (m : Manager) (chain : Chain)
    (recipient : AccountId32) (connected : (name : String) → (link name).connected ≡ true) where
  all_received_lem : (sent : List Sent) (s : Service) → all_received received link s sent ≡ true
  unfolding all_received is_received
  all_received_lem [] s = refl
  all_received_lem (forwarded target request ∷ rest) s =
      ground (arith, connected target.name, all_received_lem rest s)
  all_received_lem (refused id e ∷ rest) s = all_received_lem rest s

  answered_for_lem :
      (w : Result ChainError WatchAccount) (s : Service)
      → answered_for received link f c.from_base58_string s w ≡ true
  unfolding answered_for received_by
  answered_for_lem (err e) s = refl
  answered_for_lem (ok w) s = elim (Option-cases s.manager) [
    | inl gone ↦ rw gone refl
    | inr (n, runs) ↦
        rw runs (all_received_lem (Manager.handle n (ChainRequest.watch_account w)).0 s)
  ]

  restore_next :
      (id : String) (order : OrderInfo) (rest : List (String × OrderInfo)) (s : Service)
      → let chain = chain_manager received link f c.from_base58_string in
        restore st setup c chain ((id, order) ∷ rest) recipient s
        ≡ restore st setup c chain rest recipient (chain.add_invoice id order recipient s).1
  unfolding restore is_answered
  restore_next id order rest s = rw (answered_for_lem _ s) refl

  restore_rest :
      (orders : List (String × OrderInfo)) (id : String) (bill : Invoice) (s : Service)
      → Map.get id orders ≡ none
      → Tracks m chain.name (λ watched. Map.get id watched ≡ some bill) s
      → Tracks m chain.name
          (λ watched. Map.get id watched ≡ some bill)
          (restore st setup c
            (chain_manager received link f c.from_base58_string)
            orders
            recipient
            s)
  unfolding Map.get restore
  restore_rest [] id bill s absent t = t
  restore_rest ((j, order) ∷ rest) id bill s absent t = elim (Bool-cases (str_eq j id)) [
    | inl same ↦ ground (arith, same, absent)
    | inr other ↦ rw (restore_next j order rest s) (
        restore_rest rest id bill _ (ground (arith, other, absent)) (
          keep_add received link f c.from_base58_string m chain.name
            (λ watched. Map.get id watched ≡ some bill) j order recipient
            (λ i watched holds. ground (arith, get-insert j id i watched, other, holds)) s t))
  ]

  restore_head :
      (rest : List (String × OrderInfo)) (id : String) (order : OrderInfo) (address : AccountId32)
      (prefix : ℕ) (s : Service)
      → ignite chains ≡ ok m
      → Mem chain chains
      → Mem order.currency.currency (names_of chain)
      → c.from_base58_string order.payment_account ≡ ok (address, prefix)
      → Map.get id rest ≡ none
      → Tracks m chain.name (λ watched. Unit) s
      → Tracks m chain.name
          (λ watched.
            Map.get id watched ≡ some (from_request (watch_of f id order address recipient)))
          (restore st setup c
            (chain_manager received link f c.from_base58_string)
            ((id, order) ∷ rest)
            recipient
            s)
  restore_head rest id order address prefix s started listed named decoded absent t =
      let bill = from_request (watch_of f id order address recipient) in
      let added =
        add_invoice_lem received link st setup c f chains m chain s id order recipient address
          prefix t.watched started listed named
          (record {
            is_managed = t.is_managed;
            is_tracked = t.is_tracked;
            is_connected = connected chain.name;
          })
          decoded in
      rw (restore_next id order rest s) (
        restore_rest rest id bill _ absent (
          rw added (record {
            watched = Map.insert id bill t.watched;
            is_managed = t.is_managed;
            is_tracked = get-insert_self chain.name (Map.insert id bill t.watched) s.trackers;
            holds = get-insert_self id bill t.watched;
          })))

  restore-Tracks :
      (orders : List (String × OrderInfo)) (id : String) (order : OrderInfo) (address : AccountId32)
      (prefix : ℕ) (s : Service)
      → ignite chains ≡ ok m
      → Mem chain chains
      → Mem order.currency.currency (names_of chain)
      → c.from_base58_string order.payment_account ≡ ok (address, prefix)
      → Map.Distinct orders
      → Mem (id, order) orders
      → Tracks m chain.name (λ watched. Unit) s
      → Tracks m chain.name
          (λ watched.
            Map.get id watched ≡ some (from_request (watch_of f id order address recipient)))
          (restore st setup c
            (chain_manager received link f c.from_base58_string)
            orders
            recipient
            s)
  unfolding Map.Distinct
  restore-Tracks [] id order address prefix s started listed named decoded apart stored t =
      elim stored [ ]
  restore-Tracks ((j, o) ∷ rest) id order address prefix s started listed named decoded
        (absent, apart) (here e) t =
      subst
        (λ (kv : String × OrderInfo).
          Map.get kv.0 rest ≡ none
          → Tracks m chain.name
              (λ watched.
                Map.get id watched ≡ some (from_request (watch_of f id order address recipient)))
              (restore st setup c (chain_manager received link f c.from_base58_string) (kv ∷ rest)
                recipient s))
        (sym e)
        (λ missing.
          restore_head rest id order address prefix s started listed named decoded missing t)
        absent
  restore-Tracks ((j, o) ∷ rest) id order address prefix s started listed named decoded
        (absent, apart) (there stored) t =
      rw (restore_next j o rest s) (
        restore-Tracks rest id order address prefix _ started listed named decoded apart stored (
          keep_add received link f c.from_base58_string m chain.name (λ watched. Unit) j o recipient
            (λ i watched holds. tt) s t))

  -- Let the manager and the tracker of a configured chain run, let every tracker get a connection,
  -- and let the restored orders have distinct IDs. After they were given to the manager one after the
  -- other, whichever of them were refused, an order of them in a currency of that chain, with an
  -- account that is an address, is watched by this tracker for its amount and until its death.
  pub restored_order_watched :
      (orders : List (String × OrderInfo)) (id : String) (order : OrderInfo) (address : AccountId32)
      (prefix : ℕ) (s : Service) (watched : Map Invoice)
      → ignite chains ≡ ok m
      → Mem chain chains
      → Mem order.currency.currency (names_of chain)
      → c.from_base58_string order.payment_account ≡ ok (address, prefix)
      → Map.Distinct orders
      → Mem (id, order) orders
      → Runs received link s m chain.name watched
      → let s' =
          restore st setup c
            (chain_manager received link f c.from_base58_string)
            orders
            recipient
            s in
        (after : Map Invoice) × (Map.get chain.name s'.trackers ≡ some after)
        × (Map.get id after ≡ some (from_request (watch_of f id order address recipient)))
  restored_order_watched orders id order address prefix s watched started listed named decoded apart
        stored runs =
      let t =
        restore-Tracks orders id order address prefix s started listed named decoded apart stored
          (record {
            watched = watched;
            is_managed = runs.is_managed;
            is_tracked = runs.is_tracked;
            holds = tt;
          }) in
      (t.watched, t.is_tracked, t.holds)
