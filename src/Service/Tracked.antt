-- ===== src/Service/Tracked.antt =====
-- What a request to watch an account keeps of the trackers of src/chain/mod.rs, whatever its outcome.
use kalatori_backend.Prelude.{
  ℕ, Bool, String, ◌≡◌, refl, ap, ◌∙◌, some, ◌∷◌, Result, ok, Option, none, bind-inv, ok-inj,
  map_err,
}
use kalatori_backend.Prelude.Map
use kalatori_backend.Prelude.Exec
use kalatori_backend.Prelude.Map.{Map, get-insert_self}
use kalatori_backend.Definitions.{AccountId32, Chain, FloatOps, OrderInfo}
use kalatori_backend.Chains.{
  ChainRequest, ChainTrackerRequest, Invoice, WatchAccount, new_watch_account, from_request,
}
use kalatori_backend.Chains.Manager.{Manager, ignite}
use kalatori_backend.Chains.Tracker
use kalatori_backend.Service.{
  Service, Link, after_turn, turn, to_tracker, deliver, deliver_all, on_manager, request,
  add_invoice,
}
use kalatori_backend.Prelude.{
  sym, subst, eq_iff, str_eq, Bool-cases, inl, inr, arith, some-inj, err, [],
}
use kalatori_backend.Prelude.Map.{get-insert, get-insert_ne}
use kalatori_backend.Chains.Manager
use kalatori_backend.Errors.{ChainError, invoice_account}
use kalatori_backend.Service.{on_manager}
use kalatori_backend.Chains.Manager.{sent, route}

-- A running tracker whose accounts satisfy a property.
pub record Tracks (m : Manager) (chain : String) (T : Map Invoice → Type 0) (s : Service)
    : Type 0 where
  pub watched : Map Invoice
  pub is_managed : s.manager ≡ some m
  pub is_tracked : Map.get chain s.trackers ≡ some watched
  pub holds : T watched

module _ {Event : Type 0} (received : AccountId32 → Event → Bool) (link : String → Link Event)
    (m : Manager) (chain : String) (T : Map Invoice → Type 0) (w : WatchAccount)
    (keeps : (watched : Map Invoice)
      → T watched
      → T (Map.insert w.id (from_request w) watched)) where
  keep_trackers :
      (name : String) (found kept : Map Invoice) (trackers : Map (Map Invoice))
      → Map.get name trackers ≡ some found
      → Map.get chain trackers ≡ some kept
      → T kept
      → (x : Map Invoice) × (Map.get chain
            (Map.insert name (Map.insert w.id (from_request w) found) trackers)
          ≡ some x)
        × T x
  keep_trackers name found kept trackers at_name at_chain holds =
      elim (Bool-cases (str_eq name chain)) [
        | inl same ↦ (
          Map.insert w.id (from_request w) found,
          ground (
            arith,
            get-insert name chain (Map.insert w.id (from_request w) found) trackers,
            same,
          ),
          keeps found (
              subst T
                (some-inj (
                  sym at_chain
                  ∙ (ap (λ k. Map.get k trackers) (sym ((eq_iff name chain).0 same)) ∙ at_name)))
                holds),
        )
        | inr other ↦ (
          kept,
          ground (
            arith,
            get-insert name chain (Map.insert w.id (from_request w) found) trackers,
            other,
            at_chain,
          ),
          holds,
        )
      ]

  keep_tracker :
      (name : String) (found : Option (Map Invoice)) (s : Service)
      → Map.get name s.trackers ≡ found
      → Tracks m chain T s
      → Tracks m chain T
          (to_tracker received link name (ChainTrackerRequest.watch_account w) found s).1
  unfolding to_tracker turn after_turn Tracker.handle
  keep_tracker name none s e t = t
  keep_tracker name (some found) s e t = elim (Bool-cases (link name).connected) [
    | inl up ↦
        let (x, tracked, holds) =
          keep_trackers name found t.watched s.trackers e t.is_tracked t.holds in
        rw up
          (record { watched = x; is_managed = t.is_managed; is_tracked = tracked; holds = holds })
    | inr down ↦ rw down t
  ]

  keep_sent :
      (r : Result ChainError Chain) (s : Service)
      → Tracks m chain T s
      → Tracks m chain T
          (deliver_all received link (sent w.id (ChainTrackerRequest.watch_account w) r ∷ []) s).1
  unfolding deliver_all deliver sent
  keep_sent (err e) s t = t
  keep_sent (ok target) s t = keep_tracker target.name (Map.get target.name s.trackers) s refl t

  keep_request :
      (s : Service)
      → Tracks m chain T s
      → Tracks m chain T (request received link (ChainRequest.watch_account w) s).1
  unfolding request on_manager Manager.handle
  keep_request s t = rw t.is_managed (
      keep_sent (route m w.currency) (record s { manager = some m })
        (record {
          watched = t.watched;
          is_managed = refl;
          is_tracked = t.is_tracked;
          holds = t.holds;
        }))

module _ (f : FloatOps) (from_base58_string : String → Result String (AccountId32 × ℕ)) where
  new_watch_account_id :
      (id : String) (order : OrderInfo) (recipient : AccountId32) (w : WatchAccount)
      → new_watch_account f from_base58_string id order recipient ≡ ok w
      → w.id ≡ id
  unfolding new_watch_account
  new_watch_account_id id order recipient w h =
      let (_, _, made) =
        bind-inv (map_err invoice_account (from_base58_string order.payment_account)) _ w h in
      sym (ap (λ (x : WatchAccount). x.id) (ok-inj made))

module _ {Event : Type 0} (received : AccountId32 → Event → Bool) (link : String → Link Event)
    (f : FloatOps) (from_base58_string : String → Result String (AccountId32 × ℕ)) (m : Manager)
    (chain : String) (T : Map Invoice → Type 0) where
  keep_made :
      (id : String) (r : Result ChainError WatchAccount)
      → ((w : WatchAccount) → r ≡ ok w → w.id ≡ id)
      → ((i : Invoice) (watched : Map Invoice) → T watched → T (Map.insert id i watched))
      → (s : Service) → Tracks m chain T s
      → Tracks m chain T
          (Exec.continue r
            (λ (w : WatchAccount). request received link (ChainRequest.watch_account w))
            s).1
  keep_made id (err e) named keeps s t = t
  keep_made id (ok w) named keeps s t =
      keep_request received link m chain T w
        (λ watched holds.
          subst (λ k. T (Map.insert k (from_request w) watched)) (sym (named w refl))
            (keeps (from_request w) watched holds))
        s t

  pub keep_add :
      (id : String) (order : OrderInfo) (recipient : AccountId32)
      → ((i : Invoice) (watched : Map Invoice) → T watched → T (Map.insert id i watched))
      → (s : Service) → Tracks m chain T s
      → Tracks m chain T (add_invoice received link f from_base58_string id order recipient s).1
  unfolding add_invoice
  keep_add id order recipient keeps s t =
      keep_made id (new_watch_account f from_base58_string id order recipient)
        (new_watch_account_id f from_base58_string id order recipient) keeps s t
