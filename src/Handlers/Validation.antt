-- ===== src/Handlers/Validation.antt =====
-- What the validation of src/handlers/order.rs lets through.
use kalatori_backend.Prelude.{
  String, ◌≡◌, ◌≢◌, refl, ap, ap₂, Option, none, some, Result, ok, err, arith, inl, inr,
  Result-cases,
}
use kalatori_backend.Prelude.Exec.{continue}
use kalatori_backend.Errors.{Error, OrderError, internal_error}
use kalatori_backend.Definitions.{
  F64, OrderResponse, new_order, found_order, modified_order, collided_order, not_found,
}
use kalatori_backend.Signer.{Crypto}
use kalatori_backend.Database.{Storage}
use kalatori_backend.Database.Server.{Env, Setup}
use kalatori_backend.State.{ChainHandle, handle}
use kalatori_backend.State.Handle.{StateServer, request, order_status, create_order}
use kalatori_backend.Handlers.{
  query_of, internal, on_state, OrderPayload, amount_of, currency_of, process_order, respond, order,
}

module _ {Slot Tree Pair WordSet C : Type 0} (s : Storage Slot Tree) (setup : Setup Slot)
    (c : Crypto Pair WordSet) (chain : ChainHandle C) (env : Env) where
  respond_400 :
      (show_f64 : F64 → String) (r : Result OrderError OrderResponse)
      → (respond s setup c chain env show_f64 r).code ≡ 400
      → (e : OrderError) × (r ≡ err e) × (e ≢ internal_error)
  unfolding respond
  respond_400 show_f64 (ok (new_order st)) h = absurd (omega arith)
  respond_400 show_f64 (ok (found_order st)) h = absurd (omega arith)
  respond_400 show_f64 (ok (modified_order st)) h = absurd (omega arith)
  respond_400 show_f64 (ok (collided_order st)) h = absurd (omega arith)
  respond_400 show_f64 (ok not_found) h = absurd (omega arith)
  respond_400 show_f64 (err internal_error) h = absurd (omega arith)
  respond_400 show_f64 (err e) h = (e, refl, λ p. cc)

  -- The check of a currency only looks.
  currency_of_reads :
      (currency : Option String) (sv : StateServer Tree C)
      → (currency_of s setup c chain env currency sv).1 ≡ sv
  unfolding currency_of request handle
  currency_of_reads none sv = refl
  currency_of_reads (some currency) sv = ground arith

  currency_of_outcome :
      (currency : Option String) (sv : StateServer Tree C) (r : Result OrderError String)
      → (currency_of s setup c chain env currency sv).0 ≡ r
      → currency_of s setup c chain env currency sv ≡ (r, sv)
  currency_of_outcome currency sv r h =
      ap₂ (λ (x : Result OrderError String) (y : StateServer Tree C). (x, y)) h
        (currency_of_reads currency sv)

  module _ (id : String) (p : OrderPayload) (sv : StateServer Tree C) where
    pub process_bad_amount :
        {e : OrderError}
        → amount_of s setup c chain env p.amount ≡ err e
        → process_order s setup c chain env id (some p) sv ≡ (err e, sv)
    unfolding process_order
    process_bad_amount h = rw h refl

    -- the last step of a purchase that has passed the checks
    abbrev pub purchase :
        F64 → String → StateServer Tree C → Result OrderError OrderResponse × StateServer Tree C
    purchase amount currency =
        on_state s setup c chain env
          (create_order s setup c chain env (query_of id p amount currency))

    pub process_checked :
        {a : F64} (r : Result OrderError String)
        → amount_of s setup c chain env p.amount ≡ ok a
        → (currency_of s setup c chain env p.currency sv).0 ≡ r
        → process_order s setup c chain env id (some p) sv ≡ continue r (purchase a) sv
    unfolding process_order
    process_checked {a} r h k = rw h (
        ap (λ (x : Result OrderError String × StateServer Tree C). continue x.0 (purchase a) x.1)
          (currency_of_outcome p.currency sv r k))

  internal_only :
      {A : Type 0} (r : Result Error A) {e : OrderError} → internal r ≡ err e → e ≡ internal_error
  internal_only (ok a) h = cc
  internal_only (err x) h = cc

  -- An error that is not internal leaves the state handler as it was.
  process_error_unchanged :
      (id : String) (payload : Option OrderPayload) (sv : StateServer Tree C) (e : OrderError)
      → (process_order s setup c chain env id payload sv).0 ≡ err e
      → e ≢ internal_error
      → (process_order s setup c chain env id payload sv).1 ≡ sv
  process_error_unchanged id none sv e h ne =
      absurd
        (ne (internal_only (order_status s setup c chain env id sv).0 (unfold process_order in h)))
  process_error_unchanged id (some p) sv e h ne =
      elim (Result-cases (amount_of s setup c chain env p.amount)) [
        | inr (x, bad) ↦ rw (process_bad_amount id p sv bad) refl
        | inl (a, good) ↦ elim (Result-cases (currency_of s setup c chain env p.currency sv).0) [
          | inr (x, bad) ↦ rw (process_checked id p sv (err x) good bad) refl
          | inl (k, known) ↦ absurd (
              ne (
                internal_only (create_order s setup c chain env (query_of id p a k) sv).0
                  (rw (process_checked id p sv (ok k) good known) at h)))
        ]
      ]

  -- A request that is answered with 400 changes nothing.
  pub bad_request_unchanged :
      (show_f64 : F64 → String) (id : String) (payload : Option OrderPayload)
      → (sv : StateServer Tree C) → (order s setup c chain env show_f64 id payload sv).0.code ≡ 400
      → (order s setup c chain env show_f64 id payload sv).1 ≡ sv
  unfolding order
  bad_request_unchanged show_f64 id payload sv h =
      let (e, failed, ne) = respond_400 show_f64 _ h in
      process_error_unchanged id payload sv e failed ne
