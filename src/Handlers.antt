-- ===== src/Handlers.antt =====
-- src/handlers/order.rs and src/handlers/health.rs: the HTTP handlers over the state handle.
pub mod Requests
pub mod Validation
pub mod Forced
mod Tests
use Prim.Native.String.{◌++◌}
use kalatori_backend.Prelude.{
  ℕ, String, Bool, true, false, Option, none, some, List, [], ◌∷◌, Result, ok, err, map_err,
  if◌then◌else◌,
}
use kalatori_backend.Prelude.Exec.{Exec, pure, raise, lift, ◌>>=◌}
use kalatori_backend.Errors.{
  Error, OrderError, less_than_existential_deposit, unknown_currency, missing_parameter,
  invalid_parameter, internal_error,
}
use kalatori_backend.Definitions.{
  F64, OrderQuery, OrderStatus, OrderResponse, new_order, found_order, modified_order,
  collided_order, not_found, InvalidParameter, ServerStatus,
}
use kalatori_backend.Definitions.Floats.{f64_lt}
use kalatori_backend.Signer.{Crypto}
use kalatori_backend.Database.{Storage}
use kalatori_backend.Database.Server.{Env, Setup}
use kalatori_backend.State.{ChainHandle}
use kalatori_backend.State.Handle.{
  StateServer, order_status, create_order, currency_supported, status,
}

-- 0.07
abbrev pub existential_deposit : F64
existential_deposit = 0x3fb1eb851eb851ec

pub record OrderPayload : Type 0 where
  pub amount : Option F64
  pub currency : Option String
  pub callback : Option String

-- What is sent back: the status code, and the body before it is serialised.
pub data Body : Type 0 where
  order_body : OrderStatus → Body
  invalid_body : List InvalidParameter → Body
  server_body : ServerStatus → Body
  empty : Body

pub record Response : Type 0 where
  pub code : ℕ
  pub body : Body

abbrev pub or_empty : Option String → String
or_empty none = ""
or_empty (some callback) = callback

abbrev pub query_of : String → OrderPayload → F64 → String → OrderQuery
query_of order_id payload amount currency = record {
  order = order_id;
  amount = amount;
  callback = or_empty payload.callback;
  currency = currency;
}

abbrev pub internal : {A : Type 0} → Result Error A → Result OrderError A
internal = map_err (λ _. internal_error)

module _ {Slot Tree Pair WordSet C : Type 0} (s : Storage Slot Tree) (setup : Setup Slot)
    (c : Crypto Pair WordSet) (chain : ChainHandle C) (env : Env) where
  abbrev pub Process : Type 0 → Type 0
  Process A = Exec (StateServer Tree C) OrderError A

  -- `.await.map_err(|_| OrderError::InternalError)`
  abbrev pub on_state : {A : Type 0} → Exec (StateServer Tree C) Error A → Process A
  on_state m sv = let (r, sv') = m sv in (internal r, sv')

  -- AMOUNT validation
  unfoldable pub amount_of : Option F64 → Result OrderError F64
  amount_of none = err (missing_parameter "amount")
  amount_of (some amount) =
      if f64_lt amount existential_deposit
      then err (less_than_existential_deposit existential_deposit)
      else ok amount

  supported_or : String → Bool → Result OrderError String
  supported_or currency true = ok currency
  supported_or currency false = err unknown_currency

  -- CURRENCY validation
  unfoldable pub currency_of : Option String → Process String
  unfolding supported_or currency_supported
  currency_of none = raise (missing_parameter "currency")
  currency_of (some currency) = do
    known ← on_state (currency_supported s setup c chain env currency)
    lift (supported_or currency known)

  unfoldable pub process_order : String → Option OrderPayload → Process OrderResponse
  unfolding amount_of currency_of create_order order_status
  process_order order_id none = on_state (order_status s setup c chain env order_id)
  process_order order_id (some payload) = do
    amount ← lift (amount_of payload.amount)
    currency ← currency_of payload.currency
    on_state (create_order s setup c chain env (query_of order_id payload amount currency))

  invalid : String → String → Response
  invalid parameter message = record {
    code = 400;
    body = invalid_body (record { parameter = parameter; message = message } ∷ []);
  }

  -- the two matches of `order`; `show_f64` is the `Display` of `f64`
  unfoldable pub respond : (F64 → String) → Result OrderError OrderResponse → Response
  unfolding invalid
  respond show_f64 (ok (new_order st)) = record { code = 201; body = order_body st }
  respond show_f64 (ok (found_order st)) = record { code = 200; body = order_body st }
  respond show_f64 (ok (modified_order st)) = record { code = 200; body = order_body st }
  respond show_f64 (ok (collided_order st)) = record { code = 409; body = order_body st }
  respond show_f64 (ok not_found) = record { code = 404; body = empty }
  respond show_f64 (err (less_than_existential_deposit deposit)) = invalid "amount" (
      "provided amount is less than the currency's existential deposit ("
      ++ show_f64 deposit
      ++ ")")
  respond show_f64 (err unknown_currency) = invalid "currency" "provided currency isn't supported"
  respond show_f64 (err (missing_parameter parameter)) = invalid parameter "parameter wasn't found"
  respond show_f64 (err (invalid_parameter parameter)) =
      invalid parameter "parameter's format is invalid"
  respond show_f64 (err internal_error) = record { code = 500; body = empty }

  unfoldable pub order :
      (F64 → String)
      → String
      → Option OrderPayload
      → StateServer Tree C
      → Response × StateServer Tree C
  order show_f64 order_id payload sv =
      let (r, sv') = process_order order_id payload sv in (respond show_f64 r, sv')

  -- `none` is the panic of a daemon whose state task is gone
  unfoldable pub server_status : StateServer Tree C → Option Response × StateServer Tree C
  server_status sv =
      let (r, sv') = status s setup c chain env sv in
      (elim r [ ok st ↦ some (record { code = 200; body = server_body st }) | err e ↦ none ], sv')

abbrev pub investigate : Response
investigate = record { code = 501; body = empty }

abbrev pub audit : Response
audit = record { code = 501; body = empty }
