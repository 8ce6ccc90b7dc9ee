-- ===== src/Handlers/Forced.antt =====
-- The forced withdrawal of src/handlers/order.rs. The method of src/state.rs that it calls is not
-- written yet, and panics; the match on its result is what the handler would answer.
use kalatori_backend.Prelude.{String, Option, none, some, [], ◌∷◌, Result, ok, err, map_err}
use kalatori_backend.Definitions.{OrderStatus}
use kalatori_backend.Handlers.{Response, order_body, invalid_body}

pub data ForceWithdrawalError : Type 0 where
  missing_parameter invalid_parameter : String → ForceWithdrawalError
  withdrawal_error : OrderStatus → ForceWithdrawalError

-- `State::force_withdrawal`: `none` is a panic
abbrev force_withdrawal_of : String → Option (Result OrderStatus OrderStatus)
force_withdrawal_of order = none

refused : String → String → Response
refused parameter message = record {
  code = 400;
  body = invalid_body (record { parameter = parameter; message = message } ∷ []);
}

-- the match on the result
unfoldable pub withdrawal_response : Result ForceWithdrawalError OrderStatus → Response
unfolding refused
withdrawal_response (ok a) = record { code = 201; body = order_body a }
withdrawal_response (err (withdrawal_error a)) = record { code = 400; body = order_body a }
withdrawal_response (err (missing_parameter parameter)) = refused parameter "parameter wasn't found"
withdrawal_response (err (invalid_parameter parameter)) =
    refused parameter "parameter's format is invalid"

unfoldable pub process_force_withdrawal :
    Option (Result OrderStatus OrderStatus) → Option (Result ForceWithdrawalError OrderStatus)
process_force_withdrawal none = none
process_force_withdrawal (some r) = some (map_err withdrawal_error r)

withdrawal_answer : Option (Result ForceWithdrawalError OrderStatus) → Option Response
unfolding withdrawal_response
withdrawal_answer none = none
withdrawal_answer (some r) = some (withdrawal_response r)

-- the handler, `none` where it panics
unfoldable pub force_withdrawal : String → Option Response
unfolding process_force_withdrawal withdrawal_answer
force_withdrawal order_id =
    withdrawal_answer (process_force_withdrawal (force_withdrawal_of order_id))
