-- ===== src/State/Handle.antt =====
-- The handle `State` of src/state.rs: each method sends a request to the task and waits for the
-- answer. A task that is gone drops the request, which the methods report as `Fatal`.
use kalatori_backend.Prelude.{String, Bool, false, Result, ok, err, if◌then◌else◌}
use kalatori_backend.Prelude.Exec.{Exec}
use kalatori_backend.Errors.{Error}
use kalatori_backend.Definitions.{OrderQuery, OrderResponse, ServerStatus}
use kalatori_backend.Signer.{Crypto}
use kalatori_backend.Database.{Storage}
use kalatori_backend.Database.Server.{Env, Setup}
use kalatori_backend.State.{
  ChainHandle, StateData, StateAccessRequest, get_invoice_status, create_invoice,
  is_currency_supported, server_status, StateReply, answered, supported, server, handle, wind_down,
}

pub record StateServer (Tree C : Type 0) : Type 0 where
  pub state : StateData Tree C
  pub running : Bool

-- the reply that comes back over the channel of a request
abbrev order_reply : StateReply → Result Error OrderResponse
order_reply (answered r) = r
order_reply _ = err Error.fatal

abbrev support_reply : StateReply → Result Error Bool
support_reply (supported b) = ok b
support_reply _ = err Error.fatal

abbrev status_reply : StateReply → Result Error ServerStatus
status_reply (server status) = ok status
status_reply _ = err Error.fatal

module _ {Slot Tree Pair WordSet C : Type 0} (s : Storage Slot Tree) (setup : Setup Slot)
    (c : Crypto Pair WordSet) (chain : ChainHandle C) where
  unfoldable pub request :
      {A : Type 0}
      → (StateReply → Result Error A)
      → Env
      → StateAccessRequest
      → Exec (StateServer Tree C) Error A
  request read env r sv =
      if sv.running
      then (let (reply, d) = handle s setup c chain env r sv.state in
          (read reply, record sv { state = d }))
      else (err Error.fatal, sv)

  unfoldable pub order_status : Env → String → Exec (StateServer Tree C) Error OrderResponse
  unfolding request
  order_status env order = request order_reply env (get_invoice_status order)

  unfoldable pub create_order : Env → OrderQuery → Exec (StateServer Tree C) Error OrderResponse
  unfolding request
  create_order env query = request order_reply env (create_invoice query)

  unfoldable pub currency_supported : Env → String → Exec (StateServer Tree C) Error Bool
  unfolding request
  currency_supported env currency = request support_reply env (is_currency_supported currency)

  unfoldable pub status : Env → Exec (StateServer Tree C) Error ServerStatus
  unfolding request
  status env = request status_reply env server_status

  -- `connect_chain` and `order_paid` only report that they could not be sent
  unfoldable pub notify : Env → StateAccessRequest → StateServer Tree C → StateServer Tree C
  notify env r sv =
      if sv.running then record sv { state = (handle s setup c chain env r sv.state).1 } else sv

  -- `shutdown_notification.cancelled()` is seen by the loop
  unfoldable pub cancelled : StateServer Tree C → StateServer Tree C
  cancelled sv =
      if sv.running
      then record { state = wind_down s setup c chain sv.state; running = false }
      else sv
