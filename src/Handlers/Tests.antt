-- ===== src/Handlers/Tests.antt =====
-- The theorems on src/handlers/order.rs at a purchase of order "7".
use kalatori_backend.Prelude.{◌≡◌, refl, String, none, some}
use kalatori_backend.Prelude.Map
use kalatori_backend.Definitions.{F64, info}
use kalatori_backend.Definitions.Floats.{f64_lt}
use kalatori_backend.Database.{calculate_death_ts}
use kalatori_backend.Database.Ledger.{create_reply, stored}
use kalatori_backend.Signer
use kalatori_backend.State
use kalatori_backend.Handlers.{OrderPayload, order_body, order, process_order, respond, query_of}
use kalatori_backend.Handlers.Validation.{bad_request_unchanged}
use kalatori_backend.Handlers.Requests.{purchase_then_status}
use kalatori_backend.Fixtures.{
  shelf, shelf-IsStorage, setup, keys, manager, usdc_properties, week, noon, daemon, service,
  payload, nothing-Shows,
}

abbrev shown : F64 → String
shown amount = "0.07"

abbrev no_amount : OrderPayload
no_amount = record payload { amount = none }

bad_request_unchanged_example :
    (order shelf setup keys manager noon shown "7" (some no_amount) service).1 ≡ service
unfolding order process_order respond
bad_request_unchanged_example =
    bad_request_unchanged shelf setup keys manager noon shown "7" (some no_amount) service refl

purchase_then_status_example :
    let reply =
      create_reply
        (query_of "7" payload 0x4000000000000000 "USDC")
        (info usdc_properties "USDC")
        "5Base58"
        (calculate_death_ts 1000 week)
        none in
    let (bought, sv') = order shelf setup keys manager noon shown "7" (some payload) service in
    let (asked, _) = order shelf setup keys manager noon shown "7" none sv' in
    (bought.code ≡ 201)
    × (asked ≡ record {
      code = 200;
      body = order_body (State.order_status shelf setup keys manager daemon "7" (stored reply) "");
    })
unfolding Signer.public f64_lt Map.get
purchase_then_status_example =
    purchase_then_status shelf setup keys manager noon shelf-IsStorage shown "7" payload service
      (λ o. none) 0x4000000000000000 "USDC" usdc_properties "5Base58" refl
      (record { status = refl; shows = nothing-Shows }) refl refl refl refl refl
