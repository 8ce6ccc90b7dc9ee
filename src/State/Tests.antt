-- ===== src/State/Tests.antt =====
-- The theorems on src/state.rs and src/signer.rs at a purchase of order "7".
use kalatori_backend.Prelude.{
  ℕ, ◌+◌, ◌≤◌, String, ◌≡◌, refl, none, some, List, [], ◌∷◌, ok, str_eq, if◌then◌else◌,
}
use kalatori_backend.Definitions.{info, found_order}
use kalatori_backend.Prelude.Map
use kalatori_backend.Database.{calculate_death_ts}
use kalatori_backend.Database.Server.{Env}
use kalatori_backend.Database.Ledger.{create_reply, stored, pay_reply, paid_ledger}
use kalatori_backend.Signer
use kalatori_backend.Signer.Keys.{sign-public}
use kalatori_backend.State.{
  StateAccessRequest, create_invoice, order_paid, invoice, invoice_status, order_status, paid,
}
use kalatori_backend.State.Invoices.{Holds, status_after_invoice, with_tree}
use kalatori_backend.State.Payments.{reaped, paid-refines}
use kalatori_backend.State.Loop.{Counts, run, reaped_once}
use kalatori_backend.Fixtures.{
  shelf, shelf-IsStorage, setup, keys, manager, usdc_properties, query, week, noon, daemon, worker,
  nothing-Shows,
}

daemon-Holds : Holds shelf setup keys manager daemon (λ o. none)
daemon-Holds = record { status = refl; shows = nothing-Shows }

given : Signer.public keys worker "7" 0 ≡ ok "5Base58"
unfolding Signer.public
given = refl

sign-public_example :
    (e : List ℕ) × (pair : List String) × (some (7 ∷ []) ≡ some e)
    × (keys.derive e (record { junctions = "5Base58" ∷ "7" ∷ []; password = none }) ≡ ok pair)
    × ("5Base58" ≡ keys.to_base58_string (keys.public_key pair) 0)
    × ((m : List ℕ) → Signer.sign keys worker "7" m ≡ ok (keys.sign_with pair m))
sign-public_example = sign-public keys worker "7" 0 "5Base58" given

status_after_invoice_example :
    let reply =
      create_reply query
        (info usdc_properties "USDC")
        "5Base58"
        (calculate_death_ts 1000 week)
        none in
    let d' = (invoice shelf setup keys manager noon query daemon).1 in
    (invoice_status shelf setup keys manager "7" d').0
    ≡ ok (found_order (order_status shelf setup keys manager daemon "7" (stored reply) ""))
unfolding Map.get
status_after_invoice_example =
    status_after_invoice shelf setup keys manager shelf-IsStorage noon query daemon (λ o. none)
      usdc_properties "5Base58" daemon-Holds refl given "7"

paid-refines_example :
    let r = pay_reply "7" none in
    let d' = paid shelf setup keys manager "7" daemon in
    (d' ≡ record (with_tree shelf setup keys manager daemon d'.db.orders) {
      chain_manager = reaped shelf setup keys manager daemon "7" r;
    })
    × Holds shelf setup keys manager d' (paid_ledger "7" r (λ o. none))
paid-refines_example =
    paid-refines shelf setup keys manager shelf-IsStorage "7" daemon (λ o. none) daemon-Holds

-- how often an order stands in the list
reaps : String → List String → ℕ
reaps id [] = 0
reaps id (o ∷ m) = reaps id m + (if str_eq o id then 1 else 0)

reaps-Counts : (id : String) → Counts shelf setup keys manager id (reaps id)
unfolding reaps
reaps-Counts id = record { watching = λ o i r m. refl; reaping = λ o i r m. refl }

abbrev paid_twice : List (Env × StateAccessRequest)
paid_twice = (noon, create_invoice query) ∷ (noon, order_paid "7") ∷ (noon, order_paid "7") ∷ []

reaped_once_example :
    reaps "7" (run shelf setup keys manager paid_twice daemon).1.chain_manager ≤ reaps "7" [] + 1
reaped_once_example =
    reaped_once shelf setup keys manager shelf-IsStorage "7" (reaps "7") (reaps-Counts "7")
      paid_twice daemon (λ o. none) daemon-Holds
