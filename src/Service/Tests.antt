-- ===== src/Service/Tests.antt =====
-- The theorems on src/chain/mod.rs with its trackers, at a purchase of order "7".
use kalatori_backend.Prelude.{
  String, Bool, ◌≡◌, refl, none, some, [], ◌∷◌, ok, here, there, List, true, false,
}
use kalatori_backend.Prelude.Lists.{list_eq}
use kalatori_backend.Prelude.Map
use kalatori_backend.Prelude.Map.{Map}
use kalatori_backend.Definitions.{AccountId32, info, new_order, new_order_info, OrderInfo}
use kalatori_backend.Chains.{from_request, Invoice, new_watch_account}
use kalatori_backend.Chains.Manager
use kalatori_backend.Chains.Manager.{ignite}
use kalatori_backend.Chains.Manager.Routing.{names_of}
use kalatori_backend.Signer
use kalatori_backend.Database.{calculate_death_ts}
use kalatori_backend.State.{ChainHandle, StateData, invoice, order_status, paid, restore}
use kalatori_backend.State.Invoices.{Holds}
use kalatori_backend.Service.{Service, Link, chain_manager, is_answered}
use kalatori_backend.Service.Requests.{watch_of, Runs}
use kalatori_backend.Service.Watching.{order_watched}
use kalatori_backend.Service.Restored.{restored_order_watched}
use kalatori_backend.Service.Purchases.{purchase_to_payout}
use kalatori_backend.Fixtures.{
  Tree, shelf, shelf-IsStorage, setup, keys, usdc_properties, query, week, noon, up, worker, daemon,
  nothing-Shows, polkadot, statemint, started, doubles, usdc, fresh,
}

-- an event is the account that received a transfer
abbrev received : AccountId32 → AccountId32 → Bool
received a e = list_eq a e

abbrev link : String → Link AccountId32
link name = record {
  connected = true;
  assets = [];
  version = "v1";
  node = record {
    block_hash = λ n. ok "0x00";
    version_at = λ block. ok "v1";
    transfer_events = λ block. ok [];
    now = 1000;
    client = λ site id. record {
      asset_balance_at_account = λ a n. ok 0;
      system_balance_at_account = λ a. ok 0;
    };
  };
}

abbrev running : Service
running = record {
  manager = some started;
  trackers = ("polkadot", []) ∷ ("statemint", []) ∷ [];
  payouts = [];
}

abbrev handle : ChainHandle Service
handle = chain_manager received link doubles keys.from_base58_string

abbrev shop : StateData Tree Service
shop = record {
  currencies = daemon.currencies;
  recipient = daemon.recipient;
  server_info = daemon.server_info;
  db = up;
  chain_manager = running;
  signer = worker;
}

shop-Holds : Holds shelf setup keys handle shop (λ o. none)
shop-Holds = record { status = refl; shows = nothing-Shows }

running-Runs : Runs received link running started "statemint" []
unfolding Map.get
running-Runs = record { is_managed = refl; is_tracked = refl; is_connected = refl }

given : Signer.public keys worker "7" 0 ≡ ok "5Base58"
unfolding Signer.public
given = refl

started_lem : ignite (polkadot ∷ statemint ∷ []) ≡ ok started
unfolding ignite Map.get Map.insert
started_lem = refl

order_watched_example :
    let order =
      new_order_info query (info usdc_properties "USDC") "5Base58" (calculate_death_ts 1000 week) in
    let (r, d') = invoice shelf setup keys handle noon query shop in
    (r ≡ ok (new_order (order_status shelf setup keys handle shop "7" order "")))
    × (d'.chain_manager ≡ record running {
      trackers =
          Map.insert "statemint"
            (Map.insert "7"
              (from_request (watch_of doubles "7" order (1 ∷ 2 ∷ []) shop.recipient))
              [])
            running.trackers;
    })
unfolding names_of Map.get
order_watched_example =
    order_watched received link shelf setup keys doubles (polkadot ∷ statemint ∷ []) started
      statemint shelf-IsStorage noon query shop (λ o. none) usdc_properties "5Base58" (1 ∷ 2 ∷ [])
      42 [] started_lem (there (here refl)) (here refl) running-Runs shop-Holds refl refl given refl

purchase_to_payout_example :
    let order =
      new_order_info query (info usdc_properties "USDC") "5Base58" (calculate_death_ts 1000 week) in
    let d' = (invoice shelf setup keys handle noon query shop).1 in
    let d'' = paid shelf setup keys handle "7" d' in
    (d''.chain_manager.payouts
      ≡ from_request (watch_of doubles "7" order (1 ∷ 2 ∷ []) shop.recipient) ∷ [])
    × ((paid shelf setup keys handle "7" d'').chain_manager.payouts ≡ d''.chain_manager.payouts)
unfolding names_of Map.get
purchase_to_payout_example =
    purchase_to_payout received link shelf setup keys doubles (polkadot ∷ statemint ∷ []) started
      statemint shelf-IsStorage noon query shop (λ o. none) usdc_properties "5Base58" (1 ∷ 2 ∷ [])
      42 [] started_lem (there (here refl)) (here refl) running-Runs shop-Holds refl refl given refl

-- the first of the restored orders is in a currency that is not configured
abbrev orders : List (String × OrderInfo)
orders = ("6", record fresh { currency = record usdc { currency = "EUR" } }) ∷ ("7", fresh) ∷ []

orders-Distinct : Map.Distinct orders
unfolding Map.Distinct Map.get
orders-Distinct = (refl, (refl, tt))

-- no endpoint accepts a connection
abbrev unconnected : String → Link AccountId32
unconnected name = record (link name) { connected = false }

-- A restored order of a tracker without a connection holds up those after it.
held_up_test :
    restore shelf setup keys
      (chain_manager received unconnected doubles keys.from_base58_string)
      (("7", fresh) ∷ orders)
      (1 ∷ [])
      running
    ≡ running
unfolding restore is_answered new_watch_account Map.get Manager.handle new_order_info
    Map.contains_key
held_up_test = refl

restored_order_watched_example :
    let s' = restore shelf setup keys handle orders (1 ∷ []) running in
    (after : Map Invoice) × (Map.get "statemint" s'.trackers ≡ some after)
    × (Map.get "7" after ≡ some (from_request (watch_of doubles "7" fresh (1 ∷ 2 ∷ []) (1 ∷ []))))
unfolding names_of new_order_info
restored_order_watched_example =
    restored_order_watched received link shelf setup keys doubles (polkadot ∷ statemint ∷ [])
      started statemint (1 ∷ []) (λ name. refl) orders "7" fresh (1 ∷ 2 ∷ []) 42 running []
      started_lem (there (here refl)) (here refl) refl orders-Distinct (there (here refl))
      running-Runs
