-- ===== src/Start/Tests.antt =====
-- The theorem on the start of src/main.rs, at a machine whose database holds order "7".
use mathlib.Core.Option
use mathlib.Core.Option.{bind}
use kalatori_backend.Prelude.{
  ℕ, String, ◌≡◌, refl, false, none, some, List, [], ◌∷◌, ok, err, here, there, Bool, true,
}
use kalatori_backend.Prelude.Lists.{list_eq}
use kalatori_backend.Prelude.Map
use kalatori_backend.Prelude.Map.{Map}
use kalatori_backend.Definitions.{AccountId32, new_order_info}
use kalatori_backend.Seeds.{SeedEnvVars}
use kalatori_backend.Errors.{Error, invalid_seed, signer_down}
use kalatori_backend.Signer
use kalatori_backend.Signer.{Crypto, entropy_from_phrase}
use kalatori_backend.Shutdown.{
  spawned, happen_all, failure, exit_code, finished, tasks_ended, main_loop,
}
use kalatori_backend.Shutdown.Reasons.{broken, waiting_in}
use kalatori_backend.Start.SeedErrors.{refused_seed_stops}
use kalatori_backend.Database.{active_orders}
use kalatori_backend.Database.Server.{ask_instance}
use kalatori_backend.Chains.{Invoice, from_request}
use kalatori_backend.Chains.Manager.{ignite}
use kalatori_backend.Chains.Manager.Routing.{names_of}
use kalatori_backend.State.{StateData}
use kalatori_backend.Service.{Service, Link}
use kalatori_backend.Service.Requests.{watch_of}
use kalatori_backend.Start.{
  Config, Machine, Daemon, trackers_of, initialise, async_try_main, wake, signer_task,
}
use kalatori_backend.Start.Restoring.{start_watches_orders}
use kalatori_backend.Fixtures.{
  Slot, order, Tree, lookup, shelf, setup, keys, noon, week, fresh, polkadot, statemint, started,
  doubles,
}

abbrev stored : Tree
stored = (Slot.id "7", order fresh) ∷ []

abbrev config : Config
config = record {
  account_lifetime = week;
  host = "127.0.0.1:16726";
  database = none;
  debug = none;
  in_memory_db = false;
  chain = polkadot ∷ statemint ∷ [];
}

abbrev machine : Machine (Unit {0}) Tree
machine = record {
  read_to_string = λ path. ok "";
  from_str = λ text. ok config;
  open_database = λ path. ok tt;
  open_tree = λ db name. ok stored;
  server_info = λ db. [];
  initialize_logger = λ directives. ok tt;
  new_runtime = ok tt;
  bind = λ host. ok tt;
}

abbrev received : AccountId32 → AccountId32 → Bool
received a e = list_eq a e

abbrev link : String → Link AccountId32
link name = record {
  connected = true;
  assets = [];
  version = "v1";
  node = record {
    block_hash = λ n. ok "0x00";
    version_at = λ block. ok "v1";
    transfer_events = λ block. ok [];
    now = 1000;
    client = λ site id. record {
      asset_balance_at_account = λ a n. ok 0;
      system_balance_at_account = λ a. ok 0;
    };
  };
}

abbrev seeds : SeedEnvVars
seeds = record { seed = "bottom drive"; old_seeds = [] }

abbrev daemon : Daemon Tree
daemon = record {
  state = record {
    currencies = [];
    recipient = 1 ∷ 2 ∷ [];
    server_info = record {
      version = "0.2.0";
      instance_id = "calm-lake";
      debug = false;
      kalatori_remark = none;
    };
    db = record {
      orders = stored;
      server_info =
          (
            setup.server_info_id,
            Slot.json (record {
              version = "0.2.0";
              instance_id = "calm-lake";
              debug = false;
              kalatori_remark = none;
            }),
          )
          ∷ [];
      running = true;
    };
    chain_manager = record {
      manager = some started;
      trackers = ("statemint", []) ∷ ("polkadot", []) ∷ [];
      payouts = [];
    };
    signer = record { recipient = 1 ∷ 2 ∷ []; seed_entropy = some (7 ∷ []) };
  };
  account_lifetime = week;
  signer_error = none;
}

start_test : async_try_main machine shelf setup keys noon "5Base58" none config seeds ≡ ok daemon
unfolding async_try_main Signer.init ask_instance ignite trackers_of initialise Map.get Map.insert
    lookup
start_test = refl

stored-Distinct : Map.Distinct (active_orders shelf (shelf.iter stored))
unfolding Map.Distinct Map.get active_orders new_order_info
stored-Distinct = (refl, tt)

start_watches_orders_example :
    (recipient : AccountId32) × (prefix' : ℕ) × (after : StateData Tree Service) × (watched : Map
      Invoice)
    × (keys.from_base58_string "5Base58" ≡ ok (recipient, prefix'))
    × (wake machine shelf setup keys received link doubles daemon.state ≡ ok after)
    × (Map.get "statemint" after.chain_manager.trackers ≡ some watched)
    × (Map.get "7" watched
        ≡ some (from_request (watch_of doubles "7" fresh (1 ∷ 2 ∷ []) recipient)))
unfolding active_orders names_of new_order_info
start_watches_orders_example =
    start_watches_orders machine shelf setup keys received link doubles noon "5Base58" none config
      seeds daemon statemint "7" fresh (1 ∷ 2 ∷ []) 42 (λ name. refl) start_test stored-Distinct
      (here refl) (there (here refl)) (here refl) refl

-- keys without a word list, so that no phrase is accepted
abbrev wordless : Crypto (List String) (List String)
wordless = record keys { add_word = λ w word. err "not a word" }

abbrev keyless : Daemon Tree
keyless = record daemon {
  state = record daemon.state { signer = record { recipient = 1 ∷ 2 ∷ []; seed_entropy = none } };
  signer_error = some (invalid_seed "not a word");
}

keyless_test :
    async_try_main machine shelf setup wordless noon "5Base58" none config seeds ≡ ok keyless
unfolding async_try_main Signer.init ask_instance ignite trackers_of initialise Map.get Map.insert
    lookup
keyless_test = refl

refused_seed_stops_example :
    let task = spawned "Signer" (signer_task keyless.signer_error) in
    (task ≡ ("Signer", Error.signer (invalid_seed "not a word")) ∷ [])
    × (Signer.public wordless keyless.state.signer "7" 0 ≡ err signer_down)
    × ((waiting_in broken).notification.token ≡ true)
    × (Option.map exit_code
          (main_loop (tasks_ended (waiting_in broken).notification.reason finished))
        ≡ some failure)
unfolding entropy_from_phrase happen_all spawned signer_task bind
refused_seed_stops_example =
    refused_seed_stops machine shelf setup wordless noon "5Base58" none config seeds keyless
      (invalid_seed "not a word") [] (waiting_in broken) "7" 0 keyless_test refl refl
