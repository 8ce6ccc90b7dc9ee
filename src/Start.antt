-- ===== src/Start.antt =====
-- src/main.rs, with the configuration of src/arguments.rs: the start of the daemon. Files, the engine
-- of the database and the listener are those of other crates, the parameter `Machine`. What an aborted
-- start leaves on the disk is not shown.
pub mod Restoring
pub mod SeedErrors
mod Tests
use kalatori_backend.Prelude.{
  ℕ, String, Bool, true, false, Option, none, some, List, [], ◌∷◌, Result, ok, err, map_err, ◌>>=◌,
  if◌then◌else◌,
}
use kalatori_backend.Prelude.Map
use kalatori_backend.Prelude.Map.{Map}
use kalatori_backend.Errors.{
  Error, DbError, SignerError, db_start_error, config_file_read, config_file_parse,
  recipient_account, runtime, tcp_listener_bind, seed_env,
}
use kalatori_backend.Definitions.{AccountId32, Timestamp, Chain, FloatOps, OrderInfo, ServerInfo}
use kalatori_backend.Seeds
use kalatori_backend.Seeds.{SeedEnvVars, Vars}
use kalatori_backend.Hex.{Bytes}
use kalatori_backend.Signer
use kalatori_backend.Signer.{Signer, Crypto}
use kalatori_backend.Database.{Storage}
use kalatori_backend.Database.Server.{Env, Setup, Server, ask_instance, order_list}
use kalatori_backend.Chains.{Invoice}
use kalatori_backend.Chains.Manager
use kalatori_backend.Chains.Manager.{Manager}
use kalatori_backend.State.{StateData, restore}
use kalatori_backend.Service.{Service, Link, chain_manager}

-- `Config`, after its defaults; a socket address is its text
pub record Config : Type 0 where
  pub account_lifetime : Timestamp
  pub host : String
  pub database : Option String
  pub debug : Option Bool
  pub in_memory_db : Bool
  pub chain : List Chain

-- `CliArgs`, after its defaults
pub record CliArgs : Type 0 where
  pub config : String
  pub log : String
  pub remark : Option String
  pub recipient : String

abbrev pub database_default : String
database_default = "kalatori.db"

-- What the start asks of other crates.
pub record Machine (Db Tree : Type 0) : Type 0 where
  pub read_to_string : String → Result String String
  pub from_str : String → Result String Config
  -- `sled::open`
  pub open_database : String → Result String Db
  pub open_tree : Db → String → Result String Tree
  -- what the tree of the server info holds
  pub server_info : Db → Tree
  -- `logger::initialize`, and `Runtime::new`
  pub initialize_logger : String → Result Error (Unit {0})
  pub new_runtime : Result String (Unit {0})
  -- `TcpListener::bind`
  pub bind : String → Result String (Unit {0})

-- What runs after the start: the state handler, over the manager and the trackers.
pub record Daemon (Tree : Type 0) : Type 0 where
  pub state : StateData Tree Service
  pub account_lifetime : Timestamp
  -- what the task of the signer ended with, if it did; the wait for the tasks receives it
  pub signer_error : Option SignerError

or_default : {A : Type 0} → A → Option A → A
or_default default none = default
or_default default (some a) = a

-- how the task of the signer ends: at once if the phrase is not accepted, or when it is asked to
unfoldable pub signer_task : Option SignerError → Result Error String
signer_task none = ok "Signer module cleared and is shutting down!"
signer_task (some e) = err (Error.signer e)

-- the path of the database, `none` for one in memory
unfoldable pub database_path : Config → Option String
unfolding or_default
database_path config =
    if config.in_memory_db then none else some (or_default database_default config.database)

-- the trackers that the manager starts with, which watch nothing yet; those that get no connection
-- receive nothing
unfoldable pub trackers_of : List Chain → Map (Map Invoice)
trackers_of [] = []
trackers_of (c ∷ rest) = Map.insert c.name [] (trackers_of rest)

-- the server info of `State::initialise`
unfoldable pub server_info_of : String → String → Option Bool → Option String → ServerInfo
unfolding or_default
server_info_of version instance_id debug remark = record {
  version = version;
  instance_id = instance_id;
  debug = or_default false debug;
  kalatori_remark = remark;
}

-- the state that the task of the state handler begins with
unfoldable pub initialise :
    {Tree C : Type 0} → Signer → AccountId32 → ServerInfo → Server Tree → C → StateData Tree C
initialise signer recipient server_info db chain_manager = record {
  currencies = [];
  recipient = recipient;
  server_info = server_info;
  db = db;
  chain_manager = chain_manager;
  signer = signer;
}

module _ {Db Tree : Type 0} (machine : Machine Db Tree) where
  unfoldable pub parse : String → Result Error Config
  parse path = do
    unparsed_config ← map_err (config_file_read path) (machine.read_to_string path)
    map_err config_file_parse (machine.from_str unparsed_config)

  -- `Database::init`
  unfoldable pub init_database : Option String → Result DbError (Server Tree)
  unfolding or_default
  init_database path_option = do
    database ← map_err db_start_error (machine.open_database (or_default "temp.db" path_option))
    orders ← map_err db_start_error (machine.open_tree database "orders")
    ok (record { orders = orders; server_info = machine.server_info database; running = true })

  module _ {Slot Pair WordSet : Type 0} (s : Storage Slot Tree) (setup : Setup Slot)
      (c : Crypto Pair WordSet) where
    -- the answer to `initialize_server_info`, with the task after it
    with_instance : Result DbError String × Server Tree → Result Error (String × Server Tree)
    with_instance (ok instance_id, db) = ok (instance_id, db)
    with_instance (err e, db) = err (Error.db e)

    unfoldable pub async_try_main :
        Env → String → Option String → Config → SeedEnvVars → Result Error (Daemon Tree)
    unfolding init_database with_instance database_path trackers_of server_info_of initialise
    async_try_main env recipient_string remark config seed_env_vars = do
      decoded ← map_err recipient_account (c.from_base58_string recipient_string)
      let (signer, signer_error) = Signer.init c decoded.0 seed_env_vars.seed
      db ← map_err Error.db (init_database (database_path config))
      known ← with_instance (ask_instance s setup env db)
      manager ← Manager.ignite config.chain
      listening ←
          map_err (λ e. Error.server (tcp_listener_bind config.host)) (machine.bind config.host)
      ok (record {
        state =
            initialise signer decoded.0 (server_info_of setup.version known.0 config.debug remark)
              known.1
              (record {
                manager = some manager;
                trackers = trackers_of config.chain;
                payouts = [];
              });
        account_lifetime = config.account_lifetime;
        signer_error = signer_error;
      })

    unfoldable pub try_main :
        (Bytes → Option String) → Env → CliArgs → Vars → Result Error (Daemon Tree)
    unfolding async_try_main parse
    try_main from_utf8 env cli_args vars = do
      logged ← machine.initialize_logger cli_args.log
      seed_env_vars ← map_err seed_env (Seeds.parse from_utf8 vars).0
      config ← parse cli_args.config
      started ← map_err runtime machine.new_runtime
      async_try_main env cli_args.recipient cli_args.remark config seed_env_vars

    module _ {Event : Type 0} (received : AccountId32 → Event → Bool) (link : String → Link Event)
        (f : FloatOps) where
      -- the first steps of the state handler, with the task "Restore saved orders"
      unfoldable pub wake : StateData Tree Service → Result Error (StateData Tree Service)
      wake d =
          let (r, db) = order_list s setup d.db in
          do
            order_list ← map_err Error.db r
            ok (record d {
              db = db;
              chain_manager =
                  restore s setup c (chain_manager received link f c.from_base58_string) order_list
                    d.recipient d.chain_manager;
            })
