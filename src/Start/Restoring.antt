-- ===== src/Start/Restoring.antt =====
-- What a start of src/main.rs leaves: the trackers of the configured chains, and the stored orders that
-- they watch.
use kalatori_backend.Prelude.{
  ℕ, String, ◌≡◌, refl, Bool, true, Bool-cases, inl, inr, Option, some, List, [], ◌∷◌, Result, ok,
  err, map_err, bind-inv, ok-inj, map_err-inv, Mem, here, there, ap, sym, subst, ◌∙◌, arith,
}
use kalatori_backend.Prelude.Map
use kalatori_backend.Prelude.Map.{Map, get-insert, get-insert_self}
use kalatori_backend.Errors.{Error, DbError, db_start_error, recipient_account, tcp_listener_bind}
use kalatori_backend.Definitions.{AccountId32, Chain, FloatOps, OrderInfo}
use kalatori_backend.Seeds.{SeedEnvVars}
use kalatori_backend.Signer
use kalatori_backend.Signer.{Crypto}
use kalatori_backend.Database.{Storage, active_orders}
use kalatori_backend.Database.Server.{Env, Setup, Server, ask_instance, order_list, ask}
use kalatori_backend.Chains.{Invoice, from_request}
use kalatori_backend.Chains.Manager.{Manager, ignite}
use kalatori_backend.Chains.Manager.Routing.{names_of}
use kalatori_backend.State.{StateData, restore}
use kalatori_backend.Service.{Service, Link, chain_manager}
use kalatori_backend.Service.Requests.{watch_of, Runs}
use kalatori_backend.Service.Restored.{restored_order_watched}
use kalatori_backend.Start.{
  Config, Machine, Daemon, database_path, trackers_of, initialise, init_database, or_default,
  with_instance, async_try_main, wake,
}

trackers_of_lem :
    (chains : List Chain) (chain : Chain)
    → Mem chain chains
    → Map.get chain.name (trackers_of chains) ≡ some []
unfolding trackers_of
trackers_of_lem [] chain m = elim m [ ]
trackers_of_lem (c ∷ rest) chain (here e) = rw e (get-insert_self chain.name [] (trackers_of rest))
trackers_of_lem (c ∷ rest) chain (there m) =
    ground (arith, get-insert c.name chain.name [] (trackers_of rest), trackers_of_lem rest chain m)

module _ {Db Tree Slot Pair WordSet : Type 0} (machine : Machine Db Tree) (s : Storage Slot Tree)
    (setup : Setup Slot) (c : Crypto Pair WordSet) where
  -- what a start made
  pub record Starts (env : Env) (recipient_string : String) (config : Config)
      (seed_env_vars : SeedEnvVars) (d : Daemon Tree) : Type 0 where
    pub prefix : ℕ
    pub decoded : c.from_base58_string recipient_string ≡ ok (d.state.recipient, prefix)
    pub signs :
        Signer.init c d.state.recipient seed_env_vars.seed ≡ (d.state.signer, d.signer_error)
    pub manager : Manager
    pub ignited : ignite config.chain ≡ ok manager
    pub managed :
        d.state.chain_manager
        ≡ record { manager = some manager; trackers = trackers_of config.chain; payouts = [] }
    pub up : d.state.db.running ≡ true

  init_database_up :
      (path_option : Option String) (db : Server Tree)
      → init_database machine path_option ≡ ok db
      → db.running ≡ true
  unfolding init_database
  init_database_up path_option db e =
      let (database, opened, e1) =
        bind-inv (map_err db_start_error (machine.open_database (or_default "temp.db" path_option)))
          _ db e in
      let (orders, found, e2) =
        bind-inv (map_err db_start_error (machine.open_tree database "orders")) _ db e1 in
      sym (ap (λ (x : Server Tree). x.running) (ok-inj e2))

  ask_instance_running :
      (env : Env) (db : Server Tree) → (ask_instance s setup env db).1.running ≡ db.running
  unfolding ask_instance
  ask_instance_running env db = elim (Bool-cases db.running) [
    | inl up ↦ rw up refl
    | inr down ↦ rw down refl
  ]

  with_instance-inv :
      (answer : Result DbError String × Server Tree) (known : String × Server Tree)
      → with_instance machine s setup c answer ≡ ok known
      → answer.1 ≡ known.1
  unfolding with_instance
  with_instance-inv (ok id, db) known e = ap (λ (x : String × Server Tree). x.1) (ok-inj e)
  with_instance-inv (err x, db) known e = ground arith

  pub async_try_main-Starts :
      (env : Env) (recipient_string : String) (remark : Option String) (config : Config)
      (seed_env_vars : SeedEnvVars) (d : Daemon Tree)
      → async_try_main machine s setup c env recipient_string remark config seed_env_vars ≡ ok d
      → Starts env recipient_string config seed_env_vars d
  unfolding async_try_main initialise
  async_try_main-Starts env recipient_string remark config seed_env_vars d e =
      let (decoded, by_address, e1) =
        bind-inv (map_err recipient_account (c.from_base58_string recipient_string)) _ d e in
      let (db, by_path, e3) =
        bind-inv (map_err Error.db (init_database machine (database_path config))) _ d e1 in
      let (known, by_instance, e4) =
        bind-inv (with_instance machine s setup c (ask_instance s setup env db)) _ d e3 in
      let (m, ignited, e5) = bind-inv (ignite config.chain) _ d e4 in
      let (listening, bound, e6) =
        bind-inv
          (map_err (λ e. Error.server (tcp_listener_bind config.host)) (machine.bind config.host)) _
          d e5 in
      subst (Starts env recipient_string config seed_env_vars) (ok-inj e6) (record {
        prefix = decoded.1;
        decoded =
            map_err-inv recipient_account (c.from_base58_string recipient_string) decoded
              by_address;
        signs = refl;
        manager = m;
        ignited = ignited;
        managed = refl;
        up =
            ap (λ (x : Server Tree). x.running)
              (sym (with_instance-inv (ask_instance s setup env db) known by_instance))
            ∙ (ask_instance_running env db
                ∙ init_database_up (database_path config) db (
                    map_err-inv Error.db (init_database machine (database_path config)) db
                      by_path));
      })

  module _ {Event : Type 0} (received : AccountId32 → Event → Bool) (link : String → Link Event)
      (f : FloatOps) where
    wake_ok :
        (d : StateData Tree Service)
        → d.db.running ≡ true
        → wake machine s setup c received link f d
          ≡ ok (record d {
            chain_manager =
                restore s setup c
                  (chain_manager received link f c.from_base58_string)
                  (active_orders s (s.iter d.db.orders))
                  d.recipient
                  d.chain_manager;
          })
    unfolding wake order_list ask
    wake_ok d up = rw up refl

    -- Let the daemon start, let every tracker get a connection, and let the orders that are stored in
    -- its database be read from the table with distinct IDs. The state handler then gets through its first steps, and every stored order
    -- that is not paid, in a currency that the configuration names for a chain, and with an account
    -- that is an address, is watched by the tracker of this chain for its amount and until its death,
    -- for the recipient that was given to the daemon.
    pub start_watches_orders :
        (env : Env) (recipient_string : String) (remark : Option String) (config : Config)
        (seed_env_vars : SeedEnvVars) (d : Daemon Tree) (chain : Chain) (id : String)
        (order : OrderInfo) (address : AccountId32) (prefix : ℕ)
        → ((name : String) → (link name).connected ≡ true)
        → async_try_main machine s setup c env recipient_string remark config seed_env_vars ≡ ok d
        → Map.Distinct (active_orders s (s.iter d.state.db.orders))
        → Mem (id, order) (active_orders s (s.iter d.state.db.orders))
        → Mem chain config.chain
        → Mem order.currency.currency (names_of chain)
        → c.from_base58_string order.payment_account ≡ ok (address, prefix)
        → (recipient : AccountId32) × (prefix' : ℕ) × (after : StateData Tree Service)
          × (watched : Map Invoice) × (c.from_base58_string recipient_string
              ≡ ok (recipient, prefix'))
          × (wake machine s setup c received link f d.state ≡ ok after)
          × (Map.get chain.name after.chain_manager.trackers ≡ some watched)
          × (Map.get id watched ≡ some (from_request (watch_of f id order address recipient)))
    start_watches_orders env recipient_string remark config seed_env_vars d chain id order address
          prefix connected started apart stored listed named decoded =
        let starts =
          async_try_main-Starts env recipient_string remark config seed_env_vars d started in
        let runs : Runs received link d.state.chain_manager starts.manager chain.name [] = record {
          is_managed = ap (λ (x : Service). x.manager) starts.managed;
          is_tracked =
              ap (λ (x : Service). Map.get chain.name x.trackers) starts.managed
              ∙ trackers_of_lem config.chain chain listed;
          is_connected = connected chain.name;
        } in
        let (watched, tracked, watches) =
          restored_order_watched received link s setup c f config.chain starts.manager chain
            d.state.recipient connected (active_orders s (s.iter d.state.db.orders)) id order
            address prefix d.state.chain_manager [] starts.ignited listed named decoded apart stored
            runs in
        (
          d.state.recipient,
          starts.prefix,
          _,
          watched,
          starts.decoded,
          wake_ok d.state starts.up,
          tracked,
          watches,
        )
