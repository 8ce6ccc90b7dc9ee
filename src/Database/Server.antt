-- ===== src/Database/Server.antt =====
-- The database task of src/database.rs: one request at a time, and the methods of the `Database`
-- handle that ask it. A method on a task that is gone answers `DbEngineDown`.
pub mod Instance
use kalatori_backend.Prelude.{
  ℕ, String, Bool, false, Option, none, some, List, [], ◌∷◌, Result, ok, err, map_err,
  ◌>>=◌ as bind_result, if◌then◌else◌,
}
use kalatori_backend.Prelude.Exec.{Exec, lift, ◌>>=◌, ◌>>◌}
use kalatori_backend.Errors.{
  DbError, db_engine_down, db_internal_error, db_start_error, serialization_error,
  deserialization_error,
}
use kalatori_backend.Definitions.{
  Timestamp, OrderInfo, OrderQuery, CurrencyInfo, OrderCreateResponse, ServerInfo,
}
use kalatori_backend.Database
use kalatori_backend.Database.{Storage, active_orders}

-- What a request finds outside the database: the clock, whether `sled` opens the server-info tree,
-- and the next generated name.
pub record Env : Type 0 where
  pub now : ℕ
  pub opened : Result String (Unit {0})
  pub generated : Option String

-- `serde_json` for `ServerInfo`, the key of the instance, the package version and the configured
-- account lifetime.
pub record Setup (Slot : Type 0) : Type 0 where
  pub server_info_id : Slot
  pub to_vec : ServerInfo → Result String Slot
  pub from_slice : Slot → Result String ServerInfo
  pub version : String
  pub account_lifetime : Timestamp

-- The task: its two trees, and whether it still receives.
pub record Server (Tree : Type 0) : Type 0 where
  pub orders : Tree
  pub server_info : Tree
  pub running : Bool

pub data DbRequest : Type 0 where
  create_order :
      (order : String) (query : OrderQuery) (currency : CurrencyInfo) (payment_account : String)
      → DbRequest
  active_order_list : DbRequest
  read_order mark_paid mark_withdrawn mark_stuck : String → DbRequest
  initialize_server_info shutdown : DbRequest

pub data DbReply : Type 0 where
  created : Result DbError OrderCreateResponse → DbReply
  listed : Result DbError (List (String × OrderInfo)) → DbReply
  found : Result DbError (Option OrderInfo) → DbReply
  paid : Result DbError OrderInfo → DbReply
  marked : Result DbError (Unit {0}) → DbReply
  instance_id : Result DbError String → DbReply
  stopped : DbReply

module _ {Slot Tree : Type 0} (s : Storage Slot Tree) (setup : Setup Slot) where
  -- a request and its answer, on the tree of orders
  unfoldable pub ask : {A : Type 0} → Exec Tree DbError A → Exec (Server Tree) DbError A
  ask m d =
      if d.running
      then (let (r, t) = m d.orders in (r, record d { orders = t }))
      else (err db_engine_down, d)

  id_of : Result String ServerInfo → Result DbError String
  id_of (err e) = err (deserialization_error e)
  id_of (ok i) = ok i.instance_id

  saved_id : Slot → Result DbError String
  unfolding id_of
  saved_id v = id_of (setup.from_slice v)

  fresh_name : Option String → String
  fresh_name none = "unknown-instance"
  fresh_name (some name) = name

  fresh_info : String → ServerInfo
  fresh_info name = record {
    version = setup.version;
    instance_id = name;
    debug = false;
    kalatori_remark = none;
  }

  write_made : String → Result String Slot → Exec Tree DbError String
  write_made name (err e) t = (err (serialization_error e), t)
  write_made name (ok v) t =
      let (r, t') = s.insert t setup.server_info_id v in
      (bind_result (map_err db_internal_error r) (λ _. ok name), t')

  write_id : String → Exec Tree DbError String
  unfolding fresh_info write_made
  write_id name t = write_made name (setup.to_vec (fresh_info name)) t

  instance_from : Env → Option Slot → Exec Tree DbError String
  unfolding saved_id write_id fresh_name
  instance_from env (some v) = lift (saved_id v)
  instance_from env none = write_id (fresh_name env.generated)

  -- the branch `DbRequest::InitializeServerInfo`, on the server-info tree
  unfoldable pub load_instance : Env → Exec Tree DbError String
  unfolding instance_from
  load_instance env = do
    lift (map_err db_start_error env.opened)
    slot ← λ t. (map_err db_internal_error (s.get t setup.server_info_id), t)
    instance_from env slot

  unfoldable pub ask_instance : Env → Exec (Server Tree) DbError String
  unfolding load_instance
  ask_instance env d =
      if d.running
      then (let (r, t) = load_instance env d.server_info in (r, record d { server_info = t }))
      else (err db_engine_down, d)

  unfoldable pub order_list : Exec (Server Tree) DbError (List (String × OrderInfo))
  unfolding ask
  order_list = ask (λ t. (ok (active_orders s (s.iter t)), t))

  unfoldable pub handle : Env → DbRequest → Server Tree → DbReply × Server Tree
  unfolding ask ask_instance order_list
  handle env (create_order o q c account) d =
      let (r, d') = ask (Database.create_order s o q c account setup.account_lifetime env.now) d in
      (created r, d')
  handle env active_order_list d = let (r, d') = order_list d in (listed r, d')
  handle env (read_order o) d = let (r, d') = ask (Database.read_order s o) d in (found r, d')
  handle env (mark_paid o) d = let (r, d') = ask (Database.mark_paid s o) d in (paid r, d')
  handle env (mark_withdrawn o) d =
      let (r, d') = ask (Database.mark_withdrawn s o) d in (marked r, d')
  handle env (mark_stuck o) d = let (r, d') = ask (Database.mark_stuck s o) d in (marked r, d')
  handle env initialize_server_info d = let (r, d') = ask_instance env d in (instance_id r, d')
  handle env shutdown d = (stopped, record d { running = false })

  -- the loop of the task, with the replies in order
  unfoldable pub run : List (Env × DbRequest) → Server Tree → List DbReply × Server Tree
  run [] d = ([], d)
  run ((env, request) ∷ rest) d =
      let (reply, d') = handle env request d in
      let (replies, d'') = run rest d' in (reply ∷ replies, d'')
