-- ===== src/Fixtures.antt =====
-- A storage, a signer, a chain manager and a sale, at which the theorems are applied.
use mathlib.Core.Logic.{ite, if_pos, if_neg}
use native.Mathlib.Decide.{ℕ_discrete}
use kalatori_backend.Prelude.{
  ℕ, String, ◌≡◌, ◌≢◌, refl, true, false, Option, none, some, List, [], ◌∷◌, map, Result, ok, err,
  str_eq, eq_iff, Bool-cases, inl, inr, ◌*◌, ◌^◌, if◌then◌else◌, ◌==◌,
}
use kalatori_backend.Definitions.{
  Chain, FloatOps, OrderInfo, OrderQuery, CurrencyInfo, CurrencyProperties, TokenKind, ServerInfo,
  new_order_info,
}
use kalatori_backend.Database.{Storage, IsStorage, calculate_death_ts, read_order}
use kalatori_backend.Database.Ledger.{Shows}
use kalatori_backend.Database.Server.{Env, Setup, Server}
use kalatori_backend.Database.Books.{Books, Agrees}
use kalatori_backend.Signer.{Signer, Crypto}
use kalatori_backend.State.{ChainHandle, StateData}
use kalatori_backend.Chains.Manager.{Manager}
use kalatori_backend.State.Handle.{StateServer}
use kalatori_backend.Handlers.{OrderPayload}

-- A byte string, by what it encodes.
pub data Slot : Type 0 where
  id bytes : String → Slot
  order : OrderInfo → Slot
  json : ServerInfo → Slot

pub String-discrete : Discrete String
String-discrete a b = elim (Bool-cases (str_eq a b)) [
  | inl same ↦ yes ((eq_iff a b).0 same)
  | inr other ↦ no (λ e. cc (other, (eq_iff a b).1 e))
]

pub Slot-discrete : Discrete Slot
Slot-discrete = hlevel (ℕ_discrete, String-discrete)

abbrev pub Tree : Type 0
Tree = List (Slot × Slot)

unfoldable pub lookup : Tree → Slot → Option Slot
lookup [] k = none
lookup ((j, v) ∷ t) k = ite (Slot-discrete j k) (some v) (lookup t k)

abbrev pub decode_id : Slot → Result String String
decode_id (id o) = ok o
decode_id _ = err "not an ID"

abbrev pub decode_order : Slot → Result String OrderInfo
decode_order (order i) = ok i
decode_order _ = err "not an order"

abbrev pub shelf : Storage Slot Tree
shelf = record {
  encode_id = id;
  id_bytes = bytes;
  decode_id = decode_id;
  encode_order = order;
  decode_order = decode_order;
  get = λ t k. ok (lookup t k);
  insert = λ t k v. (ok tt, (k, v) ∷ t);
  iter = map ok;
}

shelf_self : (t : Tree) (k v : Slot) → shelf.get (shelf.insert t k v).1 k ≡ ok (some v)
unfolding lookup
shelf_self t k v = rw (if_pos (Slot-discrete k k) refl)

shelf_ne : (t : Tree) (k j v : Slot) → k ≢ j → shelf.get (shelf.insert t k v).1 j ≡ shelf.get t j
unfolding lookup
shelf_ne t k j v h = rw (if_neg (Slot-discrete k j) h)

pub shelf-IsStorage : IsStorage shelf
shelf-IsStorage = record {
  decode_encode_id = λ o. refl;
  decode_encode_order = λ i. refl;
  encode_id_ne = λ o e. cc;
  insert_ok = λ t k v. refl;
  get_insert_self = shelf_self;
  get_insert_ne = shelf_ne;
}

abbrev pub usdc : CurrencyInfo
usdc = record {
  currency = "USDC";
  chain_name = "statemint";
  kind = TokenKind.asset;
  decimals = 6;
  rpc_url = "wss://statemint-rpc.dwellir.com";
  asset_id = some 1337;
  ss58 = 0;
}

-- 2.0 as a double
abbrev pub query : OrderQuery
query = record { order = "7"; amount = 0x4000000000000000; callback = "cb"; currency = "USDC" }

abbrev pub week : ℕ
week = 604800000

abbrev pub fresh : OrderInfo
fresh = new_order_info query usdc "acc7" (calculate_death_ts 1000 week)

pub nothing-Shows : Shows shelf [] (λ o. none)
unfolding read_order lookup
nothing-Shows o = refl

abbrev pub setup : Setup Slot
setup = record {
  server_info_id = bytes "instance_id";
  to_vec = λ i. ok (json i);
  from_slice = elim [ json i ↦ ok i | _ ↦ err "not JSON" ];
  version = "0.2.0";
  account_lifetime = week;
}

abbrev pub noon : Env
noon = record { now = 1000; opened = ok tt; generated = some "calm-lake" }

abbrev pub up : Server Tree
up = record { orders = []; server_info = []; running = true }

abbrev pub shop : Books
shop = record { is_open = true; ledger = λ o. none }

pub up-Agrees : Agrees shelf setup up shop
up-Agrees = record { status = refl; shows = nothing-Shows }

-- Keys by their derivation: a pair is the recipient's address and the order ID.
abbrev pub keys : Crypto (List String) (List String)
keys = record {
  no_words = [];
  add_word = λ w word. ok (word ∷ w);
  to_entropy = λ w. ok (7 ∷ []);
  derive = λ e d. ok d.junctions;
  public_key = λ pair. 1 ∷ 2 ∷ [];
  sign_with = λ pair m. m;
  to_base58_string = λ a prefix. "5Base58";
  from_base58_string = λ a. ok (1 ∷ 2 ∷ [], 42);
  split_words = λ phrase. phrase ∷ [];
}

-- A chain manager that keeps a list of the orders that it was asked to reap.
abbrev pub manager : ChainHandle (List String)
manager = record {
  add_invoice = λ o i r m. (ok tt, m);
  is_answered = λ o i r m. true;
  reap = λ o i r m. (ok tt, o ∷ m);
  shutdown = λ m. m;
}

abbrev pub usdc_properties : CurrencyProperties
usdc_properties = record {
  chain_name = "statemint";
  kind = TokenKind.asset;
  decimals = 6;
  rpc_url = "wss://statemint-rpc.dwellir.com";
  asset_id = some 1337;
  ss58 = 0;
}

abbrev pub worker : Signer
worker = record { recipient = 1 ∷ []; seed_entropy = some (7 ∷ []) }

abbrev pub daemon : StateData Tree (List String)
daemon = record {
  currencies = ("USDC", usdc_properties) ∷ [];
  recipient = 1 ∷ [];
  server_info = record {
    version = "0.2.0";
    instance_id = "calm-lake";
    debug = false;
    kalatori_remark = none;
  };
  db = up;
  chain_manager = [];
  signer = worker;
}

abbrev pub service : StateServer Tree (List String)
service = record { state = daemon; running = true }

abbrev pub payload : OrderPayload
payload = record { amount = some 0x4000000000000000; currency = some "USDC"; callback = some "cb" }

-- two configured chains, and the manager that they start
abbrev pub statemint : Chain
statemint = record {
  name = "statemint";
  endpoints = "wss://statemint-rpc.dwellir.com" ∷ [];
  native_token = none;
  asset = record { name = "USDC"; id = 1337 } ∷ record { name = "USDt"; id = 1984 } ∷ [];
}

abbrev pub polkadot : Chain
polkadot = record {
  name = "polkadot";
  endpoints = "wss://rpc.polkadot.io" ∷ [];
  native_token = some (record { name = "DOT"; decimals = 10 });
  asset = [];
}

abbrev pub started : Manager
started = record {
  currency_map = ("DOT", "polkadot") ∷ ("USDC", "statemint") ∷ ("USDt", "statemint") ∷ [];
  watch_chain = ("polkadot", polkadot) ∷ ("statemint", statemint) ∷ [];
}

-- The arithmetic of doubles at 2.0 and at whole numbers, which stand for themselves.
abbrev pub doubles : FloatOps
doubles = record {
  mul = λ x y. if x == 0x4000000000000000 then 2 * y else x * y;
  div = λ x y. x;
  powi10 = λ n. 10 ^ n;
  round = λ x. x;
  as_u128 = λ x. x;
  of_u128 = λ n. n;
}
