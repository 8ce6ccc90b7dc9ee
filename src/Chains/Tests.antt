-- ===== src/Chains/Tests.antt =====
-- The theorems on src/chain at a watched order and at two configured chains.
use kalatori_backend.Prelude.{
  List, arith, ◌<◌, ◌≤◌, ◌+◌, ℕ, length, ok-inj, ◌≡◌, refl, String, true, none, [], ◌∷◌, ok, All,
  here, there, Bool,
}
use kalatori_backend.Prelude.Map
use kalatori_backend.Prelude.Map.{Map, Distinct}
use kalatori_backend.Definitions.{AccountId32, CurrencyProperties, TokenKind, u128_mod, sub_balance}
use kalatori_backend.Chains.{
  Client, Invoice, WatchAccount, ChainRequest, ChainTrackerRequest, check, balance,
}
use kalatori_backend.Chains.Tracker.{Node, Site, on_transfer, next, handle, run}
use kalatori_backend.Chains.Tracker.Blocks.{new_block_settles}
use kalatori_backend.Chains.Tracker.Connected.{IsBacked, run_reports_are_funded}
use kalatori_backend.Chains.Tracker.Connection.{
  Probe, ChainWatcher, is_wanted, asset_count, select_assets, connect, connected, prepare_chain,
}
use kalatori_backend.Chains.Tracker.Assets.{prepare_chain_native}
use kalatori_backend.Chains.Payouts.{
  asset_transfer, loss_tolerance, Pays, payout_transfers, payout_transfers_amount,
}
use kalatori_backend.Chains.Manager.{ignite}
use kalatori_backend.Chains.Manager.Routing.{names_of}
use kalatori_backend.Chains.Manager.Start.{Forwards, ignite-Forwards}
use kalatori_backend.Fixtures.{usdc_properties, polkadot, statemint, started}

abbrev bill : Invoice
bill = record {
  id = "7";
  address = 1 ∷ [];
  currency = "USDC";
  amount = 2000000;
  recipient = 9 ∷ [];
  death = 500;
}

abbrev watched : Map Invoice
watched = ("7", bill) ∷ []

abbrev assets : Map CurrencyProperties
assets = ("USDC", usdc_properties) ∷ []

-- every account holds 3 USDC; an event is the account that received a transfer
abbrev rich : Site → String → Client
rich site id = record {
  asset_balance_at_account = λ a n. ok 3000000;
  system_balance_at_account = λ a. ok 0;
}

abbrev node : Node (AccountId32)
node = record {
  block_hash = λ number. ok "0x00";
  version_at = λ hash. ok "v1";
  transfer_events = λ hash. ok ((1 ∷ []) ∷ []);
  now = 1000;
  client = rich;
}

abbrev received : AccountId32 → AccountId32 → Bool
received a e = true

new_block_settles_example :
    let out = handle received assets "v1" node (ChainTrackerRequest.new_block "12") watched in
    (out.flow ≡ next) × (Map.get "7" out.watched ≡ none)
unfolding Map.get check balance Distinct
new_block_settles_example =
    new_block_settles received assets "v1" node "12" ((1 ∷ []) ∷ []) watched "7" (refl, tt)
      (record { hash = "0x00"; hash_read = refl; same_version = refl; events_read = refl })

abbrev request : WatchAccount
request = record {
  id = "7";
  address = 1 ∷ [];
  currency = "USDC";
  amount = 2000000;
  recipient = 9 ∷ [];
  death = 500;
}

-- the order of 2 USDC is watched, and then paid
abbrev requests : List (Node AccountId32 × ChainTrackerRequest)
requests =
    (node, ChainTrackerRequest.watch_account request)
    ∷ (node, ChainTrackerRequest.new_block "12")
    ∷ []

run_reports_are_funded_example :
    All (IsBacked received assets "v1") (run received assets "v1" requests [])
unfolding Distinct
run_reports_are_funded_example = run_reports_are_funded received assets "v1" requests [] tt

abbrev tether : WatchAccount
tether = record {
  id = "7";
  address = 1 ∷ [];
  currency = "USDt";
  amount = 2000000;
  recipient = 9 ∷ [];
  death = 500;
}

ignite-Forwards_example :
    Forwards started
      (ChainRequest.watch_account tether)
      (ChainTrackerRequest.watch_account tether)
      "statemint"
    × Forwards started (ChainRequest.reap tether) (ChainTrackerRequest.reap tether) "statemint"
unfolding ignite names_of Map.get Map.insert
ignite-Forwards_example =
    ignite-Forwards (polkadot ∷ statemint ∷ []) started statemint tether refl (there (here refl))
      (there (here refl))

abbrev dot : CurrencyProperties
dot = record {
  chain_name = "polkadot";
  kind = TokenKind.native;
  decimals = 10;
  rpc_url = "wss://rpc.polkadot.io";
  asset_id = none;
  ss58 = 0;
}

-- The metadata of the node is its name, and its specs are the decimals.
abbrev probe : Probe String ℕ
probe = record {
  genesis_hash = ok "0x91";
  first_block = ok "0x00";
  version_at = λ block. ok "v1";
  metadata_at = λ block. ok "polkadot";
  spec_name = λ metadata. ok metadata;
  specs_at = λ metadata block. ok 10;
  spec_decimals = λ specs. specs;
  assets_set = λ block metadata specs. ok (("DOT", dot) ∷ []);
  client = rich on_transfer;
}

abbrev watcher : ChainWatcher String ℕ
watcher = record {
  genesis_hash = "0x91";
  metadata = "polkadot";
  specs = 10;
  assets = ("DOT", dot) ∷ [];
  version = "v1";
}

probe-Distinct :
    (block md : String) (sp : ℕ) (found : Map CurrencyProperties)
    → probe.assets_set block md sp ≡ ok found
    → Distinct found
unfolding Distinct Map.get
probe-Distinct block md sp found h = rw (← ok-inj h) (refl, tt)

prepare_chain_native_example : (length polkadot.asset ≡ 0) × (length watcher.assets ≡ 1)
unfolding prepare_chain connect select_assets is_wanted asset_count connected Map.retain
prepare_chain_native_example =
    prepare_chain_native probe polkadot (record { name = "DOT"; decimals = 10 })
      "wss://rpc.polkadot.io" [] watcher probe-Distinct refl refl

-- every account holds a little more than 2 USDC
abbrev settled : Client
settled = record {
  asset_balance_at_account = λ a n. ok 2000500;
  system_balance_at_account = λ a. ok 0;
}

settled_bound : (held : ℕ) → balance assets settled bill ≡ ok held → held < u128_mod
unfolding Map.get balance
settled_bound held h = rw (← ok-inj h) (omega arith)

payout_transfers_amount_example :
    (held : ℕ) × (balance assets settled bill ≡ ok held)
    × (bill.amount ≤ held)
    × (held ≤ bill.amount + loss_tolerance)
    × Pays bill (asset_transfer 1337 2000000 (9 ∷ []))
unfolding Map.get balance payout_transfers sub_balance
payout_transfers_amount_example =
    payout_transfers_amount assets settled bill (asset_transfer 1337 2000000 (9 ∷ [])) settled_bound
      (omega arith) refl
