-- ===== src/Chains/Tracker/Cycle/Tests.antt =====
-- The theorem on the loop over the endpoints of src/chain/tracker.rs, at a chain whose first endpoint
-- does not answer.
use kalatori_backend.Prelude.{ℕ, String, ◌≡◌, refl, Bool, true, false, none, List, [], ◌∷◌, ok}
use kalatori_backend.Prelude.Map
use kalatori_backend.Prelude.Map.{Map}
use kalatori_backend.Definitions.{AccountId32, CurrencyProperties, TokenKind}
use kalatori_backend.Chains.{
  Client, WatchAccount, ChainTrackerRequest, from_request, check, balance,
}
use kalatori_backend.Chains.Tracker.{Node, restart, order_paid, payout, accepted, connect_chain}
use kalatori_backend.Chains.Tracker.Connection.{
  Probe, prepare_chain, connect, connected, select_assets, is_wanted, asset_count,
}
use kalatori_backend.Chains.Tracker.Cycle.{Attempt, start_chain_watch}
use kalatori_backend.Chains.Tracker.Cycle.Asked.{Answered}
use kalatori_backend.Chains.Tracker.Cycle.Reported.{start_chain_watch-Answered}
use kalatori_backend.Fixtures.{polkadot}

abbrev dot : CurrencyProperties
dot = record {
  chain_name = "polkadot";
  kind = TokenKind.native;
  decimals = 10;
  rpc_url = "wss://rpc.polkadot.io";
  asset_id = none;
  ss58 = 0;
}

-- every account holds 3 DOT; an event is the account that received a transfer
abbrev rich : Client
rich = record {
  asset_balance_at_account = λ a n. ok 0;
  system_balance_at_account = λ a. ok 30000000000;
}

abbrev probe : Probe String ℕ
probe = record {
  genesis_hash = ok "0x91";
  first_block = ok "0x00";
  version_at = λ block. ok "v1";
  metadata_at = λ block. ok "polkadot";
  spec_name = λ metadata. ok metadata;
  specs_at = λ metadata block. ok 10;
  spec_decimals = λ specs. specs;
  assets_set = λ block metadata specs. ok (("DOT", dot) ∷ []);
  client = λ id. rich;
}

abbrev node : Node AccountId32
node = record {
  block_hash = λ number. ok "0x00";
  version_at = λ hash. ok "v1";
  transfer_events = λ hash. ok ((1 ∷ []) ∷ []);
  now = 1000;
  client = λ site id. rich;
}

abbrev received : AccountId32 → AccountId32 → Bool
received a e = true

abbrev order : WatchAccount
order = record {
  id = "7";
  address = 1 ∷ [];
  currency = "DOT";
  amount = 20000000000;
  recipient = 9 ∷ [];
  death = 500;
}

-- the order is watched on the first connection, paid in a block of the second, and then reaped
abbrev attempts : List (Attempt AccountId32 String ℕ)
attempts =
    (record { is_cancelled = false; has_client = false; probe = probe; requests = [] })
    ∷ (record {
      is_cancelled = false;
      has_client = true;
      probe = probe;
      requests = (node, ChainTrackerRequest.watch_account order) ∷ [];
    })
    ∷ (record {
      is_cancelled = false;
      has_client = true;
      probe = probe;
      requests = (node, ChainTrackerRequest.reap order) ∷ [];
    })
    ∷ []

-- the account is found to be funded when the tracker connects again
cycle_test : start_chain_watch received polkadot attempts ≡ record {
  flow = restart;
  watched = [];
  actions =
      connect_chain (("DOT", dot) ∷ [])
      ∷ accepted "7"
      ∷ connect_chain (("DOT", dot) ∷ [])
      ∷ order_paid "7"
      ∷ accepted "7"
      ∷ payout (from_request order)
      ∷ [];
}
unfolding start_chain_watch prepare_chain connect connected select_assets is_wanted asset_count
    Map.retain Map.insert Map.get Map.remove check balance
cycle_test = refl

start_chain_watch-Answered_example :
    Answered
      (λ id. id ≡ "7")
      (λ i. i ≡ from_request order)
      (start_chain_watch received polkadot attempts)
start_chain_watch-Answered_example =
    start_chain_watch-Answered received (λ id. id ≡ "7") (λ i. i ≡ from_request order) polkadot
      attempts (tt, ((refl, tt), ((refl, tt), tt)))
