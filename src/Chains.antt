-- ===== src/Chains.antt =====
-- src/chain/definitions.rs: what the chain manager and the trackers of the chains exchange. The
-- channel `res` of a `WatchAccount` is the answer of the step that consumes the request.
pub mod Tracker
pub mod Manager
pub mod Filling
pub mod Metadata
pub mod Properties
pub mod Rpc
pub mod Storage
pub mod Payouts
mod Tests
use kalatori_backend.Prelude.{
  ℕ, String, Bool, true, false, Option, none, some, List, Result, ok, err, map_err, ok_or, ◌>>=◌,
  leb,
}
use kalatori_backend.Prelude.Map
use kalatori_backend.Prelude.Map.{Map}
use kalatori_backend.Errors.{ChainError, invoice_account, invalid_currency}
use kalatori_backend.Definitions.{
  AccountId32, Balance, Timestamp, OrderInfo, CurrencyProperties, FloatOps, parse_balance,
}

pub record WatchAccount : Type 0 where
  pub id : String
  pub address : AccountId32
  pub currency : String
  pub amount : Balance
  pub recipient : AccountId32
  pub death : Timestamp

pub record Invoice : Type 0 where
  pub id : String
  pub address : AccountId32
  pub currency : String
  pub amount : Balance
  pub recipient : AccountId32
  pub death : Timestamp

-- `ChainTrackerRequest`; a block comes with its number
pub data ChainTrackerRequest : Type 0 where
  watch_account reap : WatchAccount → ChainTrackerRequest
  new_block : String → ChainTrackerRequest
  shutdown : ChainTrackerRequest

pub data ChainRequest : Type 0 where
  watch_account reap : WatchAccount → ChainRequest
  shutdown : ChainRequest

-- `WatchAccount::new`
module _ (f : FloatOps) (from_base58_string : String → Result String (AccountId32 × ℕ)) where
  unfoldable pub new_watch_account :
      String → OrderInfo → AccountId32 → Result ChainError WatchAccount
  unfolding parse_balance
  new_watch_account id order recipient = do
    account ← map_err invoice_account (from_base58_string order.payment_account)
    ok (record {
      id = id;
      address = account.0;
      currency = order.currency.currency;
      amount = parse_balance f order.amount order.currency.decimals;
      recipient = recipient;
      death = order.death;
    })

-- `Invoice::from_request`, which answers the request with `Ok(())`
unfoldable pub from_request : WatchAccount → Invoice
from_request w = record {
  id = w.id;
  address = w.address;
  currency = w.currency;
  amount = w.amount;
  recipient = w.recipient;
  death = w.death;
}

-- What a node answers about the accounts at one block, by src/chain/rpc.rs.
pub record Client : Type 0 where
  pub asset_balance_at_account : AccountId32 → ℕ → Result ChainError Balance
  pub system_balance_at_account : AccountId32 → Result ChainError Balance

module _ (assets : Map CurrencyProperties) (client : Client) where
  balance_of : AccountId32 → Option ℕ → Result ChainError Balance
  balance_of address (some asset_id) = client.asset_balance_at_account address asset_id
  balance_of address none = client.system_balance_at_account address

  -- `Invoice::balance`
  unfoldable pub balance : Invoice → Result ChainError Balance
  unfolding balance_of
  balance i = do
    currency ← ok_or (Map.get i.currency assets) (invalid_currency i.currency)
    balance_of i.address currency.asset_id

  -- `Invoice::check`
  unfoldable pub check : Invoice → Result ChainError Bool
  unfolding balance
  check i = do held ← balance i; ok (leb i.amount held)
