-- ===== src/Chains/Payouts/Calls.antt =====
-- src/chain/payout.rs: the transaction of a payout, with the calls of src/chain/utils.rs.
pub mod Extrinsic
mod Tests
use kalatori_backend.Prelude.{String, Option, List, Result}
use kalatori_backend.Errors.{ChainError}
use kalatori_backend.Hex.{Bytes, BlockHash}
use kalatori_backend.Chains.Filling.{Content, Filler}
use kalatori_backend.Chains.Filling.Calls.{
  AssetTransferConstructor, BalanceTransferConstructor, construct_single_asset_transfer_call,
  construct_single_balance_transfer_call,
}
use kalatori_backend.Chains.Filling.Transactions.{
  TransactionToFill, Transactor, construct_batch_transaction,
}
use kalatori_backend.Chains.Payouts.{Transfer, balance_transfer, asset_transfer}
use kalatori_backend.Chains.Payouts.Transaction.{Constructor}

-- The signing of transactions by other crates, at the metadata of a chain.
pub record Signing (Variant : Type 0) : Type 0 where
  pub sign_this : TransactionToFill Variant → Option Bytes
  pub with_signature : TransactionToFill Variant → Bytes → TransactionToFill Variant
  pub send_this_signed : TransactionToFill Variant → Result String (Option Bytes)
  pub debug : TransactionToFill Variant → String

module _ {Variant : Type 0} (filler : Filler Variant) where
  -- the call of a payout's transfer
  unfoldable pub construct_transfer_call : Transfer → Result ChainError (Content Variant)
  unfolding construct_single_balance_transfer_call construct_single_asset_transfer_call
  construct_transfer_call (balance_transfer amount to_account is_clearing) =
      construct_single_balance_transfer_call filler
        (record { amount = amount; to_account = to_account; is_clearing = is_clearing })
  construct_transfer_call (asset_transfer asset_id amount to_account) =
      construct_single_asset_transfer_call filler
        (record { asset_id = asset_id; amount = amount; to_account = to_account })

  -- what a payout constructs, at the genesis of its chain
  unfoldable pub constructor_of :
      Transactor Variant
      → Signing Variant
      → BlockHash
      → Constructor (Content Variant) (TransactionToFill Variant)
  unfolding construct_transfer_call construct_batch_transaction
  constructor_of transactor signing genesis_hash = record {
    construct_transfer_call = construct_transfer_call;
    construct_batch_transaction = construct_batch_transaction filler transactor genesis_hash;
    sign_this = signing.sign_this;
    with_signature = signing.with_signature;
    send_this_signed = signing.send_this_signed;
    debug = signing.debug;
  }
