-- ===== src/Chains/Payouts/Transaction.antt =====
-- src/chain/payout.rs: a payout up to its submission. The construction of transactions is an interface
-- here, which Calls fills with that of src/chain/utils.rs.
pub mod Submission
use Prim.Native.String.{◌++◌}
use kalatori_backend.Prelude.{
  ℕ, String, Option, none, some, List, [], ◌∷◌, Result, ok, err, map_err, ok_or, ◌>>=◌,
}
use kalatori_backend.Prelude.Map
use kalatori_backend.Prelude.Map.{Map}
use kalatori_backend.Prelude.Exec
use kalatori_backend.Prelude.Exec.{Exec, lift}
use kalatori_backend.Errors.{
  ChainError, invalid_currency, transaction_not_signable, nothing_to_send, substrate_constructor,
}
use kalatori_backend.Definitions.{AccountId32, Balance, CurrencyProperties, sub_balance}
use kalatori_backend.Hex.{Bytes, HexCoder, BlockHash}
use kalatori_backend.Signer
use kalatori_backend.Signer.{Signer, Crypto}
use kalatori_backend.Chains.{Invoice}
use kalatori_backend.Chains.Properties.{Json}
use kalatori_backend.Chains.Metadata.{Parser}
use kalatori_backend.Chains.Payouts.{Transfer, choose}
use kalatori_backend.Chains.Rpc.{WsClient, block_hash, send_stuff}
use kalatori_backend.Chains.Rpc.Balances.{
  Query, Queries, asset_balance_at_account, system_balance_at_account, current_block_number,
}

-- The construction of transactions at the metadata and the genesis of a connection.
pub record Constructor (Call Transaction : Type 0) : Type 0 where
  pub construct_transfer_call : Transfer → Result ChainError Call
  pub construct_batch_transaction :
      AccountId32 → List Call → BlockHash → ℕ → ℕ → Result ChainError Transaction
  pub sign_this : Transaction → Option Bytes
  -- the signature is filled in
  pub with_signature : Transaction → Bytes → Transaction
  pub send_this_signed : Transaction → Result String (Option Bytes)
  -- `{batch_transaction:?}`
  pub debug : Transaction → String

module _ {W Value Ty Data Call Transaction Pair WordSet : Type 0} (ws : WsClient W Value)
    (json : Json Value) (hex : HexCoder) (parser : Parser Ty Data) (queries : Queries Ty)
    (make : Constructor Call Transaction) (c : Crypto Pair WordSet)
    (assets : Map CurrencyProperties) (signer : Signer) (i : Invoice) where
  -- the transaction with a transfer, signed for the order
  unfoldable pub signed_extrinsic : Transfer → BlockHash → ℕ → Result ChainError Bytes
  signed_extrinsic transfer block block_number = do
    call ← make.construct_transfer_call transfer
    batch_transaction ← make.construct_batch_transaction i.address (call ∷ []) block block_number 0
    sign_this ←
        ok_or (make.sign_this batch_transaction)
          (transaction_not_signable (make.debug batch_transaction))
    signature ← map_err ChainError.signer (Signer.sign c signer i.id sign_this)
    unsent ←
        map_err substrate_constructor
          (make.send_this_signed (make.with_signature batch_transaction signature))
    ok_or unsent nothing_to_send

  account_balance : BlockHash → Option ℕ → Exec W ChainError Balance
  account_balance block (some asset_id) =
      asset_balance_at_account parser ws json hex queries block i.address asset_id
  account_balance block none = system_balance_at_account parser ws json hex queries block i.address

  -- `Invoice::balance`
  balance_at : BlockHash → Exec W ChainError Balance
  unfolding account_balance
  balance_at block =
      Exec.◌>>=◌ (lift (ok_or (Map.get i.currency assets) (invalid_currency i.currency)))
        λ currency. account_balance block currency.asset_id

  chosen : Balance → Result ChainError (Option Transfer)
  chosen held = do
    currency ← ok_or (Map.get i.currency assets) (invalid_currency i.currency)
    choose (sub_balance held i.amount) currency i

  send_signed : Result ChainError Bytes → Exec W ChainError (Unit {0})
  send_signed (err e) = Exec.raise e
  send_signed (ok extrinsic) =
      Exec.◌>>=◌ (send_stuff ws json hex ("0x" ++ hex.encode extrinsic)) λ v. Exec.pure tt

  -- what is sent; `none` is an early return
  submit : BlockHash → ℕ → Option Transfer → Exec W ChainError (Unit {0})
  unfolding signed_extrinsic send_signed
  submit block block_number none = Exec.pure tt
  submit block block_number (some transfer) =
      send_signed (signed_extrinsic transfer block block_number)

  -- what is read of the node before: the block, its number and the balance
  read : Exec W ChainError (BlockHash × ℕ × Balance)
  unfolding balance_at
  read = Exec.◌>>=◌ (block_hash ws json hex none) λ block.
      Exec.◌>>=◌ (current_block_number parser ws json hex queries block)
        λ block_number. Exec.◌>>=◌ (balance_at block) λ held. Exec.pure (block, block_number, held)

  after_read : BlockHash × ℕ × Balance → Exec W ChainError (Unit {0})
  unfolding chosen submit
  after_read (block, block_number, held) =
      Exec.◌>>=◌ (lift (chosen held)) λ transfer. submit block block_number transfer

  -- `payout`, with a client that is connected
  unfoldable pub payout : Exec W ChainError (Unit {0})
  unfolding read after_read
  payout = Exec.◌>>=◌ read λ r. after_read r
