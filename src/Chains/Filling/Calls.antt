-- ===== src/Chains/Filling/Calls.antt =====
-- src/chain/utils.rs: the calls that transfer a balance or an asset, and the call of a batch.
use kalatori_backend.Prelude.{
  ℕ, String, Bool, false, not, some, List, [], ◌∷◌, Result, ok, ◌>>=◌, if◌then◌else◌, str_eq,
}
use kalatori_backend.Errors.{ChainError}
use kalatori_backend.Definitions.{AccountId32}
use kalatori_backend.Chains.Filling.{
  Content, sequence_regular, Fields, end, field, Contents, nil, content, Filler, set_id,
  set_balance, set_bool, only_field, each_field, enter, is_variant, set_address,
}

pub record AssetTransferConstructor : Type 0 where
  pub asset_id : ℕ
  pub amount : ℕ
  pub to_account : AccountId32

pub record BalanceTransferConstructor : Type 0 where
  pub amount : ℕ
  pub to_account : AccountId32
  pub is_clearing : Bool

module _ {Variant : Type 0} where
  -- `call_set`, as the contents of a sequence
  unfoldable pub contents_of : List (Content Variant) → Contents Variant
  contents_of [] = nil
  contents_of (call ∷ rest) = content call (contents_of rest)

  -- the calls are the only field of the batch
  unfoldable pub set_calls :
      List (Content Variant) → Fields Variant → Result ChainError (Fields Variant)
  unfolding contents_of
  set_calls call_set (field (some name) (sequence_regular old) end) = ok (
      field (some name)
        (sequence_regular (if str_eq name "calls" then contents_of call_set else old)) end)
  set_calls call_set fields = ok fields

module _ {Variant : Type 0} (filler : Filler Variant) where
  unfoldable pub asset_field :
      AssetTransferConstructor → String → Content Variant → Result ChainError (Content Variant)
  unfolding set_address set_id set_balance
  asset_field t name c =
      if str_eq name "target"
      then set_address filler t.to_account c
      else if str_eq name "id"
      then ok (set_id t.asset_id c)
      else if str_eq name "amount"
      then ok (set_balance t.amount c)
      else ok c

  unfoldable pub construct_single_asset_transfer_call :
      AssetTransferConstructor → Result ChainError (Content Variant)
  unfolding enter only_field is_variant each_field asset_field
  construct_single_asset_transfer_call t = do
    call ← filler.prepare_call
    enter filler (is_variant filler "Assets")
        (only_field (enter filler (is_variant filler "transfer") (each_field (asset_field t)))) call

  -- the method of a balance transfer
  unfoldable pub is_transfer : Bool → Variant → Bool
  is_transfer is_clearing v =
      if str_eq (filler.name v) "transfer_keep_alive"
      then not is_clearing
      else if str_eq (filler.name v) "transfer_all"
      then is_clearing
      else false

  unfoldable pub balance_field :
      BalanceTransferConstructor → String → Content Variant → Result ChainError (Content Variant)
  unfolding set_address set_bool set_balance
  balance_field t name c =
      if str_eq name "dest"
      then set_address filler t.to_account c
      else if str_eq name "keep_alive"
      then ok (set_bool false c)
      else if str_eq name "value"
      then ok (set_balance t.amount c)
      else ok c

  unfoldable pub construct_single_balance_transfer_call :
      BalanceTransferConstructor → Result ChainError (Content Variant)
  unfolding enter only_field is_variant each_field is_transfer balance_field
  construct_single_balance_transfer_call t = do
    call ← filler.prepare_call
    enter filler (is_variant filler "Balances")
        (only_field (enter filler (is_transfer t.is_clearing) (each_field (balance_field t)))) call

  unfoldable pub construct_batch_call : List (Content Variant) → Result ChainError (Content Variant)
  unfolding enter only_field is_variant set_calls
  construct_batch_call call_set = do
    call ← filler.prepare_call
    enter filler (is_variant filler "Utility")
        (only_field (enter filler (is_variant filler "batch_all") (set_calls call_set))) call
