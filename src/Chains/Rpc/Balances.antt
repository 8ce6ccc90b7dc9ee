-- ===== src/Chains/Rpc/Balances.antt =====
-- src/chain/rpc.rs: the balances of an account and the number of a block, from the storage.
use kalatori_backend.Prelude.{
  ℕ, String, Bool, true, false, Option, none, some, List, [], ◌∷◌, Result, ok, err, ◌>>=◌, map_err,
  if◌then◌else◌, str_eq,
}
use kalatori_backend.Prelude.Exec
use kalatori_backend.Prelude.Exec.{Exec, lift}
use kalatori_backend.Errors.{
  NotHex, ChainError, util, parser_error, asset_balance_not_found, asset_balance_format,
  balance_not_found, storage_value_format, block_number_format,
}
use kalatori_backend.Definitions.{AccountId32, Balance}
use kalatori_backend.Hex.{HexCoder, BlockHash, unhex}
use kalatori_backend.Chains.Properties.{View, string, Json}
use kalatori_backend.Chains.Metadata.{ParsedView, primitive_u32, primitive_u128, composite, Parser}
use kalatori_backend.Chains.Rpc.{WsClient, get_value_from_storage}

-- `FinalizedStorageQuery`
pub record Query (Ty : Type 0) : Type 0 where
  pub key : String
  pub value_ty : Ty

-- The queries of src/chain/utils.rs, at the metadata of a connection.
pub record Queries (Ty : Type 0) : Type 0 where
  pub block_number_query : Result ChainError (Query Ty)
  pub asset_balance_query : AccountId32 → ℕ → Result ChainError (Query Ty)
  pub system_balance_query : AccountId32 → Result ChainError (Query Ty)

module _ {Ty Data : Type 0} (parser : Parser Ty Data) where
  -- the loop over the fields of an asset account: the first number that is a balance
  asset_field : ParsedView Data → Option Balance
  asset_field (primitive_u128 value true) = some value
  asset_field _ = none

  or_else {ℓ} : {A : Type ℓ} → Option A → Option A → Option A
  or_else none later = later
  or_else (some a) later = some a

  asset_balance_in : List (Option String × Data) → Result ChainError Balance
  unfolding asset_field
  asset_balance_in [] = err asset_balance_not_found
  asset_balance_in ((name, d) ∷ rest) =
      let later = asset_balance_in rest in
      elim (asset_field (parser.view d)) [ none ↦ later | some value ↦ ok value ]

  asset_balance_of : ParsedView Data → Result ChainError Balance
  unfolding asset_balance_in
  asset_balance_of (composite fields) = asset_balance_in fields
  asset_balance_of _ = err asset_balance_format

  is_named : String → Option String → Bool
  is_named name none = false
  is_named name (some n) = str_eq n name

  -- the loop over the inner fields
  free_in : List (Option String × Data) → Option Balance
  unfolding is_named asset_field or_else
  free_in [] = none
  free_in ((name, d) ∷ rest) =
      or_else (if is_named "free" name then asset_field (parser.view d) else none) (free_in rest)

  free_of : ParsedView Data → Option Balance
  unfolding free_in
  free_of (composite fields) = free_in fields
  free_of _ = none

  -- the loop over the fields of a system account
  system_in : List (Option String × Data) → Option Balance
  unfolding is_named free_of or_else
  system_in [] = none
  system_in ((name, d) ∷ rest) =
      or_else (if is_named "data" name then free_of (parser.view d) else none) (system_in rest)

  system_of : ParsedView Data → Option Balance
  unfolding system_in
  system_of (composite fields) = system_in fields
  system_of _ = none

  free_or_missing : Option Balance → Result ChainError Balance
  free_or_missing none = err balance_not_found
  free_or_missing (some value) = ok value

  block_number_of : ParsedView Data → Result ChainError ℕ
  block_number_of (primitive_u32 value) = ok value
  block_number_of _ = err block_number_format

  module _ {W Value : Type 0} (ws : WsClient W Value) (json : Json Value) (hex : HexCoder)
      (queries : Queries Ty) where
    -- the decoded value of a storage entry
    decoded_value : Ty → String → Result ChainError (ParsedView Data)
    decoded_value ty hex_data = do
      raw ← map_err util (unhex hex hex_data NotHex.storage_value)
      d ← map_err parser_error (parser.decode_all_as_type ty raw)
      ok (parser.view d)

    asset_balance_from : Ty → Value → View Value → Result ChainError Balance
    unfolding decoded_value asset_balance_of
    asset_balance_from ty v (string s) = do d ← decoded_value ty s; asset_balance_of d
    asset_balance_from ty v _ = err (storage_value_format (json.to_string v))

    system_balance_from : Ty → View Value → Result ChainError Balance
    unfolding decoded_value system_of free_or_missing
    system_balance_from ty (string s) = do d ← decoded_value ty s; free_or_missing (system_of d)
    system_balance_from ty _ = err balance_not_found

    block_number_from : Ty → Value → View Value → Result ChainError ℕ
    unfolding decoded_value block_number_of
    block_number_from ty v (string s) = do d ← decoded_value ty s; block_number_of d
    block_number_from ty v _ = err (storage_value_format (json.to_string v))

    -- a query and the value of its key
    unfoldable pub fetched :
        Result ChainError (Query Ty) → BlockHash → Exec W ChainError (Ty × Value)
    fetched query block = Exec.◌>>=◌ (lift query) λ q.
        Exec.◌>>=◌ (get_value_from_storage ws json hex q.key block) λ v. Exec.pure (q.value_ty, v)

    unfoldable pub asset_balance_at_account :
        BlockHash → AccountId32 → ℕ → Exec W ChainError Balance
    unfolding fetched asset_balance_from
    asset_balance_at_account block account_id asset_id =
        Exec.◌>>=◌ (fetched (queries.asset_balance_query account_id asset_id) block)
          λ q. lift (asset_balance_from q.0 q.1 (json.view q.1))

    unfoldable pub system_balance_at_account : BlockHash → AccountId32 → Exec W ChainError Balance
    unfolding fetched system_balance_from
    system_balance_at_account block account_id =
        Exec.◌>>=◌ (fetched (queries.system_balance_query account_id) block)
          λ q. lift (system_balance_from q.0 (json.view q.1))

    unfoldable pub current_block_number : BlockHash → Exec W ChainError ℕ
    unfolding fetched block_number_from
    current_block_number block =
        Exec.◌>>=◌ (fetched queries.block_number_query block)
          λ q. lift (block_number_from q.0 q.1 (json.view q.1))
