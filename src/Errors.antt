-- ===== src/Errors.antt =====
-- src/error.rs: the error enumerations. A value of a third-party error type is carried as the text
-- that it displays; its conversions (`#[from]`) are the constructors themselves.
pub mod Causes
mod Tests
use kalatori_backend.Prelude.{ℕ, String}

-- `NotHex`
pub data NotHex : Type 0 where
  block_hash metadata storage_key storage_value : NotHex

pub data UtilError : Type 0 where
  not_hex : NotHex → UtilError

pub data SignerError : Type 0 where
  env : String → SignerError
  signer_down : SignerError
  invalid_seed : String → SignerError
  invalid_derivation : String → SignerError

pub data DbError : Type 0 where
  currency_key_not_found db_engine_down : DbError
  db_internal_error db_start_error io_error codec_error : String → DbError
  order_not_found already_paid not_paid withdrawal_was_attempted : String → DbError
  serialization_error deserialization_error : String → DbError

-- `less_than_existential_deposit` carries the bit pattern of an `f64`.
pub data OrderError : Type 0 where
  less_than_existential_deposit : ℕ → OrderError
  unknown_currency : OrderError
  missing_parameter invalid_parameter : String → OrderError
  internal_error : OrderError

pub data ServerError : Type 0 where
  tcp_listener_bind : String → ServerError
  thread_error : ServerError

pub data SeedEnvError : Type 0 where
  invalid_unicode_old_seed_key : SeedEnvError
  invalid_unicode_value : String → SeedEnvError
  seed_not_present : SeedEnvError

-- `storage_value_format` carries the displayed JSON value.
pub data ChainError : Type 0 where
  asset_id asset_id_format : ChainError
  assets_invalid : String → ChainError
  asset_key_empty asset_key_not_single_hash asset_metadata_plain : ChainError
  asset_metadata_unexpected asset_metadata_type asset_metadata_map_size : ChainError
  asset_balance_format asset_balance_not_found : ChainError
  base58_prefix_format_not_supported : String → ChainError
  base58_prefix_mismatch : (specs meta : ℕ) → ChainError
  block_number_format block_hash_format block_hash_length : ChainError
  client tokio : String → ChainError
  decimals_format_not_supported : String → ChainError
  genesis_hash_format metadata_format metadata_not_decodeable : ChainError
  no_base58_prefix no_block_number_definition no_decimals no_metadata_v15 : ChainError
  no_meta_prefix no_pallet no_storage no_system no_storage_in_system no_unit : ChainError
  properties_format raw_metadata_not_decodeable : ChainError
  unit_format_not_supported : String → ChainError
  storage_value_format : String → ChainError
  util : UtilError → ChainError
  invoice_account invalid_chain invalid_currency : String → ChainError
  message_dropped block_subscription_terminated : ChainError
  meta_version_error_pallets storage_registry_error : String → ChainError
  balance_not_found storage_query events_missing events_nonexistant : ChainError
  parser_error storage_decode_error registry_error substrate_constructor : String → ChainError
  transaction_not_signable : String → ChainError
  signer : SignerError → ChainError
  nothing_to_send storage_entry_not_map storage_entry_map_multiple : ChainError
  storage_key_not_found : String → ChainError
  storage_key_not_u32 : ChainError
  wrong_network : (expected actual rpc : String) → ChainError
  serde : String → ChainError

pub data Error : Type 0 where
  seed_env : SeedEnvError → Error
  config_file_read : (path source : String) → Error
  config_file_parse config_parse empty_endpoints : String → Error
  chain : ChainError → Error
  db : DbError → Error
  order : OrderError → Error
  server : ServerError → Error
  signer : SignerError → Error
  shutdown_signal runtime : String → Error
  logger_directives : (directives source : String) → Error
  recipient_account : String → Error
  fatal : Error
  duplicate_currency : String → Error
