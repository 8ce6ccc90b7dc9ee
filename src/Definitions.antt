-- ===== src/Definitions.antt =====
-- src/definitions.rs: the data that the components exchange. An `f64` is its 64-bit pattern, an
-- `AccountId32` its bytes; unsigned integers are native numbers.
pub mod Floats
use kalatori_backend.Prelude.{ℕ, ◌%◌, ◌^◌, ◌+◌, ◌-◌, String, Bool, Option, none, some, List, []}
use kalatori_backend.Prelude.Map.{Map}

-- The bit pattern of an IEEE 754 double.
abbrev pub F64 : Type 0
F64 = ℕ

-- `AccountId32` of `substrate_crypto_light`, a newtype of `[u8; 32]`.
abbrev pub AccountId32 : Type 0
AccountId32 = List ℕ

abbrev pub u64_mod : ℕ
u64_mod = 2 ^ 64

abbrev pub u128_mod : ℕ
u128_mod = 2 ^ 128

abbrev pub Timestamp : Type 0
Timestamp = ℕ

pub record NativeToken : Type 0 where
  pub name : String
  pub decimals : ℕ

pub record AssetInfo : Type 0 where
  pub name : String
  pub id : ℕ

pub record Chain : Type 0 where
  pub name : String
  pub endpoints : List String
  pub native_token : Option NativeToken
  pub asset : List AssetInfo

-- `Balance(u128)`
abbrev pub Balance : Type 0
Balance = ℕ

-- `Sub for Balance` in the release profile, where a `u128` subtraction wraps.
unfoldable pub sub_balance : Balance → Balance → Balance
sub_balance l r = (l + u128_mod - r) % u128_mod

-- The operations on `f64` that the conversions of amounts use; they belong to the hardware.
pub record FloatOps : Type 0 where
  pub mul : F64 → F64 → F64
  pub div : F64 → F64 → F64
  pub powi10 : ℕ → F64
  pub round : F64 → F64
  pub as_u128 : F64 → ℕ
  pub of_u128 : ℕ → F64

module _ (f : FloatOps) where
  unfoldable pub decimal_exponent_product : ℕ → F64
  decimal_exponent_product decimals = f.powi10 decimals

  unfoldable pub format_balance : Balance → ℕ → F64
  unfolding decimal_exponent_product
  format_balance b decimals = f.div (f.of_u128 b) (decimal_exponent_product decimals)

  unfoldable pub parse_balance : F64 → ℕ → Balance
  unfolding decimal_exponent_product
  parse_balance float decimals =
      f.as_u128 (f.round (f.mul float (decimal_exponent_product decimals)))

pub data TokenKind : Type 0 where
  asset native : TokenKind

pub record CurrencyInfo : Type 0 where
  pub currency : String
  pub chain_name : String
  pub kind : TokenKind
  pub decimals : ℕ
  pub rpc_url : String
  pub asset_id : Option ℕ
  pub ss58 : ℕ

pub record CurrencyProperties : Type 0 where
  pub chain_name : String
  pub kind : TokenKind
  pub decimals : ℕ
  pub rpc_url : String
  pub asset_id : Option ℕ
  pub ss58 : ℕ

-- `CurrencyInfo::properties`
unfoldable pub properties : CurrencyInfo → CurrencyProperties
properties c = record {
  chain_name = c.chain_name;
  kind = c.kind;
  decimals = c.decimals;
  rpc_url = c.rpc_url;
  asset_id = c.asset_id;
  ss58 = c.ss58;
}

-- `CurrencyProperties::info`
unfoldable pub info : CurrencyProperties → String → CurrencyInfo
info p currency = record {
  currency = currency;
  chain_name = p.chain_name;
  kind = p.kind;
  decimals = p.decimals;
  rpc_url = p.rpc_url;
  asset_id = p.asset_id;
  ss58 = p.ss58;
}

pub record OrderQuery : Type 0 where
  pub order : String
  pub amount : F64
  pub callback : String
  pub currency : String

pub data PaymentStatus : Type 0 where
  pending paid : PaymentStatus

pub data WithdrawalStatus : Type 0 where
  waiting failed completed : WithdrawalStatus

pub data Amount : Type 0 where
  all : Amount
  exact : F64 → Amount

pub data TxStatus : Type 0 where
  pending finalized failed : TxStatus

pub record FinalizedTx : Type 0 where
  pub block_number : ℕ
  pub position_in_block : ℕ
  pub timestamp : String

pub record TransactionInfo : Type 0 where
  pub finalized_tx : Option FinalizedTx
  pub transaction_bytes : String
  pub sender : String
  pub recipient : String
  pub amount : Amount
  pub currency : CurrencyInfo
  pub status : TxStatus

pub record OrderInfo : Type 0 where
  pub withdrawal_status : WithdrawalStatus
  pub payment_status : PaymentStatus
  pub amount : F64
  pub currency : CurrencyInfo
  pub callback : String
  pub transactions : List TransactionInfo
  pub payment_account : String
  pub death : Timestamp

-- `OrderInfo::new`
unfoldable pub new_order_info : OrderQuery → CurrencyInfo → String → Timestamp → OrderInfo
new_order_info query currency payment_account death = record {
  withdrawal_status = waiting;
  payment_status = PaymentStatus.pending;
  amount = query.amount;
  currency = currency;
  callback = query.callback;
  transactions = [];
  payment_account = payment_account;
  death = death;
}

-- `Collision`, `Modified` and `New` carry the record as it stands in the database.
pub data OrderCreateResponse : Type 0 where
  new modified collision : OrderInfo → OrderCreateResponse

pub record ServerInfo : Type 0 where
  pub version : String
  pub instance_id : String
  pub debug : Bool
  pub kalatori_remark : Option String

pub record ServerStatus : Type 0 where
  pub server_info : ServerInfo
  pub supported_currencies : Map CurrencyProperties

pub record OrderStatus : Type 0 where
  pub order : String
  pub message : String
  pub recipient : String
  pub server_info : ServerInfo
  pub order_info : OrderInfo
  pub payment_page : String
  pub redirect_url : String

pub data OrderResponse : Type 0 where
  new_order found_order modified_order collided_order : OrderStatus → OrderResponse
  not_found : OrderResponse

pub record InvalidParameter : Type 0 where
  pub parameter : String
  pub message : String
