-- ===== src/Hex.antt =====
-- src/utils.rs, and `BlockHash` of src/chain/definitions.rs: hexadecimal texts. The coder of the crate
-- `hex` is a parameter.
pub mod Roundtrip
mod Tests
use Prim.Native.String.{◌++◌, len, slice}
use kalatori_backend.Prelude.{
  ℕ, String, Option, none, some, List, Result, ok, err, ◌>>=◌, map_err, ok_or, if◌then◌else◌,
  length, ◌==◌, str_eq,
}
use kalatori_backend.Errors.{NotHex, UtilError, not_hex, ChainError, util, block_hash_length}

abbrev pub Bytes : Type 0
Bytes = List ℕ

pub record HexCoder : Type 0 where
  pub encode : Bytes → String
  pub decode : String → Option Bytes

-- `str::strip_prefix`
unfoldable pub strip_prefix : String → String → Option String
strip_prefix prefix text =
    if str_eq (slice text 0 (len prefix)) prefix
    then some (slice text (len prefix) (len text))
    else none

-- `BlockHash(H256)`
pub record BlockHash : Type 0 where
  pub bytes : Bytes

module _ (hex : HexCoder) where
  stripped : Option String → String → String
  stripped (some rest) text = rest
  stripped none text = text

  unfoldable pub unhex : String → NotHex → Result UtilError Bytes
  unfolding strip_prefix stripped
  unhex hex_data what_is_hex =
      ok_or (hex.decode (stripped (strip_prefix "0x" hex_data) hex_data)) (not_hex what_is_hex)

  unfoldable pub to_string : BlockHash → String
  to_string h = "0x" ++ hex.encode h.bytes

  -- `try_into` an array of 32 bytes
  sized : Bytes → Result ChainError BlockHash
  sized raw = if length raw == 32 then ok (record { bytes = raw }) else err block_hash_length

  unfoldable pub from_str : String → Result ChainError BlockHash
  unfolding unhex sized
  from_str s = do raw ← map_err util (unhex s NotHex.block_hash); sized raw
