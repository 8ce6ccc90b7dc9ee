-- ===== src/Chains/Properties.antt =====
-- src/chain/utils.rs: the properties of a chain, read from the JSON object that a node answers to
-- `system_properties`. The JSON values are those of `serde_json`, a parameter.
pub mod Specs
mod Tests
use kalatori_backend.Prelude.{
  ℕ, String, Bool, Option, none, some, List, [], ◌∷◌, Result, ok, err, ◌>>=◌, if◌then◌else◌, ltb,
  ◌==◌,
}
use kalatori_backend.Errors.{
  ChainError, decimals_format_not_supported, no_decimals, base58_prefix_format_not_supported,
  base58_prefix_mismatch, no_base58_prefix, unit_format_not_supported, no_unit,
}

-- What a match on a `Value` sees of it; a number comes with its `as_u64`.
pub data View (Value : Type 0) : Type 0 where
  number : Option ℕ → View Value
  string : String → View Value
  array : List Value → View Value
  object : (String → Option Value) → View Value
  other : View Value

-- An object is the function `get`; `to_string` is the `Display` of a value.
pub record Json (Value : Type 0) : Type 0 where
  pub view : Value → View Value
  pub to_string : Value → String

pub record ShortSpecs : Type 0 where
  pub base58prefix : ℕ
  pub decimals : ℕ
  pub unit : String

-- `as_u64` and `try_into`, to an unsigned type of so many values
narrow : ℕ → ChainError → Option ℕ → Result ChainError ℕ
narrow values e none = err e
narrow values e (some n) = if ltb n values then ok n else err e

module _ {Value : Type 0} (json : Json Value) where
  single_decimals : ChainError → View Value → Result ChainError ℕ
  unfolding narrow
  single_decimals e (number n) = narrow 256 e n
  single_decimals e _ = err e

  decimals_of : ChainError → View Value → Result ChainError ℕ
  unfolding narrow single_decimals
  decimals_of e (number n) = narrow 256 e n
  decimals_of e (array (b ∷ [])) = single_decimals e (json.view b)
  decimals_of e _ = err e

  decimals_found : Option Value → Result ChainError ℕ
  unfolding decimals_of
  decimals_found none = err no_decimals
  decimals_found (some a) =
      decimals_of (decimals_format_not_supported (json.to_string a)) (json.view a)

  unfoldable pub decimals : (String → Option Value) → Result ChainError ℕ
  unfolding decimals_found
  decimals x = decimals_found (x "tokenDecimals")

  -- the check against the prefix of the metadata
  matching : Option ℕ → ℕ → Result ChainError ℕ
  matching none d = ok d
  matching (some meta) d = if meta == d then ok d else err (base58_prefix_mismatch d meta)

  prefix_of : ChainError → Option ℕ → View Value → Result ChainError ℕ
  unfolding narrow matching
  prefix_of e meta (number n) = do d ← narrow 65536 e n; matching meta d
  prefix_of e meta _ = err e

  prefix_found : Option ℕ → Option Value → Result ChainError ℕ
  unfolding prefix_of
  prefix_found none none = err no_base58_prefix
  prefix_found (some meta) none = ok meta
  prefix_found meta (some a) =
      prefix_of (base58_prefix_format_not_supported (json.to_string a)) meta (json.view a)

  unfoldable pub base58prefix : (String → Option Value) → Option ℕ → Result ChainError ℕ
  unfolding prefix_found
  base58prefix x optional_prefix_from_meta = prefix_found optional_prefix_from_meta (x "ss58Format")

  single_unit : ChainError → View Value → Result ChainError String
  single_unit e (string c) = ok c
  single_unit e _ = err e

  unit_of : ChainError → View Value → Result ChainError String
  unfolding single_unit
  unit_of e (string b) = ok b
  unit_of e (array (b ∷ [])) = single_unit e (json.view b)
  unit_of e _ = err e

  unit_found : Option Value → Result ChainError String
  unfolding unit_of
  unit_found none = err no_unit
  unit_found (some a) = unit_of (unit_format_not_supported (json.to_string a)) (json.view a)

  unfoldable pub unit : (String → Option Value) → Result ChainError String
  unfolding unit_found
  unit x = unit_found (x "tokenSymbol")

  unfoldable pub system_properties_to_short_specs :
      (String → Option Value) → Option ℕ → Result ChainError ShortSpecs
  unfolding base58prefix decimals unit
  system_properties_to_short_specs x optional_prefix_from_meta = do
    p ← base58prefix x optional_prefix_from_meta
    d ← decimals x
    u ← unit x
    ok (record { base58prefix = p; decimals = d; unit = u })
