-- ===== src/Chains/Tracker/Connection.antt =====
-- `ChainWatcher::prepare_chain` of src/chain/tracker.rs: what a tracker does with a new connection.
use kalatori_backend.Prelude.{
  ℕ, String, ◌+◌, Bool, false, ◌&&◌, Option, none, some, List, [], ◌∷◌, ◌++◌, Result, ok, err,
  ◌>>=◌, if◌then◌else◌, ◌==◌, any, length, is_some, str_eq,
}
use kalatori_backend.Prelude.Map
use kalatori_backend.Prelude.Map.{Map}
use kalatori_backend.Errors.{ChainError, assets_invalid, wrong_network}
use kalatori_backend.Definitions.{AssetInfo, Chain, CurrencyProperties, NativeToken}
use kalatori_backend.Chains.{Client, Invoice, check}
use kalatori_backend.Chains.Tracker.{Action, connect_chain, Seen, funded, remove_all, reports}

-- The answers of a node to a new connection, by the functions of src/chain/rpc.rs; `spec_name` is
-- `spec_name_version` of the parser of the metadata.
pub record Probe (Metadata Specs : Type 0) : Type 0 where
  pub genesis_hash : Result ChainError String
  pub first_block : Result ChainError String
  pub version_at : String → Result ChainError String
  pub metadata_at : String → Result ChainError Metadata
  pub spec_name : Metadata → Result ChainError String
  pub specs_at : Metadata → String → Result ChainError Specs
  pub spec_decimals : Specs → ℕ
  pub assets_set : String → Metadata → Specs → Result ChainError (Map CurrencyProperties)
  pub client : String → Client

pub record ChainWatcher (Metadata Specs : Type 0) : Type 0 where
  pub genesis_hash : String
  pub metadata : Metadata
  pub specs : Specs
  pub assets : Map CurrencyProperties
  pub version : String

is_id : ℕ → Option ℕ → Bool
is_id id none = false
is_id id (some other) = id == other

-- the closure of `assets.retain`, by the native token of the chain
unfoldable pub is_wanted :
    Option NativeToken → List AssetInfo → ℕ → String → CurrencyProperties → Bool
unfolding is_id
is_wanted (some t) assets decimals name p = str_eq t.name name && t.decimals == decimals
is_wanted none assets decimals name p =
    any (λ a. str_eq a.name name && is_id a.id p.asset_id) assets

unfoldable pub asset_count : Chain → ℕ
asset_count c = length c.asset + (if is_some c.native_token then 1 else 0)

-- the assets that are kept, if there are as many as the configuration names
unfoldable pub select_assets :
    Chain → ℕ → Map CurrencyProperties → Result ChainError (Map CurrencyProperties)
unfolding is_wanted asset_count
select_assets c decimals assets =
    let kept = Map.retain (is_wanted c.native_token c.asset decimals) assets in
    if length kept == asset_count c then ok kept else err (assets_invalid c.name)

module _ {Metadata Specs : Type 0} (probe : Probe Metadata Specs) where
  pub named : Chain → String → String → Result ChainError (Unit {0})
  named c rpc name = if str_eq name c.name then ok tt else err (wrong_network c.name name rpc)

  -- up to the chain watcher
  unfoldable pub connect : Chain → String → Result ChainError (ChainWatcher Metadata Specs)
  unfolding named select_assets
  connect c rpc = do
    genesis_hash ← probe.genesis_hash
    block ← probe.first_block
    version ← probe.version_at block
    metadata ← probe.metadata_at block
    name ← probe.spec_name metadata
    right ← named c rpc name
    specs ← probe.specs_at metadata block
    found ← probe.assets_set block metadata specs
    assets ← select_assets c (probe.spec_decimals specs) found
    ok (record {
      genesis_hash = genesis_hash;
      metadata = metadata;
      specs = specs;
      assets = assets;
      version = version;
    })

  -- the loop over the accounts that were watched on an earlier connection
  unfoldable pub see_watched : Map CurrencyProperties → Map Invoice → Seen
  unfolding funded
  see_watched assets [] = record { reported = []; removed = [] }
  see_watched assets ((id, i) ∷ rest) =
      let t = funded id (check assets (probe.client id) i) in
      let seen = see_watched assets rest in
      record { reported = t.reported ++ seen.reported; removed = t.removed ++ seen.removed }

  unfoldable pub connected :
      Result ChainError (ChainWatcher Metadata Specs)
      → Map Invoice
      → Result ChainError (ChainWatcher Metadata Specs) × Map Invoice × List Action
  unfolding see_watched remove_all reports
  connected (err e) watched = (err e, watched, [])
  connected (ok w) watched =
      let seen = see_watched w.assets watched in
      (ok w, remove_all seen.removed watched, connect_chain w.assets ∷ reports seen.reported)

  unfoldable pub prepare_chain :
      Chain
      → String
      → Map Invoice
      → Result ChainError (ChainWatcher Metadata Specs) × Map Invoice × List Action
  unfolding connect connected
  prepare_chain c rpc watched = connected (connect c rpc) watched
