-- ===== src/Chains/Tracker/Assets.antt =====
-- The assets with which `prepare_chain` of src/chain/tracker.rs reports a chain as connected.
use kalatori_backend.Prelude.{
  ℕ, String, ◌+◌, ◌≤◌, ◌≡◌, refl, sym, ap, ◌∙◌, none, some, List, [], ◌∷◌, Result, ok, err,
  if◌then◌else◌, length, bind-inv, ok-inj, eq_iff, arith, Bool-cases, inl, inr, ◌==◌,
}
use kalatori_backend.Prelude.Map
use kalatori_backend.Prelude.Map.{Map, Distinct}
use kalatori_backend.Errors.{ChainError, assets_invalid}
use kalatori_backend.Definitions.{AssetInfo, Chain, CurrencyProperties, NativeToken}
use kalatori_backend.Chains.{Invoice}
use kalatori_backend.Chains.Tracker.Connection.{
  Probe, ChainWatcher, is_wanted, asset_count, select_assets, named, connect, connected,
  prepare_chain,
}

module _ (t : NativeToken) (wanted : List AssetInfo) (decimals : ℕ) where
  abbrev native_only : Map CurrencyProperties → Map CurrencyProperties
  native_only = Map.retain (is_wanted (some t) wanted decimals)

  native_absent : (m : Map CurrencyProperties) → Map.get t.name m ≡ none → native_only m ≡ []
  unfolding Map.get Map.retain is_wanted
  native_absent [] h = refl
  native_absent ((k, p) ∷ m) h = ground (arith, eq_iff k t.name, eq_iff t.name k, native_absent m)

  -- the native token's name occurs once
  native_once : (m : Map CurrencyProperties) → Distinct m → length (native_only m) ≤ 1
  unfolding Map.retain Distinct is_wanted
  native_once [] d = omega arith
  native_once ((k, p) ∷ m) (apart, d) =
      let rest = native_once m d in
      elim (Bool-cases (is_wanted (some t) wanted decimals k p)) [
        | inl same ↦
            let e : t.name ≡ k = ground (arith, eq_iff t.name k, same) in
            let gone : native_only m ≡ [] = native_absent m (ap (λ n. Map.get n m) e ∙ apart) in
            rw same (rw gone (omega arith))
        | inr other ↦ rw other rest
      ]

counted {ℓ κ} :
    {E : Type κ} {A : Type ℓ} (n m : ℕ) (e : E) (x kept : A)
    → Path (Result E A) (if n == m then ok x else err e) (ok kept)
    → (n ≡ m) × (x ≡ kept)
counted n m e x kept h = elim (Bool-cases (n == m)) [
  | inl same ↦ (ground arith, ok-inj (rw same at h))
  | inr other ↦ absurd (ground arith)
]

select_native :
    (c : Chain) (t : NativeToken) (decimals : ℕ) (found kept : Map CurrencyProperties)
    → Distinct found
    → c.native_token ≡ some t
    → select_assets c decimals found ≡ ok kept
    → (length c.asset ≡ 0) × (length kept ≡ 1)
unfolding select_assets asset_count
select_native c t decimals found kept d native h =
    let all : Map CurrencyProperties =
      Map.retain (is_wanted c.native_token c.asset decimals) found in
    let (same, e) = counted (length all) (asset_count c) (assets_invalid c.name) all kept h in
    let once : length all ≤ 1 = rw native (native_once t c.asset decimals found d) in
    let count : asset_count c ≡ length c.asset + 1 = rw native refl in
    (omega (arith, same, once, count), rw (← e) (omega (arith, same, once, count)))

module _ {Metadata Specs : Type 0} (probe : Probe Metadata Specs) where
  connected_result :
      (r : Result ChainError (ChainWatcher Metadata Specs)) (watched : Map Invoice)
      → (connected probe r watched).0 ≡ r
  unfolding connected
  connected_result (ok w) watched = refl
  connected_result (err e) watched = refl

  -- the assets of a connection were chosen from those of the node
  connect_selects :
      (c : Chain) (rpc : String) (w : ChainWatcher Metadata Specs)
      → connect probe c rpc ≡ ok w
      → (block : String) × (md : Metadata) × (sp : Specs) × (found : Map CurrencyProperties)
        × (probe.assets_set block md sp ≡ ok found)
        × (select_assets c (probe.spec_decimals sp) found ≡ ok w.assets)
  unfolding connect
  connect_selects c rpc w h =
      let (genesis, _, h1) = bind-inv probe.genesis_hash _ w h in
      let (block, _, h2) = bind-inv probe.first_block _ w h1 in
      let (version, _, h3) = bind-inv (probe.version_at block) _ w h2 in
      let (md, _, h4) = bind-inv (probe.metadata_at block) _ w h3 in
      let (name, _, h5) = bind-inv (probe.spec_name md) _ w h4 in
      let (right, _, h6) = bind-inv (named probe c rpc name) _ w h5 in
      let (sp, _, h7) = bind-inv (probe.specs_at md block) _ w h6 in
      let (found, set, h8) = bind-inv (probe.assets_set block md sp) _ w h7 in
      let (assets, selected, h9) =
        bind-inv (select_assets c (probe.spec_decimals sp) found) _ w h8 in
      (
        block,
        md,
        sp,
        found,
        set,
        selected ∙ ap (λ (x : ChainWatcher Metadata Specs). ok x.assets) (ok-inj h9),
      )

  -- Let the names in every set of assets that the node answers be distinct. If a connection is
  -- prepared for a chain that is configured with a native token, then the chain is configured with
  -- no other asset, and the watcher holds one asset.
  pub prepare_chain_native :
      (c : Chain) (t : NativeToken) (rpc : String) (watched : Map Invoice)
      → (w : ChainWatcher Metadata Specs)
      → ((block : String) (md : Metadata) (sp : Specs) (found : Map CurrencyProperties)
          → probe.assets_set block md sp ≡ ok found
          → Distinct found)
      → c.native_token ≡ some t
      → (prepare_chain probe c rpc watched).0 ≡ ok w
      → (length c.asset ≡ 0) × (length w.assets ≡ 1)
  unfolding prepare_chain
  prepare_chain_native c t rpc watched w names native h =
      let (block, md, sp, found, set, selected) =
        connect_selects c rpc w (sym (connected_result (connect probe c rpc) watched) ∙ h) in
      select_native c t (probe.spec_decimals sp) found w.assets (names block md sp found set) native
        selected
