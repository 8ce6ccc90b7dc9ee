-- ===== src/Chains/Manager/Routing.antt =====
-- The routes of src/chain/mod.rs after a start.
use kalatori_backend.Prelude.{
  String, ◌≡◌, refl, Option, none, some, List, [], ◌∷◌, map, ok, All, bind-inv, ok-inj, str_eq,
  eq_iff, arith, Bool-cases, inl, inr,
}
use kalatori_backend.Prelude.Map
use kalatori_backend.Prelude.Map.{Map, get-insert, get-insert_self}
use kalatori_backend.Definitions.{Chain, AssetInfo, NativeToken}
use kalatori_backend.Chains.Manager.{
  Manager, claimed, claim, claim_native, claim_assets, to_chain, route_found, route,
}

-- The currencies that the configuration names for a chain.
abbrev pub native_names : Option NativeToken → List String → List String
native_names none names = names
native_names (some a) names = a.name ∷ names

unfoldable pub names_of : Chain → List String
names_of c = native_names c.native_token (map (λ (a : AssetInfo). a.name) c.asset)

-- A currency that is mapped stays mapped.
unfoldable pub Extends : Map String → Map String → Type 0
Extends m m' = (j n : String) → Map.get j m ≡ some n → Map.get j m' ≡ some n

Extends-insert :
    (currency chain : String) (m : Map String)
    → Map.get currency m ≡ none
    → Extends m (Map.insert currency chain m)
unfolding Extends
Extends-insert currency chain m free j n h =
    ground (arith, get-insert currency j chain m, eq_iff currency j, h, free)

claimed-Extends :
    (currency chain : String) (m m' : Map String) (found : Option String)
    → Map.get currency m ≡ found
    → claimed currency chain m found ≡ ok m'
    → Extends m m' × (Map.get currency m' ≡ some chain)
unfolding claimed
claimed-Extends currency chain m m' (some other) e h = ground arith
claimed-Extends currency chain m m' none e h =
    rw (← ok-inj h) (Extends-insert currency chain m e, get-insert_self currency chain m)

claim-Extends :
    (currency chain : String) (m m' : Map String)
    → claim currency chain m ≡ ok m'
    → Extends m m' × (Map.get currency m' ≡ some chain)
unfolding claim
claim-Extends currency chain m m' h =
    claimed-Extends currency chain m m' (Map.get currency m) refl h

-- the currencies of a list are mapped to a chain
abbrev pub Mapped : Map String → String → List String → Type 0
Mapped m chain names = All (λ currency. Map.get currency m ≡ some chain) names

abbrev pub asset_names : List AssetInfo → List String
asset_names = map (λ (a : AssetInfo). a.name)

pub claim_assets-Extends :
    (chain : String) (assets : List AssetInfo) (m m' : Map String)
    → claim_assets chain assets m ≡ ok m'
    → Extends m m' × Mapped m' chain (asset_names assets)
unfolding claim_assets Extends
claim_assets-Extends chain [] m m' h = rw (← ok-inj h) (λ j n e. e, tt)
claim_assets-Extends chain (a ∷ rest) m m' h =
    let (next, claims, rests) = bind-inv (claim a.name chain m) (claim_assets chain rest) m' h in
    let (keeps, mapped) = claim-Extends a.name chain m next claims in
    let (keeps', mapped') = claim_assets-Extends chain rest next m' rests in
    (λ j n e. keeps' j n (keeps j n e), (keeps' a.name chain mapped, mapped'))

pub claim_native-Extends :
    (chain : String) (native : Option NativeToken) (m m' : Map String)
    → claim_native chain native m ≡ ok m'
    → Extends m m' × Mapped m' chain (native_names native [])
unfolding claim_native Extends
claim_native-Extends chain none m m' h = rw (← ok-inj h) (λ j n e. e, tt)
claim_native-Extends chain (some a) m m' h =
    let (keeps, mapped) = claim-Extends a.name chain m m' h in (keeps, (mapped, tt))

-- A currency is routed to the tracker of a chain, which is among those that were started.
pub record Routed (m : Manager) (currency chain : String) : Type 0 where
  pub target : Chain
  pub is_mapped : Map.get currency m.currency_map ≡ some chain
  pub is_started : Map.get chain m.watch_chain ≡ some target
  pub named : target.name ≡ chain

pub Routed-route :
    (m : Manager) (currency chain : String)
    → Routed m currency chain
    → (c : Chain) × (route m currency ≡ ok c) × (c.name ≡ chain)
unfolding route route_found to_chain
Routed-route m currency chain r = (r.target, rw (r.is_mapped) (rw (r.is_started) refl), r.named)

pub watch_insert :
    (c d : Chain) (chain : String) (m : Map Chain)
    → Map.get chain m ≡ some d
    → d.name ≡ chain
    → (e : Chain) × (Map.get chain (Map.insert c.name c m) ≡ some e) × (e.name ≡ chain)
watch_insert c d chain m found named = elim (Bool-cases (str_eq c.name chain)) [
  | inl same ↦ (c, ground (arith, get-insert c.name chain c m), (eq_iff c.name chain).0 same)
  | inr other ↦ (d, ground (arith, get-insert c.name chain c m), named)
]
