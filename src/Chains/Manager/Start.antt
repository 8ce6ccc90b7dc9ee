-- ===== src/Chains/Manager/Start.antt =====
-- `ChainManager::ignite` of src/chain/mod.rs, for every list of configured chains.
use kalatori_backend.Prelude.{
  String, ◌≡◌, refl, Option, none, some, List, [], ◌∷◌, ok, All, All-imp, All-Mem, bind-inv, ok-inj,
  Mem, arith,
}
use kalatori_backend.Prelude.Map
use kalatori_backend.Prelude.Map.{Map}
use kalatori_backend.Definitions.{Chain, NativeToken}
use kalatori_backend.Chains.{WatchAccount, ChainRequest, ChainTrackerRequest}
use kalatori_backend.Chains.Manager.{
  Manager, claim_native, claim_assets, start_at, start_chain, start_chains, ignite, forwarded, sent,
  handle,
}
use kalatori_backend.Chains.Manager.Routing.{
  native_names, asset_names, names_of, Extends, Mapped, claim_native-Extends, claim_assets-Extends,
  Routed, Routed-route, watch_insert,
}

-- every route of a manager is still one of another
Keeps : Manager → Manager → Type 0
Keeps m m' = (currency chain : String) → Routed m currency chain → Routed m' currency chain

started-Keeps :
    (c : Chain) (m : Manager) (currencies : Map String)
    → Extends m.currency_map currencies
    → Keeps m
        (record { currency_map = currencies; watch_chain = Map.insert c.name c m.watch_chain })
unfolding Extends Keeps
started-Keeps c m currencies keeps currency chain r =
    let (d, found, named) = watch_insert c r.target chain m.watch_chain r.is_started r.named in
    record {
      target = d;
      is_mapped = keeps currency chain r.is_mapped;
      is_started = found;
      named = named;
    }

started-Routed :
    (c : Chain) (m : Manager) (currencies : Map String) (names : List String)
    → Mapped currencies c.name names
    → All
        (λ currency.
          Routed
            (record { currency_map = currencies; watch_chain = Map.insert c.name c m.watch_chain })
            currency
            c.name)
        names
started-Routed c m currencies [] h = tt
started-Routed c m currencies (name ∷ names) (e, h) = (
  record {
    target = c;
    is_mapped = e;
    is_started = Map.get-insert_self c.name c m.watch_chain;
    named = refl;
  },
  started-Routed c m currencies names h,
)

Mapped-Extends :
    (m m' : Map String) (chain : String) (names : List String)
    → Extends m m'
    → Mapped m chain names
    → Mapped m' chain names
unfolding Extends
Mapped-Extends m m' chain [] keeps h = tt
Mapped-Extends m m' chain (name ∷ names) keeps (e, h) =
    (keeps name chain e, Mapped-Extends m m' chain names keeps h)

Mapped-names :
    (m : Map String) (chain : String) (native : Option NativeToken) (names : List String)
    → Mapped m chain (native_names native [])
    → Mapped m chain names
    → Mapped m chain (native_names native names)
Mapped-names m chain none names n h = h
Mapped-names m chain (some a) names (e, n) h = (e, h)

-- the routes of a chain's currencies
Routes : Manager → Chain → Type 0
Routes m c = All (λ currency. Routed m currency c.name) (names_of c)

start_at-Routes :
    (endpoints : List String) (c : Chain) (m m' : Manager)
    → start_at endpoints c m ≡ ok m'
    → Keeps m m' × Routes m' c
unfolding start_at Routes names_of Extends
start_at-Routes [] c m m' h = ground arith
start_at-Routes (endpoint ∷ others) c m m' h =
    let (native, claims, rest) =
      bind-inv (claim_native c.name c.native_token m.currency_map) _ m' h in
    let (currencies, claims', done) = bind-inv (claim_assets c.name c.asset native) _ m' rest in
    let (keeps, mapped) = claim_native-Extends c.name c.native_token m.currency_map native claims in
    let (keeps', mapped') = claim_assets-Extends c.name c.asset native currencies claims' in
    rw (← ok-inj done) (
      started-Keeps c m currencies (λ j n e. keeps' j n (keeps j n e)),
      started-Routed c m currencies (names_of c) (
          Mapped-names currencies c.name c.native_token (asset_names c.asset)
            (Mapped-Extends native currencies c.name (native_names c.native_token []) keeps' mapped)
            mapped'),
    )

Routes-Keeps : (m m' : Manager) (c : Chain) → Keeps m m' → Routes m c → Routes m' c
unfolding Keeps Routes
Routes-Keeps m m' c keeps =
    All-imp (λ currency. Routed m currency c.name) (λ currency. Routed m' currency c.name)
      (names_of c) (λ currency. keeps currency c.name)

start_chains-Routes :
    (chains : List Chain) (m m' : Manager)
    → start_chains chains m ≡ ok m'
    → Keeps m m' × All (Routes m') chains
unfolding start_chains start_chain Keeps
start_chains-Routes [] m m' h = rw (← ok-inj h) (λ j n r. r, tt)
start_chains-Routes (c ∷ rest) m m' h =
    let (first, started, others) = bind-inv (start_chain c m) (start_chains rest) m' h in
    let (keeps, routes) = start_at-Routes c.endpoints c m first started in
    let (keeps', routes') = start_chains-Routes rest first m' others in
    (λ j n r. keeps' j n (keeps j n r), (Routes-Keeps first m' c keeps' routes, routes'))

-- The manager forwards a request to the tracker of a chain with this name, and goes on as it was.
pub record Forwards (m : Manager) (request : ChainRequest) (tracked : ChainTrackerRequest)
    (chain : String) : Type 0 where
  pub target : Chain
  pub named : target.name ≡ chain
  pub reply : handle m request ≡ (forwarded target tracked ∷ [], some m)

forward :
    (m : Manager) (w : WatchAccount) (chain : String)
    → Routed m w.currency chain
    → Forwards m (ChainRequest.watch_account w) (ChainTrackerRequest.watch_account w) chain
      × Forwards m (ChainRequest.reap w) (ChainTrackerRequest.reap w) chain
unfolding handle sent
forward m w chain r =
    let (target, routed, named) = Routed-route m w.currency chain r in
    (
      record { target = target; named = named; reply = rw routed refl },
      record { target = target; named = named; reply = rw routed refl },
    )

-- If the manager starts with the configured chains, then every request about a currency that the
-- configuration names for one of them, the native token or an asset, is forwarded, to watch an
-- account as well as to reap it, to the tracker of a chain with that chain's name.
pub ignite-Forwards :
    (chains : List Chain) (m : Manager) (c : Chain) (w : WatchAccount)
    → ignite chains ≡ ok m
    → Mem c chains
    → Mem w.currency (names_of c)
    → Forwards m (ChainRequest.watch_account w) (ChainTrackerRequest.watch_account w) c.name
      × Forwards m (ChainRequest.reap w) (ChainTrackerRequest.reap w) c.name
unfolding ignite Routes
ignite-Forwards chains m c w h listed named =
    let (_, routes) = start_chains-Routes chains _ m h in
    forward m w c.name (
      All-Mem (λ currency. Routed m currency c.name) (names_of c)
        (All-Mem (λ d. All (λ currency. Routed m currency d.name) (names_of d)) chains routes
          listed)
        named)
