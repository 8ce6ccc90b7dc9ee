-- ===== src/Chains/Manager.antt =====
-- src/chain/mod.rs: the chain manager, which starts a tracker for every chain and sends each request
-- to the tracker of its currency.
pub mod Routing
pub mod Start
use kalatori_backend.Prelude.{String, Option, none, some, List, [], ◌∷◌, Result, ok, err, ◌>>=◌}
use kalatori_backend.Prelude.Map
use kalatori_backend.Prelude.Map.{Map}
use kalatori_backend.Errors.{
  Error, empty_endpoints, duplicate_currency, ChainError, invalid_chain, invalid_currency,
}
use kalatori_backend.Definitions.{Chain, AssetInfo, NativeToken}
use kalatori_backend.Chains.{WatchAccount, ChainRequest, ChainTrackerRequest}

-- `currency_map`, and `watch_chain` with the chain in the place of the channel to its tracker
pub record Manager : Type 0 where
  pub currency_map : Map String
  pub watch_chain : Map Chain

-- the match on the result of `currency_map.insert(…)`
claimed : String → String → Map String → Option String → Result Error (Map String)
claimed currency chain m (some other) = err (duplicate_currency currency)
claimed currency chain m none = ok (Map.insert currency chain m)

unfoldable pub claim : String → String → Map String → Result Error (Map String)
unfolding claimed
claim currency chain m = claimed currency chain m (Map.get currency m)

pub claim_native : String → Option NativeToken → Map String → Result Error (Map String)
unfolding claim
claim_native chain none m = ok m
claim_native chain (some a) m = claim a.name chain m

pub claim_assets : String → List AssetInfo → Map String → Result Error (Map String)
unfolding claim
claim_assets chain [] m = ok m
claim_assets chain (a ∷ rest) m = do m' ← claim a.name chain m; claim_assets chain rest m'

-- one round of the loop over the chains
start_at : List String → Chain → Manager → Result Error Manager
unfolding claim_native claim_assets
start_at [] c m = err (empty_endpoints c.name)
start_at (endpoint ∷ others) c m = do
  native ← claim_native c.name c.native_token m.currency_map
  currencies ← claim_assets c.name c.asset native
  ok (record { currency_map = currencies; watch_chain = Map.insert c.name c m.watch_chain })

unfoldable pub start_chain : Chain → Manager → Result Error Manager
unfolding start_at
start_chain c m = start_at c.endpoints c m

unfoldable pub start_chains : List Chain → Manager → Result Error Manager
unfolding start_chain
start_chains [] m = ok m
start_chains (c ∷ rest) m = do m' ← start_chain c m; start_chains rest m'

-- `ChainManager::ignite`
unfoldable pub ignite : List Chain → Result Error Manager
unfolding start_chains
ignite chains = start_chains chains (record { currency_map = []; watch_chain = [] })

to_chain : String → Option Chain → Result ChainError Chain
to_chain name none = err (invalid_chain name)
to_chain name (some chain) = ok chain

-- the tracker that a request about a currency is sent to, or what is answered at once
unfoldable pub route_found : Manager → String → Option String → Result ChainError Chain
unfolding to_chain
route_found m currency none = err (invalid_currency currency)
route_found m currency (some name) = to_chain name (Map.get name m.watch_chain)

unfoldable pub route : Manager → String → Result ChainError Chain
unfolding route_found
route m currency = route_found m currency (Map.get currency m.currency_map)

-- what the manager sends: a request to the tracker of a chain, or an error as the answer
pub data Sent : Type 0 where
  forwarded : Chain → ChainTrackerRequest → Sent
  refused : String → ChainError → Sent

unfoldable pub sent : String → ChainTrackerRequest → Result ChainError Chain → Sent
sent id request (ok chain) = forwarded chain request
sent id request (err e) = refused id e

stop_all : Map Chain → List Sent
stop_all [] = []
stop_all ((name, chain) ∷ rest) = forwarded chain ChainTrackerRequest.shutdown ∷ stop_all rest

-- One turn of the loop over the requests: what is sent, and the manager that goes on, if any.
unfoldable pub handle : Manager → ChainRequest → List Sent × Option Manager
unfolding route sent stop_all
handle m (ChainRequest.watch_account w) =
    (sent w.id (ChainTrackerRequest.watch_account w) (route m w.currency) ∷ [], some m)
handle m (ChainRequest.reap w) =
    (sent w.id (ChainTrackerRequest.reap w) (route m w.currency) ∷ [], some m)
handle m ChainRequest.shutdown = (stop_all m.watch_chain, none)
