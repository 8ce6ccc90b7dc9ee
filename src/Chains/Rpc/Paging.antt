-- ===== src/Chains/Rpc/Paging.antt =====
-- The pages of keys that `get_keys_from_storage` of src/chain/rpc.rs reads.
mod Tests
use mathlib.Core.List.{◌++◌}
use kalatori_backend.Prelude.{
  ℕ, zero, suc, ◌*◌, ◌≡◌, true, false, String, str_eq, Option, List, [], ◌∷◌, map, Result, ok, err,
  All, Mem, if◌then◌else◌,
}
use kalatori_backend.Hex
use kalatori_backend.Hex.{HexCoder, BlockHash}
use kalatori_backend.Chains.Properties.{Json, View, string, array}
use kalatori_backend.Chains.Rpc.{WsClient, Param, text, num, page_params, pages}

abbrev pub take {ℓ} : {A : Type ℓ} → ℕ → List A → List A
take zero xs = []
take (suc n) [] = []
take (suc n) (x ∷ xs) = x ∷ take n xs

abbrev pub drop {ℓ} : {A : Type ℓ} → ℕ → List A → List A
drop zero xs = xs
drop (suc n) [] = []
drop (suc n) (x ∷ xs) = drop n xs

abbrev pub concat {ℓ} : {A : Type ℓ} → List (List A) → List A
concat [] = []
concat (xs ∷ rest) = xs ++ concat rest

-- the keys after one of them
abbrev pub after : String → List String → List String
after start [] = []
after start (k ∷ ks) = if str_eq k start then ks else after start ks

-- keys of which none stands twice
abbrev pub NoRepeat : List String → Type 0
NoRepeat [] = Unit
NoRepeat (k ∷ ks) = All (λ j. str_eq k j ≡ false) ks × NoRepeat ks

-- A node whose storage has the keys with a prefix at a block, in its order, and which answers as it
-- documents `state_getKeysPaged`: with at most as many keys as it is asked for, the first ones, or
-- the first ones after a start key. `page` is the answer with some keys.
pub record Holds {W Value : Type 0} (ws : WsClient W Value) (json : Json Value) (hex : HexCoder)
    (prefix : String) (block : BlockHash) (page : List String → Value) (ks : List String) (w : W)
    : Type 0 where
  pub key : String → Value
  pub is_key : (k : String) → json.view (key k) ≡ string k
  pub is_page : (some_keys : List String) → json.view (page some_keys) ≡ array (map key some_keys)
  pub no_repeat : NoRepeat ks
  pub first :
      ws.request "state_getKeysPaged" (text prefix ∷ num 10 ∷ text (Hex.to_string hex block) ∷ []) w
      ≡ (ok (page (take 10 ks)), w)
  pub next :
      (start : String)
      → Mem start ks
      → ws.request "state_getKeysPaged"
          (text prefix ∷ num 10 ∷ text start ∷ text (Hex.to_string hex block) ∷ [])
          w
        ≡ (ok (page (take 10 (after start ks))), w)

module _ {W Value : Type 0} (ws : WsClient W Value) (json : Json Value) (hex : HexCoder)
    (prefix : String) (block : BlockHash) (page : List String → Value) (ks : List String) (w : W)
    (node : Holds ws json hex prefix block page ks w) where
  abbrev ask : Option String → Result String Value × W
  ask start_key = ws.request "state_getKeysPaged" (page_params ws json hex prefix block start_key) w

  -- The pages that are read from a point on: `rest` are the keys after it.
  Reads : ℕ → Option String → List String → Type 0
  Reads rounds start rest =
      (acc : List Value)
      → (found : List (List String)) × (concat found ≡ take (10 * rounds) rest)
        × (pages ws json hex rounds prefix block start acc w ≡ (acc ++ map page found, w))
