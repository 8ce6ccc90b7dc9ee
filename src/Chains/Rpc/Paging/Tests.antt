-- ===== src/Chains/Rpc/Paging/Tests.antt =====
-- The pages of keys of src/chain/rpc.rs, at a node with eleven keys.
use kalatori_backend.Prelude.{ℕ, ◌≡◌, refl, true, String, none, some, List, [], ◌∷◌, map, ok}
use kalatori_backend.Hex.{HexCoder, BlockHash}
use kalatori_backend.Chains.Properties.{string, array, Json}
use kalatori_backend.Chains.Metadata.{Pallet, unread, Parser}
use kalatori_backend.Chains.Rpc.{WsClient, MetadataCodec, Param, text, num, get_keys_from_storage}
use kalatori_backend.Chains.Rpc.Paging.{take, after}

data Value : Type 0 where
  lit : String → Value
  keys : List String → Value

abbrev json : Json Value
json = record {
  view = elim [ lit s ↦ string s | keys ks ↦ array (map lit ks) ];
  to_string = λ v. "a value";
}

abbrev hex : HexCoder
hex = record { encode = λ raw. "07"; decode = λ s. some [] }

abbrev parser : Parser ℕ ℕ
parser = record {
  view = λ d. unread;
  decode_all_as_type = λ ty raw. ok ty;
  is_u32 = λ ty. ok true;
  encode_u32 = λ n. n ∷ [];
  as_bytes = λ s. [];
  hash_blake2_128 = λ b. b;
  hash_blake2_256 = λ b. b;
  hash_twox_64 = λ b. b;
  hash_twox_128 = λ b. b;
  hash_twox_256 = λ b. b;
}

abbrev codec : MetadataCodec (List (Pallet ℕ)) ℕ
codec = record { option_bytes = λ raw. none; runtime_metadata = λ raw. none; pallets = λ md. md }

abbrev block : BlockHash
block = record { bytes = [] }

abbrev first_keys : List String
first_keys = "0" ∷ "1" ∷ "2" ∷ "3" ∷ "4" ∷ "5" ∷ "6" ∷ "7" ∷ "8" ∷ "9" ∷ []

abbrev all_keys : List String
all_keys = "0" ∷ "1" ∷ "2" ∷ "3" ∷ "4" ∷ "5" ∷ "6" ∷ "7" ∷ "8" ∷ "9" ∷ "10" ∷ []

serve : List Param → List String
serve (text prefix ∷ num count ∷ text at_block ∷ []) = take count all_keys
serve (text prefix ∷ num count ∷ text start ∷ text at_block ∷ []) =
    take count (after start all_keys)
serve _ = []

abbrev ws : WsClient (Unit {0}) Value
ws = record { request = λ method params w. (ok (keys (serve params)), w) }

two_pages :
    get_keys_from_storage ws json hex codec parser "Assets" "Asset" block tt
    ≡ (keys first_keys ∷ keys ("10" ∷ []) ∷ [], tt)
unfolding get_keys_from_storage serve
two_pages = refl
