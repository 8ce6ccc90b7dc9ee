-- ===== src/Chains/Payouts/Tests.antt =====
-- The theorem on the submission of src/chain/payout.rs, at a node that keeps what is submitted.
use kalatori_backend.Prelude.{
  ℕ, zero, suc, String, ◌≡◌, refl, Bool, true, false, some, List, [], ◌∷◌, Result, ok, str_eq,
}
use kalatori_backend.Prelude.Map
use kalatori_backend.Prelude.Map.{Map}
use kalatori_backend.Definitions.{CurrencyProperties, sub_balance}
use kalatori_backend.Hex.{Bytes, HexCoder, from_str}
use kalatori_backend.Signer
use kalatori_backend.Chains.{Invoice}
use kalatori_backend.Chains.Properties.{string, Json}
use kalatori_backend.Chains.Metadata.{ParsedView, composite, primitive_u32, primitive_u128, Parser}
use kalatori_backend.Chains.Payouts.{Transfer, choose}
use kalatori_backend.Chains.Rpc.{
  Param, text, WsClient, block_hash, get_value_from_storage, send_stuff,
}
use kalatori_backend.Chains.Rpc.Balances.{Queries, asset_balance_at_account, current_block_number}
use kalatori_backend.Chains.Payouts.Transaction.{Constructor, payout}
use kalatori_backend.Chains.Payouts.Transaction.Submission.{Records}
use kalatori_backend.Fixtures.{keys, worker, usdc_properties}

-- A value of the node is a text; the connection is what was submitted.
abbrev pub json : Json String
json = record { view = λ s. string s; to_string = λ s. s }

thirty_two : ℕ → Bytes
thirty_two zero = []
thirty_two (suc n) = 7 ∷ thirty_two n

abbrev pub hex : HexCoder
unfolding thirty_two
hex = record { encode = λ raw. "07"; decode = λ s. some (thirty_two 32) }

taken : List Param → List String → List String
taken (text extrinsic ∷ []) sent = extrinsic ∷ sent
taken _ sent = sent

answer : Bool → List Param → List String → Result String String × List String
unfolding taken
answer true params sent = (ok "0x07", taken params sent)
answer false params sent = (ok "0x07", sent)

abbrev pub ws : WsClient (List String) String
unfolding answer
ws = record {
  request =
      λ method params sent. answer (str_eq method "author_submitAndWatchExtrinsic") params sent;
}

-- data is a number: that of a block, an account, its balance
parsed : ℕ → ParsedView ℕ
parsed zero = primitive_u32 12
parsed (suc zero) = composite ((some "balance", 2) ∷ [])
parsed (suc (suc n)) = primitive_u128 2000000 true

abbrev pub parser : Parser ℕ ℕ
unfolding parsed
parser = record {
  view = parsed;
  decode_all_as_type = λ ty raw. ok ty;
  is_u32 = λ ty. ok true;
  encode_u32 = λ n. n ∷ [];
  as_bytes = λ s. [];
  hash_blake2_128 = λ b. b;
  hash_blake2_256 = λ b. b;
  hash_twox_64 = λ b. b;
  hash_twox_128 = λ b. b;
  hash_twox_256 = λ b. b;
}

abbrev pub queries : Queries ℕ
queries = record {
  block_number_query = ok (record { key = "0x01"; value_ty = 0 });
  asset_balance_query = λ a n. ok (record { key = "0x02"; value_ty = 1 });
  system_balance_query = λ a. ok (record { key = "0x03"; value_ty = 1 });
}

-- a call is its transfer, and a transaction the calls in it
abbrev make : Constructor Transfer (List Transfer)
make = record {
  construct_transfer_call = λ t. ok t;
  construct_batch_transaction = λ address calls block number nonce. ok calls;
  sign_this = λ calls. some (1 ∷ []);
  with_signature = λ calls signature. calls;
  send_this_signed = λ calls. ok (some (2 ∷ []));
  debug = λ calls. "a transaction";
}

abbrev pub bill : Invoice
bill = record {
  id = "7";
  address = 1 ∷ [];
  currency = "USDC";
  amount = 2000000;
  recipient = 9 ∷ [];
  death = 500;
}

abbrev pub assets : Map CurrencyProperties
assets = ("USDC", usdc_properties) ∷ []

pub ws-Records : Records ws (λ sent. sent)
unfolding answer taken
ws-Records = record { quiet = λ method params w h. rw h refl; heard = λ extrinsic w. refl }

payout_test :
    payout ws json hex parser queries make keys assets worker bill [] ≡ (ok tt, "0x07" ∷ [])
unfolding payout block_hash ws from_str hex current_block_number get_value_from_storage parser
    Map.get asset_balance_at_account choose sub_balance Signer.sign send_stuff
payout_test = refl
