-- ===== src/Chains/Payouts/Calls/Tests.antt =====
-- The theorem on the extrinsic of src/chain/payout.rs, at types with few variants.
use Prim.Native.String.{◌++◌}
use kalatori_backend.Prelude.{
  ℕ, zero, suc, String, ◌≡◌, refl, true, ◌⊎◌, none, some, List, [], ◌∷◌, ok, ok-inj,
}
use kalatori_backend.Hex.{Bytes, BlockHash}
use kalatori_backend.Chains.Filling.{
  variant, sequence_regular, account_id32, unsigned, u32, u128, ordinary, balance, regular_bool,
  Fields, end, field, nil, Filler,
}
use kalatori_backend.Chains.Filling.Names.{Nothing, Names, NamesFields, Fresh}
use kalatori_backend.Chains.Filling.Transactions.{Transactor}
use kalatori_backend.Chains.Filling.Transactions.Author.{Populates}
use kalatori_backend.Chains.Payouts.{Transfer, Pays}
use kalatori_backend.Chains.Payouts.Transaction.{payout}
use kalatori_backend.Chains.Payouts.Calls.{Signing, construct_transfer_call, constructor_of}
use kalatori_backend.Chains.Payouts.Calls.Extrinsic.{Blank, Unauthored, Carries, payout-Carries}
use kalatori_backend.Chains.Payouts.Tests.{json, hex, ws, parser, queries, bill, assets, ws-Records}
use kalatori_backend.Fixtures.{keys, worker}

data Choice : Type 0 where
  balances_pallet assets_pallet utility_pallet transfer transfer_all batch_all id : Choice

-- the fields of a variant
fields_of : Choice → Fields Choice
fields_of balances_pallet = field none (variant (transfer_all ∷ []) 0 end) end
fields_of assets_pallet = field none (variant (transfer ∷ []) 0 end) end
fields_of utility_pallet = field none (variant (batch_all ∷ []) 0 end) end
fields_of transfer = field (some "id") (unsigned true (u32 none) ordinary) (
    field (some "target") (variant (id ∷ []) 0 end)
      (field (some "amount") (unsigned true (u128 none) balance) end))
fields_of transfer_all =
    field (some "dest") (variant (id ∷ []) 0 end)
      (field (some "keep_alive") (regular_bool none) end)
fields_of batch_all = field (some "calls") (sequence_regular nil) end
fields_of id = field none (account_id32 none) end

name_of : Choice → String
name_of balances_pallet = "Balances"
name_of assets_pallet = "Assets"
name_of utility_pallet = "Utility"
name_of transfer = "transfer"
name_of transfer_all = "transfer_all"
name_of batch_all = "batch_all"
name_of id = "Id"

fields_at : List Choice → ℕ → Fields Choice
unfolding fields_of
fields_at [] n = end
fields_at (v ∷ rest) zero = fields_of v
fields_at (v ∷ rest) (suc n) = fields_at rest n

abbrev filler : Filler Choice
unfolding name_of fields_at
filler = record {
  name = name_of;
  prepare_call = ok (variant (balances_pallet ∷ assets_pallet ∷ utility_pallet ∷ []) 0 end);
  new_at = λ available i. ok (fields_at available i);
}

abbrev transactor : Transactor Choice
transactor = record {
  default_period = 64;
  init = λ genesis_hash.
      ok (record { author = variant (id ∷ []) 0 end; call = variant [] 0 end; extensions = nil });
  populate_block_info = λ b n t. t;
  populate_nonce = λ n t. t;
}

abbrev signing : Signing Choice
signing = record {
  sign_this = λ t. some (1 ∷ []);
  with_signature = λ t s. t;
  send_this_signed = λ t. ok (some (2 ∷ []));
  debug = λ t. "a transaction";
}

abbrev genesis : BlockHash
genesis = record { bytes = 3 ∷ [] }

fields_of-NamesFields : (v : Choice) → NamesFields Nothing Nothing Nothing (fields_of v)
unfolding Names fields_of
fields_of-NamesFields balances_pallet = (tt, tt)
fields_of-NamesFields assets_pallet = (tt, tt)
fields_of-NamesFields utility_pallet = (tt, tt)
fields_of-NamesFields transfer = (tt, (tt, (tt, tt)))
fields_of-NamesFields transfer_all = (tt, (tt, tt))
fields_of-NamesFields batch_all = (tt, tt)
fields_of-NamesFields id = (tt, tt)

fields_at-NamesFields :
    (available : List Choice) (i : ℕ) → NamesFields Nothing Nothing Nothing (fields_at available i)
unfolding Names fields_at
fields_at-NamesFields [] i = tt
fields_at-NamesFields (v ∷ rest) zero = fields_of-NamesFields v
fields_at-NamesFields (v ∷ rest) (suc i) = fields_at-NamesFields rest i

filler-Blank : Blank filler
unfolding Blank Fresh Names filler
filler-Blank = (
  λ c e. rw (← ok-inj e) tt,
  λ available i fs e. rw (← ok-inj e) (fields_at-NamesFields available i),
)

transactor-Unauthored : Unauthored transactor genesis
unfolding Unauthored Names
transactor-Unauthored t e = rw (← ok-inj e) tt

transactor-Populates : Populates transactor
transactor-Populates = record {
  block_author = λ b n t. refl;
  block_call = λ b n t. refl;
  nonce_author = λ n t. refl;
  nonce_call = λ n t. refl;
}

-- the call of a transfer of an asset
asset_call_test :
    construct_transfer_call filler (Transfer.asset_transfer 1337 50 (9 ∷ []))
    ≡ ok (
        variant (balances_pallet ∷ assets_pallet ∷ utility_pallet ∷ []) 1 (
          field none
            (variant (transfer ∷ []) 0 (
              field (some "id") (unsigned true (u32 (some 1337)) ordinary) (
                field
                  (some "target")
                  (variant (id ∷ []) 0 (field none (account_id32 (some (9 ∷ []))) end))
                  (field (some "amount") (unsigned true (u128 (some 50)) balance) end))))
            end))
unfolding construct_transfer_call fields_of filler
asset_call_test = refl

payout-Carries_example :
    let w' =
      (payout ws json hex parser queries
        (constructor_of filler transactor signing genesis)
        keys
        assets
        worker
        bill
        []).1 in
    (w' ≡ [])
    ⊎ (t : Transfer) × (extrinsic : Bytes) × Pays bill t
      × Carries ws json hex parser queries filler transactor signing genesis keys assets worker bill
          filler-Blank transactor-Unauthored transactor-Populates t extrinsic
      × (w' ≡ ("0x" ++ hex.encode extrinsic) ∷ [])
payout-Carries_example =
    payout-Carries ws json hex parser queries filler transactor signing genesis keys assets worker
      bill filler-Blank transactor-Unauthored transactor-Populates (λ sent. sent) ws-Records []
