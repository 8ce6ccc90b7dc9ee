-- ===== src/Chains/Filling/Clearing/Tests.antt =====
-- The theorem on clearings of src/chain/utils.rs, at a chain with one method.
use kalatori_backend.Prelude.{
  ℕ, zero, suc, String, ◌≡◌, refl, true, false, none, some, List, [], ◌∷◌, ok, ok-inj,
}
use kalatori_backend.Chains.Filling.{
  variant, account_id32, regular_bool, Fields, end, field, Filler,
}
use kalatori_backend.Chains.Filling.Calls.{construct_single_balance_transfer_call}
use kalatori_backend.Chains.Filling.Clearing.{Lacks, AllHasNoValue, clearing_ignores_amount}

data Method : Type 0 where
  balances transfer_all : Method

name_of : Method → String
name_of balances = "Balances"
name_of transfer_all = "transfer_all"

fields_of : Method → Fields Method
fields_of balances = field none (variant (transfer_all ∷ []) 0 end) end
fields_of transfer_all =
    field (some "dest") (account_id32 none) (field (some "keep_alive") (regular_bool none) end)

fields_at : List Method → ℕ → Fields Method
unfolding fields_of
fields_at [] n = end
fields_at (v ∷ rest) zero = fields_of v
fields_at (v ∷ rest) (suc n) = fields_at rest n

abbrev filler : Filler Method
unfolding name_of fields_at
filler = record {
  name = name_of;
  prepare_call = ok (variant (balances ∷ []) 0 end);
  new_at = λ available i. ok (fields_at available i);
}

fields_at-Lacks : (available : List Method) (i : ℕ) → Lacks "value" (fields_at available i)
unfolding fields_at fields_of Lacks
fields_at-Lacks [] i = tt
fields_at-Lacks (balances ∷ rest) zero = tt
fields_at-Lacks (transfer_all ∷ rest) zero = (refl, (refl, tt))
fields_at-Lacks (v ∷ rest) (suc i) = fields_at-Lacks rest i

filler-AllHasNoValue : AllHasNoValue filler
unfolding AllHasNoValue filler
filler-AllHasNoValue available i v fs there named made =
    rw (← ok-inj made) (fields_at-Lacks available i)

clearing_test :
    construct_single_balance_transfer_call filler
      (record { amount = 5; to_account = 9 ∷ []; is_clearing = true })
    ≡ ok (
        variant (balances ∷ []) 0 (
          field none
            (variant (transfer_all ∷ []) 0 (
              field
                (some "dest")
                (account_id32 none)
                (field (some "keep_alive") (regular_bool (some false)) end)))
            end))
unfolding construct_single_balance_transfer_call filler
clearing_test = refl

clearing_ignores_amount_example :
    construct_single_balance_transfer_call filler
      (record { amount = 5; to_account = 9 ∷ []; is_clearing = true })
    ≡ construct_single_balance_transfer_call filler
        (record { amount = 80; to_account = 9 ∷ []; is_clearing = true })
clearing_ignores_amount_example = clearing_ignores_amount filler (9 ∷ []) 5 80 filler-AllHasNoValue
