-- ===== src/Chains/Filling/Names/Transfers.antt =====
-- What the calls of src/chain/utils.rs name.
use kalatori_backend.Prelude.{
  ℕ, String, ◌≡◌, Bool, true, false, some, List, [], ◌∷◌, Result, ok, ◌>>=◌, bind-inv, ok-inj,
  if◌then◌else◌, str_eq, Bool-cases, inl, inr, All,
}
use kalatori_backend.Errors.{ChainError}
use kalatori_backend.Definitions.{AccountId32}
use kalatori_backend.Chains.Filling.{
  Content, sequence_regular, Fields, end, field, Filler, set_id, set_balance, set_bool, only_field,
  each_field, enter, is_variant, set_address,
}
use kalatori_backend.Chains.Filling.Names.{
  Names, NamesContents, set_id-Names, set_balance-Names, set_bool-Names, Keeps, KeepsFields,
  pure-Keeps, only_field-Keeps, each_field-Keeps, Fresh, enter-Keeps, set_address-Keeps,
}
use kalatori_backend.Chains.Filling.Calls.{
  AssetTransferConstructor, BalanceTransferConstructor, contents_of, set_calls, asset_field,
  construct_single_asset_transfer_call, is_transfer, balance_field,
  construct_single_balance_transfer_call, construct_batch_call,
}

module _ {Variant : Type 0} (A : AccountId32 → Type 0) (I M : ℕ → Type 0) (filler : Filler Variant)
    (fresh : Fresh A I M filler) where
  if-Keeps :
      (b : Bool) (f g : Content Variant → Result ChainError (Content Variant))
      → Keeps A I M f
      → Keeps A I M g
      → Keeps A I M (λ c. if b then f c else g c)
  if-Keeps true f g hf hg = hf
  if-Keeps false f g hf hg = hg

  asset_field-Keeps :
      (t : AssetTransferConstructor) (name : String)
      → A t.to_account
      → I t.asset_id
      → M t.amount
      → Keeps A I M (asset_field filler t name)
  unfolding asset_field
  asset_field-Keeps t name account id amount =
      if-Keeps (str_eq name "target") (set_address filler t.to_account) _
        (set_address-Keeps A I M filler t.to_account account fresh)
        (if-Keeps (str_eq name "id") (λ c. ok (set_id t.asset_id c)) _
          (pure-Keeps A I M (set_id t.asset_id) (λ c h. set_id-Names A I M t.asset_id c id h))
          (if-Keeps (str_eq name "amount") (λ c. ok (set_balance t.amount c)) (λ c. ok c)
            (pure-Keeps A I M (set_balance t.amount)
              (λ c h. set_balance-Names A I M t.amount c amount h))
            (pure-Keeps A I M (λ c. c) (λ c h. h))))

  balance_field-Keeps :
      (t : BalanceTransferConstructor) (name : String)
      → A t.to_account
      → M t.amount
      → Keeps A I M (balance_field filler t name)
  unfolding balance_field
  balance_field-Keeps t name account amount =
      if-Keeps (str_eq name "dest") (set_address filler t.to_account) _
        (set_address-Keeps A I M filler t.to_account account fresh)
        (if-Keeps (str_eq name "keep_alive") (λ c. ok (set_bool false c)) _
          (pure-Keeps A I M (set_bool false) (λ c h. set_bool-Names A I M false c h))
          (if-Keeps (str_eq name "value") (λ c. ok (set_balance t.amount c)) (λ c. ok c)
            (pure-Keeps A I M (set_balance t.amount)
              (λ c h. set_balance-Names A I M t.amount c amount h))
            (pure-Keeps A I M (λ c. c) (λ c h. h))))

  -- a method of a pallet, of a call that is prepared
  call-Names :
      (pallet method : Variant → Bool) (fill : Fields Variant → Result ChainError (Fields Variant))
      (call : Content Variant)
      → KeepsFields A I M fill
      → (filler.prepare_call >>= enter filler pallet (only_field (enter filler method fill)))
        ≡ ok call
      → Names A I M call
  unfolding Fresh Keeps
  call-Names pallet method fill call keeps e =
      let (c, prepared, e') =
        bind-inv filler.prepare_call (enter filler pallet (only_field (enter filler method fill)))
          call e in
      enter-Keeps A I M filler pallet (only_field (enter filler method fill)) fresh
        (only_field-Keeps A I M (enter filler method fill)
          (enter-Keeps A I M filler method fill fresh keeps))
        c call (fresh.0 c prepared) e'

  pub asset_call-Names :
      (t : AssetTransferConstructor) (call : Content Variant)
      → A t.to_account
      → I t.asset_id
      → M t.amount
      → construct_single_asset_transfer_call filler t ≡ ok call
      → Names A I M call
  unfolding construct_single_asset_transfer_call
  asset_call-Names t call account id amount e =
      call-Names (is_variant filler "Assets") (is_variant filler "transfer")
        (each_field (asset_field filler t)) call
        (each_field-Keeps A I M (asset_field filler t)
          (λ name. asset_field-Keeps t name account id amount))
        e

  pub balance_call-Names :
      (t : BalanceTransferConstructor) (call : Content Variant)
      → A t.to_account
      → M t.amount
      → construct_single_balance_transfer_call filler t ≡ ok call
      → Names A I M call
  unfolding construct_single_balance_transfer_call
  balance_call-Names t call account amount e =
      call-Names (is_variant filler "Balances") (is_transfer filler t.is_clearing)
        (each_field (balance_field filler t)) call
        (each_field-Keeps A I M (balance_field filler t)
          (λ name. balance_field-Keeps t name account amount))
        e

  contents_of-Names :
      (calls : List (Content Variant))
      → All (Names A I M) calls
      → NamesContents A I M (contents_of calls)
  unfolding contents_of Names
  contents_of-Names [] h = tt
  contents_of-Names (c ∷ rest) (h, hs) = (h, contents_of-Names rest hs)

  set_calls-Keeps :
      (calls : List (Content Variant))
      → All (Names A I M) calls
      → KeepsFields A I M (set_calls calls)
  unfolding set_calls KeepsFields Names
  set_calls-Keeps calls named (field (some name) (sequence_regular old) end) fs' h e =
      elim (Bool-cases (str_eq name "calls")) [
        | inl same ↦ rw (← ok-inj e) (rw same (contents_of-Names calls named, tt))
        | inr other ↦ rw (← ok-inj e) (rw other h)
      ]
  set_calls-Keeps calls named _ fs' h e = rw (← ok-inj e) h

  pub batch_call-Names :
      (calls : List (Content Variant)) (call : Content Variant)
      → All (Names A I M) calls
      → construct_batch_call filler calls ≡ ok call
      → Names A I M call
  unfolding construct_batch_call
  batch_call-Names calls call named e =
      call-Names (is_variant filler "Utility") (is_variant filler "batch_all") (set_calls calls)
        call (set_calls-Keeps calls named) e
