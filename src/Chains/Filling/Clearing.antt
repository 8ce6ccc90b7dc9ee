-- ===== src/Chains/Filling/Clearing.antt =====
-- src/chain/utils.rs: the amount of a balance transfer that is a clearing.
mod Tests
use kalatori_backend.Prelude.{
  ℕ, zero, suc, String, ◌≡◌, refl, Bool, true, false, Option, none, some, List, [], ◌∷◌, Result, ok,
  err, ◌>>=◌, ok-inj, some-inj, ap, ap₂, fun_ext, ◌⊎◌, if◌then◌else◌, str_eq, eq_iff, Bool-cases,
  inl, inr, arith,
}
use kalatori_backend.Errors.{ChainError}
use kalatori_backend.Definitions.{AccountId32}
use kalatori_backend.Chains.Filling.{
  Content, variant, composite, tuple, sequence_regular, account_id32, era, unsigned, regular_bool,
  unread, Fields, end, field, Filler, next_index, find_index, only_field, each_field, entered,
  enter, is_variant,
}
use kalatori_backend.Chains.Filling.Positions.{At, find_index-At}
use kalatori_backend.Chains.Filling.Calls.{
  BalanceTransferConstructor, is_transfer, balance_field, construct_single_balance_transfer_call,
}

-- no field has the name
unfoldable pub Lacks : {Variant : Type 0} → String → Fields Variant → Type 0
Lacks name end = Unit
Lacks name (field none c rest) = Lacks name rest
Lacks name (field (some n) c rest) = (str_eq n name ≡ false) × Lacks name rest

module _ {Variant : Type 0} (filler : Filler Variant) where
  -- The method `transfer_all` of the chain has no parameter `value`.
  unfoldable pub AllHasNoValue : Type 0
  AllHasNoValue =
      (available : List Variant) (i : ℕ) (v : Variant) (fs : Fields Variant)
      → At available i v
      → filler.name v ≡ "transfer_all"
      → filler.new_at available i ≡ ok fs
      → Lacks "value" fs

  is_transfer-all :
      (v : Variant) → is_transfer filler true v ≡ true → filler.name v ≡ "transfer_all"
  unfolding is_transfer
  is_transfer-all v e = elim (Bool-cases (str_eq (filler.name v) "transfer_keep_alive")) [
    | inl keep ↦ absurd (ground arith)
    | inr other ↦ elim (Bool-cases (str_eq (filler.name v) "transfer_all")) [
      | inl same ↦ (eq_iff _ _).0 same
      | inr unlike ↦ absurd (ground arith)
    ]
  ]

  module _ (to_account : AccountId32) (a b : ℕ) where
    clearing : ℕ → BalanceTransferConstructor
    clearing amount = record { amount = amount; to_account = to_account; is_clearing = true }

    balance_field-same :
        (name : String) (c : Content Variant)
        → str_eq name "value" ≡ false
        → balance_field filler (clearing a) name c ≡ balance_field filler (clearing b) name c
    unfolding balance_field clearing
    balance_field-same name c h = rw h refl

    fields-same :
        (fs : Fields Variant)
        → Lacks "value" fs
        → each_field (balance_field filler (clearing a)) fs
          ≡ each_field (balance_field filler (clearing b)) fs
    unfolding each_field Lacks
    fields-same end h = refl
    fields-same (field none c rest) h = rw (fields-same rest h) refl
    fields-same (field (some n) c rest) (h, hs) =
        ap₂ (λ x y. do c' ← x; rest' ← y; ok (field (some n) c' rest')) (balance_field-same n c h)
          (fields-same rest hs)

    -- the method is entered with either amount
    chosen-same :
        AllHasNoValue
        → (available : List Variant) (selected i : ℕ) (fs : Fields Variant)
          (r : Result ChainError (Fields Variant))
        → find_index (is_transfer filler true) available ≡ some i
        → filler.new_at available i ≡ r
        → entered filler
            (each_field (balance_field filler (clearing a)))
            available
            selected
            fs
            (some i)
          ≡ entered filler
              (each_field (balance_field filler (clearing b)))
              available
              selected
              fs
              (some i)
    unfolding entered AllHasNoValue
    chosen-same lacks available selected i fs (err x) e made = rw made refl
    chosen-same lacks available selected i fs (ok chosen) e made =
        let (v, there, wanted) = find_index-At (is_transfer filler true) available i e in
        let same =
          fields-same chosen (lacks available i v chosen there (is_transfer-all v wanted) made) in
        rw made (ap (λ x. do filled ← x; ok (variant available i filled)) same)

    entered-same :
        AllHasNoValue
        → (available : List Variant) (selected : ℕ) (fs : Fields Variant) (found : Option ℕ)
        → find_index (is_transfer filler true) available ≡ found
        → entered filler
            (each_field (balance_field filler (clearing a)))
            available
            selected
            fs
            found
          ≡ entered filler
              (each_field (balance_field filler (clearing b)))
              available
              selected
              fs
              found
    unfolding entered
    entered-same lacks available selected fs none e = refl
    entered-same lacks available selected fs (some i) e =
        chosen-same lacks available selected i fs (filler.new_at available i) e refl

    method-same :
        AllHasNoValue
        → (c : Content Variant)
        → enter filler (is_transfer filler true) (each_field (balance_field filler (clearing a))) c
          ≡ enter filler
              (is_transfer filler true)
              (each_field (balance_field filler (clearing b)))
              c
    unfolding enter
    method-same lacks (variant available selected fs) =
        entered-same lacks available selected fs (find_index (is_transfer filler true) available)
          refl
    method-same lacks _ = refl

  -- Let the method `transfer_all` of a chain have no field `value`. The call of a balance transfer
  -- that is a clearing, or the error of its construction, is then the same for all amounts.
  pub clearing_ignores_amount :
      (to_account : AccountId32) (a b : ℕ)
      → AllHasNoValue
      → construct_single_balance_transfer_call filler
          (record { amount = a; to_account = to_account; is_clearing = true })
        ≡ construct_single_balance_transfer_call filler
            (record { amount = b; to_account = to_account; is_clearing = true })
  unfolding construct_single_balance_transfer_call clearing
  clearing_ignores_amount to_account a b lacks =
      ap
        (λ (f : Content Variant → Result ChainError (Content Variant)).
          filler.prepare_call >>= enter filler (is_variant filler "Balances") (only_field f))
        (fun_ext (method-same to_account a b lacks))
