-- ===== src/Chains/Storage/Located.antt =====
-- Where the queries of src/chain/utils.rs look.
use kalatori_backend.Prelude.{
  ℕ, String, ◌≡◌, refl, Option, none, some, List, Result, ok, err, ◌>>=◌, bind-inv, ok_or, ok-inj,
  ap, sym, arith, ◌∙◌, eq_iff,
}
use kalatori_backend.Errors.{ChainError, storage_query}
use kalatori_backend.Chains.Filling.{find_index}
use kalatori_backend.Chains.Filling.Positions.{At, find_index-At}
use kalatori_backend.Chains.Rpc.Balances.{Query}
use kalatori_backend.Chains.Storage.{
  EntryType, plain_entry, map_entry, set_key, EntrySelector, StorageSelector, Storage, is_prefix,
  is_entry, at_entry, transposed, number_query, in_system, at_system, from_selector,
  block_number_query,
}

module _ {Variant Entry Pallet Other Ty : Type 0}
    (storage : Storage Variant Entry Pallet Other Ty) where
  -- the query is finalised of the entry with the name, in a pallet with the prefix, and with nothing
  -- more filled in
  unfoldable pub Located : String → String → Query Ty → Type 0
  Located prefix name q =
      (pallets : List Pallet) × (i : ℕ) × (pallet : Pallet) × (chosen filled : StorageSelector
        Variant Entry Pallet Other)
      × (offered selected : EntrySelector Variant Entry) × (j : ℕ) × (entry : Entry) × At pallets i
          pallet
      × (storage.prefix pallet ≡ prefix)
      × (storage.pallet_at pallets i ≡ ok chosen)
      × (chosen.entry_selector ≡ some offered)
      × At offered.available_entries j entry
      × (storage.name entry ≡ name)
      × (storage.entry_at offered.available_entries j ≡ ok selected)
      × (filled.entry_selector ≡ some selected)
      × (filled.other ≡ chosen.other)
      × (storage.finalize filled ≡ ok (some q))

  transposed-inv :
      (r : Result ChainError (Option (Query Ty))) (q : Query Ty)
      → (ok_or (transposed storage r) storage_query >>= λ made. made) ≡ ok q
      → r ≡ ok (some q)
  unfolding transposed
  transposed-inv (ok none) q e = ground arith
  transposed-inv (ok (some q')) q e = ap (λ x. ok (some x)) (ok-inj e)
  transposed-inv (err x) q e = ground arith

  set_key-same : (t : EntryType Variant) → set_key (λ key. key) t ≡ t
  unfolding set_key
  set_key-same plain_entry = refl
  set_key-same (map_entry key) = refl

  -- the entry of a query
  number_query-inv :
      (s : StorageSelector Variant Entry Pallet Other) (entries : List Entry) (found : Option ℕ)
      (q : Query Ty)
      → number_query storage s entries found ≡ ok q
      → (j : ℕ) × (selected : EntrySelector Variant Entry) × (filled : StorageSelector Variant Entry
          Pallet Other)
        × (found ≡ some j)
        × (storage.entry_at entries j ≡ ok selected)
        × (filled.entry_selector ≡ some selected)
        × (filled.other ≡ s.other)
        × (storage.finalize filled ≡ ok (some q))
  unfolding number_query at_entry
  number_query-inv s entries none q e = ground arith
  number_query-inv s entries (some j) q e =
      let (filled, made, e1) =
        bind-inv (at_entry storage (λ key. key) s entries j)
          (λ f. ok_or (transposed storage (storage.finalize f)) storage_query >>= λ m. m) q e in
      let (selected, taken, e2) = bind-inv (storage.entry_at entries j) _ filled made in
      let same = ok-inj e2 in
      (
        j,
        selected,
        filled,
        refl,
        taken,
        ap (λ (x : StorageSelector Variant Entry Pallet Other). x.entry_selector) (sym same)
            ∙ ap
                (λ t.
                  some
                    (record { available_entries = selected.available_entries; type_to_fill = t }))
                (set_key-same selected.type_to_fill),
        ap (λ (x : StorageSelector Variant Entry Pallet Other). x.other) (sym same),
        transposed-inv (storage.finalize filled) q e1,
      )

  in_system-Located :
      (pallets : List Pallet) (i : ℕ) (chosen : StorageSelector Variant Entry Pallet Other)
      (selector : Option (EntrySelector Variant Entry)) (q : Query Ty)
      → chosen.entry_selector ≡ selector
      → find_index (is_prefix storage "System") pallets ≡ some i
      → storage.pallet_at pallets i ≡ ok chosen
      → in_system storage chosen selector ≡ ok q
      → Located "System" "Number" q
  unfolding in_system Located is_prefix is_entry
  in_system-Located pallets i chosen none q same found taken e = ground arith
  in_system-Located pallets i chosen (some offered) q same found taken e =
      let (j, selected, filled, there, entered, by_entry, others, finished) =
        number_query-inv chosen offered.available_entries
          (find_index (is_entry storage "Number") offered.available_entries) q e in
      let (pallet, at_pallet, prefixed) =
        find_index-At (is_prefix storage "System") pallets i found in
      let (entry, at_name, named) =
        find_index-At (is_entry storage "Number") offered.available_entries j there in
      (
        pallets,
        i,
        pallet,
        chosen,
        filled,
        offered,
        selected,
        j,
        entry,
        at_pallet,
        (eq_iff _ _).0 prefixed,
        taken,
        same,
        at_name,
        (eq_iff _ _).0 named,
        entered,
        by_entry,
        others,
        finished,
      )

  at_system-Located :
      (s : StorageSelector Variant Entry Pallet Other) (found : Option ℕ) (q : Query Ty)
      → find_index (is_prefix storage "System") s.available_pallets ≡ found
      → at_system storage s found ≡ ok q
      → Located "System" "Number" q
  unfolding at_system
  at_system-Located s none q same e = ground arith
  at_system-Located s (some i) q same e =
      let (chosen, taken, e') = bind-inv (storage.pallet_at s.available_pallets i) _ q e in
      in_system-Located s.available_pallets i chosen chosen.entry_selector q refl same taken e'

  -- If there is a query for the number of a block, then it is finalised of an entry with the name
  -- "Number", in a pallet with the prefix "System", and nothing is filled in by the code.
  pub block_number_query-Located :
      (q : Query Ty) → block_number_query storage ≡ ok q → Located "System" "Number" q
  unfolding block_number_query from_selector
  block_number_query-Located q e =
      let (selector, started, e') = bind-inv storage.init (from_selector storage) q e in
      located selector e'
    where
      located :
          (selector : Option (StorageSelector Variant Entry Pallet Other))
          → from_selector storage selector ≡ ok q
          → Located "System" "Number" q
      located none e' = ground arith
      located (some s) e' =
          at_system-Located s (find_index (is_prefix storage "System") s.available_pallets) q refl
            e'
