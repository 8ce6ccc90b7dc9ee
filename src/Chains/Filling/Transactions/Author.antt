-- ===== src/Chains/Filling/Transactions/Author.antt =====
-- The author and the call of a transaction of src/chain/utils.rs.
use kalatori_backend.Prelude.{ℕ, ◌≡◌, Option, none, some, List, ok, bind-inv, ok-inj, ap, sym, ◌∙◌}
use kalatori_backend.Definitions.{AccountId32}
use kalatori_backend.Hex.{BlockHash}
use kalatori_backend.Chains.Filling.{
  Content, variant, composite, account_id32, mortal, Fields, end, field, Filler,
}
use kalatori_backend.Chains.Filling.Names.{
  Names, NamesFields, Fresh, set_account-Names, set_address-Keeps, Keeps,
}
use kalatori_backend.Chains.Filling.Calls.{construct_batch_call}
use kalatori_backend.Chains.Filling.Transactions.{
  TransactionToFill, Transactor, set_author_field, set_author, set_era, construct_batch_transaction,
}

-- Filling in the block and the nonce leaves the author and the call.
pub record Populates {Variant : Type 0} (transactor : Transactor Variant) : Type 0 where
  pub block_author :
      (b : Option BlockHash) (n : Option ℕ) (t : TransactionToFill Variant)
      → (transactor.populate_block_info b n t).author ≡ t.author
  pub block_call :
      (b : Option BlockHash) (n : Option ℕ) (t : TransactionToFill Variant)
      → (transactor.populate_block_info b n t).call ≡ t.call
  pub nonce_author :
      (n : ℕ) (t : TransactionToFill Variant) → (transactor.populate_nonce n t).author ≡ t.author
  pub nonce_call :
      (n : ℕ) (t : TransactionToFill Variant) → (transactor.populate_nonce n t).call ≡ t.call

module _ {Variant : Type 0} (A : AccountId32 → Type 0) (I M : ℕ → Type 0) (filler : Filler Variant)
    (transactor : Transactor Variant) where
  set_author_field-Names :
      (a : AccountId32) (fs : Fields Variant)
      → A a
      → NamesFields A I M fs
      → NamesFields A I M (set_author_field a fs)
  unfolding set_author_field Names
  set_author_field-Names a (field name c end) named (h, _) =
      (set_account-Names A I M a c named h, tt)
  set_author_field-Names a _ named h = h

  pub set_author-Names :
      (a : AccountId32) (c c' : Content Variant)
      → A a
      → Fresh A I M filler
      → Names A I M c
      → set_author filler transactor a c ≡ ok c'
      → Names A I M c'
  unfolding set_author Names Keeps
  set_author-Names a (composite fs) c' named fresh h e =
      rw (← ok-inj e) (set_author_field-Names a fs named h)
  set_author-Names a (account_id32 old) c' named fresh h e = rw (← ok-inj e) named
  set_author-Names a (variant available selected fs) c' named fresh h e =
      set_address-Keeps A I M filler a named fresh (variant available selected fs) c' h e
  set_author-Names a _ c' named fresh h e = rw (← ok-inj e) h

module _ {Variant : Type 0} (filler : Filler Variant) (transactor : Transactor Variant) where
  -- what a transaction is made of
  pub batch_transaction-inv :
      (genesis_hash : BlockHash) (author : AccountId32) (calls : List (Content Variant))
      (block : BlockHash) (block_number nonce : ℕ) (tx : TransactionToFill Variant)
      → Populates transactor
      → construct_batch_transaction filler transactor genesis_hash author calls block block_number
          nonce
        ≡ ok tx
      → (t : TransactionToFill Variant) × (transactor.init genesis_hash ≡ ok t)
        × (set_author filler transactor author t.author ≡ ok tx.author)
        × (construct_batch_call filler calls ≡ ok tx.call)
  unfolding construct_batch_transaction
  batch_transaction-inv genesis_hash author calls block block_number nonce tx populates e =
      let (t, started, e') = bind-inv (transactor.init genesis_hash) _ tx e in
      let (filled, by_author, e'') =
        bind-inv (set_author filler transactor author t.author) _ tx e' in
      let (call, called, e''') = bind-inv (construct_batch_call filler calls) _ tx e'' in
      let made : TransactionToFill Variant = record {
        author = filled;
        call = call;
        extensions = set_era (mortal transactor.default_period none) t.extensions;
      } in
      let same = ok-inj e''' in
      let info = transactor.populate_block_info (some block) (some block_number) made in
      let author_same : tx.author ≡ filled =
        ap (λ (x : TransactionToFill Variant). x.author) (sym same)
        ∙ (populates.nonce_author nonce info
            ∙ populates.block_author (some block) (some block_number) made) in
      let call_same : tx.call ≡ call =
        ap (λ (x : TransactionToFill Variant). x.call) (sym same)
        ∙ (populates.nonce_call nonce info
            ∙ populates.block_call (some block) (some block_number) made) in
      (t, started, by_author ∙ ap ok (sym author_same), called ∙ ap ok (sym call_same))
