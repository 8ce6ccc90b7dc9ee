-- ===== src/Chains/Filling/Transactions.antt =====
-- `construct_batch_transaction` of src/chain/utils.rs.
pub mod Author
use kalatori_backend.Prelude.{ℕ, String, Option, none, some, List, [], ◌∷◌, Result, ok, err, ◌>>=◌}
use kalatori_backend.Errors.{ChainError}
use kalatori_backend.Definitions.{AccountId32}
use kalatori_backend.Hex.{BlockHash}
use kalatori_backend.Chains.Filling.{
  Content, variant, composite, account_id32, era, mortal, EraToFill, Fields, end, field, Contents,
  nil, content, Filler, set_account, set_address,
}
use kalatori_backend.Chains.Filling.Calls.{construct_batch_call}

-- `TransactionToFill`
pub record TransactionToFill (Variant : Type 0) : Type 0 where
  pub author : Content Variant
  pub call : Content Variant
  pub extensions : Contents Variant

-- Transactions of other crates, at the metadata of a chain.
pub record Transactor (Variant : Type 0) : Type 0 where
  pub default_period : ℕ
  -- `TransactionToFill::init`, with the hash of the genesis
  pub init : BlockHash → Result ChainError (TransactionToFill Variant)
  pub populate_block_info :
      Option BlockHash → Option ℕ → TransactionToFill Variant → TransactionToFill Variant
  pub populate_nonce : ℕ → TransactionToFill Variant → TransactionToFill Variant

module _ {Variant : Type 0} where
  -- the author, by the type of the address
  set_author_field : AccountId32 → Fields Variant → Fields Variant
  unfolding set_account
  set_author_field a (field name c end) = field name (set_account a c) end
  set_author_field a fields = fields

  -- the era of an extension, and whether it has one
  mortal_fields : EraToFill → Fields Variant → Option (Fields Variant)
  mortal_fields e (field name (era old) end) = some (field name (era e) end)
  mortal_fields e fields = none

  wrapped : Option (Fields Variant) → Option (Content Variant)
  wrapped none = none
  wrapped (some fields) = some (composite fields)

  mortal_content : EraToFill → Content Variant → Option (Content Variant)
  unfolding mortal_fields wrapped
  mortal_content e (composite fields) = wrapped (mortal_fields e fields)
  mortal_content e (era old) = some (era e)
  mortal_content e c = none

  -- a turn of the loop: the first era ends it
  mortal_or :
      Content Variant
      → Option (Content Variant)
      → Contents Variant
      → Contents Variant
      → Contents Variant
  mortal_or c none rest further = content c further
  mortal_or c (some c') rest further = content c' rest

  -- the loop over the extensions
  unfoldable pub set_era : EraToFill → Contents Variant → Contents Variant
  unfolding mortal_content mortal_or
  set_era e nil = nil
  set_era e (content c rest) = mortal_or c (mortal_content e c) rest (set_era e rest)

module _ {Variant : Type 0} (filler : Filler Variant) (transactor : Transactor Variant) where
  unfoldable pub set_author : AccountId32 → Content Variant → Result ChainError (Content Variant)
  unfolding set_author_field set_account set_address
  set_author a (composite fields) = ok (composite (set_author_field a fields))
  set_author a (account_id32 old) = ok (account_id32 (some a))
  set_author a (variant available selected fields) =
      set_address filler a (variant available selected fields)
  set_author a c = ok c

  unfoldable pub construct_batch_transaction :
      BlockHash
      → AccountId32
      → List (Content Variant)
      → BlockHash
      → ℕ
      → ℕ
      → Result ChainError (TransactionToFill Variant)
  unfolding set_author set_era construct_batch_call
  construct_batch_transaction genesis_hash author call_set block block_number nonce = do
    t ← transactor.init genesis_hash
    filled ← set_author author t.author
    call ← construct_batch_call filler call_set
    let made : TransactionToFill Variant = record {
      author = filled;
      call = call;
      extensions = set_era (mortal transactor.default_period none) t.extensions;
    }
    ok (
        transactor.populate_nonce nonce
          (transactor.populate_block_info (some block) (some block_number) made))
