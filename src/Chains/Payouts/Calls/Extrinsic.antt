-- ===== src/Chains/Payouts/Calls/Extrinsic.antt =====
-- What the extrinsic of a payout of src/chain/payout.rs names.
use Prim.Native.String.{◌++◌}
use kalatori_backend.Prelude.{
  ℕ, String, ◌≡◌, refl, ap, ◌∙◌, ◌⊎◌, inl, inr, Option, none, some, List, [], ◌∷◌, ok, bind-inv,
  ok_or, ok_or-inv, map_err, map_err-inv,
}
use kalatori_backend.Errors.{
  ChainError, transaction_not_signable, nothing_to_send, substrate_constructor,
}
use kalatori_backend.Prelude.Map.{Map}
use kalatori_backend.Definitions.{AccountId32, CurrencyProperties}
use kalatori_backend.Hex.{Bytes, HexCoder, BlockHash}
use kalatori_backend.Signer
use kalatori_backend.Signer.{Signer, Crypto}
use kalatori_backend.Chains.{Invoice}
use kalatori_backend.Chains.Properties.{Json}
use kalatori_backend.Chains.Metadata.{Parser}
use kalatori_backend.Chains.Rpc.{WsClient}
use kalatori_backend.Chains.Rpc.Balances.{Queries}
use kalatori_backend.Chains.Filling.{Content, Filler}
use kalatori_backend.Chains.Filling.Names.{Nothing, Names, Fresh}
use kalatori_backend.Chains.Filling.Names.Weaker.{weaker-Names, weaker-Fresh}
use kalatori_backend.Chains.Filling.Names.Transfers.{
  asset_call-Names, balance_call-Names, batch_call-Names,
}
use kalatori_backend.Chains.Filling.Transactions.{
  TransactionToFill, Transactor, construct_batch_transaction,
}
use kalatori_backend.Chains.Filling.Transactions.Author.{
  Populates, set_author-Names, batch_transaction-inv,
}
use kalatori_backend.Chains.Payouts.{Transfer, Pays, balance_transfer, asset_transfer}
use kalatori_backend.Chains.Payouts.Transaction.{signed_extrinsic, payout}
use kalatori_backend.Chains.Payouts.Transaction.Submission.{Records, Submitted, payout-Submitted}
use kalatori_backend.Chains.Payouts.Calls.{Signing, construct_transfer_call, constructor_of}

-- what a transfer is about
unfoldable pub transfer_recipient : Transfer → AccountId32
transfer_recipient (balance_transfer amount to_account is_clearing) = to_account
transfer_recipient (asset_transfer asset_id amount to_account) = to_account

unfoldable pub transfer_amount : Transfer → ℕ
transfer_amount (balance_transfer amount to_account is_clearing) = amount
transfer_amount (asset_transfer asset_id amount to_account) = amount

unfoldable pub transfer_asset : Transfer → Option ℕ
transfer_asset (balance_transfer amount to_account is_clearing) = none
transfer_asset (asset_transfer asset_id amount to_account) = some asset_id

-- What other crates prepare for a chain has nothing filled in.
unfoldable pub Blank : {Variant : Type 0} → Filler Variant → Type 0
Blank filler = Fresh Nothing Nothing Nothing filler

-- only what the transfer is about is filled in
unfoldable pub NamesTransfer : {Variant : Type 0} → Transfer → Content Variant → Type 0
NamesTransfer t =
    Names (λ a. a ≡ transfer_recipient t) (λ id. some id ≡ transfer_asset t)
      (λ n. n ≡ transfer_amount t)

module _ {Variant : Type 0} (filler : Filler Variant) where
  transfer_call-NamesTransfer :
      (t : Transfer) (call : Content Variant)
      → Blank filler
      → construct_transfer_call filler t ≡ ok call
      → NamesTransfer t call
  unfolding construct_transfer_call NamesTransfer Blank transfer_recipient transfer_amount
      transfer_asset
  transfer_call-NamesTransfer (balance_transfer amount to_account is_clearing) call blank e =
      balance_call-Names _ _ _ filler
        (weaker-Fresh _ _ _ _ _ _ (λ a. absurd) (λ n. absurd) (λ n. absurd) filler blank)
        (record { amount = amount; to_account = to_account; is_clearing = is_clearing }) call refl
        refl e
  transfer_call-NamesTransfer (asset_transfer asset_id amount to_account) call blank e =
      asset_call-Names _ _ _ filler
        (weaker-Fresh _ _ _ _ _ _ (λ a. absurd) (λ n. absurd) (λ n. absurd) filler blank)
        (record { asset_id = asset_id; amount = amount; to_account = to_account }) call refl refl
        refl e

-- the author is the account, and nothing else is filled in with it
unfoldable pub NamesAuthor : {Variant : Type 0} → AccountId32 → Content Variant → Type 0
NamesAuthor a = Names (λ b. b ≡ a) Nothing Nothing

-- What is begun of a transaction has no author yet.
unfoldable pub Unauthored : {Variant : Type 0} → Transactor Variant → BlockHash → Type 0
Unauthored {Variant = Variant} transactor genesis_hash =
    (t : TransactionToFill Variant)
    → transactor.init genesis_hash ≡ ok t
    → Names Nothing Nothing Nothing t.author

module _ {W Value Ty Data Variant Pair WordSet : Type 0} (ws : WsClient W Value) (json : Json Value)
    (hex : HexCoder) (parser : Parser Ty Data) (queries : Queries Ty) (filler : Filler Variant)
    (transactor : Transactor Variant) (signing : Signing Variant) (genesis_hash : BlockHash)
    (c : Crypto Pair WordSet) (assets : Map CurrencyProperties) (signer : Signer) (i : Invoice)
    (blank : Blank filler) (unauthored : Unauthored transactor genesis_hash)
    (populates : Populates transactor) where
  -- a transaction of one call
  batch-Names :
      (t : Transfer) (call : Content Variant) (block : BlockHash) (block_number : ℕ)
      (tx : TransactionToFill Variant)
      → construct_transfer_call filler t ≡ ok call
      → construct_batch_transaction filler transactor genesis_hash i.address
          (call ∷ [])
          block
          block_number
          0
        ≡ ok tx
      → NamesTransfer t tx.call × NamesAuthor i.address tx.author
  unfolding NamesTransfer NamesAuthor Unauthored Blank
  batch-Names t call block block_number tx called e =
      let (begun, started, by_author, batched) =
        batch_transaction-inv filler transactor genesis_hash i.address (call ∷ []) block
          block_number 0 tx populates e in
      (
        batch_call-Names _ _ _ filler
            (weaker-Fresh _ _ _ _ _ _ (λ a. absurd) (λ n. absurd) (λ n. absurd) filler blank)
            (call ∷ []) tx.call (transfer_call-NamesTransfer filler t call blank called, tt)
            batched,
        set_author-Names _ _ _ filler transactor i.address begun.author tx.author refl
            (weaker-Fresh _ _ _ _ _ _ (λ a. absurd) (λ n. absurd) (λ n. absurd) filler blank)
            (weaker-Names _ _ _ _ _ _ (λ a. absurd) (λ n. absurd) (λ n. absurd) begun.author
              (unauthored begun started))
            by_author,
      )

  -- the transaction that is sent, with the signature of what it says to sign
  unfoldable pub Carries : Transfer → Bytes → Type 0
  Carries t extrinsic =
      (tx : TransactionToFill Variant) × (message : Bytes) × (signature : Bytes) × NamesTransfer t
        tx.call
      × NamesAuthor i.address tx.author
      × (signing.sign_this tx ≡ some message)
      × (Signer.sign c signer i.id message ≡ ok signature)
      × (signing.send_this_signed (signing.with_signature tx signature) ≡ ok (some extrinsic))

  pub signed_extrinsic-Carries :
      (t : Transfer) (block : BlockHash) (block_number : ℕ) (extrinsic : Bytes)
      → signed_extrinsic ws json hex parser queries
          (constructor_of filler transactor signing genesis_hash)
          c
          assets
          signer
          i
          t
          block
          block_number
        ≡ ok extrinsic
      → Carries t extrinsic
  unfolding signed_extrinsic constructor_of Carries
  signed_extrinsic-Carries t block block_number extrinsic e =
      let (call, called, e1) = bind-inv (construct_transfer_call filler t) _ extrinsic e in
      let (tx, built, e2) =
        bind-inv
          (construct_batch_transaction filler transactor genesis_hash i.address (call ∷ []) block
            block_number 0)
          _ extrinsic e1 in
      let (message, asked, e3) =
        bind-inv (ok_or (signing.sign_this tx) (transaction_not_signable (signing.debug tx))) _
          extrinsic e2 in
      let (signature, signed, e4) =
        bind-inv (map_err ChainError.signer (Signer.sign c signer i.id message)) _ extrinsic e3 in
      let (unsent, sent, e5) =
        bind-inv
          (map_err substrate_constructor
            (signing.send_this_signed (signing.with_signature tx signature)))
          _ extrinsic e4 in
      let (by_call, by_author) = batch-Names t call block block_number tx called built in
      (
        tx,
        message,
        signature,
        by_call,
        by_author,
        ok_or-inv (signing.sign_this tx) (transaction_not_signable (signing.debug tx)) message
            asked,
        map_err-inv ChainError.signer (Signer.sign c signer i.id message) signature signed,
        map_err-inv substrate_constructor
              (signing.send_this_signed (signing.with_signature tx signature)) unsent sent
            ∙ ap ok (ok_or-inv unsent nothing_to_send extrinsic e5),
      )

  -- Let a node record what is submitted to it and nothing else, and let other crates prepare calls
  -- and transactions in which nothing is filled in, and keep the call and the author when they fill
  -- in the block and the nonce. A payout then submits nothing, or it submits one extrinsic: a
  -- transaction, signed for the order, whose author holds no account but the order's address, and
  -- whose call holds no account but the order's recipient and no amount but the order's.
  pub payout-Carries :
      (sent : W → List String) (records : Records ws sent) (w : W)
      → let w' =
          (payout ws json hex parser queries
            (constructor_of filler transactor signing genesis_hash)
            c
            assets
            signer
            i
            w).1 in
        (sent w' ≡ sent w)
        ⊎ (t : Transfer) × (extrinsic : Bytes) × Pays i t
          × Carries t extrinsic
          × (sent w' ≡ ("0x" ++ hex.encode extrinsic) ∷ sent w)
  unfolding Submitted
  payout-Carries sent records w =
      elim (payout-Submitted ws json hex parser queries
        (constructor_of filler transactor signing genesis_hash) c assets signer i sent records w) [
          | inl quiet ↦ inl quiet
          | inr (t, block, block_number, extrinsic, pays, made, heard) ↦ inr (
            t,
            extrinsic,
            pays,
            signed_extrinsic-Carries t block block_number extrinsic made,
            heard,
          )
        ]
