-- ===== src/Chains/Payouts/Transaction/Submission.antt =====
-- What src/chain/payout.rs submits to the node.
use Prim.Native.String.{◌++◌}
use kalatori_backend.Prelude.{ℕ, String, Option, none, some, List, [], ◌∷◌, Result, ok, err, ok_or}
use kalatori_backend.Prelude.Map
use kalatori_backend.Prelude.Map.{Map}
use kalatori_backend.Prelude.Exec
use kalatori_backend.Prelude.Exec.{Exec, lift}
use kalatori_backend.Errors.{ChainError, invalid_currency}
use kalatori_backend.Definitions.{Balance, CurrencyProperties, sub_balance}
use kalatori_backend.Hex.{Bytes, HexCoder, BlockHash}
use kalatori_backend.Signer.{Signer, Crypto}
use kalatori_backend.Chains.{Invoice}
use kalatori_backend.Chains.Properties.{Json}
use kalatori_backend.Chains.Metadata.{Parser}
use kalatori_backend.Chains.Payouts.{Transfer}
use kalatori_backend.Chains.Rpc.{WsClient, block_hash, send_stuff}
use kalatori_backend.Chains.Rpc.Balances.{
  Query, Queries, fetched, asset_balance_at_account, system_balance_at_account,
  current_block_number,
}
use kalatori_backend.Prelude.{◌≡◌, refl, ap, ◌∙◌, ◌⊎◌, inl, inr, false, str_eq, bind-inv, List}
use kalatori_backend.Chains.Payouts.{Pays, choose_ok}
use kalatori_backend.Chains.Rpc.{Param, text, call, get_value_from_storage}
use kalatori_backend.Chains.Payouts.Transaction.{
  Constructor, signed_extrinsic, account_balance, balance_at, chosen, send_signed, submit, read,
  after_read, payout,
}

-- What a node records as submitted: other requests leave it, and a submission is put before it.
pub record Records {W Value : Type 0} (ws : WsClient W Value) (sent : W → List String)
    : Type 0 where
  pub quiet :
      (method : String) (params : List Param) (w : W)
      → str_eq method "author_submitAndWatchExtrinsic" ≡ false
      → sent (ws.request method params w).1 ≡ sent w
  pub heard :
      (extrinsic : String) (w : W)
      → sent (ws.request "author_submitAndWatchExtrinsic" (text extrinsic ∷ []) w).1
        ≡ extrinsic ∷ sent w

module _ {W : Type 0} (sent : W → List String) where
  -- a step that submits nothing
  Quiet : {A : Type 0} → Exec W ChainError A → Type 0
  Quiet m = (w : W) → sent (m w).1 ≡ sent w

  Quiet-continue :
      {A B : Type 0} (r : Result ChainError A) (f : A → Exec W ChainError B) (w : W)
      → ((a : A) → Quiet (f a))
      → sent (Exec.continue r f w).1 ≡ sent w
  unfolding Quiet
  Quiet-continue (ok a) f w h = h a w
  Quiet-continue (err e) f w h = refl

  Quiet-bind :
      {A B : Type 0} (m : Exec W ChainError A) (f : A → Exec W ChainError B)
      → Quiet m
      → ((a : A) → Quiet (f a))
      → Quiet (Exec.◌>>=◌ m f)
  unfolding Quiet
  Quiet-bind m f hm hf w = Quiet-continue (m w).0 f (m w).1 hf ∙ hm w

  Quiet-lift : {A : Type 0} (r : Result ChainError A) → Quiet (lift r)
  unfolding Quiet
  Quiet-lift r w = refl

module _ {W Value Ty Data Call Transaction Pair WordSet : Type 0} (ws : WsClient W Value)
    (json : Json Value) (hex : HexCoder) (parser : Parser Ty Data) (queries : Queries Ty)
    (make : Constructor Call Transaction) (c : Crypto Pair WordSet)
    (assets : Map CurrencyProperties) (signer : Signer) (i : Invoice) (sent : W → List String)
    (records : Records ws sent) where
  get_value-Quiet :
      (key : String) (block : BlockHash) → Quiet sent (get_value_from_storage ws json hex key block)
  unfolding Quiet get_value_from_storage call
  get_value-Quiet key block w = records.quiet "state_getStorage" _ w refl

  block_hash-Quiet : (number : Option String) → Quiet sent (block_hash ws json hex number)
  unfolding Quiet block_hash call
  block_hash-Quiet number =
      Quiet-bind sent (call ws json hex "chain_getBlockHash" _) _
        (λ w. records.quiet "chain_getBlockHash" _ w refl) (λ v w. refl)

  fetched-Quiet :
      (query : Result ChainError (Query Ty)) (block : BlockHash)
      → Quiet sent (fetched parser ws json hex queries query block)
  unfolding fetched Quiet
  fetched-Quiet query block = Quiet-bind sent (lift query) _ (Quiet-lift sent query) (λ q.
      Quiet-bind sent (get_value_from_storage ws json hex q.key block) _
        (get_value-Quiet q.key block) (λ v w. refl))

  account_balance-Quiet :
      (block : BlockHash) (asset_id : Option ℕ)
      → Quiet sent
          (account_balance ws json hex parser queries make c assets signer i block asset_id)
  unfolding Quiet account_balance asset_balance_at_account system_balance_at_account
  account_balance-Quiet block (some id) =
      Quiet-bind sent
        (fetched parser ws json hex queries (queries.asset_balance_query i.address id) block) _
        (fetched-Quiet _ block) (λ q w. refl)
  account_balance-Quiet block none =
      Quiet-bind sent
        (fetched parser ws json hex queries (queries.system_balance_query i.address) block) _
        (fetched-Quiet _ block) (λ q w. refl)

  read-Quiet : Quiet sent (read ws json hex parser queries make c assets signer i)
  unfolding Quiet read current_block_number balance_at
  read-Quiet = Quiet-bind sent (block_hash ws json hex none) _ (block_hash-Quiet none) λ block.
      Quiet-bind sent (current_block_number parser ws json hex queries block) _
        (Quiet-bind sent (fetched parser ws json hex queries queries.block_number_query block) _
          (fetched-Quiet _ block) (λ q w. refl))
        λ number.
          Quiet-bind sent (balance_at ws json hex parser queries make c assets signer i block) _
            (Quiet-bind sent
              (lift (ok_or (Map.get i.currency assets) (invalid_currency i.currency))) _ (λ w. refl)
              (λ currency. account_balance-Quiet block currency.asset_id))
            (λ held w. refl)

  -- one submission: what signed_extrinsic gives for a transfer that pays the order
  unfoldable pub Submitted : W → W → Type 0
  Submitted w w' =
      (transfer : Transfer) × (block : BlockHash) × (block_number : ℕ) × (extrinsic : Bytes) × Pays
        i transfer
      × (signed_extrinsic ws json hex parser queries make c assets signer i transfer block
            block_number
          ≡ ok extrinsic)
      × (sent w' ≡ ("0x" ++ hex.encode extrinsic) ∷ sent w)

  send_signed-Submitted :
      (block : BlockHash) (block_number : ℕ) (t : Transfer) (r : Result ChainError Bytes)
      → Pays i t
      → signed_extrinsic ws json hex parser queries make c assets signer i t block block_number ≡ r
      → (w : W)
      → let w' = (send_signed ws json hex parser queries make c assets signer i r w).1 in
        (sent w' ≡ sent w) ⊎ Submitted w w'
  unfolding send_signed Submitted send_stuff call Quiet
  send_signed-Submitted block block_number t (err e) pays made w = inl refl
  send_signed-Submitted block block_number t (ok extrinsic) pays made w =
      let extrinsic_text = "0x" ++ hex.encode extrinsic in
      let quiet =
        Quiet-continue sent (send_stuff ws json hex extrinsic_text w).0 (λ v. Exec.pure tt)
          (send_stuff ws json hex extrinsic_text w).1 (λ v w'. refl) in
      inr (t, block, block_number, extrinsic, pays, made, quiet ∙ records.heard extrinsic_text w)

  submit-Submitted :
      (block : BlockHash) (block_number : ℕ) (transfer : Option Transfer)
      → ((t : Transfer) → transfer ≡ some t → Pays i t)
      → (w : W)
      → let w' =
          (submit ws json hex parser queries make c assets signer i block block_number transfer
            w).1 in
        (sent w' ≡ sent w) ⊎ Submitted w w'
  unfolding submit
  submit-Submitted block block_number none pays w = inl refl
  submit-Submitted block block_number (some t) pays w =
      send_signed-Submitted block block_number t
        (signed_extrinsic ws json hex parser queries make c assets signer i t block block_number)
        (pays t refl) refl w

  chosen-Pays :
      (held : Balance) (t : Transfer)
      → chosen ws json hex parser queries make c assets signer i held ≡ ok (some t)
      → Pays i t
  unfolding chosen
  chosen-Pays held t h =
      let (currency, _, e) =
        bind-inv (ok_or (Map.get i.currency assets) (invalid_currency i.currency)) _ (some t) h in
      (choose_ok (sub_balance held i.amount) currency i t e).1

  chosen_submit :
      (block : BlockHash) (block_number : ℕ) (r : Result ChainError (Option Transfer))
      → ((t : Transfer) → r ≡ ok (some t) → Pays i t)
      → (w : W)
      → let w' =
          (Exec.◌>>=◌
            (lift r)
            (submit ws json hex parser queries make c assets signer i block block_number)
            w).1 in
        (sent w' ≡ sent w) ⊎ Submitted w w'
  chosen_submit block block_number (err e) pays w = inl refl
  chosen_submit block block_number (ok transfer) pays w =
      submit-Submitted block block_number transfer (λ t e. pays t (ap ok e)) w

  Submitted-before :
      (w v w' : W)
      → sent v ≡ sent w
      → (sent w' ≡ sent v) ⊎ Submitted v w'
      → (sent w' ≡ sent w) ⊎ Submitted w w'
  unfolding Submitted
  Submitted-before w v w' e (inl quiet) = inl (quiet ∙ e)
  Submitted-before w v w' e (inr (t, block, block_number, extrinsic, pays, made, heard)) = inr (
    t,
    block,
    block_number,
    extrinsic,
    pays,
    made,
    heard ∙ ap (λ before. ("0x" ++ hex.encode extrinsic) ∷ before) e,
  )

  read_submit :
      (r : Result ChainError (BlockHash × ℕ × Balance)) (w : W)
      → let w' =
          (Exec.continue r (after_read ws json hex parser queries make c assets signer i) w).1 in
        (sent w' ≡ sent w) ⊎ Submitted w w'
  unfolding after_read
  read_submit (err e) w = inl refl
  read_submit (ok (block, block_number, held)) w =
      chosen_submit block block_number
        (chosen ws json hex parser queries make c assets signer i held) (chosen-Pays held) w

  -- Let a node record what is submitted to it, and nothing else. A payout then submits nothing, or it
  -- submits one extrinsic: what signed_extrinsic gives for a transfer with the order's amount and its
  -- recipient.
  pub payout-Submitted :
      (w : W)
      → let w' = (payout ws json hex parser queries make c assets signer i w).1 in
        (sent w' ≡ sent w) ⊎ Submitted w w'
  unfolding payout Quiet
  payout-Submitted w =
      let (r, v) = read ws json hex parser queries make c assets signer i w in
      Submitted-before w v _ (read-Quiet w) (read_submit r v)
