-- ===== src/Chains/Payouts.antt =====
-- src/chain/payout.rs: what a payout transfers. The node's answers come as values; a transfer stands
-- for the arguments of the call that is made of it, which Calls makes.
pub mod Transaction
pub mod Calls
pub mod Tests
use kalatori_backend.Prelude.{
  ℕ, ◌+◌, ◌-◌, ◌%◌, ◌≤◌, ◌<◌, ◌≡◌, refl, Bool, true, ◌&&◌, Option, none, some, Result, ok, err,
  ok_or, ◌>>=◌, if◌then◌else◌, leb, arith, ok-inj, some-inj, Bool-cases, inl, inr, bind-inv,
}
use kalatori_backend.Prelude.Map
use kalatori_backend.Prelude.Map.{Map}
use kalatori_backend.Errors.{ChainError, invalid_currency}
use kalatori_backend.Definitions.{
  AccountId32, Balance, CurrencyProperties, TokenKind, u128_mod, sub_balance,
}
use kalatori_backend.Chains.{Client, Invoice, balance}

-- the arguments of `construct_single_balance_transfer_call` and `construct_single_asset_transfer_call`
pub data Transfer : Type 0 where
  balance_transfer : (amount : Balance) (to_account : AccountId32) (is_clearing : Bool) → Transfer
  asset_transfer : (asset_id : ℕ) (amount : Balance) (to_account : AccountId32) → Transfer

abbrev pub loss_tolerance : ℕ
loss_tolerance = 10000

abbrev pub manual_intervention_amount : ℕ
manual_intervention_amount = 1000000000000

transfer_of : TokenKind → Option ℕ → Invoice → Result ChainError Transfer
transfer_of TokenKind.native asset_id i = ok (balance_transfer i.amount i.recipient true)
transfer_of TokenKind.asset none i = err ChainError.asset_id
transfer_of TokenKind.asset (some id) i = ok (asset_transfer id i.amount i.recipient)

-- the match on the difference of the balance and the amount; `none` is an early return
pub choose : ℕ → CurrencyProperties → Invoice → Result ChainError (Option Transfer)
unfolding transfer_of
choose a currency i =
    if leb a loss_tolerance
    then (do t ← transfer_of currency.kind currency.asset_id i; ok (some t))
    else if leb loss_tolerance a && leb a manual_intervention_amount
    then ok none
    else ok none

-- `payout`, up to the transfers of the transaction
unfoldable pub payout_transfers :
    Map CurrencyProperties → Client → Invoice → Result ChainError (Option Transfer)
unfolding choose
payout_transfers assets client i = do
  held ← balance assets client i
  currency ← ok_or (Map.get i.currency assets) (invalid_currency i.currency)
  choose (sub_balance held i.amount) currency i

-- the order's amount goes to the recipient
abbrev pub Pays : Invoice → Transfer → Type 0
Pays i (balance_transfer amount to_account is_clearing) =
    (amount ≡ i.amount) × (to_account ≡ i.recipient)
Pays i (asset_transfer asset_id amount to_account) =
    (amount ≡ i.amount) × (to_account ≡ i.recipient)

-- a `u128` subtraction wraps around only if the amount is within the tolerance of 2 ^ 128
sub_balance_small :
    (l r : ℕ)
    → l < u128_mod
    → r + loss_tolerance < u128_mod
    → sub_balance l r ≤ loss_tolerance
    → (r ≤ l) × (l ≤ r + loss_tolerance)
unfolding sub_balance
sub_balance_small l r hl hr h =
    let h' : (l + 340282366920938463463374607431768211456 - r)
          % 340282366920938463463374607431768211456
        ≤ 10000 =
      h in
    let hl' : l < 340282366920938463463374607431768211456 = hl in
    let hr' : r + 10000 < 340282366920938463463374607431768211456 = hr in
    omega (arith, hl', hr', h')

transfer_of-Pays :
    (kind : TokenKind) (asset_id : Option ℕ) (i : Invoice) (t : Transfer)
    → transfer_of kind asset_id i ≡ ok t
    → Pays i t
unfolding transfer_of
transfer_of-Pays TokenKind.native asset_id i t h = rw (← ok-inj h) (refl, refl)
transfer_of-Pays TokenKind.asset none i t h = absurd (ground arith)
transfer_of-Pays TokenKind.asset (some id) i t h = rw (← ok-inj h) (refl, refl)

pub choose_ok :
    (a : ℕ) (currency : CurrencyProperties) (i : Invoice) (t : Transfer)
    → choose a currency i ≡ ok (some t)
    → (a ≤ loss_tolerance) × Pays i t
unfolding choose
choose_ok a currency i t h = elim (Bool-cases (leb a loss_tolerance)) [
  | inl near ↦
      let (u, chosen, e) =
        bind-inv (transfer_of currency.kind currency.asset_id i) (λ v. ok (some v)) (some t)
          (rw near at h) in
      (
        ground arith,
        rw (← some-inj (ok-inj e)) (transfer_of-Pays currency.kind currency.asset_id i u chosen),
      )
  | inr far ↦ absurd (ground arith)
]

-- Let every balance that the node answers be below 2 ^ 128, and the amount of an order below this by
-- more than the tolerance. If a payout constructs a transfer, then it has the amount of the order and
-- its recipient, and the balance was read as at least the amount and at most the tolerance above it.
pub payout_transfers_amount :
    (assets : Map CurrencyProperties) (client : Client) (i : Invoice) (t : Transfer)
    → ((held : Balance) → balance assets client i ≡ ok held → held < u128_mod)
    → i.amount + loss_tolerance < u128_mod
    → payout_transfers assets client i ≡ ok (some t)
    → (held : Balance) × (balance assets client i ≡ ok held)
      × (i.amount ≤ held)
      × (held ≤ i.amount + loss_tolerance)
      × Pays i t
unfolding payout_transfers
payout_transfers_amount assets client i t bounded large h =
    let (held, read, h1) = bind-inv (balance assets client i) _ (some t) h in
    let (currency, known, h2) =
      bind-inv (ok_or (Map.get i.currency assets) (invalid_currency i.currency)) _ (some t) h1 in
    let (near, paid) = choose_ok (sub_balance held i.amount) currency i t h2 in
    let (enough, close) = sub_balance_small held i.amount (bounded held read) large near in
    (held, read, enough, close, paid)
