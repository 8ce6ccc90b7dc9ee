-- ===== src/Chains/Metadata/Receipts.antt =====
-- `was_balance_received_at_account` of src/chain/utils.rs.
use kalatori_backend.Prelude.{
  ap, ◌∙◌, String, ◌≡◌, refl, Bool, false, Option, none, some, List, [], ◌∷◌, if◌then◌else◌, str_eq,
}
use kalatori_backend.Prelude.Lists.{list_eq}
use kalatori_backend.Definitions.{AccountId32}
use kalatori_backend.Chains.Metadata.{ParsedView, id, Parser}

module _ {Ty Data : Type 0} (parser : Parser Ty Data) where
  account_in : ParsedView Data → Option AccountId32
  account_in (id a) = some a
  account_in _ = none

  -- the account of a field that is named `to`
  receiver_in : Option String × Data → Option AccountId32
  unfolding account_in
  receiver_in (none, d) = none
  receiver_in (some name, d) = if str_eq name "to" then account_in (parser.view d) else none

  -- a turn of the loop over the fields: a second receiver ends it
  see :
      Option AccountId32
      → Option AccountId32
      → (Option AccountId32 → Option AccountId32)
      → Option AccountId32
  see none found on = on found
  see (some a) none on = on (some a)
  see (some a) (some b) on = none

  -- the loop over the fields, with `found_receiver`
  found_receiver : List (Option String × Data) → Option AccountId32 → Option AccountId32
  unfolding receiver_in see
  found_receiver [] found = found
  found_receiver (f ∷ rest) found = see (receiver_in f) found (λ x. found_receiver rest x)

  is_account : AccountId32 → Option AccountId32 → Bool
  is_account known none = false
  is_account known (some receiver) = list_eq receiver known

  unfoldable pub was_balance_received_at_account : AccountId32 → List (Option String × Data) → Bool
  unfolding found_receiver is_account
  was_balance_received_at_account known fields = is_account known (found_receiver fields none)

  prepend : Option AccountId32 → List AccountId32 → List AccountId32
  prepend none others = others
  prepend (some a) others = a ∷ others

  -- all the receivers that the fields name
  pub receivers : List (Option String × Data) → List AccountId32
  unfolding prepend
  receivers [] = []
  receivers (f ∷ rest) = prepend (receiver_in f) (receivers rest)

  -- the only account of a list, after one that was found
  only : Option AccountId32 → List AccountId32 → Option AccountId32
  only found [] = found
  only none (a ∷ []) = some a
  only none (a ∷ b ∷ rest) = none
  only (some a) (b ∷ rest) = none

  -- whether a list of accounts has one, and it is the known one
  abbrev pub is_only : AccountId32 → List AccountId32 → Bool
  is_only known (a ∷ []) = list_eq a known
  is_only known _ = false

  see-only :
      (r found : Option AccountId32) (on : Option AccountId32 → Option AccountId32)
      → (others : List AccountId32) → ((x : Option AccountId32) → on x ≡ only x others)
      → see r found on ≡ only found (prepend r others)
  unfolding see only prepend
  see-only none found on others h = h found
  see-only (some a) none on [] h = h (some a)
  see-only (some a) none on (b ∷ rest) h = h (some a)
  see-only (some a) (some b) on others h = refl

  found_receiver-only :
      (fields : List (Option String × Data)) (found : Option AccountId32)
      → found_receiver fields found ≡ only found (receivers fields)
  unfolding found_receiver receivers only
  found_receiver-only [] found = refl
  found_receiver-only (f ∷ rest) found =
      see-only (receiver_in f) found (found_receiver rest) (receivers rest)
        (λ x. found_receiver-only rest x)

  is_account-only :
      (known : AccountId32) (accounts : List AccountId32)
      → is_account known (only none accounts) ≡ is_only known accounts
  unfolding is_account only
  is_account-only known [] = refl
  is_account-only known (a ∷ []) = refl
  is_account-only known (a ∷ b ∷ rest) = refl

  -- A transfer event tells that an account received a balance exactly if one of its fields is named
  -- `to` and holds an account, no other field does, and the account is this one.
  pub received-receivers :
      (known : AccountId32) (fields : List (Option String × Data))
      → was_balance_received_at_account known fields ≡ is_only known (receivers fields)
  unfolding was_balance_received_at_account
  received-receivers known fields =
      ap (is_account known) (found_receiver-only fields none)
      ∙ is_account-only known (receivers fields)
