-- ===== src/Chains/Filling/Names.antt =====
-- What a call or a transaction of src/chain/utils.rs names: the accounts, the numbers of 32 bits and
-- those of 128 bits that are filled in.
pub mod Weaker
pub mod Transfers
use kalatori_backend.Prelude.{
  ℕ, String, ◌≡◌, refl, Bool, true, false, Option, none, some, List, [], ◌∷◌, Result, ok, err,
  ◌>>=◌, bind-inv, ok-inj, if◌then◌else◌, str_eq, Bool-cases, inl, inr, arith,
}
use kalatori_backend.Errors.{ChainError}
use kalatori_backend.Definitions.{AccountId32}
use kalatori_backend.Chains.Filling.{
  Unsigned, u32, u128, other_width, Specialty, ordinary, balance, Content, variant, composite,
  tuple, sequence_regular, account_id32, era, unsigned, regular_bool, unread, Fields, end, field,
  Contents, nil, content, Filler, set_account, set_id, set_balance, set_bool, only_field,
  each_field, entered, enter, is_variant, set_address, find_index,
}

-- nothing is filled in
abbrev pub Nothing : {A : Type 0} → A → Type 0
Nothing a = ⊥

unfoldable pub NamesUnsigned : (I M : ℕ → Type 0) → Unsigned → Type 0
NamesUnsigned I M (u32 (some n)) = I n
NamesUnsigned I M (u128 (some n)) = M n
NamesUnsigned I M _ = Unit

module _ {Variant : Type 0} (A : AccountId32 → Type 0) (I M : ℕ → Type 0) where
  -- what is filled in satisfies the predicate of its type
  unfoldable mutual
    unfolding NamesUnsigned

    pub Names : Content Variant → Type 0
    Names (variant available selected fields) = NamesFields fields
    Names (composite fields) = NamesFields fields
    Names (tuple cs) = NamesContents cs
    Names (sequence_regular cs) = NamesContents cs
    Names (account_id32 none) = Unit
    Names (account_id32 (some a)) = A a
    Names (era e) = Unit
    Names (unsigned compact n specialty) = NamesUnsigned I M n
    Names (regular_bool b) = Unit
    Names unread = Unit

    pub NamesFields : Fields Variant → Type 0
    NamesFields end = Unit
    NamesFields (field name c rest) = Names c × NamesFields rest

    pub NamesContents : Contents Variant → Type 0
    NamesContents nil = Unit
    NamesContents (content c rest) = Names c × NamesContents rest

  pub set_account-Names :
      (a : AccountId32) (c : Content Variant) → A a → Names c → Names (set_account a c)
  unfolding set_account Names
  set_account-Names a (account_id32 old) named h = named
  set_account-Names a _ named h = h

  pub set_id-Names : (n : ℕ) (c : Content Variant) → I n → Names c → Names (set_id n c)
  unfolding set_id Names
  set_id-Names n (unsigned compact (u32 old) ordinary) named h = named
  set_id-Names n _ named h = h

  pub set_balance-Names : (n : ℕ) (c : Content Variant) → M n → Names c → Names (set_balance n c)
  unfolding set_balance Names
  set_balance-Names n (unsigned compact (u128 old) balance) named h = named
  set_balance-Names n _ named h = h

  pub set_bool-Names : (b : Bool) (c : Content Variant) → Names c → Names (set_bool b c)
  unfolding set_bool Names
  set_bool-Names b (regular_bool old) h = tt
  set_bool-Names b _ h = h

  -- a step that keeps what is named
  unfoldable pub Keeps : (Content Variant → Result ChainError (Content Variant)) → Type 0
  Keeps f = (c c' : Content Variant) → Names c → f c ≡ ok c' → Names c'

  unfoldable pub KeepsFields : (Fields Variant → Result ChainError (Fields Variant)) → Type 0
  KeepsFields f = (fs fs' : Fields Variant) → NamesFields fs → f fs ≡ ok fs' → NamesFields fs'

  pub only_field-Keeps :
      (f : Content Variant → Result ChainError (Content Variant))
      → Keeps f
      → KeepsFields (only_field f)
  unfolding only_field Keeps KeepsFields Names
  only_field-Keeps f keeps (field name c end) fs' (h, _) e =
      let (c', made, e') = bind-inv (f c) _ fs' e in rw (← ok-inj e') (keeps c c' h made, tt)
  only_field-Keeps f keeps _ fs' h e = rw (← ok-inj e) h

  pub each_field-Keeps :
      (f : String → Content Variant → Result ChainError (Content Variant))
      → ((name : String) → Keeps (f name))
      → KeepsFields (each_field f)
  unfolding each_field Keeps KeepsFields Names
  each_field-Keeps f keeps end fs' h e = rw (← ok-inj e) h
  each_field-Keeps f keeps (field none c rest) fs' (h, hs) e =
      let (rest', made, e') = bind-inv (each_field f rest) _ fs' e in
      rw (← ok-inj e') (h, each_field-Keeps f keeps rest rest' hs made)
  each_field-Keeps f keeps (field (some name) c rest) fs' (h, hs) e =
      let (c', first, e') = bind-inv (f name c) _ fs' e in
      let (rest', made, e'') = bind-inv (each_field f rest) _ fs' e' in
      rw (← ok-inj e'') (keeps name c c' h first, each_field-Keeps f keeps rest rest' hs made)

  pub pure-Keeps :
      (f : Content Variant → Content Variant)
      → ((c : Content Variant) → Names c → Names (f c))
      → Keeps (λ c. ok (f c))
  unfolding Keeps
  pure-Keeps f keeps c c' h e = rw (← ok-inj e) (keeps c h)

  module _ (filler : Filler Variant) where
    -- What other crates prepare has nothing filled in, so it satisfies every predicate.
    unfoldable pub Fresh : Type 0
    Fresh =
        ((c : Content Variant) → filler.prepare_call ≡ ok c → Names c)
        × ((available : List Variant) (i : ℕ) (fs : Fields Variant)
            → filler.new_at available i ≡ ok fs
            → NamesFields fs)

    entered-Names :
        (fill : Fields Variant → Result ChainError (Fields Variant)) (available : List Variant)
        (selected : ℕ) (fs : Fields Variant) (found : Option ℕ) (c' : Content Variant)
        → Fresh
        → KeepsFields fill
        → NamesFields fs
        → entered filler fill available selected fs found ≡ ok c'
        → Names c'
    unfolding entered Fresh KeepsFields Names
    entered-Names fill available selected fs none c' fresh keeps h e = rw (← ok-inj e) h
    entered-Names fill available selected fs (some i) c' (_, fresh) keeps h e =
        let (chosen, taken, e') = bind-inv (filler.new_at available i) _ c' e in
        let (filled, made, e'') = bind-inv (fill chosen) _ c' e' in
        rw (← ok-inj e'') (keeps chosen filled (fresh available i chosen taken) made)

    pub enter-Keeps :
        (wanted : Variant → Bool) (fill : Fields Variant → Result ChainError (Fields Variant))
        → Fresh
        → KeepsFields fill
        → Keeps (enter filler wanted fill)
    unfolding enter Keeps Names
    enter-Keeps wanted fill fresh keeps (variant available selected fs) c' h e =
        entered-Names fill available selected fs (find_index wanted available) c' fresh keeps h e
    enter-Keeps wanted fill fresh keeps _ c' h e = rw (← ok-inj e) h

    pub set_address-Keeps : (a : AccountId32) → A a → Fresh → Keeps (set_address filler a)
    unfolding set_address
    set_address-Keeps a named fresh =
        enter-Keeps (is_variant filler "Id") (only_field λ c. ok (set_account a c)) fresh (
          only_field-Keeps (λ c. ok (set_account a c))
            (pure-Keeps (set_account a) (λ c h. set_account-Names a c named h)))
