-- ===== src/Chains/Filling/Names/Weaker.antt =====
-- What nothing names satisfies every predicate.
use kalatori_backend.Prelude.{ℕ, none, some}
use kalatori_backend.Definitions.{AccountId32}
use kalatori_backend.Chains.Filling.{
  Unsigned, u32, u128, other_width, Content, variant, composite, tuple, sequence_regular,
  account_id32, era, unsigned, regular_bool, unread, Fields, end, field, Contents, nil, content,
  Filler,
}
use kalatori_backend.Chains.Filling.Names.{NamesUnsigned, Names, NamesFields, NamesContents, Fresh}

module _ (A A' : AccountId32 → Type 0) (I I' M M' : ℕ → Type 0)
    (on_account : (a : AccountId32) → A a → A' a) (on_id : (n : ℕ) → I n → I' n)
    (on_amount : (n : ℕ) → M n → M' n) where
  NamesUnsigned-imp : (n : Unsigned) → NamesUnsigned I M n → NamesUnsigned I' M' n
  unfolding NamesUnsigned
  NamesUnsigned-imp (u32 (some n)) h = on_id n h
  NamesUnsigned-imp (u32 none) h = tt
  NamesUnsigned-imp (u128 (some n)) h = on_amount n h
  NamesUnsigned-imp (u128 none) h = tt
  NamesUnsigned-imp other_width h = tt

  module _ {Variant : Type 0} where
    mutual
      unfolding Names

      Names-imp : (c : Content Variant) → Names A I M c → Names A' I' M' c
      Names-imp (variant available selected fs) h = NamesFields-imp fs h
      Names-imp (composite fs) h = NamesFields-imp fs h
      Names-imp (tuple cs) h = NamesContents-imp cs h
      Names-imp (sequence_regular cs) h = NamesContents-imp cs h
      Names-imp (account_id32 none) h = tt
      Names-imp (account_id32 (some a)) h = on_account a h
      Names-imp (era e) h = tt
      Names-imp (unsigned compact n specialty) h = NamesUnsigned-imp n h
      Names-imp (regular_bool b) h = tt
      Names-imp unread h = tt

      NamesFields-imp : (fs : Fields Variant) → NamesFields A I M fs → NamesFields A' I' M' fs
      NamesFields-imp end h = tt
      NamesFields-imp (field name c rest) (h, hs) = (Names-imp c h, NamesFields-imp rest hs)

      NamesContents-imp :
          (cs : Contents Variant) → NamesContents A I M cs → NamesContents A' I' M' cs
      NamesContents-imp nil h = tt
      NamesContents-imp (content c rest) (h, hs) = (Names-imp c h, NamesContents-imp rest hs)

    pub weaker-Names : (c : Content Variant) → Names A I M c → Names A' I' M' c
    weaker-Names c h = Names-imp c h

    pub weaker-Fresh : (filler : Filler Variant) → Fresh A I M filler → Fresh A' I' M' filler
    unfolding Fresh
    weaker-Fresh filler (call, taken) = (
      λ c e. Names-imp c (call c e),
      λ available i fs e. NamesFields-imp fs (taken available i fs e),
    )
