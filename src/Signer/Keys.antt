-- ===== src/Signer/Keys.antt =====
-- The keys of src/signer.rs.
use kalatori_backend.Prelude.{
  ℕ, String, ◌≡◌, some, none, List, [], ◌∷◌, ok, arith, Option-cases, Result-cases, inl, inr,
}
use kalatori_backend.Signer.{Crypto, Signer, Entropy, derivations, public, sign}

module _ {Pair WordSet : Type 0} (c : Crypto Pair WordSet) where
  -- If the worker gives an address for an order, it holds an entropy, and there is a pair that is
  -- derived from it without a password by two hard junctions: the recipient's address under prefix 2,
  -- and then the order ID. The pair has this address under the prefix asked for, and signs every
  -- message for the order.
  pub sign-public :
      (s : Signer) (id : String) (ss58 : ℕ) (account : String)
      → public c s id ss58 ≡ ok account
      → (e : Entropy) × (pair : Pair) × (s.seed_entropy ≡ some e)
        × (c.derive e
              (record { junctions = c.to_base58_string s.recipient 2 ∷ id ∷ []; password = none })
            ≡ ok pair)
        × (account ≡ c.to_base58_string (c.public_key pair) ss58)
        × ((m : List ℕ) → sign c s id m ≡ ok (c.sign_with pair m))
  unfolding public sign derivations
  sign-public s id ss58 account h = elim (Option-cases s.seed_entropy) [
    | inl gone ↦ absurd (ground arith)
    | inr (e, held) ↦
        elim (Result-cases (c.derive e (derivations (c.to_base58_string s.recipient 2) id))) [
          | inl (pair, derived) ↦ (e, pair, held, derived, ground arith, λ m. ground arith)
          | inr (x, refused) ↦ absurd (ground arith)
        ]
  ]
