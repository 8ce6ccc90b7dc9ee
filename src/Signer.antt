-- ===== src/Signer.antt =====
-- src/signer.rs: the worker that holds the seed. Key derivation and the word list are third-party
-- code (`substrate_crypto_light`, `mnemonic_external`), the parameter `Crypto`.
pub mod Keys
use kalatori_backend.Prelude.{
  ℕ, String, Bool, true, false, Option, none, some, List, [], ◌∷◌, Result, ok, err, map_err, ◌>>=◌,
  str_eq, if◌then◌else◌,
}
use kalatori_backend.Errors.{SignerError, signer_down, invalid_seed, invalid_derivation}
use kalatori_backend.Definitions.{AccountId32}

abbrev pub Entropy : Type 0
Entropy = List ℕ

-- `FullDerivation`, whose junctions here are all hard.
pub record FullDerivation : Type 0 where
  pub junctions : List String
  pub password : Option String

pub record Crypto (Pair WordSet : Type 0) : Type 0 where
  pub no_words : WordSet
  pub add_word : WordSet → String → Result String WordSet
  pub to_entropy : WordSet → Result String Entropy
  pub derive : Entropy → FullDerivation → Result String Pair
  pub public_key : Pair → AccountId32
  pub sign_with : Pair → List ℕ → List ℕ
  pub to_base58_string : AccountId32 → ℕ → String
  -- the address, and the prefix found beside it
  pub from_base58_string : String → Result String (AccountId32 × ℕ)
  -- `str::split(' ')`
  pub split_words : String → List String

-- The worker: the entropy while it runs, `none` once its task has ended.
pub record Signer : Type 0 where
  pub recipient : AccountId32
  pub seed_entropy : Option Entropy

unfoldable pub derivations : String → String → FullDerivation
derivations recipient order = record { junctions = recipient ∷ order ∷ []; password = none }

module _ {Pair WordSet : Type 0} (c : Crypto Pair WordSet) where
  add_words : WordSet → List String → Result SignerError WordSet
  add_words w [] = ok w
  add_words w (word ∷ words) = do w' ← map_err invalid_seed (c.add_word w word); add_words w' words

  unfoldable pub entropy_from_phrase : String → Result SignerError Entropy
  unfolding add_words
  entropy_from_phrase seed = do
    w ← add_words c.no_words (c.split_words seed)
    map_err invalid_seed (c.to_entropy w)

  -- the worker, and the error that its task ends with at once if the phrase is not accepted
  started_worker : AccountId32 → Result SignerError Entropy → Signer × Option SignerError
  started_worker recipient (ok e) = (record { recipient = recipient; seed_entropy = some e }, none)
  started_worker recipient (err e) = (record { recipient = recipient; seed_entropy = none }, some e)

  -- the phrase is read by the task, so `Signer::init` itself does not fail
  unfoldable pub init : AccountId32 → String → Signer × Option SignerError
  unfolding entropy_from_phrase started_worker
  init recipient seed = started_worker recipient (entropy_from_phrase seed)

  -- the derivation that `PublicKey` and `Sign` share; a worker that is gone drops the request
  pair_of : Signer → String → Result SignerError Pair
  unfolding derivations
  pair_of s id = elim s.seed_entropy [
    | none ↦ err signer_down
    | some e ↦
        map_err invalid_derivation (c.derive e (derivations (c.to_base58_string s.recipient 2) id))
  ]

  unfoldable pub public : Signer → String → ℕ → Result SignerError String
  unfolding pair_of
  public s id ss58 = do pair ← pair_of s id; ok (c.to_base58_string (c.public_key pair) ss58)

  unfoldable pub sign : Signer → String → List ℕ → Result SignerError (List ℕ)
  unfolding pair_of
  sign s id signable = do pair ← pair_of s id; ok (c.sign_with pair signable)

unfoldable pub shutdown : Signer → Signer
shutdown s = record s { seed_entropy = none }
