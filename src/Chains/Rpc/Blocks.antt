-- ===== src/Chains/Rpc/Blocks.antt =====
-- The block hashes that src/chain/rpc.rs accepts.
use kalatori_backend.Prelude.Exec.{exec-inv}
use kalatori_backend.Prelude.{String, ◌≡◌, Option, some, ok, length, arith, inl, inr, ◌⊎◌, [], ◌∷◌}
use kalatori_backend.Errors.{ChainError, genesis_hash_format, block_hash_format}
use kalatori_backend.Hex.{HexCoder, BlockHash}
use kalatori_backend.Hex.Roundtrip.{from_str-length}
use kalatori_backend.Chains.Properties.{View, string, array, object, other, number, Json}
use kalatori_backend.Chains.Rpc.{
  WsClient, Yield, hash_of, call, genesis_hash, block_hash, number_param, next_block,
  next_block_number, head, broken, ended, num,
}

module _ {W Value : Type 0} (ws : WsClient W Value) (json : Json Value) (hex : HexCoder) where
  hash_of-length :
      (e : ChainError) (v : View Value) (h : BlockHash)
      → hash_of ws json hex e v ≡ ok h
      → length h.bytes ≡ 32
  unfolding hash_of
  hash_of-length e (string x) h r = from_str-length hex x h r
  hash_of-length e (array x) h r = ground arith
  hash_of-length e (object x) h r = ground arith
  hash_of-length e (number x) h r = ground arith
  hash_of-length e other h r = ground arith

  genesis_hash-length :
      (w : W) (h : BlockHash) → (genesis_hash ws json hex w).0 ≡ ok h → length h.bytes ≡ 32
  unfolding genesis_hash
  genesis_hash-length w h r =
      let (v, _, read) = exec-inv (call ws json hex "chain_getBlockHash" (num 0 ∷ [])) _ w h r in
      hash_of-length genesis_hash_format (json.view v) h read

  block_hash-length :
      (n : Option String) (w : W) (h : BlockHash)
      → (block_hash ws json hex n w).0 ≡ ok h
      → length h.bytes ≡ 32
  unfolding block_hash
  block_hash-length n w h r =
      let (v, _, read) =
        exec-inv (call ws json hex "chain_getBlockHash" (number_param ws json hex n)) _ w h r in
      hash_of-length block_hash_format (json.view v) h read

  -- If the genesis hash, the hash of a block or that of the next finalized block is read, then it has
  -- 32 bytes.
  pub hashes_sized :
      (n : Option String) (yielded : Yield) (w : W) (h : BlockHash)
      → ((genesis_hash ws json hex w).0 ≡ ok h)
        ⊎ ((block_hash ws json hex n w).0 ≡ ok h)
        ⊎ ((next_block ws json hex yielded w).0 ≡ ok h)
      → length h.bytes ≡ 32
  unfolding next_block next_block_number
  hashes_sized n yielded w h (inl r) = genesis_hash-length w h r
  hashes_sized n yielded w h (inr (inl r)) = block_hash-length n w h r
  hashes_sized n (head m) w h (inr (inr r)) = block_hash-length (some m) w h r
  hashes_sized n (broken e) w h (inr (inr r)) = ground arith
  hashes_sized n ended w h (inr (inr r)) = ground arith
