-- ===== src/Hex/Roundtrip.antt =====
-- Block hashes go to texts and back.
use Prim.Native.String.{◌++◌}
use kalatori_backend.Prelude.{
  if◌then◌else◌, String, ◌≡◌, refl, ap, some, ok, err, arith, length, ◌==◌, eq_refl, Bool-cases,
  inl, inr, ok-inj, bind-inv, map_err,
}
use text.Mathlib.TextPositions.{slice-append_left, slice-append_right, len-append}
use kalatori_backend.Errors.{NotHex, block_hash_length, util}
use kalatori_backend.Hex.{
  Bytes, HexCoder, BlockHash, strip_prefix, stripped, unhex, to_string, sized, from_str,
}

strip_prefix-append : (prefix text : String) → strip_prefix prefix (prefix ++ text) ≡ some text
unfolding strip_prefix
strip_prefix-append prefix text =
    rw (slice-append_left prefix text, eq_refl prefix, len-append prefix text)
      (ap some (slice-append_right prefix text))

module _ (hex : HexCoder) where
  -- Let the coder decode what it encodes for a block hash. If the hash has 32 bytes, it is read back
  -- from its text; if it has any other length, this is refused.
  pub from_str-to_string :
      (h : BlockHash)
      → hex.decode (hex.encode h.bytes) ≡ some h.bytes
      → from_str hex (to_string hex h)
        ≡ (if length h.bytes == 32 then ok h else err block_hash_length)
  unfolding from_str to_string unhex sized stripped
  from_str-to_string h inverse =
      rw (strip_prefix-append "0x" (hex.encode h.bytes)) (rw inverse refl)

  sized-length : (raw : Bytes) (h : BlockHash) → sized hex raw ≡ ok h → length h.bytes ≡ 32
  unfolding sized
  sized-length raw h e = elim (Bool-cases (length raw == 32)) [
    | inl full ↦
        let same : record { bytes = raw } ≡ h = ok-inj (rw full at e) in rw (← same) (ground arith)
    | inr short ↦ absurd (ground arith)
  ]

  -- a text is read as a block hash of 32 bytes
  pub from_str-length : (s : String) (h : BlockHash) → from_str hex s ≡ ok h → length h.bytes ≡ 32
  unfolding from_str
  from_str-length s h e =
      let (raw, _, read) =
        bind-inv (map_err util (unhex hex s NotHex.block_hash)) (sized hex) h e in
      sized-length raw h read
