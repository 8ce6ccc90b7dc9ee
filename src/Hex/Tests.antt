-- ===== src/Hex/Tests.antt =====
-- A coder for hexadecimal texts, and the block hash of 32 times 0xfe.
use Prim.Native.String.{◌++◌, slice, len}
use kalatori_backend.Prelude.{
  ℕ, zero, suc, ◌+◌, ◌*◌, ◌/◌, ◌%◌, String, ◌≡◌, refl, Option, none, some, [], ◌∷◌, ok, str_eq,
  if◌then◌else◌,
}
use kalatori_backend.Hex.{Bytes, HexCoder, from_str, to_string}
use kalatori_backend.Hex.Roundtrip.{from_str-to_string}

abbrev table : String
table = "0123456789abcdef"

encode : Bytes → String
encode [] = ""
encode (b ∷ raw) =
    slice table (b / 16) (b / 16 + 1) ++ slice table (b % 16) (b % 16 + 1) ++ encode raw

-- the value of a digit, looked for from the last one
value : ℕ → String → Option ℕ
value zero digit = none
value (suc n) digit =
    let below = value n digit in if str_eq (slice table n (n + 1)) digit then some n else below

pair : Option ℕ → Option ℕ → Option Bytes → Option Bytes
pair (some h) (some l) (some raw) = some ((16 * h + l) ∷ raw)
pair _ _ _ = none

decode_from : ℕ → String → Option Bytes
unfolding value pair
decode_from zero text = some []
decode_from (suc k) text =
    pair (value 16 (slice text 0 1)) (value 16 (slice text 1 2))
      (decode_from k (slice text 2 (len text)))

abbrev coder : HexCoder
unfolding encode decode_from
coder = record { encode = encode; decode = λ text. decode_from (len text / 2) text }

repeat : ℕ → Bytes
repeat zero = []
repeat (suc n) = 0xfe ∷ repeat n

from_str-to_string_example :
    from_str coder (to_string coder (record { bytes = repeat 32 }))
    ≡ ok (record { bytes = repeat 32 })
unfolding repeat encode decode_from value pair
from_str-to_string_example = from_str-to_string coder (record { bytes = repeat 32 }) refl
