-- ===== src/Definitions/Floats.antt =====
-- The comparison `<` of `f64`, on bit patterns: a sign bit, 11 bits of exponent, 52 of mantissa.
use kalatori_backend.Prelude.{
  ℕ, ◌%◌, ◌^◌, ◌≡◌, refl, Bool, true, false, ltb, leb, ◌==◌, if◌then◌else◌, not, ◌||◌, ◌&&◌,
}
use kalatori_backend.Definitions.{F64}

abbrev sign_bit : ℕ
sign_bit = 2 ^ 63

abbrev magnitude : F64 → ℕ
magnitude x = x % sign_bit

-- above the pattern of infinity
unfoldable pub is_nan : F64 → Bool
is_nan x = ltb 0x7ff0000000000000 (magnitude x)

abbrev is_negative : F64 → Bool
is_negative x = leb sign_bit x && not (magnitude x == 0)

-- a NaN is neither less nor greater than anything, and the two zeros are equal
unfoldable pub f64_lt : F64 → F64 → Bool
unfolding is_nan
f64_lt a b =
    if is_nan a || is_nan b
    then false
    else if is_negative a
    then (if is_negative b then ltb (magnitude b) (magnitude a) else true)
    else if is_negative b
    then false
    else ltb (magnitude a) (magnitude b)

-- 0.05 < 0.07, not 2.0 < 0.07, -1.0 < 0.07, not -0.0 < 0.0, not NaN < 0.07
lt_table :
    (f64_lt 0x3fa999999999999a 0x3fb1eb851eb851ec ≡ true)
    × (f64_lt 0x4000000000000000 0x3fb1eb851eb851ec ≡ false)
    × (f64_lt 0xbff0000000000000 0x3fb1eb851eb851ec ≡ true)
    × (f64_lt 0x8000000000000000 0 ≡ false)
    × (f64_lt 0x7ff8000000000000 0x3fb1eb851eb851ec ≡ false)
unfolding f64_lt
lt_table = (refl, refl, refl, refl, refl)
