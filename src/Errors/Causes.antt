-- ===== src/Errors/Causes.antt =====
-- `pretty_cause` of src/error.rs: the list of the sources of an error. An error is here the list of
-- the texts that its sources display, from the first to the last; a formatter is what was written.
pub mod Numbering
use Prim.Native.String.{◌++◌, count, slice}
use kalatori_backend.Prelude.{
  ℕ, zero, suc, ◌+◌, ◌-◌, ◌/◌, ◌%◌, String, List, [], ◌∷◌, if◌then◌else◌, ltb, ◌==◌,
}

abbrev pub overload : ℕ
overload = 9999

digit : ℕ → String
digit n = slice "0123456789" n (n + 1)

-- the last digits of a number
digits : ℕ → ℕ → String
unfolding digit
digits zero n = ""
digits (suc k) n =
    let front = digits k (n / 10) in if ltb n 10 then digit n else front ++ digit (n % 10)

-- `Display for u16`, at most five digits
unfoldable pub decimal : ℕ → String
unfolding digits
decimal n = digits 5 n

spaces : ℕ → String
spaces zero = ""
spaces (suc n) = " " ++ spaces n

-- `{:>5}`
unfoldable pub aligned : String → String
unfolding spaces
aligned text = spaces (5 - count text) ++ text

unfoldable pub print_cause : String → String → String → String
unfolding aligned
print_cause f cause number = f ++ "\n" ++ aligned number ++ ": " ++ cause ++ "."

-- `u16::saturating_add(1)`
unfoldable pub next_number : ℕ → ℕ
next_number n = if ltb n 65535 then n + 1 else 65535

-- the second loop, at a cause and its sources
overloaded : String → String → List String → String
unfolding print_cause
overloaded f cause [] = print_cause f cause ">9999"
overloaded f cause (source ∷ rest) = overloaded (print_cause f cause ">9999") source rest

-- the first loop
numbered : String → ℕ → String → List String → String
unfolding print_cause next_number decimal overloaded
numbered f number cause [] =
    if number == overload
    then overloaded f cause []
    else print_cause f cause (decimal (next_number number))
numbered f number cause (source ∷ rest) =
    let further =
      numbered (print_cause f cause (decimal (next_number number))) (next_number number) source
        rest in
    if number == overload then overloaded f cause (source ∷ rest) else further

-- `Display for Wrapper`
unfoldable pub pretty_cause : List String → String
unfolding print_cause decimal numbered
pretty_cause [] = ""
pretty_cause (cause ∷ []) = "\n\nCaused by:" ++ " " ++ cause ++ "."
pretty_cause (cause ∷ source ∷ rest) =
    numbered (print_cause "\n\nCaused by:" cause (decimal 0)) 0 source rest
