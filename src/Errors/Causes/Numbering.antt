-- ===== src/Errors/Causes/Numbering.antt =====
-- The lists of `pretty_cause` in src/error.rs are plain numberings.
use kalatori_backend.Prelude.{
  false, ℕ, ◌+◌, ◌≤◌, ◌<◌, ◌≡◌, refl, ◌∙◌, String, List, [], ◌∷◌, if◌then◌else◌, true, leb, ltb,
  ◌==◌, arith, Bool-cases, inl, inr,
}
use kalatori_backend.Errors.Causes.{
  overload, decimal, print_cause, next_number, overloaded, numbered, pretty_cause,
}

-- the label of the cause with a number
pub label : ℕ → String
label i = if leb i overload then decimal i else ">9999"

label_small : (i : ℕ) → i ≤ overload → label i ≡ decimal i
unfolding label
label_small i h = let e : leb i overload ≡ true = ground arith in rw e refl

label_large : (i : ℕ) → overload < i → label i ≡ ">9999"
unfolding label
label_large i h = let e : leb i overload ≡ false = ground arith in rw e refl

-- one line for every cause, from a number on
pub listing : String → ℕ → List String → String
listing f i [] = f
listing f i (cause ∷ rest) = listing (print_cause f cause (label i)) (i + 1) rest

overloaded-listing :
    (f : String) (i : ℕ) (cause : String) (rest : List String)
    → overload < i
    → overloaded f cause rest ≡ listing f i (cause ∷ rest)
unfolding overloaded listing
overloaded-listing f i cause [] h = rw (label_large i h) refl
overloaded-listing f i cause (source ∷ rest) h =
    rw (label_large i h)
      (overloaded-listing (print_cause f cause ">9999") (i + 1) source rest (omega arith))

next_number_small : (n : ℕ) → n ≤ overload → next_number n ≡ n + 1
unfolding next_number
next_number_small n h = let e : ltb n 65535 ≡ true = ground arith in rw e refl

listing_next :
    (f : String) (i : ℕ) (cause source : String) (rest : List String)
    → i ≤ overload
    → listing (print_cause f cause (decimal i)) (i + 1) (source ∷ rest)
      ≡ listing f i (cause ∷ source ∷ rest)
unfolding listing
listing_next f i cause source rest h = rw (label_small i h) refl

numbered-listing :
    (f : String) (n : ℕ) (cause : String) (rest : List String)
    → n ≤ overload
    → numbered f n cause rest ≡ listing f (n + 1) (cause ∷ rest)
unfolding numbered
numbered-listing f n cause [] h = elim (Bool-cases (n == overload)) [
  | inl last ↦ rw last (overloaded-listing f (n + 1) cause [] (ground arith))
  | inr more ↦
      rw more
        (unfold listing in rw (next_number_small n h, label_small (n + 1) (ground arith)) refl)
]
numbered-listing f n cause (source ∷ rest) h =
    let ih = numbered-listing (print_cause f cause (decimal (n + 1))) (n + 1) source rest in
    elim (Bool-cases (n == overload)) [
      | inl last ↦ rw last (overloaded-listing f (n + 1) cause (source ∷ rest) (ground arith))
      | inr more ↦
          let small : n + 1 ≤ overload = ground arith in
          rw (more, next_number_small n h)
            (ih small ∙ listing_next f (n + 1) cause source rest small)
    ]

-- The text of an error with two sources or more numbers them from 0 in the order of the sources, a
-- line for each; those after the number 9999 have the label ">9999".
pub pretty_cause-listing :
    (cause source : String) (rest : List String)
    → pretty_cause (cause ∷ source ∷ rest) ≡ listing "\n\nCaused by:" 0 (cause ∷ source ∷ rest)
unfolding pretty_cause
pretty_cause-listing cause source rest =
    numbered-listing (print_cause "\n\nCaused by:" cause (decimal 0)) 0 source rest (omega arith)
    ∙ listing_next "\n\nCaused by:" 0 cause source rest (omega arith)
