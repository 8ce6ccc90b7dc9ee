-- ===== src/Errors/Tests.antt =====
-- `pretty_cause` of src/error.rs at three sources, as its tests have them.
use kalatori_backend.Prelude.{◌≡◌, refl, ◌∷◌, []}
use kalatori_backend.Errors.Causes.{pretty_cause, print_cause, decimal, next_number}
use kalatori_backend.Errors.Causes.Numbering.{listing, pretty_cause-listing}

three :
    pretty_cause ("TestError(2)" ∷ "TestError(1)" ∷ "TestError(0)" ∷ [])
    ≡ "\n\nCaused by:\n    0: TestError(2).\n    1: TestError(1).\n    2: TestError(0)."
unfolding pretty_cause print_cause decimal next_number
three = refl

pretty_cause-listing_example :
    pretty_cause ("TestError(2)" ∷ "TestError(1)" ∷ "TestError(0)" ∷ [])
    ≡ listing "\n\nCaused by:" 0 ("TestError(2)" ∷ "TestError(1)" ∷ "TestError(0)" ∷ [])
pretty_cause-listing_example =
    pretty_cause-listing "TestError(2)" "TestError(1)" ("TestError(0)" ∷ [])
