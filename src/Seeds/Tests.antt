-- ===== src/Seeds/Tests.antt =====
-- The theorem on `SeedEnvVars::parse` at an environment with both kinds of seeds.
use kalatori_backend.Prelude.{
  String, ◌≡◌, refl, Option, none, some, [], ◌∷◌, ok, Mem, if◌then◌else◌,
}
use kalatori_backend.Prelude.Map
use mathlib.Core.List.{◌++◌}
use kalatori_backend.Prelude.Lists.{list_eq, strip}
use kalatori_backend.Hex.{Bytes}
use kalatori_backend.Seeds.{Vars, SeedEnvVars, seed_bytes, old_seed_bytes, kind_of, parse}
use kalatori_backend.Seeds.Removal.{others}
use kalatori_backend.Seeds.Origin.{parse-others}

-- what is read of three values in UTF-8
unfoldable texts : Bytes → Option String
texts b = if list_eq b (97 ∷ []) then some "a" else if list_eq b (98 ∷ []) then some "b" else none

abbrev environment : Vars
environment =
    (72 ∷ [], 255 ∷ []) ∷ (seed_bytes, 97 ∷ []) ∷ (old_seed_bytes ++ (97 ∷ []), 98 ∷ []) ∷ []

abbrev seeds : SeedEnvVars
seeds = record { seed = "a"; old_seeds = ("a", "b") ∷ [] }

parse_test : (parse texts environment).0 ≡ ok seeds
unfolding parse texts kind_of list_eq strip Map.insert
parse_test = refl

parse-others_example :
    ((parse texts environment).1 ≡ others environment)
    × ((value : Bytes) × Mem (seed_bytes, value) environment × (texts value ≡ some "a"))
parse-others_example = parse-others texts environment seeds parse_test
