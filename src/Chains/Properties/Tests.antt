-- ===== src/Chains/Properties/Tests.antt =====
-- The specs of a chain, from the properties of Statemint.
use kalatori_backend.Prelude.{
  ℕ, String, ◌≡◌, refl, ◌↔◌, none, some, Option, [], ◌∷◌, ok, str_eq, if◌then◌else◌,
}
use kalatori_backend.Chains.Properties.{
  number, string, array, Json, ShortSpecs, decimals, base58prefix, unit,
  system_properties_to_short_specs,
}
use kalatori_backend.Chains.Properties.Specs.{AreSpecs, short_specs_iff}

data Value : Type 0 where
  num : ℕ → Value
  text : String → Value
  one : Value → Value

abbrev json : Json Value
json = record {
  view = elim [ num n ↦ number (some n) | text s ↦ string s | one v ↦ array (v ∷ []) ];
  to_string = λ v. "a value";
}

abbrev statemint : String → Option Value
statemint key =
    if str_eq key "tokenDecimals"
    then some (one (num 10))
    else if str_eq key "tokenSymbol"
    then some (one (text "DOT"))
    else none

abbrev dot_specs : ShortSpecs
dot_specs = record { base58prefix = 0; decimals = 10; unit = "DOT" }

-- the prefix comes from the metadata
accepted : system_properties_to_short_specs json statemint (some 0) ≡ ok dot_specs
unfolding system_properties_to_short_specs decimals base58prefix unit
accepted = refl

short_specs_iff_example :
    (system_properties_to_short_specs json statemint (some 0) ≡ ok dot_specs)
    ↔ AreSpecs json statemint (some 0) dot_specs
short_specs_iff_example = short_specs_iff json statemint (some 0) dot_specs
