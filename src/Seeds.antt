-- ===== src/Seeds.antt =====
-- `SeedEnvVars::parse` of src/arguments.rs: the seeds are taken out of the environment. A key or a value
-- is the list of its bytes; `from_utf8` is that of the standard library.
pub mod Removal
pub mod Origin
mod Tests
use Prim.Native.String.{◌++◌}
use kalatori_backend.Prelude.{
  ℕ, String, Bool, true, false, not, Option, none, some, List, [], ◌∷◌, Result, ok, err, ok_or,
  ◌>>=◌, if◌then◌else◌,
}
use kalatori_backend.Prelude.Map
use kalatori_backend.Prelude.Map.{Map}
use kalatori_backend.Prelude.Exec
use kalatori_backend.Prelude.Exec.{Exec, lift}
use kalatori_backend.Prelude.Lists.{list_eq, strip}
use kalatori_backend.Errors.{
  SeedEnvError, invalid_unicode_value, invalid_unicode_old_seed_key, seed_not_present,
}
use kalatori_backend.Hex.{Bytes}

-- the variables of a process, in the order in which they are listed
abbrev pub Vars : Type 0
Vars = List (Bytes × Bytes)

-- the bytes of `KALATORI_SEED`
abbrev pub seed_bytes : Bytes
seed_bytes = 75 ∷ 65 ∷ 76 ∷ 65 ∷ 84 ∷ 79 ∷ 82 ∷ 73 ∷ 95 ∷ 83 ∷ 69 ∷ 69 ∷ 68 ∷ []

-- the bytes of `KALATORI_OLD_SEED_`
abbrev pub old_seed_bytes : Bytes
old_seed_bytes =
    75 ∷ 65 ∷ 76 ∷ 65 ∷ 84 ∷ 79 ∷ 82 ∷ 73 ∷ 95 ∷ 79 ∷ 76 ∷ 68 ∷ 95 ∷ 83 ∷ 69 ∷ 69 ∷ 68 ∷ 95 ∷ []

pub record SeedEnvVars : Type 0 where
  pub seed : String
  pub old_seeds : Map String

-- `seed_option` and `old_seeds` of the loop
pub record Found : Type 0 where
  pub seed_option : Option String
  pub old_seeds : Map String

-- the match on a key
pub data Kind : Type 0 where
  seed_key other_key : Kind
  old_seed_key : Bytes → Kind

old_kind : Option Bytes → Kind
old_kind none = other_key
old_kind (some stripped) = old_seed_key stripped

unfoldable pub kind_of : Bytes → Kind
unfolding old_kind
kind_of raw_key =
    if list_eq raw_key seed_bytes then seed_key else old_kind (strip old_seed_bytes raw_key)

-- `env::remove_var`
unfoldable pub remove_var : Bytes → Vars → Vars
remove_var key [] = []
remove_var key ((k, v) ∷ rest) =
    if list_eq k key then remove_var key rest else (k, v) ∷ remove_var key rest

finished : Found → Result SeedEnvError SeedEnvVars
finished found = do
  seed ← ok_or found.seed_option seed_not_present
  ok (record { seed = seed; old_seeds = found.old_seeds })

module _ (from_utf8 : Bytes → Option String) where
  take_seed : Found → Bytes → Result SeedEnvError Found
  take_seed found raw_value = do
    value ← ok_or (from_utf8 raw_value) (invalid_unicode_value "KALATORI_SEED")
    ok (record found { seed_option = some value })

  take_old : Found → Bytes → Bytes → Result SeedEnvError Found
  take_old found stripped raw_value = do
    key ← ok_or (from_utf8 stripped) invalid_unicode_old_seed_key
    value ← ok_or (from_utf8 raw_value) (invalid_unicode_value ("KALATORI_OLD_SEED_" ++ key))
    ok (record found { old_seeds = Map.insert key value found.old_seeds })

  on_var : Kind → Bytes → Bytes → Found → Exec Vars SeedEnvError Found
  unfolding take_seed take_old
  on_var seed_key raw_key raw_value found env = (take_seed found raw_value, remove_var raw_key env)
  on_var (old_seed_key stripped) raw_key raw_value found env =
      (take_old found stripped raw_value, remove_var raw_key env)
  on_var other_key raw_key raw_value found env = (ok found, env)

  -- the loop over the variables
  unfoldable pub on_vars : Vars → Found → Exec Vars SeedEnvError Found
  unfolding on_var
  on_vars [] found = Exec.pure found
  on_vars ((raw_key, raw_value) ∷ rest) found =
      Exec.◌>>=◌ (on_var (kind_of raw_key) raw_key raw_value found) λ x. on_vars rest x

  -- the environment is the state
  unfoldable pub parse : Exec Vars SeedEnvError SeedEnvVars
  unfolding on_vars finished
  parse env =
      Exec.◌>>=◌ (on_vars env (record { seed_option = none; old_seeds = [] }))
        (λ found. lift (finished found)) env
