-- ===== src/Seeds/Origin.antt =====
-- `SeedEnvVars::parse` of src/arguments.rs: where the seed is from.
use Prim.Native.String.{◌++◌}
use kalatori_backend.Prelude.{
  String, ◌≡◌, refl, sym, ap, ◌∙◌, Option, none, some, [], ◌∷◌, ok, ok_or, Mem, here, there, arith,
  Bool-cases, inl, inr, ◌⊎◌, bind-inv, ok-inj, ok_or-inv,
}
use kalatori_backend.Prelude.Exec
use kalatori_backend.Prelude.Exec.{Exec, exec-inv}
use kalatori_backend.Prelude.Lists.{list_eq, list_eq-≡, strip}
use kalatori_backend.Errors.{seed_not_present, invalid_unicode_value, invalid_unicode_old_seed_key}
use kalatori_backend.Hex.{Bytes}
use kalatori_backend.Seeds.{
  old_kind, old_seed_bytes, Vars, seed_bytes, SeedEnvVars, Found, Kind, seed_key, other_key,
  old_seed_key, kind_of, remove_var, take_seed, take_old, on_var, on_vars, finished, parse,
}
use kalatori_backend.Seeds.Removal.{others, on_vars-env}

old_kind_apart : {A : Type 0} (o : Option Bytes) → old_kind o ≡ seed_key → A
unfolding old_kind
old_kind_apart none h = ground arith
old_kind_apart (some stripped) h = ground arith

kind_of_seed : (k : Bytes) → kind_of k ≡ seed_key → k ≡ seed_bytes
unfolding kind_of
kind_of_seed k h = elim (Bool-cases (list_eq k seed_bytes)) [
  | inl same ↦ list_eq-≡ k seed_bytes same
  | inr other ↦ old_kind_apart (strip old_seed_bytes k) (rw other at h)
]

module _ (from_utf8 : Bytes → Option String) where
  -- a seed that is found stands in the environment
  Stems : Vars → String → Type 0
  Stems env seed = (value : Bytes) × Mem (seed_bytes, value) env × (from_utf8 value ≡ some seed)

  take_seed_inv :
      (found next : Found) (v : Bytes) (seed : String)
      → take_seed from_utf8 found v ≡ ok next
      → next.seed_option ≡ some seed
      → from_utf8 v ≡ some seed
  unfolding take_seed
  take_seed_inv found next v seed h e =
      let (value, decoded, made) =
        bind-inv (ok_or (from_utf8 v) (invalid_unicode_value "KALATORI_SEED")) _ next h in
      ok_or-inv (from_utf8 v) _ value decoded ∙ ap (λ (x : Found). x.seed_option) (ok-inj made) ∙ e

  take_old_inv :
      (found next : Found) (stripped v : Bytes)
      → take_old from_utf8 found stripped v ≡ ok next
      → next.seed_option ≡ found.seed_option
  unfolding take_old
  take_old_inv found next stripped v h =
      let (key, _, h') =
        bind-inv (ok_or (from_utf8 stripped) invalid_unicode_old_seed_key) _ next h in
      let (value, _, made) =
        bind-inv (ok_or (from_utf8 v) (invalid_unicode_value ("KALATORI_OLD_SEED_" ++ key))) _ next
          h' in
      sym (ap (λ (x : Found). x.seed_option) (ok-inj made))

  later :
      (k v : Bytes) (rest : Vars) (seed : String) (found next : Option String)
      → next ≡ found
      → Stems rest seed ⊎ (next ≡ some seed)
      → Stems ((k, v) ∷ rest) seed ⊎ (found ≡ some seed)
  unfolding Stems
  later k v rest seed found next e (inl (value, m, decoded)) = inl (value, there m, decoded)
  later k v rest seed found next e (inr h) = inr (sym e ∙ h)

  front-Stems :
      (kind : Kind) (k v : Bytes) (rest : Vars) (found found' : Found) (env : Vars) (seed : String)
      → kind_of k ≡ kind
      → ((f : Found) (e : Vars)
          → (on_vars from_utf8 rest f e).0 ≡ ok found'
          → Stems rest seed ⊎ (f.seed_option ≡ some seed))
      → (Exec.◌>>=◌ (on_var from_utf8 kind k v found) (λ x. on_vars from_utf8 rest x) env).0
        ≡ ok found'
      → Stems ((k, v) ∷ rest) seed ⊎ (found.seed_option ≡ some seed)
  unfolding on_var Stems
  front-Stems other_key k v rest found found' env seed e ih h =
      later k v rest seed found.seed_option found.seed_option refl (ih found env h)
  front-Stems (old_seed_key stripped) k v rest found found' env seed e ih h =
      let (next, took, h') =
        exec-inv (on_var from_utf8 (old_seed_key stripped) k v found) (on_vars from_utf8 rest) env
          found' h in
      later k v rest seed found.seed_option next.seed_option
        (take_old_inv found next stripped v took) (ih next (remove_var k env) h')
  front-Stems seed_key k v rest found found' env seed e ih h =
      let (next, took, h') =
        exec-inv (on_var from_utf8 seed_key k v found) (on_vars from_utf8 rest) env found' h in
      elim (ih next (remove_var k env) h') [
        | inl stem ↦ let (value, m, decoded) = stem in inl (value, there m, decoded)
        | inr last ↦ inl (
          v,
          here (ap (λ x. (x, v)) (kind_of_seed k e)),
          take_seed_inv found next v seed took last,
        )
      ]

  on_vars-Stems :
      (rest : Vars) (found found' : Found) (env : Vars) (seed : String)
      → (on_vars from_utf8 rest found env).0 ≡ ok found'
      → found'.seed_option ≡ some seed
      → Stems rest seed ⊎ (found.seed_option ≡ some seed)
  unfolding on_vars
  on_vars-Stems [] found found' env seed h e =
      inr (ap (λ (x : Found). x.seed_option) (ok-inj h) ∙ e)
  on_vars-Stems ((k, v) ∷ rest) found found' env seed h e =
      front-Stems (kind_of k) k v rest found found' env seed refl
        (λ f env' h'. on_vars-Stems rest f found' env' seed h' e) h

  -- If the seeds are read, then what is left in the environment are the variables that are not about a
  -- seed, in their order, and the seed is the text of a variable `KALATORI_SEED` that stood in it.
  pub parse-others :
      (env : Vars) (seeds : SeedEnvVars)
      → (parse from_utf8 env).0 ≡ ok seeds
      → ((parse from_utf8 env).1 ≡ others env)
        × ((value : Bytes) × Mem (seed_bytes, value) env × (from_utf8 value ≡ some seeds.seed))
  unfolding parse finished Stems
  parse-others env seeds h =
      let first : Found = record { seed_option = none; old_seeds = [] } in
      let (found, read, end) =
        exec-inv (on_vars from_utf8 env first) (λ x s. (finished x, s)) env seeds h in
      let (seed, given, made) = bind-inv (ok_or found.seed_option seed_not_present) _ seeds end in
      let held =
        ok_or-inv found.seed_option _ seed given
        ∙ ap (λ (x : SeedEnvVars). some x.seed) (ok-inj made) in
      (
        rw read (on_vars-env from_utf8 env first found read),
        elim (on_vars-Stems env first found env seeds.seed read held) [
          | inl stem ↦ stem
          | inr absent ↦ ground arith
        ],
      )
