-- ===== src/Seeds/Removal.antt =====
-- `SeedEnvVars::parse` of src/arguments.rs: what is left in the environment.

use kalatori_backend.Prelude.{
  String, ◌≡◌, refl, sym, ap, ◌∙◌, Bool, true, false, Option, [], ◌∷◌, ok, if◌then◌else◌, Mem, here,
  there, arith, Bool-cases, inl, inr,
}
use kalatori_backend.Prelude.Exec
use kalatori_backend.Prelude.Exec.{Exec, exec-inv}
use kalatori_backend.Prelude.Lists.{list_eq, list_eq-≡, list_eq_refl}
use kalatori_backend.Hex.{Bytes}
use kalatori_backend.Seeds.{
  Vars, Found, Kind, seed_key, other_key, old_seed_key, kind_of, remove_var, on_var, on_vars,
}

is_secret : Kind → Bool
is_secret other_key = false
is_secret _ = true

-- the variables that are not about a seed
pub others : Vars → Vars
unfolding is_secret
others [] = []
others ((k, v) ∷ rest) = if is_secret (kind_of k) then others rest else (k, v) ∷ others rest

-- the variables after those that are read
step_env : Kind → Bytes → Vars → Vars
step_env other_key k env = env
step_env _ k env = remove_var k env

others-remove_var :
    (k : Bytes) (env : Vars) → is_secret (kind_of k) ≡ true → others (remove_var k env) ≡ others env
unfolding others remove_var
others-remove_var k [] h = refl
others-remove_var k ((j, v) ∷ rest) h =
    let ih = others-remove_var k rest h in
    elim (Bool-cases (list_eq j k)) [
      | inl same ↦ rw same (rw (list_eq-≡ j k same) (rw h ih))
      | inr other ↦ rw other (rw (ih) refl)
    ]

-- every secret of an environment is among the variables that the loop still reads
Covers : Vars → Vars → Type 0
Covers rest env =
    (k v : Bytes) → Mem (k, v) env → is_secret (kind_of k) ≡ true → (w : Bytes) × Mem (k, w) rest

Mem-front :
    (k j v i w : Bytes) (left rest : Vars)
    → list_eq i k ≡ false
    → (Mem (j, v) left → Mem (j, v) rest × (list_eq j k ≡ false))
    → Mem (j, v) ((i, w) ∷ left)
    → Mem (j, v) ((i, w) ∷ rest) × (list_eq j k ≡ false)
Mem-front k j v i w left rest other ih (here e) =
    (here e, rw (← ap (λ (x : Bytes × Bytes). x.0) e) other)
Mem-front k j v i w left rest other ih (there m) = let (m', apart) = ih m in (there m', apart)

Mem-remove_var :
    (k j v : Bytes) (env : Vars)
    → Mem (j, v) (remove_var k env)
    → Mem (j, v) env × (list_eq j k ≡ false)
unfolding remove_var
Mem-remove_var k j v [] m = elim m [ ]
Mem-remove_var k j v ((i, w) ∷ rest) m = elim (Bool-cases (list_eq i k)) [
  | inl same ↦ let (m', apart) = Mem-remove_var k j v rest (rw same at m) in (there m', apart)
  | inr other ↦
      Mem-front k j v i w (remove_var k rest) rest other (Mem-remove_var k j v rest) (rw other at m)
]

-- a variable of the front is elsewhere only if it has another name
after_front :
    (j k w x : Bytes) (rest : Vars)
    → list_eq j k ≡ false
    → Mem (j, x) ((k, w) ∷ rest)
    → (y : Bytes) × Mem (j, y) rest
after_front j k w x rest apart (here e) =
    let same = rw (← ap (λ (p : Bytes × Bytes). p.0) e) at apart in
    ground (arith, same, list_eq_refl k)
after_front j k w x rest apart (there m) = (x, m)

Covers-remove :
    (k w : Bytes) (rest env : Vars) → Covers ((k, w) ∷ rest) env → Covers rest (remove_var k env)
unfolding Covers
Covers-remove k w rest env covers j v m secret =
    let (m', apart) = Mem-remove_var k j v env m in
    let (x, at_k) = covers j v m' secret in after_front j k w x rest apart at_k

list_eq-secret :
    (j k : Bytes) (b : Bool)
    → is_secret (kind_of j) ≡ true
    → is_secret (kind_of k) ≡ false
    → list_eq j k ≡ b
    → b ≡ false
list_eq-secret j k false secret plain e = refl
list_eq-secret j k true secret plain e =
    let same = ap (λ x. is_secret (kind_of x)) (list_eq-≡ j k e) in
    ground (arith, secret, plain, same)

Covers-other :
    (k w : Bytes) (rest env : Vars)
    → is_secret (kind_of k) ≡ false
    → Covers ((k, w) ∷ rest) env
    → Covers rest env
unfolding Covers
Covers-other k w rest env plain covers j v m secret =
    let (x, at_k) = covers j v m secret in
    after_front j k w x rest (list_eq-secret j k (list_eq j k) secret plain refl) at_k

others-Covers : (env : Vars) → Covers [] env → others env ≡ env
unfolding others Covers
others-Covers [] covers = refl
others-Covers ((k, v) ∷ rest) covers =
    let ih = others-Covers rest (λ j x m. covers j x (there m)) in
    elim (Bool-cases (is_secret (kind_of k))) [
      | inl secret ↦ let (x, m) = covers k v (here refl) secret in elim m [ ]
      | inr plain ↦ rw plain (rw ih refl)
    ]

module _ (from_utf8 : Bytes → Option String) where
  front-others :
      (kind : Kind) (k v : Bytes) (rest : Vars) (found found' : Found) (env : Vars)
      → kind_of k ≡ kind
      → ((f : Found) (e : Vars)
          → (on_vars from_utf8 rest f e).0 ≡ ok found'
          → Covers rest e
          → (on_vars from_utf8 rest f e).1 ≡ others e)
      → (Exec.◌>>=◌ (on_var from_utf8 kind k v found) (λ x. on_vars from_utf8 rest x) env).0
        ≡ ok found'
      → Covers ((k, v) ∷ rest) env
      → (Exec.◌>>=◌ (on_var from_utf8 kind k v found) (λ x. on_vars from_utf8 rest x) env).1
        ≡ others env
  unfolding on_var is_secret
  front-others other_key k v rest found found' env e ih h covers =
      ih found env h (Covers-other k v rest env (ap is_secret e) covers)
  front-others seed_key k v rest found found' env e ih h covers =
      let (next, took, h') =
        exec-inv (on_var from_utf8 seed_key k v found) (on_vars from_utf8 rest) env found' h in
      rw took (ih next (remove_var k env) h' (Covers-remove k v rest env covers))
      ∙ others-remove_var k env (ap is_secret e)
  front-others (old_seed_key stripped) k v rest found found' env e ih h covers =
      let (next, took, h') =
        exec-inv (on_var from_utf8 (old_seed_key stripped) k v found) (on_vars from_utf8 rest) env
          found' h in
      rw took (ih next (remove_var k env) h' (Covers-remove k v rest env covers))
      ∙ others-remove_var k env (ap is_secret e)

  on_vars-others :
      (rest : Vars) (found found' : Found) (env : Vars)
      → (on_vars from_utf8 rest found env).0 ≡ ok found'
      → Covers rest env
      → (on_vars from_utf8 rest found env).1 ≡ others env
  unfolding on_vars
  on_vars-others [] found found' env h covers = sym (others-Covers env covers)
  on_vars-others ((k, v) ∷ rest) found found' env h covers =
      front-others (kind_of k) k v rest found found' env refl
        (λ f e. on_vars-others rest f found' e) h covers

  -- the loop over all the variables of the environment that it starts with
  pub on_vars-env :
      (env : Vars) (found found' : Found)
      → (on_vars from_utf8 env found env).0 ≡ ok found'
      → (on_vars from_utf8 env found env).1 ≡ others env
  unfolding Covers
  on_vars-env env found found' h = on_vars-others env found found' env h (λ k v m secret. (v, m))
