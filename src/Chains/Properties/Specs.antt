-- ===== src/Chains/Properties/Specs.antt =====
-- When src/chain/utils.rs accepts the properties of a chain.
use kalatori_backend.Prelude.{
  ℕ, String, ◌<◌, ◌≡◌, refl, sym, ap, ◌∙◌, ◌↔◌, Option, none, some, [], ◌∷◌, ok, bind-inv, ok-inj,
  arith,
}
use kalatori_backend.Errors.{ChainError}
use kalatori_backend.Chains.Properties.{
  View, number, string, array, object, other, Json, ShortSpecs, narrow, single_decimals,
  decimals_of, decimals_found, decimals, matching, prefix_of, prefix_found, base58prefix,
  single_unit, unit_of, unit_found, unit, system_properties_to_short_specs,
}

narrow_ok :
    (values : ℕ) (e : ChainError) (n : Option ℕ) (d : ℕ)
    → narrow values e n ≡ ok d
    → (n ≡ some d) × (d < values)
unfolding narrow
narrow_ok values e none d h = ground arith
narrow_ok values e (some n) d h = ground arith

module _ {Value : Type 0} (json : Json Value) where
  -- A value is, or is an array of just, a value that is seen in one way.
  pub data Shows (v : View Value) : Option Value → Type 0 where
    itself : {a : Value} → json.view a ≡ v → Shows v (some a)
    alone : {a b : Value} → json.view a ≡ array (b ∷ []) → json.view b ≡ v → Shows v (some a)

  single_decimals_ok :
      (e : ChainError) (v : View Value) (d : ℕ)
      → single_decimals json e v ≡ ok d
      → (v ≡ number (some d)) × (d < 256)
  unfolding single_decimals
  single_decimals_ok e (number n) d h =
      let (same, small) = narrow_ok 256 e n d h in (ap number same, small)
  single_decimals_ok e (string c) d h = ground arith
  single_decimals_ok e (array c) d h = ground arith
  single_decimals_ok e other d h = ground arith
  single_decimals_ok e (object o) d h = ground arith

  decimals_of_ok :
      (e : ChainError) (a : Value) (v : View Value) (d : ℕ)
      → json.view a ≡ v
      → decimals_of json e v ≡ ok d
      → Shows (number (some d)) (some a) × (d < 256)
  unfolding decimals_of
  decimals_of_ok e a (number n) d s h =
      let (same, small) = narrow_ok 256 e n d h in (itself (s ∙ ap number same), small)
  decimals_of_ok e a (array (b ∷ [])) d s h =
      let (same, small) = single_decimals_ok e (json.view b) d h in (alone s same, small)
  decimals_of_ok e a (array []) d s h = ground arith
  decimals_of_ok e a (array (b ∷ c ∷ r)) d s h = ground arith
  decimals_of_ok e a (string c) d s h = ground arith
  decimals_of_ok e a other d s h = ground arith
  decimals_of_ok e a (object o) d s h = ground arith

  decimals_found_ok :
      (found : Option Value) (d : ℕ)
      → decimals_found json found ≡ ok d
      → Shows (number (some d)) found × (d < 256)
  unfolding decimals_found
  decimals_found_ok none d h = ground arith
  decimals_found_ok (some a) d h = decimals_of_ok _ a (json.view a) d refl h

  decimals_shown :
      (found : Option Value) (d : ℕ)
      → Shows (number (some d)) found
      → d < 256
      → decimals_found json found ≡ ok d
  unfolding decimals_found decimals_of single_decimals narrow
  decimals_shown none d h small = elim h [ ]
  decimals_shown (some a) d (itself e) small = rw e (ground arith)
  decimals_shown (some a) d (alone e f) small = rw e (rw f (ground arith))

  single_unit_ok :
      (e : ChainError) (v : View Value) (u : String) → single_unit json e v ≡ ok u → v ≡ string u
  unfolding single_unit
  single_unit_ok e (string c) u h = ap string (ok-inj h)
  single_unit_ok e (number n) u h = ground arith
  single_unit_ok e (array c) u h = ground arith
  single_unit_ok e other u h = ground arith
  single_unit_ok e (object o) u h = ground arith

  unit_of_ok :
      (e : ChainError) (a : Value) (v : View Value) (u : String)
      → json.view a ≡ v
      → unit_of json e v ≡ ok u
      → Shows (string u) (some a)
  unfolding unit_of
  unit_of_ok e a (string b) u s h = itself (s ∙ ap string (ok-inj h))
  unit_of_ok e a (array (b ∷ [])) u s h = alone s (single_unit_ok e (json.view b) u h)
  unit_of_ok e a (array []) u s h = ground arith
  unit_of_ok e a (array (b ∷ c ∷ r)) u s h = ground arith
  unit_of_ok e a (number n) u s h = ground arith
  unit_of_ok e a other u s h = ground arith
  unit_of_ok e a (object o) u s h = ground arith

  unit_found_ok :
      (found : Option Value) (u : String) → unit_found json found ≡ ok u → Shows (string u) found
  unfolding unit_found
  unit_found_ok none u h = ground arith
  unit_found_ok (some a) u h = unit_of_ok _ a (json.view a) u refl h

  unit_shown :
      (found : Option Value) (u : String) → Shows (string u) found → unit_found json found ≡ ok u
  unfolding unit_found unit_of single_unit
  unit_shown none u h = elim h [ ]
  unit_shown (some a) u (itself e) = rw e refl
  unit_shown (some a) u (alone e f) = rw e (rw f refl)

  -- The prefix of the node, if there is one, is a number of 16 bits and that of the metadata, if
  -- there is one; one of them is there.
  pub data Prefix (p : ℕ) : Option Value → Option ℕ → Type 0 where
    of_node : {a : Value} → json.view a ≡ number (some p) → p < 65536 → Prefix p (some a) none
    of_metadata : {m : ℕ} → m ≡ p → Prefix p none (some m)
    of_both :
        {a : Value} {m : ℕ}
        → json.view a ≡ number (some p)
        → p < 65536
        → m ≡ p
        → Prefix p (some a) (some m)

  matching_ok :
      (a : Value) (meta : Option ℕ) (d p : ℕ)
      → json.view a ≡ number (some d)
      → d < 65536
      → matching json meta d ≡ ok p
      → Prefix p (some a) meta
  unfolding matching
  matching_ok a none d p s small h =
      of_node (s ∙ ap (λ n. number (some n)) (ok-inj h)) (rw (← ok-inj h) small)
  matching_ok a (some m) d p s small h =
      let e : d ≡ p = ground arith in
      let f : p ≡ m = ground arith in
      of_both (s ∙ ap (λ n. number (some n)) e) (rw (← e) small) (sym f)

  prefix_of_ok :
      (e : ChainError) (a : Value) (meta : Option ℕ) (v : View Value) (p : ℕ)
      → json.view a ≡ v
      → prefix_of json e meta v ≡ ok p
      → Prefix p (some a) meta
  unfolding prefix_of
  prefix_of_ok e a meta (number n) p s h =
      let (d, narrowed, matched) = bind-inv (narrow 65536 e n) (matching json meta) p h in
      let (same, small) = narrow_ok 65536 e n d narrowed in
      matching_ok a meta d p (s ∙ ap number same) small matched
  prefix_of_ok e a meta (string b) p s h = ground arith
  prefix_of_ok e a meta (array b) p s h = ground arith
  prefix_of_ok e a meta other p s h = ground arith
  prefix_of_ok e a meta (object o) p s h = ground arith

  prefix_found_ok :
      (meta : Option ℕ) (found : Option Value) (p : ℕ)
      → prefix_found json meta found ≡ ok p
      → Prefix p found meta
  unfolding prefix_found
  prefix_found_ok none none p h = ground arith
  prefix_found_ok (some m) none p h = of_metadata (ok-inj h)
  prefix_found_ok none (some a) p h = prefix_of_ok _ a none (json.view a) p refl h
  prefix_found_ok (some m) (some a) p h = prefix_of_ok _ a (some m) (json.view a) p refl h

  prefix_shown :
      (meta : Option ℕ) (found : Option Value) (p : ℕ)
      → Prefix p found meta
      → prefix_found json meta found ≡ ok p
  unfolding prefix_found prefix_of narrow matching
  prefix_shown none none p h = elim h [ ]
  prefix_shown none (some a) p (of_node e small) = rw e (ground arith)
  prefix_shown (some m) none p (of_metadata e) = ap ok e
  prefix_shown (some m) (some a) p (of_both e small same) = rw e (ground arith)

  -- The specs are those of the properties: the decimals are a number of 8 bits or an array of just
  -- such a number, the unit is a string or an array of just a string.
  pub record AreSpecs (x : String → Option Value) (meta : Option ℕ) (s : ShortSpecs) : Type 0 where
    pub prefix : Prefix s.base58prefix (x "ss58Format") meta
    pub decimals_shown : Shows (number (some s.decimals)) (x "tokenDecimals")
    pub small : s.decimals < 256
    pub unit_shown : Shows (string s.unit) (x "tokenSymbol")

  short_specs_ok :
      (x : String → Option Value) (meta : Option ℕ) (s : ShortSpecs)
      → system_properties_to_short_specs json x meta ≡ ok s
      → AreSpecs x meta s
  unfolding system_properties_to_short_specs base58prefix decimals unit
  short_specs_ok x meta s h =
      let (p, hp, h1) = bind-inv (base58prefix json x meta) _ s h in
      let (d, hd, h2) = bind-inv (decimals json x) _ s h1 in
      let (u, hu, h3) = bind-inv (unit json x) _ s h2 in
      let (shown, small) = decimals_found_ok (x "tokenDecimals") d hd in
      rw (← ok-inj h3) record {
        prefix = prefix_found_ok meta (x "ss58Format") p hp;
        decimals_shown = shown;
        small = small;
        unit_shown = unit_found_ok (x "tokenSymbol") u hu;
      }

  -- The properties of a chain, with the prefix that the metadata may hold, are accepted as specs
  -- exactly if these are the specs that they show: the prefix is a number of 16 bits in the
  -- properties, or stands in the metadata, and both agree if both have one; the decimals are a
  -- number of 8 bits, or an array of just one; the unit is a string, or an array of just one.
  pub short_specs_iff :
      (x : String → Option Value) (meta : Option ℕ) (s : ShortSpecs)
      → (system_properties_to_short_specs json x meta ≡ ok s) ↔ AreSpecs x meta s
  unfolding system_properties_to_short_specs base58prefix decimals unit
  short_specs_iff x meta s = (
    short_specs_ok x meta s,
    λ h. rw (prefix_shown meta (x "ss58Format") s.base58prefix h.prefix) (
        rw (decimals_shown (x "tokenDecimals") s.decimals h.decimals_shown h.small)
          (rw (unit_shown (x "tokenSymbol") s.unit h.unit_shown) refl)),
  )
