-- ===== src/Topology/Adapters/Served.antt =====
-- core/bootstrap/_supervisor.py: what holds of a topology that was accepted for the adapters.
use xime_framework.Prelude.{
  ℕ, ◌≤◌, ◌≡◌, refl, Bool, true, false, not, Option, none, some, List, [], ◌∷◌, arith, ltb,
  if◌then◌else◌, length, keep, contains, IsDistinct, All,
}
use xime_framework.Topology.{EndpointSpec, ProcessBlock, all_endpoints}
use xime_framework.Topology.Sound.{find_repeated-IsDistinct}
use xime_framework.Topology.Adapters.{
  Strategy, share_none, share_reuseport, share_other, Adapter, AdapterError, unknown_endpoint,
  runs_nowhere, sharded_adapters, singleton_elsewhere, repeated_value, overlapping_set, spec_keys,
  declared_keys, adapter_keys, index, or_else, none_of, reject_unknown_endpoints,
  reject_adapters_nobody_runs, find_adapter, strategy_of, refuse_strategy, sharing_each, specs_of,
  values_of, each_field, sharding_of, sharding_each, is_singleton, is_sharded, any_elsewhere,
  singleton_each, reject_sharded, validate_against_adapters,
}

-- An adapter that shares an address, on this system.
abbrev pub CanShare : Bool → Strategy → Type 0
CanShare windows share_none = ⊥
CanShare windows share_reuseport = windows ≡ false
CanShare windows share_other = Unit

-- What is configured for one adapter in several processes is not repeated.
abbrev pub IsSplit : List ProcessBlock → Adapter → Type 0
IsSplit blocks a =
    2 ≤ length (specs_of a.key blocks)
    → All (λ field. IsDistinct (values_of field (specs_of a.key blocks))) a.unique_per_process
      × All (λ field. IsDistinct (values_of field (specs_of a.key blocks))) a.disjoint_per_process

-- A singleton adapter is configured in the primary process only.
abbrev pub IsAlone : List ProcessBlock → Adapter → Type 0
IsAlone blocks a =
    is_singleton a.scaling ≡ true
    → All
        (λ (block : ProcessBlock).
          contains (spec_keys block.endpoints) a.key ≡ true → block.primary ≡ true)
        blocks

pub record IsServed (windows share_load : Bool) (blocks : List ProcessBlock)
    (adapters : List Adapter) : Type 0 where
  pub known : All (λ k. contains (adapter_keys (index adapters)) k ≡ true) (declared_keys blocks)
  pub used : All (λ k. contains (declared_keys blocks) k ≡ true) (adapter_keys adapters)
  pub shared :
      All
        (λ (spec : EndpointSpec).
          spec.shared ≡ true
          → CanShare windows (strategy_of (find_adapter spec.key (index adapters))))
        (all_endpoints blocks)
  pub split : All (IsSplit blocks) (index adapters)
  pub alone : All (IsAlone blocks) (index adapters)
  pub replicated : share_load ≡ true → All (λ (a : Adapter). is_sharded a.scaling ≡ false) adapters

or_else-none : (c d : Option AdapterError) → or_else c d ≡ none → (c ≡ none) × (d ≡ none)
or_else-none none d e = (refl, e)
or_else-none (some f) d e = absurd (cc)

none_of-All :
    (make : List ℕ → AdapterError) (p : ℕ → Bool) (ks : List ℕ)
    → none_of make (keep (λ k. not (p k)) ks) ≡ none
    → All (λ k. p k ≡ true) ks
none_of-All make p [] e = tt
none_of-All make p (k ∷ ks) e = by_test (p k) refl (none_of-All make p ks) e
  where
    by_test :
        (b : Bool)
        → p k ≡ b
        → (none_of make (keep (λ j. not (p j)) ks) ≡ none → All (λ j. p j ≡ true) ks)
        → none_of make (if not b then k ∷ keep (λ j. not (p j)) ks else keep (λ j. not (p j)) ks)
          ≡ none
        → All (λ j. p j ≡ true) (k ∷ ks)
    by_test true f rest g = (f, rest g)
    by_test false f rest g = absurd (cc)

-- A check that found nothing.
unless_some : (b : Bool) (f : AdapterError) → (if b then some f else none) ≡ none → b ≡ false
unless_some true f e = absurd (cc)
unless_some false f e = refl

refuse_strategy-CanShare :
    (windows : Bool) (k : ℕ) (s : Strategy)
    → refuse_strategy windows k s ≡ none
    → CanShare windows s
refuse_strategy-CanShare windows k share_none e = absurd (cc)
refuse_strategy-CanShare windows k share_reuseport e = unless_some windows _ e
refuse_strategy-CanShare windows k share_other e = tt

sharing_each-All :
    (windows : Bool) (known : List Adapter) (specs : List EndpointSpec)
    → sharing_each windows known specs ≡ none
    → All
        (λ (spec : EndpointSpec).
          spec.shared ≡ true → CanShare windows (strategy_of (find_adapter spec.key known)))
        specs
unfolding sharing_each
sharing_each-All windows known [] e = tt
sharing_each-All windows known (spec ∷ specs) e =
    let (first, rest) = or_else-none _ (sharing_each windows known specs) e in
    (by_test spec.shared first, sharing_each-All windows known specs rest)
  where
    own : Strategy
    own = strategy_of (find_adapter spec.key known)

    by_test :
        (b : Bool)
        → (if b then refuse_strategy windows spec.key own else none) ≡ none
        → b ≡ true
        → CanShare windows own
    by_test true f _ = refuse_strategy-CanShare windows spec.key own f
    by_test false f g = absurd (cc)

each_field-All :
    (make : ℕ → AdapterError) (fields : List ℕ) (specs : List EndpointSpec)
    → each_field make fields specs ≡ none
    → All (λ field. IsDistinct (values_of field specs)) fields
each_field-All make [] specs e = tt
each_field-All make (field ∷ fields) specs e =
    let (first, rest) = or_else-none _ (each_field make fields specs) e in
    (
      find_repeated-IsDistinct (values_of field specs) [] (unless_some _ (make field) first),
      each_field-All make fields specs rest,
    )

sharding_of-IsSplit :
    (blocks : List ProcessBlock) (a : Adapter)
    → sharding_of a (specs_of a.key blocks) ≡ none
    → IsSplit blocks a
sharding_of-IsSplit blocks a e several = by_test (ltb (length specs) 2) (ground (arith, several)) e
  where
    specs : List EndpointSpec
    specs = specs_of a.key blocks

    by_test :
        (b : Bool)
        → b ≡ false
        → (if b
            then none
            else or_else
                (each_field repeated_value a.unique_per_process specs)
                (each_field overlapping_set a.disjoint_per_process specs))
          ≡ none
        → All (λ field. IsDistinct (values_of field specs)) a.unique_per_process
          × All (λ field. IsDistinct (values_of field specs)) a.disjoint_per_process
    by_test true f g = absurd (cc)
    by_test false f g =
        let (unique, disjoint) =
          or_else-none _ (each_field overlapping_set a.disjoint_per_process specs) g in
        (
          each_field-All repeated_value a.unique_per_process specs unique,
          each_field-All overlapping_set a.disjoint_per_process specs disjoint,
        )

sharding_each-All :
    (blocks : List ProcessBlock) (as' : List Adapter)
    → sharding_each blocks as' ≡ none
    → All (IsSplit blocks) as'
unfolding sharding_each
sharding_each-All blocks [] e = tt
sharding_each-All blocks (a ∷ as') e =
    let (first, rest) = or_else-none _ (sharding_each blocks as') e in
    (sharding_of-IsSplit blocks a first, sharding_each-All blocks as' rest)

any_elsewhere-All :
    (k : ℕ) (blocks : List ProcessBlock)
    → any_elsewhere k blocks ≡ false
    → All
        (λ (block : ProcessBlock).
          contains (spec_keys block.endpoints) k ≡ true → block.primary ≡ true)
        blocks
any_elsewhere-All k [] e = tt
any_elsewhere-All k (block ∷ blocks) e =
    ((λ h. ground (arith, e, h)), any_elsewhere-All k blocks (ground (arith, e)))

singleton_each-All :
    (blocks : List ProcessBlock) (as' : List Adapter)
    → singleton_each blocks as' ≡ none
    → All (IsAlone blocks) as'
unfolding singleton_each
singleton_each-All blocks [] e = tt
singleton_each-All blocks (a ∷ as') e =
    let (first, rest) = or_else-none _ (singleton_each blocks as') e in
    let missing = unless_some _ (singleton_elsewhere a.key) first in
    (
      (λ single. any_elsewhere-All a.key blocks (ground (arith, missing, single))),
      singleton_each-All blocks as' rest,
    )

reject_sharded-All :
    (share_load : Bool) (adapters : List Adapter)
    → reject_sharded share_load adapters ≡ none
    → share_load ≡ true
    → All (λ (a : Adapter). is_sharded a.scaling ≡ false) adapters
reject_sharded-All false adapters e h = absurd (cc)
reject_sharded-All true [] e h = tt
reject_sharded-All true (a ∷ as') e h =
    by_test (is_sharded a.scaling) refl (λ f. reject_sharded-All true as' f h) e
  where
    by_test :
        (b : Bool)
        → is_sharded a.scaling ≡ b
        → (reject_sharded true as' ≡ none → All (λ (c : Adapter). is_sharded c.scaling ≡ false) as')
        → none_of sharded_adapters (
            adapter_keys (
              if b
              then a ∷ keep (λ c. is_sharded c.scaling) as'
              else keep (λ c. is_sharded c.scaling) as'))
          ≡ none
        → All (λ (c : Adapter). is_sharded c.scaling ≡ false) (a ∷ as')
    by_test true f rest g = absurd (cc)
    by_test false f rest g = (f, rest g)

-- A topology that is accepted names only adapters of the application, and each of them somewhere;
-- shares addresses only of adapters that can share, on this system; repeats no value that an adapter
-- must have once across several processes; has singleton adapters in the primary process only; and
-- under share_load no adapter is sharded.
pub validate_against_adapters-IsServed :
    (windows share_load : Bool) (blocks : List ProcessBlock) (adapters : List Adapter)
    → validate_against_adapters windows share_load blocks adapters ≡ none
    → IsServed windows share_load blocks adapters
unfolding validate_against_adapters
validate_against_adapters-IsServed windows share_load blocks adapters e =
    let (unknown, e1) = or_else-none (reject_unknown_endpoints blocks adapters) _ e in
    let (nowhere, e2) = or_else-none (reject_adapters_nobody_runs blocks adapters) _ e1 in
    let (sharing, e3) =
      or_else-none (sharing_each windows (index adapters) (all_endpoints blocks)) _ e2 in
    let (sharding, e4) = or_else-none (sharding_each blocks (index adapters)) _ e3 in
    let (single, e5) =
      or_else-none (singleton_each blocks (index adapters)) (reject_sharded share_load adapters)
        e4 in
    record {
      known =
          none_of-All unknown_endpoint (contains (adapter_keys (index adapters)))
            (declared_keys blocks) unknown;
      used =
          none_of-All runs_nowhere (contains (declared_keys blocks)) (adapter_keys adapters)
            nowhere;
      shared = sharing_each-All windows (index adapters) (all_endpoints blocks) sharing;
      split = sharding_each-All blocks (index adapters) sharding;
      alone = singleton_each-All blocks (index adapters) single;
      replicated = reject_sharded-All share_load adapters e5;
    }
