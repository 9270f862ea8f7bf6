-- ===== src/Topology/Adapters.antt =====
-- core/bootstrap/_supervisor.py: the topology against the adapters of the application.
-- An option of an endpoint is the list of its values, one for a plain value and none for no option.
pub mod Served
use xime_framework.Prelude.{
  ℕ, zero, suc, ◌+◌, Bool, true, false, not, ◌&&◌, ◌||◌, Option, none, some, List, [], ◌∷◌, ◌++◌,
  ◌==◌, leb, ltb, if◌then◌else◌, length, keep, map, contains, dedup,
}
use xime_framework.Topology.{EndpointSpec, ProcessBlock, all_endpoints, find_repeated}

pub data Strategy : Type 0 where
  share_none share_reuseport share_other : Strategy

pub data Scaling : Type 0 where
  replicated sharded singleton : Scaling

pub record Adapter : Type 0 where
  pub key : ℕ
  pub strategy : Strategy
  pub scaling : Scaling
  pub unique_per_process : List ℕ
  pub disjoint_per_process : List ℕ

pub data AdapterError : Type 0 where
  unknown_endpoint runs_nowhere sharded_adapters : List ℕ → AdapterError
  cannot_share not_on_windows repeated_value overlapping_set singleton_elsewhere : ℕ → AdapterError

abbrev pub spec_keys : List EndpointSpec → List ℕ
spec_keys specs = map (λ spec. spec.key) specs

abbrev pub declared_keys : List ProcessBlock → List ℕ
declared_keys blocks = dedup (spec_keys (all_endpoints blocks))

abbrev pub adapter_keys : List Adapter → List ℕ
adapter_keys adapters = map (λ adapter. adapter.key) adapters

-- `index[adapter.key] = adapter`
abbrev pub put_adapter : Adapter → List Adapter → List Adapter
put_adapter adapter [] = adapter ∷ []
put_adapter adapter (a ∷ as') =
    if a.key == adapter.key then adapter ∷ as' else a ∷ put_adapter adapter as'

-- _index, with the adapters indexed before
abbrev pub index_on : List Adapter → List Adapter → List Adapter
index_on known [] = known
index_on known (a ∷ as') = index_on (put_adapter a known) as'

abbrev pub index : List Adapter → List Adapter
index adapters = index_on [] adapters

abbrev pub or_else : Option AdapterError → Option AdapterError → Option AdapterError
or_else none next = next
or_else (some e) next = some e

abbrev pub none_of : (List ℕ → AdapterError) → List ℕ → Option AdapterError
none_of make [] = none
none_of make (k ∷ ks) = some (make (k ∷ ks))

abbrev pub reject_unknown_endpoints : List ProcessBlock → List Adapter → Option AdapterError
reject_unknown_endpoints blocks adapters =
    none_of unknown_endpoint
      (keep (λ k. not (contains (adapter_keys (index adapters)) k)) (declared_keys blocks))

abbrev pub reject_adapters_nobody_runs : List ProcessBlock → List Adapter → Option AdapterError
reject_adapters_nobody_runs blocks adapters =
    none_of runs_nowhere
      (keep (λ k. not (contains (declared_keys blocks) k)) (adapter_keys adapters))

abbrev pub find_adapter : ℕ → List Adapter → Option Adapter
find_adapter k [] = none
find_adapter k (a ∷ as') = if a.key == k then some a else find_adapter k as'

-- The strategy of the adapter of a key; a key that is not known has none.
abbrev pub strategy_of : Option Adapter → Strategy
strategy_of none = share_none
strategy_of (some a) = a.strategy

abbrev pub refuse_strategy : Bool → ℕ → Strategy → Option AdapterError
refuse_strategy windows k share_none = some (cannot_share k)
refuse_strategy windows k share_reuseport = if windows then some (not_on_windows k) else none
refuse_strategy windows k share_other = none

unfoldable pub sharing_each : Bool → List Adapter → List EndpointSpec → Option AdapterError
sharing_each windows known [] = none
sharing_each windows known (spec ∷ specs) =
    or_else
      (if spec.shared
        then refuse_strategy windows spec.key (strategy_of (find_adapter spec.key known))
        else none)
      (sharing_each windows known specs)

-- The endpoints of a key, one for each process that has it.
abbrev pub specs_of : ℕ → List ProcessBlock → List EndpointSpec
specs_of k blocks = keep (λ spec. spec.key == k) (all_endpoints blocks)

-- The values of an option in all those endpoints.
abbrev pub values_of : ℕ → List EndpointSpec → List ℕ
values_of field [] = []
values_of field (spec ∷ specs) = spec.options field ++ values_of field specs

abbrev pub each_field : (ℕ → AdapterError) → List ℕ → List EndpointSpec → Option AdapterError
each_field make [] specs = none
each_field make (field ∷ fields) specs =
    or_else (if find_repeated [] (values_of field specs) then some (make field) else none)
      (each_field make fields specs)

abbrev pub sharding_of : Adapter → List EndpointSpec → Option AdapterError
sharding_of adapter specs =
    if ltb (length specs) 2
    then none
    else or_else (each_field repeated_value adapter.unique_per_process specs)
        (each_field overlapping_set adapter.disjoint_per_process specs)

unfoldable pub sharding_each : List ProcessBlock → List Adapter → Option AdapterError
sharding_each blocks [] = none
sharding_each blocks (a ∷ as') =
    or_else (sharding_of a (specs_of a.key blocks)) (sharding_each blocks as')

abbrev pub is_singleton : Scaling → Bool
is_singleton singleton = true
is_singleton _ = false

abbrev pub is_sharded : Scaling → Bool
is_sharded sharded = true
is_sharded _ = false

-- Some process that is not primary has the key. One process alone is primary.
abbrev pub any_elsewhere : ℕ → List ProcessBlock → Bool
any_elsewhere k [] = false
any_elsewhere k (block ∷ blocks) =
    (contains (spec_keys block.endpoints) k && not block.primary) || any_elsewhere k blocks

unfoldable pub singleton_each : List ProcessBlock → List Adapter → Option AdapterError
singleton_each blocks [] = none
singleton_each blocks (a ∷ as') =
    or_else
      (if is_singleton a.scaling && any_elsewhere a.key blocks
        then some (singleton_elsewhere a.key)
        else none)
      (singleton_each blocks as')

abbrev pub reject_sharded : Bool → List Adapter → Option AdapterError
reject_sharded share_load adapters =
    if share_load
    then none_of sharded_adapters (adapter_keys (keep (λ a. is_sharded a.scaling) adapters))
    else none

unfoldable pub validate_against_adapters :
    Bool → Bool → List ProcessBlock → List Adapter → Option AdapterError
unfolding sharing_each sharding_each singleton_each
validate_against_adapters windows share_load blocks adapters =
    or_else (reject_unknown_endpoints blocks adapters) (
      or_else (reject_adapters_nobody_runs blocks adapters) (
        or_else (sharing_each windows (index adapters) (all_endpoints blocks)) (
          or_else (sharding_each blocks (index adapters)) (
            or_else (singleton_each blocks (index adapters))
              (reject_sharded share_load adapters)))))
