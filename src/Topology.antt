-- ===== src/Topology.antt =====
-- core/bootstrap/_processes.py: from the processes of a configuration to the topology. Values have
-- the types that the parser asks for; an id, a key (kind, adapter id), a host and an address are
-- numbers, and how a name and an index make an id is a parameter.
pub mod Sound
pub mod Outcome
pub mod Adapters
use xime_framework.Prelude.{
  ℕ, zero, suc, ◌+◌, Bool, true, false, not, ◌&&◌, ◌||◌, Option, none, some, List, [], ◌∷◌, ◌++◌,
  ◌==◌, leb, ltb, if◌then◌else◌, length, keep, map, contains, dedup,
}

-- `address` is `none` when the endpoint does not listen; an option is the list of its values.
pub record EndpointSpec : Type 0 where
  pub key : ℕ
  pub host : ℕ
  pub address : Option ℕ
  pub shared : Bool
  pub options : ℕ → List ℕ

pub record ProcessBlock : Type 0 where
  pub process_id : ℕ
  pub primary : Bool
  pub endpoints : List EndpointSpec

-- A block of the configuration.
pub record RawBlock : Type 0 where
  pub name : ℕ
  pub count : ℕ
  pub primary : Bool
  pub endpoints : List EndpointSpec

pub data TopologyError : Type 0 where
  empty_processes no_primary : TopologyError
  invalid_count primary_on_count private_address duplicate_address duplicate_id : ℕ → TopologyError
  multiple_primaries : List ℕ → TopologyError
  missing_shared different_hosts different_adapters : ℕ → TopologyError

pub data Parsed {ℓ} (A : Type ℓ) : Type ℓ where
  ok : A → Parsed A
  err : TopologyError → Parsed A

-- `check` first, then the rest.
abbrev pub unless {ℓ} : {A : Type ℓ} → Option TopologyError → Parsed A → Parsed A
unless none rest = rest
unless (some e) rest = err e

abbrev pub bind {ℓ κ} : {A : Type ℓ} {B : Type κ} → Parsed A → (A → Parsed B) → Parsed B
bind (ok a) f = f a
bind (err e) f = err e

-- The addresses that endpoints listen on.
abbrev pub addresses : List EndpointSpec → List ℕ
addresses [] = []
addresses (spec ∷ specs) = elim spec.address [
  | none ↦ addresses specs
  | some a ↦ a ∷ addresses specs
]

-- The first value that comes again.
abbrev pub find_repeated : List ℕ → List ℕ → Bool
find_repeated seen [] = false
find_repeated seen (a ∷ rest) = contains seen a || find_repeated (a ∷ seen) rest

abbrev pub reject_duplicate_endpoint : ℕ → List EndpointSpec → Option TopologyError
reject_duplicate_endpoint process_id endpoints =
    if find_repeated [] (addresses endpoints) then some (duplicate_address process_id) else none

abbrev pub is_private : EndpointSpec → Bool
is_private spec = elim spec.address [ none ↦ false | some _ ↦ not spec.shared ]

abbrev pub any_private : List EndpointSpec → Bool
any_private [] = false
any_private (spec ∷ specs) = is_private spec || any_private specs

unfoldable pub parse_block : ℕ → Bool → List EndpointSpec → Parsed ProcessBlock
parse_block process_id primary endpoints =
    unless (reject_duplicate_endpoint process_id endpoints)
      (ok (record { process_id = process_id; primary = primary; endpoints = endpoints }))

abbrev pub reject_unshared_ports : ℕ → RawBlock → Option TopologyError
reject_unshared_ports process_id raw =
    if not (process_id == raw.name) && any_private raw.endpoints
    then some (private_address raw.name)
    else none

module _ (numbered : ℕ → ℕ → ℕ) where
  -- `[(f"{name}-{index}", False) for index in range(1, count + 1)]`
  abbrev pub numbered_from : ℕ → ℕ → ℕ → List (ℕ × Bool)
  numbered_from name i zero = []
  numbered_from name i (suc n) = (numbered name i, false) ∷ numbered_from name (i + 1) n

  unfoldable pub expand_count : RawBlock → Parsed (List (ℕ × Bool))
  expand_count raw =
      if ltb raw.count 1
      then err (invalid_count raw.name)
      else if raw.count == 1
      then ok ((raw.name, raw.primary) ∷ [])
      else if raw.primary
      then err (primary_on_count raw.name)
      else ok (numbered_from raw.name 1 raw.count)

  unfoldable pub parse_expanded : RawBlock → List (ℕ × Bool) → Parsed (List ProcessBlock)
  unfolding parse_block
  parse_expanded raw [] = ok []
  parse_expanded raw ((process_id, primary) ∷ rest) =
      bind (parse_block process_id primary raw.endpoints) (λ block.
        unless (reject_unshared_ports process_id raw)
          (bind (parse_expanded raw rest) (λ blocks. ok (block ∷ blocks))))

  unfoldable pub parse_blocks : List RawBlock → Parsed (List ProcessBlock)
  unfolding expand_count parse_expanded
  parse_blocks [] = ok []
  parse_blocks (raw ∷ rest) = bind (expand_count raw) (λ expanded.
      bind (parse_expanded raw expanded)
        (λ blocks. bind (parse_blocks rest) (λ others. ok (blocks ++ others))))

abbrev pub ids_of : List ProcessBlock → List ℕ
ids_of blocks = map (λ block. block.process_id) blocks

-- The first id that comes again.
abbrev pub repeated_id : List ℕ → List ℕ → Option TopologyError
repeated_id seen [] = none
repeated_id seen (p ∷ rest) =
    if contains seen p then some (duplicate_id p) else repeated_id (p ∷ seen) rest

abbrev pub reject_duplicate_ids : List ProcessBlock → Option TopologyError
reject_duplicate_ids blocks = repeated_id [] (ids_of blocks)

abbrev pub primaries : List ProcessBlock → List ℕ
primaries blocks = ids_of (keep (λ block. block.primary) blocks)

abbrev pub require_exactly_one : List ℕ → Option TopologyError
require_exactly_one [] = some no_primary
require_exactly_one (p ∷ []) = none
require_exactly_one (p ∷ q ∷ ps) = some (multiple_primaries (p ∷ q ∷ ps))

abbrev pub all_endpoints : List ProcessBlock → List EndpointSpec
all_endpoints [] = []
all_endpoints (block ∷ blocks) = block.endpoints ++ all_endpoints blocks

abbrev pub listens_on : ℕ → EndpointSpec → Bool
listens_on a spec = elim spec.address [ none ↦ false | some b ↦ b == a ]

-- groups[a]
abbrev pub group : ℕ → List EndpointSpec → List EndpointSpec
group a specs = keep (listens_on a) specs

abbrev pub all_specs : (EndpointSpec → Bool) → List EndpointSpec → Bool
all_specs p [] = true
all_specs p (spec ∷ specs) = p spec && all_specs p specs

-- The checks of a group of at least two.
abbrev pub conflict : ℕ → List EndpointSpec → Option TopologyError
conflict a [] = none
conflict a (spec ∷ []) = none
conflict a (spec ∷ other ∷ specs) =
    if not (all_specs (λ s. s.shared) (spec ∷ other ∷ specs))
    then some (missing_shared a)
    else if not (all_specs (λ s. s.host == spec.host) (other ∷ specs))
    then some (different_hosts a)
    else if not (all_specs (λ s. s.key == spec.key) (other ∷ specs))
    then some (different_adapters a)
    else none

abbrev pub first_conflict : List ℕ → List EndpointSpec → Option TopologyError
first_conflict [] specs = none
first_conflict (a ∷ as') specs = elim (conflict a (group a specs)) [
  | some e ↦ some e
  | none ↦ first_conflict as' specs
]

abbrev pub reject_conflicting_endpoints : List ProcessBlock → Option TopologyError
reject_conflicting_endpoints blocks =
    let specs = all_endpoints blocks in first_conflict (dedup (addresses specs)) specs

-- The checks of the blocks together.
unfoldable pub check_blocks : List ProcessBlock → Parsed (List ProcessBlock)
check_blocks blocks = unless (reject_duplicate_ids blocks) (
    unless (require_exactly_one (primaries blocks))
      (unless (reject_conflicting_endpoints blocks) (ok blocks)))

unfoldable pub parse_topology : (ℕ → ℕ → ℕ) → List RawBlock → Parsed (List ProcessBlock)
unfolding check_blocks parse_blocks
parse_topology numbered [] = err empty_processes
parse_topology numbered (raw ∷ rest) = bind (parse_blocks numbered (raw ∷ rest)) check_blocks
