-- ===== src/Tests/Topology.antt =====
-- core/bootstrap/_processes.py: a primary and two workers behind one address.
use xime_framework.Prelude.{
  none, ℕ, ◌+◌, ◌*◌, ◌≡◌, refl, true, false, some, List, [], ◌∷◌, ◌==◌, if◌then◌else◌,
}
use xime_framework.Topology.{
  EndpointSpec, ProcessBlock, RawBlock, parse_topology, ok, err, private_address,
}
use xime_framework.Topology.Sound.{IsTopology}
use xime_framework.Topology.Adapters.{
  Adapter, share_other, share_none, replicated, overlapping_set, validate_against_adapters,
}
use xime_framework.Topology.Adapters.Served.{IsServed, validate_against_adapters-IsServed}
use xime_framework.Topology.Outcome.{parse_topology-IsTopology}

abbrev numbered : ℕ → ℕ → ℕ
numbered name index = name * 100 + index

abbrev web : EndpointSpec
web = record { key = 7; host = 0; address = some 8080; shared = true; options = λ _. [] }

abbrev raws : List RawBlock
raws =
    record { name = 1; count = 1; primary = true; endpoints = web ∷ [] }
    ∷ record { name = 2; count = 2; primary = false; endpoints = web ∷ [] }
    ∷ []

abbrev blocks : List ProcessBlock
blocks =
    record { process_id = 1; primary = true; endpoints = web ∷ [] }
    ∷ record { process_id = 201; primary = false; endpoints = web ∷ [] }
    ∷ record { process_id = 202; primary = false; endpoints = web ∷ [] }
    ∷ []

parse_topology-raws : parse_topology numbered raws ≡ ok blocks
unfolding parse_topology
parse_topology-raws = refl

parse_topology-private :
    parse_topology numbered (
      record {
        name = 2;
        count = 2;
        primary = false;
        endpoints = record web { shared = false } ∷ [];
      }
      ∷ [])
    ≡ err (private_address 2)
unfolding parse_topology
parse_topology-private = refl

parse_topology-IsTopology_example : IsTopology blocks
parse_topology-IsTopology_example =
    parse_topology-IsTopology numbered raws blocks parse_topology-raws

-- Two processes with a device each; an option named 5 holds the devices.
abbrev devices : List ℕ → EndpointSpec
devices values = record {
  key = 9;
  host = 0;
  address = none;
  shared = false;
  options = λ f. if f == 5 then values else [];
}

abbrev split_blocks : List ℕ → List ProcessBlock
split_blocks mine =
    record { process_id = 1; primary = true; endpoints = web ∷ devices mine ∷ [] }
    ∷ record { process_id = 2; primary = false; endpoints = web ∷ devices (33 ∷ []) ∷ [] }
    ∷ []

abbrev adapters : List Adapter
adapters =
    record {
      key = 7;
      strategy = share_other;
      scaling = replicated;
      unique_per_process = [];
      disjoint_per_process = [];
    }
    ∷ record {
      key = 9;
      strategy = share_none;
      scaling = replicated;
      unique_per_process = [];
      disjoint_per_process = 5 ∷ [];
    }
    ∷ []

validate_against_adapters-split :
    validate_against_adapters false true (split_blocks (11 ∷ 22 ∷ [])) adapters ≡ none
unfolding validate_against_adapters
validate_against_adapters-split = refl

-- A value that one process lists twice is refused as an overlap.
validate_against_adapters-twice :
    validate_against_adapters false true (split_blocks (11 ∷ 11 ∷ [])) adapters
    ≡ some (overlapping_set 5)
unfolding validate_against_adapters
validate_against_adapters-twice = refl

validate_against_adapters-IsServed_example :
    IsServed false true (split_blocks (11 ∷ 22 ∷ [])) adapters
validate_against_adapters-IsServed_example =
    validate_against_adapters-IsServed false true (split_blocks (11 ∷ 22 ∷ [])) adapters
      validate_against_adapters-split
