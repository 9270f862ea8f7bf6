-- ===== src/Topology/Outcome.antt =====
-- core/bootstrap/_processes.py: what parse_topology returns.
use xime_framework.Prelude.{ℕ, ◌≡◌, Bool, List, [], ◌∷◌, All, All-append, subst}
use xime_framework.Topology.{
  ProcessBlock, RawBlock, ok, parse_block, expand_count, reject_unshared_ports, parse_expanded,
  parse_blocks, ids_of, reject_duplicate_ids, primaries, require_exactly_one,
  reject_conflicting_endpoints, check_blocks, parse_topology,
}
use xime_framework.Topology.Sound.{
  OwnAddresses, IsTopology, unless-ok, bind-ok, ok_unique, find_repeated-IsDistinct,
  repeated_id-find_repeated, require_exactly_one-some, parse_block-OwnAddresses,
  reject_conflicting-Agree,
}

check_blocks-IsTopology :
    (blocks result : List ProcessBlock)
    → All OwnAddresses blocks
    → check_blocks blocks ≡ ok result
    → IsTopology result
unfolding check_blocks
check_blocks-IsTopology blocks result own e =
    let (ids, e') = unless-ok (reject_duplicate_ids blocks) _ result e in
    let (one, e'') = unless-ok (require_exactly_one (primaries blocks)) _ result e' in
    let (agree, e''') = unless-ok (reject_conflicting_endpoints blocks) (ok blocks) result e'' in
    subst IsTopology (ok_unique e''') (record {
      distinct =
          find_repeated-IsDistinct (ids_of blocks) []
            (repeated_id-find_repeated (ids_of blocks) [] ids);
      primary = require_exactly_one-some (primaries blocks) one;
      own = own;
      agree = reject_conflicting-Agree blocks agree;
    })

module _ (numbered : ℕ → ℕ → ℕ) where
  parse_expanded-own :
      (raw : RawBlock) (expanded : List (ℕ × Bool)) (blocks : List ProcessBlock)
      → parse_expanded numbered raw expanded ≡ ok blocks
      → All OwnAddresses blocks
  unfolding parse_expanded
  parse_expanded-own raw [] blocks e = subst (All OwnAddresses) (ok_unique e) tt
  parse_expanded-own raw ((process_id, primary) ∷ rest) blocks e =
      let (block, parsed, e') = bind-ok (parse_block process_id primary raw.endpoints) _ blocks e in
      let (_, e'') = unless-ok (reject_unshared_ports process_id raw) _ blocks e' in
      let (others, more, e''') = bind-ok (parse_expanded numbered raw rest) _ blocks e'' in
      subst (All OwnAddresses) (ok_unique e''') (
        parse_block-OwnAddresses process_id primary raw.endpoints block parsed,
        parse_expanded-own raw rest others more,
      )

  parse_blocks-own :
      (raws : List RawBlock) (blocks : List ProcessBlock)
      → parse_blocks numbered raws ≡ ok blocks
      → All OwnAddresses blocks
  unfolding parse_blocks
  parse_blocks-own [] blocks e = subst (All OwnAddresses) (ok_unique e) tt
  parse_blocks-own (raw ∷ rest) blocks e =
      let (expanded, _, e') = bind-ok (expand_count numbered raw) _ blocks e in
      let (own, parsed, e'') = bind-ok (parse_expanded numbered raw expanded) _ blocks e' in
      let (others, more, e''') = bind-ok (parse_blocks numbered rest) _ blocks e'' in
      subst (All OwnAddresses) (ok_unique e''') (
        All-append OwnAddresses own others (parse_expanded-own raw expanded own parsed)
          (parse_blocks-own rest others more))

  -- A topology that is parsed has different ids, one primary process, in each process no two endpoints
  -- on one address, and where several endpoints listen on one address all declare it shared, on one
  -- host, and belong to one adapter.
  pub parse_topology-IsTopology :
      (raws : List RawBlock) (blocks : List ProcessBlock)
      → parse_topology numbered raws ≡ ok blocks
      → IsTopology blocks
  unfolding parse_topology
  parse_topology-IsTopology [] blocks e = absurd (cc)
  parse_topology-IsTopology (raw ∷ rest) blocks e =
      let (parsed, own, checked) =
        bind-ok (parse_blocks numbered (raw ∷ rest)) check_blocks blocks e in
      check_blocks-IsTopology parsed blocks (parse_blocks-own (raw ∷ rest) parsed own) checked
