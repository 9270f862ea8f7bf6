-- ===== src/Container/Graph.antt =====
-- core/container/graph.py: the dependency graph and Kahn's algorithm over it.
-- A class is a number, as Python's classes are told apart by identity. A map from classes is a
-- function; a class that is no node has no dependency, and the loops look up nodes only.
pub mod Reverse
pub mod Kahn
pub mod Cycles
pub mod Order
pub mod Rules
use xime_framework.Prelude.{
  ℕ, zero, suc, ◌≡◌, Bool, Option, none, some, List, [], ◌∷◌, ◌++◌, map, ◌==◌, if◌then◌else◌,
  length, keep, contains, dedup,
}
use xime_framework.Prelude.Int.{ℤ, pos, pred_ℤ, is_zero}

-- {cls: {param: type}}, in insertion order
abbrev pub ResolvedMap : Type 0
ResolvedMap = List (ℕ × List (ℕ × ℕ))

-- {cls: set of classes it directly depends on}
abbrev pub AdjacencyMap : Type 0
AdjacencyMap = ℕ → List ℕ

abbrev pub keys : ResolvedMap → List ℕ
keys resolved = map (λ entry. entry.0) resolved

abbrev pub deps_of : ResolvedMap → ℕ → List (ℕ × ℕ)
deps_of [] cls = []
deps_of ((key, deps) ∷ rest) cls = if key == cls then deps else deps_of rest cls

pub record DependencyGraph : Type 0 where
  pub order : List ℕ
  pub edges : AdjacencyMap
  pub dependents : AdjacencyMap

-- `{dep for dep in deps.values() if dep in self._nodes}`
unfoldable pub known_deps : List ℕ → List (ℕ × ℕ) → List ℕ
known_deps nodes deps = dedup (keep (contains nodes) (map (λ dep. dep.1) deps))

-- `self._dependents[dep].append(cls)`
abbrev pub append_at : AdjacencyMap → ℕ → ℕ → AdjacencyMap
append_at dependents dep cls j = if dep == j then dependents j ++ cls ∷ [] else dependents j

unfoldable pub note_deps : ℕ → List ℕ → AdjacencyMap → AdjacencyMap
note_deps cls [] dependents = dependents
note_deps cls (dep ∷ deps) dependents = note_deps cls deps (append_at dependents dep cls)

unfoldable pub reverse_map : AdjacencyMap → List ℕ → AdjacencyMap → AdjacencyMap
reverse_map edges [] dependents = dependents
reverse_map edges (cls ∷ rest) dependents =
    reverse_map edges rest (note_deps cls (edges cls) dependents)

unfoldable pub dependents_of : AdjacencyMap → List ℕ → AdjacencyMap
unfolding reverse_map note_deps
dependents_of edges order = reverse_map edges order (λ _. [])

unfoldable pub build : ResolvedMap → DependencyGraph
unfolding known_deps dependents_of
build resolved =
    let order = keys resolved in
    let edges : AdjacencyMap = λ cls. known_deps order (deps_of resolved cls) in
    record { order = order; edges = edges; dependents = dependents_of edges order }

abbrev pub assign : (ℕ → ℤ) → ℕ → ℤ → ℕ → ℤ
assign dep_count cls c j = if cls == j then c else dep_count j

-- The inner `for dependent in self._dependents[node]`.
unfoldable pub release : List ℕ → (ℕ → ℤ) → List ℕ → (ℕ → ℤ) × List ℕ
release [] dep_count queue = (dep_count, queue)
release (d ∷ ds) dep_count queue =
    let c = pred_ℤ (dep_count d) in
    release ds (assign dep_count d c) (if is_zero c then queue ++ d ∷ [] else queue)

-- `while queue`, on fuel; `none` means that the fuel ran out.
unfoldable pub drain : ℕ → AdjacencyMap → (ℕ → ℤ) → List ℕ → List ℕ → Option (List ℕ)
unfolding release
drain zero dependents dep_count queue result = none
drain (suc fuel) dependents dep_count [] result = some result
drain (suc fuel) dependents dep_count (node ∷ queue) result =
    let (dep_count', queue') = release (dependents node) dep_count queue in
    drain fuel dependents dep_count' queue' (result ++ node ∷ [])

abbrev pub initial_count : AdjacencyMap → ℕ → ℤ
initial_count edges n = pos (length (edges n))

unfoldable pub kahn : List ℕ → AdjacencyMap → AdjacencyMap → Option (List ℕ)
unfolding drain
kahn order edges dependents =
    let dep_count = initial_count edges in
    drain (suc (length order)) dependents dep_count (keep (λ n. is_zero (dep_count n)) order) []

unfoldable pub topological_order : DependencyGraph → Option (List ℕ)
unfolding kahn
topological_order graph = kahn graph.order graph.edges graph.dependents
