-- ===== src/Container/Graph/Reverse.antt =====
-- core/container/graph.py: what the reverse map holds after the loops that build it.
use xime_framework.Prelude.{
  ℕ, ◌≡◌, refl, List, [], ◌∷◌, ◌++◌, arith, false, if◌then◌else◌, keep, contains, IsDistinct,
}
use mathlib.Core.List.{append-nil, append_assoc}
use xime_framework.Container.Graph.{AdjacencyMap, append_at, note_deps, reverse_map, dependents_of}

note_deps-absent :
    (cls : ℕ) (deps : List ℕ) (m : AdjacencyMap) (j : ℕ)
    → contains deps j ≡ false
    → note_deps cls deps m j ≡ m j
unfolding note_deps
note_deps-absent cls [] m j h = refl
note_deps-absent cls (dep ∷ deps) m j h =
    ground (arith, note_deps-absent cls deps (append_at m dep cls) j)

note_deps_lem :
    (cls : ℕ) (deps : List ℕ) (m : AdjacencyMap) (j : ℕ)
    → IsDistinct deps
    → note_deps cls deps m j ≡ (if contains deps j then m j ++ cls ∷ [] else m j)
unfolding note_deps
note_deps_lem cls [] m j d = refl
note_deps_lem cls (dep ∷ deps) m j d = ground (
  arith,
  note_deps_lem cls deps (append_at m dep cls) j,
  note_deps-absent cls deps (append_at m dep cls) j,
)

reverse_map_lem :
    (edges : AdjacencyMap) (order : List ℕ) (m : AdjacencyMap) (j : ℕ)
    → ((n : ℕ) → IsDistinct (edges n))
    → reverse_map edges order m j ≡ m j ++ keep (λ cls. contains (edges cls) j) order
unfolding reverse_map
reverse_map_lem edges [] m j d = rw append-nil
reverse_map_lem edges (cls ∷ rest) m j d =
    rw (reverse_map_lem edges rest (note_deps cls (edges cls) m) j d) (
      rw (note_deps_lem cls (edges cls) m j (d cls))
        (ground (arith, append_assoc (m j) (cls ∷ []) (keep (λ c. contains (edges c) j) rest))))

-- The dependents of `j` are the nodes with an edge to it, in declared order.
pub dependents_of_lem :
    (edges : AdjacencyMap) (order : List ℕ) (j : ℕ)
    → ((n : ℕ) → IsDistinct (edges n))
    → dependents_of edges order j ≡ keep (λ cls. contains (edges cls) j) order
unfolding dependents_of
dependents_of_lem edges order j d = reverse_map_lem edges order (λ _. []) j d
