-- ===== src/Container/Graph/Cycles.antt =====
-- core/container/graph.py: the depth-first searches of detect_cycles and _find_cycle.
pub mod Walks
pub mod Invariant
pub mod Progress
pub mod Detect
pub mod Find
use xime_framework.Prelude.{
  ℕ, zero, suc, ◌+◌, Option, none, some, List, [], ◌∷◌, ◌++◌, ◌==◌, if◌then◌else◌, length, keep,
  contains,
}
use xime_framework.Container.Graph.{AdjacencyMap, DependencyGraph}

-- WHITE, GRAY, BLACK
pub data Color : Type 0 where
  white gray black : Color

-- A frame is a node and what is left of the iterator over its neighbours; the top frame is first.
-- `path` is in the order of the source, its newest node last.
pub record Dfs : Type 0 where
  pub color : ℕ → Color
  pub path : List ℕ
  pub stack : List (ℕ × List ℕ)
  pub cycles : List (List ℕ)

abbrev pub paint : (ℕ → Color) → ℕ → Color → ℕ → Color
paint color node shade j = if node == j then shade else color j

-- `path.pop()`
abbrev pub pop_last : List ℕ → List ℕ
pop_last [] = []
pop_last (x ∷ []) = []
pop_last (x ∷ y ∷ rest) = x ∷ pop_last (y ∷ rest)

-- `path[path.index(node):]`; a gray node is always on the path.
abbrev pub from_index : List ℕ → ℕ → List ℕ
from_index [] node = []
from_index (x ∷ xs) node = if x == node then x ∷ xs else from_index xs node

-- What a neighbour's colour leads to: a cycle, a new frame, nothing.
unfoldable pub look : AdjacencyMap → Color → ℕ → Dfs → Dfs
look edges gray nb s = record s { cycles = s.cycles ++ (from_index s.path nb ++ nb ∷ []) ∷ [] }
look edges white nb s = record s {
  color = paint s.color nb gray;
  path = s.path ++ nb ∷ [];
  stack = (nb, edges nb) ∷ s.stack;
}
look edges black nb s = s

-- One round of `while call_stack` with the top frame given; no neighbour left is StopIteration.
unfoldable pub step : AdjacencyMap → Dfs → ℕ → List ℕ → List (ℕ × List ℕ) → Dfs
unfolding look
step edges s node [] stack = record s {
  color = paint s.color node black;
  path = pop_last s.path;
  stack = stack;
}
step edges s node (nb ∷ rest) stack =
    look edges (s.color nb) nb (record s { stack = (node, rest) ∷ stack })

-- `while call_stack`, on fuel; `none` means that the fuel ran out.
unfoldable pub walk : ℕ → AdjacencyMap → Dfs → Option Dfs
unfolding step
walk zero edges s = none
walk (suc fuel) edges s = elim s.stack [
  | [] ↦ some s
  | (node, nbs) ∷ stack ↦ walk fuel edges (step edges s node nbs stack)
]

-- A white start node is painted gray and put on the path and the stack.
unfoldable pub enter : AdjacencyMap → ℕ → Dfs → Dfs
enter edges start s = record s {
  color = paint s.color start gray;
  path = s.path ++ start ∷ [];
  stack = (start, edges start) ∷ [];
}

-- `for start in self._order`
unfoldable pub visit_all : ℕ → AdjacencyMap → List ℕ → Dfs → Option Dfs
unfolding walk enter
visit_all fuel edges [] s = some s
visit_all fuel edges (start ∷ rest) s = elim (s.color start) [
  | white ↦ elim (walk fuel edges (enter edges start s)) [
    | none ↦ none
    | some s' ↦ visit_all fuel edges rest s'
  ]
  | _ ↦ visit_all fuel edges rest s
]

abbrev pub unvisited : Dfs
unvisited = record { color = λ _. white; path = []; stack = []; cycles = [] }

-- Every node is entered and left once, and every edge is looked at once.
abbrev pub work : AdjacencyMap → List ℕ → ℕ
work edges [] = 0
work edges (n ∷ ns) = suc (length (edges n)) + work edges ns

unfoldable pub detect_cycles : DependencyGraph → Option (List (List ℕ))
unfolding visit_all
detect_cycles graph =
    elim (visit_all (suc (work graph.edges graph.order)) graph.edges graph.order unvisited) [
      | none ↦ none
      | some s ↦ some s.cycles
    ]

-- _find_cycle: the same search over the edges inside `nodes`, left at the first cycle.
pub data Search : Type 0 where
  found : List ℕ → Search
  finished : Dfs → Search
  out_of_fuel : Search

unfoldable pub find_walk : ℕ → AdjacencyMap → Dfs → Search
unfolding step
find_walk zero edges s = out_of_fuel
find_walk (suc fuel) edges s = elim s.stack [
  | [] ↦ finished s
  | (node, nbs) ∷ stack ↦
      let s' = step edges s node nbs stack in
      elim s'.cycles [ [] ↦ find_walk fuel edges s' | cycle ∷ _ ↦ found cycle ]
]

unfoldable pub find_from : ℕ → AdjacencyMap → List ℕ → Dfs → Search
unfolding find_walk enter
find_from fuel edges [] s = finished s
find_from fuel edges (start ∷ rest) s = elim (s.color start) [
  | white ↦ elim (find_walk fuel edges (enter edges start s)) [
    | finished s' ↦ find_from fuel edges rest s'
    | other ↦ other
  ]
  | _ ↦ find_from fuel edges rest s
]

-- `edges.get(start, set()) & nodes`
abbrev pub inside : AdjacencyMap → List ℕ → AdjacencyMap
inside edges nodes n = keep (contains nodes) (edges n)

-- The empty list stands for no cycle, and `none` for fuel that ran out.
unfoldable pub find_cycle : AdjacencyMap → List ℕ → Option (List ℕ)
unfolding find_from
find_cycle edges nodes =
    elim (find_from (suc (work (inside edges nodes) nodes)) (inside edges nodes) nodes unvisited) [
      | found cycle ↦ some cycle
      | finished _ ↦ some []
      | out_of_fuel ↦ none
    ]
