-- ===== src/Container/Graph/Order.antt =====
-- core/container/graph.py: what detect_cycles and topological_order promise to the container.
use xime_framework.Prelude.{
  ℕ, zero, suc, ◌≡◌, refl, sym, ◌∙◌, subst, true, false, some, List, [], ◌∷◌, ◌++◌, arith, ◌==◌,
  Bool-cases, inl, inr, keep, contains, contains-append, contains-keep, contains-dedup,
  dedup-IsDistinct, length, All, map, IsDistinct, missing, missing-suc, ap, some_unique,
}
use mathlib.Core.List.{append-nil}
use xime_framework.Prelude.Int.{ℤ, pos, is_zero}
use xime_framework.Container.Graph.{
  AdjacencyMap, ResolvedMap, keys, deps_of, known_deps, build, topological_order, kahn,
  initial_count,
}
use xime_framework.Container.Graph.Reverse.{dependents_of_lem}
use xime_framework.Container.Graph.Kahn.{IsBuildable, Inv, Inv-start, drain_total}
use xime_framework.Container.Graph.Cycles.{detect_cycles}
use xime_framework.Container.Graph.Cycles.Walks.{IsCycle, no-IsCycle}
use xime_framework.Container.Graph.Cycles.Detect.{Detected, search_total}

known_deps-IsDistinct : (nodes : List ℕ) (deps : List (ℕ × ℕ)) → IsDistinct (known_deps nodes deps)
unfolding known_deps
known_deps-IsDistinct nodes deps =
    dedup-IsDistinct (keep (contains nodes) (map (λ dep. dep.1) deps))

known_deps_inside :
    (nodes : List ℕ) (deps : List (ℕ × ℕ)) (d : ℕ)
    → contains (known_deps nodes deps) d ≡ true
    → contains nodes d ≡ true
unfolding known_deps
known_deps_inside nodes deps d m = ground (
  arith,
  contains-dedup (keep (contains nodes) (map (λ dep. dep.1) deps)) d,
  contains-keep (contains nodes) (map (λ dep. dep.1) deps) d,
)

-- What a finished run of Kahn's algorithm has established of its result.
pub record IsTopological (edges : AdjacencyMap) (order out : List ℕ) : Type 0 where
  pub distinct : IsDistinct out
  pub inside : (n : ℕ) → contains out n ≡ true → contains order n ≡ true
  pub buildable : IsBuildable edges [] out
  pub left_out :
      (n : ℕ)
      → contains order n ≡ true
      → contains out n ≡ false
      → (d : ℕ) × (contains (edges n) d ≡ true) × (contains out d ≡ false)

is_missing :
    (edges : AdjacencyMap) (out : List ℕ) (n k : ℕ)
    → missing (edges n) out ≡ k
    → is_zero (pos k) ≡ false
    → (d : ℕ) × (contains (edges n) d ≡ true) × (contains out d ≡ false)
is_missing edges out n zero e h = cc
is_missing edges out n (suc k) e h = missing-suc (edges n) out e

Inv-IsTopological :
    (edges : AdjacencyMap) (order : List ℕ) {c : ℕ → ℤ} {out : List ℕ}
    → Inv edges order c [] out
    → IsTopological edges order out
Inv-IsTopological edges order {c} {out} inv = record {
  distinct = subst IsDistinct (append-nil out) inv.distinct;
  inside = λ n m. inv.inside n (rw append-nil m);
  buildable = inv.buildable;
  left_out = λ n m absent.
      is_missing edges out n (missing (edges n) out) refl
        (ap is_zero (sym (inv.counts n m)) ∙ sym (inv.ready n m) ∙ rw append-nil absent);
}

pub kahn_total :
    (edges : AdjacencyMap) (order : List ℕ) (dependents : AdjacencyMap)
    → ((n : ℕ) → IsDistinct (edges n))
    → IsDistinct order
    → ((n : ℕ) → dependents n ≡ keep (λ cls. contains (edges cls) n) order)
    → (out : List ℕ) × (kahn order edges dependents ≡ some out) × IsTopological edges order out
unfolding kahn
kahn_total edges order dependents de dor dep =
    let (out, c, e, inv) =
      drain_total edges order de dor dependents dep (suc (length order)) (initial_count edges)
        (keep (λ n. is_zero (initial_count edges n)) order) [] (Inv-start edges order de dor)
        (omega arith) in
    (out, e, Inv-IsTopological edges order inv)

-- If some list has every node behind its dependencies, nothing is left out.
pub complete_of_buildable :
    (edges : AdjacencyMap) (order out done seen : List ℕ)
    → IsTopological edges order out
    → IsBuildable edges seen done
    → ((x : ℕ) → contains seen x ≡ true → contains order x ≡ true → contains out x ≡ true)
    → ((n d : ℕ) → contains (edges n) d ≡ true → contains order d ≡ true)
    → (x : ℕ) → contains done x ≡ true
    → contains order x ≡ true
    → contains out x ≡ true
complete_of_buildable edges order out [] seen t b h closed x m o = cc
complete_of_buildable edges order out (n ∷ ns) seen t b h closed x m o =
    elim (Bool-cases (n == x)) [
      | inl e ↦ ground (arith, n_out)
      | inr e ↦
          complete_of_buildable edges order out ns (seen ++ n ∷ []) t b.1 h' closed x (ground arith)
            o
    ]
  where
    n_out : contains order n ≡ true → contains out n ≡ true
    n_out on = elim (Bool-cases (contains out n)) [
      | inl e ↦ e
      | inr e ↦
          let (d, md, out_d) = t.left_out n on e in ground (arith, h d (b.0 d md) (closed n d md))
    ]

    h' :
        (y : ℕ)
        → contains (seen ++ n ∷ []) y ≡ true
        → contains order y ≡ true
        → contains out y ≡ true
    h' y my oy = ground (arith, contains-append seen (n ∷ []) y, h y, n_out)

pub edges-IsDistinct : (resolved : ResolvedMap) (n : ℕ) → IsDistinct ((build resolved).edges n)
unfolding build
edges-IsDistinct resolved n = known_deps-IsDistinct (keys resolved) (deps_of resolved n)

pub edges_closed :
    (resolved : ResolvedMap) (n d : ℕ)
    → contains ((build resolved).edges n) d ≡ true
    → contains (keys resolved) d ≡ true
unfolding build
edges_closed resolved n d m = known_deps_inside (keys resolved) (deps_of resolved n) d m

-- For a map with distinct keys topological_order returns. Its result holds nodes of the graph,
-- none twice, each behind all nodes that it depends on; and a node is left out only if it depends
-- on a node that is left out too.
pub topological_order_total :
    (resolved : ResolvedMap)
    → IsDistinct (keys resolved)
    → (out : List ℕ) × (topological_order (build resolved) ≡ some out)
      × IsTopological (build resolved).edges (keys resolved) out
unfolding topological_order build
topological_order_total resolved d =
    kahn_total (build resolved).edges (keys resolved) (build resolved).dependents
      (edges-IsDistinct resolved) d
      (λ n. dependents_of_lem (build resolved).edges (keys resolved) n (edges-IsDistinct resolved))

pub detect_run :
    (resolved : ResolvedMap)
    → (cycles : List (List ℕ)) × (detect_cycles (build resolved) ≡ some cycles)
      × Detected (build resolved).edges (keys resolved) cycles
unfolding detect_cycles build
detect_run resolved =
    let (s, e, d) = search_total (build resolved).edges (keys resolved) (edges_closed resolved) in
    (s.cycles, rw (e, detect_cycles), d)

-- detect_cycles returns for every graph. Each list that it reports starts and ends with the same
-- class and follows dependencies from one class to the next. If it reports none, the graph has no
-- such list.
pub detect_cycles_total :
    (resolved : ResolvedMap)
    → (cycles : List (List ℕ)) × (detect_cycles (build resolved) ≡ some cycles)
      × All (IsCycle (build resolved).edges) cycles
      × (cycles ≡ [] → (cycle : List ℕ) → ¬ IsCycle (build resolved).edges cycle)
detect_cycles_total resolved =
    let (cycles, e, d) = detect_run resolved in
    (
      cycles,
      e,
      d.genuine,
      λ none_found cycle c.
          let (done, b, all) = d.order_exists none_found in
          no-IsCycle (build resolved).edges (keys resolved) done (edges_closed resolved) b all cycle
            c,
    )

-- Where detect_cycles reports nothing, the instantiation order holds every node.
pub topological_order_complete :
    (resolved : ResolvedMap) (out : List ℕ)
    → IsDistinct (keys resolved)
    → detect_cycles (build resolved) ≡ some []
    → topological_order (build resolved) ≡ some out
    → (x : ℕ) → contains (keys resolved) x ≡ true
    → contains out x ≡ true
topological_order_complete resolved out d none_found e x m =
    let (cycles, es, det) = detect_run resolved in
    let (done, b, all) = det.order_exists (some_unique es none_found) in
    let (out', e', t) = topological_order_total resolved d in
    rw (some_unique e e') (
      complete_of_buildable (build resolved).edges (keys resolved) out' done [] t b
        (λ y my. λ _. absurd (cc)) (edges_closed resolved) x (all x m) m)
