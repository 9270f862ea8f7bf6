-- ===== src/Container/Graph/Cycles/Detect.antt =====
-- core/container/graph.py: the search from every start node, and its result.
use mathlib.Core.Logic.{◌≢◌}
use xime_framework.Prelude.{
  ℕ, suc, ◌<◌, ◌≤◌, ◌≡◌, refl, ◌∙◌, subst, Bool, true, false, some, List, [], ◌∷◌, ◌++◌, arith,
  contains, All,
}
use xime_framework.Container.Graph.{AdjacencyMap}
use xime_framework.Container.Graph.Kahn.{IsBuildable}
use xime_framework.Container.Graph.Cycles.{
  Color, white, gray, black, Dfs, paint, enter, visit_all, work, unvisited,
}
use xime_framework.Container.Graph.Cycles.Walks.{IsCycle}
use xime_framework.Container.Graph.Cycles.Invariant.{
  Inv, nobody, is_white, is_black, is_gray, nodes_of, push-Inv,
}
use xime_framework.Container.Graph.Cycles.Progress.{
  Walked, walk_total, measure, pending-paint, pending-le_work,
}

pub Walked-refl :
    (edges : AdjacencyMap) (s : Dfs) (done : List ℕ)
    → Inv edges nobody s done
    → s.stack ≡ []
    → Walked edges s s
Walked-refl edges s done inv e = record { done = done; inv = inv; emptied = e; whites = λ x w. w }

module _ (edges : AdjacencyMap) (order : List ℕ)
    (closed : (n d : ℕ) → contains (edges n) d ≡ true → contains order d ≡ true) where
  pub enter-Inv :
      (start : ℕ) {s : Dfs} {done : List ℕ}
      → Inv edges nobody s done
      → s.stack ≡ []
      → s.color start ≡ white
      → Inv edges nobody (enter edges start s) done
  unfolding enter
  enter-Inv start {s} {done} inv e w =
      subst
        (λ t.
          Inv edges nobody
            (record s {
              color = paint s.color start gray;
              path = s.path ++ start ∷ [];
              stack = (start, edges start) ∷ t;
            })
            done)
        e
        (push-Inv edges start
          (record {
            path = inv.path;
            grays = inv.grays;
            blacks = inv.blacks;
            distinct = inv.distinct;
            chained = inv.chained;
            genuine = inv.genuine;
            buildable = inv.buildable;
            searched = λ _. rw e tt;
          })
          w (rw e tt))

  pub enter-measure :
      (start : ℕ) (s : Dfs)
      → contains order start ≡ true
      → s.color start ≡ white
      → measure edges order (enter edges start s) ≤ work edges order
  unfolding enter
  enter-measure start s m w =
      omega
        (arith, pending-paint edges s.color order start m w, pending-le_work edges s.color order)

  abbrev Visited : Dfs → Dfs → List ℕ → Type 0
  Visited s s' starts =
      Walked edges s s' × ((x : ℕ) → contains starts x ≡ true → is_white (s'.color x) ≡ false)

  pub entered_white :
      (start : ℕ) (s : Dfs) (x : ℕ)
      → is_white ((enter edges start s).color x) ≡ true
      → (is_white (s.color x) ≡ true) × (start ≢ x)
  unfolding enter
  entered_white start s x w = (ground arith, ground arith)

  module _ (fuel : ℕ) (enough : work edges order < fuel) where
    abbrev Goes : List ℕ → Dfs → Type 0
    Goes rest s = (s' : Dfs) × (visit_all fuel edges rest s ≡ some s') × Visited s s' rest

    skip_start :
        (start : ℕ) (s : Dfs) (rest : List ℕ)
        → visit_all fuel edges (start ∷ rest) s ≡ visit_all fuel edges rest s
        → is_white (s.color start) ≡ false
        → Goes rest s
        → Goes (start ∷ rest) s
    skip_start start s rest same seen (s', e, v) =
        (s', same ∙ e, (v.0, λ x m. ground (arith, v.1 x, v.0.whites x)))

    visit_start :
        (start : ℕ) (s : Dfs) (done : List ℕ) (rest : List ℕ) (k : Color)
        → s.color start ≡ k
        → Inv edges nobody s done
        → s.stack ≡ []
        → contains order start ≡ true
        → ((s' : Dfs) (done' : List ℕ) → Inv edges nobody s' done' → s'.stack ≡ [] → Goes rest s')
        → Goes (start ∷ rest) s
    unfolding visit_all
    visit_start start s done rest white e inv empty m go =
        let (s1, e1, walked) =
          walk_total edges order closed fuel (enter edges start s) done
            (enter-Inv start inv empty e) (omega (arith, enter-measure start s m e)) in
        let (s2, e2, v) = go s1 walked.done walked.inv walked.emptied in
        let back = λ (x : ℕ) (w : is_white (s2.color x) ≡ true).
          entered_white start s x (walked.whites x (v.0.whites x w)) in
        (
          s2,
          rw (e, visit_all) (rw e1 e2),
          (
            record {
              done = v.0.done;
              inv = v.0.inv;
              emptied = v.0.emptied;
              whites = λ x w. (back x w).0;
            },
            λ x mx. not_white start x (is_white (s2.color x)) rest mx (v.1 x) (λ w. (back x w).1),
          ),
        )
      where
        not_white :
            (a x : ℕ) (b : Bool) (l : List ℕ)
            → contains (a ∷ l) x ≡ true
            → (contains l x ≡ true → b ≡ false)
            → (b ≡ true → a ≢ x)
            → b ≡ false
        not_white a x false l h k n = refl
        not_white a x true l h k n = ground (arith, n refl)
    visit_start start s done rest gray e inv empty m go =
        skip_start start s rest (rw (e, visit_all)) (rw e) (go s done inv empty)
    visit_start start s done rest black e inv empty m go =
        skip_start start s rest (rw (e, visit_all)) (rw e) (go s done inv empty)

    visit_all_total :
        (starts : List ℕ)
        → ((x : ℕ) → contains starts x ≡ true → contains order x ≡ true)
        → (s : Dfs) (done : List ℕ) → Inv edges nobody s done
        → s.stack ≡ []
        → Goes starts s
    unfolding visit_all
    visit_all_total [] sub s done inv empty =
        (s, refl, (Walked-refl edges s done inv empty, λ x m. cc))
    visit_all_total (start ∷ rest) sub s done inv empty =
        visit_start start s done rest (s.color start) refl inv empty (sub start (ground arith))
          (visit_all_total rest (λ x m. sub x (ground arith)))

pub Inv-unvisited : (edges : AdjacencyMap) → Inv edges nobody unvisited []
Inv-unvisited edges = record {
  path = refl;
  grays = λ x. refl;
  blacks = λ x. refl;
  distinct = tt;
  chained = tt;
  genuine = tt;
  buildable = λ _. tt;
  searched = λ _. tt;
}

-- The search returns. What it reports are cycles, and if it reports none the nodes can be put in
-- an order in which dependencies come first.
pub record Detected (edges : AdjacencyMap) (order : List ℕ) (cycles : List (List ℕ)) : Type 0 where
  pub genuine : All (IsCycle edges) cycles
  pub order_exists :
      cycles ≡ []
      → (done : List ℕ) × IsBuildable edges [] done
        × ((x : ℕ) → contains order x ≡ true → contains done x ≡ true)

pub visited-Detected :
    (edges : AdjacencyMap) (order : List ℕ) {s s' : Dfs}
    → Walked edges s s'
    → ((x : ℕ) → contains order x ≡ true → is_white (s'.color x) ≡ false)
    → Detected edges order s'.cycles
visited-Detected edges order {s} {s'} w seen = record {
  genuine = w.inv.genuine;
  order_exists = λ e. (
    w.done,
    w.inv.buildable e,
    λ x m. not_open x (s'.color x) (seen x m) (w.inv.blacks x) (no_gray x),
  );
}
  where
    no_gray : (x : ℕ) → s'.color x ≢ gray
    no_gray x g =
        let p : contains (nodes_of []) x ≡ is_gray (s'.color x) =
          subst (λ t. contains (nodes_of t) x ≡ is_gray (s'.color x)) w.emptied (w.inv.grays x) in
        ground (arith, p)

    not_open :
        (x : ℕ) (k : Color)
        → is_white k ≡ false
        → contains w.done x ≡ is_black k
        → k ≢ gray
        → contains w.done x ≡ true
    not_open x white a b c = cc
    not_open x gray a b c = absurd (c refl)
    not_open x black a b c = b

-- The search of detect_cycles over the nodes of a graph whose edges stay inside it.
pub search_total :
    (edges : AdjacencyMap) (order : List ℕ)
    → ((n d : ℕ) → contains (edges n) d ≡ true → contains order d ≡ true)
    → (s : Dfs) × (visit_all (suc (work edges order)) edges order unvisited ≡ some s)
      × Detected edges order s.cycles
search_total edges order closed =
    let (s, e, v) =
      visit_all_total edges order closed (suc (work edges order)) (omega arith) order (λ x m. m)
        unvisited [] (Inv-unvisited edges) refl in
    (s, e, visited-Detected edges order v.0 v.1)
