-- ===== src/Container/Graph/Cycles/Find.antt =====
-- core/container/graph.py: _find_cycle finds a cycle where every node has a dependency left.
use mathlib.Core.Logic.{◌≢◌}
use xime_framework.Prelude.{
  ℕ, zero, suc, ◌<◌, ◌≡◌, refl, sym, subst, Bool, true, false, some, List, [], ◌∷◌, arith, ◌&&◌,
  contains, contains-keep, All,
}
use xime_framework.Container.Graph.{AdjacencyMap}
use xime_framework.Container.Graph.Cycles.{
  Color, white, gray, black, Dfs, Search, found, finished, out_of_fuel, step, enter, work,
  unvisited, inside, find_walk, find_from, find_cycle,
}
use xime_framework.Container.Graph.Cycles.Walks.{
  IsCycle, Leads, IsGrounded, grounded, IsBuildable-IsGrounded,
}
use xime_framework.Container.Graph.Cycles.Invariant.{Inv, nobody, is_white}
use xime_framework.Container.Graph.Cycles.Progress.{Walked, step-Progress, measure}
use xime_framework.Container.Graph.Cycles.Detect.{
  Walked-refl, enter-Inv, enter-measure, entered_white, visited-Detected, Inv-unvisited,
}

module _ (edges : AdjacencyMap) (order : List ℕ)
    (closed : (n d : ℕ) → contains (edges n) d ≡ true → contains order d ≡ true) where
  -- A search ends with a cycle, or with no frame and no cycle.
  abbrev Ends : Dfs → Search → Type 0
  Ends s (found cycle) = IsCycle edges cycle
  Ends s (finished s') = Walked edges s s' × (s'.cycles ≡ [])
  Ends s out_of_fuel = ⊥

  Ends-earlier :
      (s s1 : Dfs)
      → ((x : ℕ) → is_white (s1.color x) ≡ true → is_white (s.color x) ≡ true)
      → (r : Search) → Ends s1 r
      → Ends s r
  Ends-earlier s s1 h (found cycle) e = e
  Ends-earlier s s1 h (finished s') (w, e) = (
    record { done = w.done; inv = w.inv; emptied = w.emptied; whites = λ x m. h x (w.whites x m) },
    e,
  )
  Ends-earlier s s1 h out_of_fuel e = e

  find_round :
      (fuel : ℕ) (s s1 : Dfs) (done : List ℕ) (cycles : List (List ℕ))
      → s1.cycles ≡ cycles
      → Inv edges nobody s1 done
      → ((x : ℕ) → is_white (s1.color x) ≡ true → is_white (s.color x) ≡ true)
      → (s1.cycles ≡ [] → Ends s1 (find_walk fuel edges s1))
      → Ends s (elim cycles [ [] ↦ find_walk fuel edges s1 | cycle ∷ _ ↦ found cycle ])
  find_round fuel s s1 done [] e inv w go = Ends-earlier s s1 w (find_walk fuel edges s1) (go e)
  find_round fuel s s1 done (cycle ∷ more) e inv w go =
      (subst (All (IsCycle edges)) e inv.genuine).0

  find_walk-step :
      (fuel : ℕ) (s : Dfs) (n : ℕ) (nbs : List ℕ) (st : List (ℕ × List ℕ))
      → s.stack ≡ (n, nbs) ∷ st
      → find_walk (suc fuel) edges s ≡ elim (step edges s n nbs st).cycles [
        | [] ↦ find_walk fuel edges (step edges s n nbs st)
        | cycle ∷ _ ↦ found cycle
      ]
  unfolding find_walk
  find_walk-step fuel s n nbs st top = λ i. elim (top i) [
    | [] ↦ finished s
    | (node, nbs') ∷ stack ↦
        let s' = step edges s node nbs' stack in
        elim s'.cycles [ [] ↦ find_walk fuel edges s' | cycle ∷ _ ↦ found cycle ]
  ]

  find_walk-Ends :
      (fuel : ℕ) (s : Dfs) (done : List ℕ) (st : List (ℕ × List ℕ))
      → s.stack ≡ st
      → Inv edges nobody s done
      → s.cycles ≡ []
      → measure edges order s < fuel
      → Ends s (find_walk fuel edges s)
  unfolding find_walk
  find_walk-Ends zero s done st top inv none_yet f = absurd (omega arith)
  find_walk-Ends (suc fuel) s done [] top inv none_yet f =
      subst (Ends s) {x = finished s} (ground arith) (Walked-refl edges s done inv top, none_yet)
  find_walk-Ends (suc fuel) s done ((n, nbs) ∷ st) top inv none_yet f =
      let p = step-Progress edges order closed inv n st nbs top in
      let s1 = step edges s n nbs st in
      subst (Ends s) (sym (find_walk-step fuel s n nbs st top)) (
        find_round fuel s s1 p.done s1.cycles refl p.inv p.whites
          (λ e. find_walk-Ends fuel s1 p.done s1.stack refl p.inv e (omega (arith, p.less))))

  abbrev FindsAll : List ℕ → Dfs → Search → Type 0
  FindsAll starts s (found cycle) = IsCycle edges cycle
  FindsAll starts s (finished s') =
      Walked edges s s'
      × (s'.cycles ≡ [])
      × ((x : ℕ) → contains starts x ≡ true → is_white (s'.color x) ≡ false)
  FindsAll starts s out_of_fuel = ⊥

  skip_found :
      (start : ℕ) (s : Dfs) (rest : List ℕ)
      → is_white (s.color start) ≡ false
      → (r : Search) → FindsAll rest s r
      → FindsAll (start ∷ rest) s r
  skip_found start s rest seen (found cycle) h = h
  skip_found start s rest seen (finished s') (w, e, v) =
      (w, e, λ x m. ground (arith, v x, w.whites x))
  skip_found start s rest seen out_of_fuel h = h

  after_enter :
      (start : ℕ) (s s1 : Dfs) (rest : List ℕ)
      → Walked edges (enter edges start s) s1
      → (r : Search) → FindsAll rest s1 r
      → FindsAll (start ∷ rest) s r
  after_enter start s s1 rest w1 (found cycle) h = h
  after_enter start s s1 rest w1 (finished s') (w, e, v) = (
    record { done = w.done; inv = w.inv; emptied = w.emptied; whites = λ x m. (back x m).0 },
    e,
    λ x m. not_white x (is_white (s'.color x)) m (v x) (λ q. (back x q).1),
  )
    where
      back : (x : ℕ) → is_white (s'.color x) ≡ true → (is_white (s.color x) ≡ true) × (start ≢ x)
      back x m = entered_white edges order closed start s x (w1.whites x (w.whites x m))

      not_white :
          (x : ℕ) (b : Bool)
          → contains (start ∷ rest) x ≡ true
          → (contains rest x ≡ true → b ≡ false)
          → (b ≡ true → start ≢ x)
          → b ≡ false
      not_white x false h k n = refl
      not_white x true h k n = ground (arith, n refl)
  after_enter start s s1 rest w1 out_of_fuel h = h

  module _ (fuel : ℕ) (enough : work edges order < fuel) where
    after_walk :
        (start : ℕ) (s : Dfs) (rest : List ℕ)
        → (r : Search) → Ends (enter edges start s) r
        → ((s1 : Dfs) (done : List ℕ)
            → Inv edges nobody s1 done
            → s1.stack ≡ []
            → s1.cycles ≡ []
            → FindsAll rest s1 (find_from fuel edges rest s1))
        → FindsAll
            (start ∷ rest)
            s
            (elim r [ finished s' ↦ find_from fuel edges rest s' | other ↦ other ])
    after_walk start s rest (found cycle) h go = h
    after_walk start s rest (finished s1) (w, e) go =
        after_enter start s s1 rest w (find_from fuel edges rest s1)
          (go s1 w.done w.inv w.emptied e)
    after_walk start s rest out_of_fuel h go = h

    find_start :
        (start : ℕ) (s : Dfs) (done rest : List ℕ) (k : Color)
        → s.color start ≡ k
        → Inv edges nobody s done
        → s.stack ≡ []
        → s.cycles ≡ []
        → contains order start ≡ true
        → ((s1 : Dfs) (done : List ℕ)
            → Inv edges nobody s1 done
            → s1.stack ≡ []
            → s1.cycles ≡ []
            → FindsAll rest s1 (find_from fuel edges rest s1))
        → FindsAll (start ∷ rest) s (find_from fuel edges (start ∷ rest) s)
    unfolding find_from enter
    find_start start s done rest white e inv empty none_yet m go =
        rw (e, find_from)
          (after_walk start s rest (find_walk fuel edges (enter edges start s))
            (find_walk-Ends fuel (enter edges start s) done ((start, edges start) ∷ []) refl
              (enter-Inv edges order closed start inv empty e) none_yet
              (omega (arith, enter-measure edges order closed start s m e)))
            go)
    find_start start s done rest gray e inv empty none_yet m go =
        rw (e, find_from)
          (skip_found start s rest (rw e) (find_from fuel edges rest s)
            (go s done inv empty none_yet))
    find_start start s done rest black e inv empty none_yet m go =
        rw (e, find_from)
          (skip_found start s rest (rw e) (find_from fuel edges rest s)
            (go s done inv empty none_yet))

    find_from_ends :
        (starts : List ℕ)
        → ((x : ℕ) → contains starts x ≡ true → contains order x ≡ true)
        → (s : Dfs) (done : List ℕ) → Inv edges nobody s done
        → s.stack ≡ []
        → s.cycles ≡ []
        → FindsAll starts s (find_from fuel edges starts s)
    unfolding find_from
    find_from_ends [] sub s done inv empty none_yet =
        (Walked-refl edges s done inv empty, none_yet, λ x m. absurd (cc))
    find_from_ends (start ∷ rest) sub s done inv empty none_yet =
        find_start start s done rest (s.color start) refl inv empty none_yet
          (sub start (ground arith)) (find_from_ends rest (λ x m. sub x (ground arith)))

-- A set of nodes that each depend on a node of the set has no grounded node.
no_grounded :
    (edges : AdjacencyMap) (nodes : List ℕ)
    → ((n : ℕ)
        → contains nodes n ≡ true
        → (d : ℕ) × (contains (edges n) d ≡ true) × (contains nodes d ≡ true))
    → {n : ℕ} → IsGrounded edges n
    → contains nodes n ≡ true
    → ⊥
no_grounded edges nodes next (grounded n below) m =
    let (d, e, md) = next n m in no_grounded edges nodes next (below d e) md

contains-inside :
    (edges : AdjacencyMap) (nodes : List ℕ) (n d : ℕ)
    → contains (inside edges nodes n) d ≡ (contains (edges n) d && contains nodes d)
contains-inside edges nodes n d = contains-keep (contains nodes) (edges n) d

sub_closed :
    (edges : AdjacencyMap) (nodes : List ℕ) (n d : ℕ)
    → contains (inside edges nodes n) d ≡ true
    → contains nodes d ≡ true
sub_closed edges nodes n d m = ground (arith, contains-inside edges nodes n d)

Leads-weaken :
    (m k : AdjacencyMap)
    → ((n d : ℕ) → contains (m n) d ≡ true → contains (k n) d ≡ true)
    → (xs : List ℕ) (b : ℕ) → Leads m xs b
    → Leads k xs b
Leads-weaken m k h [] b l = tt
Leads-weaken m k h (x ∷ []) b l = h x b l
Leads-weaken m k h (x ∷ y ∷ rest) b l = (h x y l.0, Leads-weaken m k h (y ∷ rest) b l.1)

module _ (edges : AdjacencyMap) (nodes : List ℕ) (n : ℕ) (some_node : contains nodes n ≡ true)
    (next : (n : ℕ)
      → contains nodes n ≡ true
      → (d : ℕ) × (contains (edges n) d ≡ true) × (contains nodes d ≡ true)) where
  abbrev sub : AdjacencyMap
  sub = inside edges nodes

  next_inside :
      (x : ℕ)
      → contains nodes x ≡ true
      → (d : ℕ) × (contains (sub x) d ≡ true) × (contains nodes d ≡ true)
  next_inside x m =
      let (d, e, md) = next x m in (d, ground (arith, contains-inside edges nodes x d), md)

  result-IsCycle :
      (r : Search)
      → FindsAll sub nodes (sub_closed edges nodes) nodes unvisited r
      → (cycle : List ℕ) × (r ≡ found cycle) × IsCycle edges cycle
  result-IsCycle (found cycle) c = (
    cycle,
    refl,
    record {
      a = c.a;
      between = c.between;
      shape = c.shape;
      leads =
          Leads-weaken sub edges (λ x d m. ground (arith, contains-inside edges nodes x d))
            (c.a ∷ c.between) c.a c.leads;
    },
  )
  result-IsCycle (finished s) (w, none_found, seen) =
      let (done, b, all) = (visited-Detected sub nodes w seen).order_exists none_found in
      absurd (
        no_grounded sub nodes next_inside
          (IsBuildable-IsGrounded sub [] done b (λ x m. absurd (cc)) n (all n some_node)) some_node)
  result-IsCycle out_of_fuel h = absurd h

  -- Where every node of the set depends on a node of the set, _find_cycle returns a cycle.
  pub find_cycle_total :
      (cycle : List ℕ) × (find_cycle edges nodes ≡ some cycle) × IsCycle edges cycle
  unfolding find_cycle
  find_cycle_total =
      let (cycle, e, c) = result-IsCycle _ (
        find_from_ends sub nodes (sub_closed edges nodes) (suc (work sub nodes)) (omega arith) nodes
          (λ x m. m) unvisited [] (Inv-unvisited sub) refl refl) in
      (cycle, rw (e, find_cycle), c)
