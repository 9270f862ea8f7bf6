-- ===== src/Container/Graph/Cycles/Progress.antt =====
-- core/container/graph.py: every round of the search keeps the invariant and makes progress.
use xime_framework.Prelude.{
  ℕ, zero, suc, ◌+◌, ◌<◌, ◌≤◌, ◌≡◌, refl, true, false, some, List, [], ◌∷◌, ◌++◌, arith, ◌==◌,
  if◌then◌else◌, contains, length, All-append,
}
use xime_framework.Container.Graph.{AdjacencyMap}
use xime_framework.Container.Graph.Cycles.{
  Color, white, gray, black, Dfs, paint, look, step, walk, work,
}
use xime_framework.Container.Graph.Cycles.Walks.{IsCycle}
use xime_framework.Container.Graph.Cycles.Invariant.{
  Stack, Inv, nobody, is_white, push-Inv, pop-Inv, advance-Inv, Leads-to, reported-IsCycle, edge,
}

-- The rounds that the white nodes will still take.
abbrev pub pending : AdjacencyMap → (ℕ → Color) → List ℕ → ℕ
pending edges color [] = 0
pending edges color (n ∷ ns) =
    (if is_white (color n) then suc (length (edges n)) else 0) + pending edges color ns

abbrev pub weight : Stack → ℕ
weight [] = 0
weight ((n, nbs) ∷ st) = suc (length nbs) + weight st

pending-paint_le :
    (edges : AdjacencyMap) (color : ℕ → Color) (order : List ℕ) (n : ℕ) (k : Color)
    → is_white k ≡ false
    → pending edges (paint color n k) order ≤ pending edges color order
pending-paint_le edges color [] n k h = omega arith
pending-paint_le edges color (x ∷ order) n k h =
    ground (arith, pending-paint_le edges color order n k h)

pub pending-paint :
    (edges : AdjacencyMap) (color : ℕ → Color) (order : List ℕ) (n : ℕ)
    → contains order n ≡ true
    → color n ≡ white
    → pending edges (paint color n gray) order + suc (length (edges n)) ≤ pending edges color order
pending-paint edges color [] n m w = cc
pending-paint edges color (x ∷ order) n m w =
    ground (arith, pending-paint edges color order n, pending-paint_le edges color order n gray)

pub pending-le_work :
    (edges : AdjacencyMap) (color : ℕ → Color) (order : List ℕ)
    → pending edges color order ≤ work edges order
pending-le_work edges color [] = omega arith
pending-le_work edges color (x ∷ order) = ground (arith, pending-le_work edges color order)

snoc-ne-nil {ℓ} : {A : Type ℓ} (xs : List A) (x : A) → ¬ (xs ++ x ∷ [] ≡ [])
snoc-ne-nil [] x e = cc
snoc-ne-nil (y ∷ ys) x e = cc

abbrev pub measure : AdjacencyMap → List ℕ → Dfs → ℕ
measure edges order s = pending edges s.color order + weight s.stack

pub record Progress (edges : AdjacencyMap) (order : List ℕ) (s s' : Dfs) : Type 0 where
  pub done : List ℕ
  pub inv : Inv edges nobody s' done
  pub less : measure edges order s' < measure edges order s
  pub whites : (x : ℕ) → is_white (s'.color x) ≡ true → is_white (s.color x) ≡ true

module _ (edges : AdjacencyMap) (order : List ℕ)
    (closed : (n d : ℕ) → contains (edges n) d ≡ true → contains order d ≡ true) {s : Dfs}
    {done : List ℕ} (inv : Inv edges nobody s done) (n : ℕ) (st : Stack) where
  look-Progress :
      (nb : ℕ) (nbs : List ℕ)
      → s.stack ≡ (n, nb ∷ nbs) ∷ st
      → (k : Color) → s.color nb ≡ k
      → Progress edges order s (look edges k nb (record s { stack = (n, nbs) ∷ st }))
  unfolding look
  look-Progress nb nbs top white e = record {
    done = done;
    inv =
        push-Inv edges nb (advance-Inv edges inv n st nb nbs top (λ d. nb == d) (λ _. ground arith))
          e (Leads-to edges inv n st nb nbs top);
    less = rw top (
        omega (
          arith,
          pending-paint edges s.color order nb (closed n nb (edge edges inv n st nb nbs top)) e,
        ));
    whites = λ x w. ground arith;
  }
  look-Progress nb nbs top gray e =
      let base : Inv edges (λ _. true) (record s { stack = (n, nbs) ∷ st }) done =
        advance-Inv edges inv n st nb nbs top (λ _. true) (λ _. ground arith) in
      record {
        done = done;
        inv = record {
          path = base.path;
          grays = base.grays;
          blacks = base.blacks;
          distinct = base.distinct;
          chained = base.chained;
          genuine =
              All-append (IsCycle edges) s.cycles _ inv.genuine
                (reported-IsCycle edges inv n st nb nbs top e, tt);
          buildable = λ q. absurd (snoc-ne-nil _ _ q);
          searched = λ q. absurd (snoc-ne-nil _ _ q);
        };
        less = rw top (omega arith);
        whites = λ x w. w;
      }
  look-Progress nb nbs top black e = record {
    done = done;
    inv = advance-Inv edges inv n st nb nbs top nobody (λ _. ground (arith, inv.blacks nb));
    less = rw top (omega arith);
    whites = λ x w. w;
  }

  pub step-Progress :
      (nbs : List ℕ) → s.stack ≡ (n, nbs) ∷ st → Progress edges order s (step edges s n nbs st)
  unfolding step
  step-Progress [] top = record {
    done = done ++ n ∷ [];
    inv = pop-Inv edges inv n st top;
    less = rw top (omega (arith, pending-paint_le edges s.color order n black refl));
    whites = λ x w. ground arith;
  }
  step-Progress (nb ∷ nbs) top = look-Progress nb nbs top (s.color nb) refl

-- What a search that ended has established.
pub record Walked (edges : AdjacencyMap) (s s' : Dfs) : Type 0 where
  pub done : List ℕ
  pub inv : Inv edges nobody s' done
  pub emptied : s'.stack ≡ []
  pub whites : (x : ℕ) → is_white (s'.color x) ≡ true → is_white (s.color x) ≡ true

module _ (edges : AdjacencyMap) (order : List ℕ)
    (closed : (n d : ℕ) → contains (edges n) d ≡ true → contains order d ≡ true) where
  abbrev Walks : ℕ → Dfs → Type 0
  Walks fuel s = (s' : Dfs) × (walk fuel edges s ≡ some s') × Walked edges s s'

  walk_round :
      (fuel : ℕ) (s : Dfs) {done : List ℕ} (st : Stack)
      → s.stack ≡ st
      → Inv edges nobody s done
      → measure edges order s < suc fuel
      → ((s' : Dfs) (done' : List ℕ)
          → Inv edges nobody s' done'
          → measure edges order s' < fuel
          → Walks fuel s')
      → Walks (suc fuel) s
  unfolding walk
  walk_round fuel s {done} [] top inv f rest =
      (s, ground arith, record { done = done; inv = inv; emptied = top; whites = λ x w. w })
  walk_round fuel s ((n, nbs) ∷ st) top inv f rest =
      let p = step-Progress edges order closed inv n st nbs top in
      let (s', e, w) = rest (step edges s n nbs st) p.done p.inv (omega (arith, p.less)) in
      (
        s',
        rw (top, walk) e,
        record {
          done = w.done;
          inv = w.inv;
          emptied = w.emptied;
          whites = λ x h. p.whites x (w.whites x h);
        },
      )

  pub walk_total :
      (fuel : ℕ) (s : Dfs) (done : List ℕ)
      → Inv edges nobody s done
      → measure edges order s < fuel
      → Walks fuel s
  walk_total zero s done inv f = absurd (omega arith)
  walk_total (suc fuel) s done inv f = walk_round fuel s s.stack refl inv f (walk_total fuel)
