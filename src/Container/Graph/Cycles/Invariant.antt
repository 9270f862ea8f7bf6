-- ===== src/Container/Graph/Cycles/Invariant.antt =====
-- core/container/graph.py: the invariant of the depth-first search.
use xime_framework.Prelude.{
  ℕ, ◌≡◌, ◌∙◌, Bool, true, false, ◌||◌, List, [], ◌∷◌, ◌++◌, arith, ◌==◌, contains, contains-append,
  All, IsDistinct, IsDistinct-prefix, IsDistinct-middle, snoc-IsDistinct, ap, subst,
}
use xime_framework.Container.Graph.{AdjacencyMap}
use xime_framework.Container.Graph.Kahn.{IsBuildable, IsBuildable-snoc}
use xime_framework.Container.Graph.Cycles.{
  Color, white, gray, black, Dfs, paint, pop_last, from_index, step,
}
use xime_framework.Container.Graph.Cycles.Walks.{
  Leads, IsCycle, Leads-snoc, Leads-from_index, from_index-head, pop_last-snoc,
}

abbrev pub Stack : Type 0
Stack = List (ℕ × List ℕ)

-- The nodes of the frames, the oldest first.
abbrev pub nodes_of : Stack → List ℕ
nodes_of [] = []
nodes_of ((n, nbs) ∷ st) = nodes_of st ++ n ∷ []

abbrev pub is_gray : Color → Bool
is_gray gray = true
is_gray white = false
is_gray black = false

abbrev pub is_black : Color → Bool
is_black black = true
is_black white = false
is_black gray = false

abbrev pub is_white : Color → Bool
is_white white = true
is_white gray = false
is_white black = false

-- Each frame was opened from the one below it, and its iterator yields neighbours of its node.
abbrev pub IsChained : AdjacencyMap → Stack → Type 0
IsChained edges [] = Unit
IsChained edges ((n, nbs) ∷ st) =
    Leads edges (nodes_of st) n
    × ((d : ℕ) → contains nbs d ≡ true → contains (edges n) d ≡ true)
    × IsChained edges st

-- What a frame has left behind is finished, but for the node of the frame above it.
abbrev pub IsSearched : AdjacencyMap → List ℕ → (ℕ → Bool) → Stack → Type 0
IsSearched edges done above [] = Unit
IsSearched edges done above ((n, nbs) ∷ st) =
    ((d : ℕ) → contains (edges n) d ≡ true → (contains nbs d || contains done d || above d) ≡ true)
    × IsSearched edges done (λ d. n == d) st

abbrev pub nobody : ℕ → Bool
nobody d = false

-- `done` holds the black nodes in the order in which they were finished.
-- `above` is the node that is about to be pushed, if there is one.
pub record Inv (edges : AdjacencyMap) (above : ℕ → Bool) (s : Dfs) (done : List ℕ) : Type 0 where
  pub path : s.path ≡ nodes_of s.stack
  pub grays : (x : ℕ) → contains (nodes_of s.stack) x ≡ is_gray (s.color x)
  pub blacks : (x : ℕ) → contains done x ≡ is_black (s.color x)
  pub distinct : IsDistinct (nodes_of s.stack)
  pub chained : IsChained edges s.stack
  pub genuine : All (IsCycle edges) s.cycles
  pub buildable : s.cycles ≡ [] → IsBuildable edges [] done
  pub searched : s.cycles ≡ [] → IsSearched edges done above s.stack

IsSearched-weaken :
    (edges : AdjacencyMap) (done more : List ℕ) (p q : ℕ → Bool) (st : Stack)
    → ((d : ℕ) → contains done d ≡ true → contains more d ≡ true)
    → ((d : ℕ) → p d ≡ true → (contains more d || q d) ≡ true)
    → IsSearched edges done p st
    → IsSearched edges more q st
IsSearched-weaken edges done more p q [] h k s = tt
IsSearched-weaken edges done more p q ((n, nbs) ∷ st) h k s = (
  λ d m. ground (arith, s.0 d m, h d, k d),
  IsSearched-weaken edges done more (λ d. n == d) (λ d. n == d) st h (λ d e. ground (arith, e)) s.1,
)

-- A new frame on top of an older stack.
pub push-Inv :
    (edges : AdjacencyMap) {s : Dfs} {done : List ℕ} (nb : ℕ)
    → Inv edges (λ d. nb == d) s done
    → s.color nb ≡ white
    → Leads edges (nodes_of s.stack) nb
    → Inv edges nobody
        (record s {
          color = paint s.color nb gray;
          path = s.path ++ nb ∷ [];
          stack = (nb, edges nb) ∷ s.stack;
        })
        done
push-Inv edges {s} {done} nb inv w leads = record {
  path = rw inv.path;
  grays = λ x. ground (arith, contains-append (nodes_of s.stack) (nb ∷ []) x, inv.grays x);
  blacks = λ x. ground (arith, inv.blacks x);
  distinct = snoc-IsDistinct (nodes_of s.stack) nb inv.distinct (ground (arith, inv.grays nb));
  chained = (leads, (λ d m. m), inv.chained);
  genuine = inv.genuine;
  buildable = inv.buildable;
  searched = λ e. ((λ d m. ground (arith, m)), inv.searched e);
}

module _ (edges : AdjacencyMap) {s : Dfs} {done : List ℕ} (inv : Inv edges nobody s done) where
  module _ (n : ℕ) (st : Stack) where
    module _ (top : s.stack ≡ (n, []) ∷ st) where
      pop_grays : (x : ℕ) → contains (nodes_of st) x ≡ is_gray (paint s.color n black x)
      pop_grays x = ground (
        arith,
        rw top at (inv.grays x),
        contains-append (nodes_of st) (n ∷ []) x,
        IsDistinct-middle (nodes_of st) [] n (rw top at inv.distinct),
      )

      pop_blacks : (x : ℕ) → contains (done ++ n ∷ []) x ≡ is_black (paint s.color n black x)
      pop_blacks x = ground (arith, inv.blacks x, contains-append done (n ∷ []) x)

      pop-IsSearched :
          s.cycles ≡ []
          → ((d : ℕ) → contains (edges n) d ≡ true → contains done d ≡ true)
            × IsSearched edges (done ++ n ∷ []) nobody st
      pop-IsSearched e =
          let (own, below) = subst (IsSearched edges done nobody) top (inv.searched e) in
          (
            λ d m. ground (arith, own d m),
            IsSearched-weaken edges done (done ++ n ∷ []) (λ d. n == d) nobody st
                (λ d m. ground (arith, contains-append done (n ∷ []) d))
                (λ d m. ground (arith, contains-append done (n ∷ []) d)) below,
          )

      pub pop-Inv : Inv edges nobody (step edges s n [] st) (done ++ n ∷ [])
      unfolding step
      pop-Inv = record {
        path = ap pop_last (inv.path ∙ ap nodes_of top) ∙ pop_last-snoc (nodes_of st) n;
        grays = pop_grays;
        blacks = pop_blacks;
        distinct =
            IsDistinct-prefix (nodes_of st) (n ∷ [])
              (subst (λ t. IsDistinct (nodes_of t)) top inv.distinct);
        chained = (subst (IsChained edges) top inv.chained).2;
        genuine = inv.genuine;
        buildable = λ e. IsBuildable-snoc edges [] done n (inv.buildable e) (pop-IsSearched e).0;
        searched = λ e. (pop-IsSearched e).1;
      }

    module _ (nb : ℕ) (nbs : List ℕ) (top : s.stack ≡ (n, nb ∷ nbs) ∷ st) where
      abbrev pub advanced : Dfs
      advanced = record s { stack = (n, nbs) ∷ st }

      own_chain : IsChained edges ((n, nb ∷ nbs) ∷ st)
      own_chain = subst (IsChained edges) top inv.chained

      pub advance-Inv :
          (above : ℕ → Bool)
          → (s.cycles ≡ [] → (contains done nb || above nb) ≡ true)
          → Inv edges above advanced done
      advance-Inv above h = record {
        path = inv.path ∙ ap nodes_of top;
        grays = λ x. rw top at (inv.grays x);
        blacks = inv.blacks;
        distinct = subst (λ t. IsDistinct (nodes_of t)) top inv.distinct;
        chained = (own_chain.0, (λ d m. own_chain.1 d (ground arith)), own_chain.2);
        genuine = inv.genuine;
        buildable = inv.buildable;
        searched = λ e.
            let (own, below) = subst (IsSearched edges done nobody) top (inv.searched e) in
            ((λ d m. ground (arith, own d m, h e)), below);
      }

      pub edge : contains (edges n) nb ≡ true
      edge = own_chain.1 nb (ground arith)

      pub Leads-to : Leads edges (nodes_of ((n, nbs) ∷ st)) nb
      Leads-to = Leads-snoc edges (nodes_of st) n nb own_chain.0 edge

      abbrev reported : List ℕ
      reported = from_index s.path nb ++ nb ∷ []

      -- A gray neighbour is on the path, and the path leads from it back to it.
      pub reported-IsCycle : s.color nb ≡ gray → IsCycle edges reported
      reported-IsCycle g =
          let on_path : contains s.path nb ≡ true = rw inv.path (ground (arith, inv.grays nb)) in
          let (rest, e) = from_index-head s.path nb on_path in
          let leads : Leads edges s.path nb = rw (inv.path ∙ ap nodes_of top) Leads-to in
          record {
            a = nb;
            between = rest;
            shape = rw e;
            leads = subst (λ xs. Leads edges xs nb) e (Leads-from_index edges s.path nb nb leads);
          }
