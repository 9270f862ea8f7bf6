-- ===== src/Container/Graph/Cycles/Walks.antt =====
-- core/container/graph.py: walks along dependencies, and what the search reports as a cycle.
use xime_framework.Prelude.{
  ℕ, ◌≡◌, refl, true, List, [], ◌∷◌, ◌++◌, arith, ◌==◌, Bool-cases, inl, inr, contains,
  contains-append, ap, subst, ==_iff,
}
use xime_framework.Container.Graph.{AdjacencyMap}
use xime_framework.Container.Graph.Kahn.{IsBuildable}
use xime_framework.Container.Graph.Cycles.{from_index, pop_last}

-- Each node depends on the next one, and the last one on `b`.
abbrev pub Leads : AdjacencyMap → List ℕ → ℕ → Type 0
Leads edges [] b = Unit
Leads edges (x ∷ []) b = contains (edges x) b ≡ true
Leads edges (x ∷ y ∷ rest) b = (contains (edges x) y ≡ true) × Leads edges (y ∷ rest) b

-- A list of classes that starts and ends with `a` and follows dependencies from one to the next.
pub record IsCycle (edges : AdjacencyMap) (cycle : List ℕ) : Type 0 where
  pub a : ℕ
  pub between : List ℕ
  pub shape : cycle ≡ (a ∷ between) ++ a ∷ []
  pub leads : Leads edges (a ∷ between) a

pub Leads-snoc :
    (edges : AdjacencyMap) (xs : List ℕ) (n b : ℕ)
    → Leads edges xs n
    → contains (edges n) b ≡ true
    → Leads edges (xs ++ n ∷ []) b
Leads-snoc edges [] n b h e = e
Leads-snoc edges (x ∷ []) n b h e = (h, e)
Leads-snoc edges (x ∷ y ∷ rest) n b h e = (h.0, Leads-snoc edges (y ∷ rest) n b h.1 e)

pub Leads-tail :
    (edges : AdjacencyMap) (x : ℕ) (xs : List ℕ) (b : ℕ) → Leads edges (x ∷ xs) b → Leads edges xs b
Leads-tail edges x [] b h = tt
Leads-tail edges x (y ∷ rest) b h = h.1

pub Leads-from_index :
    (edges : AdjacencyMap) (xs : List ℕ) (a b : ℕ)
    → Leads edges xs b
    → Leads edges (from_index xs a) b
Leads-from_index edges [] a b h = tt
Leads-from_index edges (x ∷ xs) a b h = elim (Bool-cases (x == a)) [
  | inl e ↦ rw e h
  | inr e ↦ rw e (Leads-from_index edges xs a b (Leads-tail edges x xs b h))
]

pub from_index-head :
    (xs : List ℕ) (a : ℕ) → contains xs a ≡ true → (rest : List ℕ) × (from_index xs a ≡ a ∷ rest)
from_index-head [] a h = cc
from_index-head (x ∷ xs) a h = elim (Bool-cases (x == a)) [
  | inl e ↦ (xs, ground arith)
  | inr e ↦ let (rest, p) = from_index-head xs a (ground arith) in (rest, ground arith)
]

pub pop_last-snoc : (xs : List ℕ) (n : ℕ) → pop_last (xs ++ n ∷ []) ≡ xs
pop_last-snoc [] n = refl
pop_last-snoc (x ∷ []) n = refl
pop_last-snoc (x ∷ y ∷ rest) n = ap (λ zs. x ∷ zs) (pop_last-snoc (y ∷ rest) n)

-- Whatever a grounded class leads to along dependencies comes to an end.
pub data IsGrounded (edges : AdjacencyMap) : ℕ → Type 0 where
  grounded :
      (x : ℕ) → ((d : ℕ) → contains (edges x) d ≡ true → IsGrounded edges d) → IsGrounded edges x

pub not-Leads_of_grounded :
    (edges : AdjacencyMap) {a : ℕ}
    → IsGrounded edges a
    → (between : List ℕ) → ¬ Leads edges (a ∷ between) a
not-Leads_of_grounded edges (grounded a below) [] h = not-Leads_of_grounded edges (below a h) [] h
not-Leads_of_grounded edges (grounded a below) (y ∷ rest) h =
    not-Leads_of_grounded edges (below y h.0) (rest ++ a ∷ [])
      (Leads-snoc edges (y ∷ rest) a y h.1 h.0)

pub IsBuildable-IsGrounded :
    (edges : AdjacencyMap) (seen ns : List ℕ)
    → IsBuildable edges seen ns
    → ((x : ℕ) → contains seen x ≡ true → IsGrounded edges x)
    → (x : ℕ) → contains ns x ≡ true
    → IsGrounded edges x
IsBuildable-IsGrounded edges seen [] b h x m = absurd (cc)
IsBuildable-IsGrounded edges seen (n ∷ ns) b h x m =
    elim (Bool-cases (contains (seen ++ n ∷ []) x)) [
      | inl e ↦ h' x e
      | inr e ↦
          IsBuildable-IsGrounded edges (seen ++ n ∷ []) ns b.1 h' x
            (ground (arith, contains-append seen (n ∷ []) x))
    ]
  where
    n_grounded : IsGrounded edges n
    n_grounded = grounded n (λ d md. h d (b.0 d md))

    h' : (y : ℕ) → contains (seen ++ n ∷ []) y ≡ true → IsGrounded edges y
    h' y my = elim (Bool-cases (n == y)) [
      | inl e ↦ subst (IsGrounded edges) ((==_iff n y).0 e) n_grounded
      | inr e ↦ h y (ground (arith, contains-append seen (n ∷ []) y))
    ]

Leads-last :
    (edges : AdjacencyMap) (x : ℕ) (xs : List ℕ) (b : ℕ)
    → Leads edges (x ∷ xs) b
    → (n : ℕ) × (contains (edges n) b ≡ true)
Leads-last edges x [] b h = (x, h)
Leads-last edges x (y ∷ rest) b h = Leads-last edges y rest b h.1

-- A graph whose nodes can be put in an order with dependencies first has no cycle.
pub no-IsCycle :
    (edges : AdjacencyMap) (order done : List ℕ)
    → ((n d : ℕ) → contains (edges n) d ≡ true → contains order d ≡ true)
    → IsBuildable edges [] done
    → ((x : ℕ) → contains order x ≡ true → contains done x ≡ true)
    → (cycle : List ℕ) → ¬ IsCycle edges cycle
no-IsCycle edges order done closed b all cycle c =
    let (n, e) = Leads-last edges c.a c.between c.a c.leads in
    not-Leads_of_grounded edges
      (IsBuildable-IsGrounded edges [] done b (λ x m. absurd (cc)) c.a (all c.a (closed n c.a e)))
      c.between c.leads
