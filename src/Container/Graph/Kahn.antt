-- ===== src/Container/Graph/Kahn.antt =====
-- core/container/graph.py: the invariant of the loop `while queue`.
use mathlib.Core.List.{append_assoc, append-nil}
use xime_framework.Prelude.{
  ℕ, zero, suc, ◌+◌, ◌<◌, ◌≡◌, refl, sym, subst, ◌∙◌, Bool, true, false, ◌&&◌, some, List, [], ◌∷◌,
  ◌++◌, arith, if◌then◌else◌, length, length-append, keep, contains, IsDistinct, contains-append,
  contains-keep, keep-IsDistinct, append-IsDistinct, IsDistinct-middle, length-le_of_contains,
  keep-eq_on, missing, missing-nil, missing-snoc, missing-snoc_ne, missing-zero,
}
use xime_framework.Prelude.Int.{ℤ, pos, pred_ℤ, is_zero}
use xime_framework.Container.Graph.{AdjacencyMap, assign, release, drain, initial_count}

-- The inner loop counts each dependent down once.
release-count :
    (ds : List ℕ) (c : ℕ → ℤ) (q : List ℕ) (x : ℕ)
    → IsDistinct ds
    → (release ds c q).0 x ≡ (if contains ds x then pred_ℤ (c x) else c x)
unfolding release
release-count [] c q x d = refl
release-count (y ∷ ds) c q x d = ground (
  arith,
  release-count ds (assign c y (pred_ℤ (c y))) (if is_zero (pred_ℤ (c y)) then q ++ y ∷ [] else q) x
      d.1,
)

reaches_zero : (ℕ → ℤ) → ℕ → Bool
reaches_zero c x = is_zero (pred_ℤ (c x))

reaches_zero_lem : (c : ℕ → ℤ) (x : ℕ) → reaches_zero c x ≡ is_zero (pred_ℤ (c x))
unfolding reaches_zero
reaches_zero_lem c x = refl

reaches_zero-assign :
    (c : ℕ → ℤ) (y : ℕ) (v : ℤ) (ds : List ℕ)
    → contains ds y ≡ false
    → keep (reaches_zero (assign c y v)) ds ≡ keep (reaches_zero c) ds
unfolding reaches_zero
reaches_zero-assign c y v ds h =
    keep-eq_on (reaches_zero (assign c y v)) (reaches_zero c) ds (λ x m. ground arith)

-- The inner loop queues, in their order, the dependents whose count reaches zero.
release-queue :
    (ds : List ℕ) (c : ℕ → ℤ) (q : List ℕ)
    → IsDistinct ds
    → (release ds c q).1 ≡ q ++ keep (reaches_zero c) ds
unfolding release
release-queue [] c q d = sym (append-nil q)
release-queue (y ∷ ds) c q d =
    let v = pred_ℤ (c y) in
    let q' = if is_zero v then q ++ y ∷ [] else q in
    release-queue ds (assign c y v) q' d.1
    ∙ rw (reaches_zero-assign c y v ds d.0)
        (ground (arith, reaches_zero_lem c y, append_assoc q (y ∷ []) (keep (reaches_zero c) ds)))

-- Every class of the list stands behind all classes that it depends on, which are in `seen` or
-- before it in the list.
abbrev pub IsBuildable : AdjacencyMap → List ℕ → List ℕ → Type 0
IsBuildable edges seen [] = Unit
IsBuildable edges seen (n ∷ ns) =
    ((d : ℕ) → contains (edges n) d ≡ true → contains seen d ≡ true)
    × IsBuildable edges (seen ++ n ∷ []) ns

pub IsBuildable-snoc :
    (edges : AdjacencyMap) (seen ns : List ℕ) (n : ℕ)
    → IsBuildable edges seen ns
    → ((d : ℕ) → contains (edges n) d ≡ true → contains (seen ++ ns) d ≡ true)
    → IsBuildable edges seen (ns ++ n ∷ [])
IsBuildable-snoc edges seen [] n b h = ((λ d m. rw append-nil at (h d m)), tt)
IsBuildable-snoc edges seen (x ∷ ns) n b h =
    (b.0, IsBuildable-snoc edges (seen ++ x ∷ []) ns n b.1 (λ d m. rw append_assoc (h d m)))

-- The state of the loop over the nodes `order`.
pub record Inv (edges : AdjacencyMap) (order : List ℕ) (c : ℕ → ℤ) (q r : List ℕ) : Type 0 where
  pub counts : (n : ℕ) → contains order n ≡ true → c n ≡ pos (missing (edges n) r)
  pub ready : (n : ℕ) → contains order n ≡ true → contains (r ++ q) n ≡ is_zero (c n)
  pub inside : (n : ℕ) → contains (r ++ q) n ≡ true → contains order n ≡ true
  pub distinct : IsDistinct (r ++ q)
  pub buildable : IsBuildable edges [] r

module _ (edges : AdjacencyMap) (order : List ℕ) (edges-IsDistinct : (n : ℕ) → IsDistinct (edges n))
    (order_distinct : IsDistinct order) where
  abbrev pub waiting : ℕ → List ℕ
  waiting n = keep (λ cls. contains (edges cls) n) order

  abbrev newly : (ℕ → ℤ) → ℕ → List ℕ
  newly c n = keep (reaches_zero c) (waiting n)

  pub Inv-start :
      Inv edges order (initial_count edges) (keep (λ n. is_zero (initial_count edges n)) order) []
  Inv-start = record {
    counts = λ n m. ground (arith, missing-nil (edges n));
    ready = λ n m. ground (arith, contains-keep (λ x. is_zero (initial_count edges x)) order n);
    inside = λ n m. ground (arith, contains-keep (λ x. is_zero (initial_count edges x)) order n);
    distinct = keep-IsDistinct _ order order_distinct;
    buildable = tt;
  }

  module _ {c : ℕ → ℤ} {n : ℕ} {q r : List ℕ} (inv : Inv edges order c (n ∷ q) r) where
    n_new : contains r n ≡ false
    n_new = IsDistinct-middle r q n inv.distinct

    n_inside : contains order n ≡ true
    n_inside = inv.inside n (ground (arith, contains-append r (n ∷ q) n))

    counted :
        (x : ℕ)
        → contains order x ≡ true
        → contains (edges x) n ≡ true
        → c x ≡ pos (suc (missing (edges x) (r ++ n ∷ [])))
    counted x m e =
        ground (arith, inv.counts x m, missing-snoc (edges x) r n (edges-IsDistinct x) n_new e)

    newly_lem :
        (x : ℕ)
        → contains (newly c n) x
          ≡ (contains order x && contains (edges x) n && is_zero (pred_ℤ (c x)))
    newly_lem x = ground (
      arith,
      contains-keep (reaches_zero c) (waiting n) x,
      reaches_zero_lem c x,
      contains-keep (λ cls. contains (edges cls) n) order x,
    )

    newly_apart : (x : ℕ) → contains (r ++ n ∷ q) x ≡ true → contains (newly c n) x ≡ false
    newly_apart x m = ground (arith, newly_lem x, counted x, inv.ready x, inv.inside x)

    step_ready :
        (x : ℕ)
        → contains order x ≡ true
        → contains ((r ++ n ∷ []) ++ (q ++ newly c n)) x
          ≡ is_zero (if contains (waiting n) x then pred_ℤ (c x) else c x)
    step_ready x m = ground (
      arith,
      contains-append (r ++ n ∷ []) (q ++ newly c n) x,
      contains-append r (n ∷ []) x,
      contains-append q (newly c n) x,
      contains-append r (n ∷ q) x,
      newly_lem x,
      counted x,
      inv.ready x m,
      contains-keep (λ cls. contains (edges cls) n) order x,
    )

    step_counts :
        (x : ℕ)
        → contains order x ≡ true
        → (if contains (waiting n) x then pred_ℤ (c x) else c x)
          ≡ pos (missing (edges x) (r ++ n ∷ []))
    step_counts x m = ground (
      arith,
      counted x,
      inv.counts x m,
      missing-snoc_ne (edges x) r n,
      contains-keep (λ cls. contains (edges cls) n) order x,
    )

    step_inside :
        (x : ℕ) → contains ((r ++ n ∷ []) ++ (q ++ newly c n)) x ≡ true → contains order x ≡ true
    step_inside x m = ground (
      arith,
      contains-append (r ++ n ∷ []) (q ++ newly c n) x,
      contains-append r (n ∷ []) x,
      contains-append q (newly c n) x,
      contains-append r (n ∷ q) x,
      newly_lem x,
      inv.inside x,
    )

    step-IsDistinct : IsDistinct ((r ++ n ∷ []) ++ (q ++ newly c n))
    step-IsDistinct = subst IsDistinct (regroup r q (newly c n)) (
        append-IsDistinct (r ++ n ∷ q) (newly c n) inv.distinct
          (keep-IsDistinct _ (waiting n) (keep-IsDistinct _ order order_distinct)) newly_apart)
      where
        regroup : (xs ys zs : List ℕ) → (xs ++ n ∷ ys) ++ zs ≡ (xs ++ n ∷ []) ++ (ys ++ zs)
        regroup xs ys zs = simp append_assoc

    step-IsBuildable : IsBuildable edges [] (r ++ n ∷ [])
    step-IsBuildable = IsBuildable-snoc edges [] r n inv.buildable (λ d m.
        missing-zero (edges n) r d
          (ground (arith, inv.counts n n_inside, inv.ready n n_inside, contains-append r (n ∷ q) n))
          m)

    step_Inv :
        (ds : List ℕ)
        → ds ≡ waiting n
        → Inv edges order (release ds c q).0 (release ds c q).1 (r ++ n ∷ [])
    step_Inv ds e =
        let dist : IsDistinct (waiting n) = keep-IsDistinct _ order order_distinct in
        rw (e, release-queue (waiting n) c q dist)
          (record {
            counts = λ x m. release-count (waiting n) c q x dist ∙ step_counts x m;
            ready = λ x m. rw (release-count (waiting n) c q x dist) (step_ready x m);
            inside = step_inside;
            distinct = step-IsDistinct;
            buildable = step-IsBuildable;
          })

  pub drain_total :
      (dependents : AdjacencyMap)
      → ((n : ℕ) → dependents n ≡ waiting n)
      → (fuel : ℕ) (c : ℕ → ℤ) (q r : List ℕ) → Inv edges order c q r
      → length order < fuel + length r
      → (out : List ℕ) × (c' : ℕ → ℤ) × (drain fuel dependents c q r ≡ some out)
        × Inv edges order c' [] out
  unfolding drain
  drain_total dependents dep zero c q r inv f = absurd (
      omega
        (arith, length-append r q, length-le_of_contains (r ++ q) order inv.distinct inv.inside))
  drain_total dependents dep (suc fuel) c [] r inv f = (r, c, refl, inv)
  drain_total dependents dep (suc fuel) c (n ∷ q) r inv f =
      let s = release (dependents n) c q in
      drain_total dependents dep fuel s.0 s.1 (r ++ n ∷ []) (step_Inv inv (dependents n) (dep n))
        (omega (arith, length-append r (n ∷ [])))
