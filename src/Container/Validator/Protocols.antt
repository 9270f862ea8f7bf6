-- ===== src/Container/Validator/Protocols.antt =====
-- core/container/validator.py: the check of protocols without a binding.
use xime_framework.Prelude.{
  ℕ, ◌≤◌, ◌≡◌, refl, Bool, true, false, not, ◌&&◌, Option, none, some, List, [], ◌∷◌, arith,
  if◌then◌else◌, contains, length, All, Any, inl, inr,
}
use xime_framework.Container.Graph.{ResolvedMap}
use xime_framework.Container.Validator.{
  ClassFacts, ValidationError, missing_implementation, missing_binding, multiple_implementation,
  find_candidates, unresolved_error, check_protocols_of, check_unresolved_protocols,
}

-- A check found nothing and the condition holds, or its error is to blame.
abbrev pub Judged : Type 0 → (ValidationError → Type 0) → Option ValidationError → Type 0
Judged Ok Blame none = Ok
Judged Ok Blame (some e) = Blame e

-- A check of a list: the head, and where it finds nothing the tail.
pub first_error :
    (Ok Ok' : Type 0) (Blame Blame' Blame'' : ValidationError → Type 0)
    (o rest : Option ValidationError)
    → ((e : ValidationError) → Blame e → Blame'' e)
    → ((e : ValidationError) → Blame' e → Blame'' e)
    → Judged Ok Blame o
    → Judged Ok' Blame' rest
    → Judged
        (Ok × Ok')
        Blame''
        (elim o as (λ _. Option ValidationError) [ some e ↦ some e | none ↦ rest ])
first_error Ok Ok' B B' B'' (some e) rest f g h k = f e h
first_error Ok Ok' B B' B'' none (some e) f g h k = g e k
first_error Ok Ok' B B' B'' none none f g h k = (h, k)

-- The dependencies of a resolved map, of one of its classes or of any.
abbrev pub HasDep : List (ℕ × ℕ) → ℕ → Type 0
HasDep deps dep = Any (λ (d : ℕ × ℕ). d.1 ≡ dep) deps

abbrev pub Needs : ResolvedMap → ℕ → ℕ → Type 0
Needs resolved cls dep =
    Any (λ (entry : ℕ × List (ℕ × ℕ)). (entry.0 ≡ cls) × HasDep entry.1 dep) resolved

abbrev pub IsNeeded : ResolvedMap → ℕ → Type 0
IsNeeded resolved dep = Any (λ (entry : ℕ × List (ℕ × ℕ)). HasDep entry.1 dep) resolved

module _ (facts : ClassFacts) where
  module _ (classes pre_built : List ℕ) where
    -- A protocol without a binding that some class needs, with its candidates.
    abbrev pub IsUnresolved : (ℕ → Type 0) → ℕ → List ℕ → Type 0
    IsUnresolved Dep p candidates =
        Dep p
        × (facts.is_protocol p ≡ true)
        × (contains pre_built p ≡ false)
        × (find_candidates facts p classes ≡ candidates)

    abbrev pub BlamesProtocol : (ℕ → Type 0) → ValidationError → Type 0
    BlamesProtocol Dep (missing_implementation p) = IsUnresolved Dep p []
    BlamesProtocol Dep (missing_binding p cls) = IsUnresolved Dep p (cls ∷ [])
    BlamesProtocol Dep (multiple_implementation p list) =
        IsUnresolved Dep p list × (2 ≤ length list)
    BlamesProtocol Dep _ = ⊥

    BlamesProtocol-map :
        (Dep Dep' : ℕ → Type 0)
        → ((p : ℕ) → Dep p → Dep' p)
        → (e : ValidationError) → BlamesProtocol Dep e
        → BlamesProtocol Dep' e
    BlamesProtocol-map Dep Dep' f (missing_implementation p) (d, t, q, c) = (f p d, t, q, c)
    BlamesProtocol-map Dep Dep' f (missing_binding p cls) (d, t, q, c) = (f p d, t, q, c)
    BlamesProtocol-map Dep Dep' f (multiple_implementation p list) ((d, t, q, c), n) =
        ((f p d, t, q, c), n)
    BlamesProtocol-map Dep Dep' f _ h = absurd h

    unresolved_error-BlamesProtocol :
        (Dep : ℕ → Type 0) (p : ℕ) (candidates : List ℕ)
        → IsUnresolved Dep p candidates
        → BlamesProtocol Dep (unresolved_error facts p candidates)
    unresolved_error-BlamesProtocol Dep p [] h = h
    unresolved_error-BlamesProtocol Dep p (cls ∷ []) h = h
    unresolved_error-BlamesProtocol Dep p (cls ∷ other ∷ rest) h = (h, omega arith)

    abbrev pub IsResolved : ℕ × ℕ → Type 0
    IsResolved d = facts.is_protocol d.1 ≡ true → contains pre_built d.1 ≡ true

    check_protocols_of-Judged :
        (deps : List (ℕ × ℕ))
        → Judged
            (All IsResolved deps)
            (BlamesProtocol (HasDep deps))
            (check_protocols_of facts classes pre_built deps)
    unfolding check_protocols_of
    check_protocols_of-Judged [] = tt
    check_protocols_of-Judged ((param, dep) ∷ rest) =
        by_test (facts.is_protocol dep) (contains pre_built dep) refl refl
          (check_protocols_of facts classes pre_built rest) (check_protocols_of-Judged rest)
      where
        by_test :
            (b c : Bool)
            → facts.is_protocol dep ≡ b
            → contains pre_built dep ≡ c
            → (o : Option ValidationError)
            → Judged (All IsResolved rest) (BlamesProtocol (HasDep rest)) o
            → Judged
                (All IsResolved ((param, dep) ∷ rest))
                (BlamesProtocol (HasDep ((param, dep) ∷ rest)))
                (if b && not c
                  then some (unresolved_error facts dep (find_candidates facts dep classes))
                  else o)
        by_test true false p q o h =
            unresolved_error-BlamesProtocol (HasDep ((param, dep) ∷ rest)) dep
              (find_candidates facts dep classes) (inl refl, p, q, refl)
        by_test true true p q none h = ((λ _. q), h)
        by_test true true p q (some e) h =
            BlamesProtocol-map (HasDep rest) (HasDep ((param, dep) ∷ rest)) (λ x m. inr m) e h
        by_test false c p q none h = ((λ t. absurd (cc)), h)
        by_test false c p q (some e) h =
            BlamesProtocol-map (HasDep rest) (HasDep ((param, dep) ∷ rest)) (λ x m. inr m) e h

    pub check_unresolved_protocols-Judged :
        (resolved : ResolvedMap)
        → Judged
            (All (λ entry. All IsResolved entry.1) resolved)
            (BlamesProtocol (IsNeeded resolved))
            (check_unresolved_protocols facts classes pre_built resolved)
    unfolding check_unresolved_protocols
    check_unresolved_protocols-Judged [] = tt
    check_unresolved_protocols-Judged ((cls, deps) ∷ rest) =
        first_error (All IsResolved deps) (All (λ entry. All IsResolved entry.1) rest)
          (BlamesProtocol (HasDep deps)) (BlamesProtocol (IsNeeded rest))
          (BlamesProtocol (IsNeeded ((cls, deps) ∷ rest)))
          (check_protocols_of facts classes pre_built deps)
          (check_unresolved_protocols facts classes pre_built rest)
          (BlamesProtocol-map (HasDep deps) (IsNeeded ((cls, deps) ∷ rest)) (λ p m. inl m))
          (BlamesProtocol-map (IsNeeded rest) (IsNeeded ((cls, deps) ∷ rest)) (λ p m. inr m))
          (check_protocols_of-Judged deps) (check_unresolved_protocols-Judged rest)
