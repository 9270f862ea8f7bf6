-- ===== src/Container/Validator/Declared.antt =====
-- core/container/validator.py: the checks of the bindings and of the concrete dependencies.
use xime_framework.Prelude.{
  ℕ, ◌≤◌, ◌≡◌, refl, Bool, true, false, not, ◌&&◌, Option, none, some, List, [], ◌∷◌, arith,
  if◌then◌else◌, contains, keep, contains-keep, length, All, Any, inl, inr, ap, sym, ◌∙◌,
}
use xime_framework.Container.Graph.{ResolvedMap}
use xime_framework.Container.Validator.{
  ClassFacts, Bindings, ValidationError, invalid_binding, unregistered_dependency, missing_methods,
  binding_error, check_implementations, check_bindings, check_concrete_of,
  check_missing_concrete_deps,
}
use xime_framework.Container.Validator.Protocols.{Judged, first_error, HasDep, Needs}

-- The bindings name the implementation for the interface.
abbrev pub Binds : Bindings → ℕ → ℕ → Type 0
Binds bindings i c = Any (λ (b : ℕ × List ℕ). (b.0 ≡ i) × Any (λ x. x ≡ c) b.1) bindings

module _ (facts : ClassFacts) where
  abbrev pub IsImplemented : ℕ → ℕ → Type 0
  IsImplemented interface cls =
      All (λ m. facts.has_method cls m ≡ true) (facts.protocol_methods interface)

  -- An implementation of a protocol with exactly the methods that it lacks, one at least.
  abbrev pub BlamesBinding : (ℕ → ℕ → Type 0) → ValidationError → Type 0
  BlamesBinding Bound (invalid_binding i c missing) =
      Bound i c
      × (facts.is_protocol i ≡ true)
      × (1 ≤ length missing)
      × ((m : ℕ)
          → contains missing m
            ≡ (contains (facts.protocol_methods i) m && not (facts.has_method c m)))
  BlamesBinding Bound _ = ⊥

  BlamesBinding-map :
      (Bound Bound' : ℕ → ℕ → Type 0)
      → ((i c : ℕ) → Bound i c → Bound' i c)
      → (e : ValidationError) → BlamesBinding Bound e
      → BlamesBinding Bound' e
  BlamesBinding-map Bound Bound' f (invalid_binding i c missing) (b, p, n, m) = (f i c b, p, n, m)
  BlamesBinding-map Bound Bound' f _ h = absurd h

  none_missing :
      (cls : ℕ) (methods : List ℕ)
      → keep (λ m. not (facts.has_method cls m)) methods ≡ []
      → All (λ m. facts.has_method cls m ≡ true) methods
  none_missing cls [] h = tt
  none_missing cls (m ∷ ms) h = by_test (facts.has_method cls m) refl (none_missing cls ms) h
    where
      by_test :
          (b : Bool)
          → facts.has_method cls m ≡ b
          → (keep (λ x. not (facts.has_method cls x)) ms ≡ []
              → All (λ x. facts.has_method cls x ≡ true) ms)
          → (if not b
              then m ∷ keep (λ x. not (facts.has_method cls x)) ms
              else keep (λ x. not (facts.has_method cls x)) ms)
            ≡ []
          → All (λ x. facts.has_method cls x ≡ true) (m ∷ ms)
      by_test true e rest k = (e, rest k)
      by_test false e rest k = absurd (cc)

  module _ (i : ℕ) (protocol : facts.is_protocol i ≡ true) where
    abbrev Among : List ℕ → ℕ → ℕ → Type 0
    Among list j c = (i ≡ j) × Any (λ x. x ≡ c) list

    binding_error-Judged :
        (c : ℕ) (rest missing : List ℕ)
        → missing_methods facts i c ≡ missing
        → Judged
            (IsImplemented i c)
            (BlamesBinding (Among (c ∷ rest)))
            (binding_error facts i c missing)
    binding_error-Judged c rest [] e = none_missing c (facts.protocol_methods i) e
    binding_error-Judged c rest (m ∷ ms) e = (
      (refl, inl refl),
      protocol,
      omega arith,
      λ x.
          ap (λ l. contains l x) (sym e)
          ∙ contains-keep (λ y. not (facts.has_method c y)) (facts.protocol_methods i) x,
    )

    check_implementations-Judged :
        (list : List ℕ)
        → Judged
            (All (IsImplemented i) list)
            (BlamesBinding (Among list))
            (check_implementations facts i list)
    unfolding check_implementations
    check_implementations-Judged [] = tt
    check_implementations-Judged (c ∷ rest) =
        first_error (IsImplemented i c) (All (IsImplemented i) rest)
          (BlamesBinding (Among (c ∷ rest))) (BlamesBinding (Among rest))
          (BlamesBinding (Among (c ∷ rest))) (binding_error facts i c (missing_methods facts i c))
          (check_implementations facts i rest) (λ e h. h)
          (BlamesBinding-map (Among rest) (Among (c ∷ rest)) (λ j x h. (h.0, inr h.1)))
          (binding_error-Judged c rest (missing_methods facts i c) refl)
          (check_implementations-Judged rest)

  abbrev pub IsBound : ℕ × List ℕ → Type 0
  IsBound b = facts.is_protocol b.0 ≡ true → All (IsImplemented b.0) b.1

  check_binding-Judged :
      (i : ℕ) (list : List ℕ) (rest : Bindings) (p : Bool)
      → facts.is_protocol i ≡ p
      → Judged
          (IsBound (i, list))
          (BlamesBinding (Binds ((i, list) ∷ rest)))
          (if p then check_implementations facts i list else none)
  check_binding-Judged i list rest false e = λ t. absurd (cc)
  check_binding-Judged i list rest true e =
      by_result (check_implementations facts i list) (check_implementations-Judged i e list)
    where
      by_result :
          (o : Option ValidationError)
          → Judged (All (IsImplemented i) list) (BlamesBinding (Among i e list)) o
          → Judged (IsBound (i, list)) (BlamesBinding (Binds ((i, list) ∷ rest))) o
      by_result none h = λ _. h
      by_result (some err) h =
          BlamesBinding-map (Among i e list) (Binds ((i, list) ∷ rest)) (λ j c m. inl m) err h

  pub check_bindings-Judged :
      (bindings : Bindings)
      → Judged
          (All IsBound bindings)
          (BlamesBinding (Binds bindings))
          (check_bindings facts bindings)
  unfolding check_bindings
  check_bindings-Judged [] = tt
  check_bindings-Judged ((i, list) ∷ rest) =
      first_error (IsBound (i, list)) (All IsBound rest) (BlamesBinding (Binds ((i, list) ∷ rest)))
        (BlamesBinding (Binds rest)) (BlamesBinding (Binds ((i, list) ∷ rest)))
        (if facts.is_protocol i then check_implementations facts i list else none)
        (check_bindings facts rest) (λ e h. h)
        (BlamesBinding-map (Binds rest) (Binds ((i, list) ∷ rest)) (λ j c m. inr m))
        (check_binding-Judged i list rest (facts.is_protocol i) refl) (check_bindings-Judged rest)

  module _ (registered : List ℕ) where
    abbrev pub BlamesConcrete : (ℕ → ℕ → Type 0) → ValidationError → Type 0
    BlamesConcrete Dep (unregistered_dependency cls dep) =
        Dep cls dep × (facts.is_protocol dep ≡ false) × (contains registered dep ≡ false)
    BlamesConcrete Dep _ = ⊥

    BlamesConcrete-map :
        (Dep Dep' : ℕ → ℕ → Type 0)
        → ((c d : ℕ) → Dep c d → Dep' c d)
        → (e : ValidationError) → BlamesConcrete Dep e
        → BlamesConcrete Dep' e
    BlamesConcrete-map Dep Dep' f (unregistered_dependency c d) (m, p, q) = (f c d m, p, q)
    BlamesConcrete-map Dep Dep' f _ h = absurd h

    abbrev pub IsRegistered : ℕ × ℕ → Type 0
    IsRegistered d = facts.is_protocol d.1 ≡ false → contains registered d.1 ≡ true

    abbrev Of : ℕ → List (ℕ × ℕ) → ℕ → ℕ → Type 0
    Of cls deps c d = (cls ≡ c) × HasDep deps d

    check_concrete_of-Judged :
        (cls : ℕ) (deps : List (ℕ × ℕ))
        → Judged
            (All IsRegistered deps)
            (BlamesConcrete (Of cls deps))
            (check_concrete_of facts registered cls deps)
    unfolding check_concrete_of
    check_concrete_of-Judged cls [] = tt
    check_concrete_of-Judged cls ((param, dep) ∷ rest) =
        by_test (facts.is_protocol dep) (contains registered dep) refl refl
          (check_concrete_of facts registered cls rest) (check_concrete_of-Judged cls rest)
      where
        by_test :
            (b c : Bool)
            → facts.is_protocol dep ≡ b
            → contains registered dep ≡ c
            → (o : Option ValidationError)
            → Judged (All IsRegistered rest) (BlamesConcrete (Of cls rest)) o
            → Judged
                (All IsRegistered ((param, dep) ∷ rest))
                (BlamesConcrete (Of cls ((param, dep) ∷ rest)))
                (if not b && not c then some (unregistered_dependency cls dep) else o)
        by_test false false p q o h = ((refl, inl refl), p, q)
        by_test false true p q none h = ((λ _. q), h)
        by_test false true p q (some e) h =
            BlamesConcrete-map (Of cls rest) (Of cls ((param, dep) ∷ rest))
              (λ x d m. (m.0, inr m.1)) e h
        by_test true c p q none h = ((λ t. absurd (cc)), h)
        by_test true c p q (some e) h =
            BlamesConcrete-map (Of cls rest) (Of cls ((param, dep) ∷ rest))
              (λ x d m. (m.0, inr m.1)) e h

    pub check_missing_concrete_deps-Judged :
        (resolved : ResolvedMap)
        → Judged
            (All (λ entry. All IsRegistered entry.1) resolved)
            (BlamesConcrete (Needs resolved))
            (check_missing_concrete_deps facts registered resolved)
    unfolding check_missing_concrete_deps
    check_missing_concrete_deps-Judged [] = tt
    check_missing_concrete_deps-Judged ((cls, deps) ∷ rest) =
        first_error (All IsRegistered deps) (All (λ entry. All IsRegistered entry.1) rest)
          (BlamesConcrete (Of cls deps)) (BlamesConcrete (Needs rest))
          (BlamesConcrete (Needs ((cls, deps) ∷ rest)))
          (check_concrete_of facts registered cls deps)
          (check_missing_concrete_deps facts registered rest)
          (BlamesConcrete-map (Of cls deps) (Needs ((cls, deps) ∷ rest)) (λ c d m. inl m))
          (BlamesConcrete-map (Needs rest) (Needs ((cls, deps) ∷ rest)) (λ c d m. inr m))
          (check_concrete_of-Judged cls deps) (check_missing_concrete_deps-Judged rest)
