-- ===== src/Container/Dynamic/Maps.antt =====
-- core/container/__init__.py: what a binding comes to, with and without runtime switching.
use xime_framework.Prelude.{
  ℕ, ◌≡◌, refl, Bool, true, false, Option, none, some, List, [], ◌∷◌, ◌++◌, map, arith, ◌==◌,
  if◌then◌else◌, contains, IsDistinct, ap, ap₂, sym, ◌∙◌,
}
use xime_framework.Container.Switcher.{Implementations, Tuples, find}
use xime_framework.Container.Dynamic.{
  Target, single, tuple, Split, split, empty_tuple, add_single, add_tuple, split_bindings, firsts,
  prepare,
}

-- What the resolver should use where tuples are fixed, and where they are left to a proxy.
abbrev pub first_of : Option Target → Option ℕ
first_of none = none
first_of (some (single c)) = some c
first_of (some (tuple [])) = none
first_of (some (tuple (c ∷ _))) = some c

abbrev pub fixed_of : Option Target → Option ℕ
fixed_of (some (tuple (c ∷ d ∷ more))) = none
fixed_of t = first_of t

abbrev pub tuple_of : Option Target → Option Implementations
tuple_of (some (tuple (c ∷ d ∷ more))) = some (record { first = c; others = d ∷ more })
tuple_of _ = none

-- No interface is bound to an empty tuple.
abbrev pub NoEmpty : List (ℕ × Target) → Type 0
NoEmpty bindings = (k : ℕ) → find bindings k ≡ some (tuple []) → ⊥

-- What is bound: singles and tuples apart, as they were together.
abbrev Splits : List (ℕ × Target) → Split → Type 0
Splits bindings (empty_tuple i) = find bindings i ≡ some (tuple [])
Splits bindings (split singles tuples) =
    NoEmpty bindings
    × ((k : ℕ)
        → (find singles k ≡ fixed_of (find bindings k))
          × (find tuples k ≡ tuple_of (find bindings k)))

abbrev pub names : List (ℕ × Target) → List ℕ
names bindings = map (λ (b : ℕ × Target). b.0) bindings

find-absent :
    (bindings : List (ℕ × Target)) (k : ℕ)
    → contains (names bindings) k ≡ false
    → find bindings k ≡ none
find-absent [] k h = refl
find-absent ((i, t) ∷ rest) k h = ground (arith, find-absent rest k)

-- A key of the rest is not the first key.
deeper :
    (i j : ℕ) (t v : Target) (rest : List (ℕ × Target))
    → find rest i ≡ none
    → find rest j ≡ some v
    → find ((i, t) ∷ rest) j ≡ some v
deeper i j t v rest a h = by_key (i == j) refl
  where
    by_key : (q : Bool) → (i == j) ≡ q → (if q then some t else find rest j) ≡ some v
    by_key false e = h
    by_key true e = absurd (differ (sym a ∙ ap (find rest) equal ∙ h))
      where
        differ : none ≡ some v → ⊥
        differ r = cc

        equal : i ≡ j
        equal = ground arith

-- A binding that is not to an empty tuple comes before others that are not.
more-NoEmpty :
    (i : ℕ) (t : Target) (rest : List (ℕ × Target))
    → (some t ≡ some (tuple []) → ⊥)
    → NoEmpty rest
    → NoEmpty ((i, t) ∷ rest)
more-NoEmpty i t rest here there k = by_key (i == k)
  where
    by_key : (q : Bool) → (if q then some t else find rest k) ≡ some (tuple []) → ⊥
    by_key true = here
    by_key false = there k

add_single-Splits :
    (i c : ℕ) (t : Target) (rest : List (ℕ × Target)) (s : Split)
    → find rest i ≡ none
    → fixed_of (some t) ≡ some c
    → tuple_of (some t) ≡ none
    → Splits rest s
    → Splits ((i, t) ∷ rest) (add_single i c s)
add_single-Splits i c t rest (empty_tuple j) a f g h = deeper i j t (tuple []) rest a h
add_single-Splits i c t rest (split singles tuples) a f g (full, h) =
    (more-NoEmpty i t rest (λ e. differ (sym f ∙ ap fixed_of e)) full, λ k. by_key k (i == k) refl)
  where
    differ : some c ≡ none → ⊥
    differ e = cc

    equal : (k : ℕ) → (i == k) ≡ true → i ≡ k
    equal k q = ground arith

    by_key :
        (k : ℕ) (q : Bool)
        → (i == k) ≡ q
        → ((if q then some c else find singles k) ≡ fixed_of (if q then some t else find rest k))
          × (find tuples k ≡ tuple_of (if q then some t else find rest k))
    by_key k true e = (sym f, (h k).1 ∙ ap tuple_of (ap (find rest) (sym (equal k e)) ∙ a) ∙ sym g)
    by_key k false e = h k

add_tuple-Splits :
    (i c d : ℕ) (more : List ℕ) (rest : List (ℕ × Target)) (s : Split)
    → find rest i ≡ none
    → Splits rest s
    → Splits
        ((i, tuple (c ∷ d ∷ more)) ∷ rest)
        (add_tuple i (record { first = c; others = d ∷ more }) s)
add_tuple-Splits i c d more rest (empty_tuple j) a h =
    deeper i j (tuple (c ∷ d ∷ more)) (tuple []) rest a h
add_tuple-Splits i c d more rest (split singles tuples) a (full, h) = (
  more-NoEmpty i (tuple (c ∷ d ∷ more)) rest (λ e. differ (ap tuple_of e)) full,
  λ k. by_key k (i == k) refl,
)
  where
    differ :
        ◌≡◌ {A = Option Implementations} (some (record { first = c; others = d ∷ more })) none → ⊥
    differ e = cc

    equal : (k : ℕ) → (i == k) ≡ true → i ≡ k
    equal k q = ground arith

    by_key :
        (k : ℕ) (q : Bool)
        → (i == k) ≡ q
        → (find singles k ≡ fixed_of (if q then some (tuple (c ∷ d ∷ more)) else find rest k))
          × ((if q then some (record { first = c; others = d ∷ more }) else find tuples k)
              ≡ tuple_of (if q then some (tuple (c ∷ d ∷ more)) else find rest k))
    by_key k true e = ((h k).0 ∙ ap fixed_of (ap (find rest) (sym (equal k e)) ∙ a), refl)
    by_key k false e = h k

split_bindings-Splits :
    (bindings : List (ℕ × Target))
    → IsDistinct (names bindings)
    → Splits bindings (split_bindings bindings)
unfolding split_bindings
split_bindings-Splits [] d = (λ k e. absurd (cc), λ k. (refl, refl))
split_bindings-Splits ((i, single c) ∷ rest) d =
    add_single-Splits i c (single c) rest (split_bindings rest) (find-absent rest i d.0) refl refl
      (split_bindings-Splits rest d.1)
split_bindings-Splits ((i, tuple []) ∷ rest) d = ground arith
split_bindings-Splits ((i, tuple (c ∷ [])) ∷ rest) d =
    add_single-Splits i c (tuple (c ∷ [])) rest (split_bindings rest) (find-absent rest i d.0) refl
      refl (split_bindings-Splits rest d.1)
split_bindings-Splits ((i, tuple (c ∷ e ∷ more)) ∷ rest) d =
    add_tuple-Splits i c e more rest (split_bindings rest) (find-absent rest i d.0)
      (split_bindings-Splits rest d.1)

find-append :
    (xs ys : List (ℕ × ℕ)) (k : ℕ)
    → find (xs ++ ys) k ≡ elim (find xs k) [ none ↦ find ys k | some v ↦ some v ]
find-append [] ys k = refl
find-append ((i, v) ∷ xs) ys k = by_key (i == k) (find-append xs ys k)
  where
    by_key :
        (q : Bool)
        → find (xs ++ ys) k ≡ elim (find xs k) [ none ↦ find ys k | some u ↦ some u ]
        → (if q then some v else find (xs ++ ys) k)
          ≡ elim (if q then some v else find xs k) [ none ↦ find ys k | some u ↦ some u ]
    by_key true h = refl
    by_key false h = h

abbrev first_impl : Option Implementations → Option ℕ
first_impl none = none
first_impl (some impls) = some impls.first

find-firsts : (tuples : Tuples) (k : ℕ) → find (firsts tuples) k ≡ first_impl (find tuples k)
find-firsts [] k = refl
find-firsts ((i, impls) ∷ rest) k = by_key (i == k) (find-firsts rest k)
  where
    by_key :
        (q : Bool)
        → find (firsts rest) k ≡ first_impl (find rest k)
        → (if q then some impls.first else find (firsts rest) k)
          ≡ first_impl (if q then some impls else find rest k)
    by_key true h = refl
    by_key false h = h

combined :
    (t : Option Target)
    → elim (fixed_of t) as (λ _. Option ℕ) [ none ↦ first_impl (tuple_of t) | some v ↦ some v ]
      ≡ first_of t
combined none = refl
combined (some (single c)) = refl
combined (some (tuple [])) = refl
combined (some (tuple (c ∷ []))) = refl
combined (some (tuple (c ∷ d ∷ more))) = refl

-- What the resolver is given, where no tuple is empty.
abbrev pub Resolves : Bool → List (ℕ × Target) → List ℕ → List ℕ → Split → Type 0
Resolves enabled bindings explicit instances (empty_tuple i) = find bindings i ≡ some (tuple [])
Resolves enabled bindings explicit instances (split singles tuples) =
    NoEmpty bindings
    × ((k : ℕ)
        → find (prepare enabled explicit instances singles tuples).resolver_bindings k
          ≡ (if enabled then fixed_of (find bindings k) else first_of (find bindings k)))

same_option : (o : Option ℕ) → elim o as (λ _. Option ℕ) [ none ↦ none | some v ↦ some v ] ≡ o
same_option none = refl
same_option (some v) = refl

module _ (bindings : List (ℕ × Target)) (explicit instances : List ℕ) where
  prepare-Resolves :
      (enabled : Bool) (s : Split)
      → Splits bindings s
      → Resolves enabled bindings explicit instances s
  unfolding prepare
  prepare-Resolves enabled (empty_tuple i) h = h
  prepare-Resolves true (split singles []) (full, h) =
      (full, λ k. find-append singles [] k ∙ same_option (find singles k) ∙ (h k).0)
  prepare-Resolves true (split singles (t ∷ tuples)) (full, h) = (full, λ k. (h k).0)
  prepare-Resolves false (split singles tuples) (full, h) = (
    full,
    λ k.
        find-append singles (firsts tuples) k
        ∙ ap₂ (λ o p. elim o as (λ _. Option ℕ) [ none ↦ p | some v ↦ some v ]) (h k).0
            (find-firsts tuples k ∙ ap first_impl (h k).1)
        ∙ combined (find bindings k),
  )

  -- For a dict of bindings: it is refused when an interface is bound to an empty tuple, the refused
  -- interface is such a one, and a dict that is not refused binds none. Then, without
  -- runtime switching, the resolver replaces each bound interface by the one implementation, or by
  -- the first of its tuple; and with it, by the one implementation, and it leaves each interface
  -- bound to two or more as it is.
  pub split_bindings-Resolves :
      (enabled : Bool)
      → IsDistinct (names bindings)
      → Resolves enabled bindings explicit instances (split_bindings bindings)
  split_bindings-Resolves enabled d =
      prepare-Resolves enabled (split_bindings bindings) (split_bindings-Splits bindings d)
