-- ===== src/Prelude/Lists.antt =====
-- Lists measured by native numbers, and predicates on their members.
use Prim.Native.Nat.{ℕ, suc, ◌+◌}
use mathlib.Core.Path.{◌≡◌, refl}
use mathlib.Core.Bool.{Bool, true, false}
use mathlib.Core.Logic.{◌⊎◌, inl, inr}
use mathlib.Core.List.{List, [], ◌∷◌, ◌++◌}
use native.Mathlib.Omega.{arith}
use xime_framework.Prelude.Tests.{if◌then◌else◌}

module _ {ℓ} {A : Type ℓ} where
  abbrev pub length : List A → ℕ
  length [] = 0
  length (x ∷ xs) = suc (length xs)

  -- A Python comprehension with a condition: `[x for x in xs if p(x)]`.
  abbrev pub keep : (A → Bool) → List A → List A
  keep p [] = []
  keep p (x ∷ xs) = if p x then x ∷ keep p xs else keep p xs

  pub length-append : (xs ys : List A) → length (xs ++ ys) ≡ length xs + length ys
  length-append [] ys = omega arith
  length-append (x ∷ xs) ys = omega (arith, length-append xs ys)

-- A predicate on every member computes to tuples, which the tactics read and build.
abbrev pub All {ℓ κ} : {A : Type ℓ} → (A → Type κ) → List A → Type κ
All P [] = Unit
All P (x ∷ xs) = P x × All P xs

pub All-append {ℓ κ} :
    {A : Type ℓ} (P : A → Type κ) (xs ys : List A) → All P xs → All P ys → All P (xs ++ ys)
All-append P [] ys hx hy = hy
All-append P (x ∷ xs) ys hx hy = (hx.0, All-append P xs ys hx.1 hy)

-- Some member satisfies the predicate.
abbrev pub Any {ℓ} : {A : Type ℓ} → (A → Type 0) → List A → Type 0
Any P [] = ⊥
Any P (x ∷ xs) = P x ⊎ Any P xs

pub All-map {ℓ κ μ} :
    {A : Type ℓ} (P : A → Type κ) (Q : A → Type μ) (xs : List A)
    → ((x : A) → P x → Q x)
    → All P xs
    → All Q xs
All-map P Q [] h p = tt
All-map P Q (x ∷ xs) h p = (h x p.0, All-map P Q xs h p.1)

pub Any-map {ℓ} :
    {A : Type ℓ} (P Q : A → Type 0) (xs : List A) → ((x : A) → P x → Q x) → Any P xs → Any Q xs
Any-map P Q [] h p = absurd p
Any-map P Q (x ∷ xs) h (inl p) = inl (h x p)
Any-map P Q (x ∷ xs) h (inr p) = inr (Any-map P Q xs h p)

pub Any-append_left {ℓ} :
    {A : Type ℓ} (P : A → Type 0) (xs ys : List A) → Any P xs → Any P (xs ++ ys)
Any-append_left P [] ys h = absurd h
Any-append_left P (x ∷ xs) ys (inl p) = inl p
Any-append_left P (x ∷ xs) ys (inr h) = inr (Any-append_left P xs ys h)

pub Any-append_right {ℓ} :
    {A : Type ℓ} (P : A → Type 0) (xs ys : List A) → Any P ys → Any P (xs ++ ys)
Any-append_right P [] ys h = h
Any-append_right P (x ∷ xs) ys h = inr (Any-append_right P xs ys h)

-- Each member of a list is a member.
pub All-Any {ℓ} :
    {A : Type ℓ} (P : A → A → Type 0) (xs : List A) → ((x : A) → P x x) → All (λ x. Any (P x) xs) xs
All-Any P [] h = tt
All-Any P (x ∷ xs) h = (
  inl (h x),
  All-map (λ y. Any (P y) xs) (λ y. Any (P y) (x ∷ xs)) xs (λ y p. inr p) (All-Any P xs h),
)

-- A predicate of the kept members, read over the whole list.
pub All-keep {ℓ κ} :
    {A : Type ℓ} (P : A → Type κ) (q : A → Bool) (xs : List A)
    → All P (keep q xs)
    → All (λ x. q x ≡ true → P x) xs
All-keep P q [] h = tt
All-keep P q (x ∷ xs) h = by_test (q x) refl (All-keep P q xs) h
  where
    by_test :
        (b : Bool)
        → q x ≡ b
        → (All P (keep q xs) → All (λ y. q y ≡ true → P y) xs)
        → All P (if b then x ∷ keep q xs else keep q xs)
        → All (λ y. q y ≡ true → P y) (x ∷ xs)
    by_test true e rest k = ((λ _. k.0), rest k.1)
    by_test false e rest k = ((λ f. absurd (cc)), rest k)

pub keep-All {ℓ κ} :
    {A : Type ℓ} (P : A → Type κ) (q : A → Bool) (xs : List A)
    → All (λ x. q x ≡ true → P x) xs
    → All P (keep q xs)
keep-All P q [] h = tt
keep-All P q (x ∷ xs) h = by_test (q x) refl (keep-All P q xs h.1)
  where
    by_test :
        (b : Bool) → q x ≡ b → All P (keep q xs) → All P (if b then x ∷ keep q xs else keep q xs)
    by_test true e rest = (h.0 e, rest)
    by_test false e rest = rest
