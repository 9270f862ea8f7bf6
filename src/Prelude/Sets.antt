-- ===== src/Prelude/Sets.antt =====
-- Lists of identifiers read as Python's sets: membership, absence of duplicates, counting.
use Prim.Native.Nat.{ℕ, suc, ◌≤◌}
use mathlib.Core.Path.{◌≡◌, refl}
use mathlib.Core.Logic.{◌≢◌, inl, inr}
use mathlib.Core.Bool.{Bool, true, false, not, ◌||◌, ◌&&◌}
use mathlib.Core.List.{List, [], ◌∷◌, ◌++◌}
use native.Mathlib.Omega.{arith}
use xime_framework.Prelude.Tests.{◌==◌, if◌then◌else◌, Bool-cases}
use xime_framework.Prelude.Lists.{length, keep}

-- `a in xs`
abbrev pub contains : List ℕ → ℕ → Bool
contains [] a = false
contains (x ∷ xs) a = x == a || contains xs a

abbrev pub IsDistinct : List ℕ → Type 0
IsDistinct [] = Unit
IsDistinct (x ∷ xs) = (contains xs x ≡ false) × IsDistinct xs

-- The values of a Python set built from a list, in order of first appearance.
abbrev pub dedup : List ℕ → List ℕ
dedup [] = []
dedup (x ∷ xs) = x ∷ keep (λ y. not (x == y)) (dedup xs)

pub contains-append :
    (xs ys : List ℕ) (a : ℕ) → contains (xs ++ ys) a ≡ (contains xs a || contains ys a)
contains-append [] ys a = refl
contains-append (x ∷ xs) ys a = ground (arith, contains-append xs ys a)

pub contains-keep :
    (p : ℕ → Bool) (xs : List ℕ) (a : ℕ) → contains (keep p xs) a ≡ (contains xs a && p a)
contains-keep p [] a = refl
contains-keep p (x ∷ xs) a = ground (arith, contains-keep p xs a)

pub keep-IsDistinct : (p : ℕ → Bool) (xs : List ℕ) → IsDistinct xs → IsDistinct (keep p xs)
keep-IsDistinct p [] h = tt
keep-IsDistinct p (x ∷ xs) h = elim (Bool-cases (p x)) [
  | inl e ↦ rw e (ground (arith, contains-keep p xs x), keep-IsDistinct p xs h.1)
  | inr e ↦ rw e (keep-IsDistinct p xs h.1)
]

pub dedup-IsDistinct : (xs : List ℕ) → IsDistinct (dedup xs)
dedup-IsDistinct [] = tt
dedup-IsDistinct (x ∷ xs) = (
  ground (arith, contains-keep (λ y. not (x == y)) (dedup xs) x),
  keep-IsDistinct _ (dedup xs) (dedup-IsDistinct xs),
)

pub contains-dedup : (xs : List ℕ) (a : ℕ) → contains (dedup xs) a ≡ contains xs a
contains-dedup [] a = refl
contains-dedup (x ∷ xs) a =
    ground (arith, contains-keep (λ y. not (x == y)) (dedup xs) a, contains-dedup xs a)

pub append-IsDistinct :
    (xs ys : List ℕ)
    → IsDistinct xs
    → IsDistinct ys
    → ((a : ℕ) → contains xs a ≡ true → contains ys a ≡ false)
    → IsDistinct (xs ++ ys)
append-IsDistinct [] ys hx hy apart = hy
append-IsDistinct (x ∷ xs) ys hx hy apart = (
  ground (arith, contains-append xs ys x, apart x),
  append-IsDistinct xs ys hx.1 hy (λ a m. ground (arith, apart a)),
)

-- Taking one value out.
abbrev pub without : ℕ → List ℕ → List ℕ
without a [] = []
without a (x ∷ xs) = if x == a then xs else x ∷ without a xs

length-without :
    (a : ℕ) (xs : List ℕ) → contains xs a ≡ true → length xs ≡ suc (length (without a xs))
length-without a [] h = ground arith
length-without a (x ∷ xs) h = ground (arith, length-without a xs)

contains-without_ne : (a b : ℕ) (xs : List ℕ) → a ≢ b → contains (without a xs) b ≡ contains xs b
contains-without_ne a b [] h = refl
contains-without_ne a b (x ∷ xs) h = ground (arith, contains-without_ne a b xs h)

-- The pigeonhole principle: distinct members of `ys` are no more than `ys` has.
pub length-le_of_contains :
    (xs ys : List ℕ)
    → IsDistinct xs
    → ((a : ℕ) → contains xs a ≡ true → contains ys a ≡ true)
    → length xs ≤ length ys
length-le_of_contains [] ys d h = omega arith
length-le_of_contains (x ∷ xs) ys d h = omega (
  arith,
  length-without x ys (h x (ground arith)),
  length-le_of_contains xs (without x ys) d.1 inner,
)
  where
    inner : (a : ℕ) → contains xs a ≡ true → contains (without x ys) a ≡ true
    inner a m = ground (arith, contains-without_ne x a ys, h a)

pub IsDistinct-middle : (xs ys : List ℕ) (n : ℕ) → IsDistinct (xs ++ n ∷ ys) → contains xs n ≡ false
IsDistinct-middle [] ys n d = refl
IsDistinct-middle (x ∷ xs) ys n d =
    ground (arith, IsDistinct-middle xs ys n d.1, contains-append xs (n ∷ ys) x)

pub keep-eq_on :
    (p q : ℕ → Bool) (xs : List ℕ)
    → ((x : ℕ) → contains xs x ≡ true → p x ≡ q x)
    → keep p xs ≡ keep q xs
keep-eq_on p q [] h = refl
keep-eq_on p q (x ∷ xs) h = ground (arith, h x, keep-eq_on p q xs (λ y m. h y (ground arith)))

-- How many of `deps` are not in `done`.
abbrev pub missing : List ℕ → List ℕ → ℕ
missing [] done = 0
missing (d ∷ ds) done = if contains done d then missing ds done else suc (missing ds done)

pub missing-nil : (ds : List ℕ) → missing ds [] ≡ length ds
missing-nil [] = refl
missing-nil (d ∷ ds) = omega (arith, missing-nil ds)

pub missing-snoc_ne :
    (ds done : List ℕ) (n : ℕ)
    → contains ds n ≡ false
    → missing ds (done ++ n ∷ []) ≡ missing ds done
missing-snoc_ne [] done n h = refl
missing-snoc_ne (d ∷ ds) done n h =
    ground (arith, missing-snoc_ne ds done n, contains-append done (n ∷ []) d)

pub missing-snoc :
    (ds done : List ℕ) (n : ℕ)
    → IsDistinct ds
    → contains done n ≡ false
    → contains ds n ≡ true
    → missing ds done ≡ suc (missing ds (done ++ n ∷ []))
missing-snoc [] done n dist absent h = ground arith
missing-snoc (d ∷ ds) done n dist absent h = ground (
  arith,
  missing-snoc ds done n dist.1,
  missing-snoc_ne ds done n,
  contains-append done (n ∷ []) d,
)

-- Nothing is missing exactly when every member of `ds` is there.
pub missing-zero :
    (ds done : List ℕ) (a : ℕ) → missing ds done ≡ 0 → contains ds a ≡ true → contains done a ≡ true
missing-zero [] done a h m = ground arith
missing-zero (d ∷ ds) done a h m = ground (arith, missing-zero ds done a)

pub missing-suc :
    (ds done : List ℕ) {k : ℕ}
    → missing ds done ≡ suc k
    → (a : ℕ) × (contains ds a ≡ true) × (contains done a ≡ false)
missing-suc [] done h = absurd (omega arith)
missing-suc (d ∷ ds) done h = elim (Bool-cases (contains done d)) [
  | inl e ↦ let (a, m, out) = missing-suc ds done (rw e at h) in (a, ground arith, out)
  | inr e ↦ (d, ground arith, e)
]

pub IsDistinct-prefix : (xs ys : List ℕ) → IsDistinct (xs ++ ys) → IsDistinct xs
IsDistinct-prefix [] ys d = tt
IsDistinct-prefix (x ∷ xs) ys d =
    (ground (arith, d.0, contains-append xs ys x), IsDistinct-prefix xs ys d.1)

pub snoc-IsDistinct :
    (xs : List ℕ) (n : ℕ) → IsDistinct xs → contains xs n ≡ false → IsDistinct (xs ++ n ∷ [])
snoc-IsDistinct xs n d h = append-IsDistinct xs (n ∷ []) d (refl, tt) (λ a m. ground arith)
