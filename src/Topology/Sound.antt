-- ===== src/Topology/Sound.antt =====
-- core/bootstrap/_processes.py: what holds of a topology that was parsed.
use xime_framework.Prelude.{
  ℕ, ◌≡◌, refl, Bool, true, false, not, ◌||◌, Option, none, some, List, [], ◌∷◌, ◌==◌, arith,
  if◌then◌else◌, contains, dedup, contains-dedup, IsDistinct, All, subst, sym, ◌∙◌,
}
use xime_framework.Topology.{
  EndpointSpec, ProcessBlock, TopologyError, Parsed, ok, err, unless, bind, addresses,
  find_repeated, parse_block, ids_of, repeated_id, primaries, require_exactly_one, all_endpoints,
  group, all_specs, conflict, first_conflict, reject_conflicting_endpoints, duplicate_address,
  missing_shared, different_hosts, different_adapters, duplicate_id,
}

-- Several endpoints on one address: all are shared, on one host, and belong to one adapter.
abbrev pub Agree : List EndpointSpec → Type 0
Agree [] = Unit
Agree (spec ∷ []) = Unit
Agree (spec ∷ other ∷ specs) =
    All (λ (s : EndpointSpec). s.shared ≡ true) (spec ∷ other ∷ specs)
    × All (λ (s : EndpointSpec). s.host ≡ spec.host) (other ∷ specs)
    × All (λ (s : EndpointSpec). s.key ≡ spec.key) (other ∷ specs)

abbrev pub OwnAddresses : ProcessBlock → Type 0
OwnAddresses block = IsDistinct (addresses block.endpoints)

pub record IsTopology (blocks : List ProcessBlock) : Type 0 where
  pub distinct : IsDistinct (ids_of blocks)
  pub primary : (p : ℕ) × (primaries blocks ≡ p ∷ [])
  pub own : All OwnAddresses blocks
  pub agree : (a : ℕ) → Agree (group a (all_endpoints blocks))

pub unless-ok {ℓ} :
    {A : Type ℓ} (c : Option TopologyError) (rest : Parsed A) (x : A)
    → unless c rest ≡ ok x
    → (c ≡ none) × (rest ≡ ok x)
unless-ok none rest x e = (refl, e)
unless-ok (some f) rest x e = absurd (cc)

pub ok_unique {ℓ} : {A : Type ℓ} {x y : A} → ok x ≡ ok y → x ≡ y
ok_unique e = cc

pub bind-ok {ℓ κ} :
    {A : Type ℓ} {B : Type κ} (m : Parsed A) (f : A → Parsed B) (x : B)
    → bind m f ≡ ok x
    → (a : A) × (m ≡ ok a) × (f a ≡ ok x)
bind-ok (ok a) f x e = (a, refl, e)
bind-ok (err g) f x e = absurd (cc)

eq_of : (a b : ℕ) → (a == b) ≡ true → b ≡ a
eq_of a b e = ground arith

find_repeated-seen :
    (xs seen : List ℕ) (b : ℕ)
    → find_repeated seen xs ≡ false
    → contains seen b ≡ true
    → contains xs b ≡ false
find_repeated-seen [] seen b e h = refl
find_repeated-seen (a ∷ rest) seen b e h =
    by_test (a == b) refl
      (find_repeated-seen rest (a ∷ seen) b (ground (arith, e)) (ground (arith, h)))
  where
    by_test : (t : Bool) → (a == b) ≡ t → contains rest b ≡ false → (t || contains rest b) ≡ false
    by_test false f k = k
    by_test true f k =
        let same = subst (λ n. contains seen n ≡ true) (eq_of a b f) h in
        absurd (ground (arith, e, same))

pub find_repeated-IsDistinct : (xs seen : List ℕ) → find_repeated seen xs ≡ false → IsDistinct xs
find_repeated-IsDistinct [] seen e = tt
find_repeated-IsDistinct (a ∷ rest) seen e = (
  find_repeated-seen rest (a ∷ seen) a (ground (arith, e)) (ground arith),
  find_repeated-IsDistinct rest (a ∷ seen) (ground (arith, e)),
)

pub repeated_id-find_repeated :
    (xs seen : List ℕ) → repeated_id seen xs ≡ none → find_repeated seen xs ≡ false
repeated_id-find_repeated [] seen e = refl
repeated_id-find_repeated (a ∷ rest) seen e =
    by_test (contains seen a) (repeated_id-find_repeated rest (a ∷ seen)) e
  where
    by_test :
        (b : Bool)
        → (repeated_id (a ∷ seen) rest ≡ none → find_repeated (a ∷ seen) rest ≡ false)
        → (if b then some (duplicate_id a) else repeated_id (a ∷ seen) rest) ≡ none
        → (b || find_repeated (a ∷ seen) rest) ≡ false
    by_test true next h = absurd (cc)
    by_test false next h = next h

all_specs-All :
    (P : EndpointSpec → Type 0) (p : EndpointSpec → Bool) (specs : List EndpointSpec)
    → ((s : EndpointSpec) → p s ≡ true → P s)
    → all_specs p specs ≡ true
    → All P specs
all_specs-All P p [] h e = tt
all_specs-All P p (s ∷ specs) h e =
    (h s (ground (arith, e)), all_specs-All P p specs h (ground (arith, e)))

conflict-Agree : (a : ℕ) (specs : List EndpointSpec) → conflict a specs ≡ none → Agree specs
conflict-Agree a [] e = tt
conflict-Agree a (spec ∷ []) e = tt
conflict-Agree a (spec ∷ other ∷ specs) none_found =
    by_tests (all_specs (λ s. s.shared) (spec ∷ other ∷ specs)) refl
      (all_specs (λ s. s.host == spec.host) (other ∷ specs)) refl
      (all_specs (λ s. s.key == spec.key) (other ∷ specs)) refl none_found
  where
    by_tests :
        (b : Bool)
        → all_specs (λ s. s.shared) (spec ∷ other ∷ specs) ≡ b
        → (c : Bool) → all_specs (λ s. s.host == spec.host) (other ∷ specs) ≡ c
        → (d : Bool) → all_specs (λ s. s.key == spec.key) (other ∷ specs) ≡ d
        → (if not b
            then some (missing_shared a)
            else if not c
            then some (different_hosts a)
            else if not d
            then some (different_adapters a)
            else none)
          ≡ none
        → Agree (spec ∷ other ∷ specs)
    by_tests false e c f d g h = absurd (cc)
    by_tests true e false f d g h = absurd (cc)
    by_tests true e true f false g h = absurd (cc)
    by_tests true e true f true g h = (
      all_specs-All _ (λ s. s.shared) (spec ∷ other ∷ specs) (λ s k. k) e,
      all_specs-All _ (λ s. s.host == spec.host) (other ∷ specs) (λ s k. ground (arith, k)) f,
      all_specs-All _ (λ s. s.key == spec.key) (other ∷ specs) (λ s k. ground (arith, k)) g,
    )

first_conflict-Agree :
    (list : List ℕ) (specs : List EndpointSpec) (a : ℕ)
    → first_conflict list specs ≡ none
    → contains list a ≡ true
    → Agree (group a specs)
first_conflict-Agree [] specs a e h = absurd (cc)
first_conflict-Agree (b ∷ list) specs a e h =
    by_check (conflict b (group b specs)) refl e (b == a) refl (first_conflict-Agree list specs a)
  where
    by_check :
        (r : Option TopologyError)
        → conflict b (group b specs) ≡ r
        → (elim r [ some f ↦ some f | none ↦ first_conflict list specs ]) ≡ none
        → (t : Bool) → (b == a) ≡ t
        → (first_conflict list specs ≡ none → contains list a ≡ true → Agree (group a specs))
        → Agree (group a specs)
    by_check (some f) g k t q next = absurd (cc)
    by_check none g k true q next =
        subst (λ n. Agree (group n specs)) (sym (eq_of b a q)) (conflict-Agree b (group b specs) g)
    by_check none g k false q next = next k (ground (arith, h, q))

-- Nobody listens on an address that is not in the list.
group-absent :
    (specs : List EndpointSpec) (a : ℕ) → contains (addresses specs) a ≡ false → group a specs ≡ []
group-absent [] a e = refl
group-absent (spec ∷ specs) a e = by_address spec.address e (group-absent specs a)
  where
    by_address :
        (o : Option ℕ)
        → contains (elim o [ none ↦ addresses specs | some b ↦ b ∷ addresses specs ]) a ≡ false
        → (contains (addresses specs) a ≡ false → group a specs ≡ [])
        → (if elim o [ none ↦ false | some b ↦ b == a ]
            then spec ∷ group a specs
            else group a specs)
          ≡ []
    by_address none f rest = rest f
    by_address (some b) f rest = by_test (b == a) (ground (arith, f))
      where
        by_test : (t : Bool) → t ≡ false → (if t then spec ∷ group a specs else group a specs) ≡ []
        by_test true g = absurd (cc)
        by_test false g = rest (ground (arith, f))

pub reject_conflicting-Agree :
    (blocks : List ProcessBlock)
    → reject_conflicting_endpoints blocks ≡ none
    → (a : ℕ) → Agree (group a (all_endpoints blocks))
reject_conflicting-Agree blocks e a = by_test (contains (addresses specs) a) refl
  where
    specs : List EndpointSpec
    specs = all_endpoints blocks

    by_test : (b : Bool) → contains (addresses specs) a ≡ b → Agree (group a specs)
    by_test true f =
        first_conflict-Agree (dedup (addresses specs)) specs a e
          (contains-dedup (addresses specs) a ∙ f)
    by_test false f = subst Agree (sym (group-absent specs a f)) tt

pub require_exactly_one-some :
    (ps : List ℕ) → require_exactly_one ps ≡ none → (p : ℕ) × (ps ≡ p ∷ [])
require_exactly_one-some [] e = absurd (cc)
require_exactly_one-some (p ∷ []) e = (p, refl)
require_exactly_one-some (p ∷ q ∷ ps) e = absurd (cc)

pub parse_block-OwnAddresses :
    (process_id : ℕ) (primary : Bool) (endpoints : List EndpointSpec) (block : ProcessBlock)
    → parse_block process_id primary endpoints ≡ ok block
    → OwnAddresses block
unfolding parse_block
parse_block-OwnAddresses process_id primary endpoints block e =
    by_test (find_repeated [] (addresses endpoints)) refl e
  where
    made : ProcessBlock
    made = record { process_id = process_id; primary = primary; endpoints = endpoints }

    by_test :
        (b : Bool)
        → find_repeated [] (addresses endpoints) ≡ b
        → unless (if b then some (duplicate_address process_id) else none) (ok made) ≡ ok block
        → OwnAddresses block
    by_test true f g = absurd (cc)
    by_test false f g =
        subst OwnAddresses (ok_unique g) (find_repeated-IsDistinct (addresses endpoints) [] f)
