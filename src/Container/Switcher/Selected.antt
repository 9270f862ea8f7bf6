-- ===== src/Container/Switcher/Selected.antt =====
-- core/container/switcher.py: after any calls, what an interface points at.
use xime_framework.Prelude.{
  ℕ, ◌≡◌, refl, Bool, true, false, ◌&&◌, Option, none, some, List, [], ◌∷◌, arith, ap, sym, ◌∙◌,
  ◌==◌, if◌then◌else◌, contains, map, IsDistinct, some_unique,
}
use xime_framework.Container.Registry.{put}
use xime_framework.Container.Switcher.{
  Implementations, declared, Tuples, find, Switcher, default_of, create, Called, select, use_known,
  switch_to, reset_each, reset_known, reset_one, reset, not_declared, disabled,
}

abbrev interfaces : Tuples → List ℕ
interfaces tuples = map (λ (t : ℕ × Implementations). t.0) tuples

find-absent :
    (tuples : Tuples) (k : ℕ) → contains (interfaces tuples) k ≡ false → find tuples k ≡ none
find-absent [] k h = refl
find-absent ((i, impls) ∷ rest) k h = ground (arith, find-absent rest k)

reset_each-absent :
    (tuples : Tuples) (current : ℕ → Option ℕ) (k : ℕ)
    → find tuples k ≡ none
    → reset_each tuples current k ≡ current k
unfolding reset_each
reset_each-absent [] current k h = refl
reset_each-absent ((i, impls) ∷ rest) current k h =
    reset_each-absent rest (put i (some impls.first) current) k (ground (arith, h))
    ∙ ground (arith, h)

reset_each_lem :
    (tuples : Tuples) (current : ℕ → Option ℕ) (k : ℕ) (impls : Implementations)
    → IsDistinct (interfaces tuples)
    → find tuples k ≡ some impls
    → reset_each tuples current k ≡ some impls.first
unfolding reset_each
reset_each_lem [] current k impls d h = absurd (cc)
reset_each_lem ((i, t) ∷ rest) current k impls d h =
    by_rest (find rest k) refl (reset_each_lem rest (put i (some t.first) current) k impls d.1)
      (reset_each-absent rest (put i (some t.first) current) k)
  where
    by_rest :
        (o : Option Implementations)
        → find rest k ≡ o
        → (find rest k ≡ some impls
            → reset_each rest (put i (some t.first) current) k ≡ some impls.first)
        → (find rest k ≡ none
            → reset_each rest (put i (some t.first) current) k ≡ put i (some t.first) current k)
        → reset_each rest (put i (some t.first) current) k ≡ some impls.first
    by_rest none e found absent = absent e ∙ by_head (i == k) refl h
      where
        by_head :
            (b : Bool)
            → (i == k) ≡ b
            → (if b then some t else find rest k) ≡ some impls
            → (if b then some t.first else current k) ≡ some impls.first
        by_head true same f = ap default_of f
        by_head false same f = absurd (missing (sym e ∙ f))
          where
            missing : none ≡ some impls → ⊥
            missing q = cc
    by_rest (some u) e found absent = found (by_head (i == k) refl h)
      where
        by_head :
            (b : Bool)
            → (i == k) ≡ b
            → (if b then some t else find rest k) ≡ some impls
            → find rest k ≡ some impls
        by_head true same f = absurd (
            missing
              (sym (find-absent rest k (ap (contains (interfaces rest)) (equal same) ∙ d.0)) ∙ e))
          where
            missing : none ≡ some u → ⊥
            missing q = cc

            equal : (i == k) ≡ true → k ≡ i
            equal q = ground arith
        by_head false same f = f

-- A call of the application.
pub data Switching : Type 0 where
  using : ℕ → ℕ → Switching
  resetting : Option ℕ → Switching

unfoldable pub call : Switcher → Switching → Switcher
unfolding switch_to reset
call switcher (using interface implementation) = (switch_to switcher interface implementation).1
call switcher (resetting interface) = (reset switcher interface).1

unfoldable pub call_all : Switcher → List Switching → Switcher
unfolding call
call_all switcher [] = switcher
call_all switcher (c ∷ rest) = call_all (call switcher c) rest

-- The implementation of the interface `k` after a call, told by the calls alone.
abbrev pub selected : ℕ → Implementations → ℕ → Switching → ℕ
selected k impls now (using interface implementation) =
    if interface == k && contains (declared impls) implementation then implementation else now
selected k impls now (resetting none) = impls.first
selected k impls now (resetting (some interface)) = if interface == k then impls.first else now

abbrev pub selected_all : Bool → ℕ → Implementations → ℕ → List Switching → ℕ
selected_all enabled k impls now [] = now
selected_all enabled k impls now (c ∷ rest) =
    selected_all enabled k impls (if enabled then selected k impls now c else now) rest

module _ (tuples : Tuples) (k : ℕ) (impls : Implementations) (dist : IsDistinct (interfaces tuples))
    (dynamic : find tuples k ≡ some impls) where
  record Holds (switcher : Switcher) (enabled : Bool) (now : ℕ) : Type 0 where
    on : switcher.enabled ≡ enabled
    same : switcher.tuples ≡ tuples
    points : switcher.current k ≡ some now

  same_tuple : (t : Implementations) (i : ℕ) → find tuples i ≡ some t → (i == k) ≡ true → t ≡ impls
  same_tuple t i e same = some_unique e (ap (find tuples) (equal same) ∙ dynamic)
    where
      equal : (i == k) ≡ true → i ≡ k
      equal q = ground arith

  other : (i : ℕ) → find tuples i ≡ none → (i == k) ≡ false
  other i e = by_test (i == k) refl
    where
      by_test : (b : Bool) → (i == k) ≡ b → b ≡ false
      by_test false q = refl
      by_test true q = absurd (missing (sym e ∙ ap (find tuples) (equal q) ∙ dynamic))
        where
          missing : none ≡ some impls → ⊥
          missing r = cc

          equal : (i == k) ≡ true → i ≡ k
          equal r = ground arith

  use_known-Holds :
      (s : Switcher) (now i x : ℕ) (o : Option Implementations)
      → Holds s true now
      → find tuples i ≡ o
      → Holds (use_known s i x o).1 true (selected k impls now (using i x))
  unfolding use_known
  use_known-Holds s now i x none h e = record {
    on = h.on;
    same = h.same;
    points = ground (arith, other i e, h.points);
  }
  use_known-Holds s now i x (some t) h e = by_test (contains (declared t) x) refl
    where
      same_test : (i == k) ≡ true → contains (declared impls) x ≡ contains (declared t) x
      same_test q = ap (λ u. contains (declared u) x) (sym (same_tuple t i e q))

      chosen :
          (q b : Bool)
          → (i == k) ≡ q
          → contains (declared t) x ≡ b
          → (if b then if q then some x else s.current k else s.current k)
            ≡ some (if q && contains (declared impls) x then x else now)
      chosen true b q c = ground (arith, same_test q, c, h.points)
      chosen false true q c = h.points
      chosen false false q c = h.points

      by_test :
          (b : Bool)
          → contains (declared t) x ≡ b
          → Holds
              (if◌then◌else◌ {A = Called} b (none, select s i x) (some (not_declared i x), s)).1
              true
              (selected k impls now (using i x))
      by_test true c = record { on = h.on; same = h.same; points = chosen (i == k) true refl c }
      by_test false c = record { on = h.on; same = h.same; points = chosen (i == k) false refl c }

  reset_known-Holds :
      (s : Switcher) (now i : ℕ) (o : Option Implementations)
      → Holds s true now
      → find tuples i ≡ o
      → Holds (reset_known s i o).1 true (selected k impls now (resetting (some i)))
  unfolding reset_known
  reset_known-Holds s now i none h e = record {
    on = h.on;
    same = h.same;
    points = ground (arith, other i e, h.points);
  }
  reset_known-Holds s now i (some t) h e = record {
    on = h.on;
    same = h.same;
    points = chosen (i == k) refl;
  }
    where
      chosen :
          (q : Bool)
          → (i == k) ≡ q
          → (if q then some t.first else s.current k) ≡ some (if q then impls.first else now)
      chosen true q = ap (λ (u : Implementations). some u.first) (same_tuple t i e q)
      chosen false q = h.points

  reset_one-Holds :
      (s : Switcher) (now : ℕ) (o : Option ℕ)
      → Holds s true now
      → Holds (reset_one s o).1 true (selected k impls now (resetting o))
  unfolding reset_one
  reset_one-Holds s now none h = record {
    on = h.on;
    same = h.same;
    points =
        ap (λ t. reset_each t s.current k) h.same
        ∙ reset_each_lem tuples s.current k impls dist dynamic;
  }
  reset_one-Holds s now (some i) h =
      reset_known-Holds s now i (find s.tuples i) h (ap (λ t. find t i) (sym h.same))

  call-Holds :
      (s : Switcher) (b : Bool) (now : ℕ) (c : Switching)
      → s.enabled ≡ b
      → Holds s b now
      → Holds (call s c) b (if b then selected k impls now c else now)
  unfolding call switch_to reset
  call-Holds s true now (using i x) e h = enabled_case s.enabled e
    where
      enabled_case :
          (b : Bool)
          → b ≡ true
          → Holds
              (if◌then◌else◌ {A = Called} b
                (use_known s i x (find s.tuples i))
                (some disabled, s)).1
              true
              (selected k impls now (using i x))
      enabled_case true q =
          use_known-Holds s now i x (find s.tuples i) h (ap (λ t. find t i) (sym h.same))
      enabled_case false q = absurd (cc)
  call-Holds s true now (resetting o) e h = enabled_case s.enabled e
    where
      enabled_case :
          (b : Bool)
          → b ≡ true
          → Holds
              (if◌then◌else◌ {A = Called} b (reset_one s o) (some disabled, s)).1
              true
              (selected k impls now (resetting o))
      enabled_case true q = reset_one-Holds s now o h
      enabled_case false q = absurd (cc)
  call-Holds s false now (using i x) e h = disabled_case s.enabled e
    where
      disabled_case :
          (b : Bool)
          → b ≡ false
          → Holds
              (if◌then◌else◌ {A = Called} b
                (use_known s i x (find s.tuples i))
                (some disabled, s)).1
              false
              now
      disabled_case false q = h
      disabled_case true q = absurd (cc)
  call-Holds s false now (resetting o) e h = disabled_case s.enabled e
    where
      disabled_case :
          (b : Bool)
          → b ≡ false
          → Holds (if◌then◌else◌ {A = Called} b (reset_one s o) (some disabled, s)).1 false now
      disabled_case false q = h
      disabled_case true q = absurd (cc)

  call_all-Holds :
      (s : Switcher) (b : Bool) (now : ℕ) (calls : List Switching)
      → Holds s b now
      → Holds (call_all s calls) b (selected_all b k impls now calls)
  unfolding call_all
  call_all-Holds s b now [] h = h
  call_all-Holds s b now (c ∷ rest) h =
      call_all-Holds (call s c) b (if b then selected k impls now c else now) rest
        (call-Holds s b now c h.on h)

  selected_all-declared :
      (b : Bool) (now : ℕ) (calls : List Switching)
      → contains (declared impls) now ≡ true
      → contains (declared impls) (selected_all b k impls now calls) ≡ true
  selected_all-declared b now [] h = h
  selected_all-declared b now (c ∷ rest) h =
      selected_all-declared b (if b then selected k impls now c else now) rest (one b c)
    where
      one :
          (b : Bool) (c : Switching)
          → contains (declared impls) (if b then selected k impls now c else now) ≡ true
      one true (using i x) = ground (arith, h)
      one true (resetting none) = ground arith
      one true (resetting (some i)) = ground (arith, h)
      one false c = h

  -- Where the interfaces of the tuples are distinct: after any calls of use() and reset(), a
  -- dynamic interface points at the implementation that the last call for it, or the last reset of
  -- all, has set, and at its default before the first; calls that are refused, and all calls where
  -- the feature is disabled, change nothing; and it is always one of the declared implementations.
  pub call_all-selected :
      (enabled : Bool) (calls : List Switching)
      → ((call_all (create tuples enabled) calls).current k
          ≡ some (selected_all enabled k impls impls.first calls))
        × (contains (declared impls) (selected_all enabled k impls impls.first calls) ≡ true)
  call_all-selected enabled calls = (
    (call_all-Holds (create tuples enabled) enabled impls.first calls
        (record { on = refl; same = refl; points = ap default_of dynamic })).points,
    selected_all-declared enabled impls.first calls (ground arith),
  )
