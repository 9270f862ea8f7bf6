-- ===== src/Modbus/Planner/Plans.antt =====
-- adapters/modbus/_planner.py: what plan_reads returns, or which field it refuses.
use xime_framework.Prelude.{
  ℕ, ◌+◌, ◌≤◌, ◌<◌, ◌≡◌, refl, Bool, true, false, ◌&&◌, List, [], ◌∷◌, ◌++◌, arith, leb, ltb, max,
  keep, if◌then◌else◌, ◌⊎◌, inl, inr, ap, subst, sym, ◌∙◌, All, Any, All-map, All-append, Any-map,
  Any-append_left, Any-append_right, All-Any, All-keep, keep-All,
}
use xime_framework.Modbus.Model.{
  Area, coil, discrete, input, holding, same_area, ModbusField, word_count, end_address,
}
use xime_framework.Modbus.Planner.{
  ReadCommand, covers, Plan, planned, too_large, limit_of, command_for, prepend, insert_field,
  sort_fields, plan_rest, plan_area, join, in_area, areas, plan_areas, plan_reads,
}
use xime_framework.Modbus.Planner.Sorting.{
  IsSorted, sort_fields-All, All-sort_fields, sort_fields-IsSorted,
}
use xime_framework.Modbus.Planner.Runs.{plan_rest-Loop}
use xime_framework.Modbus.Planner.Coverage.{
  IsCovered, IsSound, Loop-IsCovered, Loop-IsSound, Member,
}

-- The field is one of the list and is larger than one read of its area.
abbrev pub IsRefused : List ModbusField → ModbusField → Type 0
IsRefused fields f = (limit_of f.area < word_count f) × Any (λ g. g ≡ f) fields

module _ (area : Area) (max_gap : ℕ) where
  same_limit : (f : ModbusField) → same_area f.area area ≡ true → limit_of f.area ≡ limit_of area
  same_limit f e = ground arith

  -- A field that is refused is one of the fields, and is too large.
  Blames : List ModbusField → Plan (List ReadCommand) → Type 0
  Blames fields (planned commands) = Unit
  Blames fields (too_large f) = (limit_of area < word_count f) × Any (λ g. g ≡ f) fields

  later_Blames :
      (f : ModbusField) (fields : List ModbusField) (r : Plan (List ReadCommand))
      → Blames fields r
      → Blames (f ∷ fields) r
  unfolding Blames
  later_Blames f fields (planned commands) b = tt
  later_Blames f fields (too_large g) b = (b.0, inr b.1)

  prepend-Blames :
      (c : ReadCommand) (fields : List ModbusField) (r : Plan (List ReadCommand))
      → Blames fields r
      → Blames fields (prepend c r)
  unfolding Blames
  prepend-Blames c fields (planned commands) b = tt
  prepend-Blames c fields (too_large g) b = b

  plan_rest-Blames :
      (fields : List ModbusField) (start end : ℕ)
      → Blames fields (plan_rest area max_gap fields start end)
  unfolding Blames plan_rest
  plan_rest-Blames [] start end = tt
  plan_rest-Blames (f ∷ fields) start end =
      by_size (ltb (limit_of area) (word_count f)) refl (plan_rest-Blames fields)
    where
      by_test :
          (b : Bool) (size : ℕ)
          → ((s e : ℕ) → Blames fields (plan_rest area max_gap fields s e))
          → Blames (f ∷ fields) (elim b as (λ _. Plan (List ReadCommand)) [
            | true ↦ plan_rest area max_gap fields start (max end (f.address + size))
            | false ↦
                prepend
                  (command_for area start end)
                  (plan_rest area max_gap fields f.address (f.address + size))
          ])
      by_test true size ih = later_Blames f fields _ (ih start (max end (f.address + size)))
      by_test false size ih =
          later_Blames f fields _
            (prepend-Blames (command_for area start end) fields _ (ih f.address (f.address + size)))

      by_size :
          (big : Bool)
          → ltb (limit_of area) (word_count f) ≡ big
          → ((s e : ℕ) → Blames fields (plan_rest area max_gap fields s e))
          → Blames
              (f ∷ fields)
              (elim (if big then too_large f else planned (word_count f))
                as (λ _. Plan (List ReadCommand)) [
                  | too_large g ↦ too_large g
                  | planned size ↦
                      elim (leb f.address (end + max_gap)
                        && leb (f.address + size) (start + limit_of area)) [
                          | true ↦ plan_rest area max_gap fields start (max end (f.address + size))
                          | false ↦
                              prepend
                                (command_for area start end)
                                (plan_rest area max_gap fields f.address (f.address + size))
                        ]
                ])
      by_size true e ih = (ground arith, inl refl)
      by_size false e ih =
          by_test
            (leb f.address (end + max_gap)
              && leb (f.address + word_count f) (start + limit_of area))
            (word_count f) ih

  module _ (all : List ModbusField) where
    AreaPlan : List ModbusField → Plan (List ReadCommand) → Type 0
    AreaPlan fields (planned commands) =
        All (IsCovered commands) fields × All (IsSound max_gap all) commands
    AreaPlan fields (too_large f) = (limit_of area < word_count f) × Any (λ g. g ≡ f) fields

    loop-AreaPlan :
        (f : ModbusField) (fields : List ModbusField) (r : Plan (List ReadCommand))
        → plan_rest area max_gap fields f.address (end_address f) ≡ r
        → Blames fields r
        → word_count f ≤ limit_of area
        → IsSorted (f ∷ fields)
        → All (λ g. same_area g.area area ≡ true) (f ∷ fields)
        → All (λ g. 1 ≤ word_count g) (f ∷ fields)
        → All (Member area max_gap all) (f ∷ fields)
        → AreaPlan (f ∷ fields) r
    unfolding Blames AreaPlan
    loop-AreaPlan f fields (too_large g) e b small s i z m = (b.0, inr b.1)
    loop-AreaPlan f fields (planned commands) e b small s i z m =
        let run = plan_rest-Loop area max_gap fields f.address (end_address f) commands e in
        let (own, rest) =
          Loop-IsCovered area max_gap fields f.address (end_address f) commands run (omega arith)
            s.0 s.1 i.1 in
        (
          (own f i.0 (omega arith) (omega arith), rest),
          Loop-IsSound area max_gap all fields f.address (end_address f) commands run
              (omega (arith, z.0)) (omega arith) s.0 s.1 z.1 m.1 (λ a p q. m.0 a (omega arith) q),
        )

    plan_area-AreaPlan :
        (fields : List ModbusField)
        → IsSorted fields
        → All (λ g. same_area g.area area ≡ true) fields
        → All (λ g. 1 ≤ word_count g) fields
        → All (Member area max_gap all) fields
        → AreaPlan fields (plan_area area max_gap fields)
    unfolding plan_area AreaPlan
    plan_area-AreaPlan [] s i z m = (tt, tt)
    plan_area-AreaPlan (f ∷ fields) s i z m = by_size (ltb (limit_of area) (word_count f)) refl
      where
        by_size :
            (big : Bool)
            → ltb (limit_of area) (word_count f) ≡ big
            → AreaPlan
                (f ∷ fields)
                (elim (if big then too_large f else planned (word_count f))
                  as (λ _. Plan (List ReadCommand)) [
                    | too_large g ↦ too_large g
                    | planned size ↦ plan_rest area max_gap fields f.address (f.address + size)
                  ])
        by_size true e = (ground arith, inl refl)
        by_size false e =
            loop-AreaPlan f fields (plan_rest area max_gap fields f.address (end_address f)) refl
              (plan_rest-Blames fields f.address (end_address f)) (ground arith) s i z m

-- A plan for all fields of some areas.
AreasPlan : ℕ → List Area → List ModbusField → Plan (List ReadCommand) → Type 0
AreasPlan max_gap list fields (planned commands) =
    All (λ area. All (λ f. same_area f.area area ≡ true → IsCovered commands f) fields) list
    × All (IsSound max_gap fields) commands
AreasPlan max_gap list fields (too_large f) = IsRefused fields f

Any-keep :
    (q : ModbusField → Bool) (f : ModbusField) (xs : List ModbusField)
    → Any (λ g. g ≡ f) (keep q xs)
    → (q f ≡ true) × Any (λ g. g ≡ f) xs
Any-keep q f [] h = absurd h
Any-keep q f (x ∷ xs) h = by_test (q x) refl (Any-keep q f xs) h
  where
    by_test :
        (b : Bool)
        → q x ≡ b
        → (Any (λ g. g ≡ f) (keep q xs) → (q f ≡ true) × Any (λ g. g ≡ f) xs)
        → Any (λ g. g ≡ f) (if b then x ∷ keep q xs else keep q xs)
        → (q f ≡ true) × Any (λ g. g ≡ f) (x ∷ xs)
    by_test true e rest (inl same) = (ap q (sym same) ∙ e, inl same)
    by_test true e rest (inr h) = let (p, m) = rest h in (p, inr m)
    by_test false e rest h = let (p, m) = rest h in (p, inr m)

Any-insert_field :
    (f x : ModbusField) (xs : List ModbusField)
    → Any (λ g. g ≡ f) (insert_field x xs)
    → (x ≡ f) ⊎ Any (λ g. g ≡ f) xs
unfolding insert_field
Any-insert_field f x [] (inl e) = inl e
Any-insert_field f x [] (inr h) = absurd h
Any-insert_field f x (y ∷ ys) h = by_test (leb x.address y.address) (Any-insert_field f x ys) h
  where
    by_test :
        (b : Bool)
        → (Any (λ g. g ≡ f) (insert_field x ys) → (x ≡ f) ⊎ Any (λ g. g ≡ f) ys)
        → Any (λ g. g ≡ f) (if b then x ∷ y ∷ ys else y ∷ insert_field x ys)
        → (x ≡ f) ⊎ Any (λ g. g ≡ f) (y ∷ ys)
    by_test true rest (inl e) = inl e
    by_test true rest (inr k) = inr k
    by_test false rest (inl e) = inr (inl e)
    by_test false rest (inr k) = elim (rest k) [ inl e ↦ inl e | inr m ↦ inr (inr m) ]

Any-sort_fields :
    (f : ModbusField) (xs : List ModbusField)
    → Any (λ g. g ≡ f) (sort_fields xs)
    → Any (λ g. g ≡ f) xs
unfolding sort_fields
Any-sort_fields f [] h = h
Any-sort_fields f (x ∷ xs) h = elim (Any-insert_field f x (sort_fields xs) h) [
  | inl e ↦ inl e
  | inr m ↦ inr (Any-sort_fields f xs m)
]

module _ (max_gap : ℕ) (fields : List ModbusField) where
  join-AreasPlan :
      (area : Area) (list : List Area) (r s : Plan (List ReadCommand))
      → AreaPlan area max_gap fields (sort_fields (in_area area fields)) r
      → AreasPlan max_gap list fields s
      → AreasPlan max_gap (area ∷ list) fields (join r s)
  unfolding AreaPlan AreasPlan
  join-AreasPlan area list (too_large f) s h k =
      let (inside, m) =
        Any-keep (λ g. same_area g.area area) f fields
          (Any-sort_fields f (in_area area fields) h.1) in
      (subst (λ n. n < word_count f) (sym (same_limit area max_gap f inside)) h.0, m)
  join-AreasPlan area list (planned xs) (too_large f) h k = k
  join-AreasPlan area list (planned xs) (planned ys) h k = (
    (
      All-map (λ f. same_area f.area area ≡ true → IsCovered xs f)
          (λ f. same_area f.area area ≡ true → IsCovered (xs ++ ys) f) fields
          (λ f c e. Any-append_left (λ d. covers d f ≡ true) xs ys (c e))
          (All-keep (IsCovered xs) (λ f. same_area f.area area) fields
            (All-sort_fields (IsCovered xs) (in_area area fields) h.0)),
      All-map (λ b. All (λ f. same_area f.area b ≡ true → IsCovered ys f) fields)
          (λ b. All (λ f. same_area f.area b ≡ true → IsCovered (xs ++ ys) f) fields) list
          (λ b c.
            All-map (λ f. same_area f.area b ≡ true → IsCovered ys f)
              (λ f. same_area f.area b ≡ true → IsCovered (xs ++ ys) f) fields
              (λ f d e. Any-append_right (λ x. covers x f ≡ true) xs ys (d e)) c)
          k.0,
    ),
    All-append (IsSound max_gap fields) xs ys h.1 k.1,
  )

  -- Every field of the list is needed wherever a read may touch it.
  members :
      (area : Area) → All (λ f. same_area f.area area ≡ true → Member area max_gap fields f) fields
  members area =
      All-map (λ f. Any (λ g. f ≡ g) fields)
        (λ f. same_area f.area area ≡ true → Member area max_gap fields f) fields
        (λ f m e a p q.
          Any-map (λ g. f ≡ g)
            (λ g. (same_area g.area area ≡ true) × (g.address ≤ a + max_gap) × (a < end_address g))
            fields
            (λ g same.
              subst
                (λ x.
                  (same_area x.area area ≡ true) × (x.address ≤ a + max_gap) × (a < end_address x))
                same (e, p, q))
            m)
        (All-Any (λ f g. f ≡ g) fields (λ f. refl))

  plan_areas-AreasPlan :
      (list : List Area)
      → All (λ f. 1 ≤ word_count f) fields
      → AreasPlan max_gap list fields (plan_areas list fields max_gap)
  unfolding AreasPlan plan_areas
  plan_areas-AreasPlan [] z = (tt, tt)
  plan_areas-AreasPlan (area ∷ list) z =
      join-AreasPlan area list (plan_area area max_gap (sort_fields (in_area area fields)))
        (plan_areas list fields max_gap)
        (plan_area-AreaPlan area max_gap fields (sort_fields (in_area area fields))
          (sort_fields-IsSorted (in_area area fields))
          (ordered (λ f. same_area f.area area ≡ true)
            (All-map (λ f. 1 ≤ word_count f)
              (λ f. same_area f.area area ≡ true → same_area f.area area ≡ true) fields (λ f p e. e)
              z))
          (ordered (λ f. 1 ≤ word_count f)
            (All-map (λ f. 1 ≤ word_count f) (λ f. same_area f.area area ≡ true → 1 ≤ word_count f)
              fields (λ f p e. p) z))
          (ordered (Member area max_gap fields) (members area)))
        (plan_areas-AreasPlan list z)
    where
      ordered :
          (P : ModbusField → Type 0)
          → All (λ f. same_area f.area area ≡ true → P f) fields
          → All P (sort_fields (in_area area fields))
      ordered P h =
          sort_fields-All P (in_area area fields) (keep-All P (λ f. same_area f.area area) fields h)

some_area :
    {C : Type 0} (a : Area)
    → (same_area a coil ≡ true → C)
    → (same_area a discrete ≡ true → C)
    → (same_area a input ≡ true → C)
    → (same_area a holding ≡ true → C)
    → C
some_area coil c d i h = c refl
some_area discrete c d i h = d refl
some_area input c d i h = i refl
some_area holding c d i h = h refl

every_area :
    (commands : List ReadCommand) (fields : List ModbusField)
    → All (λ area. All (λ f. same_area f.area area ≡ true → IsCovered commands f) fields) areas
    → All (IsCovered commands) fields
every_area commands [] h = tt
every_area commands (f ∷ fields) (c, (d, (i, (h, _)))) =
    (some_area f.area c.0 d.0 i.0 h.0, every_area commands fields (c.1, (d.1, (i.1, (h.1, tt)))))

-- What the caller of `plan_reads` gets.
abbrev pub IsPlan : ℕ → List ModbusField → Plan (List ReadCommand) → Type 0
IsPlan max_gap fields (planned commands) =
    All (IsCovered commands) fields × All (IsSound max_gap fields) commands
IsPlan max_gap fields (too_large f) = IsRefused fields f

plan-IsPlan :
    (max_gap : ℕ) (fields : List ModbusField) (r : Plan (List ReadCommand))
    → AreasPlan max_gap areas fields r
    → IsPlan max_gap fields r
unfolding AreasPlan
plan-IsPlan max_gap fields (planned commands) h = (every_area commands fields h.0, h.1)
plan-IsPlan max_gap fields (too_large f) h = h

-- For fields of at least one word, `plan_reads` returns commands that cover every field, where
-- each command reads at least one address, at most the limit of its area, and only addresses that
-- lie in a field of its area or at most `max_gap` before one; or it refuses, and the field it
-- names is one of the list and larger than one read of its area.
pub plan_reads-IsPlan :
    (fields : List ModbusField) (max_gap : ℕ)
    → All (λ f. 1 ≤ word_count f) fields
    → IsPlan max_gap fields (plan_reads fields max_gap)
unfolding plan_reads
plan_reads-IsPlan fields max_gap z =
    plan-IsPlan max_gap fields (plan_areas areas fields max_gap)
      (plan_areas-AreasPlan max_gap fields areas z)
