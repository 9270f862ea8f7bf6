-- ===== src/Modbus/Planner/Keys.antt =====
-- adapters/modbus/_planner.py: no two commands of a plan begin at one address of one area.
use xime_framework.Prelude.{
  ℕ, ◌+◌, ◌≤◌, ◌<◌, ◌≡◌, refl, Bool, true, false, ◌&&◌, ◌||◌, List, [], ◌∷◌, ◌++◌, arith, ltb, max,
  if◌then◌else◌, ap, subst, All, All-map, All-append, ◌==◌,
}
use xime_framework.Modbus.Model.{
  Area, coil, discrete, input, holding, same_area, ModbusField, word_count, end_address,
}
use xime_framework.Modbus.Planner.{
  ReadCommand, Plan, planned, too_large, limit_of, sort_fields, plan_rest, plan_area, join, in_area,
  areas, plan_areas, plan_reads,
}
use xime_framework.Modbus.Planner.Sorting.{IsSorted, sort_fields-IsSorted}
use xime_framework.Modbus.Planner.Runs.{Loop, last, merge, split, fits, plan_rest-Loop}

abbrev pub same_key : ReadCommand → ReadCommand → Bool
same_key c d = same_area c.area d.area && c.address == d.address

-- The commands have different keys.
abbrev pub IsKeyed : List ReadCommand → Type 0
IsKeyed [] = Unit
IsKeyed (c ∷ cs) = All (λ d. same_key c d ≡ false) cs × IsKeyed cs

IsKeyed-append :
    (cs ds : List ReadCommand)
    → IsKeyed cs
    → IsKeyed ds
    → All (λ c. All (λ d. same_key c d ≡ false) ds) cs
    → IsKeyed (cs ++ ds)
IsKeyed-append [] ds h k apart = k
IsKeyed-append (c ∷ cs) ds h k apart =
    (All-append (λ d. same_key c d ≡ false) cs ds h.0 apart.0, IsKeyed-append cs ds h.1 k apart.1)

other_start :
    (a : Area) (start t : ℕ) (d : ReadCommand)
    → start < t
    → t ≤ d.address
    → (same_area a d.area && start == d.address) ≡ false
other_start a start t d h k = ground arith

module _ (area : Area) where
  abbrev Above : ℕ → List ReadCommand → Type 0
  Above start cs = All (λ (d : ReadCommand). (d.area ≡ area) × (start ≤ d.address)) cs

  Above-lower : (s t : ℕ) (cs : List ReadCommand) → s ≤ t → Above t cs → Above s cs
  Above-lower s t cs h = All-map _ _ cs (λ d k. (k.0, omega (arith, h, k.1)))

  later_start :
      (max_gap : ℕ) (f : ModbusField) (start end : ℕ)
      → fits area max_gap f start end ≡ false
      → word_count f ≤ limit_of area
      → start ≤ f.address
      → start ≤ end
      → start < f.address
  later_start max_gap f start end apart small after o = ground arith

  Loop-IsKeyed :
      (max_gap : ℕ) (fields : List ModbusField) (start end : ℕ) (commands : List ReadCommand)
      → Loop area max_gap fields start end commands
      → start ≤ end
      → All (λ g. start ≤ g.address) fields
      → IsSorted fields
      → Above start commands × IsKeyed commands
  Loop-IsKeyed max_gap _ _ _ _ (last start end) o after sorted =
      (((refl, omega arith), tt), (tt, tt))
  Loop-IsKeyed max_gap _ _ _ _ (merge {fields} {start} {end} {commands} f small near short run) o
        after sorted =
      Loop-IsKeyed max_gap fields start (max end (end_address f)) commands run (omega (arith, o))
        after.1 sorted.1
  Loop-IsKeyed max_gap _ _ _ _ (split {fields} {start} {end} {commands} f small apart run) o after
        sorted =
      let rises = later_start max_gap f start end apart small after.0 o in
      let (above, keyed) =
        Loop-IsKeyed max_gap fields f.address (end_address f) commands run (omega arith) sorted.0
          sorted.1 in
      (
        ((refl, omega arith), Above-lower start f.address commands (omega (arith, rises)) above),
        (All-map _ _ commands (λ d k. other_start area start f.address d rises k.1) above, keyed),
      )

  -- What plan_area returns, when it returns.
  abbrev AreaKeys : Plan (List ReadCommand) → Type 0
  AreaKeys (planned cs) = All (λ (d : ReadCommand). d.area ≡ area) cs × IsKeyed cs
  AreaKeys (too_large f) = Unit

  loop-AreaKeys :
      (max_gap : ℕ) (f : ModbusField) (fields : List ModbusField) (r : Plan (List ReadCommand))
      → plan_rest area max_gap fields f.address (end_address f) ≡ r
      → IsSorted (f ∷ fields)
      → AreaKeys r
  loop-AreaKeys max_gap f fields (too_large g) e sorted = tt
  loop-AreaKeys max_gap f fields (planned cs) e sorted =
      let run = plan_rest-Loop area max_gap fields f.address (end_address f) cs e in
      let (above, keyed) =
        Loop-IsKeyed max_gap fields f.address (end_address f) cs run (omega arith) sorted.0
          sorted.1 in
      (All-map _ _ cs (λ d k. k.0) above, keyed)

  plan_area-AreaKeys :
      (max_gap : ℕ) (fields : List ModbusField)
      → IsSorted fields
      → AreaKeys (plan_area area max_gap fields)
  unfolding plan_area
  plan_area-AreaKeys max_gap [] sorted = (tt, tt)
  plan_area-AreaKeys max_gap (f ∷ fields) sorted = by_size (ltb (limit_of area) (word_count f))
    where
      by_size :
          (big : Bool)
          → AreaKeys
              (elim (if big then too_large f else planned (word_count f))
                as (λ _. Plan (List ReadCommand)) [
                  | too_large g ↦ too_large g
                  | planned size ↦ plan_rest area max_gap fields f.address (f.address + size)
                ])
      by_size true = tt
      by_size false = loop-AreaKeys max_gap f fields _ refl sorted

-- The commands of a plan have different keys, and areas of the list.
abbrev in_areas : List Area → Area → Bool
in_areas [] a = false
in_areas (b ∷ bs) a = same_area b a || in_areas bs a

abbrev IsApart : List Area → Type 0
IsApart [] = Unit
IsApart (a ∷ list) = (in_areas list a ≡ false) × IsApart list

abbrev Keys : List Area → Plan (List ReadCommand) → Type 0
Keys list (planned cs) = All (λ (d : ReadCommand). in_areas list d.area ≡ true) cs × IsKeyed cs
Keys list (too_large f) = Unit

pub same_area_self : (a : Area) → same_area a a ≡ true
same_area_self coil = refl
same_area_self discrete = refl
same_area_self input = refl
same_area_self holding = refl

pub same_area_eq : (a b : Area) → same_area a b ≡ true → a ≡ b
same_area_eq coil coil e = refl
same_area_eq discrete discrete e = refl
same_area_eq input input e = refl
same_area_eq holding holding e = refl
same_area_eq a b e = absurd (cc)

-- Commands of different areas have different keys.
other_area :
    (area : Area) (list : List Area) (c d : ReadCommand)
    → in_areas list area ≡ false
    → c.area ≡ area
    → in_areas list d.area ≡ true
    → same_key c d ≡ false
other_area area list c d out e f = by_test (same_area c.area d.area) refl
  where
    by_test : (b : Bool) → same_area c.area d.area ≡ b → (b && c.address == d.address) ≡ false
    by_test false g = refl
    by_test true g =
        let inside = ap (in_areas list) (same_area_eq c.area d.area g) in
        let outside = ap (in_areas list) e in absurd (cc)

join-Keys :
    (area : Area) (list : List Area) (r s : Plan (List ReadCommand))
    → in_areas list area ≡ false
    → AreaKeys area r
    → Keys list s
    → Keys (area ∷ list) (join r s)
join-Keys area list (too_large f) s out h k = tt
join-Keys area list (planned xs) (too_large f) out h k = tt
join-Keys area list (planned xs) (planned ys) out h k = (
  All-append _ xs ys
      (All-map _ _ xs (λ d e. ground (arith, same_area_self area, ap (same_area area) e)) h.0)
      (All-map _ _ ys (λ d e. ground (arith, e)) k.0),
  IsKeyed-append xs ys h.1 k.1
      (All-map _ _ xs (λ c e. All-map _ _ ys (λ d f. other_area area list c d out e f) k.0) h.0),
)

plan_areas-Keys :
    (max_gap : ℕ) (fields : List ModbusField) (list : List Area)
    → IsApart list
    → Keys list (plan_areas list fields max_gap)
unfolding plan_areas
plan_areas-Keys max_gap fields [] apart = (tt, tt)
plan_areas-Keys max_gap fields (area ∷ list) apart =
    join-Keys area list (plan_area area max_gap (sort_fields (in_area area fields)))
      (plan_areas list fields max_gap) apart.0
      (plan_area-AreaKeys area max_gap (sort_fields (in_area area fields))
        (sort_fields-IsSorted (in_area area fields)))
      (plan_areas-Keys max_gap fields list apart.1)

-- No two commands of a plan begin at one address of one area.
pub plan_reads-IsKeyed :
    (fields : List ModbusField) (max_gap : ℕ) (commands : List ReadCommand)
    → plan_reads fields max_gap ≡ planned commands
    → IsKeyed commands
unfolding plan_reads
plan_reads-IsKeyed fields max_gap commands e =
    (subst (Keys areas) e
      (plan_areas-Keys max_gap fields areas (refl, (refl, (refl, (refl, tt)))))).1
