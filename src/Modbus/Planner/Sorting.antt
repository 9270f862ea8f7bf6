-- ===== src/Modbus/Planner/Sorting.antt =====
-- adapters/modbus/_planner.py: the fields of an area are sorted by address.
use xime_framework.Prelude.{
  ◌≤◌, ◌≡◌, refl, Bool, true, false, List, [], ◌∷◌, arith, if◌then◌else◌, leb, Bool-cases, inl, inr,
  All, All-map,
}
use xime_framework.Modbus.Model.{ModbusField}
use xime_framework.Modbus.Planner.{insert_field, sort_fields}

abbrev pub IsSorted : List ModbusField → Type 0
IsSorted [] = Unit
IsSorted (f ∷ fs) = All (λ g. f.address ≤ g.address) fs × IsSorted fs

insert_field-All {κ} :
    (P : ModbusField → Type κ) (f : ModbusField) (gs : List ModbusField)
    → P f
    → All P gs
    → All P (insert_field f gs)
unfolding insert_field
insert_field-All P f [] p h = (p, tt)
insert_field-All P f (g ∷ gs) p h = elim (Bool-cases (leb f.address g.address)) [
  | inl e ↦ rw e (p, h)
  | inr e ↦ rw e (h.0, insert_field-All P f gs p h.1)
]

All-insert_field {κ} :
    (P : ModbusField → Type κ) (f : ModbusField) (gs : List ModbusField)
    → All P (insert_field f gs)
    → P f × All P gs
unfolding insert_field
All-insert_field P f [] h = h
All-insert_field P f (g ∷ gs) h = by_test (leb f.address g.address) (All-insert_field P f gs) h
  where
    by_test :
        (b : Bool)
        → (All P (insert_field f gs) → P f × All P gs)
        → All P (if b then f ∷ g ∷ gs else g ∷ insert_field f gs)
        → P f × All P (g ∷ gs)
    by_test true below k = k
    by_test false below k = let (p, rest) = below k.1 in (p, (k.0, rest))

pub sort_fields-All {κ} :
    (P : ModbusField → Type κ) (fs : List ModbusField) → All P fs → All P (sort_fields fs)
unfolding sort_fields
sort_fields-All P [] h = tt
sort_fields-All P (f ∷ fs) h = insert_field-All P f (sort_fields fs) h.0 (sort_fields-All P fs h.1)

pub All-sort_fields {κ} :
    (P : ModbusField → Type κ) (fs : List ModbusField) → All P (sort_fields fs) → All P fs
unfolding sort_fields
All-sort_fields P [] h = tt
All-sort_fields P (f ∷ fs) h =
    let (p, rest) = All-insert_field P f (sort_fields fs) h in (p, All-sort_fields P fs rest)

insert_field-IsSorted :
    (f : ModbusField) (gs : List ModbusField) → IsSorted gs → IsSorted (insert_field f gs)
unfolding insert_field
insert_field-IsSorted f [] s = (tt, tt)
insert_field-IsSorted f (g ∷ gs) s =
    by_test (leb f.address g.address) refl (insert_field-IsSorted f gs s.1)
  where
    by_test :
        (b : Bool)
        → leb f.address g.address ≡ b
        → IsSorted (insert_field f gs)
        → IsSorted (if b then f ∷ g ∷ gs else g ∷ insert_field f gs)
    by_test true e below = (
      (
        ground arith,
        All-map (λ h. g.address ≤ h.address) (λ h. f.address ≤ h.address) gs (λ h p. ground arith)
            s.0,
      ),
      s,
    )
    by_test false e below =
        (insert_field-All (λ h. g.address ≤ h.address) f gs (ground arith) s.0, below)

pub sort_fields-IsSorted : (fs : List ModbusField) → IsSorted (sort_fields fs)
unfolding sort_fields
sort_fields-IsSorted [] = tt
sort_fields-IsSorted (f ∷ fs) = insert_field-IsSorted f (sort_fields fs) (sort_fields-IsSorted fs)
