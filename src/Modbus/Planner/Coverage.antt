-- ===== src/Modbus/Planner/Coverage.antt =====
-- adapters/modbus/_planner.py: a plan covers every field, keeps the limits of the protocol, and
-- reads no address farther than `max_gap` before a field.
use xime_framework.Prelude.{
  ℕ, ◌+◌, ◌≤◌, ◌<◌, ◌≡◌, true, List, ◌∷◌, arith, ltb, max, Bool-cases, inl, inr, All, Any, All-map,
}
use xime_framework.Modbus.Model.{Area, same_area, ModbusField, word_count, end_address}
use xime_framework.Modbus.Planner.{ReadCommand, command_end, covers, limit_of, command_for}
use xime_framework.Modbus.Planner.Sorting.{IsSorted}
use xime_framework.Modbus.Planner.Runs.{Loop, last, merge, split}

abbrev pub IsCovered : List ReadCommand → ModbusField → Type 0
IsCovered commands f = Any (λ c. covers c f ≡ true) commands

-- The address lies in a field, or at most `max_gap` before one.
abbrev pub IsNeeded : ℕ → Area → List ModbusField → ℕ → Type 0
IsNeeded max_gap area fields a =
    Any (λ f. (same_area f.area area ≡ true) × (f.address ≤ a + max_gap) × (a < end_address f))
      fields

-- One command keeps the limit of its area and reads only what is needed.
pub record IsSound (max_gap : ℕ) (fields : List ModbusField) (c : ReadCommand) : Type 0 where
  pub some_address : 1 ≤ c.count
  pub within_limit : c.count ≤ limit_of c.area
  pub needed : (a : ℕ) → c.address ≤ a → a < command_end c → IsNeeded max_gap c.area fields a

module _ (area : Area) (max_gap : ℕ) where
  covered_by :
      (start end : ℕ) (g : ModbusField)
      → same_area g.area area ≡ true
      → start ≤ g.address
      → end_address g ≤ end
      → start ≤ end
      → covers (command_for area start end) g ≡ true
  unfolding covers
  covered_by start end g i s e o = ground arith

  -- What lies between `start` and `end`, and every field to come, is covered.
  pub Loop-IsCovered :
      (fields : List ModbusField) (start end : ℕ) (commands : List ReadCommand)
      → Loop area max_gap fields start end commands
      → start ≤ end
      → All (λ g. start ≤ g.address) fields
      → IsSorted fields
      → All (λ g. same_area g.area area ≡ true) fields
      → ((g : ModbusField)
          → same_area g.area area ≡ true
          → start ≤ g.address
          → end_address g ≤ end
          → IsCovered commands g)
        × All (IsCovered commands) fields
  Loop-IsCovered _ _ _ _ (last start end) o after sorted inside =
      ((λ g i s e. inl (covered_by start end g i s e o)), tt)
  Loop-IsCovered _ _ _ _ (merge {fields} {start} {end} {commands} f small near short run) o after
        sorted inside =
      let (old, rest) =
        Loop-IsCovered fields start (max end (end_address f)) commands run (omega arith) after.1
          sorted.1 inside.1 in
      ((λ g i s e. old g i s (omega arith)), (old f inside.0 after.0 (omega arith), rest))
  Loop-IsCovered _ _ _ _ (split {fields} {start} {end} {commands} f small apart run) o after sorted
        inside =
      let (own, rest) =
        Loop-IsCovered fields f.address (end_address f) commands run (omega arith) sorted.0 sorted.1
          inside.1 in
      (
        (λ g i s e. inl (covered_by start end g i s e o)),
        (
          inr (own f inside.0 (omega arith) (omega arith)),
          All-map (IsCovered commands) (IsCovered (command_for area start end ∷ commands)) fields
              (λ g c. inr c) rest,
        ),
      )

  module _ (all : List ModbusField) where
    abbrev pub Member : ModbusField → Type 0
    Member f = (a : ℕ) → f.address ≤ a + max_gap → a < end_address f → IsNeeded max_gap area all a

    -- Each command of the run is sound, if what lies between `start` and `end` is needed.
    pub Loop-IsSound :
        (fields : List ModbusField) (start end : ℕ) (commands : List ReadCommand)
        → Loop area max_gap fields start end commands
        → start < end
        → end ≤ start + limit_of area
        → All (λ g. start ≤ g.address) fields
        → IsSorted fields
        → All (λ g. 1 ≤ word_count g) fields
        → All Member fields
        → ((a : ℕ) → start ≤ a → a < end → IsNeeded max_gap area all a)
        → All (IsSound max_gap all) commands
    Loop-IsSound _ _ _ _ (last start end) o l after sorted sized m needed = (
      record {
        some_address = omega arith;
        within_limit = omega arith;
        needed = λ a p q. needed a p (omega arith);
      },
      tt,
    )
    Loop-IsSound _ _ _ _ (merge {fields} {start} {end} {commands} f small near short run) o l after
          sorted sized m needed =
        Loop-IsSound fields start (max end (end_address f)) commands run (omega arith) (omega arith)
          after.1 sorted.1 sized.1 m.1
          (λ a p q. elim (Bool-cases (ltb a end)) [
            | inl e ↦ needed a p (ground arith)
            | inr e ↦ m.0 a (ground arith) (ground arith)
          ])
    Loop-IsSound _ _ _ _ (split {fields} {start} {end} {commands} f small apart run) o l after
          sorted sized m needed =
        (
          record {
            some_address = omega arith;
            within_limit = omega arith;
            needed = λ a p q. needed a p (omega arith);
          },
          Loop-IsSound fields f.address (end_address f) commands run (omega (arith, sized.0))
              (omega arith) sorted.0 sorted.1 sized.1 m.1 (λ a p q. m.0 a (omega arith) q),
        )
