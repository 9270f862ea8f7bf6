-- ===== src/Modbus/Planner.antt =====
-- adapters/modbus/_planner.py: from the fields of a device to the read commands.
-- `gap <= max_gap` and `merged_size <= limit` compare Python differences that may be negative;
-- they are written here as sums. `max_gap` is a natural number, so its check has no counterpart.
pub mod Sorting
pub mod Runs
pub mod Coverage
pub mod Plans
pub mod Keys
use xime_framework.Prelude.{
  ℕ, ◌+◌, ◌-◌, ◌≤◌, Bool, true, false, ◌&&◌, List, [], ◌∷◌, ◌++◌, leb, ltb, if◌then◌else◌, keep,
  max,
}
use xime_framework.Modbus.Model.{
  Area, coil, discrete, input, holding, is_bit, same_area, ModbusField, word_count, end_address,
}

abbrev pub max_registers_per_read : ℕ
max_registers_per_read = 125

abbrev pub max_bits_per_read : ℕ
max_bits_per_read = 2000

pub record ReadCommand : Type 0 where
  pub area : Area
  pub address : ℕ
  pub count : ℕ

abbrev pub command_end : ReadCommand → ℕ
command_end command = command.address + command.count

-- ReadCommand.covers
unfoldable pub covers : ReadCommand → ModbusField → Bool
covers command field =
    same_area field.area command.area
    && leb command.address field.address
    && leb (end_address field) (command_end command)

-- A plan, or the field that is too large for one read.
pub data Plan {ℓ} (A : Type ℓ) : Type ℓ where
  planned : A → Plan A
  too_large : ModbusField → Plan A

abbrev pub limit_of : Area → ℕ
limit_of area = if is_bit area then max_bits_per_read else max_registers_per_read

unfoldable pub span : ModbusField → ℕ → Plan ℕ
span field limit =
    if ltb limit (word_count field) then too_large field else planned (word_count field)

abbrev pub command_for : Area → ℕ → ℕ → ReadCommand
command_for area start end = record { area = area; address = start; count = end - start }

abbrev pub prepend : ReadCommand → Plan (List ReadCommand) → Plan (List ReadCommand)
prepend command (planned commands) = planned (command ∷ commands)
prepend command (too_large field) = too_large field

-- `sorted(..., key=lambda f: f.address)`, which is stable.
unfoldable pub insert_field : ModbusField → List ModbusField → List ModbusField
insert_field f [] = f ∷ []
insert_field f (g ∷ gs) = if leb f.address g.address then f ∷ g ∷ gs else g ∷ insert_field f gs

unfoldable pub sort_fields : List ModbusField → List ModbusField
unfolding insert_field
sort_fields [] = []
sort_fields (f ∷ fs) = insert_field f (sort_fields fs)

module _ (area : Area) (max_gap : ℕ) where
  -- The loop over `fields[1:]` and the last command.
  unfoldable pub plan_rest : List ModbusField → ℕ → ℕ → Plan (List ReadCommand)
  unfolding span
  plan_rest [] start end = planned (command_for area start end ∷ [])
  plan_rest (field ∷ fields) start end = elim (span field (limit_of area)) [
    | too_large f ↦ too_large f
    | planned size ↦
        elim (leb field.address (end + max_gap)
          && leb (field.address + size) (start + limit_of area)) [
            | true ↦ plan_rest fields start (max end (field.address + size))
            | false ↦
                prepend (command_for area start end)
                  (plan_rest fields field.address (field.address + size))
          ]
  ]

  -- `_plan_area`, and nothing for an area with no field.
  unfoldable pub plan_area : List ModbusField → Plan (List ReadCommand)
  unfolding plan_rest
  plan_area [] = planned []
  plan_area (field ∷ fields) = elim (span field (limit_of area)) [
    | too_large f ↦ too_large f
    | planned size ↦ plan_rest fields field.address (field.address + size)
  ]

abbrev pub join : Plan (List ReadCommand) → Plan (List ReadCommand) → Plan (List ReadCommand)
join (planned xs) (planned ys) = planned (xs ++ ys)
join (planned xs) (too_large f) = too_large f
join (too_large f) _ = too_large f

abbrev pub in_area : Area → List ModbusField → List ModbusField
in_area area fields = keep (λ f. same_area f.area area) fields

abbrev pub areas : List Area
areas = coil ∷ discrete ∷ input ∷ holding ∷ []

unfoldable pub plan_areas : List Area → List ModbusField → ℕ → Plan (List ReadCommand)
unfolding plan_area sort_fields
plan_areas [] fields max_gap = planned []
plan_areas (area ∷ rest) fields max_gap =
    join (plan_area area max_gap (sort_fields (in_area area fields)))
      (plan_areas rest fields max_gap)

unfoldable pub plan_reads : List ModbusField → ℕ → Plan (List ReadCommand)
unfolding plan_areas
plan_reads fields max_gap = plan_areas areas fields max_gap
