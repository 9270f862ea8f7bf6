-- ===== src/Modbus/Planner/Runs.antt =====
-- adapters/modbus/_planner.py: the runs of the loop over the fields of one area.
use xime_framework.Prelude.{
  ℕ, ◌+◌, ◌≤◌, ◌≡◌, refl, Bool, true, false, ◌&&◌, List, [], ◌∷◌, arith, leb, ltb, max,
  if◌then◌else◌, subst, &&_split, leb→le,
}
use xime_framework.Modbus.Model.{Area, ModbusField, word_count, end_address}
use xime_framework.Modbus.Planner.{
  ReadCommand, Plan, planned, too_large, limit_of, command_for, prepend, plan_rest,
}

module _ (area : Area) (max_gap : ℕ) where
  abbrev pub fits : ModbusField → ℕ → ℕ → Bool
  fits f start end =
      leb f.address (end + max_gap) && leb (f.address + word_count f) (start + limit_of area)

  -- A run of the loop over the fields of one area that ended with these commands.
  pub data Loop : List ModbusField → ℕ → ℕ → List ReadCommand → Type 0 where
    last : (start end : ℕ) → Loop [] start end (command_for area start end ∷ [])
    merge :
        {fields : List ModbusField} {start end : ℕ} {commands : List ReadCommand} (f : ModbusField)
        → word_count f ≤ limit_of area
        → f.address ≤ end + max_gap
        → end_address f ≤ start + limit_of area
        → Loop fields start (max end (end_address f)) commands
        → Loop (f ∷ fields) start end commands
    split :
        {fields : List ModbusField} {start end : ℕ} {commands : List ReadCommand} (f : ModbusField)
        → word_count f ≤ limit_of area
        → fits f start end ≡ false
        → Loop fields f.address (end_address f) commands
        → Loop (f ∷ fields) start end (command_for area start end ∷ commands)

  pub too_large-ne-planned :
      {f : ModbusField} {commands : List ReadCommand} → ¬ (too_large f ≡ planned commands)
  too_large-ne-planned e = cc

  prepend-eq-planned :
      (c : ReadCommand) (r : Plan (List ReadCommand)) (commands : List ReadCommand)
      → prepend c r ≡ planned commands
      → (rest : List ReadCommand) × (r ≡ planned rest) × (c ∷ rest ≡ commands)
  prepend-eq-planned c (planned rest) commands e = (rest, refl, ground arith)
  prepend-eq-planned c (too_large f) commands e = absurd (too_large-ne-planned e)

  test_case :
      (f : ModbusField) (fields : List ModbusField) (start end : ℕ) (commands : List ReadCommand)
      (b : Bool)
      → fits f start end ≡ b
      → word_count f ≤ limit_of area
      → ((s e : ℕ) (cs : List ReadCommand)
          → plan_rest area max_gap fields s e ≡ planned cs
          → Loop fields s e cs)
      → (elim b as (λ _. Plan (List ReadCommand)) [
        | true ↦ plan_rest area max_gap fields start (max end (f.address + word_count f))
        | false ↦
            prepend
              (command_for area start end)
              (plan_rest area max_gap fields f.address (f.address + word_count f))
      ])
        ≡ planned commands
      → Loop (f ∷ fields) start end commands
  test_case f fields start end commands true e small ih h =
      let (near, short) = &&_split _ _ e in
      merge f small (leb→le _ _ near) (leb→le _ _ short) (ih start _ commands h)
  test_case f fields start end commands false e small ih h =
      let (rest, r, same) = prepend-eq-planned _ _ commands h in
      subst (Loop (f ∷ fields) start end) same (split f small e (ih f.address _ rest r))

  span_case :
      (f : ModbusField) (fields : List ModbusField) (start end : ℕ) (commands : List ReadCommand)
      (big : Bool)
      → ltb (limit_of area) (word_count f) ≡ big
      → ((s e : ℕ) (cs : List ReadCommand)
          → plan_rest area max_gap fields s e ≡ planned cs
          → Loop fields s e cs)
      → (elim (if big then too_large f else planned (word_count f))
          as (λ _. Plan (List ReadCommand)) [
            | too_large g ↦ too_large g
            | planned size ↦
                elim (leb f.address (end + max_gap)
                  && leb (f.address + size) (start + limit_of area)) [
                    | true ↦ plan_rest area max_gap fields start (max end (f.address + size))
                    | false ↦
                        prepend
                          (command_for area start end)
                          (plan_rest area max_gap fields f.address (f.address + size))
                  ]
          ])
        ≡ planned commands
      → Loop (f ∷ fields) start end commands
  span_case f fields start end commands true e ih h = absurd (too_large-ne-planned h)
  span_case f fields start end commands false e ih h =
      test_case f fields start end commands (fits f start end) refl (ground arith) ih h

  pub plan_rest-Loop :
      (fields : List ModbusField) (start end : ℕ) (commands : List ReadCommand)
      → plan_rest area max_gap fields start end ≡ planned commands
      → Loop fields start end commands
  unfolding plan_rest
  plan_rest-Loop [] start end commands h =
      subst (Loop [] start end) (planned_same h) (last start end)
    where
      planned_same : {xs ys : List ReadCommand} → planned xs ≡ planned ys → xs ≡ ys
      planned_same e = cc
  plan_rest-Loop (f ∷ fields) start end commands h =
      span_case f fields start end commands (ltb (limit_of area) (word_count f)) refl
        (plan_rest-Loop fields) h
