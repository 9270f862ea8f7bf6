-- ===== src/Modbus/Client/Reads.antt =====
-- adapters/modbus/_client.py: a model read with the planned commands, and each field on its own.
use xime_framework.Prelude.{
  ℕ, ◌+◌, ◌-◌, ◌≤◌, ◌≡◌, refl, Bool, true, false, List, [], ◌∷◌, map, arith, if◌then◌else◌, length,
  ap, ap₂, subst, sym, ◌∙◌, All, All-map, Any, Any-map, inl, inr, ◌⊎◌,
}
use xime_framework.Modbus.Model.{Area, same_area, ModbusField, word_count}
use xime_framework.Modbus.Planner.{ReadCommand, Plan, planned, too_large, plan_reads, covers}
use xime_framework.Modbus.Planner.Coverage.{IsCovered}
use xime_framework.Modbus.Planner.Plans.{IsPlan, IsRefused, plan_reads-IsPlan}
use xime_framework.Modbus.Planner.Keys.{IsKeyed, plan_reads-IsKeyed, same_area_eq}
use xime_framework.Modbus.Codec.{CodedField, Value, Coded, ok, Conversions, take, decode_field}
use xime_framework.Modbus.Client.{
  Items, drop, covering, cut, slice_for, and_then, collect, Answer, decoded, refused, read_commands,
  read_field, decode_device, read_model,
}
use xime_framework.Modbus.Client.Dict.{IsAt, IsRead, read_commands-Holds, read_commands-IsRead}

collect_same {ℓ} :
    {A : Type ℓ} (f g : CodedField → Coded A) (fields : List CodedField)
    → All (λ coded. f coded ≡ g coded) fields
    → collect f fields ≡ collect g fields
collect_same f g [] all = refl
collect_same f g (coded ∷ rest) all =
    ap₂ (λ x xs. and_then x (λ value. and_then xs (λ values. ok (value ∷ values)))) all.0
      (collect_same f g rest all.1)

-- The fields of a model.
abbrev pub plain_fields : List CodedField → List ModbusField
plain_fields fields = map (λ coded. coded.field) fields

All-plain_fields {κ} :
    (P : ModbusField → Type κ) (fields : List CodedField)
    → All P (plain_fields fields)
    → All (λ coded. P coded.field) fields
All-plain_fields P [] all = tt
All-plain_fields P (coded ∷ rest) all = (all.0, All-plain_fields P rest all.1)

-- A model read at once, and what the same fields give one by one.
abbrev pub AsAlone {ℓ} :
    {V : Type ℓ}
    → (Area → ℕ → ℕ → List ℕ)
    → Conversions V
    → List CodedField
    → Answer (List (Value V))
    → Type ℓ
AsAlone read py fields answer =
    (answer ≡ decoded (collect (read_field read py) fields))
    ⊎ ((f : ModbusField) × (answer ≡ refused f) × IsRefused (plain_fields fields) f)

module _ (read : Area → ℕ → ℕ → List ℕ)
    (whole : (area : Area) (start n : ℕ) → length (read area start n) ≡ n)
    (part : (area : Area) (start n i k : ℕ)
      → i + k ≤ n
      → take k (drop i (read area start n)) ≡ read area (start + i) k) where
  -- A read that covers a field holds what a read of the field alone gives.
  cut-read :
      (field : ModbusField) (item : ℕ × List ℕ)
      → IsRead read field.area item
      → covering field item ≡ true
      → cut field item ≡ read field.area field.address (word_count field)
  cut-read field item (n, e) covered =
      ap (λ (values : List ℕ). take (word_count field) (drop (field.address - item.0) values)) e
      ∙ part field.area item.0 n (field.address - item.0) (word_count field)
          (ground (arith, covered, long))
      ∙ ap (λ s. read field.area s (word_count field)) (ground (arith, covered))
    where
      long : length item.1 ≡ n
      long = ap length e ∙ whole field.area item.0 n

  slice_for-read :
      (field : ModbusField) (items : Items)
      → All (IsRead read field.area) items
      → Any (λ item. covering field item ≡ true) items
      → slice_for field items ≡ ok (read field.area field.address (word_count field))
  unfolding slice_for
  slice_for-read field [] all h = absurd h
  slice_for-read field (item ∷ items) all h =
      by_test (covering field item) refl (slice_for-read field items all.1) h
    where
      by_test :
          (b : Bool)
          → covering field item ≡ b
          → (Any (λ i. covering field i ≡ true) items
              → slice_for field items ≡ ok (read field.area field.address (word_count field)))
          → Any (λ i. covering field i ≡ true) (item ∷ items)
          → (if b then ok (cut field item) else slice_for field items)
            ≡ ok (read field.area field.address (word_count field))
      by_test true e rest k = ap ok (cut-read field item all.0 e)
      by_test false e rest (inl k) = absurd (cc)
      by_test false e rest (inr k) = rest k

  covers_area :
      (c : ReadCommand) (field : ModbusField)
      → covers c field ≡ true
      → same_area field.area c.area ≡ true
  unfolding covers
  covers_area c field e = ground arith

  at_covering :
      (c : ReadCommand) (field : ModbusField)
      → covers c field ≡ true
      → (item : ℕ × List ℕ) → IsAt c.address (read c.area c.address c.count) item
      → covering field item ≡ true
  unfolding covers
  at_covering c field e item (start, values) = ground (arith, long)
    where
      long : length item.1 ≡ c.count
      long = ap length values ∙ whole c.area c.address c.count

  -- The dict after the commands of a plan gives each field its own values.
  slice_for-commands :
      (commands : List ReadCommand) (field : ModbusField)
      → IsKeyed commands
      → IsCovered commands field
      → slice_for field (read_commands read commands (λ _. []) field.area)
        ≡ ok (read field.area field.address (word_count field))
  slice_for-commands commands field keyed covered =
      let (c, covers_it, held) =
        read_commands-Holds read (λ c. covers c field ≡ true) commands (λ _. []) keyed covered in
      slice_for-read field (read_commands read commands (λ _. []) field.area)
        (read_commands-IsRead read field.area commands (λ _. []) tt)
        (subst
          (λ a. Any (λ item. covering field item ≡ true) (read_commands read commands (λ _. []) a))
          (sym (same_area_eq field.area c.area (covers_area c field covers_it)))
          (Any-map _ _ (read_commands read commands (λ _. []) c.area)
            (at_covering c field covers_it) held))

  module _ {ℓ} {V : Type ℓ} (py : Conversions V) where
    decode_device-commands :
        (fields : List CodedField) (commands : List ReadCommand)
        → IsKeyed commands
        → All (IsCovered commands) (plain_fields fields)
        → decode_device py fields (read_commands read commands (λ _. []))
          ≡ collect (read_field read py) fields
    unfolding decode_device
    decode_device-commands fields commands keyed covered =
        collect_same _ (read_field read py) fields (
          All-map _ _ fields
            (λ coded c.
              ap (λ s. and_then s (decode_field py coded))
                (slice_for-commands commands coded.field keyed c))
            (All-plain_fields (IsCovered commands) fields covered))

    -- Over a connection whose read of a span gives as many values as asked, and of which each part is
    -- what a read of that part gives: reading a model of fields of at least one word gives, error or not,
    -- what reading its fields one by one gives, or it is refused for a field that no read can hold.
    pub read_model-AsAlone :
        (fields : List CodedField) (max_gap : ℕ)
        → All (λ f. 1 ≤ word_count f) (plain_fields fields)
        → AsAlone read py fields (read_model read py fields max_gap)
    unfolding read_model
    read_model-AsAlone fields max_gap sized =
        by_plan (plan_reads (plain_fields fields) max_gap) refl
          (plan_reads-IsPlan (plain_fields fields) max_gap sized)
      where
        by_plan :
            (r : Plan (List ReadCommand))
            → plan_reads (plain_fields fields) max_gap ≡ r
            → IsPlan max_gap (plain_fields fields) r
            → AsAlone read py fields (elim r [
              | too_large f ↦ refused f
              | planned commands ↦
                  decoded (decode_device py fields (read_commands read commands (λ _. [])))
            ])
        by_plan (too_large f) e plan = inr (f, refl, plan)
        by_plan (planned commands) e plan = inl (
            ap decoded (
              decode_device-commands fields commands
                (plan_reads-IsKeyed (plain_fields fields) max_gap commands e) plan.0))
