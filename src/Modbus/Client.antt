-- ===== src/Modbus/Client.antt =====
-- adapters/modbus/_client.py and _codec.py: reading a device model, and one field. The connection
-- that reads a span of an area is a parameter.
pub mod Dict
pub mod Reads
use xime_framework.Prelude.{
  ℕ, zero, suc, ◌+◌, ◌-◌, Bool, true, false, ◌&&◌, Option, none, some, List, [], ◌∷◌, map, ◌==◌,
  leb, if◌then◌else◌, length,
}
use xime_framework.Modbus.Model.{Area, same_area, ModbusField, word_count, end_address}
use xime_framework.Modbus.Planner.{ReadCommand, Plan, planned, too_large, plan_reads}
use xime_framework.Modbus.Codec.{
  CodedField, Value, Coded, ok, err, not_covered, Conversions, take, decode_field,
}

-- The values that were read from a start address, by address, in the order of the dict.
abbrev pub Items : Type 0
Items = List (ℕ × List ℕ)

abbrev pub Payloads : Type 0
Payloads = Area → Items

-- `items[start] = values`
abbrev pub put_item : ℕ → List ℕ → Items → Items
put_item start values [] = (start, values) ∷ []
put_item start values (item ∷ items) =
    if item.0 == start then (start, values) ∷ items else item ∷ put_item start values items

-- `payloads.setdefault(area, {})[start] = values`
abbrev pub store_payload : Area → ℕ → List ℕ → Payloads → Payloads
store_payload area start values payloads a =
    if same_area area a then put_item start values (payloads a) else payloads a

abbrev pub drop {ℓ} : {A : Type ℓ} → ℕ → List A → List A
drop zero xs = xs
drop (suc n) [] = []
drop (suc n) (x ∷ xs) = drop n xs

abbrev pub covering : ModbusField → ℕ × List ℕ → Bool
covering field item = leb item.0 field.address && leb (end_address field) (item.0 + length item.1)

-- `values[begin:begin + n]`
abbrev pub cut : ModbusField → ℕ × List ℕ → List ℕ
cut field item = take (word_count field) (drop (field.address - item.0) item.1)

unfoldable pub slice_for : ModbusField → Items → Coded (List ℕ)
slice_for field [] = err not_covered
slice_for field (item ∷ items) =
    if covering field item then ok (cut field item) else slice_for field items

abbrev pub and_then {ℓ κ} : {A : Type ℓ} {B : Type κ} → Coded A → (A → Coded B) → Coded B
and_then (ok a) f = f a
and_then (err e) f = err e

-- The values of the fields in their order, or the first error.
abbrev pub collect {ℓ} : {A : Type ℓ} → (CodedField → Coded A) → List CodedField → Coded (List A)
collect f [] = ok []
collect f (coded ∷ rest) =
    and_then (f coded) (λ value. and_then (collect f rest) (λ values. ok (value ∷ values)))

-- A device model, or the field that no read can hold.
pub data Answer {ℓ} (A : Type ℓ) : Type ℓ where
  decoded : Coded A → Answer A
  refused : ModbusField → Answer A

module _ (read : Area → ℕ → ℕ → List ℕ) where
  -- The loop over the commands.
  unfoldable pub read_commands : List ReadCommand → Payloads → Payloads
  read_commands [] payloads = payloads
  read_commands (c ∷ cs) payloads =
      read_commands cs (store_payload c.area c.address (read c.area c.address c.count) payloads)

  module _ {ℓ} {V : Type ℓ} (py : Conversions V) where
    abbrev pub read_field : CodedField → Coded (Value V)
    read_field coded =
        decode_field py coded (read coded.field.area coded.field.address (word_count coded.field))

-- decode_device
unfoldable pub decode_device {ℓ} :
    {V : Type ℓ} → Conversions V → List CodedField → Payloads → Coded (List (Value V))
unfolding slice_for
decode_device py fields payloads =
    collect
      (λ coded.
        and_then (slice_for coded.field (payloads coded.field.area)) (decode_field py coded))
      fields

-- read()
unfoldable pub read_model {ℓ} :
    {V : Type ℓ}
    → (Area → ℕ → ℕ → List ℕ)
    → Conversions V
    → List CodedField
    → ℕ
    → Answer (List (Value V))
unfolding read_commands decode_device
read_model read py fields max_gap = elim (plan_reads (map (λ coded. coded.field) fields) max_gap) [
  | too_large f ↦ refused f
  | planned commands ↦ decoded (decode_device py fields (read_commands read commands (λ _. [])))
]
